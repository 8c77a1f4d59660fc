-- ===== src/Common/Assoc.antt =====
-- A map (std::map, std::unordered_map) as a list of pairs; the newest pair of a key counts.
use Prim.Native.Nat.{ℕ}
use mathlib.Core.Path.{◌≡◌, refl, subst}
use mathlib.Core.Logic.{◌↔◌, inl, inr}
use mathlib.Core.Bool.{Bool, true}
use mathlib.Core.List.{List, [], ◌∷◌}
use mathlib.Core.Option.{Option, none, some}
use native.Mathlib.Omega.{arith}
use pc_unlock_project.Common.Tests.{◌==◌, ==_iff, if◌then◌else◌, if_cases, Bool-cases}
use pc_unlock_project.Common.Lists.{All}
use pc_unlock_project.Common.Memory.{Bytes, bytes_eq, bytes_eq_iff}

pub record Eq {ℓ} (K : Type ℓ) : Type ℓ where
  pub beq : K → K → Bool
  pub beq_iff : (a b : K) → (beq a b ≡ true) ↔ (a ≡ b)

abbrev nat_beq : ℕ → ℕ → Bool
nat_beq a b = a == b

instance abbrev pub nat_eq : Eq ℕ
nat_eq = record { beq = nat_beq; beq_iff = ==_iff }

instance abbrev pub bytes_Eq : Eq Bytes
bytes_Eq = record { beq = bytes_eq; beq_iff = bytes_eq_iff }

module _ {ℓ κ} {K : Type ℓ} {V : Type κ} ⦃e : Eq K⦄ where
  unfoldable pub find : K → List (K × V) → Option V
  find k [] = none
  find k ((j, v) ∷ m) = if e.beq j k then some v else find k m

  unfoldable pub insert : K → V → List (K × V) → List (K × V)
  insert k v [] = (k, v) ∷ []
  insert k v ((j, w) ∷ m) = if e.beq j k then (k, v) ∷ m else (j, w) ∷ insert k v m

  unfoldable pub erase : K → List (K × V) → List (K × V)
  erase k [] = []
  erase k ((j, w) ∷ m) = let rest = erase k m in if e.beq j k then rest else (j, w) ∷ rest

  pub find-insert :
      (k j : K) (v : V) (m : List (K × V))
      → find j (insert k v m) ≡ (if e.beq k j then some v else find j m)
  unfolding find insert
  find-insert k j v [] = refl
  find-insert k j v ((i, w) ∷ m) =
      ground (arith, e.beq_iff k j, e.beq_iff i k, e.beq_iff i j, find-insert k j v m)

  pub find-erase :
      (k j : K) (m : List (K × V)) → find j (erase k m) ≡ (if e.beq k j then none else find j m)
  unfolding find erase
  find-erase k j [] = ground arith
  find-erase k j ((i, w) ∷ m) =
      ground (arith, e.beq_iff k j, e.beq_iff i k, e.beq_iff i j, find-erase k j m)

  -- A property of all entries.
  pub AllEntries-insert {μ} :
      (P : K × V → Type μ) (k : K) (v : V) (m : List (K × V))
      → P (k, v)
      → All P m
      → All P (insert k v m)
  unfolding insert
  AllEntries-insert P k v [] h a = (h, tt)
  AllEntries-insert P k v ((j, w) ∷ m) h a =
      if_cases (All P) (e.beq j k) _ _ (λ f. (h, a.1)) (λ f. (a.0, AllEntries-insert P k v m h a.1))

  pub AllEntries-erase {μ} :
      (P : K × V → Type μ) (k : K) (m : List (K × V)) → All P m → All P (erase k m)
  unfolding erase
  AllEntries-erase P k [] a = tt
  AllEntries-erase P k ((j, w) ∷ m) a =
      if_cases (All P) (e.beq j k) _ _ (λ f. AllEntries-erase P k m a.1)
        (λ f. (a.0, AllEntries-erase P k m a.1))

  pub AllEntries-find {μ} :
      (P : K × V → Type μ) (k : K) (v : V) (m : List (K × V))
      → All P m
      → find k m ≡ some v
      → P (k, v)
  unfolding find
  AllEntries-find P k v [] a h = cc
  AllEntries-find P k v ((j, w) ∷ m) a h = elim (Bool-cases (e.beq j k)) [
    | inl eq ↦
        let same_key : j ≡ k = (e.beq_iff j k).0 eq in
        let same_value : w ≡ v = ground arith in subst P (λ i. (same_key i, same_value i)) a.0
    | inr other ↦ AllEntries-find P k v m a.1 (ground arith)
  ]

  pub erase-insert : (k : K) (v : V) (m : List (K × V)) → erase k (insert k v m) ≡ erase k m
  unfolding erase insert
  erase-insert k v [] = ground (arith, e.beq_iff k k)
  erase-insert k v ((j, w) ∷ m) = ground (arith, e.beq_iff k k, e.beq_iff j k, erase-insert k v m)
