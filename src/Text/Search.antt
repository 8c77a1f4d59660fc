-- ===== src/Text/Search.antt =====
-- `std::string::find`: the position of the first occurrence, `none` for `npos`.
use pc_unlock_project.Common.{
  ℕ, suc, ◌+◌, ◌≤◌, ◌≡◌, refl, Bool, true, false, ◌&&◌, ◌==◌, if◌then◌else◌, [], ◌∷◌, Option, none,
  some, Bytes, length, arith, Option-cases, inl, inr,
}

unfoldable pub starts_with : Bytes → Bytes → Bool
starts_with [] s = true
starts_with (p ∷ ps) [] = false
starts_with (p ∷ ps) (c ∷ cs) = p == c && starts_with ps cs

abbrev pub next_position : Option ℕ → Option ℕ
next_position none = none
next_position (some i) = some (suc i)

unfoldable pub find_text : Bytes → Bytes → Option ℕ
unfolding starts_with
find_text p [] = if starts_with p [] then some 0 else none
find_text p (c ∷ cs) =
    let later = next_position (find_text p cs) in if starts_with p (c ∷ cs) then some 0 else later

starts_with-length : (p s : Bytes) → starts_with p s ≡ true → length p ≤ length s
unfolding starts_with
starts_with-length [] s h = omega arith
starts_with-length (p ∷ ps) [] h = ground arith
starts_with-length (p ∷ ps) (c ∷ cs) h = ground (arith, starts_with-length ps cs)

-- An occurrence lies within the text.
pub find_text-length : (p s : Bytes) (i : ℕ) → find_text p s ≡ some i → i + length p ≤ length s
unfolding find_text
find_text-length p [] i h = ground (arith, starts_with-length p [])
find_text-length p (c ∷ cs) i h = elim (Option-cases (find_text p cs)) [
  | inl e ↦ ground (arith, starts_with-length p (c ∷ cs))
  | inr (k, e) ↦ ground (arith, starts_with-length p (c ∷ cs), find_text-length p cs k e)
]

pub find_text-front :
    (p : Bytes) (c : ℕ) (s : Bytes) → starts_with p (c ∷ s) ≡ true → find_text p (c ∷ s) ≡ some 0
unfolding find_text
find_text-front p c s e = rw (e, find_text) refl

pub find_text-later :
    (p : Bytes) (c : ℕ) (s : Bytes)
    → starts_with p (c ∷ s) ≡ false
    → find_text p (c ∷ s) ≡ next_position (find_text p s)
unfolding find_text
find_text-later p c s e = rw (e, find_text) refl
