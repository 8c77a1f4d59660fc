-- ===== src/Tests/KeyStore.antt =====
-- A registry in memory, as lists of keys and values, which works as documented.
use pc_unlock_project.Common.{
  is_empty, ℕ, ◌+◌, ◌≡◌, refl, ap, ◌∙◌, Bool, true, false, not, ◌&&◌, ◌||◌, ◌==◌, if◌then◌else◌,
  List, [], ◌∷◌, ◌++◌, Option, none, some, Bytes, length, take, drop, map, bytes_eq, bytes_eq_iff,
  arith, Bool-cases, inl, inr,
}
use pc_unlock_project.Registry.Win32.{
  Wide, WinRegistry, Documented, found, listed, nth, same, same_refl, lower, error_success,
  error_file_not_found, error_access_denied,
}

pub record Key : Type 0 where
  pub root : ℕ
  pub path : Wide

pub record Value : Type 0 where
  pub key : Key
  pub name : Wide
  pub bytes : Bytes

pub record KeyStore : Type 0 where
  pub keys : List Key
  pub values : List Value

abbrev is_key : ℕ → Wide → Key → Bool
is_key r q k = k.root == r && same k.path q

abbrev has : ℕ → Wide → List Key → Bool
has r q [] = false
has r q (k ∷ ks) = is_key r q k || has r q ks

abbrev without : ℕ → Wide → List Key → List Key
without r p [] = []
without r p (k ∷ ks) =
    let rest = without r p ks in if k.root == r && same p k.path then rest else k ∷ rest

abbrev value_in : ℕ → Wide → Wide → List Value → Option Bytes
value_in r q n [] = none
value_in r q n (v ∷ vs) =
    let rest = value_in r q n vs in
    if v.key.root == r && (same v.key.path q && same v.name n) then some v.bytes else rest

-- The part of a path below `p`.
abbrev below : Wide → Wide → Wide
below p q =
    if bytes_eq (take (length p + 1) q) (p ++ (b'\\' ∷ [])) then drop (length p + 1) q else []

abbrev children : ℕ → Wide → List Key → List Wide
children r p [] = []
children r p (k ∷ ks) =
    let rest = children r p ks in
    if k.root == r then elim (below p k.path) [ [] ↦ rest | c ∷ cs ↦ (c ∷ cs) ∷ rest ] else rest

abbrev deletion : Bool → ℕ → Wide → KeyStore → ℕ × KeyStore
deletion true r p s = (error_success, record s { keys = without r p s.keys })
deletion false r p s = (error_access_denied, s)

abbrev pub key_store : WinRegistry
key_store = record {
  Store = KeyStore;
  create_key = λ r p s. (error_success, record s { keys = record { root = r; path = p } ∷ s.keys });
  open_key = λ r p s. if has r p s.keys then error_success else error_file_not_found;
  set_value = λ r p n b s. (
    error_success,
    record s {
      values = record { key = record { root = r; path = p }; name = n; bytes = b } ∷ s.values;
    },
  );
  query_value = λ r p n capacity s. found capacity (value_in r p n s.values);
  delete_key = λ r p s. deletion (is_empty (children r p s.keys)) r p s;
  enum_key = λ r p i capacity s. listed capacity (nth (children r p s.keys) i);
  set_security = λ r p s. (error_success, s);
}

pub ==-refl : (n : ℕ) → (n == n) ≡ true
==-refl n = ground arith

same-left : (p k q : Wide) → same k q ≡ true → same p k ≡ same p q
same-left p k q h = ap (bytes_eq (map lower p)) ((bytes_eq_iff (map lower k) (map lower q)).0 h)

has_if :
    (r : ℕ) (q : Wide) (b : Bool) (k : Key) (ks : List Key)
    → has r q (if b then ks else k ∷ ks) ≡ ((not b && is_key r q k) || has r q ks)
has_if r q true k ks = refl
has_if r q false k ks = refl

told_apart :
    (root hit rest pq : Bool)
    → ((not (root && pq) && (root && hit)) || (rest && not pq))
      ≡ (((root && hit) || rest) && not pq)
told_apart root hit rest pq = ground arith

missed :
    (root pk rest pq : Bool)
    → ((not (root && pk) && (root && false)) || (rest && not pq))
      ≡ (((root && false) || rest) && not pq)
missed root pk rest pq = ground arith

has-without :
    (r : ℕ) (p q : Wide) (ks : List Key) → has r q (without r p ks) ≡ (has r q ks && not (same p q))
has-without r p q [] = refl
has-without r p q (k ∷ ks) =
    has_if r q (k.root == r && same p k.path) k (without r p ks)
    ∙ ap (◌||◌ (not (k.root == r && same p k.path) && is_key r q k)) (has-without r p q ks)
    ∙ elim (Bool-cases (same k.path q)) [
      | inl hit ↦
          rw (same-left p k.path q hit, hit) (told_apart (k.root == r) true (has r q ks) (same p q))
      | inr miss ↦ rw miss (missed (k.root == r) (same p k.path) (has r q ks) (same p q))
    ]

pub kept : (h x : Bool) → (h && not (x || h)) ≡ false
kept h x = ground arith

pub deleted_lem :
    (leaf : Bool) (r : ℕ) (p q : Wide) (s : KeyStore)
    → has r q (deletion leaf r p s).1.keys ≡ (has r q s.keys && not (same p q && leaf))
deleted_lem true r p q s = has-without r p q s.keys ∙ ground arith
deleted_lem false r p q s = ground arith

unfoldable pub key_store_laws : Documented key_store
key_store_laws = record {
  has_key = λ r q s. has r q s.keys;
  value = λ r q n s. value_in r q n s.values;
  subkeys = λ r p s. children r p s.keys;
  create_lem = λ r p s. (refl, rw (==-refl r, same_refl p) refl);
  create_keeps = λ r p q s. kept _ _;
  create_value = λ r p q n s. refl;
  open_lem = λ r p s. refl;
  set_key = λ r p q n b s. refl;
  set_lem = λ r p q n m b s. rw (==-refl r) refl;
  query_lem = λ r p n capacity s. refl;
  delete_lem = λ r p q s. deleted_lem (is_empty (children r p s.keys)) r p q s;
  enum_lem = λ r p i capacity s. refl;
  secured_key = λ r p q s. refl;
  secured_value = λ r p q n s. refl;
}
