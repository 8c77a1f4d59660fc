-- ===== src/Registry/Win32.antt =====
-- The calls of the Windows registry that the program makes. A key is given by its root and its path:
-- the code opens a handle, uses it and closes it within one function. Texts are wide strings, as lists
-- of UTF-16 code units.
use pc_unlock_project.Common.{
  is_empty, ℕ, ◌≡◌, ◌+◌, Bool, true, false, not, ◌&&◌, ltb, if◌then◌else◌, List, [], ◌∷◌, Option,
  none, some, Bytes, length, map, refl, bytes_eq, bytes_eq_iff,
}

abbrev pub Wide : Type 0
Wide = List ℕ

abbrev pub error_success : ℕ
error_success = 0

abbrev pub error_file_not_found : ℕ
error_file_not_found = 2

abbrev pub error_access_denied : ℕ
error_access_denied = 5

abbrev pub error_more_data : ℕ
error_more_data = 234

abbrev pub error_no_more_items : ℕ
error_no_more_items = 259

-- The predefined roots.
abbrev pub hkey_current_user : ℕ
hkey_current_user = 0x80000001

abbrev pub hkey_local_machine : ℕ
hkey_local_machine = 0x80000002

-- Each call answers its error code. RegQueryValueExW takes the size of the buffer, and gives what it
-- writes into it and the size that it reports; RegEnumKeyExW takes the size of the buffer too.
pub record WinRegistry : Type 1 where
  pub Store : Type 0
  pub create_key : ℕ → Wide → Store → ℕ × Store
  pub open_key : ℕ → Wide → Store → ℕ
  pub set_value : ℕ → Wide → Wide → Bytes → Store → ℕ × Store
  pub query_value : ℕ → Wide → Wide → ℕ → Store → ℕ × Bytes × ℕ
  pub delete_key : ℕ → Wide → Store → ℕ × Store
  pub enum_key : ℕ → Wide → ℕ → ℕ → Store → ℕ × Wide
  pub set_security : ℕ → Wide → Store → ℕ × Store

abbrev pub found : ℕ → Option Bytes → ℕ × Bytes × ℕ
found capacity none = (error_file_not_found, [], capacity)
found capacity (some bytes) =
    if ltb capacity (length bytes)
    then (error_more_data, [], length bytes)
    else (error_success, bytes, length bytes)

abbrev pub listed : ℕ → Option Wide → ℕ × Wide
listed capacity none = (error_no_more_items, [])
listed capacity (some name) =
    if ltb (length name) capacity then (error_success, name) else (error_more_data, [])

abbrev pub nth : List Wide → ℕ → Option Wide
nth [] i = none
nth (x ∷ xs) ℕ.zero = some x
nth (x ∷ xs) (ℕ.suc i) = nth xs i

-- Names of keys and values are compared without regard to case; the names of the program have ASCII
-- letters only.
abbrev pub lower : ℕ → ℕ
lower c = if not (ltb c 65) && not (ltb 90 c) then c + 32 else c

abbrev pub same : Wide → Wide → Bool
same n m = bytes_eq (map lower n) (map lower m)

pub same_refl : (n : Wide) → same n n ≡ true
same_refl n = (bytes_eq_iff (map lower n) (map lower n)).1 refl

-- What the documentation says of the calls, for a process with all rights on the keys: the values of
-- a key and the names of its subkeys, and what a call leaves of them. A key with subkeys is not
-- deleted.
pub record Documented (R : WinRegistry) : Type 0 where
  pub has_key : ℕ → Wide → R.Store → Bool
  pub value : ℕ → Wide → Wide → R.Store → Option Bytes
  pub subkeys : ℕ → Wide → R.Store → List Wide
  pub create_lem :
      (r : ℕ) (p : Wide) (s : R.Store)
      → ((R.create_key r p s).0 ≡ error_success) × (has_key r p (R.create_key r p s).1 ≡ true)
  pub create_keeps :
      (r : ℕ) (p q : Wide) (s : R.Store)
      → (has_key r q s && not (has_key r q (R.create_key r p s).1)) ≡ false
  pub create_value :
      (r : ℕ) (p q n : Wide) (s : R.Store) → value r q n (R.create_key r p s).1 ≡ value r q n s
  pub open_lem :
      (r : ℕ) (p : Wide) (s : R.Store)
      → R.open_key r p s ≡ (if has_key r p s then error_success else error_file_not_found)
  pub set_key :
      (r : ℕ) (p q n : Wide) (b : Bytes) (s : R.Store)
      → has_key r q (R.set_value r p n b s).1 ≡ has_key r q s
  pub set_lem :
      (r : ℕ) (p q n m : Wide) (b : Bytes) (s : R.Store)
      → value r q m (R.set_value r p n b s).1
        ≡ (if same p q && same n m then some b else value r q m s)
  pub query_lem :
      (r : ℕ) (p n : Wide) (capacity : ℕ) (s : R.Store)
      → R.query_value r p n capacity s ≡ found capacity (value r p n s)
  pub delete_lem :
      (r : ℕ) (p q : Wide) (s : R.Store)
      → has_key r q (R.delete_key r p s).1
        ≡ (has_key r q s && not (same p q && is_empty (subkeys r p s)))
  pub enum_lem :
      (r : ℕ) (p : Wide) (i capacity : ℕ) (s : R.Store)
      → R.enum_key r p i capacity s ≡ listed capacity (nth (subkeys r p s) i)
  pub secured_key :
      (r : ℕ) (p q : Wide) (s : R.Store) → has_key r q (R.set_security r p s).1 ≡ has_key r q s
  pub secured_value :
      (r : ℕ) (p q n : Wide) (s : R.Store) → value r q n (R.set_security r p s).1 ≡ value r q n s
