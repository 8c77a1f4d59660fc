-- ===== src/Lsa/Package.antt =====
-- windows/lsa_authentication_package/LsaPackage.cpp: the package's state, its heap and `Initialize`.
use pc_unlock_project.Common.{
  ℕ, suc, ◌+◌, ◌*◌, ◌%◌, ◌^◌, Bool, true, false, not, ◌==◌, if◌then◌else◌, List, ◌∷◌, Option, none,
  some, Bytes, codes, length,
}
use pc_unlock_project.Common.Assoc.{erase, nat_eq}

abbrev pub status_success : ℕ
status_success = 0

abbrev pub status_logon_failure : ℕ
status_logon_failure = 0xC000_006D

abbrev pub status_account_restriction : ℕ
status_account_restriction = 0xC000_006E

abbrev pub status_invalid_parameter : ℕ
status_invalid_parameter = 0xC000_000D

abbrev pub status_no_such_user : ℕ
status_no_such_user = 0xC000_0064

abbrev pub status_insufficient_resources : ℕ
status_insufficient_resources = 0xC000_009A

abbrev pub status_buffer_too_small : ℕ
status_buffer_too_small = 0xC000_0023

-- A counted string and its characters.
pub record CountedString : Type 0 where
  pub count : ℕ  -- Length, USHORT
  pub maximum : ℕ  -- MaximumLength, USHORT
  pub chars : List ℕ

-- The live blocks by address, and the next address.
pub record Heap : Type 0 where
  pub blocks : List (ℕ × CountedString)
  pub next : ℕ

-- Whether the allocator (that of the LSA or LocalAlloc) gives a block of that size at the address.
abbrev pub Allocator : Type 0
Allocator = ℕ → ℕ → Bool

-- The address, `none` for a null pointer.
unfoldable pub allocate_heap : Allocator → ℕ → CountedString → Heap → Option ℕ × Heap
allocate_heap alloc size s h =
    if size == 0
    then (none, h)
    else if alloc size h.next
    then (some h.next, record { blocks = (h.next, s) ∷ h.blocks; next = suc h.next })
    else (none, h)

unfoldable pub free_heap : Option ℕ → Heap → Heap
free_heap none h = h
free_heap (some address) h = record h { blocks = erase address h.blocks }

-- sizeof(UNICODE_STRING) is 16; a character takes two bytes.
unfoldable pub create_unicode_string_on_lsa_heap : Allocator → List ℕ → Heap → Option ℕ × Heap
create_unicode_string_on_lsa_heap alloc str h =
    let cb_buffer = (length str + 1) * 2 % 2 ^ 32 in
    let cb_total = (16 + cb_buffer) % 2 ^ 32 in
    allocate_heap alloc cb_total
      (record { count = length str * 2 % 2 ^ 16; maximum = cb_buffer % 2 ^ 16; chars = str }) h

pub record LsaPackage : Type 0 where
  pub package_id : ℕ
  pub has_dispatch_table : Bool
  pub is_initialized : Bool

-- The constructor.
abbrev pub new_package : LsaPackage
new_package = record { package_id = 0; has_dispatch_table = false; is_initialized = false }

unfoldable pub set_dispatch_table : Bool → LsaPackage → LsaPackage
set_dispatch_table given p = record p { has_dispatch_table = given }

abbrev pub package_name : Bytes
package_name = codes "MobileUnlockLsaPackage"

-- The status, the state, the returned address and the heap. `wanted` and `table` tell whether the
-- pointer for the name and the dispatch table are given.
unfoldable pub initialize :
    Allocator → ℕ → Bool → Bool → LsaPackage → Heap → ℕ × LsaPackage × Option ℕ × Heap
initialize alloc id table wanted p h =
    let named = record p { package_id = id } in
    let tabled = if table then record named { has_dispatch_table = true } else named in
    let size = (16 + (length package_name + 1)) % 2 ^ 32 in
    let name : CountedString = record {
      count = length package_name;
      maximum = length package_name + 1;
      chars = package_name;
    } in
    let (address, h1) = allocate_heap alloc size name h in
    if not wanted then (status_invalid_parameter, p, none, h) else elim address [
      | none ↦ (status_insufficient_resources, tabled, none, h1)
      | some a ↦ (status_success, record tabled { is_initialized = true }, some a, h1)
    ]
