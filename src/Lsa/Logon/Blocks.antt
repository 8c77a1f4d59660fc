-- ===== src/Lsa/Logon/Blocks.antt =====
-- Blocks on the heap of the LSA: what an allocation leaves, and the release of a block.
use pc_unlock_project.Common.{
  ℕ, suc, ◌<◌, ◌≡◌, refl, ◌==◌, List, [], ◌∷◌, Option, none, some, All, arith, if_cases,
}
use pc_unlock_project.Common.Assoc.{erase, nat_eq}
use pc_unlock_project.Lsa.Package.{
  Allocator, Heap, CountedString, allocate_heap, create_unicode_string_on_lsa_heap,
}

-- Every live block lies below the next address.
abbrev pub IsFresh : Heap → Type 0
IsFresh h = All (λ (e : ℕ × CountedString). e.0 < h.next) h.blocks

-- Whether a block is allocated for a string, apart from its content: the heap is the same, or has
-- one block more.
abbrev pub Allocated : Heap → Option ℕ × Heap → Type 0
Allocated h (none, h1) = h1 ≡ h
Allocated h (some a, h1) =
    (a ≡ h.next) × (h1.next ≡ suc h.next) × ((s : CountedString) × (h1.blocks ≡ (a, s) ∷ h.blocks))

allocate_heap-Allocated :
    (alloc : Allocator) (size : ℕ) (s : CountedString) (h : Heap)
    → Allocated h (allocate_heap alloc size s h)
unfolding allocate_heap
allocate_heap-Allocated alloc size s h =
    if_cases (Allocated h) (size == 0) _ _ (λ e. refl)
      (λ e.
        if_cases (Allocated h) (alloc size h.next) _ _ (λ f. (refl, refl, (s, refl))) (λ f. refl))

pub create-Allocated :
    (alloc : Allocator) (str : List ℕ) (h : Heap)
    → Allocated h (create_unicode_string_on_lsa_heap alloc str h)
unfolding create_unicode_string_on_lsa_heap
create-Allocated alloc str h = allocate_heap-Allocated alloc _ _ h

pub erase_old :
    (a : ℕ) (m : List (ℕ × CountedString))
    → All (λ (e : ℕ × CountedString). e.0 < a) m
    → erase a m ≡ m
unfolding erase
erase_old a [] h = refl
erase_old a ((k, s) ∷ m) h = ground (arith, erase_old a m h.1)

pub erase_top :
    (a : ℕ) (s : CountedString) (m : List (ℕ × CountedString))
    → All (λ (e : ℕ × CountedString). e.0 < a) m
    → erase a ((a, s) ∷ m) ≡ m
unfolding erase
erase_top a s m h = ground (arith, erase_old a m h)
