-- ===== src/Heap/Tests.antt =====
-- src/heap.rs: the laws of the two heaps with concrete ones.
use picocalc_wezterm.Prelude.{
  Option, some, refl, ◌≤◌, ◌<◌, ℕ, ◌+◌, ◌≡◌, true, none, List, [], ◌∷◌, length, arith,
}
use picocalc_wezterm.Heap.Owner.{returned, dealloc-alloc}
use picocalc_wezterm.Heap.Dual.{
  alloc, Region, contains, Allocator, DualHeap, dealloc, contains_past_end,
}

-- A heap that lists its free blocks.
abbrev take_block : List ℕ → Option ℕ × List ℕ
take_block [] = (none, [])
take_block (p ∷ ps) = (some p, ps)

abbrev log_heap : Allocator
log_heap = record {
  Heap = List ℕ;
  init = (λ h start size. h);
  alloc = (λ h layout. take_block h);
  dealloc = (λ h ptr layout. ptr ∷ h);
  used = (λ h. 0);
  free = length;
}

abbrev ram : Region
ram = record { start = 0x2000_1000; size = 0x1_0000 }

abbrev heaps : DualHeap log_heap
heaps = record { primary = []; primary_region = ram; secondary = [] }

contains_past_end_example : contains ram (0x2000_1000 + 0x1_0000) ≡ true
contains_past_end_example = contains_past_end ram (omega arith) (omega arith)

-- The primary heap is full, and the secondary one has a block.
abbrev busy : DualHeap log_heap
busy = record { primary = []; primary_region = ram; secondary = 0x1100_0000 ∷ [] }

primary_inside : (q : ℕ) → (take_block []).0 ≡ some q → (ram.start ≤ q) × (q < ram.start + ram.size)
primary_inside q e = ground arith

secondary_below : (q : ℕ) → (take_block (0x1100_0000 ∷ [])).0 ≡ some q → q < ram.start
secondary_below q e = ground arith

busy_block : (alloc log_heap busy 8).0 ≡ some 0x1100_0000
unfolding alloc
busy_block = refl

dealloc-alloc_example :
    dealloc log_heap (alloc log_heap busy 8).1 0x1100_0000 8
    ≡ returned log_heap busy 8 0x1100_0000 none
dealloc-alloc_example =
    dealloc-alloc log_heap busy 8 0x1100_0000 (omega arith) (omega arith) primary_inside
      secondary_below busy_block
