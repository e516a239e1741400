-- ===== src/Heap/Dual.antt =====
-- src/heap.rs: `Region::contains`, and how `DualHeap` chooses between its two heaps. The heaps are
-- those of the embedded-alloc crate: a parameter.
use picocalc_wezterm.Prelude.{
  ℕ, ◌+◌, ◌*◌, ◌%◌, ◌^◌, ◌≤◌, ◌<◌, ◌≡◌, Bool, true, false, ◌&&◌, Option, none, some, arith, ltb,
  leb, if◌then◌else◌,
}

pub record Region : Type 0 where
  pub start : ℕ
  pub size : ℕ

-- As it is written: `end` is loaded from `start`. A `usize` has 32 bits.
unfoldable pub contains : Region → ℕ → Bool
contains r address =
    let end = r.start in leb r.start address && ltb address ((r.start + end) % 2 ^ 32)

-- `Layout` is a size. A null pointer is `none`.
pub record Allocator : Type 1 where
  pub Heap : Type 0
  pub init : Heap → ℕ → ℕ → Heap
  pub alloc : Heap → ℕ → Option ℕ × Heap
  pub dealloc : Heap → ℕ → ℕ → Heap
  pub used : Heap → ℕ
  pub free : Heap → ℕ

module _ (a : Allocator) where
  open a use {Heap}

  pub record DualHeap : Type 0 where
    pub primary : Heap
    pub primary_region : Region
    pub secondary : Heap

  unfoldable pub add_primary : DualHeap → Region → DualHeap
  add_primary h r = record h { primary = a.init h.primary r.start r.size; primary_region = r }

  unfoldable pub add_secondary : DualHeap → Region → DualHeap
  add_secondary h r = record h { secondary = a.init h.secondary r.start r.size }

  unfoldable pub used : DualHeap → ℕ
  used h = (a.used h.primary + a.used h.secondary) % 2 ^ 32

  unfoldable pub free : DualHeap → ℕ
  free h = (a.free h.primary + a.free h.secondary) % 2 ^ 32

  -- The primary heap is asked first.
  unfoldable pub alloc : DualHeap → ℕ → Option ℕ × DualHeap
  alloc h layout =
      let (ptr, primary) = a.alloc h.primary layout in
      elim ptr [
        | some p ↦ (some p, record h { primary = primary })
        | none ↦ (
          (a.alloc h.secondary layout).0,
          record h { primary = primary; secondary = (a.alloc h.secondary layout).1 },
        )
      ]

  unfoldable pub dealloc : DualHeap → ℕ → ℕ → DualHeap
  dealloc h ptr layout =
      if contains h.primary_region ptr
      then record h { primary = a.dealloc h.primary ptr layout }
      else record h { secondary = a.dealloc h.secondary ptr layout }

  -- The rows that `free_command` prints: the total, what is used and what is free.
  abbrev row : Heap → ℕ × ℕ × ℕ
  row h = ((a.used h + a.free h) % 2 ^ 32, a.used h, a.free h)

  unfoldable pub free_command : DualHeap → (ℕ × ℕ × ℕ) × (ℕ × ℕ × ℕ)
  free_command h = (row h.primary, row h.secondary)

-- `init_heap` and `init_qmi_psram_heap`.
abbrev pub heap_size : ℕ
heap_size = 64 * 1024

abbrev pub qmi_base : ℕ
qmi_base = 0x1100_0000

-- A region that is shorter than the address of its start, which is below 2 ^ 31, claims to contain
-- the address just past its end.
pub contains_past_end :
    (r : Region) → r.size < r.start → r.start < 2 ^ 31 → contains r (r.start + r.size) ≡ true
unfolding contains
contains_past_end r small low = ground arith

-- Inside a region that lies in the RAM of the chip, and ends before twice its start.
contains_inside :
    (r : Region) (ptr : ℕ)
    → r.size ≤ r.start
    → r.start < 2 ^ 31
    → r.start ≤ ptr
    → ptr < r.start + r.size
    → contains r ptr ≡ true
unfolding contains
contains_inside r ptr small low from to = ground arith

contains_below : (r : Region) (ptr : ℕ) → ptr < r.start → contains r ptr ≡ false
unfolding contains
contains_below r ptr below = ground arith

module _ (a : Allocator) where
  -- A block inside the primary region, where the region is no longer than the address of its start,
  -- which is below 2 ^ 31, is given back to the primary heap, and nothing else changes.
  pub dealloc-primary :
      (h : DualHeap a) (ptr layout : ℕ)
      → h.primary_region.size ≤ h.primary_region.start
      → h.primary_region.start < 2 ^ 31
      → h.primary_region.start ≤ ptr
      → ptr < h.primary_region.start + h.primary_region.size
      → dealloc a h ptr layout ≡ record h { primary = a.dealloc h.primary ptr layout }
  unfolding dealloc
  dealloc-primary h ptr layout small low from to =
      rw (contains_inside h.primary_region ptr small low from to)

  -- A block below the primary region, as those of the QMI window are, is given back to the
  -- secondary heap, and nothing else changes.
  pub dealloc-secondary :
      (h : DualHeap a) (ptr layout : ℕ)
      → ptr < h.primary_region.start
      → dealloc a h ptr layout ≡ record h { secondary = a.dealloc h.secondary ptr layout }
  unfolding dealloc
  dealloc-secondary h ptr layout below = rw (contains_below h.primary_region ptr below)
