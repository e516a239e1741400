-- ===== src/Heap/Owner.antt =====
-- src/heap.rs: the heap that a block is of, from `alloc` to `dealloc`.
use picocalc_wezterm.Prelude.{ℕ, ◌+◌, ◌≤◌, ◌<◌, ◌^◌, ◌≡◌, refl, sym, ap, ◌∙◌, Option, none, some}
use picocalc_wezterm.Heap.Dual.{
  Allocator, DualHeap, alloc, dealloc, dealloc-primary, dealloc-secondary,
}

module _ (a : Allocator) where
  -- The heaps after a block was taken and given back, by the answer of the primary heap.
  abbrev pub returned : DualHeap a → ℕ → ℕ → Option ℕ → DualHeap a
  returned h layout p (some q) = record h {
    primary = a.dealloc (a.alloc h.primary layout).1 p layout;
  }
  returned h layout p none = record h {
    primary = (a.alloc h.primary layout).1;
    secondary = a.dealloc (a.alloc h.secondary layout).1 p layout;
  }

  abbrev from_primary : DualHeap a → ℕ → DualHeap a
  from_primary h layout = record h { primary = (a.alloc h.primary layout).1 }

  abbrev from_secondary : DualHeap a → ℕ → DualHeap a
  from_secondary h layout = record h {
    primary = (a.alloc h.primary layout).1;
    secondary = (a.alloc h.secondary layout).1;
  }

  alloc-some :
      (h : DualHeap a) (layout q : ℕ)
      → (a.alloc h.primary layout).0 ≡ some q
      → alloc a h layout ≡ (some q, from_primary h layout)
  unfolding alloc
  alloc-some h layout q e = rw (alloc, e)

  alloc-none :
      (h : DualHeap a) (layout : ℕ)
      → (a.alloc h.primary layout).0 ≡ none
      → alloc a h layout ≡ ((a.alloc h.secondary layout).0, from_secondary h layout)
  unfolding alloc
  alloc-none h layout e = rw (alloc, e)

  -- Where the primary region is no longer than the address of its start, which is below 2 ^ 31, the
  -- primary heap answers inside its region and the secondary heap below it: a block that `alloc`
  -- returned goes back, by `dealloc`, to the heap that answered, and the other heap is as `alloc`
  -- left it.
  pub dealloc-alloc :
      (h : DualHeap a) (layout p : ℕ)
      → h.primary_region.size ≤ h.primary_region.start
      → h.primary_region.start < 2 ^ 31
      → ((q : ℕ)
          → (a.alloc h.primary layout).0 ≡ some q
          → (h.primary_region.start ≤ q) × (q < h.primary_region.start + h.primary_region.size))
      → ((q : ℕ) → (a.alloc h.secondary layout).0 ≡ some q → q < h.primary_region.start)
      → (alloc a h layout).0 ≡ some p
      → dealloc a (alloc a h layout).1 p layout ≡ returned h layout p (a.alloc h.primary layout).0
  dealloc-alloc h layout p small low inside below got = answered (a.alloc h.primary layout).0 refl
    where
      answered :
          (o : Option ℕ)
          → (a.alloc h.primary layout).0 ≡ o
          → dealloc a (alloc a h layout).1 p layout ≡ returned h layout p o
      answered (some q) e =
          let eq = alloc-some h layout q e in
          let (from, to) = inside p (e ∙ sym (ap (λ r. r.0) eq) ∙ got) in
          ap (λ r. dealloc a r.1 p layout) eq
          ∙ dealloc-primary a (from_primary h layout) p layout small low from to
      answered none e =
          let eq = alloc-none h layout e in
          ap (λ r. dealloc a r.1 p layout) eq
          ∙ dealloc-secondary a (from_secondary h layout) p layout
              (below p (sym (ap (λ r. r.0) eq) ∙ got))
