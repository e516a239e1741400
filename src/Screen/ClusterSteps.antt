-- ===== src/Screen/ClusterSteps.antt =====
-- src/screen.rs: a step of `ClusterIter`, and the cells that it leaves.
use picocalc_wezterm.Prelude.{
  ℕ, zero, suc, ◌+◌, ◌<◌, ◌≡◌, refl, ap, ◌∙◌, Option, none, some, List, [], ◌∷◌, ◌++◌, ◌⊎◌, length,
  take, drop, arith, if◌then◌else◌, false, ◌≤◌, subst, ◌-◌, Ensures, ok, sym, append_assoc, leb,
  length-append, ◌&&◌, true, append-nil, inr, Outcome, ◌>>=◌, inl, Bool-cases,
}
use picocalc_wezterm.Screen.Model.{Line}
use picocalc_wezterm.Screen.Cluster.{
  Cluster, Style, ClusterIter, toggle_reverse, is_at, take_current, slice, next_loop, advance,
  at_cursor, Style-discrete,
}
use picocalc_wezterm.Screen.ClusterCells.{
  Shown, cells_at, cells_of, shown_from, cells_at-append, take-append, drop-suc, unsnoc,
  length-cells_at,
}

module _ (l : Line) (c : Option ℕ) (size : length l.ascii ≡ 80) where
  abbrev pub iter : Style → Option ℕ → ℕ → List Style → ClusterIter
  iter last start i rest = record {
    line = l;
    last_attr = last;
    start_idx = start;
    idx = i;
    attr_iter = rest;
    cursor_x = c;
  }

  -- What an iterator has left to show, where it has something left.
  abbrev pub Left : Style → Option ℕ → ℕ → List Style → List Shown → Type 0
  Left last none i rest cells =
      (q : List ℕ) × (drop i l.ascii ≡ q)
      × (length q ≡ length rest)
      × (i + length rest ≡ 80)
      × (0 < length rest)
      × (cells ≡ shown_from c i q rest)
  Left last (some s) i rest cells =
      (p : List ℕ) × (q : List ℕ) × (drop s l.ascii ≡ p ++ q)
      × (drop i l.ascii ≡ q)
      × (length q ≡ length rest)
      × (i + length rest ≡ 80)
      × (s + length p ≡ i)
      × (0 < length p)
      × (cells ≡ cells_at s p last ++ shown_from c i q rest)

  -- A cluster was returned, and what is left is the rest; or it was the last one, and all but one
  -- cell was shown.
  abbrev pub Yields : List Shown → Option Cluster × ClusterIter → Type 0
  Yields cells (none, it) = ⊥
  Yields cells (some k, it) =
      ((last : Style) × (start : Option ℕ) × (i : ℕ) × (rest : List Style) × (cells' : List Shown)
        × (it ≡ iter last start i rest)
        × Left last start i rest cells'
        × (cells ≡ cells_of k ++ cells')
        × (length cells' < length cells))
      ⊎ ((x : Shown) × (last : Style) × (i : ℕ) × (it ≡ iter last none i [])
          × (cells ≡ cells_of k ++ (x ∷ [])))

  abbrev part : Style → ℕ → ℕ → Cluster
  part last s e = record {
    text = take (e - s) (drop s l.ascii);
    attributes = last.0;
    color = last.1;
    start_col = s;
    end_col = e;
  }

  take_current-some :
      (last : Style) (s i e : ℕ) (rest : List Style)
      → s ≤ e
      → e ≤ 80
      → take_current (iter last (some s) i rest) e
        ≡ ok (some (part last s e), iter last none i rest)
  unfolding take_current slice
  take_current-some last s i e rest le top =
      let fits : (leb s e && leb e (length l.ascii)) ≡ true = ground (arith, size) in
      rw (slice, fits)

  -- An open cluster of one cell.
  open_at :
      (style : Style) (i b : ℕ) (q : List ℕ) (rest : List Style)
      → drop i l.ascii ≡ b ∷ q
      → length q ≡ length rest
      → i + 1 + length rest ≡ 80
      → Left style (some i) (i + 1) rest ((i, b, style) ∷ shown_from c (i + 1) q rest)
  open_at style i b q rest d lq n =
      (b ∷ [], q, d, drop-suc i b l.ascii q d, lq, n, omega arith, omega arith, refl)

  -- The next cell joins an open cluster of its style.
  grow :
      (last : Style) (s i : ℕ) (a : Style) (rest : List Style) (cells : List Shown)
      → is_at c i ≡ false
      → a ≡ last
      → Left last (some s) i (a ∷ rest) cells
      → Left last (some s) (i + 1) rest cells
  grow last s i a rest cells off same (p, [], dp, di, lq, n, sp, pos, e) = absurd (omega arith)
  grow last s i a rest cells off same (p, b ∷ q, dp, di, lq, n, sp, pos, e) = (
    p ++ (b ∷ []),
    q,
    dp ∙ sym (append_assoc p (b ∷ []) q),
    drop-suc i b l.ascii q di,
    omega arith,
    omega arith,
    omega (arith, length-append p (b ∷ [])),
    omega (arith, length-append p (b ∷ [])),
    e ∙ joined,
  )
    where
      plain : ◌≡◌ {A = Shown} (i, b, if is_at c i then toggle_reverse a else a) (i, b, last)
      plain = rw off (ap (λ t. (i, b, t)) same)

      joined :
          cells_at s p last ++ shown_from c i (b ∷ q) (a ∷ rest)
          ≡ cells_at s (p ++ (b ∷ [])) last ++ shown_from c (i + 1) q rest
      joined =
          ap (λ v. cells_at s p last ++ (v ∷ shown_from c (i + 1) q rest)) plain
          ∙ sym (append_assoc (cells_at s p last) ((i, b, last) ∷ []) (shown_from c (i + 1) q rest))
          ∙ ap (λ t. t ++ shown_from c (i + 1) q rest)
              (sym (
                cells_at-append s p (b ∷ []) last
                ∙ ap (λ n. cells_at s p last ++ ((n, b, last) ∷ [])) sp))

  -- An open cluster is closed in front of the cell at `i`.
  close :
      (last : Style) (s i : ℕ) (a : Style) (rest : List Style) (cells : List Shown)
      → Left last (some s) i (a ∷ rest) cells
      → (b : ℕ) × (q : List ℕ) × (drop i l.ascii ≡ b ∷ q)
        × (length q ≡ length rest)
        × (i + 1 + length rest ≡ 80)
        × (s ≤ i)
        × (cells ≡ cells_of (part last s i) ++ shown_from c i (b ∷ q) (a ∷ rest))
        × (length (shown_from c i (b ∷ q) (a ∷ rest)) < length cells)
  close last s i a rest cells (p, [], dp, di, lq, n, sp, pos, e) = absurd (omega arith)
  close last s i a rest cells (p, b ∷ q, dp, di, lq, n, sp, pos, e) = (
    b,
    q,
    di,
    omega arith,
    omega arith,
    omega arith,
    e ∙ ap (λ t. cells_at s t last ++ shown_from c i (b ∷ q) (a ∷ rest)) (sym text),
    omega (
      arith,
      ap length e,
      length-append (cells_at s p last) (shown_from c i (b ∷ q) (a ∷ rest)),
      length-cells_at s p last,
    ),
  )
    where
      text : take (i - s) (drop s l.ascii) ≡ p
      text = let n : i - s ≡ length p = omega arith in rw (dp, n) (take-append p (b ∷ q))

  finish :
      (last : Style) (s i : ℕ) (cells : List Shown)
      → Left last (some s) i [] cells
      → Ensures (Yields cells) (take_current (iter last (some s) i []) 79)
  finish last s i cells (p, (b ∷ q), dp, di, lq, n, sp, pos, e) = absurd (omega arith)
  finish last s i cells (p, [], dp, di, lq, n, sp, pos, e) =
      let k : ℕ = 79 - s in
      let (x, ex) = unsnoc k p (omega arith) in
      let text : take k (drop s l.ascii) ≡ take k p = ap (take k) (dp ∙ append-nil p) in
      let eq : cells
          ≡ cells_at s (take k (drop s l.ascii)) last ++ ((s + length (take k p), x, last) ∷ []) =
        e
        ∙ append-nil (cells_at s p last)
        ∙ ap (λ t. cells_at s t last) ex
        ∙ cells_at-append s (take k p) (x ∷ []) last
        ∙ ap (λ t. cells_at s t last ++ ((s + length (take k p), x, last) ∷ [])) (sym text) in
      subst (Ensures (Yields cells))
        (sym (take_current-some last s i 79 [] (omega arith) (omega arith)))
        (inr ((s + length (take k p), x, last), last, i, refl, eq))

  abbrev Keeps : ℕ → (ClusterIter → Outcome (Option Cluster × ClusterIter)) → Type 0
  Keeps n again =
      (last : Style) (start : Option ℕ) (i : ℕ) (rest : List Style) (cells : List Shown)
      → length rest < n
      → Left last start i rest cells
      → Ensures (Yields cells) (again (iter last start i rest))

  advance_open :
      (again : ClusterIter → Outcome (Option Cluster × ClusterIter)) (last : Style) (s i : ℕ)
      (rest : List Style) (cells : List Shown)
      → Keeps (length rest) again
      → at_cursor c i rest ≡ false
      → Left last (some s) i rest cells
      → Ensures (Yields cells) (advance again (iter last (some s) i rest) rest)
  unfolding advance
  advance_open again last s i [] cells keeps off left = finish last s i cells left
  advance_open again last s i (a ∷ rest) cells keeps off left = decided (Style-discrete a last)
    where
      closed : Ensures (Yields cells) (
          take_current (iter last (some s) (i + 1) rest) i >>= λ (found, it).
          ok (found, record it { last_attr = a; start_idx = some i }))
      closed =
          let (b, q, d, lq, n, le, e, less) = close last s i a rest cells left in
          let alike : (if is_at c i then toggle_reverse a else a) ≡ a = rw off in
          rw (take_current-some last s (i + 1) i rest le (omega arith)) (
            inl (
              a,
              some i,
              i + 1,
              rest,
              shown_from c i (b ∷ q) (a ∷ rest),
              refl,
              (rw alike (open_at a i b q rest d lq n)),
              e,
              less,
            ))

      decided :
          (d : Dec (a ≡ last))
          → Ensures (Yields cells) (elim d [
            | yes same ↦ again (iter last (some s) (i + 1) rest)
            | no other ↦ take_current (iter last (some s) (i + 1) rest) i >>= λ (found, it).
                ok (found, record it { last_attr = a; start_idx = some i })
          ])
      decided (yes same) =
          keeps last (some s) (i + 1) rest cells (omega arith)
            (grow last s i a rest cells off same left)
      decided (no other) = closed

  past_cursor : (i : ℕ) (rest : List Style) → is_at c i ≡ true → at_cursor c (i + 1) rest ≡ false
  past_cursor i rest h = passed c rest h
    where
      passed : (o : Option ℕ) (r : List Style) → is_at o i ≡ true → at_cursor o (i + 1) r ≡ false
      passed none [] e = refl
      passed none (a ∷ r) e = cc
      passed (some x) [] e = refl
      passed (some x) (a ∷ r) e = ground arith

  Keeps-le :
      (n m : ℕ) (again : ClusterIter → Outcome (Option Cluster × ClusterIter))
      → n ≤ m
      → Keeps m again
      → Keeps n again
  Keeps-le n m again le keeps last start i rest cells h left =
      keeps last start i rest cells (omega arith) left

  pub next_loop-Yields : (fuel : ℕ) → Keeps fuel (next_loop fuel)
  unfolding next_loop
  next_loop-Yields zero last start i rest cells h left = absurd (omega arith)
  next_loop-Yields (suc fuel) last none i [] cells h (q, d, lq, n, pos, e) = absurd (omega arith)
  next_loop-Yields (suc fuel) last none i (a ∷ rest) cells h ([], d, lq, n, pos, e) =
      absurd (omega arith)
  next_loop-Yields (suc fuel) last none i (a ∷ rest) cells h (b ∷ q, d, lq, n, pos, e) =
      elim (Bool-cases (is_at c i)) [
        | inl on ↦
            let shown : cells ≡ (i, b, toggle_reverse a) ∷ shown_from c (i + 1) q rest =
              e ∙ rw on in
            rw (next_loop, on)
              (advance_open (next_loop fuel) (toggle_reverse a) i (i + 1) rest cells
                (Keeps-le (length rest) fuel (next_loop fuel) (omega arith) (next_loop-Yields fuel))
                (past_cursor i rest on)
                (subst (Left (toggle_reverse a) (some i) (i + 1) rest) (sym shown)
                  (open_at (toggle_reverse a) i b q rest d (omega arith) (omega arith))))
        | inr off ↦
            let shown : cells ≡ (i, b, a) ∷ shown_from c (i + 1) q rest = e ∙ rw off in
            rw (next_loop, off)
              (next_loop-Yields fuel a (some i) (i + 1) rest cells (omega arith) (
                subst (Left a (some i) (i + 1) rest) (sym shown)
                  (open_at a i b q rest d (omega arith) (omega arith))))
      ]
  next_loop-Yields (suc fuel) last (some s) i [] cells h left = finish last s i cells left
  next_loop-Yields (suc fuel) last (some s) i (a ∷ rest) cells h left =
      elim (Bool-cases (is_at c i)) [
        | inl on ↦
            let (b, q, d, lq, n, le, e, less) = close last s i a rest cells left in
            rw (next_loop, on, take_current-some last s i i (a ∷ rest) le (omega arith))
              (inl (
                last,
                none,
                i,
                a ∷ rest,
                shown_from c i (b ∷ q) (a ∷ rest),
                refl,
                (b ∷ q, d, omega arith, omega arith, omega arith, refl),
                e,
                less,
              ))
        | inr off ↦
            rw (next_loop, off)
              (advance_open (next_loop fuel) last s i (a ∷ rest) cells
                (Keeps-le (suc (length rest)) fuel (next_loop fuel) (omega arith)
                  (next_loop-Yields fuel))
                off left)
      ]
