-- ===== src/Screen/ClusterLaws.antt =====
-- src/screen.rs: the cells that the clusters of a line stand for.
use picocalc_wezterm.Prelude.{
  ℕ, zero, suc, ◌+◌, ◌<◌, ◌≡◌, refl, ap, ◌∙◌, Option, none, some, List, [], ◌∷◌, ◌++◌, length, take,
  arith, subst, Ensures, ok, sym, append_assoc, length-append, append-nil, inr, ◌>>=◌, inl,
  Ensures-bind, zip, Ensures-map,
}
use picocalc_wezterm.Screen.Model.{Line, attributes_none}
use picocalc_wezterm.Screen.Valid.{LineIsValid}
use picocalc_wezterm.Screen.Cluster.{Cluster, Style, ClusterIter, collect, next, clusters, cluster}
use picocalc_wezterm.Screen.ClusterCells.{
  Shown, cells_of, drawn, take-append, length-shown_from, length-zip, shown_cells,
}
use picocalc_wezterm.Screen.ClusterSteps.{iter, Left, Yields, next_loop-Yields}

module _ (l : Line) (c : Option ℕ) (size : length l.ascii ≡ 80) where
  collect_done :
      (fuel : ℕ) (last : Style) (i : ℕ)
      → 0 < fuel
      → collect fuel (iter l c size last none i []) ≡ ok []
  unfolding collect
  collect_done zero last i h = absurd (omega arith)
  collect_done (suc fuel) last i h = refl

  -- The collected clusters stand for all cells but one.
  abbrev Collected : List Shown → List Cluster → Type 0
  Collected cells cs = (x : Shown) × (cells ≡ drawn cs ++ (x ∷ []))

  abbrev Collects : ℕ → Type 0
  Collects fuel =
      (last : Style) (start : Option ℕ) (i : ℕ) (rest : List Style) (cells : List Shown)
      → length cells < fuel
      → Left l c size last start i rest cells
      → Ensures (Collected cells) (collect fuel (iter l c size last start i rest))

  collect_more :
      (fuel : ℕ) (cells : List Shown) (found : Option Cluster) (it : ClusterIter)
      → length cells < suc fuel
      → Collects fuel
      → Yields l c size cells (found, it)
      → Ensures
          (Collected cells)
          (elim found [ none ↦ ok [] | some k ↦ collect fuel it >>= λ rest. ok (k ∷ rest) ])
  collect_more fuel cells none it h ih y = absurd y
  collect_more fuel cells (some k) it h ih (inl (last, start, i, rest, cells', eq, left, e, less)) =
      Ensures-bind (Collected cells') (Collected cells) (collect fuel it) _
        (subst (λ v. Ensures (Collected cells') (collect fuel v)) (sym eq)
          (ih last start i rest cells' (omega arith) left))
        λ cs (x, e'). (
          x,
          e ∙ ap (λ t. cells_of k ++ t) e' ∙ sym (append_assoc (cells_of k) (drawn cs) (x ∷ [])),
        )
  collect_more fuel cells (some k) it h ih (inr (x, last, i, eq, e)) =
      let one = length-append (cells_of k) (x ∷ []) in
      rw (eq, collect_done fuel last i (omega (arith, ap length e, one)))
        (x, e ∙ ap (λ t. t ++ (x ∷ [])) (sym (append-nil (cells_of k))))

  collect-Collected : (fuel : ℕ) → Collects fuel
  unfolding collect
  collect-Collected zero last start i rest cells h left = absurd (omega arith)
  collect-Collected (suc fuel) last start i rest cells h left =
      Ensures-bind (Yields l c size cells) (Collected cells)
        (next (iter l c size last start i rest)) _
        (next_loop-Yields l c size (length rest + 1) last start i rest cells (omega arith) left)
        λ (found, it) y. collect_more fuel cells found it h (collect-Collected fuel) y

-- For a line that is valid, the clusters are found without a panic, and cell by cell they stand for
-- the first 79 cells of the line, each with its column, byte and style, and with the video of the
-- cell under the cursor reversed.
pub drawn-clusters :
    (line : Line) (cursor_x : Option ℕ)
    → LineIsValid line
    → Ensures (λ cs. drawn cs ≡ take 79 (shown_cells line cursor_x)) (clusters line cursor_x)
unfolding clusters cluster
drawn-clusters line cursor_x v =
    let styles = zip line.attributes line.colors in
    let cells = shown_cells line cursor_x in
    let many : length styles ≡ 80 =
      length-zip line.attributes line.colors (v.attributes_size ∙ sym v.colors_size)
      ∙ v.attributes_size in
    let size : length cells ≡ 80 =
      length-shown_from cursor_x 0 line.ascii styles (v.ascii_size ∙ sym many) ∙ v.ascii_size in
    Ensures-map (Collected line cursor_x v.ascii_size cells) _ (clusters line cursor_x)
      (λ cs (x, e).
        let n : length (drawn cs) ≡ 79 =
          omega (arith, size, ap length e, length-append (drawn cs) (x ∷ [])) in
        sym (take-append (drawn cs) (x ∷ []))
        ∙ ap (λ k. take k (drawn cs ++ (x ∷ []))) n
        ∙ ap (take 79) (sym e))
      (collect-Collected line cursor_x v.ascii_size 81 (attributes_none, 0) none 0 styles cells
        (omega (arith, size))
        (line.ascii, refl, v.ascii_size ∙ sym many, omega (arith, many), omega (arith, many), refl))
