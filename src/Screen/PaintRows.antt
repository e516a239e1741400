-- ===== src/Screen/PaintRows.antt =====
-- src/screen.rs: the loop of `update_display` over the rows.
use picocalc_wezterm.Prelude.{
  ℕ, zero, suc, ◌+◌, ◌%◌, ◌<◌, ◌≡◌, ◌≢◌, refl, sym, ap, ◌∙◌, subst, Bool, true, false, some, List,
  [], ◌∷◌, inl, inr, Outcome, ok, Ensures, Ensures-bind, set, get_elem?, get_elem?-set_self,
  get_elem?-set_ne, ◌==◌, ==_iff, if◌then◌else◌, Bool-cases, arith, not, ◌&&◌, ◌⊎◌,
}
use picocalc_wezterm.Screen.Model.{Line, Font, ScreenModel, line_log, log_to_phys, modify_line}
use picocalc_wezterm.Screen.Valid.{
  LineIsValid, IsSound, IsValid, KeepsLine, modify_line_lem, set_line-IsSound,
}
use picocalc_wezterm.Screen.Colors.{Pixels, cluster_colors}
use picocalc_wezterm.Screen.ColorLaws.{cluster_colors-ok}
use picocalc_wezterm.Screen.Cluster.{Cluster, clusters}
use picocalc_wezterm.Screen.ClusterLaws.{drawn-clusters}
use picocalc_wezterm.Screen.Paint.{
  Draw, draw_cluster, draw_clusters, painted_line, Progress, paint_line, paint_row, paint_rows,
  cursor_in, next_row,
}

painted_line-KeepsLine : KeepsLine painted_line
painted_line-KeepsLine l v = record {
  ascii_size = v.ascii_size;
  attributes_size = v.attributes_size;
  colors_size = v.colors_size;
  ascii_bytes = v.ascii_bytes;
}

-- The line of a row needs no paint.
abbrev pub Clean : ScreenModel → ℕ → Type 0
Clean m y = (line : Line) × (line_log m y ≡ some line) × (line.needs_paint ≡ false)

-- What painting a row changes of a model: only that its line is painted.
abbrev painted_at : ScreenModel → ℕ → Line → ScreenModel
painted_at m y line = record m { lines = set m.lines (log_to_phys m y) (painted_line line) }

-- Painting a row leaves the clean rows clean, and makes its own row so.
painted-Clean :
    (m : ScreenModel) (y z : ℕ) (line : Line)
    → IsSound m
    → (log_to_phys m z ≢ log_to_phys m y → Clean m z)
    → Clean (painted_at m y line) z
painted-Clean m y z line v h = elim (Bool-cases (log_to_phys m z == log_to_phys m y)) [
  | inl same ↦
      let e = (==_iff (log_to_phys m z) (log_to_phys m y)).0 same in
      (
        painted_line line,
        ap (λ i. get_elem? (set m.lines (log_to_phys m y) (painted_line line)) i) e
            ∙ get_elem?-set_self m.lines (log_to_phys m y) (painted_line line)
                (omega (arith, v.line_count)),
        refl,
      )
  | inr other ↦
      let differ : log_to_phys m z ≢ log_to_phys m y =
        λ e. cc ((==_iff (log_to_phys m z) (log_to_phys m y)).1 e) in
      let (kept, e, np) = h differ in
      (kept, get_elem?-set_ne m.lines (painted_line line) (λ e'. differ (sym e')) ∙ e, np)
]

abbrev pub Returns {ℓ} : {A : Type ℓ} → Outcome A → Type 0
Returns m = Ensures (λ a. Unit {0}) m

module _ (px : Pixels) where
  pub draw_cluster-ok : (f : Font) (c : Cluster) (y : ℕ) → Returns (draw_cluster px f c y)
  unfolding draw_cluster
  draw_cluster-ok f c y =
      Ensures-bind (λ r. Unit {0}) (λ r. Unit {0}) (cluster_colors px c.attributes (c.color % 256))
        _ (cluster_colors-ok px c.attributes (c.color % 256) (omega arith)) λ r u. tt

  draw_clusters-ok : (f : Font) (cs : List Cluster) (y : ℕ) → Returns (draw_clusters px f cs y)
  unfolding draw_clusters
  draw_clusters-ok f [] y = tt
  draw_clusters-ok f (c ∷ cs) y =
      Ensures-bind (λ r. Unit {0}) (λ r. Unit {0}) (draw_cluster px f c y) _ (draw_cluster-ok f c y)
        λ a u.
          Ensures-bind (λ r. Unit {0}) (λ r. Unit {0}) (draw_clusters px f cs y) _
            (draw_clusters-ok f cs y) λ b w. tt

  -- After the rows before `y`: what the loop has changed of the model `m`.
  pub record Painted (m : ScreenModel) (y : ℕ) (p : Progress px) : Type 0 where
    pub valid : IsValid p.model
    pub height : p.model.height ≡ m.height
    pub font : p.model.font ≡ m.font
    pub repaint : p.model.full_repaint ≡ false
    pub clean : (z : ℕ) → z < y → Clean p.model z

  paint_line-Painted :
      (m : ScreenModel) (y : ℕ) (p : Progress px) (line : Line)
      → Painted m y p
      → line_log p.model y ≡ some line
      → LineIsValid line
      → modify_line p.model y painted_line ≡ ok (painted_at p.model y line)
      → Ensures (Painted m (y + 1)) (paint_line px p y line)
  unfolding paint_line
  paint_line-Painted m y p line v e lv r = rw r (
      Ensures-bind _ (Painted m (y + 1)) (clusters (painted_line line) (cursor_in p.model y)) _
        (drawn-clusters (painted_line line) (cursor_in p.model y) (painted_line-KeepsLine line lv))
        λ cs d.
          Ensures-bind (λ a. Unit {0}) (Painted m (y + 1))
            (draw_clusters px p.model.font cs p.row_y) _ (draw_clusters-ok p.model.font cs p.row_y)
            λ draws u. next)
    where
      before : (z : ℕ) → z < y + 1 → log_to_phys p.model z ≢ log_to_phys p.model y → z < y
      before z below differ = elim (Bool-cases (z == y)) [
        | inl same ↦ absurd (differ (ap (log_to_phys p.model) ((==_iff z y).0 same)))
        | inr other ↦ ground arith
      ]

      next :
          {row n : ℕ} {draws : List (Draw px)}
          → Painted m (y + 1) (record {
            model = painted_at p.model y line;
            row_y = row;
            num_changed = n;
            draws = draws;
          })
      next = record {
        valid = record {
          sound =
              set_line-IsSound p.model (log_to_phys p.model y) (painted_line line) v.valid.sound
                (painted_line-KeepsLine line lv);
          y_in = v.valid.y_in;
          pixel_in = v.valid.pixel_in;
        };
        height = v.height;
        font = v.font;
        repaint = v.repaint;
        clean = (λ z below.
            painted-Clean p.model y z line v.valid.sound
              λ differ. v.clean z (before z below differ));
      }

  paint_row-Painted :
      (full : Bool) (m : ScreenModel) (y : ℕ) (p : Progress px)
      → Painted m y p
      → Ensures (Painted m (y + 1)) (paint_row px full p y)
  unfolding paint_row
  paint_row-Painted full m y p v =
      let (line, e, lv, r) = modify_line_lem p.model y painted_line v.valid.sound in
      rw e (chosen line e lv r (Bool-cases (not line.needs_paint && not full)))
    where
      skipped :
          (line : Line)
          → line_log p.model y ≡ some line
          → line.needs_paint ≡ false
          → (z : ℕ) → z < y + 1
          → Clean p.model z
      skipped line e np z below = elim (Bool-cases (z == y)) [
        | inl same ↦ subst (Clean p.model) (sym ((==_iff z y).0 same)) (line, e, np)
        | inr other ↦ v.clean z (ground arith)
      ]

      not_needed : (a b : Bool) → (not a && not b) ≡ true → a ≡ false
      not_needed a b h = ground arith

      chosen :
          (line : Line)
          → line_log p.model y ≡ some line
          → LineIsValid line
          → modify_line p.model y painted_line ≡ ok (painted_at p.model y line)
          → ((not line.needs_paint && not full) ≡ true)
            ⊎ ((not line.needs_paint && not full) ≡ false)
          → Ensures (Painted m (y + 1)) (
              if not line.needs_paint && not full
              then ok (record p { row_y = next_row p.model.font p.row_y })
              else paint_line px p y line)
      chosen line e lv r (inl skip) = rw skip (record {
        valid = v.valid;
        height = v.height;
        font = v.font;
        repaint = v.repaint;
        clean = skipped line e (not_needed line.needs_paint full skip);
      })
      chosen line e lv r (inr paint) = rw paint (paint_line-Painted m y p line v e lv r)

  pub paint_rows-Painted :
      (full : Bool) (m : ScreenModel) (n y : ℕ) (p : Progress px)
      → Painted m y p
      → Ensures (Painted m (y + n)) (paint_rows px full n y p)
  unfolding paint_rows
  paint_rows-Painted full m zero y p v = subst (λ k. Painted m k p) (omega arith) v
  paint_rows-Painted full m (suc n) y p v =
      Ensures-bind (Painted m (y + 1)) (Painted m (y + suc n)) (paint_row px full p y) _
        (paint_row-Painted full m y p v)
        λ p' v'.
          subst (λ k. Ensures (Painted m k) (paint_rows px full n (y + 1) p')) (omega arith)
            (paint_rows-Painted full m n (y + 1) p' v')
