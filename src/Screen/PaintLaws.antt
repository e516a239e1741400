-- ===== src/Screen/PaintLaws.antt =====
-- src/screen.rs: the screen after `update_display`.
use picocalc_wezterm.Prelude.{
  ℕ, zero, suc, ◌+◌, ◌<◌, ◌≡◌, refl, sym, subst, Bool, true, false, List, [], ◌∷◌, inl, inr, ok,
  Ensures, Ensures-bind, Ensures-map, ltb, lt→ltb, if◌then◌else◌, Bool-cases, arith,
}
use picocalc_wezterm.Screen.Model.{ScreenModel}
use picocalc_wezterm.Screen.Valid.{IsValid}
use picocalc_wezterm.Screen.Colors.{Pixels}
use picocalc_wezterm.Screen.Paint.{
  Draw, draw_cluster, Progress, paint_row, paint_rows, clear_below, update_display, blank_cluster,
  next_row, begin_update, boundary_height, clear_display,
}
use picocalc_wezterm.Screen.PaintRows.{Clean, Returns, Painted, draw_cluster-ok, paint_rows-Painted}

module _ (px : Pixels) where
  -- Clean rows are passed over.
  paint_rows-Clean :
      (n y : ℕ) (p : Progress px)
      → ((z : ℕ) → z < y + n → Clean p.model z)
      → (row : ℕ) × (paint_rows px false n y p ≡ ok (record p { row_y = row }))
  unfolding paint_rows paint_row
  paint_rows-Clean zero y p h = (p.row_y, refl)
  paint_rows-Clean (suc n) y p h =
      let (line, e, np) = h y (omega arith) in
      let next = record p { row_y = next_row p.model.font p.row_y } in
      let (row, r) = paint_rows-Clean n (y + 1) next (λ z below. h z (omega arith)) in
      (row, rw (e, np) r)

  -- Where nothing needs paint, nothing is drawn.
  once-Clean :
      (m : ScreenModel)
      → 0 < m.font.char_height
      → ((z : ℕ) → z < m.height → Clean (record m { full_repaint = false }) z)
      → update_display px (record m { full_repaint = false })
        ≡ ok (record m { full_repaint = false }, [])
  unfolding update_display begin_update
  once-Clean m tall clean =
      let n : ScreenModel = record m { full_repaint = false } in
      let start : Progress px = record {
        model = n;
        row_y = n.pixel_offset_first_line;
        num_changed = 0;
        draws = [];
      } in
      let (row, r) = paint_rows-Clean n.height 0 start (λ z below. clean z (omega arith)) in
      rw (lt→ltb 0 m.font.char_height tall, r)

  update_display-Clean :
      (n : ScreenModel)
      → n.full_repaint ≡ false
      → 0 < n.font.char_height
      → ((z : ℕ) → z < n.height → Clean n z)
      → update_display px n ≡ ok (n, [])
  update_display-Clean n once tall clean =
      let same : n ≡ record n { full_repaint = false } = λ i. record n { full_repaint = once i } in
      subst (λ k. update_display px k ≡ ok (k, [])) (sym same)
        (once-Clean n tall λ z below. subst (λ k. Clean k z) same (clean z below))

  start-Painted :
      (m : ScreenModel) (offset : ℕ) (draws : List (Draw px))
      → offset < 480
      → IsValid m
      → Painted px m 0 (record {
        model = record m { full_repaint = false; pixel_offset_first_line = offset };
        row_y = offset;
        num_changed = 0;
        draws = draws;
      })
  start-Painted m offset draws h v = record {
    valid = record {
      sound = record {
        line_count = v.sound.line_count;
        each_line = v.sound.each_line;
        x_in = v.sound.x_in;
        width_in = v.sound.width_in;
        height_pos = v.sound.height_pos;
        height_in = v.sound.height_in;
        first_in = v.sound.first_in;
        color_in = v.sound.color_in;
      };
      y_in = v.y_in;
      pixel_in = h;
    };
    height = refl;
    font = refl;
    repaint = refl;
    clean = (λ z below. absurd (omega arith));
  }

  -- `clear_below` draws, and keeps the model.
  clear_below-model :
      (offset : ℕ) (p : Progress px) → Ensures (λ r. r.0 ≡ p.model) (clear_below px offset p)
  unfolding clear_below
  clear_below-model offset p =
      Ensures-bind (λ a. Unit {0}) (λ r. r.0 ≡ p.model)
        (draw_cluster px p.model.font blank_cluster p.row_y) _
        (draw_cluster-ok px p.model.font blank_cluster p.row_y)
        λ below u.
          Ensures-bind (λ a. Unit {0}) (λ r. r.0 ≡ p.model) _ _
            (extra (ltb 0 (boundary_height p.model.font))) λ more w. refl
    where
      extra :
          (b : Bool)
          → Returns (
              if b
              then draw_cluster px p.model.font blank_cluster (p.row_y + p.model.font.char_height)
              else ok [])
      extra true =
          draw_cluster-ok px p.model.font blank_cluster (p.row_y + p.model.font.char_height)
      extra false = tt

  begin-Painted :
      (m : ScreenModel)
      → IsValid m
      → Painted px m 0 (record {
        model = (begin_update px m).0;
        row_y = (begin_update px m).0.pixel_offset_first_line;
        num_changed = 0;
        draws = (begin_update px m).1;
      })
  unfolding begin_update
  begin-Painted m v = elim (Bool-cases m.full_repaint) [
    | inl full ↦ rw full (
        start-Painted (record m { full_repaint = true }) 0 (clear_display (px.black) ∷ [])
          (omega arith) (rw full at v))
    | inr once ↦ rw once (
        start-Painted (record m { full_repaint = false }) m.pixel_offset_first_line [] v.pixel_in
          (rw once at v))
  ]

  done :
      (m : ScreenModel) (p : Progress px)
      → 0 < m.font.char_height
      → Painted px m m.height p
      → IsValid p.model × (update_display px p.model ≡ ok (p.model, []))
  done m p tall v = (
    v.valid,
    update_display-Clean p.model v.repaint (subst (λ f. 0 < f.char_height) (sym v.font) tall)
        λ z below. v.clean z (omega (arith, v.height)),
  )

  -- With a font of some height, `update_display` on a valid screen returns and the screen is valid
  -- afterwards; a second update then draws nothing and changes nothing.
  pub update_display-settles :
      (m : ScreenModel)
      → IsValid m
      → 0 < m.font.char_height
      → Ensures (λ r. IsValid r.0 × (update_display px r.0 ≡ ok (r.0, []))) (update_display px m)
  unfolding update_display
  update_display-settles m v tall =
      rw (update_display, lt→ltb 0 m.font.char_height tall)
        (Ensures-bind (Painted px m m.height) Settled
          (paint_rows px m.full_repaint m.height 0 start) _
          (subst (λ k. Ensures (Painted px m k) (paint_rows px m.full_repaint m.height 0 start))
            none_before
            (paint_rows-Painted px m.full_repaint m m.height 0 start (begin-Painted m v)))
          λ p v'. ended p v' (ltb 0 p.num_changed))
    where
      start : Progress px
      start = record {
        model = (begin_update px m).0;
        row_y = (begin_update px m).0.pixel_offset_first_line;
        num_changed = 0;
        draws = (begin_update px m).1;
      }

      none_before : 0 + m.height ≡ m.height
      none_before = omega arith

      Settled : ScreenModel × List (Draw px) → Type 0
      Settled r = IsValid r.0 × (update_display px r.0 ≡ ok (r.0, []))

      ended :
          (p : Progress px)
          → Painted px m m.height p
          → (b : Bool)
          → Ensures Settled (
              if b
              then clear_below px (begin_update px m).0.pixel_offset_first_line p
              else ok (p.model, p.draws))
      ended p v' true =
          Ensures-map (λ r. r.0 ≡ p.model) Settled
            (clear_below px (begin_update px m).0.pixel_offset_first_line p)
            (λ r e.
              subst (λ n. IsValid n × (update_display px n ≡ ok (n, []))) (sym e)
                (done m p tall v'))
            (clear_below-model (begin_update px m).0.pixel_offset_first_line p)
      ended p v' false = done m p tall v'
