-- ===== src/Screen/Session.antt =====
-- src/screen.rs: what the tasks do to the shared screen, from `Screen::new` on.
use picocalc_wezterm.Prelude.{
  ℕ, ◌<◌, List, [], ◌∷◌, Outcome, ok, ◌>>=◌, Ensures, Ensures-bind, All, length,
}
use picocalc_wezterm.Screen.Model.{Font, ScreenModel}
use picocalc_wezterm.Screen.Valid.{IsValid}
use picocalc_wezterm.Screen.Fonts.{increase_font, decrease_font, default_screen, clear}
use picocalc_wezterm.Screen.Terminal.{Parser, Screen, parse_bytes}
use picocalc_wezterm.Screen.Safety.{
  FontFits, clear-IsValid, increase_font-IsValid, decrease_font-IsValid, default_screen-IsValid,
  parse_bytes-IsValid,
}

-- One use of the lock of `SCREEN`: a write, the command `cls`, or a font key.
pub data Request : Type 0 where
  bytes : List ℕ → Request
  cls larger smaller : Request

module _ (fonts : List Font) (p : Parser) where
  -- `Deref`: the operations of the model, on the screen that holds it.
  unfoldable pub on_model : (ScreenModel → Outcome ScreenModel) → Screen p → Outcome (Screen p)
  on_model f s = f s.model >>= λ m. ok (record { model = m; parser = s.parser })

  unfoldable pub serve : Screen p → Request → Outcome (Screen p)
  unfolding on_model
  serve s (Request.bytes b) = parse_bytes p s b
  serve s Request.cls = on_model (λ m. ok (clear m)) s
  serve s Request.larger = on_model (increase_font fonts) s
  serve s Request.smaller = on_model (decrease_font fonts) s

  unfoldable pub serve_all : Screen p → List Request → Outcome (Screen p)
  unfolding serve
  serve_all s [] = ok s
  serve_all s (r ∷ rest) = serve s r >>= λ t. serve_all t rest

  -- `Screen::new`, with the parser's first state.
  unfoldable pub new_screen : Parser.State p → Outcome (Screen p)
  new_screen start = default_screen fonts >>= λ m. ok (record { model = m; parser = start })

  module _ (fit : All FontFits fonts) where
    on_model-IsValid :
        (f : ScreenModel → Outcome ScreenModel) (s : Screen p)
        → Ensures IsValid (f s.model)
        → Ensures (λ (t : Screen p). IsValid t.model) (on_model f s)
    unfolding on_model
    on_model-IsValid f s v =
        Ensures-bind IsValid (λ (t : Screen p). IsValid t.model) (f s.model) _ v λ m w. w

    serve-IsValid :
        (s : Screen p) (r : Request)
        → IsValid s.model
        → Ensures (λ (t : Screen p). IsValid t.model) (serve s r)
    unfolding serve
    serve-IsValid s (Request.bytes b) v = parse_bytes-IsValid p s b v
    serve-IsValid s Request.cls v = on_model-IsValid (λ m. ok (clear m)) s (clear-IsValid s.model v)
    serve-IsValid s Request.larger v =
        on_model-IsValid (increase_font fonts) s (increase_font-IsValid fonts fit s.model v)
    serve-IsValid s Request.smaller v =
        on_model-IsValid (decrease_font fonts) s (decrease_font-IsValid fonts fit s.model v)

    serve_all-IsValid :
        (requests : List Request) (s : Screen p)
        → IsValid s.model
        → Ensures (λ (t : Screen p). IsValid t.model) (serve_all s requests)
    unfolding serve_all
    serve_all-IsValid [] s v = v
    serve_all-IsValid (r ∷ rest) s v =
        Ensures-bind (λ (t : Screen p). IsValid t.model) (λ (t : Screen p). IsValid t.model)
          (serve s r) _ (serve-IsValid s r v) λ t w. serve_all-IsValid rest t w

    -- With a table of more than two fonts, all of which fit the panel, whatever the parser: from
    -- `Screen::new` on, any sequence of writes, `cls` and font keys is served without a panic and
    -- without an endless loop, and the screen is valid at its end.
    pub session-IsValid :
        (start : Parser.State p) (requests : List Request)
        → 2 < length fonts
        → Ensures
            (λ (t : Screen p). IsValid t.model)
            (new_screen start >>= λ s. serve_all s requests)
    unfolding new_screen
    session-IsValid start requests enough =
        Ensures-bind (λ (t : Screen p). IsValid t.model) (λ (t : Screen p). IsValid t.model)
          (new_screen start) _
          (Ensures-bind IsValid (λ (t : Screen p). IsValid t.model) (default_screen fonts) _
            (default_screen-IsValid fonts fit enough) λ m w. w)
          λ s w. serve_all-IsValid requests s w
