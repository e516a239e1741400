-- ===== src/Screen/Terminal.antt =====
-- src/screen.rs, `Screen`: the parser feeding its actions to the screen. The escape sequence
-- parser is a crate of its own: a parameter, any function from bytes to actions.
use picocalc_wezterm.Prelude.{ℕ, List, [], ◌∷◌, Outcome, ok, ◌>>=◌}
use picocalc_wezterm.Screen.Escape.{Action}
use picocalc_wezterm.Screen.Model.{ScreenModel}
use picocalc_wezterm.Screen.Action.{apply_action}

-- `Parser::parse` calls back with each action, in order.
pub record Parser : Type 1 where
  pub State : Type 0
  pub parse : State → List ℕ → State × List Action

unfoldable pub apply_actions : ScreenModel → List Action → Outcome ScreenModel
apply_actions m [] = ok m
apply_actions m (a ∷ rest) = apply_action m a >>= λ n. apply_actions n rest

module _ (p : Parser) where
  open p use {State, parse}

  pub record Screen : Type 0 where
    pub model : ScreenModel
    pub parser : State

  unfoldable pub parse_bytes : Screen → List ℕ → Outcome Screen
  parse_bytes s bytes =
      let (parser, actions) = parse s.parser bytes in
      apply_actions s.model actions >>= λ m. ok (record { model = m; parser = parser })

  -- A run of writes to the screen, as `print!` and the ssh channel make them.
  unfoldable pub parse_all : Screen → List (List ℕ) → Outcome Screen
  parse_all s [] = ok s
  parse_all s (b ∷ rest) = parse_bytes s b >>= λ t. parse_all t rest
