-- ===== src/Keyboard/Keys.antt =====
-- src/keyboard.rs: the two bytes that the keyboard reports, and what they stand for.
use picocalc_wezterm.Prelude.{
  ℕ, Bool, false, ◌&&◌, ◌||◌, Option, none, some, List, [], ◌∷◌, ◌==◌, ltb, leb, if◌then◌else◌, not,
}
use native.Mathlib.Decide.{ℕ_discrete}

pub data KeyState : Type 0 where
  idle pressed hold released : KeyState

-- `char` holds a code point, and `other` a byte.
pub data Key : Type 0 where
  none_key joy_up joy_down joy_left joy_right joy_center : Key
  button_left1 button_right1 button_left2 button_right2 : Key
  back_space tab enter : Key
  mod_alt mod_shift_left mod_shift_right mod_symbol mod_control : Key
  escape up down left right break insert home del end page_up page_down caps_lock : Key
  f1 f2 f3 f4 f5 f6 f7 f8 f9 f10 : Key
  char other : ℕ → Key

pub KeyState-discrete : Discrete KeyState
KeyState-discrete = hlevel

pub Key-discrete : Discrete Key
Key-discrete = hlevel ℕ_discrete

unfoldable pub key_state_from : ℕ → KeyState
key_state_from s =
    if s == 1
    then KeyState.pressed
    else if s == 2
    then KeyState.hold
    else if s == 3
    then KeyState.released
    else KeyState.idle

-- The arms of `Key::from` with a literal, in their order.
abbrev pub key_table : List (ℕ × Key)
key_table =
    (0, Key.none_key)
    ∷ (1, Key.joy_up)
    ∷ (2, Key.joy_down)
    ∷ (3, Key.joy_left)
    ∷ (4, Key.joy_right)
    ∷ (5, Key.joy_center)
    ∷ (6, Key.button_left1)
    ∷ (7, Key.button_right1)
    ∷ (8, Key.back_space)
    ∷ (9, Key.tab)
    ∷ (0x0a, Key.enter)
    ∷ (0x11, Key.button_left2)
    ∷ (0x12, Key.button_right2)
    ∷ (0xa1, Key.mod_alt)
    ∷ (0xa2, Key.mod_shift_left)
    ∷ (0xa3, Key.mod_shift_right)
    ∷ (0xa4, Key.mod_symbol)
    ∷ (0xa5, Key.mod_control)
    ∷ (0xb1, Key.escape)
    ∷ (0xb4, Key.left)
    ∷ (0xb5, Key.up)
    ∷ (0xb6, Key.down)
    ∷ (0xb7, Key.right)
    ∷ (0xd0, Key.break)
    ∷ (0xd1, Key.insert)
    ∷ (0xd2, Key.home)
    ∷ (0xd4, Key.del)
    ∷ (0xd5, Key.end)
    ∷ (0xd6, Key.page_up)
    ∷ (0xd7, Key.page_down)
    ∷ (0xc1, Key.caps_lock)
    ∷ (0x81, Key.f1)
    ∷ (0x82, Key.f2)
    ∷ (0x83, Key.f3)
    ∷ (0x84, Key.f4)
    ∷ (0x85, Key.f5)
    ∷ (0x86, Key.f6)
    ∷ (0x87, Key.f7)
    ∷ (0x88, Key.f8)
    ∷ (0x89, Key.f9)
    ∷ (0x90, Key.f10)
    ∷ []

unfoldable pub find_key : ℕ → List (ℕ × Key) → Option Key
find_key k [] = none
find_key k ((code, key) ∷ rest) = if k == code then some key else find_key k rest

-- `char::from_u32`: the code points that are no surrogates.
abbrev pub char_from_u32 : ℕ → Option ℕ
char_from_u32 c = if ltb c 0xd800 || (leb 0xe000 c && ltb c 0x110000) then some c else none

unfoldable pub key_from : ℕ → Key
unfolding find_key
key_from k = elim (find_key k key_table) [
  | some key ↦ key
  | none ↦ elim (char_from_u32 k) [ some c ↦ Key.char c | none ↦ Key.other k ]
]

-- The bit flags of `Modifiers`, each as a truth value.
pub record Modifiers : Type 0 where
  pub ctrl : Bool
  pub alt : Bool
  pub lshift : Bool
  pub rshift : Bool
  pub sym : Bool

abbrev pub no_modifiers : Modifiers
no_modifiers = record { ctrl = false; alt = false; lshift = false; rshift = false; sym = false }

-- `modifiers == Modifiers::CTRL` and `modifiers == Modifiers::ALT`.
abbrev pub only_ctrl : Modifiers → Bool
only_ctrl m = m.ctrl && not m.alt && not m.lshift && not m.rshift && not m.sym

abbrev pub only_alt : Modifiers → Bool
only_alt m = not m.ctrl && m.alt && not m.lshift && not m.rshift && not m.sym

pub record KeyReport : Type 0 where
  pub state : KeyState
  pub key : Key
  pub modifiers : Modifiers
