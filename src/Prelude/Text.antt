-- ===== src/Prelude/Text.antt =====
-- Text as the list of its code points, which for ASCII text are its bytes.
use Prim.Native.Nat.{ℕ, ◌+◌, ◌-◌, ◌*◌}
use Prim.Native.Char.{code}
use Prim.Native.String.{String}
use mathlib.Core.Path.{◌≡◌, refl}
use mathlib.Core.Bool.{Bool, true, false, ◌&&◌}
use mathlib.Core.Option.{Option, none, some}
use mathlib.Core.List.{List, [], ◌∷◌}
use native.Mathlib.Omega.{arith}
use picocalc_wezterm.Prelude.Tests.{ltb, leb, ◌==◌, if◌then◌else◌}

abbrev pub Text : Type 0
Text = List ℕ

abbrev pub codes : String → Text
codes String.[] = []
codes (String.◌∷◌ c s) = code c ∷ codes s

abbrev pub text_eq : Text → Text → Bool
text_eq [] [] = true
text_eq [] (y ∷ ys) = false
text_eq (x ∷ xs) [] = false
text_eq (x ∷ xs) (y ∷ ys) = x == y && text_eq xs ys

pub text_eq_refl : (xs : Text) → text_eq xs xs ≡ true
text_eq_refl [] = refl
text_eq_refl (x ∷ xs) = ground (arith, text_eq_refl xs)

pub eq_of_text_eq : (xs ys : Text) → text_eq xs ys ≡ true → xs ≡ ys
eq_of_text_eq [] [] h = refl
eq_of_text_eq [] (y ∷ ys) h = cc
eq_of_text_eq (x ∷ xs) [] h = cc
eq_of_text_eq (x ∷ xs) (y ∷ ys) h = ground (arith, eq_of_text_eq xs ys)

-- `str::parse::<u8>`: an optional `+`, then at least one digit, the value at most 255.
abbrev digit? : ℕ → Option ℕ
digit? c = if leb b'0' c && leb c b'9' then some (c - b'0') else none

digits_u8 : ℕ → Text → Option ℕ
digits_u8 acc [] = some acc
digits_u8 acc (c ∷ s) = elim (digit? c) [
  | none ↦ none
  | some d ↦ elim (ltb (acc * 10 + d) 256) [ true ↦ digits_u8 (acc * 10 + d) s | false ↦ none ]
]

unfoldable pub parse_u8 : Text → Option ℕ
unfolding digits_u8
parse_u8 [] = none
parse_u8 (c ∷ []) = elim (digit? c) [ none ↦ none | some d ↦ some d ]
parse_u8 (c ∷ d ∷ s) = if c == b'+' then digits_u8 0 (d ∷ s) else digits_u8 0 (c ∷ d ∷ s)
