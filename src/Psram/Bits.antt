-- ===== src/Psram/Bits.antt =====
-- src/psram.rs: bytes as the bits that the PIO program shifts.
use picocalc_wezterm.Prelude.{
  ℕ, zero, suc, ◌*◌, ◌<◌, ◌≡◌, refl, ap, Bool, true, false, ◌&&◌, List, [], ◌∷◌, ◌++◌, length, some,
  none, arith, ◌==◌, ==_iff,
}
use mathlib.Core.Path.{ap₂}
use picocalc_wezterm.Prelude.Bytes.{every_below, every_below_at}
use picocalc_wezterm.Psram.Pio.{byte_bits, all_bits, next_byte, pull, byte_value}

-- A test that holds of both truth values.
abbrev both : (Bool → Bool) → Bool
both p = p true && p false

both_at : (p : Bool → Bool) (b : Bool) → both p ≡ true → p b ≡ true
both_at p true h = ground arith
both_at p false h = ground arith

abbrev same : Bool → Bool → Bool
same true b = b
same false true = false
same false false = true

abbrev same_bits : List Bool → List Bool → Bool
same_bits [] [] = true
same_bits (a ∷ xs) (b ∷ bs) = same a b && same_bits xs bs
same_bits _ _ = false

eq_of_same : (a b : Bool) → same a b ≡ true → a ≡ b
eq_of_same true true h = refl
eq_of_same true false h = cc
eq_of_same false true h = cc
eq_of_same false false h = refl

eq_of_same_bits : (xs ys : List Bool) → same_bits xs ys ≡ true → xs ≡ ys
eq_of_same_bits [] [] h = refl
eq_of_same_bits [] (b ∷ bs) h = cc
eq_of_same_bits (a ∷ xs) [] h = cc
eq_of_same_bits (a ∷ xs) (b ∷ bs) h =
    ap₂ ◌∷◌ (eq_of_same a b (ground arith)) (eq_of_same_bits xs bs (ground arith))

abbrev round_trip : Bool → Bool → Bool → Bool → Bool → Bool → Bool → Bool → Bool
round_trip a b c d e f g h =
    same_bits (byte_bits (byte_value a b c d e f g h)) (a ∷ b ∷ c ∷ d ∷ e ∷ f ∷ g ∷ h ∷ [])

abbrev all_round_trips : Bool
all_round_trips = both λ a.
    both λ b. both λ c. both λ d. both λ e. both λ f. both λ g. both λ h. round_trip a b c d e f g h

table : all_round_trips ≡ true
unfolding byte_bits
table = refl

-- The bits of the byte that eight bits make are these bits.
byte_bits-byte_value :
    (a b c d e f g h : Bool)
    → byte_bits (byte_value a b c d e f g h) ≡ a ∷ b ∷ c ∷ d ∷ e ∷ f ∷ g ∷ h ∷ []
byte_bits-byte_value a b c d e f g h = eq_of_same_bits _ _ (
    both_at (λ h. round_trip a b c d e f g h) h
      (both_at (λ g. both λ h. round_trip a b c d e f g h) g
        (both_at (λ f. both λ g. both λ h. round_trip a b c d e f g h) f
          (both_at (λ e. both λ f. both λ g. both λ h. round_trip a b c d e f g h) e
            (both_at (λ d. both λ e. both λ f. both λ g. both λ h. round_trip a b c d e f g h) d
              (both_at
                (λ c. both λ d. both λ e. both λ f. both λ g. both λ h. round_trip a b c d e f g h)
                c
                (both_at
                  (λ b. both λ c.
                    both λ d. both λ e. both λ f. both λ g. both λ h. round_trip a b c d e f g h)
                  b
                  (both_at
                    (λ a. both λ b. both λ c.
                      both λ d. both λ e. both λ f. both λ g. both λ h. round_trip a b c d e f g h)
                    a table))))))))

next_byte_table :
    every_below 256 (λ c. elim (next_byte (byte_bits c)) [ none ↦ false | some (v, rest) ↦ v == c ])
    ≡ true
unfolding every_below next_byte byte_bits
next_byte_table = refl

-- A byte is read back from its bits.
pub next_byte-byte_bits :
    (c : ℕ) (rest : List Bool) → c < 256 → next_byte (byte_bits c ++ rest) ≡ some (c, rest)
unfolding next_byte byte_bits
next_byte-byte_bits c rest small =
    ap (λ v. some (v, rest))
      ((==_iff _ c).0
        (unfold byte_bits in unfold next_byte in every_below_at 256 _ c next_byte_table small))

pub length-all_bits : (cs : List ℕ) → length (all_bits cs) ≡ 8 * length cs
unfolding all_bits byte_bits
length-all_bits [] = refl
length-all_bits (c ∷ cs) = omega (arith, length-all_bits cs)

-- From bits in the number of some bytes, these bytes are pulled, and nothing is left.
pub pull-all :
    (n : ℕ) (bits : List Bool)
    → length bits ≡ 8 * n
    → (bytes : List ℕ) × (pull n bits ≡ some (bytes, [])) × (all_bits bytes ≡ bits)
unfolding pull all_bits next_byte
pull-all zero [] h = ([], refl, refl)
pull-all zero (b ∷ bits) h = absurd (omega arith)
pull-all (suc n) (a ∷ b ∷ c ∷ d ∷ e ∷ f ∷ g ∷ h ∷ rest) size =
    let (bytes, p, q) = pull-all n rest (omega arith) in
    (
      byte_value a b c d e f g h ∷ bytes,
      rw p refl,
      rw (byte_bits-byte_value a b c d e f g h, q) refl,
    )
pull-all (suc n) _ size = absurd (omega arith)
