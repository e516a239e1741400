-- ===== src/Prelude/Bytes.antt =====
-- The bits of a byte, as arithmetic on its two nybbles: each law is checked at every value.
use Prim.Native.Nat.{ℕ, zero, suc, ◌+◌, ◌*◌, ◌/◌, ◌%◌, ◌<◌, bit_and, bit_or}
use mathlib.Core.Path.{◌≡◌, refl}
use mathlib.Core.Bool.{Bool, true, ◌&&◌}
use native.Mathlib.Omega.{arith}
use picocalc_wezterm.Prelude.Tests.{ltb, ltb→lt, ◌==◌, ==_iff}

-- A test that holds of every value under a bound, tried from the top.
unfoldable pub every_below : ℕ → (ℕ → Bool) → Bool
every_below zero test = true
every_below (suc top) test = test top && every_below top test

pub every_below_at :
    (bound : ℕ) (test : ℕ → Bool) (v : ℕ)
    → every_below bound test ≡ true
    → v < bound
    → test v ≡ true
unfolding every_below
every_below_at zero test v tried inside = absurd (omega arith)
every_below_at (suc top) test v tried inside = ground (arith, every_below_at top test v)

abbrev all_pairs : ℕ → ℕ → (ℕ → ℕ → Bool) → Bool
all_pairs n k p = every_below n (λ x. every_below k (p x))

all_pairs_sound :
    (n k : ℕ) (p : ℕ → ℕ → Bool) (x y : ℕ) → all_pairs n k p ≡ true → x < n → y < k → p x y ≡ true
all_pairs_sound n k p x y h hx hy =
    every_below_at k (p x) y (every_below_at n (λ x. every_below k (p x)) x h hx) hy

and_high_table : every_below 256 (λ c. bit_and c 0xf0 == c / 16 * 16) ≡ true
unfolding every_below
and_high_table = refl

and_low_table : every_below 256 (λ c. bit_and c 0x0f == c % 16) ≡ true
unfolding every_below
and_low_table = refl

or_nybbles_table :
    all_pairs 16 16 (λ h l. (bit_or (h * 16) l == h * 16 + l) && (bit_or l (h * 16) == h * 16 + l))
    ≡ true
unfolding every_below
or_nybbles_table = refl

or_lt_table : all_pairs 16 256 (λ h b. ltb (bit_or (h * 16) b) 256 && ltb (bit_or h b) 256) ≡ true
unfolding every_below
or_lt_table = refl

-- A mask keeps one nybble.
pub bit_and_high : (c : ℕ) → c < 256 → bit_and c 0xf0 ≡ c / 16 * 16
bit_and_high c h = (==_iff _ _).0 (every_below_at 256 _ c and_high_table h)

pub bit_and_low : (c : ℕ) → c < 256 → bit_and c 0x0f ≡ c % 16
bit_and_low c h = (==_iff _ _).0 (every_below_at 256 _ c and_low_table h)

&&_left : (a b : Bool) → a && b ≡ true → a ≡ true
&&_left a b h = ground arith

&&_right : (a b : Bool) → a && b ≡ true → b ≡ true
&&_right a b h = ground arith

-- Nybbles in different places are added.
pub bit_or_high : (h l : ℕ) → h < 16 → l < 16 → bit_or (h * 16) l ≡ h * 16 + l
bit_or_high h l hh hl =
    (==_iff _ _).0 (&&_left _ _ (all_pairs_sound 16 16 _ h l or_nybbles_table hh hl))

pub bit_or_low : (h l : ℕ) → h < 16 → l < 16 → bit_or l (h * 16) ≡ h * 16 + l
bit_or_low h l hh hl =
    (==_iff _ _).0 (&&_right _ _ (all_pairs_sound 16 16 _ h l or_nybbles_table hh hl))

-- A byte results from any byte.
pub bit_or_high-lt : (h b : ℕ) → h < 16 → b < 256 → bit_or (h * 16) b < 256
bit_or_high-lt h b hh hb = ltb→lt _ _ (&&_left _ _ (all_pairs_sound 16 256 _ h b or_lt_table hh hb))

pub bit_or_low-lt : (l b : ℕ) → l < 16 → b < 256 → bit_or l b < 256
bit_or_low-lt l b hl hb = ltb→lt _ _ (&&_right _ _ (all_pairs_sound 16 256 _ l b or_lt_table hl hb))
