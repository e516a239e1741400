-- ===== src/Psram/SelfTestLaws.antt =====
-- src/psram.rs: the self test on a chip that keeps its laws.
use picocalc_wezterm.Prelude.{
  if◌then◌else◌, subst, ℕ, zero, suc, ◌+◌, ◌-◌, ◌*◌, ◌/◌, ◌%◌, ◌^◌, ◌≤◌, ◌<◌, ◌≡◌, refl, ap, ◌∙◌,
  List, ◌∷◌, Bool, true, inl, inr, Ensures, Ensures-bind, Ensures-map, Ensures-both, arith, length,
  ok, lt_or_ge, min,
}
use mathlib.Core.Path.{ap₂}
use picocalc_wezterm.Prelude.Text.{text_eq, text_eq_refl}
use picocalc_wezterm.Psram.Device.{Chip, window, overlay}
use picocalc_wezterm.Psram.Transfer.{read_loop, read_command, write, read}
use picocalc_wezterm.Psram.RoundTrip.{write_loop-overlay, read_loop-window, window-overlay}
use picocalc_wezterm.Psram.SelfTest.{block_size, expect, write_blocks, count_bad, test_psram}

pub window_cong_in :
    (mem mem' : ℕ → ℕ) (a n : ℕ)
    → ((x : ℕ) → a ≤ x → x < a + n → mem x ≡ mem' x)
    → window mem a n ≡ window mem' a n
window_cong_in mem mem' a zero h = refl
window_cong_in mem mem' a (suc n) h =
    ap₂ ◌∷◌ (h a (omega arith) (omega arith))
      (window_cong_in mem mem' (a + 1) n λ x lo hi. h x (omega arith) (omega arith))

length-expect : (addr : ℕ) → length (expect addr) ≡ block_size
unfolding expect
length-expect addr = refl

good_block : (same : Bool) (bad : ℕ) → same ≡ true → bad ≡ 0 → (if same then bad else bad + 1) ≡ 0
good_block same bad e none = rw e none

overlay_before :
    (mem : ℕ → ℕ) (a : ℕ) (bytes : List ℕ) (x : ℕ) → x < a → overlay mem a bytes x ≡ mem x
unfolding overlay
overlay_before mem a bytes x h = ground arith

module _ (c : Chip) where
  open c use {State, cell, send, read_keeps}

  read_loop-keeps :
      (fuel : ℕ) (s : State) (a n : ℕ)
      → n ≤ fuel
      → Ensures (λ (t : State × List ℕ). (x : ℕ) → cell t.0 x ≡ cell s x) (read_loop c fuel s a n)
  unfolding read_loop
  read_loop-keeps fuel s a zero h = λ x. refl
  read_loop-keeps zero s a (suc n) h = absurd (omega arith)
  read_loop-keeps (suc fuel) s a (suc n) h =
      let m = min (suc n) 4 in
      let bits : m % 256 * 8 % 256 ≡ m * 8 = omega arith in
      let s' = (send s (read_command a m) m).0 in
      let kept : (x : ℕ) → cell s' x ≡ cell s x = λ x. rw bits (read_keeps s a m x) in
      Ensures-bind (λ (t : State × List ℕ). (x : ℕ) → cell t.0 x ≡ cell s' x) _
        (read_loop c fuel s' ((a + m) % 2 ^ 32) (suc n - m)) _
        (read_loop-keeps fuel s' ((a + m) % 2 ^ 32) (suc n - m) (omega arith)) λ t e x. e x ∙ kept x

  -- The blocks below number `i` are as they were written.
  abbrev Written : ℕ → State → Type 0
  Written i s =
      (b : ℕ) → b < i → window (cell s) (b * block_size) block_size ≡ expect (b * block_size)

  write_block-Written :
      (s : State) (i : ℕ)
      → i * block_size + block_size ≤ c.capacity
      → Written i s
      → Ensures (Written (i + 1)) (write c s (i * block_size) (expect (i * block_size)))
  unfolding write
  write_block-Written s i fits w =
      let a = i * block_size in
      let size = length-expect a in
      Ensures-map (λ t. (x : ℕ) → cell t x ≡ overlay (cell s) a (expect a) x) (Written (i + 1))
        (write c s a (expect a))
        (λ t h b below. elim (lt_or_ge b i) [
          | inl lt ↦
              window_cong_in _ _ (b * block_size) block_size
                (λ x lo hi. h x ∙ overlay_before (cell s) a (expect a) x (omega arith))
              ∙ w b lt
          | inr ge ↦
              subst (λ k. window (cell t) (k * block_size) block_size ≡ expect (k * block_size))
                (omega arith) (window_cong_in _ _ a block_size (λ x lo hi. h x) ∙ readback a)
        ])
        (write_loop-overlay c (length (expect a)) s a (expect a) (omega arith)
          (omega (arith, size, fits)))
    where
      readback : (a : ℕ) → window (overlay (cell s) a (expect a)) a block_size ≡ expect a
      readback a = rw (length-expect a) at (window-overlay (cell s) a (expect a))

  write_blocks-Written :
      (n : ℕ) (s : State) (i : ℕ)
      → (i + n) * block_size ≤ c.capacity
      → Written i s
      → Ensures (Written (i + n)) (write_blocks c n s i)
  unfolding write_blocks
  write_blocks-Written zero s i fits w = λ b below. w b (omega arith)
  write_blocks-Written (suc n) s i fits w =
      Ensures-bind (Written (i + 1)) _ (write c s (i * block_size) (expect (i * block_size))) _
        (write_block-Written s i (omega arith) w)
        λ s' w'.
          Ensures-map (Written (i + 1 + n)) (Written (i + suc n)) (write_blocks c n s' (i + 1))
            (λ t v b below. v b (omega arith)) (write_blocks-Written n s' (i + 1) (omega arith) w')

  -- The bytes are read as they are, and the memory is left.
  abbrev pub IsRead : State → ℕ → ℕ → State × List ℕ → Type 0
  IsRead s a n r = (r.1 ≡ window (cell s) a n) × ((x : ℕ) → cell r.0 x ≡ cell s x)

  pub read-IsRead :
      (s : State) (a n : ℕ) → a + n ≤ c.capacity → Ensures (IsRead s a n) (read c s a n)
  unfolding read
  read-IsRead s a n fits =
      Ensures-both (λ r. r.1 ≡ window (cell s) a n) (λ r. (x : ℕ) → cell r.0 x ≡ cell s x)
        (read c s a n) (read_loop-window c n s a n (omega arith) fits)
        (read_loop-keeps n s a n (omega arith))

  abbrev NoneBad : State × ℕ → Type 0
  NoneBad r = r.1 ≡ 0

  count_bad-none :
      (n : ℕ) (s : State) (i : ℕ)
      → (i + n) * block_size ≤ c.capacity
      → Written (i + n) s
      → Ensures NoneBad (count_bad c n s i)
  unfolding count_bad
  count_bad-none zero s i fits w = refl
  count_bad-none (suc n) s i fits w =
      Ensures-bind (IsRead s (i * block_size) block_size) NoneBad
        (read c s (i * block_size) block_size) _
        (read-IsRead s (i * block_size) block_size (omega arith))
        λ (s', bytes) (e, kept).
          Ensures-bind NoneBad NoneBad (count_bad c n s' (i + 1))
            (λ (t, bad). ok (t, if text_eq bytes (expect (i * block_size)) then bad else bad + 1))
            (count_bad-none n s' (i + 1) (omega arith) λ b below.
              window_cong_in _ _ (b * block_size) block_size (λ x lo hi. kept x)
              ∙ w b (omega arith))
            λ (t, bad) none.
              good_block (text_eq bytes (expect (i * block_size))) bad
                (ap (λ x. text_eq x (expect (i * block_size))) (e ∙ w i (omega arith))
                  ∙ text_eq_refl (expect (i * block_size)))
                none

  -- On a chip that keeps its laws, a self test of no more than its capacity returns, and it
  -- passes.
  pub test_psram-passes :
      (s : State) (size : ℕ) → size ≤ c.capacity → Ensures (λ r. r.1 ≡ true) (test_psram c s size)
  unfolding test_psram
  test_psram-passes s size h =
      Ensures-bind (Written (size / block_size)) _ (write_blocks c (size / block_size) s 0) _
        (subst (λ k. Ensures (Written k) (write_blocks c (size / block_size) s 0)) none_before
          (write_blocks-Written (size / block_size) s 0 (omega arith)
            λ b below. absurd (omega arith)))
        λ s' w.
          Ensures-bind (λ (r : State × ℕ). r.1 ≡ 0) _ (count_bad c (size / block_size) s' 0) _
            (count_bad-none (size / block_size) s' 0 (omega arith) λ b below. w b (omega arith))
            λ (t, bad) none. rw none refl
    where
      none_before : 0 + size / block_size ≡ size / block_size
      none_before = omega arith
