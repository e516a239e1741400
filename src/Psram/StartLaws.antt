-- ===== src/Psram/StartLaws.antt =====
-- src/psram.rs: the checks of `init_psram` on a chip that keeps its laws.
use picocalc_wezterm.Prelude.{
  ==_iff, ℕ, zero, suc, ◌+◌, ◌≤◌, ◌<◌, ◌≡◌, refl, ap, ◌∙◌, List, [], ◌∷◌, ◌++◌, Bool, true, Ensures,
  Ensures-bind, Ensures-map, arith, length, take, get_or, inl, inr, lt_or_ge, if◌then◌else◌, sym,
  ◌-◌, ◌*◌,
}
use picocalc_wezterm.Prelude.Text.{text_eq, text_eq_refl}
use picocalc_wezterm.Psram.Device.{Chip, window, overlay}
use picocalc_wezterm.Psram.Transfer.{write_loop, read, write, write8, read8}
use picocalc_wezterm.Psram.Sizes.{spi_size}
use picocalc_wezterm.Psram.RoundTrip.{write_loop-overlay, window-overlay}
use picocalc_wezterm.Psram.SelfTest.{test_psram}
use picocalc_wezterm.Psram.SelfTestLaws.{window_cong_in, IsRead, read-IsRead, test_psram-passes}
use picocalc_wezterm.Psram.Start.{
  deadbeef, check_deadbeef, test_string, first_eight, first_differ, Fault, write_numbers,
  read_numbers, check_start, init_psram, reset, unless_equal,
}

take-window : (mem : ℕ → ℕ) (a n k : ℕ) → take n (window mem a (n + k)) ≡ window mem a n
take-window mem a zero k = refl
take-window mem a (suc n) k =
    let e : suc n + k ≡ suc (n + k) = omega arith in
    ap (λ m. take (suc n) (window mem a m)) e ∙ ap (mem a ∷◌) (take-window mem (a + 1) n k)

overlay_one : (mem : ℕ → ℕ) (a b x : ℕ) → x < a → overlay mem a (b ∷ []) x ≡ mem x
unfolding overlay
overlay_one mem a b x h = ground arith

overlay_here : (mem : ℕ → ℕ) (a b : ℕ) → overlay mem a (b ∷ []) a ≡ b
unfolding overlay
overlay_here mem a b =
    let e : a - a ≡ 0 = omega arith in ground (arith, ap (λ i. get_or (b ∷ []) i 0) e)

spi_size_bound : (id1 id2 : ℕ) → spi_size id1 id2 ≤ 8 * 1024 * 1024
unfolding spi_size
spi_size_bound id1 id2 = ground arith

no_fault :
    (same : Bool) (faults : List Fault) (fault : Fault)
    → same ≡ true
    → faults ≡ []
    → (if same then faults else fault ∷ faults) ≡ []
no_fault same faults fault e none = rw (e, none) refl

unless_same :
    (got expected : List ℕ) (fault : Fault) → got ≡ expected → unless_equal got expected fault ≡ []
unless_same got expected fault e =
    no_fault _ [] fault (ap (λ v. text_eq v expected) e ∙ text_eq_refl expected) refl

all_none :
    (first second third fourth : List Fault)
    → first ≡ []
    → second ≡ []
    → third ≡ []
    → fourth ≡ []
    → first ++ second ++ third ++ fourth ≡ []
all_none first second third fourth e f g h = rw (e, f, g, h) refl

module _ (c : Chip) where
  open c use {State, cell, send, write_law, read_law, read_keeps}

  spi_size_fits : (id1 id2 : ℕ) → spi_size id1 id2 ≤ c.capacity
  spi_size_fits id1 id2 = omega (arith, spi_size_bound id1 id2)

  -- The bytes below an address are their own numbers.
  abbrev Numbered : ℕ → State → Type 0
  Numbered k s = (x : ℕ) → x < k → cell s x ≡ x

  write8-Numbered :
      (s : State) (i : ℕ) → i + 1 ≤ c.capacity → Numbered i s → Numbered (i + 1) (write8 c s i i)
  unfolding write8
  write8-Numbered s i fits h x below = elim (lt_or_ge x i) [
    | inl lt ↦ write_law s i (i ∷ []) fits (omega arith) x ∙ overlay_one (cell s) i i x lt ∙ h x lt
    | inr ge ↦
        let e : x ≡ i = omega arith in
        write_law s i (i ∷ []) fits (omega arith) x
        ∙ ap (overlay (cell s) i (i ∷ [])) e
        ∙ overlay_here (cell s) i i
        ∙ sym e
  ]

  write_numbers-Numbered :
      (n : ℕ) (s : State) (i : ℕ)
      → i + n ≤ c.capacity
      → Numbered i s
      → Numbered (i + n) (write_numbers c n s i)
  unfolding write_numbers
  write_numbers-Numbered zero s i fits h = λ x below. h x (omega arith)
  write_numbers-Numbered (suc n) s i fits h =
      let numbered =
        write_numbers-Numbered n (write8 c s i i) (i + 1) (omega arith)
          (write8-Numbered s i (omega arith) h) in
      λ x below. numbered x (omega arith)

  read8-cell : (s : State) (a : ℕ) → a + 1 ≤ c.capacity → (read8 c s a).1 ≡ cell s a
  unfolding read8
  read8-cell s a fits = ap (λ bytes. get_or bytes 0 0) (read_law s a 1 fits (omega arith))

  read8-keeps : (s : State) (a x : ℕ) → cell (read8 c s a).0 x ≡ cell s x
  unfolding read8
  read8-keeps s a x = read_keeps s a 1 x

  -- Numbers that are there are read without a fault.
  read_numbers-none :
      (n : ℕ) (s : State) (i : ℕ)
      → i + n ≤ c.capacity
      → Numbered (i + n) s
      → ((read_numbers c n s i).1 ≡ []) × Numbered (i + n) (read_numbers c n s i).0
  unfolding read_numbers
  read_numbers-none zero s i fits h = (refl, h)
  read_numbers-none (suc n) s i fits h =
      let numbered : Numbered (i + 1 + n) (read8 c s i).0 =
        λ x below. read8-keeps s i x ∙ h x (omega arith) in
      let (none, after) = read_numbers-none n (read8 c s i).0 (i + 1) (omega arith) numbered in
      (
        no_fault _ _ _ ((==_iff _ i).1 (read8-cell s i (omega arith) ∙ h i (omega arith))) none,
        λ x below. after x (omega arith),
      )

  -- The bytes that were written are there.
  write-window :
      (s : State) (a : ℕ) (bytes : List ℕ)
      → a + length bytes ≤ c.capacity
      → Ensures (λ t. window (cell t) a (length bytes) ≡ bytes) (write c s a bytes)
  unfolding write
  write-window s a bytes fits =
      Ensures-map (λ t. (x : ℕ) → cell t x ≡ overlay (cell s) a bytes x) _
        (write_loop c (length bytes) s a bytes)
        (λ t h.
          window_cong_in _ _ a (length bytes) (λ x lo hi. h x) ∙ window-overlay (cell s) a bytes)
        (write_loop-overlay c (length bytes) s a bytes (omega arith) fits)

  check_deadbeef-same :
      (got : List ℕ) (s : State) → got ≡ deadbeef → (check_deadbeef c got s).1 ≡ []
  check_deadbeef-same got s e = ap (λ v. (check_deadbeef c v s).1) e

  text_read :
      (s : State) (buffer : List ℕ)
      → window (cell s) 16 (length test_string) ≡ test_string
      → buffer ≡ window (cell s) 16 42
      → take (length test_string) buffer ≡ test_string
  text_read s buffer there e =
      ap (take (length test_string)) e ∙ take-window (cell s) 16 (length test_string) 3 ∙ there

  abbrev NoFault : State × List Fault → Type 0
  NoFault r = r.1 ≡ []

  check_start-none : (s : State) → Ensures NoFault (check_start c s)
  unfolding check_start
  check_start-none s =
      let numbered =
        write_numbers-Numbered 10 s 0 (omega arith) (λ x below. absurd (omega arith)) in
      let singles = read_numbers-none 10 (write_numbers c 10 s 0) 0 (omega arith) numbered in
      let s1 = (read_numbers c 10 (write_numbers c 10 s 0) 0).0 in
      Ensures-bind (IsRead c s1 0 8) NoFault (read c s1 0 8) _ (read-IsRead c s1 0 8 (omega arith))
        λ (s2, got) (e, kept).
          Ensures-bind (λ t. window (cell t) 0 8 ≡ deadbeef) NoFault (write c s2 0 deadbeef) _
            (write-window s2 0 deadbeef (omega arith))
            λ s3 there.
              Ensures-bind (IsRead c s3 0 8) NoFault (read c s3 0 8) _
                (read-IsRead c s3 0 8 (omega arith))
                λ (s4, again) (e', kept').
                  let s5 = (check_deadbeef c again s4).0 in
                  Ensures-bind (λ t. window (cell t) 16 (length test_string) ≡ test_string) NoFault
                    (write c s5 16 test_string) _ (write-window s5 16 test_string (omega arith))
                    λ s6 text.
                      Ensures-bind (IsRead c s6 16 42) NoFault (read c s6 16 42) _
                        (read-IsRead c s6 16 42 (omega arith))
                        λ (s7, buffer) (e'', kept'').
                          all_none _ _ _ _ singles.0
                            (unless_same got first_eight (first_differ got) (
                              e
                              ∙ window_cong_in _ (λ x. x) 0 8 λ x lo hi. singles.1 x (omega arith)))
                            (check_deadbeef-same again s4 (e' ∙ there))
                            (unless_same _ test_string _ (text_read s6 buffer text e''))

  -- On a chip that keeps its laws, `init_psram` returns without having logged a fault, and the self
  -- test of as many bytes as it reports then returns and passes.
  pub init_psram-tested :
      (s : State)
      → Ensures
          (λ r. (r.faults ≡ []) × Ensures (λ t. t.1 ≡ true) (test_psram c r.state r.size))
          (init_psram c s)
  unfolding init_psram
  init_psram-tested s =
      Ensures-bind NoFault _ (check_start c (reset c s)) _ (check_start-none (reset c s))
        λ (t, faults) none. (none, test_psram-passes c _ _ (spi_size_fits _ _))
