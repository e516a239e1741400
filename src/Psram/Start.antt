-- ===== src/Psram/Start.antt =====
-- src/psram.rs: `PsRam::read_id`, and what `init_psram` asks of the chip once the PIO runs.
use picocalc_wezterm.Prelude.{
  true, false, ℕ, zero, suc, ◌+◌, List, [], ◌∷◌, Outcome, ok, ◌>>=◌, ◌==◌, if◌then◌else◌, get_or,
  take, length, ◌++◌,
}
use picocalc_wezterm.Prelude.Text.{text_eq, codes}
use picocalc_wezterm.Psram.Device.{Chip}
use picocalc_wezterm.Psram.Transfer.{write, read, write8, read8}
use picocalc_wezterm.Psram.Sizes.{spi_size}

abbrev pub deadbeef : List ℕ
deadbeef = 0xd ∷ 0xe ∷ 0xa ∷ 0xd ∷ 0xb ∷ 0xe ∷ 0xe ∷ 0xf ∷ []

abbrev pub test_string : List ℕ
test_string = codes "hello there, this is a test, how is it?"

abbrev pub first_eight : List ℕ
first_eight = 0 ∷ 1 ∷ 2 ∷ 3 ∷ 4 ∷ 5 ∷ 6 ∷ 7 ∷ []

-- What is logged as an error.
pub data Fault : Type 0 where
  single_differs : ℕ → ℕ → Fault
  first_differ : List ℕ → Fault
  deadbeef_differs : List ℕ → Fault
  single_again : ℕ → ℕ → ℕ → Fault
  text_differs : List ℕ → Fault

abbrev pub unless_equal : List ℕ → List ℕ → Fault → List Fault
unless_equal got expected fault = if text_eq got expected then [] else fault ∷ []

module _ (c : Chip) where
  open c use {State, send}

  -- The reset, in two commands.
  abbrev pub reset : State → State
  reset s = (send (send s (8 ∷ 0 ∷ 0x66 ∷ []) 0).0 (8 ∷ 0 ∷ 0x99 ∷ []) 0).0

  abbrev pub read_id : State → State × List ℕ
  read_id s = send s (32 ∷ 24 ∷ 0x9f ∷ 0 ∷ 0 ∷ 0 ∷ []) 3

  -- Each of some addresses, from `i` on, is given its own number.
  unfoldable pub write_numbers : ℕ → State → ℕ → State
  write_numbers zero s i = s
  write_numbers (suc n) s i = write_numbers n (write8 c s i i) (i + 1)

  unfoldable pub read_numbers : ℕ → State → ℕ → State × List Fault
  read_numbers zero s i = (s, [])
  read_numbers (suc n) s i =
      let (s', got) = read8 c s i in
      let (t, faults) = read_numbers n s' (i + 1) in
      (t, if got == i then faults else single_differs i got ∷ faults)

  -- Where a byte differs from what is expected, it is read once more, by itself.
  unfoldable pub read_again : List ℕ → List ℕ → State → ℕ → State × List Fault
  read_again (bad ∷ got) (b ∷ expected) s addr = elim (bad == b) [
    | true ↦ read_again got expected s (addr + 1)
    | false ↦
        let (s', x) = read8 c s addr in
        let (t, faults) = read_again got expected s' (addr + 1) in
        (t, single_again addr bad x ∷ faults)
  ]
  read_again _ _ s addr = (s, [])

  abbrev pub check_deadbeef : List ℕ → State → State × List Fault
  check_deadbeef got s =
      let (s', faults) = read_again got deadbeef s 0 in
      if text_eq got deadbeef then (s, []) else (s', deadbeef_differs got ∷ faults)

  -- The reads and writes of `init_psram`, with what they log.
  unfoldable pub check_start : State → Outcome (State × List Fault)
  unfolding write_numbers read_numbers read_again
  check_start s = do
    let (s1, singles) = read_numbers 10 (write_numbers 10 s 0) 0
    (s2, got) ← read c s1 0 8
    s3 ← write c s2 0 deadbeef
    (s4, again) ← read c s3 0 8
    let (s5, beef) = check_deadbeef again s4
    s6 ← write c s5 16 test_string
    (s7, buffer) ← read c s6 16 42
    let text = take (length test_string) buffer
    ok (
      s7,
      singles
          ++ unless_equal got first_eight (first_differ got)
          ++ beef
          ++ unless_equal text test_string (text_differs text),
    )

  pub record Started : Type 0 where
    pub state : State
    pub size : ℕ
    pub faults : List Fault

  -- `init_psram` after the set-up of the PIO.
  unfoldable pub init_psram : State → Outcome Started
  unfolding check_start
  init_psram s = check_start (reset s) >>= λ (t, faults).
      let (t', id) = read_id t in
      ok (record { state = t'; size = spi_size (get_or id 1 0) (get_or id 2 0); faults = faults })
