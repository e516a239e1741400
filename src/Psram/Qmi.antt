-- ===== src/Psram/Qmi.antt =====
-- src/psram.rs, `detect_psram_qmi` and `init_psram_qmi`: the writes to the registers of the QMI
-- interface. The FIFOs of its direct mode, and the loops that poll it, are a parameter.
use picocalc_wezterm.Prelude.{
  ℕ, zero, suc, ◌+◌, Bool, true, false, Outcome, ok, ◌>>=◌, ◌==◌, if◌then◌else◌, ◌%◌,
}
use picocalc_wezterm.Psram.Sizes.{qmi_size, qmi_timing, Timing}

-- The fields of DIRECT_CSR that are written.
pub record DirectCsr : Type 0 where
  pub clkdiv : ℕ
  pub en : Bool
  pub assert_cs1n : Bool
  pub auto_cs1n : Bool

abbrev pub csr_zero : DirectCsr
csr_zero = record { clkdiv = 0; en = false; assert_cs1n = false; auto_cs1n = false }

-- A word of DIRECT_TX: what is put out, on four lines or on one, and whether nothing is pushed to
-- the other FIFO.
pub record DirectTx : Type 0 where
  pub tx_data : ℕ
  pub oe : Bool
  pub quad : Bool
  pub nopush : Bool

-- The pad of the second chip select.
pub record Pad : Type 0 where
  pub iso : Bool
  pub ie : Bool
  pub od : Bool
  pub funcsel : ℕ

-- The registers of the window of the second chip. A format has its dummy length, where it sets one.
pub record MemoryWindow : Type 0 where
  pub timing : Timing
  pub rfmt_dummy : ℕ
  pub rcmd : ℕ
  pub wcmd : ℕ
  pub quad_formats : Bool

-- `as u8`
abbrev pub low_bytes : Timing → Timing
low_bytes t = record {
  divisor = t.divisor % 256;
  rxdelay = t.rxdelay % 256;
  max_select = t.max_select % 256;
  min_deselect = t.min_deselect % 256;
}

-- Direct mode: a word that is put out while the register is as it is, the word that comes back, and
-- the loops that wait while it is busy, or until the FIFO is empty.
pub record DirectMode : Type 1 where
  pub State : Type 0
  pub transmit : State → DirectCsr → DirectTx → State
  pub receive : State → State × ℕ
  pub wait_idle : State → State
  pub wait_txempty : State → State

module _ (q : DirectMode) where
  open q use {State, transmit, receive, wait_idle, wait_txempty}

  -- `window` is as it was left until it is written.
  pub record Registers : Type 0 where
    pub csr : DirectCsr
    pub pad : Pad
    pub window : MemoryWindow
    pub writable_m1 : Bool
    pub direct : State

  abbrev pub enable_pad : Registers → Registers
  enable_pad r =
      let isolated = record r { pad = record r.pad { iso = true } } in
      let driven = record isolated { pad = record isolated.pad { ie = true; od = false } } in
      let selected = record driven { pad = record driven.pad { funcsel = 9 } } in
      record selected { pad = record selected.pad { iso = false } }

  abbrev put_word : Registers → DirectTx → Registers
  put_word r w = record r { direct = transmit r.direct r.csr w }

  abbrev idle : Registers → Registers
  idle r = record r { direct = wait_idle r.direct }

  abbrev assert_cs : Bool → Registers → Registers
  assert_cs b r = record r { csr = record r.csr { assert_cs1n = b } }

  -- A word is put out, and the word that came back is taken.
  abbrev swap : Registers → ℕ → Registers × ℕ
  swap r d =
      let sent = put_word r (record { tx_data = d; oe = false; quad = false; nopush = false }) in
      let (s, value) = receive (wait_idle (wait_txempty sent.direct)) in
      (record sent { direct = s }, value)

  -- `for i in 0usize..7`: the command, and then words that mean nothing; the sixth and the seventh
  -- answer are kept.
  unfoldable pub read_id_words : ℕ → ℕ → Registers → ℕ → ℕ → Registers × ℕ × ℕ
  read_id_words zero i r kgd eid = (r, kgd, eid)
  read_id_words (suc n) i r kgd eid =
      let (r', value) = swap r (if i == 0 then 0x9f else 0xff) in
      read_id_words n (i + 1) r' (if i == 5 then value else kgd) (if i == 6 then value else eid)

  -- What leaves the quad mode that an earlier start may have entered.
  abbrev quad_end : Registers → Registers
  quad_end r =
      let sent =
        put_word (assert_cs true r)
          (record { tx_data = 0xf5; oe = true; quad = true; nopush = false }) in
      let r' = idle sent in
      let (s, dropped) = receive r'.direct in assert_cs false (record r' { direct = s })

  unfoldable pub detect_psram_qmi : Registers → Registers × ℕ
  unfolding read_id_words
  detect_psram_qmi r =
      let padded = enable_pad r in
      let started = idle (record padded { csr = record csr_zero { clkdiv = 30; en = true } }) in
      let (r', kgd, eid) = read_id_words 7 0 (assert_cs true (quad_end started)) 0 0 in
      (record r' { csr = record r'.csr { assert_cs1n = false; en = false } }, qmi_size kgd eid)

  -- Quad mode is entered, and the window is set up for a timing.
  abbrev pub set_up : Registers → Timing → Registers
  set_up r t =
      let started =
        idle (record r { csr = record csr_zero { clkdiv = 10; en = true; auto_cs1n = true } }) in
      let entered =
        idle (
          put_word started (record { tx_data = 0x35; oe = false; quad = false; nopush = false })) in
      record entered {
        window = record {
          timing = low_bytes t;
          rfmt_dummy = 24;
          rcmd = 0xeb;
          wcmd = 0x38;
          quad_formats = true;
        };
        csr = csr_zero;
        writable_m1 = true;
      }

  unfoldable pub init_psram_qmi : ℕ → Registers → Outcome (Registers × ℕ)
  unfolding detect_psram_qmi
  init_psram_qmi clock_hz r =
      let (r', psram_size) = detect_psram_qmi r in
      let configured = qmi_timing clock_hz >>= λ t. ok (set_up r' t, psram_size) in
      if psram_size == 0 then ok (r', 0) else configured
