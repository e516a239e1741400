-- ===== src/Psram/Tests.antt =====
-- src/psram.rs: a chip that keeps what the parameter promises, and the laws with it.
use picocalc_wezterm.Psram.SelfTest.{test_psram}
use picocalc_wezterm.Prelude.{
  get_or, Outcome, ok, true, ℕ, zero, ◌+◌, ◌*◌, ◌/◌, ◌%◌, ◌^◌, ◌≤◌, ◌<◌, ◌≡◌, refl, List, [], ◌∷◌,
  Ensures, ◌>>=◌, arith, length, ◌==◌, if◌then◌else◌, suc, Bool, false, ◌++◌, drop,
}
use picocalc_wezterm.Psram.Device.{window, overlay, Chip}
use picocalc_wezterm.Psram.Transfer.{write, read}
use picocalc_wezterm.Psram.Qmi.{DirectMode, Registers, csr_zero, init_psram_qmi}
use picocalc_wezterm.Psram.Start.{init_psram}
use picocalc_wezterm.Psram.StartLaws.{init_psram-tested}
use picocalc_wezterm.Psram.Pio.{Wire, Machine, send_command, all_bits, byte_bits}
use picocalc_wezterm.Psram.Exchange.{Sent, exchange, send_command-exchange}
use picocalc_wezterm.Psram.RoundTrip.{read-write}
use picocalc_wezterm.Psram.Sizes.{qmi_size, divisor_of, qmi_timing}

-- The address in a command, of which a chip of 8 MB looks at 23 bits.
abbrev address : ℕ → ℕ → ℕ → ℕ
address a2 a1 a0 = (a2 * 65536 + a1 * 256 + a0) % 2 ^ 23

-- A memory that obeys the command of a write, and answers the command of a read.
abbrev obey : (ℕ → ℕ) → List ℕ → ℕ → (ℕ → ℕ) × List ℕ
obey mem (w ∷ r ∷ op ∷ a2 ∷ a1 ∷ a0 ∷ rest) n =
    (if op == 2 then overlay mem (address a2 a1 a0) rest else mem, window mem (address a2 a1 a0) n)
obey mem bytes n = (mem, [])

address_lem : (a : ℕ) → a < 2 ^ 23 → address (a / 65536 % 256) (a / 256 % 256) (a % 256) ≡ a
address_lem a h = omega arith

pub obey-write :
    (mem : ℕ → ℕ) (a : ℕ) (bytes : List ℕ)
    → a + length bytes ≤ 2 ^ 23
    → (x : ℕ)
    → overlay mem (address (a / 65536 % 256) (a / 256 % 256) (a % 256)) bytes x
      ≡ overlay mem a bytes x
unfolding overlay
obey-write mem a [] h x = ground arith
obey-write mem a (b ∷ bytes) h x = rw (address_lem a (omega arith))

pub obey-read :
    (mem : ℕ → ℕ) (a n : ℕ)
    → a + n ≤ 2 ^ 23
    → window mem (address (a / 65536 % 256) (a / 256 % 256) (a % 256)) n ≡ window mem a n
obey-read mem a zero h = refl
obey-read mem a (suc n) h = rw (address_lem a (omega arith))

abbrev pub memory : Chip
memory = record {
  capacity = 2 ^ 23;
  capacity_low = omega arith;
  capacity_high = omega arith;
  State = ℕ → ℕ;
  cell = (λ mem x. mem x);
  send = obey;
  write_law = (λ mem a bytes h few x. obey-write mem a bytes h x);
  read_law = (λ mem a n h few. obey-read mem a n h);
  read_keeps = (λ mem a n x. refl);
}

abbrev pub erased : ℕ → ℕ
erased x = 0xff

abbrev hello : List ℕ
hello = 104 ∷ 101 ∷ 108 ∷ 108 ∷ 111 ∷ []

read-write_example :
    Ensures
      (λ (t : (ℕ → ℕ) × List ℕ). t.1 ≡ hello)
      (write memory erased 0x1000 hello >>= λ t. read memory t 0x1000 (length hello))
read-write_example = read-write memory erased 0x1000 hello (omega arith)

init_psram_example :
    Ensures
      (λ r. (r.faults ≡ []) × Ensures (λ t. t.1 ≡ true) (test_psram memory r.state r.size))
      (init_psram memory erased)
init_psram_example = init_psram-tested memory erased

-- A chip that puts out, bit by bit, what was put out to it.
abbrev echo : Wire
echo = record {
  State = List Bool;
  select = (λ s. []);
  deselect = (λ s. s);
  rise = (λ s b. s ++ (b ∷ []));
  fall = (λ s. drop 1 s);
  miso = (λ s. elim s [ [] ↦ false | b ∷ bits ↦ b ]);
}

abbrev waiting : Machine echo
waiting = record {
  pc = 0;
  x = 7;
  y = 7;
  tx = [];
  rx = [];
  sck = false;
  cs = true;
  mosi = false;
  wire = [];
}

send_command_example :
    Ensures
      (Sent echo
        (exchange echo [] false (false ∷ false ∷ false ∷ false ∷ true ∷ false ∷ true ∷ []) 8))
      (send_command echo waiting (8 ∷ 8 ∷ 5 ∷ []) 1)
unfolding all_bits byte_bits
send_command_example =
    send_command-exchange echo waiting (8 ∷ 8 ∷ 5 ∷ []) 1
      (record { at_begin = refl; nothing_left = refl; nothing_read = refl; deselected = refl })
      (record {
        body = 5 ∷ [];
        first = false;
        bits = false ∷ false ∷ false ∷ false ∷ true ∷ false ∷ true ∷ [];
        framed = refl;
        starts = refl;
        body_fits = omega arith;
        answer_fits = omega arith;
      })

-- A RAM that answers with its id, behind the word that leaves the quad mode.
abbrev pub answering : DirectMode
answering = record {
  State = List ℕ;
  transmit = (λ s csr word. s);
  receive = (λ s. (drop 1 s, get_or s 0 0));
  wait_idle = (λ s. s);
  wait_txempty = (λ s. s);
}

abbrev pub at_boot : Registers answering
at_boot = record {
  csr = csr_zero;
  pad = record { iso = true; ie = false; od = true; funcsel = 31 };
  window = record {
    timing = record { divisor = 0; rxdelay = 0; max_select = 0; min_deselect = 0 };
    rfmt_dummy = 0;
    rcmd = 0;
    wcmd = 0;
    quad_formats = false;
  };
  writable_m1 = false;
  direct = 0 ∷ 0 ∷ 0 ∷ 0 ∷ 0 ∷ 0 ∷ 0x5d ∷ 0x40 ∷ [];
}

abbrev found_size : Outcome (Registers answering × ℕ) → ℕ
found_size (ok (r, size)) = size
found_size _ = 0

found_8_mb : found_size (init_psram_qmi answering 150_000_000 at_boot) ≡ 8 * 1024 * 1024
unfolding init_psram_qmi qmi_size qmi_timing divisor_of
found_8_mb = refl
