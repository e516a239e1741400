-- ===== src/Logging/Tests.antt =====
-- src/logging.rs: a pipe that keeps what the parameter promises, and the laws with it.
use picocalc_wezterm.Prelude.{
  inl, inr, Ensures, Outcome, ok, ℕ, zero, suc, ◌+◌, ◌-◌, ◌<◌, ◌≡◌, refl, min, Option, none, some,
  List, [], ◌∷◌, ◌++◌, length, take, arith, ap,
}
use picocalc_wezterm.Prelude.Text.{Text, codes}
use picocalc_wezterm.Process.Editor.{default_editor, apply_key, insert_at}
use picocalc_wezterm.Process.Table.{Table, Proc, key_input}
use picocalc_wezterm.Logging.Reader.{Fed, uart_read}
use picocalc_wezterm.Process.EditorLaws.{at_end}
use picocalc_wezterm.Logging.Serial.{
  uart_key, write_chunks, split_inclusive, push_front, write_chunk, strip_newline, write_slice,
  Pipe, write_str, uart_reports,
}
use picocalc_wezterm.Logging.Uart.{Read, write_pieces, log, run_uart}
use picocalc_wezterm.Logging.UartLaws.{Reads, log-run_uart}

-- What the pipe holds, and how much more it can take.
abbrev push : List ℕ × ℕ → List ℕ → Option ℕ × (List ℕ × ℕ)
push (held, zero) b = (none, (held, zero))
push (held, suc n) b = (
  some (min (length b) (suc n)),
  (held ++ take (min (length b) (suc n)) b, suc n - min (length b) (suc n)),
)

push-takes :
    (s : List ℕ × ℕ) (b : List ℕ)
    → 0 < s.1
    → ((push s b).0 ≡ some (min (length b) s.1))
      × ((push s b).1.0 ≡ s.0 ++ take (min (length b) s.1) b)
      × ((push s b).1.1 + min (length b) s.1 ≡ s.1)
push-takes (held, zero) b h = absurd (omega arith)
push-takes (held, suc n) b h = (refl, refl, omega arith)

push-full : (s : List ℕ × ℕ) (b : List ℕ) → s.1 ≡ 0 → push s b ≡ (none, s)
push-full (held, zero) b h = refl
push-full (held, suc n) b h = absurd (omega arith)

abbrev queue : Pipe
queue = record {
  State = List ℕ × ℕ;
  try_write = push;
  contents = (λ s. s.0);
  room = (λ s. s.1);
  before_wrap = (λ s. s.1);
  before_wrap-room = (λ s. omega arith);
  takes = push-takes;
  after_wrap = (λ s b h wraps. refl);
  full = push-full;
}

-- A byte at a time.
abbrev one_byte : Read queue
one_byte ([], free) n = none
one_byte (b ∷ held, free) n = some (b ∷ [], (held, free + 1))

one_byte-Reads : Reads queue one_byte
one_byte-Reads ([], free) = inl (refl, refl)
one_byte-Reads (b ∷ held, free) = inr (b ∷ [], (held, free + 1), refl, omega arith, refl)

logged : (log queue ([], 1024) ((104 ∷ []) ∷ (105 ∷ []) ∷ [])).0 ≡ 104 ∷ 105 ∷ 13 ∷ 10 ∷ []
unfolding log write_pieces write_str write_chunks split_inclusive push_front write_chunk
    strip_newline write_slice
logged = refl

log_example :
    Ensures
      (λ r. (r.0.0 ≡ []) × (r.1 ≡ 104 ∷ 105 ∷ 13 ∷ 10 ∷ []))
      (run_uart queue one_byte 9 (log queue ([], 1024) ((104 ∷ []) ∷ (105 ∷ []) ∷ [])) [])
log_example =
    log-run_uart queue one_byte ([], 1024) ((104 ∷ []) ∷ (105 ∷ []) ∷ []) [] 9 one_byte-Reads
      (omega arith) (omega (arith, ap length logged))

abbrev console : Table
console = record { procs = (λ h. Proc.shell default_editor); next = 1; current = 0; output = [] }

-- Bytes that are ASCII.
abbrev ascii : List ℕ → Option Text
ascii bytes = some bytes

abbrev l_typed : Table
l_typed = record console { procs = (λ h. Proc.shell (at_end (codes "l"))) }

abbrev entered_lines : Outcome Fed → List Text
entered_lines (ok fed) = fed.lines
entered_lines _ = []

hi_entered : entered_lines (uart_read ascii console (some (104 ∷ 105 ∷ 10 ∷ []))) ≡ codes "hi" ∷ []
unfolding uart_read uart_reports uart_key key_input apply_key insert_at
hi_entered = refl
