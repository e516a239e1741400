-- ===== src/Logging/Uart.antt =====
-- src/logging.rs: `Logger::log`, which puts a record into the pipe, and `Logger::run_uart`, which
-- takes from the pipe what it sends to the serial port.
use picocalc_wezterm.Prelude.{
  ℕ, zero, suc, Option, none, some, List, [], ◌∷◌, ◌++◌, Outcome, ok, out_of_fuel,
}
use picocalc_wezterm.Logging.Serial.{Pipe, write_str}

-- `Pipe::read`: none where it waits.
abbrev pub Read : Pipe → Type 0
Read p = p.State → ℕ → Option (List ℕ × p.State)

abbrev pub uart_buffer : ℕ
uart_buffer = 1024

module _ (p : Pipe) where
  open p use {State}

  unfoldable pub write_pieces : State → List (List ℕ) → State
  write_pieces s [] = s
  write_pieces s (piece ∷ pieces) = write_pieces (write_str p s piece) pieces

  -- The arguments of a record come in pieces, and a newline behind them.
  unfoldable pub log : State → List (List ℕ) → State
  unfolding write_pieces
  log s args = write_pieces s (args ++ ((10 ∷ []) ∷ []))

  -- Until the pipe is empty; the port takes all that it is given.
  unfoldable pub run_uart : Read p → ℕ → State → List ℕ → Outcome (State × List ℕ)
  run_uart read zero s sent = out_of_fuel
  run_uart read (suc fuel) s sent = elim (read s uart_buffer) [
    | none ↦ ok (s, sent)
    | some (bytes, s') ↦ run_uart read fuel s' (sent ++ bytes)
  ]
