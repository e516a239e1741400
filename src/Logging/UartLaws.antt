-- ===== src/Logging/UartLaws.antt =====
-- src/logging.rs: what is logged reaches the serial port.
use picocalc_wezterm.Prelude.{
  ℕ, zero, suc, ◌≤◌, ◌<◌, ◌≡◌, refl, sym, ap, ◌∙◌, none, some, List, [], ◌∷◌, ◌++◌, ◌⊎◌, inl, inr,
  length, length-append, append_assoc, append-nil, Bool-cases, ◌==◌, arith, subst, Ensures,
}
use picocalc_wezterm.Logging.Serial.{Pipe, write_str}
use picocalc_wezterm.Logging.SerialLaws.{with_crlf, Took, Took-both, Took-nothing, write_str-Took}
use picocalc_wezterm.Logging.Uart.{Read, uart_buffer, write_pieces, log, run_uart}

abbrev pub joined : List (List ℕ) → List ℕ
joined [] = []
joined (piece ∷ pieces) = piece ++ joined pieces

with_crlf-append : (a b : List ℕ) → with_crlf (a ++ b) ≡ with_crlf a ++ with_crlf b
with_crlf-append [] b = refl
with_crlf-append (c ∷ a) b = elim (Bool-cases (c == 10)) [
  | inl newline ↦ rw (newline, with_crlf-append a b) refl
  | inr other ↦ rw (other, with_crlf-append a b) refl
]

-- What `Pipe::read` documents: it waits where the pipe is empty, and else takes some bytes from its
-- front.
abbrev pub Reads : (p : Pipe) → Read p → Type 0
Reads p read =
    (s : p.State)
    → ((p.contents s ≡ []) × (read s uart_buffer ≡ none))
      ⊎ ((bytes : List ℕ) × (s' : p.State) × (read s uart_buffer ≡ some (bytes, s'))
          × (0 < length bytes)
          × (p.contents s ≡ bytes ++ p.contents s'))

module _ (p : Pipe) where
  open p use {State, contents, room}

  write_pieces-Took :
      (pieces : List (List ℕ)) (s : State)
      → length (with_crlf (joined pieces)) ≤ room s
      → Took p s (with_crlf (joined pieces)) (write_pieces p s pieces)
  unfolding write_pieces
  write_pieces-Took [] s fits = Took-nothing p s
  write_pieces-Took (piece ∷ pieces) s fits =
      let split = with_crlf-append piece (joined pieces) in
      let size = ap length split ∙ length-append (with_crlf piece) (with_crlf (joined pieces)) in
      let first = write_str-Took p s piece (omega (arith, size, fits)) in
      subst (λ x. Took p s x (write_pieces p (write_str p s piece) pieces)) (sym split)
        (Took-both p s (write_str p s piece) _ (with_crlf piece) (with_crlf (joined pieces)) first
          (write_pieces-Took pieces (write_str p s piece) (omega (arith, size, fits, first.1))))

  abbrev Sent : List ℕ → State × List ℕ → Type 0
  Sent bytes (s, sent) = (contents s ≡ []) × (sent ≡ bytes)

  run_uart-Sent :
      (read : Read p) (fuel : ℕ) (s : State) (sent : List ℕ)
      → Reads p read
      → length (contents s) < fuel
      → Ensures (Sent (sent ++ contents s)) (run_uart p read fuel s sent)
  unfolding run_uart
  run_uart-Sent read zero s sent reads enough = absurd (omega arith)
  run_uart-Sent read (suc fuel) s sent reads enough = elim (reads s) [
    | inl (empty, waits) ↦
        rw (run_uart, waits) (empty, sym (append-nil sent) ∙ ap (λ x. sent ++ x) (sym empty))
    | inr (bytes, s', answer, some_bytes, front) ↦
        rw (run_uart, answer)
          (subst (λ x. Ensures (Sent x) (run_uart p read fuel s' (sent ++ bytes)))
            (append_assoc sent bytes (contents s') ∙ ap (λ x. sent ++ x) (sym front))
            (run_uart-Sent read fuel s' (sent ++ bytes) reads (
              omega
                (arith, enough, some_bytes, ap length front, length-append bytes (contents s')))))
  ]

  -- Where the pipe has room for a record's text with a carriage return before each newline, and its
  -- reads take bytes from its front: after `log`, `run_uart` with fuel beyond the pipe's bytes
  -- empties it, and the serial port gets what the pipe held and then this text and a newline,
  -- wherever the pipe's buffer wraps.
  pub log-run_uart :
      (read : Read p) (s : State) (args : List (List ℕ)) (sent : List ℕ) (fuel : ℕ)
      → Reads p read
      → length (with_crlf (joined (args ++ ((10 ∷ []) ∷ [])))) ≤ room s
      → length (contents (log p s args)) < fuel
      → Ensures
          (λ r.
            (contents r.0 ≡ [])
            × (r.1 ≡ sent ++ (contents s ++ with_crlf (joined (args ++ ((10 ∷ []) ∷ []))))))
          (run_uart p read fuel (log p s args) sent)
  unfolding log
  log-run_uart read s args sent fuel reads fits enough =
      subst (λ x. Ensures (Sent (sent ++ x)) (run_uart p read fuel (log p s args) sent))
        (write_pieces-Took (args ++ ((10 ∷ []) ∷ [])) s fits).0
        (run_uart-Sent read fuel (log p s args) sent reads enough)
