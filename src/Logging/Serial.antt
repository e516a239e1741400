-- ===== src/Logging/Serial.antt =====
-- src/logging.rs: `Writer`, which copies the log to the pipe of the serial port, and the keys that
-- `uart_reader` makes of what arrives there. The pipe belongs to embassy-sync: a parameter.
use picocalc_wezterm.Prelude.{
  ℕ, ◌+◌, ◌<◌, ◌≤◌, ◌≡◌, min, Bool, true, false, Option, none, some, List, [], ◌∷◌, ◌++◌, length,
  take, drop, ltb, ◌==◌, if◌then◌else◌,
}
use picocalc_wezterm.Keyboard.Keys.{Key, KeyState, KeyReport, no_modifiers}

-- What `Pipe` documents: a write takes a prefix, up to where its buffer wraps, and fails only when
-- the pipe is full.
pub record Pipe : Type 1 where
  pub State : Type 0
  pub try_write : State → List ℕ → Option ℕ × State
  pub contents : State → List ℕ
  pub room : State → ℕ
  pub before_wrap : State → ℕ
  pub before_wrap-room : (s : State) → before_wrap s ≤ room s
  pub takes :
      (s : State) (b : List ℕ)
      → 0 < room s
      → ((try_write s b).0 ≡ some (min (length b) (before_wrap s)))
        × (contents (try_write s b).1 ≡ contents s ++ take (min (length b) (before_wrap s)) b)
        × (room (try_write s b).1 + min (length b) (before_wrap s) ≡ room s)
  pub after_wrap :
      (s : State) (b : List ℕ)
      → 0 < room s
      → before_wrap s < length b
      → before_wrap (try_write s b).1 ≡ room (try_write s b).1
  pub full : (s : State) (b : List ℕ) → room s ≡ 0 → try_write s b ≡ (none, s)

-- `<[u8]>::split_inclusive` at each newline
unfoldable pub push_front : ℕ → List (List ℕ) → List (List ℕ)
push_front c [] = (c ∷ []) ∷ []
push_front c (chunk ∷ chunks) = (c ∷ chunk) ∷ chunks

unfoldable pub split_inclusive : List ℕ → List (List ℕ)
split_inclusive [] = []
split_inclusive (c ∷ cs) =
    let chunks = split_inclusive cs in if c == 10 then (c ∷ []) ∷ chunks else push_front c chunks

-- `<[u8]>::strip_suffix` of a newline: what is left, and whether there was one.
unfoldable pub strip_newline : List ℕ → List ℕ × Bool
strip_newline [] = ([], false)
strip_newline (c ∷ []) = if c == 10 then ([], true) else (c ∷ [], false)
strip_newline (c ∷ d ∷ rest) = (c ∷ (strip_newline (d ∷ rest)).0, (strip_newline (d ∷ rest)).1)

module _ (p : Pipe) where
  open p use {State}

  -- `Writer::write_slice`
  unfoldable pub write_slice : State → List ℕ → State
  write_slice s b =
      let (taken, s1) = p.try_write s b in
      elim taken [
        | none ↦ s1
        | some n ↦ if ltb n (length b) then (p.try_write s1 (drop n b)).1 else s1
      ]

  -- The body of the loop of `write_str`.
  unfoldable pub write_chunk : State → List ℕ → State
  write_chunk s chunk =
      let stripped = strip_newline chunk in
      let s1 = write_slice s stripped.0 in if stripped.1 then write_slice s1 (13 ∷ 10 ∷ []) else s1

  unfoldable pub write_chunks : State → List (List ℕ) → State
  write_chunks s [] = s
  write_chunks s (chunk ∷ chunks) = write_chunks (write_chunk s chunk) chunks

  -- `Writer::write_str`
  unfoldable pub write_str : State → List ℕ → State
  write_str s text = write_chunks s (split_inclusive text)

-- `uart_reader`: the key of a char, and the reports for the chars of a read.
unfoldable pub uart_key : ℕ → Key
uart_key c =
    if c == 10
    then Key.enter
    else if c == 0x7f
    then Key.back_space
    else if c == 9
    then Key.tab
    else if c == 0x1b
    then Key.escape
    else Key.char c

unfoldable pub uart_reports : List ℕ → List KeyReport
uart_reports [] = []
uart_reports (c ∷ cs) =
    let rest = uart_reports cs in
    if c == 13
    then rest
    else record { state = KeyState.pressed; key = uart_key c; modifiers = no_modifiers } ∷ rest
