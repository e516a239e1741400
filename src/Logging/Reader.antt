-- ===== src/Logging/Reader.antt =====
-- src/logging.rs: `uart_reader`, from the bytes of a read to the current process, and
-- `mcu_uart_reader`, from the bytes of a read to the log.
use picocalc_wezterm.Prelude.{
  ℕ, Bool, true, false, Option, none, some, List, [], ◌∷◌, ◌++◌, Outcome, ok, ◌>>=◌,
}
use picocalc_wezterm.Prelude.Text.{Text}
use picocalc_wezterm.Config.Store.{Result, done, err}
use picocalc_wezterm.Keyboard.Keys.{KeyReport}
use picocalc_wezterm.Process.Table.{Table, Proc, put, render, Reaction, taken, waits, key_input}
use picocalc_wezterm.Logging.Serial.{uart_reports}

-- A line that was entered before some others.
abbrev pub with_line : Option Text → List Text → List Text
with_line none lines = lines
with_line (some line) lines = line ∷ lines

-- What became of the keys: all were handed over, or one waits for room in a channel.
pub record Fed : Type 0 where
  pub table : Table
  pub lines : List Text
  pub blocked : Bool

-- What a key does to the table.
abbrev pub wrote : Table → ℕ → Proc → Text → Table
wrote t h p written = record t { procs = put h p t.procs; output = t.output ++ written }

-- A reaction, with what is done about the keys behind it.
abbrev pub feed_on : (Table → Outcome Fed) → Table → ℕ → Reaction → Outcome Fed
feed_on later t h (taken p written entered) =
    later (wrote t h p written) >>= λ fed. ok (record fed { lines = with_line entered fed.lines })
feed_on later t h (waits p written) =
    ok (record { table = wrote t h p written; lines = []; blocked = true })

-- The loop over the chars of a read. The process is the one that was current at its start, and a
-- key that waits is not given up.
unfoldable pub feed : Table → ℕ → List KeyReport → Outcome Fed
feed t h [] = ok (record { table = t; lines = []; blocked = false })
feed t h (k ∷ ks) = key_input (t.procs h) k.state k >>= feed_on (λ t'. feed t' h ks) t h

-- `proc.render()`, unless a key still waits.
abbrev pub rendered_if : Bool → ℕ → Fed → Fed
rendered_if true h fed = fed
rendered_if false h fed = record fed {
  table = record fed.table { output = fed.table.output ++ render (fed.table.procs h) };
}

abbrev pub rendered : ℕ → Fed → Fed
rendered h fed = rendered_if fed.blocked h fed

-- What is done with a read that is UTF-8, or is not: that is logged.
unfoldable pub on_text : Table → Option Text → Outcome Fed
unfolding feed
on_text t (some s) = feed t t.current (uart_reports s) >>= λ fed. ok (rendered t.current fed)
on_text t none = ok (rendered t.current (record { table = t; lines = []; blocked = false }))

-- The bytes of a read, or none where it failed.
unfoldable pub uart_read : (List ℕ → Option Text) → Table → Option (List ℕ) → Outcome Fed
unfolding on_text
uart_read from_utf8 t (some bytes) = on_text t (from_utf8 bytes)
uart_read from_utf8 t none = ok (record { table = t; lines = []; blocked = false })

-- What `mcu_uart_reader` logs of a read.
pub data McuMessage : Type 0 where
  received : Text → McuMessage
  not_utf8 : List ℕ → McuMessage
  read_failed : Text → McuMessage

unfoldable pub mcu_uart_message : (List ℕ → Option Text) → Result Text (List ℕ) → McuMessage
mcu_uart_message from_utf8 (err e) = read_failed e
mcu_uart_message from_utf8 (done bytes) = elim (from_utf8 bytes) [
  | some s ↦ received s
  | none ↦ not_utf8 bytes
]
