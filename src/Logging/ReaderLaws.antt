-- ===== src/Logging/ReaderLaws.antt =====
-- src/logging.rs, `uart_reader`: lines that are typed over the serial port, against the lines that
-- the shell enters.
use picocalc_wezterm.Prelude.{ℕ, ◌≤◌, ◌<◌, ◌≡◌, true, false, Bool, List, [], ◌∷◌, ◌++◌, All}
use picocalc_wezterm.Prelude.Text.{Text}
use picocalc_wezterm.Keyboard.Keys.{Key, KeyState, KeyReport, no_modifiers}
use picocalc_wezterm.Process.EditorLaws.{at_end}
use picocalc_wezterm.Process.Table.{Table, Proc}
use picocalc_wezterm.Logging.Reader.{Fed}

-- A text of printable ASCII.
abbrev pub IsPrintable : Text → Type 0
IsPrintable s = All (λ c. (32 ≤ c) × (c < 127)) s

-- A line with its end, a newline, before which some terminals send a carriage return.
pub record Line : Type 0 where
  pub line : Text
  pub carriage_return : Bool

abbrev pub ending : Bool → Text → Text
ending true rest = 13 ∷ 10 ∷ rest
ending false rest = 10 ∷ rest

abbrev pub sent_line : Line → Text → Text
sent_line l rest = l.line ++ ending l.carriage_return rest

-- What is sent for some lines and the start of another.
abbrev pub sent : List Line → Text → Text
sent [] tail = tail
sent (l ∷ ls) tail = sent_line l (sent ls tail)

-- The lines that are complete, where `s` was typed before; and what then stands on the last one.
abbrev pub complete : Text → List Line → List Text
complete s [] = []
complete s (l ∷ ls) = (s ++ l.line) ∷ complete [] ls

abbrev pub unfinished : Text → List Line → Text → Text
unfinished s [] tail = s ++ tail
unfinished s (l ∷ ls) tail = unfinished [] ls tail

-- A new row for each complete line.
abbrev pub new_rows : List Line → Text
new_rows [] = []
new_rows (l ∷ ls) = 13 ∷ 10 ∷ new_rows ls

-- All was taken: the lines, the line that the shell holds, and what is on the screen.
abbrev pub Entered : ℕ → List Text → Text → Text → Fed → Type 0
Entered h lines s out fed =
    (fed.blocked ≡ false)
    × (fed.lines ≡ lines)
    × (fed.table.procs h ≡ Proc.shell (at_end s))
    × (fed.table.output ≡ out)

abbrev press_report : Key → KeyReport
press_report k = record { state = KeyState.pressed; key = k; modifiers = no_modifiers }

abbrev At : Table → ℕ → Text → Text → Type 0
At t h s out = (t.procs h ≡ Proc.shell (at_end s)) × (t.output ≡ out)
