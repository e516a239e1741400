-- ===== src/Process/Tests.antt =====
-- src/process.rs: the laws of the line editor at concrete keys.
use picocalc_wezterm.Prelude.{
  ℕ, Ensures, ◌≡◌, refl, List, [], ◌∷◌, ok, panicked, ◌>>=◌, All, arith, ◌++◌, some,
}
use picocalc_wezterm.Keyboard.Keys.{KeyState, Key, KeyReport, no_modifiers}
use picocalc_wezterm.Process.Editor.{default_editor, edit, apply_keys}
use picocalc_wezterm.Process.EditorLaws.{
  type_reports, IsAsciiKey, at_end, apply_keys_refines, wide_char_then_char_panics,
}
use picocalc_wezterm.Prelude.Text.{codes, Text}
use picocalc_wezterm.Process.Table.{
  Table, Proc, PromptKind, begin_session, end_session, open_prompt, close_prompt, deliver_keys,
  answer,
}
use picocalc_wezterm.Process.TableLaws.{session, prompted, start, Runs-current}
use picocalc_wezterm.Process.KeyLaws.{deliver_keys-ssh}
use picocalc_wezterm.Process.PromptLaws.{entry, masked, open_prompt-answer, password_hidden}
use picocalc_wezterm.Process.Shell.{Command, split, dispatch_command, ssh_command}
use picocalc_wezterm.Process.ShellLaws.{ssh_line}

abbrev press : Key → KeyReport
press k = record { state = KeyState.pressed; key = k; modifiers = no_modifiers }

-- `lx`, the last char taken back, `s`, and the command is entered.
abbrev typed : List KeyReport
typed =
    press (Key.char b'l')
    ∷ press (Key.char b'x')
    ∷ press Key.back_space
    ∷ press (Key.char b's')
    ∷ press Key.enter
    ∷ []

typed-IsAscii : All (λ r. IsAsciiKey r.key) typed
typed-IsAscii = (omega arith, (omega arith, (tt, (omega arith, (tt, tt)))))

apply_keys_example :
    apply_keys default_editor typed
    ≡ ok (at_end (type_reports [] typed).0, (type_reports [] typed).1)
apply_keys_example = apply_keys_refines typed typed-IsAscii

wide_char_example :
    (edit (at_end (b'a' ∷ [])) (Key.char 0xe9) >>= λ out. edit out.0 (Key.char b'b')) ≡ panicked
wide_char_example = wide_char_then_char_panics (b'a' ∷ []) 0xe9 b'b' (omega arith, tt) (omega arith)

-- `ssh box ls  -l`, with two blanks in the command.
ssh_line_example :
    dispatch_command (codes "ssh " ++ (codes "box" ++ (b' ' ∷ codes "ls  -l")))
      ≡ ok (Command.ssh, codes "ssh" ∷ codes "box" ∷ split (codes "ls  -l"))
    × (ssh_command (codes "ssh" ∷ codes "box" ∷ split (codes "ls  -l"))
        ≡ some (codes "box", some (codes "ls  -l")))
ssh_line_example = ssh_line (codes "box") (codes "ls  -l") (refl, (refl, (refl, tt)))

-- The shell alone.
abbrev one_shell : Table
one_shell = record { procs = (λ h. Proc.shell default_editor); next = 1; current = 0; output = [] }

abbrev connected : Text
connected = codes "Connected\r\n"

abbrev in_session : Table
in_session = (begin_session one_shell connected).0

abbrev in_prompt : Table × ℕ × ℕ
in_prompt = open_prompt in_session (codes "login: ") PromptKind.text

-- A session that asks for a name.
Runs-current_example :
    (end_session (close_prompt in_prompt.0 in_prompt.1 in_prompt.2) 0).current ≡ 0
unfolding begin_session
Runs-current_example = Runs-current (
    session (start one_shell) connected
      (prompted (start in_session) (codes "login: ") PromptKind.text (start in_prompt.0)))

abbrev session_table : Table
session_table = record one_shell { procs = (λ h. Proc.ssh []) }

deliver_keys-ssh_example :
    Ensures
      (λ r.
        (r.0.procs 0 ≡ Proc.ssh (press (Key.char b'l') ∷ press Key.enter ∷ []))
        × (r.0.current ≡ 0)
        × (r.1 ≡ []))
      (deliver_keys session_table (press (Key.char b'l') ∷ press Key.enter ∷ []))
deliver_keys-ssh_example =
    deliver_keys-ssh session_table [] (press (Key.char b'l') ∷ press Key.enter ∷ []) refl
      (omega arith)

open_prompt-answer_example :
    Ensures
      (λ r.
        (answer (r.0.procs 1) ≡ some (some (codes "me")))
        × ((close_prompt r.0 1 0).current ≡ 0)
        × (r.1 ≡ []))
      (deliver_keys
        (open_prompt one_shell (codes "login: ") PromptKind.text).0
        (entry (codes "me")))
unfolding open_prompt
open_prompt-answer_example =
    open_prompt-answer one_shell (codes "login: ") PromptKind.text (codes "me")
      (omega arith, (omega arith, tt))

password_hidden_example :
    Ensures
      (λ r.
        r.0.output
        ≡ (open_prompt one_shell (codes "pw: ") PromptKind.password).0.output
          ++ masked (codes "pw: ") 2)
      (deliver_keys
        (open_prompt one_shell (codes "pw: ") PromptKind.password).0
        (entry (codes "me")))
password_hidden_example =
    password_hidden one_shell (codes "pw: ") (codes "me") (omega arith, (omega arith, tt))
