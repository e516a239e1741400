-- ===== src/Process/Table.antt =====
-- src/process.rs, `assign_proc`, `assign_proc_if` and `CURRENT`; the processes that they switch
-- between, of src/process.rs and src/net.rs; and the macro `print!` of src/main.rs.
use picocalc_wezterm.Prelude.{
  ℕ, ◌+◌, Bool, true, false, ◌||◌, Option, none, some, List, [], ◌∷◌, ◌++◌, Outcome, ok, ◌>>=◌,
  length, ltb, ◌==◌, if◌then◌else◌, ◌&&◌,
}
use picocalc_wezterm.Prelude.Text.{Text, codes}
use picocalc_wezterm.Keyboard.Keys.{KeyState, Key, KeyReport, only_ctrl}
use picocalc_wezterm.Process.Editor.{LineEditor, default_editor, apply_key}

pub data PromptKind : Type 0 where
  text password : PromptKind

pub record PromptProc : Type 0 where
  pub prompt : Text
  pub input : LineEditor
  pub kind : PromptKind
  -- The channel of one message: what was answered and not received yet.
  pub channel : Option (Option Text)

-- `LocalShell`, `SshProcess` with the queue of its channel, and `PromptProc`.
pub data Proc : Type 0 where
  shell : LineEditor → Proc
  ssh : List KeyReport → Proc
  prompt_proc : PromptProc → Proc

abbrev escape : Text → Text
escape s = 0x1b ∷ s

abbrev erase_line : Text
erase_line = 0x0d ∷ escape (codes "[K")

-- What `un_prompt` and `render` write.
abbrev pub un_prompt : Proc → Text
un_prompt (Proc.ssh queue) = []
un_prompt (Proc.shell ed) = erase_line
un_prompt (Proc.prompt_proc p) = erase_line

abbrev pub render_prompt : PromptKind → Text → Text → Text
render_prompt PromptKind.text prompt input = 0x0d ∷ prompt ++ (b' ' ∷ input) ++ escape (codes "[K")
render_prompt PromptKind.password prompt input = 0x0d ∷ prompt ++ escape (codes "[K")

abbrev pub render : Proc → Text
render (Proc.shell ed) = 0x0d ∷ codes "$ " ++ ed.command ++ escape (codes "[K")
render (Proc.ssh queue) = []
render (Proc.prompt_proc p) = render_prompt p.kind p.prompt p.input.command

-- A handle is an address, and the addresses from `next` on are free. `output` is what was written
-- to the screen.
pub record Table : Type 0 where
  pub procs : ℕ → Proc
  pub next : ℕ
  pub current : ℕ
  pub output : Text

abbrev pub put : ℕ → Proc → (ℕ → Proc) → ℕ → Proc
put h p procs i = if i == h then p else procs i

-- `Arc::new` of a process.
unfoldable pub new_proc : Table → Proc → Table × ℕ
new_proc t p = (record t { procs = put t.next p t.procs; next = t.next + 1 }, t.next)

-- The table, and the prior process.
unfoldable pub assign_proc : Table → ℕ → Table × ℕ
assign_proc t h = (
  record t {
    current = h;
    output = t.output ++ un_prompt (t.procs t.current) ++ render (t.procs h);
  },
  t.current,
)

unfoldable pub assign_proc_if : Table → ℕ → (ℕ → Bool) → Table × Option ℕ
unfolding assign_proc
assign_proc_if t h func =
    if func t.current then (let (t', prior) = assign_proc t h in (t', some prior)) else (t, none)

-- `print!`: the prompt is erased, and rendered again behind the text.
unfoldable pub print : Table → Text → Table
print t s =
    let proc = t.procs t.current in
    record t { output = t.output ++ un_prompt proc ++ s ++ render proc }

-- What a key does to a process, and what it writes: it is taken, with the command that it enters, or
-- it waits for room in a channel.
pub data Reaction : Type 0 where
  taken : Proc → Text → Option Text → Reaction
  waits : Proc → Text → Reaction

-- `Channel::send` of the channel of a prompt.
unfoldable pub send_answer : PromptProc → Option Text → Text → Reaction
send_answer p answer written = elim p.channel [
  | none ↦ taken (Proc.prompt_proc (record p { channel = some answer })) written none
  | some unread ↦ waits (Proc.prompt_proc p) written
]

-- Ctrl-C, Ctrl-D and Escape.
unfoldable pub cancels : KeyReport → Bool
cancels k = elim k.key [
  | Key.escape ↦ true
  | Key.char c ↦ (c == b'c' || c == b'C' || c == b'd' || c == b'D') && only_ctrl k.modifiers
  | _ ↦ false
]

unfoldable pub prompt_key : PromptProc → KeyReport → Outcome Reaction
unfolding cancels send_answer
prompt_key p k =
    let typed = apply_key p.input k >>= λ (input, entered). ok (elim entered [
      | none ↦ taken (Proc.prompt_proc (record p { input = input })) [] none
      | some line ↦ send_answer (record p { input = input }) (some line) (codes "\r\n")
    ]) in
    if cancels k then ok (send_answer p none []) else typed

abbrev pub ssh_capacity : ℕ
ssh_capacity = 4

unfoldable pub press : Proc → KeyReport → Outcome Reaction
unfolding prompt_key
press (Proc.shell ed) k = apply_key ed k >>= λ (ed', entered).
    ok (taken (Proc.shell ed') (elim entered [ none ↦ [] | some line ↦ codes "\r\n" ]) entered)
press (Proc.ssh queue) k = ok (
    if ltb (length queue) ssh_capacity
    then taken (Proc.ssh (queue ++ (k ∷ []))) [] none
    else waits (Proc.ssh queue) [])
press (Proc.prompt_proc p) k = prompt_key p k

-- `key_input`: all but presses is ignored.
unfoldable pub key_input : Proc → KeyState → KeyReport → Outcome Reaction
unfolding press
key_input p KeyState.pressed k = press p k
key_input p st k = ok (taken p [] none)

-- The arm of the keyboard's task that hands a key to the current process, which is rendered again.
-- A key that waits is given up after 100 ms. A command line that was entered is returned.
unfoldable pub react : Table → ℕ → Reaction → Table × Option Text
react t h (waits p written) =
    (record t { procs = put h p t.procs; output = t.output ++ written }, none)
react t h (taken p written entered) =
    (record t { procs = put h p t.procs; output = t.output ++ written ++ render p }, entered)

unfoldable pub deliver_key : Table → KeyReport → Outcome (Table × Option Text)
unfolding key_input react
deliver_key t k = key_input (t.procs t.current) k.state k >>= λ r. ok (react t t.current r)

-- Keys one after another. A command line that is entered is returned and not run, so that nothing
-- else becomes current between the keys, and the 100 ms that the keyboard's task gives a key are
-- only looked at where a key waits for room in a channel, not while a command runs.
unfoldable pub deliver_keys : Table → List KeyReport → Outcome (Table × List Text)
unfolding deliver_key
deliver_keys t [] = ok (t, [])
deliver_keys t (k ∷ ks) = deliver_key t k >>= λ (t', entered).
    deliver_keys t' ks >>= λ (t'', lines).
    ok (t'', elim entered [ none ↦ lines | some line ↦ line ∷ lines ])

-- `prompt_for_input` up to the wait for the answer: the table, the handle of the prompt, and the
-- prior process.
unfoldable pub open_prompt : Table → Text → PromptKind → Table × ℕ × ℕ
unfolding new_proc assign_proc
open_prompt t prompt kind =
    let p : PromptProc = record {
      prompt = prompt;
      input = default_editor;
      kind = kind;
      channel = none;
    } in
    let (t1, h) = new_proc t (Proc.prompt_proc p) in
    let (t2, prior) = assign_proc t1 h in (t2, h, prior)

-- What is received from the channel of a prompt.
abbrev pub answer : Proc → Option (Option Text)
answer (Proc.shell ed) = none
answer (Proc.ssh queue) = none
answer (Proc.prompt_proc p) = p.channel

-- `prompt_for_input` from the answer on.
unfoldable pub close_prompt : Table → ℕ → ℕ → Table
unfolding assign_proc_if
close_prompt t h prior = (assign_proc_if t prior (λ current. current == h)).0

-- `ssh_session_task` from the connection on: the process of the session becomes current.
unfoldable pub begin_session : Table → Text → Table × ℕ × ℕ
unfolding new_proc assign_proc print
begin_session t connected =
    let (t1, h) = new_proc t (Proc.ssh []) in
    let (t2, prior) = assign_proc t1 h in (print t2 connected, h, prior)

-- The end of the session's futures.
unfoldable pub end_session : Table → ℕ → Table
unfolding assign_proc
end_session t prior = (assign_proc t prior).0

-- The return where `SSHClient::new` fails.
unfoldable pub client_failed : Table → Text → Text → Table
unfolding begin_session print
client_failed t connected failed = print (begin_session t connected).0 failed
