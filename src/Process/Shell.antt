-- ===== src/Process/Shell.antt =====
-- src/process.rs, `LocalShell::dispatch_command`: a command line, its words and the command that
-- they name; and the words that `ssh_command` of src/net.rs puts together again.
use picocalc_wezterm.Prelude.{
  ℕ, Option, none, some, List, [], ◌∷◌, ◌++◌, Outcome, ok, ◌>>=◌, unwrap, get_elem?, ◌==◌,
  if◌then◌else◌,
}
use picocalc_wezterm.Prelude.Text.{Text, codes, text_eq}

-- `str::split(' ')`: there is always a first word.
unfoldable pub push_first : ℕ → List Text → List Text
push_first c [] = (c ∷ []) ∷ []
push_first c (w ∷ ws) = (c ∷ w) ∷ ws

unfoldable pub split : Text → List Text
unfolding push_first
split [] = [] ∷ []
split (c ∷ s) = let words = split s in if c == b' ' then [] ∷ words else push_first c words

-- `[String]::join(" ")`
unfoldable pub join : List Text → Text
join [] = []
join (w ∷ []) = w
join (w ∷ x ∷ ws) = w ++ (b' ' ∷ join (x ∷ ws))

-- What a command line starts.
pub data Command : Type 0 where
  bat bl bootsel cls config free ls reboot ssh time : Command
  unknown : Text → Command

-- The arms of the `match`, in their order.
abbrev pub command_table : List (Text × Command)
command_table =
    (codes "bat", Command.bat)
    ∷ (codes "bl", Command.bl)
    ∷ (codes "bootsel", Command.bootsel)
    ∷ (codes "cls", Command.cls)
    ∷ (codes "config", Command.config)
    ∷ (codes "free", Command.free)
    ∷ (codes "ls", Command.ls)
    ∷ (codes "reboot", Command.reboot)
    ∷ (codes "ssh", Command.ssh)
    ∷ (codes "time", Command.time)
    ∷ []

unfoldable pub find_command : List (Text × Command) → Text → Command
find_command [] arg0 = Command.unknown arg0
find_command ((name, command) ∷ rest) arg0 =
    if text_eq arg0 name then command else find_command rest arg0

-- The command with its arguments. The index `argv[0]` panics if there is no word.
unfoldable pub dispatch_command : Text → Outcome (Command × List Text)
unfolding split find_command
dispatch_command line =
    let argv = split line in
    unwrap (get_elem? argv 0) >>= λ arg0. ok (find_command command_table arg0, argv)

-- The host and the command that `ssh_command` hands to the session, if it starts one.
unfoldable pub ssh_command : List Text → Option (Text × Option Text)
ssh_command [] = none
ssh_command (arg0 ∷ []) = none
ssh_command (arg0 ∷ host ∷ []) = some (host, none)
ssh_command (arg0 ∷ host ∷ word ∷ words) = some (host, some (join (word ∷ words)))
