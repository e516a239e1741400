-- ===== src/Net/Session.antt =====
-- src/net.rs, `ssh_ticker` of `ssh_session_task`: the events of a session and what they are answered
-- with. The crate `sunset` gives the events, and takes or refuses each answer.
use picocalc_wezterm.Prelude.{
  ℕ, Bool, Option, none, some, List, [], ◌∷◌, ◌++◌, Outcome, ok, panicked, ◌>>=◌, if◌then◌else◌,
}
use picocalc_wezterm.Prelude.Text.{Text, codes}
use picocalc_wezterm.Config.Store.{Result, done, err}

-- `CliEvent`. A request for a name or a password comes with what a prompt would be answered, and
-- an error of `progress` is an event too.
pub data Event : Type 0 where
  hostkey banner pubkey agent_sign authenticated session_opened : Event
  session_exit defunct progress_error : Event
  username password : Option Text → Event

-- What is asked of the client, and the message to the future that waits for the authentication.
pub data Action : Type 0 where
  accept_hostkey skip_password skip_pubkey skip_agent_sign send_authenticated shell : Action
  set_username set_password exec : Text → Action
  -- The terminal's name, its rows and columns, its width and its height.
  pty : Text → ℕ → ℕ → ℕ → ℕ → Action

-- The loop goes on, or the future returns.
pub data Next : Type 0 where
  more ended failed : Next

-- `ssh_user` and `ssh_pw` are what `fetch` returns for these keys.
pub record Session (E : Type 0) : Type 0 where
  pub ssh_user : Result E (Option Text)
  pub ssh_pw : Result E (Option Text)
  pub command : Option Text
  pub rows : ℕ
  pub cols : ℕ
  pub accepts : Action → Bool

-- `Ok(Some(_))`
abbrev pub configured : {E : Type 0} → Result E (Option Text) → Option Text
configured (err e) = none
configured (done v) = v

abbrev pub Handled : Type 0
Handled = Outcome (List Action × Next)

-- The command, or a shell.
abbrev pub start_action : Option Text → Action
start_action (some cmd) = exec cmd
start_action none = shell

module _ {E : Type 0} where
  -- An answer that is refused panics: `expect`.
  abbrev pub must : Session E → Action → Handled
  must s a = if s.accepts a then ok (a ∷ [], more) else panicked

  unfoldable pub on_username : Session E → Option Text → Handled
  on_username s typed = elim (configured s.ssh_user) [
    | some user ↦ must s (set_username user)
    | none ↦ elim typed [ some user ↦ must s (set_username user) | none ↦ ok ([], ended) ]
  ]

  unfoldable pub on_password : Session E → Option Text → Handled
  on_password s typed = elim (configured s.ssh_pw) [
    | some pw ↦ must s (set_password pw)
    | none ↦ elim typed [ some pw ↦ must s (set_password pw) | none ↦ must s skip_password ]
  ]

  unfoldable pub on_session_opened : Session E → Handled
  on_session_opened s =
      let terminal = pty (codes "xterm") s.rows s.cols 320 320 in
      let start = start_action s.command in
      if s.accepts terminal
      then ok (terminal ∷ start ∷ [], if s.accepts start then more else failed)
      else ok (terminal ∷ [], failed)

  unfoldable pub handle : Session E → Event → Handled
  unfolding on_username on_password on_session_opened
  handle s Event.hostkey = must s accept_hostkey
  handle s Event.banner = ok ([], more)
  handle s (Event.username typed) = on_username s typed
  handle s (Event.password typed) = on_password s typed
  handle s Event.pubkey = must s skip_pubkey
  handle s Event.agent_sign = must s skip_agent_sign
  handle s Event.authenticated = ok (send_authenticated ∷ [], more)
  handle s Event.session_opened = on_session_opened s
  handle s Event.session_exit = ok ([], ended)
  handle s Event.defunct = ok ([], ended)
  handle s Event.progress_error = ok ([], failed)

  -- The loop, over the events that will come.
  unfoldable pub ticker : Session E → List Event → Handled
  unfolding handle
  ticker s [] = ok ([], more)
  ticker s (e ∷ es) =
      let rest = ticker s es in
      handle s e >>= λ (actions, next). elim next [
        | more ↦ rest >>= λ (later, next'). ok (actions ++ later, next')
        | ended ↦ ok (actions, ended)
        | failed ↦ ok (actions, failed)
      ]
