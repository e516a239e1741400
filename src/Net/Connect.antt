-- ===== src/Net/Connect.antt =====
-- src/net.rs: `ssh_session_task`, from the name of the host to the end of the session. The network
-- stack and the client are parameters: what they return is data, and what happens while the futures
-- of the session run is a function on the table of processes.
use picocalc_wezterm.Prelude.{List, [], ◌∷◌, ◌++◌, Outcome, ok, panicked, ◌>>=◌}
use picocalc_wezterm.Prelude.Text.{Text, codes}
use picocalc_wezterm.Config.Store.{Result, done, err}
use picocalc_wezterm.Process.Table.{Table, print, begin_session, end_session, client_failed}

-- The answers of the stack: there is none, the name is not resolved, or it is; then `connect` and
-- `SSHClient::new` return. Errors and addresses are as they are printed.
pub data Answers : Type 0 where
  offline : Answers
  unresolved : Text → Answers
  resolved : List Text → Result Text (Unit {0}) → Result Text (Unit {0}) → Answers

abbrev pub newline : Text
newline = 0x0d ∷ 0x0a ∷ []

abbrev pub connected_text : Text → Text → Text
connected_text host addr =
    codes "Connected to " ++ host ++ codes " " ++ addr ++ codes ":22" ++ newline

module _ (futures : Table → Outcome Table) where
  -- From the connection on.
  unfoldable pub connected : Table → Text → Text → Result Text (Unit {0}) → Outcome Table
  connected t host addr (err e) =
      ok (client_failed t (connected_text host addr) (codes "SSHClient::new: " ++ e ++ newline))
  connected t host addr (done u) =
      let (begun, h, prior) = begin_session t (connected_text host addr) in
      futures begun >>= λ t'. ok (end_session t' prior)

  -- `addrs[0]` panics where there is no address.
  unfoldable pub ssh_session_task : Table → Text → Answers → Outcome Table
  unfolding connected
  ssh_session_task t host offline = ok (print t (codes "network is offline" ++ newline))
  ssh_session_task t host (unresolved e) =
      ok (print t (codes "failed to resolve " ++ host ++ codes ": " ++ e ++ newline))
  ssh_session_task t host (resolved [] c client) = panicked
  ssh_session_task t host (resolved (addr ∷ addrs) (err e) client) =
      ok (print t (codes "failed to connect to port 22: " ++ e ++ newline))
  ssh_session_task t host (resolved (addr ∷ addrs) (done u) client) = connected t host addr client
