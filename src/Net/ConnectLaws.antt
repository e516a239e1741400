-- ===== src/Net/ConnectLaws.antt =====
-- src/net.rs: what `ssh_session_task` leaves behind, however it ends.
use picocalc_wezterm.Prelude.{◌≡◌, refl, [], ◌∷◌, Outcome, panicked, Ensures, Ensures-bind}
use picocalc_wezterm.Prelude.Text.{Text}
use picocalc_wezterm.Config.Store.{done, err}
use picocalc_wezterm.Process.Table.{
  Table, print, begin_session, end_session, client_failed, new_proc, assign_proc,
}
use picocalc_wezterm.Net.Connect.{
  Answers, offline, unresolved, resolved, connected, connected_text, ssh_session_task,
}

-- What is left current: the dead session where the connection stands and the client fails, and else
-- what was current before. A name without an address panics.
abbrev pub Leaves : Table → Answers → Outcome Table → Type 0
Leaves t offline o = Ensures (λ u. u.current ≡ t.current) o
Leaves t (unresolved e) o = Ensures (λ u. u.current ≡ t.current) o
Leaves t (resolved [] c client) o = o ≡ panicked
Leaves t (resolved (addr ∷ addrs) (err e) client) o = Ensures (λ u. u.current ≡ t.current) o
Leaves t (resolved (addr ∷ addrs) (done u) (err e)) o = Ensures (λ u. u.current ≡ t.next) o
Leaves t (resolved (addr ∷ addrs) (done u) (done v)) o = Ensures (λ u. u.current ≡ t.current) o

-- Where the futures of a session return: `ssh_session_task` returns with the process current that
-- was so before, if the network is offline, the name is not resolved, the connection is refused or
-- the session ends; where making the client fails, the dead session stays current; and a name that
-- is resolved to no address panics.
pub ssh_session_task-Leaves :
    (futures : Table → Outcome Table) (t : Table) (host : Text) (answers : Answers)
    → ((u : Table) → Ensures (λ v. Unit) (futures u))
    → Leaves t answers (ssh_session_task futures t host answers)
unfolding ssh_session_task connected print client_failed begin_session new_proc assign_proc
    end_session
ssh_session_task-Leaves futures t host offline returns = refl
ssh_session_task-Leaves futures t host (unresolved e) returns = refl
ssh_session_task-Leaves futures t host (resolved [] c client) returns = refl
ssh_session_task-Leaves futures t host (resolved (addr ∷ addrs) (err e) client) returns = refl
ssh_session_task-Leaves futures t host (resolved (addr ∷ addrs) (done u) (err e)) returns = refl
ssh_session_task-Leaves futures t host (resolved (addr ∷ addrs) (done u) (done v)) returns =
    let begun = (begin_session t (connected_text host addr)).0 in
    Ensures-bind (λ v. Unit) (λ u. u.current ≡ t.current) (futures begun) _ (returns begun)
      λ u r. refl
