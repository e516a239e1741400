-- ===== src/Process/TableLaws.antt =====
-- src/process.rs and src/net.rs: the current process while sessions and prompts come and go.
use picocalc_wezterm.Prelude.{
  refl, panicked, out_of_fuel, ℕ, ◌≡◌, Option, subst, Outcome, ==_iff, ◌∙◌, ◌>>=◌, ok, ◌<◌, ◌≢◌,
  arith,
}
use picocalc_wezterm.Keyboard.Keys.{KeyReport}
use picocalc_wezterm.Prelude.Text.{Text}
use picocalc_wezterm.Process.Table.{
  Table, PromptKind, react, deliver_key, open_prompt, close_prompt, begin_session, end_session,
  print, Reaction, key_input, new_proc, assign_proc, assign_proc_if, waits, taken, client_failed,
}

react_current : (t : Table) (h : ℕ) (r : Reaction) → (react t h r).0.current ≡ t.current
unfolding react
react_current t h (waits p w) = refl
react_current t h (taken p w e) = refl

react_next : (t : Table) (h : ℕ) (r : Reaction) → (react t h r).0.next ≡ t.next
unfolding react
react_next t h (waits p w) = refl
react_next t h (taken p w e) = refl

-- What the call returns, if it returns, satisfies P.
abbrev IfOk {ℓ} : {A : Type ℓ} → (A → Type 0) → Outcome A → Type 0
IfOk P (ok a) = P a
IfOk P panicked = Unit
IfOk P out_of_fuel = Unit

-- What happens from one table to another: keys and messages, prompts and sessions, each of which
-- ends before what was begun before it ends.
pub data Runs : Table → Table → Type 0 where
  start : (t : Table) → Runs t t
  key :
      {t u : Table}
      → Runs t u
      → (k : KeyReport) (v : Table × Option Text) → deliver_key u k ≡ ok v
      → Runs t v.0
  message : {t u : Table} → Runs t u → (s : Text) → Runs t (print u s)
  prompted :
      {t u v : Table}
      → Runs t u
      → (prompt : Text) (kind : PromptKind) → Runs (open_prompt u prompt kind).0 v
      → Runs t (close_prompt v (open_prompt u prompt kind).1 (open_prompt u prompt kind).2)
  session :
      {t u v : Table}
      → Runs t u
      → (connected : Text) → Runs (begin_session u connected).0 v
      → Runs t (end_session v (begin_session u connected).2)

-- `prompt_for_input` ends with its prompt still current, or it changes no current process.
pub close_prompt_lem :
    (t : Table) (h prior : ℕ) → t.current ≡ h → (close_prompt t h prior).current ≡ prior
unfolding close_prompt assign_proc_if assign_proc
close_prompt_lem t h prior e = rw (close_prompt, assign_proc_if, (==_iff t.current h).1 e) refl

deliver_key-current :
    (t : Table) (k : KeyReport) → IfOk (λ v. v.0.current ≡ t.current) (deliver_key t k)
unfolding deliver_key
deliver_key-current t k = each (key_input (t.procs t.current) k.state k)
  where
    each :
        (o : Outcome Reaction)
        → IfOk (λ v. v.0.current ≡ t.current) (o >>= λ r. ok (react t t.current r))
    each (ok r) = react_current t t.current r
    each panicked = tt
    each out_of_fuel = tt

-- Through any run of keys that are handed over without a panic, messages, prompts and sessions,
-- each prompt and session ending before what was begun before it, and no session failing to make
-- its client, the current process is at the end the one it was at the start.
pub Runs-current : {t u : Table} → Runs t u → u.current ≡ t.current
unfolding open_prompt new_proc assign_proc begin_session print end_session
Runs-current (start t) = refl
Runs-current (key {u = u} r k v e) =
    subst (IfOk (λ w. w.0.current ≡ u.current)) e (deliver_key-current u k) ∙ Runs-current r
Runs-current (message r s) = Runs-current r
Runs-current (prompted {u = u} {v = v} r prompt kind inner) =
    close_prompt_lem v _ _ (Runs-current inner) ∙ Runs-current r
Runs-current (session {u = u} {v = v} r connected inner) = Runs-current r

-- Where making the ssh client fails, with the current process a handle that was given out before:
-- however keys that do not panic, messages, prompts and sessions follow and end, the dead session
-- is the current process, and the one before it is not.
client_failed-current :
    (t u : Table) (connected failed : Text)
    → t.current < t.next
    → Runs (client_failed t connected failed) u
    → (u.current ≡ t.next) × (u.current ≢ t.current)
unfolding client_failed begin_session new_proc assign_proc print
client_failed-current t u connected failed h r =
    let stays : u.current ≡ t.next = Runs-current r in
    (stays, λ same. omega (arith, h, stays, same))
