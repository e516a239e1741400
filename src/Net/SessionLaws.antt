-- ===== src/Net/SessionLaws.antt =====
-- src/net.rs, `ssh_ticker`: what a session may be told.
use picocalc_wezterm.Prelude.{
  ◌≡◌, refl, true, Option, none, some, List, [], ◌∷◌, ◌++◌, ok, Ensures, Ensures-bind, All,
  All-append, inl, inr, ◌⊎◌, Option-cases, Bool-cases, ◌>>=◌,
}
use picocalc_wezterm.Prelude.Text.{Text, codes}
use picocalc_wezterm.Net.Session.{
  Event, Action, Next, Session, configured, must, on_username, on_password, start_action,
  on_session_opened, handle, ticker, exec, shell, set_username, set_password, skip_password, pty,
  more, ended, failed, accept_hostkey, skip_pubkey, skip_agent_sign, send_authenticated,
}

-- Some event is `e`.
abbrev pub Occurs : Event → List Event → Type 0
Occurs e [] = ⊥
Occurs e (x ∷ xs) = (x ≡ e) ⊎ Occurs e xs

module _ {E : Type 0} (s : Session E) where
  -- A name or a password comes from the configuration, or else from a prompt; and a command is run
  -- only if one was given, else a shell is.
  abbrev pub Allowed : List Event → Action → Type 0
  Allowed es (set_username u) =
      (configured s.ssh_user ≡ some u)
      ⊎ ((configured s.ssh_user ≡ none) × Occurs (Event.username (some u)) es)
  Allowed es (set_password p) =
      (configured s.ssh_pw ≡ some p)
      ⊎ ((configured s.ssh_pw ≡ none) × Occurs (Event.password (some p)) es)
  Allowed es (exec cmd) = s.command ≡ some cmd
  Allowed es shell = s.command ≡ none
  Allowed es a = Unit

  -- The answers whose refusal is no panic.
  abbrev pub MayRefuse : Action → Type 0
  MayRefuse (exec cmd) = Unit
  MayRefuse shell = Unit
  MayRefuse (pty term rows cols width height) = Unit
  MayRefuse a = ⊥

  Allowed-later : (e : Event) (es : List Event) (a : Action) → Allowed es a → Allowed (e ∷ es) a
  Allowed-later e es (set_username u) (inl h) = inl h
  Allowed-later e es (set_username u) (inr (n, h)) = inr (n, inr h)
  Allowed-later e es (set_password u) (inl h) = inl h
  Allowed-later e es (set_password u) (inr (n, h)) = inr (n, inr h)
  Allowed-later e es (exec cmd) h = h
  Allowed-later e es shell h = h
  Allowed-later e es accept_hostkey h = tt
  Allowed-later e es skip_password h = tt
  Allowed-later e es skip_pubkey h = tt
  Allowed-later e es skip_agent_sign h = tt
  Allowed-later e es send_authenticated h = tt
  Allowed-later e es (pty t r c w v) h = tt

  All-later :
      (e : Event) (es : List Event) (acts : List Action)
      → All (Allowed es) acts
      → All (Allowed (e ∷ es)) acts
  All-later e es [] h = tt
  All-later e es (a ∷ acts) h = (Allowed-later e es a h.0, All-later e es acts h.1)

  module _ (accepted : (a : Action) → ¬ MayRefuse a → s.accepts a ≡ true) where
    Only : (Action → Type 0) → List Action × Next → Type 0
    Only P r = All P r.0

    must-Only :
        (P : Action → Type 0) (a : Action) → ¬ MayRefuse a → P a → Ensures (Only P) (must s a)
    unfolding Only
    must-Only P a m h = rw (accepted a m) (h, tt)

    on_username-Only :
        (typed : Option Text) (es : List Event)
        → Ensures (Only (Allowed (Event.username typed ∷ es))) (on_username s typed)
    unfolding on_username Only
    on_username-Only typed es = chosen typed (Option-cases (configured s.ssh_user))
      where
        chosen :
            (typed : Option Text)
            → (configured s.ssh_user ≡ none) ⊎ ((u : Text) × (configured s.ssh_user ≡ some u))
            → Ensures (Only (Allowed (Event.username typed ∷ es))) (on_username s typed)
        chosen typed (inr (u, e)) =
            rw (on_username, e)
              (must-Only (Allowed (Event.username typed ∷ es)) (set_username u) (λ m. m) (inl e))
        chosen (some u) (inl e) =
            rw (on_username, e)
              (must-Only (Allowed (Event.username (some u) ∷ es)) (set_username u) (λ m. m)
                (inr (e, inl refl)))
        chosen none (inl e) = rw (on_username, e) tt

    on_password-Only :
        (typed : Option Text) (es : List Event)
        → Ensures (Only (Allowed (Event.password typed ∷ es))) (on_password s typed)
    unfolding on_password Only
    on_password-Only typed es = chosen typed (Option-cases (configured s.ssh_pw))
      where
        chosen :
            (typed : Option Text)
            → (configured s.ssh_pw ≡ none) ⊎ ((u : Text) × (configured s.ssh_pw ≡ some u))
            → Ensures (Only (Allowed (Event.password typed ∷ es))) (on_password s typed)
        chosen typed (inr (u, e)) =
            rw (on_password, e)
              (must-Only (Allowed (Event.password typed ∷ es)) (set_password u) (λ m. m) (inl e))
        chosen (some u) (inl e) =
            rw (on_password, e)
              (must-Only (Allowed (Event.password (some u) ∷ es)) (set_password u) (λ m. m)
                (inr (e, inl refl)))
        chosen none (inl e) =
            rw (on_password, e)
              (must-Only (Allowed (Event.password none ∷ es)) skip_password (λ m. m) tt)

    start-Allowed :
        (es : List Event) (cmd : Option Text) → s.command ≡ cmd → Allowed es (start_action cmd)
    start-Allowed es none e = e
    start-Allowed es (some cmd) e = e

    on_session_opened-Only : (es : List Event) → Ensures (Only (Allowed es)) (on_session_opened s)
    unfolding on_session_opened Only
    on_session_opened-Only es =
        elim (Bool-cases (s.accepts (pty (codes "xterm") s.rows s.cols 320 320))) [
          | inl taken ↦ rw taken (tt, (start-Allowed es s.command refl, tt))
          | inr refused ↦ rw refused (tt, tt)
        ]

    handle-Only : (e : Event) (es : List Event) → Ensures (Only (Allowed (e ∷ es))) (handle s e)
    unfolding handle Only
    handle-Only Event.hostkey es = must-Only _ accept_hostkey (λ m. m) tt
    handle-Only Event.banner es = tt
    handle-Only (Event.username typed) es = on_username-Only typed es
    handle-Only (Event.password typed) es = on_password-Only typed es
    handle-Only Event.pubkey es = must-Only _ skip_pubkey (λ m. m) tt
    handle-Only Event.agent_sign es = must-Only _ skip_agent_sign (λ m. m) tt
    handle-Only Event.authenticated es = (tt, tt)
    handle-Only Event.session_opened es = on_session_opened-Only (Event.session_opened ∷ es)
    handle-Only Event.session_exit es = tt
    handle-Only Event.defunct es = tt
    handle-Only Event.progress_error es = tt

    -- Where no answer is refused but perhaps the terminal, the command or the shell, the events of
    -- a session are handled without a panic; a name or a password that is sent is the configured
    -- one, or where none is configured one that was typed; a command is run only if it was given,
    -- and a shell only if none was.
    pub ticker-Allowed : (es : List Event) → Ensures (λ r. All (Allowed es) r.0) (ticker s es)
    unfolding ticker Only
    ticker-Allowed [] = tt
    ticker-Allowed (e ∷ es) =
        Ensures-bind (Only (Allowed (e ∷ es))) (Only (Allowed (e ∷ es))) (handle s e) _
          (handle-Only e es) (after (ticker-Allowed es))
      where
        after :
            Ensures (Only (Allowed es)) (ticker s es)
            → (r : List Action × Next) → Only (Allowed (e ∷ es)) r
            → Ensures (Only (Allowed (e ∷ es))) (elim r.1 [
              | more ↦ ticker s es >>= λ (later, next'). ok (r.0 ++ later, next')
              | ended ↦ ok (r.0, ended)
              | failed ↦ ok (r.0, failed)
            ])
        after later_ones (actions, more) h =
            Ensures-bind (Only (Allowed es)) (Only (Allowed (e ∷ es))) (ticker s es) _ later_ones
              λ (later, next) h'.
                All-append (Allowed (e ∷ es)) actions later h (All-later e es later h')
        after later_ones (actions, ended) h = h
        after later_ones (actions, failed) h = h
