-- ===== src/Keyboard/Laws.antt =====
-- src/keyboard.rs: what the keyboard's state remembers, and what reaches the processes.
use picocalc_wezterm.Prelude.{
  ℕ, ◌+◌, ◌<◌, ◌≡◌, refl, true, false, Option, none, some, List, [], ◌∷◌, inl, inr, ◌↔◌, sym, ap,
  ◌∙◌, arith, ◌==◌, ==_iff, Bool-cases, if◌then◌else◌, Bool, All, ◌++◌, not, ◌&&◌,
}
use picocalc_wezterm.Prelude.Bytes.{every_below, every_below_at}
use mathlib.Core.Logic.{ite}
use picocalc_wezterm.Keyboard.Keys.{
  KeyState, Key, KeyState-discrete, Key-discrete, key_state_from, key_from, Modifiers, no_modifiers,
  KeyReport, only_ctrl,
}
use picocalc_wezterm.Keyboard.State.{
  BusRead, read_keyboard, KeyBoardState, default_keyboard, set_modifier, update_modifiers, is_idle,
  same_key, process, drain,
}
use picocalc_wezterm.Keyboard.Reader.{KeyAction, report_actions}
use picocalc_wezterm.Keyboard.Battery.{percentage, is_charging}

-- A history of reads: the state after it.
pub process_all : KeyBoardState → List (Option (KeyState × Key)) → KeyBoardState
process_all kb [] = kb
process_all kb (r ∷ rest) = process_all (process kb r).0 rest

-- The modifiers that a history leaves if no read is dropped.
pub modifiers_of : Modifiers → List (Option (KeyState × Key)) → Modifiers
modifiers_of m [] = m
modifiers_of m (none ∷ rest) = modifiers_of m rest
modifiers_of m (some key ∷ rest) = modifiers_of (update_modifiers m key) rest

-- The last key has had its effect.
abbrev Applied : KeyBoardState → Type 0
Applied kb = update_modifiers kb.modifiers kb.last_key ≡ kb.modifiers

update_twice :
    (m : Modifiers) (key : KeyState × Key)
    → update_modifiers (update_modifiers m key) key ≡ update_modifiers m key
unfolding update_modifiers set_modifier
update_twice m (s, k) = ground arith

both_yes {ℓ κ} :
    {P : Type ℓ} {Q : Type κ} (d : Dec P) (e : Dec Q)
    → ite d (ite e true false) false ≡ true
    → P × Q
both_yes (yes p) (yes q) h = (p, q)
both_yes (yes p) (no nq) h = cc
both_yes (no np) e h = cc

same_key→eq : (a b : KeyState × Key) → same_key a b ≡ true → a ≡ b
same_key→eq (s, k) (t, l) h =
    let (p, q) = both_yes (KeyState-discrete s t) (Key-discrete k l) h in λ i. (p i, q i)

idle_keeps :
    (m : Modifiers) (key : KeyState × Key) → is_idle key ≡ true → update_modifiers m key ≡ m
unfolding update_modifiers
idle_keeps m (KeyState.idle, k) h = refl
idle_keeps m (KeyState.pressed, k) h = refl
idle_keeps m (KeyState.hold, k) h = cc
idle_keeps m (KeyState.released, k) h = cc

-- Dropping repeated reads loses no change of a modifier.
process_modifiers :
    (kb : KeyBoardState) (key : KeyState × Key)
    → Applied kb
    → ((process kb (some key)).0.modifiers ≡ update_modifiers kb.modifiers key)
      × Applied (process kb (some key)).0
unfolding process
process_modifiers kb key h = elim (Bool-cases (same_key key kb.last_key)) [
  | inl same ↦
      rw same
        ((sym h ∙ ap (update_modifiers kb.modifiers) (sym (same_key→eq key kb.last_key same))), h)
  | inr fresh ↦ elim (Bool-cases (is_idle key)) [
    | inl at_rest ↦
        rw (fresh, at_rest)
          (sym (idle_keeps kb.modifiers key at_rest), idle_keeps kb.modifiers key at_rest)
    | inr event ↦ rw (fresh, event) (refl, update_twice kb.modifiers key)
  ]
]

process_all-modifiers :
    (reads : List (Option (KeyState × Key))) (kb : KeyBoardState)
    → Applied kb
    → (process_all kb reads).modifiers ≡ modifiers_of kb.modifiers reads
unfolding process_all modifiers_of process
process_all-modifiers [] kb h = refl
process_all-modifiers (none ∷ rest) kb h = process_all-modifiers rest kb h
process_all-modifiers (some key ∷ rest) kb h =
    let (e, h') = process_modifiers kb key h in
    process_all-modifiers rest (process kb (some key)).0 h' ∙ ap (λ m. modifiers_of m rest) e

-- From the start, after any reads, the modifiers are those that every successful read leaves in
-- turn: skipping a read that repeats the one before it loses nothing.
pub modifiers_of_history :
    (reads : List (Option (KeyState × Key)))
    → (process_all default_keyboard reads).modifiers ≡ modifiers_of no_modifiers reads
modifiers_of_history reads = process_all-modifiers reads default_keyboard applied
  where
    applied : Applied default_keyboard
    applied = unfold update_modifiers in refl

-- A key that is not pressed together with Ctrl alone goes to the current process, as it is.
plain_press-to_proc :
    (r : KeyReport)
    → r.state ≡ KeyState.pressed
    → only_ctrl r.modifiers ≡ false
    → report_actions (some r) ≡ KeyAction.to_proc r ∷ []
unfolding report_actions
plain_press-to_proc r h c = ground arith

-- The report of a key asks for a plain restart exactly when it is of F1, pressed, with Ctrl alone
-- held.
reboot_needs_ctrl :
    (r : KeyReport)
    → (report_actions (some r) ≡ KeyAction.reboot ∷ [])
      ↔ ((r.state ≡ KeyState.pressed) × (r.key ≡ Key.f1) × (only_ctrl r.modifiers ≡ true))
unfolding report_actions
reboot_needs_ctrl r = (λ h. ground arith, λ h. ground arith)

-- The status byte is the percentage, and 128 more while charging.
status_table : every_below 256 (λ b. percentage b + (if is_charging b then 128 else 0) == b) ≡ true
unfolding every_below percentage is_charging
status_table = refl

-- A battery status byte is its percentage, and 128 more when it says that the battery is charging.
status_byte : (b : ℕ) → b < 256 → percentage b + (if is_charging b then 128 else 0) ≡ b
status_byte b h = (==_iff _ _).0 (every_below_at 256 _ b status_table h)

-- A read that the loop of the drain takes as a key of the queue.
abbrev pub is_key_read : BusRead → Bool
is_key_read none = false
is_key_read (some (b0, b1)) = not (b0 == 0x0b) && not (is_idle (key_state_from b0, key_from b1))

drain_key :
    (battery : ℕ) (r : BusRead) (rest : List BusRead)
    → is_key_read r ≡ true
    → drain battery (r ∷ rest) ≡ drain battery rest
unfolding drain read_keyboard
drain_key battery none rest h = ground arith
drain_key battery (some (b0, b1)) rest h =
    let (no_battery, no_idle) = both (b0 == 0x0b) (is_idle (key_state_from b0, key_from b1)) h in
    let known : read_keyboard battery (some (b0, b1))
        ≡ (battery, some (key_state_from b0, key_from b1)) =
      rw (read_keyboard, no_battery) in
    rw (drain, known, no_idle) (ap (λ o. drain o.0 rest) known)
  where
    both : (a b : Bool) → (not a && not b) ≡ true → (a ≡ false) × (b ≡ false)
    both a b e = ground arith

-- After any number of keys, a battery status ends the drain at the start: it is stored, and
-- whatever the queue holds behind it stays there.
pub drain_stops_at_battery :
    (battery pct : ℕ) (keys rest : List BusRead)
    → All (λ r. is_key_read r ≡ true) keys
    → drain battery (keys ++ (some (0x0b, pct) ∷ rest)) ≡ (pct, rest)
unfolding drain read_keyboard key_state_from key_from
drain_stops_at_battery battery pct [] rest h = refl
drain_stops_at_battery battery pct (r ∷ keys) rest h =
    drain_key battery r (keys ++ (some (0x0b, pct) ∷ rest)) h.0
    ∙ drain_stops_at_battery battery pct keys rest h.1
