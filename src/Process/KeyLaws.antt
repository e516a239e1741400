-- ===== src/Process/KeyLaws.antt =====
-- src/net.rs: the keys that a session's process and a prompt are given.
use picocalc_wezterm.Prelude.{
  arith, sym, ap, ◌∙◌, Ensures-bind, ==_iff, append_assoc, length-append, ◌>>=◌, none, Option, ℕ,
  zero, suc, ◌≤◌, ◌≡◌, refl, List, [], ◌∷◌, ◌++◌, length, take, ok, Ensures, inl, inr, Bool-cases,
  ltb,
}
use picocalc_wezterm.Prelude.Text.{Text}
use picocalc_wezterm.Keyboard.Keys.{KeyReport, KeyState}
use picocalc_wezterm.Process.Table.{
  put, press, key_input, react, Proc, Table, deliver_key, deliver_keys, ssh_capacity,
}

-- The presses among the keys.
abbrev add_press : KeyState → KeyReport → List KeyReport → List KeyReport
add_press KeyState.pressed k ks = k ∷ ks
add_press st k ks = ks

abbrev pub presses : List KeyReport → List KeyReport
presses [] = []
presses (k ∷ ks) = add_press k.state k (presses ks)

-- The places of a channel that is not overfull keep what is there.
take_le : (n : ℕ) (q : List KeyReport) → length q ≤ n → take n (q ++ []) ≡ q
take_le zero [] h = refl
take_le zero (k ∷ q) h = absurd (omega arith)
take_le (suc n) [] h = refl
take_le (suc n) (k ∷ q) h = rw (take_le n q (omega arith)) refl

take_full : (n : ℕ) (q rest : List KeyReport) → length q ≡ n → take n (q ++ rest) ≡ q
take_full zero [] rest h = refl
take_full zero (k ∷ q) rest h = absurd (omega arith)
take_full (suc n) [] rest h = absurd (omega arith)
take_full (suc n) (k ∷ q) rest h = rw (take_full n q rest (omega arith)) refl

-- The table after a key, with `q` in the queue of the current session.
abbrev Queued : Table → List KeyReport → List KeyReport → Table × Option Text → Type 0
Queued t before after r =
    (q : List KeyReport) × (r.0.procs r.0.current ≡ Proc.ssh q)
    × (r.0.current ≡ t.current)
    × (length q ≤ ssh_capacity)
    × (r.1 ≡ none)
    × (take ssh_capacity (q ++ after) ≡ take ssh_capacity before)

put_self : (h : ℕ) (p : Proc) (procs : ℕ → Proc) → put h p procs h ≡ p
put_self h p procs = rw ((==_iff h h).1 refl) refl

react-Queued :
    (t : Table) (q : List KeyReport) (st : KeyState) (k : KeyReport) (ks : List KeyReport)
    → length q ≤ ssh_capacity
    → Ensures
        (Queued t (q ++ add_press st k ks) ks)
        (key_input (Proc.ssh q) st k >>= λ r. ok (react t t.current r))
unfolding key_input press react
react-Queued t q KeyState.pressed k ks h = elim (Bool-cases (ltb (length q) ssh_capacity)) [
  | inl room ↦ rw room (
    q ++ (k ∷ []),
    put_self t.current _ t.procs,
    refl,
    ground (arith, length-append q (k ∷ [])),
    refl,
    ap (take ssh_capacity) (append_assoc q (k ∷ []) ks),
  )
  | inr full ↦
      let n : length q ≡ ssh_capacity = ground arith in
      rw full (
        q,
        put_self t.current _ t.procs,
        refl,
        h,
        refl,
        take_full ssh_capacity q ks n ∙ sym (take_full ssh_capacity q (k ∷ ks) n),
      )
]
react-Queued t q st k ks h = (q, put_self t.current _ t.procs, refl, h, refl, refl)

-- With an ssh session as the current process and at most four keys in its queue, any keys are
-- handed over without a panic and without a command line: the queue then holds what it held and the
-- presses among the keys, the first four of these, and the session stays current.
pub deliver_keys-ssh :
    (t : Table) (q ks : List KeyReport)
    → t.procs t.current ≡ Proc.ssh q
    → length q ≤ ssh_capacity
    → Ensures
        (λ r.
          (r.0.procs t.current ≡ Proc.ssh (take ssh_capacity (q ++ presses ks)))
          × (r.0.current ≡ t.current)
          × (r.1 ≡ []))
        (deliver_keys t ks)
unfolding deliver_keys deliver_key
deliver_keys-ssh t q [] e h = (e ∙ ap Proc.ssh (sym (take_le ssh_capacity q h)), refl, refl)
deliver_keys-ssh t q (k ∷ ks) e h =
    Ensures-bind (Queued t (q ++ presses (k ∷ ks)) (presses ks)) _ (deliver_key t k) _
      (rw e (react-Queued t q k.state k (presses ks) h))
      λ (t', entered) (q', e', c', h', n', same).
        Ensures-bind _ _ (deliver_keys t' ks) _ (deliver_keys-ssh t' q' ks e' h')
          λ (t'', lines) (e'', c'', n'').
            (ap (λ c. t''.procs c) (sym c') ∙ e'' ∙ ap Proc.ssh same, c'' ∙ c', rw n' n'')
