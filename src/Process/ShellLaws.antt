-- ===== src/Process/ShellLaws.antt =====
-- src/process.rs and src/net.rs: a command line and its words.
use picocalc_wezterm.Prelude.{
  ℕ, ◌≡◌, refl, sym, ap, ◌∙◌, false, some, List, [], ◌∷◌, ◌++◌, ok, All, inl, inr, Bool-cases, ◌==◌,
  ==_iff,
}
use picocalc_wezterm.Prelude.Text.{Text, codes}
use picocalc_wezterm.Process.Shell.{
  push_first, split, join, Command, find_command, dispatch_command, ssh_command,
}

-- A text of one word.
abbrev pub IsWord : Text → Type 0
IsWord w = All (λ c. (c == b' ') ≡ false) w

pub split-word : (w s : Text) → IsWord w → split (w ++ (b' ' ∷ s)) ≡ w ∷ split s
unfolding split push_first
split-word [] s h = refl
split-word (c ∷ w) s h = rw (split, h.0, split-word w s h.1)

join-push_first : (c : ℕ) (ws : List Text) → join (push_first c ws) ≡ c ∷ join ws
unfolding join push_first
join-push_first c [] = refl
join-push_first c (w ∷ []) = refl
join-push_first c (w ∷ x ∷ ws) = refl

-- The words of a line: a first one, and the rest.
pub split_cons : (s : Text) → (w : Text) × (ws : List Text) × (split s ≡ w ∷ ws)
unfolding split push_first
split_cons [] = ([], [], refl)
split_cons (c ∷ s) = elim (Bool-cases (c == b' ')) [
  | inl blank ↦ ([], split s, rw blank)
  | inr other ↦ let (w, ws, e) = split_cons s in (c ∷ w, ws, rw (other, e))
]

join-blank : (s : Text) → join ([] ∷ split s) ≡ b' ' ∷ join (split s)
unfolding join
join-blank s = let (w, ws, e) = split_cons s in rw e

-- The words of a line, joined with blanks, are the line.
join-split : (s : Text) → join (split s) ≡ s
unfolding split
join-split [] = unfold join in refl
join-split (c ∷ s) = elim (Bool-cases (c == b' ')) [
  | inl blank ↦
      rw (split, blank)
        (join-blank s
          ∙ ap (λ t. b' ' ∷ t) (join-split s)
          ∙ ap (λ d. d ∷ s) (sym ((==_iff c b' ').0 blank)))
  | inr other ↦ rw (split, other) (join-push_first c (split s) ∙ ap (λ t. c ∷ t) (join-split s))
]

-- A line of `ssh`, a blank, a host without a blank, a blank and any text is dispatched to the ssh
-- command, and that command asks the session for this host and exactly this text, blanks included.
pub ssh_line :
    (host rest : Text)
    → IsWord host
    → dispatch_command (codes "ssh " ++ (host ++ (b' ' ∷ rest)))
        ≡ ok (Command.ssh, codes "ssh" ∷ host ∷ split rest)
      × (ssh_command (codes "ssh" ∷ host ∷ split rest) ≡ some (host, some rest))
unfolding dispatch_command find_command ssh_command
ssh_line host rest h =
    (ap (λ words. ok (Command.ssh, codes "ssh" ∷ words)) (split-word host rest h), with_words)
  where
    with_words : ssh_command (codes "ssh" ∷ host ∷ split rest) ≡ some (host, some rest)
    with_words =
        let (w, ws, e) = split_cons rest in
        ap (λ words. ssh_command (codes "ssh" ∷ host ∷ words)) e
        ∙ ap (λ t. some (host, some t)) (ap join (sym e) ∙ join-split rest)
