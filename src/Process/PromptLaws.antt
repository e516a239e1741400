-- ===== src/Process/PromptLaws.antt =====
-- src/net.rs: `prompt_for_input`, from its prompt to the answer.
use picocalc_wezterm.Prelude.{
  ℕ, zero, suc, ◌≡◌, refl, ap, ◌∙◌, sym, some, List, [], ◌∷◌, ◌++◌, length, Ensures, Ensures-bind,
  ==_iff, arith, append_assoc, none, Option, ◌<◌, false, append-nil, All-append, Ensures-map,
}
use picocalc_wezterm.Prelude.Text.{Text, codes}
use picocalc_wezterm.Keyboard.Keys.{KeyReport, KeyState, Key, no_modifiers}
use picocalc_wezterm.Process.Editor.{apply_key, edit_on, edit}
use picocalc_wezterm.Process.EditorLaws.{IsAscii, at_end, edit_on-at_end}
use picocalc_wezterm.Process.TableLaws.{close_prompt_lem}
use picocalc_wezterm.Process.Table.{
  Proc, PromptProc, PromptKind, Table, put, deliver_key, deliver_keys, open_prompt, render_prompt,
  answer, react, key_input, press, prompt_key, cancels, send_answer, new_proc, assign_proc,
  close_prompt,
}

-- A press without a modifier.
abbrev pub press_of : Key → KeyReport
press_of k = record { state = KeyState.pressed; key = k; modifiers = no_modifiers }

-- A line, and the key that enters it.
abbrev pub entry : Text → List KeyReport
entry [] = press_of Key.enter ∷ []
entry (c ∷ s) = press_of (Key.char c) ∷ entry s

abbrev waiting : Text → PromptKind → Text → PromptProc
waiting prompt kind s = record { prompt = prompt; input = at_end s; kind = kind; channel = none }

-- What is written while the line is typed behind `s`, and entered.
abbrev pub shown : Text → PromptKind → Text → Text → Text
shown prompt kind s [] = codes "\r\n" ++ render_prompt kind prompt []
shown prompt kind s (c ∷ cs) =
    render_prompt kind prompt (s ++ (c ∷ [])) ++ shown prompt kind (s ++ (c ∷ [])) cs

abbrev put_self : (h : ℕ) (p : Proc) (procs : ℕ → Proc) → put h p procs h ≡ p
put_self h p procs = rw ((==_iff h h).1 refl) refl

not_cancelled : (c : ℕ) → cancels (press_of (Key.char c)) ≡ false
unfolding cancels
not_cancelled c = ground arith

-- The state of the prompt with handle `h`, and what was written since.
abbrev Typed : ℕ → Proc → Text → Table × Option Text → Type 0
Typed h p out r = (r.0.procs h ≡ p) × (r.0.current ≡ h) × (r.0.output ≡ out) × (r.1 ≡ none)

type_char :
    (t : Table) (prompt : Text) (kind : PromptKind) (s : Text) (c : ℕ)
    → IsAscii s
    → c < 128
    → t.procs t.current ≡ Proc.prompt_proc (waiting prompt kind s)
    → Ensures
        (Typed t.current
          (Proc.prompt_proc (waiting prompt kind (s ++ (c ∷ []))))
          (t.output ++ render_prompt kind prompt (s ++ (c ∷ []))))
        (deliver_key t (press_of (Key.char c)))
unfolding deliver_key key_input press prompt_key react apply_key
type_char t prompt kind s c a small e =
    rw (e, not_cancelled c, (edit_on-at_end s KeyState.pressed (Key.char c) a small).0)
      (
        put_self t.current _ t.procs,
        refl,
        ap (λ o. o ++ render_prompt kind prompt (s ++ (c ∷ []))) (append-nil t.output),
        refl,
      )

type_enter :
    (t : Table) (prompt : Text) (kind : PromptKind) (s : Text)
    → IsAscii s
    → t.procs t.current ≡ Proc.prompt_proc (waiting prompt kind s)
    → Ensures
        (Typed t.current
          (Proc.prompt_proc (record (waiting prompt kind []) { channel = some (some s) }))
          (t.output ++ codes "\r\n" ++ render_prompt kind prompt []))
        (deliver_key t (press_of Key.enter))
unfolding deliver_key key_input press prompt_key react apply_key cancels send_answer edit_on edit
type_enter t prompt kind s a e = rw e (put_self t.current _ t.procs, refl, refl, refl)

type_entry :
    (t : Table) (prompt : Text) (kind : PromptKind) (s cs : Text)
    → IsAscii s
    → IsAscii cs
    → t.procs t.current ≡ Proc.prompt_proc (waiting prompt kind s)
    → Ensures
        (λ r.
          (answer (r.0.procs t.current) ≡ some (some (s ++ cs)))
          × (r.0.current ≡ t.current)
          × (r.0.output ≡ t.output ++ shown prompt kind s cs)
          × (r.1 ≡ []))
        (deliver_keys t (entry cs))
unfolding deliver_keys
type_entry t prompt kind s [] a b e =
    Ensures-bind _ _ (deliver_key t (press_of Key.enter)) _ (type_enter t prompt kind s a e)
      λ (t', entered) (e', c', o', n'). (
        ap answer e' ∙ ap (λ x. some (some x)) (sym (append-nil s)),
        c',
        o' ∙ append_assoc t.output (codes "\r\n") (render_prompt kind prompt []),
        rw n',
      )
type_entry t prompt kind s (c ∷ cs) a b e =
    Ensures-bind _ _ (deliver_key t (press_of (Key.char c))) _ (type_char t prompt kind s c a b.0 e)
      λ (t', entered) (e', c', o', n').
        let longer = s ++ (c ∷ []) in
        Ensures-bind _ _ (deliver_keys t' (entry cs)) _
          (type_entry t' prompt kind longer cs (All-append (λ x. x < 128) s (c ∷ []) a (b.0, tt))
            b.1 (ap t'.procs c' ∙ e'))
          λ (t'', lines) (e'', c'', o'', n''). (
            ap (λ h. answer (t''.procs h)) (sym c')
                ∙ e''
                ∙ ap (λ x. some (some x)) (append_assoc s (c ∷ []) cs),
            c'' ∙ c',
            o''
                ∙ ap (λ o. o ++ shown prompt kind longer cs) o'
                ∙ append_assoc t.output (render_prompt kind prompt longer)
                    (shown prompt kind longer cs),
            rw n' n'',
          )

-- What a password prompt shows of `n` keys.
abbrev pub masked : Text → ℕ → Text
masked prompt zero = codes "\r\n" ++ render_prompt PromptKind.password prompt []
masked prompt (suc n) = render_prompt PromptKind.password prompt [] ++ masked prompt n

shown_password :
    (prompt s cs : Text) → shown prompt PromptKind.password s cs ≡ masked prompt (length cs)
shown_password prompt s [] = refl
shown_password prompt s (c ∷ cs) = rw (shown_password prompt (s ++ (c ∷ [])) cs)

-- A prompt that is opened and given a line of ASCII, key by key and without a modifier, and then
-- Enter, has this line as its answer; no command line is entered meanwhile, and closing the prompt
-- makes the process current that was so before.
pub open_prompt-answer :
    (t : Table) (prompt : Text) (kind : PromptKind) (line : Text)
    → IsAscii line
    → let opened = open_prompt t prompt kind in
      Ensures
        (λ r.
          (answer (r.0.procs opened.1) ≡ some (some line))
          × ((close_prompt r.0 opened.1 opened.2).current ≡ t.current)
          × (r.1 ≡ []))
        (deliver_keys opened.0 (entry line))
unfolding open_prompt new_proc assign_proc
open_prompt-answer t prompt kind line a =
    let t' = (open_prompt t prompt kind).0 in
    Ensures-map _ _ (deliver_keys t' (entry line))
      (λ r (e, c, o, n). (e, close_prompt_lem r.0 _ _ c, n))
      (type_entry t' prompt kind [] line tt a (put_self t.next _ t.procs))

-- While a line of ASCII is typed into a password prompt and entered, without a modifier, what is
-- written to the screen depends on the line's length only.
pub password_hidden :
    (t : Table) (prompt line : Text)
    → IsAscii line
    → let opened = (open_prompt t prompt PromptKind.password).0 in
      Ensures
        (λ r. r.0.output ≡ opened.output ++ masked prompt (length line))
        (deliver_keys opened (entry line))
unfolding open_prompt new_proc assign_proc
password_hidden t prompt line a =
    let t' = (open_prompt t prompt PromptKind.password).0 in
    Ensures-map _ _ (deliver_keys t' (entry line))
      (λ r (e, c, o, n). o ∙ ap (λ x. t'.output ++ x) (shown_password prompt [] line))
      (type_entry t' prompt PromptKind.password [] line tt a (put_self t.next _ t.procs))
