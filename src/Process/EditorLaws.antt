-- ===== src/Process/EditorLaws.antt =====
-- src/process.rs, `LineEditor` against a plain list of chars that is changed at its end; and what
-- a char outside ASCII does to it.
use picocalc_wezterm.Prelude.{
  ℕ, suc, ◌+◌, ◌-◌, ◌≤◌, ◌<◌, ◌≡◌, refl, true, Option, none, some, List, [], ◌∷◌, ◌++◌, ok,
  panicked, ◌>>=◌, All, All-append, arith, ◌==◌, length, length-append,
}
use picocalc_wezterm.Prelude.Text.{Text}
use picocalc_wezterm.Keyboard.Keys.{KeyState, Key, KeyReport}
use picocalc_wezterm.Process.Editor.{
  len_utf8, byte_len, insert_at, pop, LineEditor, default_editor, edit, edit_on, apply_key,
  apply_keys,
}

-- What a key means for the line that is typed, with the command that it enters.
abbrev pub type_key : Text → Key → Text × Option Text
type_key s (Key.char c) = (s ++ (c ∷ []), none)
type_key s Key.back_space = (pop s, none)
type_key s Key.enter = ([], some s)
type_key s k = (s, none)

abbrev pub type_on : Text → KeyState → Key → Text × Option Text
type_on s KeyState.pressed k = type_key s k
type_on s st k = (s, none)

abbrev pub type_report : Text → KeyReport → Text × Option Text
type_report s r = type_on s r.state r.key

-- The line after a run of keys, and the commands that it enters.
pub type_reports : Text → List KeyReport → Text × List Text
type_reports s [] = (s, [])
type_reports s (r ∷ rest) =
    let (s', out) = type_report s r in
    let (s'', outs) = type_reports s' rest in
    (s'', elim out [ none ↦ outs | some cmd ↦ cmd ∷ outs ])

abbrev pub IsAscii : Text → Type 0
IsAscii s = All (λ c. c < 128) s

-- The key is no char outside ASCII.
abbrev pub IsAsciiKey : Key → Type 0
IsAsciiKey (Key.char c) = c < 128
IsAsciiKey k = Unit

-- The editor that holds a line of ASCII, the cursor behind its last char. No key moves it.
abbrev pub at_end : Text → LineEditor
at_end s = record { command = s; cursor_x = length s }

byte_len-ascii : (s : Text) → IsAscii s → byte_len s ≡ length s
unfolding byte_len
byte_len-ascii [] h = refl
byte_len-ascii (c ∷ s) h = ground (arith, byte_len-ascii s h.1, h.0)

insert_at-end : (s : Text) (c : ℕ) → IsAscii s → insert_at s (length s) c ≡ ok (s ++ (c ∷ []))
unfolding insert_at
insert_at-end [] c h = refl
insert_at-end (x ∷ s) c h =
    let one : len_utf8 x ≡ 1 = ground (arith, h.0) in
    let n : suc (length s) - 1 ≡ length s = omega arith in
    rw (one, n, insert_at-end s c h.1) (ground arith)

pop-IsAscii : (s : Text) → IsAscii s → IsAscii (pop s)
pop-IsAscii [] h = tt
pop-IsAscii (x ∷ []) h = tt
pop-IsAscii (x ∷ y ∷ s) h = (h.0, pop-IsAscii (y ∷ s) h.1)

length-pop : (s : Text) → length (pop s) ≡ length s - 1
length-pop [] = omega arith
length-pop (x ∷ []) = omega arith
length-pop (x ∷ y ∷ s) = omega (arith, length-pop (y ∷ s))

edit-at_end :
    (s : Text) (k : Key)
    → IsAscii s
    → IsAsciiKey k
    → (edit (at_end s) k ≡ ok (at_end (type_key s k).0, (type_key s k).1))
      × IsAscii (type_key s k).0
unfolding edit
edit-at_end s (Key.char c) h a =
    let n : length s + 1 ≡ length (s ++ (c ∷ [])) = omega (arith, length-append s (c ∷ [])) in
    (rw (insert_at-end s c h, n), All-append (λ x. x < 128) s (c ∷ []) h (a, tt))
edit-at_end s Key.back_space h a =
    let here : (length s == byte_len s) ≡ true = ground (arith, byte_len-ascii s h) in
    (rw (here, length-pop s), pop-IsAscii s h)
edit-at_end s Key.enter h a = (refl, tt)
edit-at_end s _ h a = (refl, h)

pub edit_on-at_end :
    (s : Text) (st : KeyState) (k : Key)
    → IsAscii s
    → IsAsciiKey k
    → (edit_on (at_end s) st k ≡ ok (at_end (type_on s st k).0, (type_on s st k).1))
      × IsAscii (type_on s st k).0
unfolding edit_on
edit_on-at_end s KeyState.pressed k h a = edit-at_end s k h a
edit_on-at_end s _ k h a = (refl, h)

-- From a line of ASCII, a run of keys without a char outside ASCII never panics: the editor holds
-- what was typed, and returns the commands that were entered.
apply_keys-at_end :
    (rs : List KeyReport) (s : Text)
    → IsAscii s
    → All (λ r. IsAsciiKey r.key) rs
    → apply_keys (at_end s) rs ≡ ok (at_end (type_reports s rs).0, (type_reports s rs).1)
unfolding apply_keys type_reports apply_key
apply_keys-at_end [] s h a = refl
apply_keys-at_end (r ∷ rs) s h a =
    let (e, h') = edit_on-at_end s r.state r.key h a.0 in
    rw (e, apply_keys-at_end rs (type_report s r).0 h' a.1)

-- From the default editor, a run of keys that holds no char outside ASCII never panics; the editor
-- then holds what a list that is only changed at its end would hold, and the commands that were
-- entered are those of that list.
pub apply_keys_refines :
    (rs : List KeyReport)
    → All (λ r. IsAsciiKey r.key) rs
    → apply_keys default_editor rs ≡ ok (at_end (type_reports [] rs).0, (type_reports [] rs).1)
apply_keys_refines rs a = apply_keys-at_end rs [] tt a

-- An index one past an ASCII prefix is no boundary where a longer char follows.
insert_at-inside :
    (s : Text) (c d : ℕ)
    → IsAscii s
    → 128 ≤ c
    → insert_at (s ++ (c ∷ [])) (length s + 1) d ≡ panicked
unfolding insert_at
insert_at-inside [] c d h big = ground arith
insert_at-inside (x ∷ s) c d h big =
    let one : len_utf8 x ≡ 1 = ground (arith, h.0) in
    let n : suc (length s) + 1 - 1 ≡ length s + 1 = omega arith in
    rw (one, n, insert_at-inside s c d h.1 big) (ground arith)

-- With a line of ASCII and the cursor at its end, a char outside ASCII and then any char panic.
pub wide_char_then_char_panics :
    (s : Text) (c d : ℕ)
    → IsAscii s
    → 128 ≤ c
    → (edit (at_end s) (Key.char c) >>= λ out. edit out.0 (Key.char d)) ≡ panicked
unfolding edit
wide_char_then_char_panics s c d h big = rw (insert_at-end s c h, insert_at-inside s c d h big)
