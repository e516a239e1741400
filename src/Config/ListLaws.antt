-- ===== src/Config/ListLaws.antt =====
-- src/config.rs, `get_all`: the map that is built from the items in the flash.
use picocalc_wezterm.Prelude.{
  ◌≤◌, ◌≡◌, refl, ap, sym, ◌∙◌, Bool, true, false, Option, none, some, List, [], ◌∷◌, ◌++◌, length,
  inl, inr, ◌⊎◌, Bool-cases, Option-cases, if◌then◌else◌, arith, ltb, length-append, ltb→lt,
}
use picocalc_wezterm.Prelude.Text.{Text, text_eq, eq_of_text_eq}
use picocalc_wezterm.Config.Store.{lookup, overwrite, map_insert, map_capacity, insert_all}

-- The first value, or else the second.
abbrev pub or_else : Option Text → Option Text → Option Text
or_else (some v) other = some v
or_else none other = other

-- The last value of a key.
abbrev pub last_value : Text → List (Text × Text) → Option Text
last_value k [] = none
last_value k ((j, v) ∷ rest) = or_else (last_value k rest) (if text_eq k j then some v else none)

pub or_else_none : (a : Option Text) → or_else a none ≡ a
or_else_none (some v) = refl
or_else_none none = refl

or_else_assoc : (a b c : Option Text) → or_else (or_else a b) c ≡ or_else a (or_else b c)
or_else_assoc (some v) b c = refl
or_else_assoc none b c = refl

-- Equal keys are alike to every other.
text_eq_right : (k j i : Text) → text_eq j i ≡ true → text_eq k i ≡ text_eq k j
text_eq_right k j i h = ap (text_eq k) (sym (eq_of_text_eq j i h))

apart : (k j i : Text) → text_eq k i ≡ true → text_eq j i ≡ false → text_eq k j ≡ false
apart k j i same other = elim (Bool-cases (text_eq k j)) [
  | inr differ ↦ differ
  | inl equal ↦
      let e : text_eq k i ≡ text_eq j i = ap (λ x. text_eq x i) (eq_of_text_eq k j equal) in
      absurd (cc (sym e ∙ same, other))
]

lookup-overwrite :
    (k j v : Text) (m : List (Text × Text)) (old : Text)
    → lookup j m ≡ some old
    → lookup k (overwrite j v m) ≡ or_else (if text_eq k j then some v else none) (lookup k m)
lookup-overwrite k j v [] old h = cc
lookup-overwrite k j v ((i, w) ∷ m) old h = elim (Bool-cases (text_eq j i)) [
  | inl here ↦ rw (here, text_eq_right k j i here) (first (text_eq k j))
  | inr there ↦ elim (Bool-cases (text_eq k i)) [
    | inl same ↦ rw (there, same, apart k j i same there) refl
    | inr other ↦ rw (there, other) (lookup-overwrite k j v m old (rw there at h))
  ]
]
  where
    first :
        (b : Bool)
        → (if b then some v else lookup k m)
          ≡ or_else (if b then some v else none) (if b then some w else lookup k m)
    first true = refl
    first false = refl

lookup-append :
    (k j v : Text) (m : List (Text × Text))
    → lookup j m ≡ none
    → lookup k (m ++ ((j, v) ∷ [])) ≡ or_else (if text_eq k j then some v else none) (lookup k m)
lookup-append k j v [] h = ground arith
lookup-append k j v ((i, w) ∷ m) h = elim (Bool-cases (text_eq j i)) [
  | inl here ↦ absurd (missing (rw here at h))
  | inr there ↦ elim (Bool-cases (text_eq k i)) [
    | inl same ↦ rw (same, apart k j i same there) refl
    | inr other ↦ rw other (lookup-append k j v m (rw there at h))
  ]
]
  where
    missing : some w ≡ none → ⊥
    missing e = cc

length-overwrite : (j v : Text) (m : List (Text × Text)) → length (overwrite j v m) ≡ length m
length-overwrite j v [] = refl
length-overwrite j v ((i, w) ∷ m) = elim (Bool-cases (text_eq j i)) [
  | inl here ↦ rw here refl
  | inr there ↦ rw (there, length-overwrite j v m) refl
]

-- A new entry is the first that is looked up, and takes at most one place.
abbrev Inserted : List (Text × Text) → Text → Text → List (Text × Text) → Type 0
Inserted m j v m' =
    ((k : Text) → lookup k m' ≡ or_else (if text_eq k j then some v else none) (lookup k m))
    × (length m ≤ length m')
    × (length m' ≤ map_capacity)

abbrev Refused : List (Text × Text) → Text → Type 0
Refused m j = (lookup j m ≡ none) × (length m ≡ map_capacity)

map_insert_lem :
    (m : List (Text × Text)) (j v : Text)
    → length m ≤ map_capacity
    → ((m' : List (Text × Text)) × (map_insert m j v ≡ some m') × Inserted m j v m')
      ⊎ ((map_insert m j v ≡ none) × Refused m j)
unfolding map_insert
map_insert_lem m j v h = elim (Option-cases (lookup j m)) [
  | inr (old, e) ↦ inl (
    overwrite j v m,
    rw (map_insert, e) refl,
    (
      (λ k. lookup-overwrite k j v m old e),
      omega (arith, length-overwrite j v m),
      omega (arith, length-overwrite j v m),
    ),
  )
  | inl new ↦ elim (Bool-cases (ltb (length m) map_capacity)) [
    | inl room ↦ inl (
      m ++ ((j, v) ∷ []),
      rw (map_insert, new, room) refl,
      (
        (λ k. lookup-append k j v m new),
        omega (arith, length-append m ((j, v) ∷ [])),
        omega (arith, length-append m ((j, v) ∷ []), ltb→lt (length m) map_capacity room),
      ),
    )
    | inr full ↦ inr (rw (map_insert, new, full) refl, (new, ground arith))
  ]
]

-- What the map has of a key that the items follow: the last value, or the key is left out of a map
-- that is full.
abbrev pub Listed : List (Text × Text) → List (Text × Text) → List (Text × Text) → Text → Type 0
Listed m items r k =
    (lookup k r ≡ or_else (last_value k items) (lookup k m))
    ⊎ ((lookup k r ≡ none) × (length r ≡ map_capacity))

left_out :
    (m : List (Text × Text)) (j v : Text) (rest : List (Text × Text)) (k : Text)
    → (r : List (Text × Text)) → Listed m rest r k
    → (lookup j m ≡ none) × (length r ≡ map_capacity)
    → Listed m ((j, v) ∷ rest) r k
left_out m j v rest k r (inr left) (new, full) = inr left
left_out m j v rest k r (inl found) (new, full) = elim (Option-cases (last_value k rest)) [
  | inr (w, later) ↦ inl (found ∙ rw later refl)
  | inl last ↦
      let kept : lookup k r ≡ lookup k m = found ∙ rw last refl in
      elim (Bool-cases (text_eq k j)) [
        | inr other ↦ inl (kept ∙ rw (last, other) refl)
        | inl same ↦ inr (kept ∙ ap (λ x. lookup x m) (eq_of_text_eq k j same) ∙ new, full)
      ]
]

pub insert_all_lem :
    (m items : List (Text × Text)) (k : Text)
    → length m ≤ map_capacity
    → Listed m items (insert_all m items) k
      × (length m ≤ length (insert_all m items))
      × (length (insert_all m items) ≤ map_capacity)
unfolding insert_all
insert_all_lem m [] k h = (inl refl, omega arith, h)
insert_all_lem m ((j, v) ∷ rest) k h = elim (map_insert_lem m j v h) [
  | inl (m', e, (look, more, small)) ↦
      let (l, more', small') = insert_all_lem m' rest k small in
      rw (insert_all, e)
        (
          elim l [
            | inr left ↦ inr left
            | inl found ↦ inl (
                found
                ∙ ap (or_else (last_value k rest)) (look k)
                ∙ sym (or_else_assoc (last_value k rest) _ (lookup k m)))
          ],
          omega arith,
          small',
        )
  | inr (e, (new, full)) ↦
      let (l, more', small') = insert_all_lem m rest k h in
      rw (insert_all, e)
        (left_out m j v rest k _ l (new, omega (arith, full, more', small')), more', small')
]
