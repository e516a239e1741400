-- ===== src/Storage/Listed.antt =====
-- src/storage.rs, `ls_command`: what it has to print, described without its loops. The order of the
-- names, a directory's entries in that order, and the way through the directories.
use picocalc_wezterm.Prelude.{
  ℕ, ◌<◌, ◌≡◌, ◌≢◌, sym, subst, ==_iff, Option-cases, Bool, true, false, none, some, List, [], ◌∷◌,
  inl, inr, Bool-cases, arith, ltb, ◌==◌,
}
use picocalc_wezterm.Prelude.Text.{Text}
use picocalc_wezterm.Storage.Listing.{
  Files, text_leb, Listing, insert_entry, sort_entries, list_dir, entered, list_entry, walk,
}
use mathlib.Core.List.{Perm}
use mathlib.Core.List.Perm

-- One name is not behind another: it is a start of it, or smaller where they first differ.
pub data Before : Text → Text → Type 0 where
  start : (t : Text) → Before [] t
  smaller : (x y : ℕ) (xs ys : Text) → x < y → Before (x ∷ xs) (y ∷ ys)
  same : (x : ℕ) (xs ys : Text) → Before xs ys → Before (x ∷ xs) (x ∷ ys)

not_both : true ≢ false
not_both h = ground arith

same_head : {x y : ℕ} {xs ys : Text} → x ≡ y → Before xs ys → Before (x ∷ xs) (y ∷ ys)
same_head {x} {y} {xs} {ys} e before = subst (λ z. Before (x ∷ xs) (z ∷ ys)) e (same x xs ys before)

text_leb-Before :
    (s t : Text) → (text_leb s t ≡ true → Before s t) × (text_leb s t ≡ false → Before t s)
text_leb-Before [] t = ((λ h. start t), (λ h. absurd (not_both h)))
text_leb-Before (x ∷ xs) [] = ((λ h. absurd (not_both (sym h))), (λ h. start (x ∷ xs)))
text_leb-Before (x ∷ xs) (y ∷ ys) = elim (Bool-cases (ltb x y)) [
  | inl less ↦ rw less ((λ h. smaller x y xs ys (ground arith)), (λ h. absurd (not_both h)))
  | inr not_less ↦ elim (Bool-cases (x == y)) [
    | inl equal ↦
        rw (not_less, equal)
          (
            (λ h. same_head ((==_iff x y).0 equal) ((text_leb-Before xs ys).0 h)),
            (λ h. same_head (sym ((==_iff x y).0 equal)) ((text_leb-Before xs ys).1 h)),
          )
    | inr differ ↦
        rw (not_less, differ)
          ((λ h. absurd (not_both (sym h))), (λ h. smaller y x ys xs (ground arith)))
  ]
]

module _ {VolMgr : Type 0} (files : Files VolMgr) where
  open files use {
    Directory, DirEntry, change_dir, find_directory_entry, is_directory, base_name, iterate_dir,
  }

  abbrev pub Sorted : List DirEntry → Type 0
  Sorted [] = Unit
  Sorted (e ∷ []) = Unit
  Sorted (e ∷ x ∷ xs) = Before (base_name e) (base_name x) × Sorted (x ∷ xs)

  -- Each entry of a directory once, by name.
  abbrev pub Contents : Directory → List DirEntry → Type 0
  Contents dir es = Perm es (iterate_dir dir) × Sorted es

  -- From a directory, through the parts of a path, to the last one, and what is then shown.
  pub data Listed : Directory → List Text → Text → Listing files → Type 0 where
    into :
        (dir dir' : Directory) (comp : Text) (comps : List Text) (name : Text) (l : Listing files)
        → change_dir dir comp ≡ some dir'
        → Listed dir' comps name l
        → Listed dir (comp ∷ comps) name l
    not_opened :
        (dir : Directory) (comp : Text) (comps : List Text) (name : Text)
        → change_dir dir comp ≡ none
        → Listed dir (comp ∷ comps) name (Listing.open_error comp)
    arrived :
        (dir : Directory) (es : List DirEntry)
        → Contents dir es
        → Listed dir [] [] (Listing.entries es)
    not_found :
        (dir : Directory) (c : ℕ) (name : Text)
        → find_directory_entry dir (c ∷ name) ≡ none
        → Listed dir [] (c ∷ name) (Listing.find_error (c ∷ name))
    file :
        (dir : Directory) (c : ℕ) (name : Text) (e : DirEntry)
        → find_directory_entry dir (c ∷ name) ≡ some e
        → is_directory e ≡ false
        → Listed dir [] (c ∷ name) (Listing.entry e)
    directory :
        (dir dir' : Directory) (c : ℕ) (name : Text) (e : DirEntry) (es : List DirEntry)
        → find_directory_entry dir (c ∷ name) ≡ some e
        → is_directory e ≡ true
        → change_dir dir (c ∷ name) ≡ some dir'
        → Contents dir' es
        → Listed dir [] (c ∷ name) (Listing.entries es)
    -- The error is dropped, and the directory around it is listed.
    directory_not_opened :
        (dir : Directory) (c : ℕ) (name : Text) (e : DirEntry) (es : List DirEntry)
        → find_directory_entry dir (c ∷ name) ≡ some e
        → is_directory e ≡ true
        → change_dir dir (c ∷ name) ≡ none
        → Contents dir es
        → Listed dir [] (c ∷ name) (Listing.entries es)

  abbrev leb_names : DirEntry → DirEntry → Bool
  leb_names e x = text_leb (base_name e) (base_name x)

  insert_entry-perm : (e : DirEntry) (xs : List DirEntry) → Perm (insert_entry files e xs) (e ∷ xs)
  unfolding insert_entry
  insert_entry-perm e [] = Perm.rfl
  insert_entry-perm e (x ∷ xs) = elim (Bool-cases (leb_names e x)) [
    | inl first ↦ rw first Perm.rfl
    | inr later ↦ rw later (Perm.trans (Perm.cons x (insert_entry-perm e xs)) (Perm.swap e x xs))
  ]

  insert_entry-after :
      (x e : DirEntry) (xs : List DirEntry)
      → Sorted (x ∷ xs)
      → Before (base_name x) (base_name e)
      → Sorted (x ∷ insert_entry files e xs)
  unfolding insert_entry
  insert_entry-after x e [] sorted before = (before, tt)
  insert_entry-after x e (y ∷ ys) sorted before = elim (Bool-cases (leb_names e y)) [
    | inl first ↦
        rw first (before, ((text_leb-Before (base_name e) (base_name y)).0 first, sorted.1))
    | inr later ↦ rw later (
      sorted.0,
      insert_entry-after y e ys sorted.1 ((text_leb-Before (base_name e) (base_name y)).1 later),
    )
  ]

  insert_entry-Sorted :
      (e : DirEntry) (xs : List DirEntry) → Sorted xs → Sorted (insert_entry files e xs)
  unfolding insert_entry
  insert_entry-Sorted e [] sorted = tt
  insert_entry-Sorted e (x ∷ xs) sorted = elim (Bool-cases (leb_names e x)) [
    | inl first ↦ rw first ((text_leb-Before (base_name e) (base_name x)).0 first, sorted)
    | inr later ↦
        rw later
          (insert_entry-after x e xs sorted ((text_leb-Before (base_name e) (base_name x)).1 later))
  ]

  sort_entries-perm : (es : List DirEntry) → Perm (sort_entries files es) es
  unfolding sort_entries
  sort_entries-perm [] = Perm.rfl
  sort_entries-perm (e ∷ es) =
      Perm.trans (insert_entry-perm e (sort_entries files es)) (Perm.cons e (sort_entries-perm es))

  sort_entries-Sorted : (es : List DirEntry) → Sorted (sort_entries files es)
  unfolding sort_entries
  sort_entries-Sorted [] = tt
  sort_entries-Sorted (e ∷ es) =
      insert_entry-Sorted e (sort_entries files es) (sort_entries-Sorted es)

  sort_entries-Contents : (dir : Directory) → Contents dir (sort_entries files (iterate_dir dir))
  sort_entries-Contents dir =
      (sort_entries-perm (iterate_dir dir), sort_entries-Sorted (iterate_dir dir))

  list_entry-Listed :
      (dir : Directory) (name : Text) → Listed dir [] name (list_entry files dir name)
  unfolding list_entry list_dir
  list_entry-Listed dir [] = arrived dir _ (sort_entries-Contents dir)
  list_entry-Listed dir (c ∷ name) = elim (Option-cases (find_directory_entry dir (c ∷ name))) [
    | inl missing ↦ rw (list_entry, missing) (not_found dir c name missing)
    | inr (e, found) ↦ elim (Bool-cases (is_directory e)) [
      | inr plain ↦ rw (list_entry, found, plain) (file dir c name e found plain)
      | inl is_dir ↦ elim (Option-cases (change_dir dir (c ∷ name))) [
        | inl closed ↦
            rw (list_entry, found, is_dir, list_dir, entered, closed)
              (directory_not_opened dir c name e _ found is_dir closed (sort_entries-Contents dir))
        | inr (dir', opened) ↦
            rw (list_entry, found, is_dir, list_dir, entered, opened)
              (directory dir dir' c name e _ found is_dir opened (sort_entries-Contents dir'))
      ]
    ]
  ]

  pub walk-Listed :
      (dir : Directory) (comps : List Text) (name : Text)
      → Listed dir comps name (walk files dir comps name)
  unfolding walk
  walk-Listed dir [] name = list_entry-Listed dir name
  walk-Listed dir (comp ∷ comps) name = elim (Option-cases (change_dir dir comp)) [
    | inl closed ↦ rw (walk, closed) (not_opened dir comp comps name closed)
    | inr (dir', opened) ↦
        rw (walk, opened) (into dir dir' comp comps name _ opened (walk-Listed dir' comps name))
  ]
