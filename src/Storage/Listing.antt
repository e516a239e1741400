-- ===== src/Storage/Listing.antt =====
-- src/storage.rs, `ls_command`: the path, the directory that it leads to, and what is listed. The
-- volumes, directories and entries belong to the embedded-sdmmc crate: a parameter.
use picocalc_wezterm.Prelude.{
  ℕ, Bool, true, false, Option, none, some, List, [], ◌∷◌, ltb, ◌==◌, if◌then◌else◌, get_or,
}
use picocalc_wezterm.Prelude.Text.{Text}

-- What the code calls of the crate, the errors left out. `iterate_dir` is the list of the entries
-- that its closure is called with.
pub record Files (VolMgr : Type 0) : Type 1 where
  pub Volume : Type 0
  pub Directory : Type 0
  pub DirEntry : Type 0
  pub open_volume : VolMgr → Option Volume
  pub open_root_dir : Volume → Option Directory
  pub change_dir : Directory → Text → Option Directory
  pub find_directory_entry : Directory → Text → Option DirEntry
  pub is_directory : DirEntry → Bool
  pub base_name : DirEntry → Text
  pub iterate_dir : Directory → List DirEntry

abbrev pub slash : ℕ
slash = b'/'

-- `str::rsplit_once('/')`
unfoldable pub rsplit_once : Text → Option (Text × Text)
rsplit_once [] = none
rsplit_once (c ∷ s) = elim (rsplit_once s) [
  | some (dirs, name) ↦ some (c ∷ dirs, name)
  | none ↦ if c == slash then some ([], s) else none
]

abbrev pub push_char : ℕ → List Text → List Text
push_char c [] = (c ∷ []) ∷ []
push_char c (w ∷ ws) = (c ∷ w) ∷ ws

-- `str::split('/')`
unfoldable pub split_path : Text → List Text
split_path [] = [] ∷ []
split_path (c ∷ s) = let rest = split_path s in if c == slash then [] ∷ rest else push_char c rest

-- The order of byte strings.
abbrev pub text_leb : Text → Text → Bool
text_leb [] t = true
text_leb (x ∷ xs) [] = false
text_leb (x ∷ xs) (y ∷ ys) = if ltb x y then true else if x == y then text_leb xs ys else false

module _ {VolMgr : Type 0} (files : Files VolMgr) where
  open files use {
    Volume, Directory, DirEntry, open_volume, open_root_dir, change_dir, find_directory_entry,
    is_directory, base_name, iterate_dir,
  }

  -- What is printed.
  pub data Listing : Type 0 where
    no_card volume_error root_error : Listing
    open_error find_error : Text → Listing
    entry : DirEntry → Listing
    entries : List DirEntry → Listing

  -- `sort_by` the names: equal ones keep their order.
  unfoldable pub insert_entry : DirEntry → List DirEntry → List DirEntry
  insert_entry e [] = e ∷ []
  insert_entry e (x ∷ xs) =
      let rest = insert_entry e xs in
      if text_leb (base_name e) (base_name x) then e ∷ x ∷ xs else x ∷ rest

  unfoldable pub sort_entries : List DirEntry → List DirEntry
  unfolding insert_entry
  sort_entries [] = []
  sort_entries (e ∷ es) = insert_entry e (sort_entries es)

  unfoldable pub list_dir : Directory → Listing
  unfolding sort_entries
  list_dir dir = entries (sort_entries (iterate_dir dir))

  -- Where the change fails, the directory stays.
  abbrev pub entered : Directory → Text → Directory
  entered dir name = elim (change_dir dir name) [ some dir' ↦ dir' | none ↦ dir ]

  -- The last part of the path, in its directory.
  unfoldable pub list_entry : Directory → Text → Listing
  unfolding list_dir
  list_entry dir [] = list_dir dir
  list_entry dir (c ∷ name) = elim (find_directory_entry dir (c ∷ name)) [
    | some e ↦ if is_directory e then list_dir (entered dir (c ∷ name)) else entry e
    | none ↦ find_error (c ∷ name)
  ]

  -- The loop over the components in front, and then the last part.
  unfoldable pub walk : Directory → List Text → Text → Listing
  unfolding list_entry
  walk dir [] name = list_entry dir name
  walk dir (comp ∷ comps) name = elim (change_dir dir comp) [
    | some dir' ↦ walk dir' comps name
    | none ↦ open_error comp
  ]

  unfoldable pub list_path : Directory → Text → Listing
  unfolding walk rsplit_once split_path
  list_path dir path = elim (rsplit_once path) [
    | some (dirs, name) ↦ walk dir (split_path dirs) name
    | none ↦ walk dir [] path
  ]

  -- The first argument is `vol_mgr` of the storage.
  unfoldable pub ls_command : Option VolMgr → List Text → Listing
  unfolding list_path
  ls_command none args = no_card
  ls_command (some mgr) args = elim (open_volume mgr) [
    | none ↦ volume_error
    | some vol ↦ elim (open_root_dir vol) [
      | none ↦ root_error
      | some dir ↦ list_path dir (get_or args 1 [])
    ]
  ]
