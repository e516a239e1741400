-- ===== src/Storage/ListingLaws.antt =====
-- src/storage.rs, `ls_command`: the path that is walked, and the order of what is listed.
use picocalc_wezterm.Prelude.{◌≡◌, refl, ap, ◌∙◌, false, none, some, List, [], ◌∷◌, ◌++◌, All, ◌==◌}
use picocalc_wezterm.Prelude.Text.{Text}
use picocalc_wezterm.Storage.Listed.{Listed, walk-Listed}
use picocalc_wezterm.Storage.Listing.{Files, slash, rsplit_once, split_path, list_path, ls_command}

-- A part of a path.
abbrev pub IsPart : Text → Type 0
IsPart s = All (λ c. (c == slash) ≡ false) s

-- The path through some parts.
abbrev pub path_through : Text → List Text → Text
path_through w [] = w
path_through w (x ∷ ws) = w ++ (slash ∷ path_through x ws)

rsplit_once-part : (s : Text) → IsPart s → rsplit_once s ≡ none
unfolding rsplit_once
rsplit_once-part [] h = refl
rsplit_once-part (c ∷ s) h = rw (rsplit_once, rsplit_once-part s h.1, h.0) refl

rsplit_once-append :
    (dirs name : Text) → IsPart name → rsplit_once (dirs ++ (slash ∷ name)) ≡ some (dirs, name)
unfolding rsplit_once
rsplit_once-append [] name h = rw (rsplit_once, rsplit_once-part name h) refl
rsplit_once-append (c ∷ dirs) name h = rw (rsplit_once, rsplit_once-append dirs name h) refl

split_path-part : (s : Text) → IsPart s → split_path s ≡ s ∷ []
unfolding split_path
split_path-part [] h = refl
split_path-part (c ∷ s) h = rw (split_path, h.0, split_path-part s h.1) refl

split_path-append : (w s : Text) → IsPart w → split_path (w ++ (slash ∷ s)) ≡ w ∷ split_path s
unfolding split_path
split_path-append [] s h = refl
split_path-append (c ∷ w) s h = rw (split_path, h.0, split_path-append w s h.1) refl

split_path_through :
    (w : Text) (ws : List Text) → IsPart w → All IsPart ws → split_path (path_through w ws) ≡ w ∷ ws
split_path_through w [] h hs = split_path-part w h
split_path_through w (x ∷ ws) h hs =
    split_path-append w (path_through x ws) h ∙ ap (λ t. w ∷ t) (split_path_through x ws hs.0 hs.1)

-- With a card whose first volume and root directory open, and parts of a path without a slash: `ls`
-- of parts joined with slashes changes from the root into each part but the last, in order, and
-- reports the first one that does not open; of the last part, looked up in the directory it came
-- to, it shows the entry, or where that is a directory, its entries (those of the directory around
-- it where it does not open), or reports that it is not found. `ls` of a single part does so in the
-- root, and `ls` alone, or of a path that ends in a slash, shows the entries of the directory it
-- came to. Entries are shown each once, in the order of their names.
pub ls_command-Listed :
    {VolMgr : Type 0} (files : Files VolMgr) (mgr : VolMgr) (vol : files.Volume)
    (root : files.Directory) (arg0 first name : Text) (rest : List Text)
    → files.open_volume mgr ≡ some vol
    → files.open_root_dir vol ≡ some root
    → IsPart first
    → All IsPart rest
    → IsPart name
    → Listed files root
        (first ∷ rest)
        name
        (ls_command files (some mgr) (arg0 ∷ (path_through first rest ++ (slash ∷ name)) ∷ []))
      × Listed files root [] name (ls_command files (some mgr) (arg0 ∷ name ∷ []))
      × Listed files root [] [] (ls_command files (some mgr) (arg0 ∷ []))
unfolding ls_command list_path
ls_command-Listed files mgr vol root arg0 first name rest ev er hf hr hn = (
  rw
      (
        ls_command,
        ev,
        er,
        list_path,
        rsplit_once-append (path_through first rest) name hn,
        split_path_through first rest hf hr,
      )
      (walk-Listed files root (first ∷ rest) name),
  rw (ls_command, ev, er, list_path, rsplit_once-part name hn) (walk-Listed files root [] name),
  rw (ls_command, ev, er) (walk-Listed files root [] []),
)
