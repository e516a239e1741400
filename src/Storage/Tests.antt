-- ===== src/Storage/Tests.antt =====
-- src/storage.rs: the laws of the slot with a concrete card.
use picocalc_wezterm.Storage.Listing.{Files, ls_command}
use picocalc_wezterm.Storage.Listed.{Listed}
use picocalc_wezterm.Storage.ListingLaws.{ls_command-Listed}
use picocalc_wezterm.Prelude.Text.{Text, codes, text_eq}
use picocalc_wezterm.Prelude.{
  ◌>>=◌, refl, List, [], ◌∷◌, ℕ, ◌≡◌, ◌↔◌, some, none, true, Ensures, ◌==◌, if◌then◌else◌, false,
}
use picocalc_wezterm.Storage.HotPlug.{start_storage, hot_plug}
use picocalc_wezterm.Storage.HotPlugLaws.{hot_plug-ready}
use picocalc_wezterm.Storage.Card.{Crate, check_card}
use picocalc_wezterm.Storage.Phases.{ready, phase, usable}

-- A card is its size, and the manager is the card. A card of size 0 does not answer.
abbrev pub sized : Crate
sized = record {
  CardType = ℕ;
  VolMgr = ℕ;
  mark_card_uninit = (λ card. card);
  num_bytes = (λ card. (if card == 0 then none else some card, card));
  set_spi_config = (λ card. card);
  new_mgr = (λ card. card);
  device = (λ v. v);
  with_device = (λ v card. card);
}

-- The card is taken out and put in again.
hot_plug_example :
    Ensures
      (λ s.
        Ensures
          (λ t. (phase sized t ≡ ready) ↔ (usable sized true s ≡ true))
          (check_card sized true s))
      (start_storage sized (λ v idx. idx == 0) true 32_000_000_000 >>= λ (s, printed).
        hot_plug sized s (false ∷ true ∷ false ∷ []))
hot_plug_example =
    hot_plug-ready sized (λ v idx. idx == 0) true 32_000_000_000 (false ∷ true ∷ false ∷ []) true

-- One directory, `docs`, with a file in it. A directory is the path that leads to it.
abbrev docs_only : Files Unit
docs_only = record {
  Volume = Unit;
  Directory = List Text;
  DirEntry = Text;
  open_volume = (λ mgr. some tt);
  open_root_dir = (λ vol. some []);
  change_dir = (λ dir name. if text_eq name (codes "docs") then some (name ∷ dir) else none);
  find_directory_entry = (λ dir name. if text_eq name (codes "readme") then some name else none);
  is_directory = (λ e. false);
  base_name = (λ e. e);
  iterate_dir = (λ dir. codes "readme" ∷ []);
}

ls_command_example :
    Listed docs_only []
      (codes "docs" ∷ [])
      (codes "readme")
      (ls_command docs_only (some tt) (codes "ls" ∷ codes "docs/readme" ∷ []))
    × Listed docs_only [] []
        (codes "readme")
        (ls_command docs_only (some tt) (codes "ls" ∷ codes "readme" ∷ []))
    × Listed docs_only [] [] [] (ls_command docs_only (some tt) (codes "ls" ∷ []))
ls_command_example =
    ls_command-Listed docs_only tt tt [] (codes "ls") (codes "docs") (codes "readme") [] refl refl
      (refl, (refl, (refl, (refl, tt)))) tt (refl, (refl, (refl, (refl, (refl, (refl, tt))))))
