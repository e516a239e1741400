-- ===== src/Storage/HotPlug.antt =====
-- src/storage.rs: the report of `init_storage`, and `sdcard_hot_plug`.
use picocalc_wezterm.Prelude.{
  ℕ, zero, suc, ◌+◌, Bool, none, some, List, [], ◌∷◌, Outcome, ok, ◌>>=◌, if◌then◌else◌,
}
use picocalc_wezterm.Storage.Card.{Crate, Storage, loaded, check_card, init_storage}

-- What is printed: that there is no card, its size with the numbers of its volumes, or an error.
pub data Report : Type 0 where
  no_card : Report
  card : ℕ → List ℕ → Report
  card_error : Report

module _ (sd : Crate) (open_volume : Crate.VolMgr sd → ℕ → Bool) where
  -- `for idx in 0..5`, up to the first that does not open.
  unfoldable pub volumes_from : Crate.VolMgr sd → ℕ → ℕ → List ℕ
  volumes_from v zero idx = []
  volumes_from v (suc left) idx =
      let rest = volumes_from v left (idx + 1) in if open_volume v idx then idx ∷ rest else []

  unfoldable pub report : Storage sd → Storage sd × Report
  unfolding volumes_from
  report (loaded v) =
      let (size, device) = sd.num_bytes (sd.device v) in
      let v' = sd.with_device v device in
      (loaded v', elim size [ some n ↦ card n (volumes_from v' 5 0) | none ↦ card_error ])
  report s = (s, no_card)

  unfoldable pub start_storage : Bool → sd.CardType → Outcome (Storage sd × Report)
  unfolding report
  start_storage present sdcard = init_storage sd present sdcard >>= λ s. ok (report s)

module _ (sd : Crate) where
  -- The levels of the pin behind its edges.
  unfoldable pub hot_plug : Storage sd → List Bool → Outcome (Storage sd)
  hot_plug s [] = ok s
  hot_plug s (present ∷ edges) = check_card sd present s >>= λ s'. hot_plug s' edges
