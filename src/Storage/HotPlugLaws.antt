-- ===== src/Storage/HotPlugLaws.antt =====
-- src/storage.rs: the slot from its start on.
use picocalc_wezterm.Prelude.{
  ℕ, ◌≡◌, ◌≢◌, ◌↔◌, Bool, true, List, [], ◌∷◌, ◌>>=◌, Ensures, Ensures-bind, Ensures-map,
}
use picocalc_wezterm.Storage.Card.{
  Crate, Storage, not_plugged, loaded, unplugged, pending_init, check_card, init_storage,
}
use picocalc_wezterm.Storage.Phases.{
  Phase, pending, ready, ◌⟶◌, stay, plug, unplug, replug, phase, usable, check_card-⟶,
  check_card-ready,
}
use picocalc_wezterm.Storage.HotPlug.{report, start_storage, hot_plug}

⟶-pending : {p q : Phase} → p ⟶ q → p ≢ pending → q ≢ pending
⟶-pending stay h = h
⟶-pending plug h = λ e. cc
⟶-pending unplug h = λ e. cc
⟶-pending replug h = λ e. cc

module _ (sd : Crate) (open_volume : Crate.VolMgr sd → ℕ → Bool) where
  abbrev pub IsSetUp : Storage sd → Type 0
  IsSetUp s = phase sd s ≢ pending

  check_card-IsSetUp :
      (present : Bool) (s : Storage sd) → IsSetUp s → Ensures IsSetUp (check_card sd present s)
  check_card-IsSetUp present s h =
      Ensures-map (λ t. phase sd s ⟶ phase sd t) IsSetUp (check_card sd present s)
        (λ t step. ⟶-pending step h) (check_card-⟶ sd present s)

  report-IsSetUp : (s : Storage sd) → IsSetUp s → IsSetUp (report sd open_volume s).0
  unfolding report
  report-IsSetUp pending_init h = h
  report-IsSetUp (not_plugged card) h = h
  report-IsSetUp (loaded v) h = h
  report-IsSetUp (unplugged v) h = h

  hot_plug-IsSetUp :
      (edges : List Bool) (s : Storage sd) → IsSetUp s → Ensures IsSetUp (hot_plug sd s edges)
  unfolding hot_plug
  hot_plug-IsSetUp [] s h = h
  hot_plug-IsSetUp (present ∷ edges) s h =
      Ensures-bind IsSetUp IsSetUp (check_card sd present s) _ (check_card-IsSetUp present s h)
        λ s' h'. hot_plug-IsSetUp edges s' h'

  pub start_storage-IsSetUp :
      (present : Bool) (card : sd.CardType)
      → Ensures (λ r. IsSetUp r.0) (start_storage sd open_volume present card)
  unfolding start_storage init_storage
  start_storage-IsSetUp present card =
      Ensures-bind IsSetUp (λ r. IsSetUp r.0) (check_card sd present (not_plugged card)) _
        (check_card-IsSetUp present (not_plugged card) λ e. cc) λ s h. report-IsSetUp s h

  -- After the start of the storage and any edges of the detect pin, each of them checked without a
  -- panic, one more check returns, and the card can be used then exactly when it is present and
  -- answers with its size.
  pub hot_plug-ready :
      (first : Bool) (card : sd.CardType) (edges : List Bool) (last : Bool)
      → Ensures
          (λ s.
            Ensures (λ t. (phase sd t ≡ ready) ↔ (usable sd last s ≡ true)) (check_card sd last s))
          (start_storage sd open_volume first card >>= λ (s, printed). hot_plug sd s edges)
  hot_plug-ready first card edges last =
      Ensures-bind (λ r. IsSetUp r.0) _ (start_storage sd open_volume first card) _
        (start_storage-IsSetUp first card)
        λ (s, printed) h.
          Ensures-map IsSetUp _ (hot_plug sd s edges) (λ t h'. check_card-ready sd last t h')
            (hot_plug-IsSetUp edges s h)
