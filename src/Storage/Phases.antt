-- ===== src/Storage/Phases.antt =====
-- src/storage.rs: the states of the slot and the steps between them.
use picocalc_wezterm.Prelude.{
  ℕ, ◌≡◌, ◌≢◌, refl, ◌↔◌, Bool, true, false, Option, none, some, ok, Ensures, ◌&&◌, arith,
}
use picocalc_wezterm.Storage.Card.{
  Crate, Storage, pending_init, not_plugged, loaded, unplugged, take_sdcard, check_mgr, init_card,
  check_card,
}

pub data Phase : Type 0 where
  pending waiting ready gone : Phase

-- The steps that one check may take.
infix 40 ◌⟶◌
pub data ◌⟶◌ : Phase → Phase → Type 0 where
  stay : {p : Phase} → p ⟶ p
  plug : waiting ⟶ ready
  unplug : ready ⟶ gone
  replug : gone ⟶ ready

module _ (sd : Crate) where
  open sd use {
    CardType, VolMgr, num_bytes, device, set_spi_config, new_mgr, mark_card_uninit, with_device,
  }

  abbrev pub phase : Storage sd → Phase
  phase pending_init = pending
  phase (not_plugged card) = waiting
  phase (loaded v) = ready
  phase (unplugged v) = gone

  -- The card that a check would ask for its size.
  abbrev pub card_of : Storage sd → Option CardType
  card_of pending_init = none
  card_of (not_plugged card) = some card
  card_of (loaded v) = some (device v)
  card_of (unplugged v) = some (device v)

  -- The card answers with its size.
  abbrev pub answers : Option CardType → Bool
  answers none = false
  answers (some card) = elim ((num_bytes card).0) [ none ↦ false | some size ↦ true ]

  -- Whether the slot is usable after a check.
  abbrev pub usable : Bool → Storage sd → Bool
  usable present s = present && answers (card_of s)

  -- What `check_mgr` finds: the card is gone, answers, or does not answer.
  mgr-⟶ :
      (p : Phase) (gone_ok : p ⟶ gone) (ready_ok : p ⟶ ready) (present : Bool) (v : VolMgr)
      → p ⟶ phase (check_mgr sd present v)
  unfolding check_mgr
  mgr-⟶ p gone_ok ready_ok false v = gone_ok
  mgr-⟶ p gone_ok ready_ok true v = answered ((num_bytes (device v)).0)
    where
      answered :
          (size : Option ℕ)
          → p
            ⟶ phase (elim size [
              | some n ↦ loaded (with_device v (num_bytes (device v)).1)
              | none ↦ unplugged (with_device v (num_bytes (device v)).1)
            ])
      answered none = gone_ok
      answered (some n) = ready_ok

  -- A check returns, and the slot stays in its state or takes one of three steps: from waiting to
  -- ready, from ready to gone, from gone to ready.
  pub check_card-⟶ :
      (present : Bool) (s : Storage sd) → Ensures (λ t. phase s ⟶ phase t) (check_card sd present s)
  unfolding check_card init_card take_sdcard
  check_card-⟶ present pending_init = stay
  check_card-⟶ false (not_plugged card) = stay
  check_card-⟶ true (not_plugged card) = answered ((num_bytes card).0)
    where
      answered :
          (size : Option ℕ)
          → Ensures
              (λ t. waiting ⟶ phase t)
              (elim size [
                | none ↦ ok (not_plugged (num_bytes card).1)
                | some n ↦ ok (loaded (new_mgr (set_spi_config (num_bytes card).1)))
              ])
      answered none = stay
      answered (some n) = plug
  check_card-⟶ present (loaded v) = mgr-⟶ ready unplug stay present v
  check_card-⟶ present (unplugged v) = mgr-⟶ gone stay replug present v

  mgr_ready :
      (present : Bool) (v : VolMgr)
      → (phase (check_mgr sd present v) ≡ ready) ↔ ((present && answers (some (device v))) ≡ true)
  unfolding check_mgr
  mgr_ready false v = ground arith
  mgr_ready true v = answered ((num_bytes (device v)).0)
    where
      answered :
          (size : Option ℕ)
          → (phase (elim size [
            | some n ↦ loaded (with_device v (num_bytes (device v)).1)
            | none ↦ unplugged (with_device v (num_bytes (device v)).1)
          ])
              ≡ ready)
            ↔ (elim size [ none ↦ false | some n ↦ true ] ≡ true)
      answered none = ground arith
      answered (some n) = ground arith

  -- A check of a slot that was set up returns, and afterwards the card can be used exactly when it
  -- is present and answers with its size.
  pub check_card-ready :
      (present : Bool) (s : Storage sd)
      → phase s ≢ pending
      → Ensures (λ t. (phase t ≡ ready) ↔ (usable present s ≡ true)) (check_card sd present s)
  unfolding check_card init_card take_sdcard
  check_card-ready present pending_init h = absurd (h refl)
  check_card-ready false (not_plugged card) h = ground arith
  check_card-ready true (not_plugged card) h = answered ((num_bytes card).0)
    where
      answered :
          (size : Option ℕ)
          → Ensures
              (λ t. (phase t ≡ ready) ↔ (elim size [ none ↦ false | some n ↦ true ] ≡ true))
              (elim size [
                | none ↦ ok (not_plugged (num_bytes card).1)
                | some n ↦ ok (loaded (new_mgr (set_spi_config (num_bytes card).1)))
              ])
      answered none = ground arith
      answered (some n) = ground arith
  check_card-ready present (loaded v) h = mgr_ready present v
  check_card-ready present (unplugged v) h = mgr_ready present v
