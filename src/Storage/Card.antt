-- ===== src/Storage/Card.antt =====
-- src/storage.rs: `Storage`, `check_card` and the start of `init_storage`. The card and the volume
-- manager belong to the embedded-sdmmc crate: a parameter.
use picocalc_wezterm.Prelude.{
  ℕ, Bool, true, false, Option, none, some, Outcome, ok, panicked, ◌>>=◌,
}

-- What the code calls of the crate. A size is `num_bytes` without its error.
pub record Crate : Type 1 where
  pub CardType : Type 0
  pub VolMgr : Type 0
  pub mark_card_uninit : CardType → CardType
  pub num_bytes : CardType → Option ℕ × CardType
  pub set_spi_config : CardType → CardType
  pub new_mgr : CardType → VolMgr
  pub device : VolMgr → CardType
  pub with_device : VolMgr → CardType → VolMgr

module _ (sd : Crate) where
  open sd use {
    CardType, VolMgr, mark_card_uninit, num_bytes, set_spi_config, new_mgr, device, with_device,
  }

  pub data Storage : Type 0 where
    pending_init : Storage
    not_plugged : CardType → Storage
    loaded : VolMgr → Storage
    unplugged : VolMgr → Storage

  -- `vol_mgr`
  unfoldable pub vol_mgr : Storage → Option VolMgr
  vol_mgr (loaded v) = some v
  vol_mgr s = none

  -- `take_sdcard`: any other state is unreachable.
  unfoldable pub take_sdcard : Storage → Outcome (CardType × Storage)
  take_sdcard (not_plugged card) = ok (card, pending_init)
  take_sdcard s = panicked

  -- The `match` of `check_card` on a manager that was taken out of the storage.
  unfoldable pub check_mgr : Bool → VolMgr → Storage
  check_mgr false v = unplugged (with_device v (mark_card_uninit (device v)))
  check_mgr true v = elim ((num_bytes (device v)).0) [
    | some size ↦ loaded (with_device v (num_bytes (device v)).1)
    | none ↦ unplugged (with_device v (num_bytes (device v)).1)
  ]

  unfoldable pub init_card : CardType → Outcome Storage
  init_card card = elim ((num_bytes card).0) [
    | none ↦ ok (not_plugged (num_bytes card).1)
    | some size ↦ take_sdcard (not_plugged (set_spi_config (num_bytes card).1)) >>= λ (card', s).
        ok (loaded (new_mgr card'))
  ]

  -- The argument tells whether the detect pin is low.
  unfoldable pub check_card : Bool → Storage → Outcome Storage
  check_card present pending_init = ok pending_init
  check_card false (not_plugged card) = ok (not_plugged (mark_card_uninit card))
  check_card true (not_plugged card) = init_card card
  check_card present (loaded v) = ok (check_mgr present v)
  check_card present (unplugged v) = ok (check_mgr present v)

  -- `init_storage`: the first check.
  unfoldable pub init_storage : Bool → CardType → Outcome Storage
  init_storage present card = check_card present (not_plugged card)
