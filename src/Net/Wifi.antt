-- ===== src/Net/Wifi.antt =====
-- src/net.rs: `setup_wifi`, between the start of the driver and the wait for an address: which
-- network is joined, and what is printed of it. The driver's `join` is a parameter.
use picocalc_wezterm.Prelude.{ℕ, Option, none, some, List, [], ◌∷◌, Outcome, ok, ◌>>=◌}
use picocalc_wezterm.Prelude.Text.{Text, codes}
use picocalc_wezterm.Config.Store.{Result, done, MapStorage, Configuration, fetch}

-- What is printed: the name of a network, the status of a join that failed, or that the network is
-- not set.
pub data Notice : Type 0 where
  connecting : Text → Notice
  failed_with : ℕ → Notice
  not_set : Notice

abbrev pub failure : Option ℕ → List Notice
failure none = []
failure (some status) = failed_with status ∷ []

-- The network that is joined, with its password, and the notices. `join` returns the status of a
-- failure.
abbrev pub join_configured :
    {E : Type 0}
    → (Text → Text → Option ℕ)
    → Result E (Option Text)
    → Result E (Option Text)
    → Option (Text × Text) × List Notice
join_configured join (done (some [])) (done (some pw)) = (none, [])
join_configured join (done (some (c ∷ ssid))) (done (some pw)) =
    (some (c ∷ ssid, pw), connecting (c ∷ ssid) ∷ failure (join (c ∷ ssid) pw))
join_configured join _ _ = (none, not_set ∷ [])

module _ (ms : MapStorage) where
  unfoldable pub setup_wifi :
      (Text → Text → Option ℕ)
      → Configuration ms
      → Outcome (Configuration ms × (Option (Text × Text) × List Notice))
  setup_wifi join c = fetch ms c (codes "wifi_ssid") >>= λ (c1, ssid).
      fetch ms c1 (codes "wifi_pw") >>= λ (c2, wifi_pw). ok (c2, join_configured join ssid wifi_pw)
