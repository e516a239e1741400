-- ===== src/Net/WifiLaws.antt =====
-- src/net.rs: the network that `setup_wifi` joins is the one in the store.
use picocalc_wezterm.Prelude.{
  ℕ, ◌≡◌, ◌≢◌, refl, ◌∙◌, sym, Option, none, some, List, [], ◌∷◌, ◌⊎◌, inl, inr, Ensures, ◌+◌,
}
use picocalc_wezterm.Prelude.Text.{Text, codes}
use picocalc_wezterm.Process.Editor.{byte_len}
use picocalc_wezterm.Config.Store.{
  Result, done, err, MapStorage, fetch, config_base, config_size, str_key, with_str,
}
use picocalc_wezterm.Config.StoreLaws.{IsMap, assigned}
use picocalc_wezterm.Net.Wifi.{Notice, not_set, join_configured, setup_wifi}

-- The outcome for a name and a password that may be there, or may not be read.
abbrev pub Joins : Option Text → Option Text → Type 0 → Option (Text × Text) × List Notice → Type 0
Joins ssid pw Unread (request, notices) =
    ((s : Text) × (p : Text) × (request ≡ some (s, p)) × (s ≢ []) × (ssid ≡ some s) × (pw ≡ some p))
    ⊎ ((request ≡ none) × (notices ≡ []) × (ssid ≡ some []))
    ⊎ ((request ≡ none) × (notices ≡ not_set ∷ []) × ((ssid ≡ none) ⊎ (pw ≡ none) ⊎ Unread))

-- What was read is what is in the store.
abbrev Read : {E : Type 0} → Option Text → Result E (Option Text) → Type 0
Read {E} v r = ((w : Option Text) → r ≡ done w → w ≡ v)

abbrev IsError : {E : Type 0} → Result E (Option Text) → Type 0
IsError {E} r = (e : E) × (r ≡ err e)

join_configured-Joins :
    {E : Type 0} (join : Text → Text → Option ℕ) (v w : Option Text) (r q : Result E (Option Text))
    → Read v r
    → Read w q
    → Joins v w (IsError r ⊎ IsError q) (join_configured join r q)
join_configured-Joins join v w (err e) q h k = inr (inr (refl, refl, inr (inr (inl (e, refl)))))
join_configured-Joins join v w (done none) q h k = inr (inr (refl, refl, inl (sym (h none refl))))
join_configured-Joins join v w (done (some [])) (err e) h k =
    inr (inr (refl, refl, inr (inr (inr (e, refl)))))
join_configured-Joins join v w (done (some (c ∷ s))) (err e) h k =
    inr (inr (refl, refl, inr (inr (inr (e, refl)))))
join_configured-Joins join v w (done (some [])) (done none) h k =
    inr (inr (refl, refl, inr (inl (sym (k none refl)))))
join_configured-Joins join v w (done (some (c ∷ s))) (done none) h k =
    inr (inr (refl, refl, inr (inl (sym (k none refl)))))
join_configured-Joins join v w (done (some [])) (done (some p)) h k =
    inr (inl (refl, refl, sym (h (some []) refl)))
join_configured-Joins join v w (done (some (c ∷ s))) (done (some p)) h k =
    inl (c ∷ s, p, refl, (λ e. cc), sym (h (some (c ∷ s)) refl), sym (k (some p) refl))

module _ (ms : MapStorage) (l : IsMap ms) where
  abbrev lo : ℕ
  lo = config_base

  abbrev hi : ℕ
  hi = config_base + config_size

  -- One of the two fetches fails.
  abbrev pub FetchFails : ms.Flash → Type 0
  FetchFails f =
      let first = ms.fetch_item f config_base (config_base + config_size) (codes "wifi_ssid") in
      IsError first.1
      ⊎ IsError (ms.fetch_item first.0 config_base (config_base + config_size) (codes "wifi_pw")).1

  -- Over a store that keeps the promises of its documentation, and whose items a fetch does not
  -- change: `setup_wifi` does not panic; it asks to join a network only by the name and with the
  -- password that are stored, the name not empty; it asks for none silently only where the stored
  -- name is empty, and with the notice that they are not set only where one is missing or a fetch
  -- failed.
  pub setup_wifi-Joins :
      (join : Text → Text → Option ℕ) (f : ms.Flash)
      → ((g : ms.Flash) (k j : Text)
          → l.contents
              (ms.fetch_item g config_base (config_base + config_size) k).0
              config_base
              (config_base + config_size)
              j
            ≡ l.contents g config_base (config_base + config_size) j)
      → Ensures
          (λ (c, r).
            Joins
              (l.contents f config_base (config_base + config_size) (codes "wifi_ssid"))
              (l.contents f config_base (config_base + config_size) (codes "wifi_pw"))
              (FetchFails f)
              r)
          (setup_wifi ms join (assigned ms f))
  unfolding setup_wifi fetch str_key with_str byte_len
  setup_wifi-Joins join f keeps =
      let first = ms.fetch_item f lo hi (codes "wifi_ssid") in
      let second = ms.fetch_item first.0 lo hi (codes "wifi_pw") in
      join_configured-Joins join _ _ first.1 second.1
        (λ w e. l.fetched_item f lo hi (codes "wifi_ssid") w e)
        (λ w e.
          l.fetched_item first.0 lo hi (codes "wifi_pw") w e
          ∙ keeps f (codes "wifi_ssid") (codes "wifi_pw"))
