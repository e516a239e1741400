-- ===== src/Net/Tests.antt =====
-- src/net.rs: the laws of the keys at concrete reports.
use picocalc_wezterm.Net.Session.{Session, Event, ticker}
use picocalc_wezterm.Net.SessionLaws.{Allowed, ticker-Allowed}
use picocalc_wezterm.Config.Store.{done, err, Result, MapStorage}
use picocalc_wezterm.Config.StoreLaws.{IsMap, assigned}
use picocalc_wezterm.Process.Editor.{default_editor}
use picocalc_wezterm.Process.Table.{Table, Proc}
use picocalc_wezterm.Net.Connect.{resolved, ssh_session_task}
use picocalc_wezterm.Net.ConnectLaws.{Leaves, ssh_session_task-Leaves}
use picocalc_wezterm.Net.Wifi.{setup_wifi}
use picocalc_wezterm.Net.WifiLaws.{Joins, FetchFails, setup_wifi-Joins}
use picocalc_wezterm.Prelude.Text.{Text, codes, text_eq}
use picocalc_wezterm.Prelude.{
  true, some, none, All, Ensures, Option, ok, ◌≡◌, if◌then◌else◌, refl, ◌∷◌, [], List,
}

-- A user is configured, the password is typed, and each answer is accepted.
abbrev visit : Session Text
visit = record {
  ssh_user = done (some (codes "me"));
  ssh_pw = done none;
  command = none;
  rows = 22;
  cols = 53;
  accepts = (λ a. true);
}

abbrev visit_events : List Event
visit_events =
    Event.hostkey
    ∷ Event.username none
    ∷ Event.password (some (codes "secret"))
    ∷ Event.authenticated
    ∷ Event.session_opened
    ∷ Event.session_exit
    ∷ []

ticker_example : Ensures (λ r. All (Allowed visit visit_events) r.0) (ticker visit visit_events)
ticker_example = ticker-Allowed visit (λ a m. refl) visit_events

abbrev at_shell : Table
at_shell = record { procs = (λ h. Proc.shell default_editor); next = 1; current = 0; output = [] }

ssh_session_task_example : Leaves at_shell (resolved (codes "10.0.0.7" ∷ []) (done tt) (done tt)) (
    ssh_session_task
      (λ u. ok u)
      at_shell
      (codes "host")
      (resolved (codes "10.0.0.7" ∷ []) (done tt) (done tt)))
ssh_session_task_example =
    ssh_session_task-Leaves (λ u. ok u) at_shell (codes "host")
      (resolved (codes "10.0.0.7" ∷ []) (done tt) (done tt)) (λ u. tt)

-- A store of two items that never changes.
abbrev item : Text → Option Text
item k =
    if text_eq k (codes "wifi_ssid")
    then some (codes "attic")
    else if text_eq k (codes "wifi_pw")
    then some (codes "hidden")
    else none

abbrev fixed : MapStorage
fixed = record {
  Flash = Unit;
  Error = Text;
  item_too_big = codes "ItemTooBig";
  fetch_item = (λ f a b k. (f, done (item k)));
  remove_item = (λ f a b k. (f, err (codes "read only")));
  store_item = (λ f a b k v. (f, err (codes "read only")));
  erase_all = (λ f a b. (f, err (codes "read only")));
  fetch_all_items = (λ f a b. (f, err (codes "read only")));
}

same_item : (v w : Option Text) → ◌≡◌ {A = Result Text (Option Text)} (done v) (done w) → w ≡ v
same_item v w h = cc

not_done : {A : Type 0} (e : Text) (a : A) → ◌≡◌ {A = Result Text A} (err e) (done a) → ⊥
not_done e a h = cc

abbrev fixed-IsMap : IsMap fixed
fixed-IsMap = record {
  contents = (λ f a b k. item k);
  fetched_item = (λ f a b k v h. same_item (item k) v h);
  stored_item = (λ f a b k v h. absurd (not_done (codes "read only") tt h));
  removed_item = (λ f a b k h. absurd (not_done (codes "read only") tt h));
  all_items = (λ f a b items k h. absurd (not_done (codes "read only") (items, none) h));
}

setup_wifi_example :
    Ensures
      (λ (c, r).
        Joins (some (codes "attic")) (some (codes "hidden")) (FetchFails fixed fixed-IsMap tt) r)
      (setup_wifi fixed (λ s p. none) (assigned fixed tt))
setup_wifi_example = setup_wifi-Joins fixed fixed-IsMap (λ s p. none) tt (λ g k j. refl)
