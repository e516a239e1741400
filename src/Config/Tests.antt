-- ===== src/Config/Tests.antt =====
-- src/config.rs: the configuration in a flash that keeps its items in a list.
use picocalc_wezterm.Prelude.{
  ◌≡◌, refl, Option, none, some, List, [], ◌∷◌, ◌++◌, length, inl, inr, ◌⊎◌, Bool-cases, arith,
  Ensures, ok, if◌then◌else◌, replicate, ◌≤◌, ap, ◌<◌,
}
use picocalc_wezterm.Prelude.Text.{Text, codes, text_eq, text_eq_refl}
use picocalc_wezterm.Config.Store.{
  key_size, value_size, Result, done, err, MapStorage, config_command, lookup, map_capacity, stored,
  fetched, result, entries, value_error, store,
}
use picocalc_wezterm.Process.Editor.{byte_len}
use picocalc_wezterm.Config.ListLaws.{last_value}
use picocalc_wezterm.Config.Refusals.{too_long_refused}
use picocalc_wezterm.Config.StoreLaws.{
  IsMap, assigned, Prints, set_args, get_args, rm_args, list_args, get-set, list_entries,
}

abbrev forget : Text → List (Text × Text) → List (Text × Text)
forget k [] = []
forget k ((j, v) ∷ rest) = if text_eq k j then forget k rest else (j, v) ∷ forget k rest

last_value-append :
    (k v : Text) (f : List (Text × Text)) → last_value k (f ++ ((k, v) ∷ [])) ≡ some v
last_value-append k v [] = rw (text_eq_refl k) refl
last_value-append k v ((j, w) ∷ f) = rw (last_value-append k v f) refl

last_value-forget : (k : Text) (f : List (Text × Text)) → last_value k (forget k f) ≡ none
last_value-forget k [] = refl
last_value-forget k ((j, w) ∷ f) = elim (Bool-cases (text_eq k j)) [
  | inl same ↦ rw same (last_value-forget k f)
  | inr other ↦ rw (other, last_value-forget k f, other) refl
]

abbrev in_memory : MapStorage
in_memory = record {
  Flash = List (Text × Text);
  Error = Text;
  item_too_big = codes "ItemTooBig";
  fetch_item = (λ f a b k. (f, done (last_value k f)));
  remove_item = (λ f a b k. (forget k f, done tt));
  store_item = (λ f a b k v. (f ++ ((k, v) ∷ []), done tt));
  erase_all = (λ f a b. ([], done tt));
  fetch_all_items = (λ f a b. (f, done (f, none)));
}

same_value : (v w : Option Text) → ◌≡◌ {A = Result Text (Option Text)} (done v) (done w) → w ≡ v
same_value v w h = cc

same_items :
    (a b : List (Text × Text))
    → ◌≡◌ {A = Result Text (List (Text × Text) × Option Text)} (done (b, none)) (done (a, none))
    → a ≡ b
same_items a b h = cc

abbrev in_memory-IsMap : IsMap in_memory
in_memory-IsMap = record {
  contents = (λ f a b k. last_value k f);
  fetched_item = (λ f a b k v h. same_value (last_value k f) v h);
  stored_item = (λ f a b k v h. last_value-append k v f);
  removed_item = (λ f a b k h. last_value-forget k f);
  all_items = (λ f a b items k h. ap (last_value k) (same_items items f h));
}

abbrev network : List (Text × Text)
network = (codes "wifi_ssid", codes "attic") ∷ []

stores :
    config_command in_memory
      (assigned in_memory network)
      (set_args (codes "wifi_pw") (codes "hidden"))
    ≡ ok
        (assigned in_memory (network ++ ((codes "wifi_pw", codes "hidden") ∷ [])), stored (done tt))
unfolding config_command store byte_len
stores = refl

get-set_example : Ensures (Prints in_memory (some (codes "hidden"))) (
    config_command in_memory
      (assigned in_memory (network ++ ((codes "wifi_pw", codes "hidden") ∷ [])))
      (get_args (codes "wifi_pw")))
get-set_example =
    get-set in_memory in_memory-IsMap network _ (codes "wifi_pw") (codes "hidden") stores

list_entries_example :
    Ensures
      (λ r.
        (m : List (Text × Text)) × (r.1 ≡ entries (done m))
        × (length m ≤ map_capacity)
        × ((lookup (codes "wifi_ssid") m ≡ some (codes "attic"))
            ⊎ ((lookup (codes "wifi_ssid") m ≡ none) × (length m ≡ map_capacity))))
      (config_command in_memory (assigned in_memory network) list_args)
list_entries_example =
    list_entries in_memory in_memory-IsMap network network (codes "wifi_ssid") refl

abbrev long_key : Text
long_key = replicate 33 b'k'

abbrev long_value : Text
long_value = replicate 129 b'v'

long_key-long : key_size < byte_len long_key
unfolding byte_len
long_key-long = omega arith

short_value : byte_len (codes "v") ≤ value_size
unfolding byte_len
short_value = omega arith

long_value-long : value_size < byte_len long_value
unfolding byte_len
long_value-long = omega arith

too_long_refused_example :
    (config_command in_memory (assigned in_memory network) (get_args long_key)
      ≡ ok (assigned in_memory network, fetched (err (codes "ItemTooBig"))))
    × (config_command in_memory (assigned in_memory network) (rm_args long_key)
        ≡ ok (assigned in_memory network, result (err (codes "ItemTooBig"))))
    × (config_command in_memory (assigned in_memory network) (set_args long_key (codes "v"))
        ≡ ok (assigned in_memory network, stored (err (codes "ItemTooBig"))))
    × (config_command in_memory (assigned in_memory network) (set_args long_key long_value)
        ≡ ok (assigned in_memory network, value_error (codes "ItemTooBig")))
too_long_refused_example =
    too_long_refused in_memory network (assigned in_memory network) long_key (codes "v") long_value
      long_key-long short_value long_value-long
