-- ===== src/Config/StoreLaws.antt =====
-- src/config.rs and src/fixed_str.rs: the configuration that is set, removed and listed.
use picocalc_wezterm.Prelude.{
  ℕ, ◌≤◌, ◌+◌, ◌≡◌, refl, ap, ◌∙◌, true, false, Option, none, some, List, [], ◌∷◌, length, inl, inr,
  ◌⊎◌, Bool-cases, arith, leb, Ensures, Outcome, ok, subst,
}
use picocalc_wezterm.Prelude.Text.{Text, codes}
use picocalc_wezterm.Process.Editor.{byte_len}
use picocalc_wezterm.Config.Store.{
  Result, done, err, with_str, key_size, value_size, config_base, config_size, MapStorage,
  Configuration, insert_all, collect, config_command, config_arguments, Printed, lookup,
  map_capacity, fetch, store, remove, get_all, str_key, str_value, stored, fetched, result, entries,
  value_error,
}
use picocalc_wezterm.Config.ListLaws.{Listed, or_else_none, last_value, insert_all_lem}

-- What the documentation of the crate promises: a range of the flash is a map from keys to values,
-- which a fetch reads, and which a store or a removal that succeeds changes at its key. Of the
-- items of a key, the last one is current.
pub record IsMap (ms : MapStorage) : Type 0 where
  pub contents : ms.Flash → ℕ → ℕ → Text → Option Text
  pub fetched_item :
      (f : ms.Flash) (a b : ℕ) (k : Text) (v : Option Text)
      → (ms.fetch_item f a b k).1 ≡ done v
      → v ≡ contents f a b k
  pub stored_item :
      (f : ms.Flash) (a b : ℕ) (k v : Text)
      → (ms.store_item f a b k v).1 ≡ done tt
      → contents (ms.store_item f a b k v).0 a b k ≡ some v
  pub removed_item :
      (f : ms.Flash) (a b : ℕ) (k : Text)
      → (ms.remove_item f a b k).1 ≡ done tt
      → contents (ms.remove_item f a b k).0 a b k ≡ none
  pub all_items :
      (f : ms.Flash) (a b : ℕ) (items : List (Text × Text)) (k : Text)
      → (ms.fetch_all_items f a b).1 ≡ done (items, none)
      → last_value k items ≡ contents f a b k

-- The arguments of the commands.
abbrev pub set_args : Text → Text → List Text
set_args key value = codes "config" ∷ codes "set" ∷ key ∷ value ∷ []

abbrev pub get_args : Text → List Text
get_args key = codes "config" ∷ codes "get" ∷ key ∷ []

abbrev pub rm_args : Text → List Text
rm_args key = codes "config" ∷ codes "rm" ∷ key ∷ []

abbrev pub list_args : List Text
list_args = codes "config" ∷ codes "list" ∷ []

-- The range of the flash.
abbrev lo : ℕ
lo = config_base

abbrev hi : ℕ
hi = config_base + config_size

module _ (ms : MapStorage) where
  abbrev pub assigned : ms.Flash → Configuration ms
  assigned f = record { flash = some f }

  -- The value that `get` prints, or its error.
  abbrev pub Prints : Option Text → Configuration ms × Printed ms → Type 0
  Prints v (c, p) = (p ≡ fetched (done v)) ⊎ ((e : ms.Error) × (p ≡ fetched (err e)))

  abbrev replied : Configuration ms → Printed ms → Outcome (Configuration ms × Printed ms)
  replied c p = ok (c, p)

  pub str_value-fits : (v : Text) → leb (byte_len v) value_size ≡ true → str_value ms v ≡ done v
  unfolding str_value with_str
  str_value-fits v h = rw (str_value, with_str, h) refl

  pub str_value-long :
      (v : Text) → leb (byte_len v) value_size ≡ false → str_value ms v ≡ err ms.item_too_big
  unfolding str_value with_str
  str_value-long v h = rw (str_value, with_str, h) refl

  module _ (l : IsMap ms) where
    get_contents :
        (f : ms.Flash) (key : Text)
        → leb (byte_len key) key_size ≡ true
        → Ensures
            (Prints (l.contents f config_base (config_base + config_size) key))
            (config_command ms (assigned f) (get_args key))
    unfolding config_command config_arguments fetch str_key with_str
    get_contents f key short =
        rw short (printed _ (l.fetched_item f config_base (config_base + config_size) key))
      where
        printed :
            (r : Result ms.Error (Option Text))
            → ((v : Option Text) → r ≡ done v → v ≡ l.contents f lo hi key)
            → Prints (l.contents f lo hi key) (assigned (ms.fetch_item f lo hi key).0, fetched r)
        printed (done v) h = inl (ap (λ x. fetched (done x)) (h v refl))
        printed (err e) h = inr (e, refl)

    -- Over a store that keeps the promises of its documentation: where `config set` reports that a
    -- value was stored, `config get` of the same key then prints this value, or an error of the
    -- store.
    pub get-set :
        (f : ms.Flash) (c : Configuration ms) (key value : Text)
        → config_command ms (assigned f) (set_args key value) ≡ ok (c, stored (done tt))
        → Ensures (Prints (some value)) (config_command ms c (get_args key))
    unfolding config_command config_arguments store str_key str_value with_str
    get-set f c key value h = elim (Bool-cases (leb (byte_len value) value_size)) [
      | inr long ↦ absurd (refused (rw (str_value-long value long) at h))
      | inl fits ↦ elim (Bool-cases (leb (byte_len key) key_size)) [
        | inr long ↦ absurd (failed (rw (str_value-fits value fits, long) at h))
        | inl short ↦ taken short (rw (str_value-fits value fits, short) at h)
      ]
    ]
      where
        refused :
            replied (assigned f) (value_error ms.item_too_big) ≡ replied c (stored (done tt)) → ⊥
        refused e = cc

        failed :
            replied (assigned f) (stored (err ms.item_too_big)) ≡ replied c (stored (done tt)) → ⊥
        failed e = cc

        taken :
            leb (byte_len key) key_size ≡ true
            → replied
                (assigned (ms.store_item f lo hi key value).0)
                (stored (ms.store_item f lo hi key value).1)
              ≡ replied c (stored (done tt))
            → Ensures (Prints (some value)) (config_command ms c (get_args key))
        taken short e =
            let same : assigned (ms.store_item f lo hi key value).0 ≡ c = cc in
            let did : (ms.store_item f lo hi key value).1 ≡ done tt = cc in
            subst (λ d. Ensures (Prints (some value)) (config_command ms d (get_args key))) same
              (subst
                (λ v.
                  Ensures (Prints v) (
                    config_command ms (assigned (ms.store_item f lo hi key value).0)
                      (get_args key)))
                (l.stored_item f lo hi key value did)
                (get_contents (ms.store_item f lo hi key value).0 key short))

    -- A key that was removed has no value: a removal that succeeds, and then a fetch.
    get-rm :
        (f : ms.Flash) (c : Configuration ms) (key : Text)
        → config_command ms (assigned f) (rm_args key) ≡ ok (c, result (done tt))
        → Ensures (Prints none) (config_command ms c (get_args key))
    unfolding config_command config_arguments remove str_key with_str
    get-rm f c key h = elim (Bool-cases (leb (byte_len key) key_size)) [
      | inr long ↦ absurd (failed (rw long at h))
      | inl short ↦ taken short (rw short at h)
    ]
      where
        failed :
            replied (assigned f) (result (err ms.item_too_big)) ≡ replied c (result (done tt)) → ⊥
        failed e = cc

        taken :
            leb (byte_len key) key_size ≡ true
            → replied
                (assigned (ms.remove_item f lo hi key).0)
                (result (ms.remove_item f lo hi key).1)
              ≡ replied c (result (done tt))
            → Ensures (Prints none) (config_command ms c (get_args key))
        taken short e =
            let same : assigned (ms.remove_item f lo hi key).0 ≡ c = cc in
            let did : (ms.remove_item f lo hi key).1 ≡ done tt = cc in
            subst (λ d. Ensures (Prints none) (config_command ms d (get_args key))) same
              (subst
                (λ v.
                  Ensures (Prints v)
                    (config_command ms (assigned (ms.remove_item f lo hi key).0) (get_args key)))
                (l.removed_item f lo hi key did)
                (get_contents (ms.remove_item f lo hi key).0 key short))

    -- Over a store that keeps the promises of its documentation, `config list` of items that are
    -- read without an error has at most 32 entries; each key has its current value among them, or
    -- it is left out and there are 32.
    pub list_entries :
        (f : ms.Flash) (items : List (Text × Text)) (key : Text)
        → (ms.fetch_all_items f config_base (config_base + config_size)).1 ≡ done (items, none)
        → Ensures
            (λ r.
              (m : List (Text × Text)) × (r.1 ≡ entries (done m))
              × (length m ≤ map_capacity)
              × ((lookup key m ≡ l.contents f config_base (config_base + config_size) key)
                  ⊎ ((lookup key m ≡ none) × (length m ≡ map_capacity))))
            (config_command ms (assigned f) list_args)
    unfolding config_command config_arguments get_all
    list_entries f items key h =
        let (listed, more, small) = insert_all_lem [] items key (omega arith) in
        (insert_all [] items, ap (λ r. entries (collect ms r)) h, small, current listed)
      where
        current :
            Listed [] items (insert_all [] items) key
            → (lookup key (insert_all [] items) ≡ l.contents f lo hi key)
              ⊎ ((lookup key (insert_all [] items) ≡ none)
                  × (length (insert_all [] items) ≡ map_capacity))
        current (inr left) = inr left
        current (inl found) =
            inl (found ∙ or_else_none (last_value key items) ∙ l.all_items f lo hi items key h)
