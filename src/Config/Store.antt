-- ===== src/Config/Store.antt =====
-- src/config.rs: `Configuration` and `config_command`; and the strings of bounded size of
-- src/fixed_str.rs. The map in the flash is that of the crate `sequential-storage`, a parameter.
use picocalc_wezterm.Prelude.{
  ℕ, Option, none, some, List, [], ◌∷◌, ◌++◌, Outcome, ok, panicked, ◌>>=◌, length, ltb, leb,
  if◌then◌else◌, ◌+◌, ◌-◌, ◌*◌,
}
use picocalc_wezterm.Prelude.Text.{Text, codes, text_eq}
use picocalc_wezterm.Process.Editor.{byte_len}

pub data Result {ℓ} (E A : Type ℓ) : Type ℓ where
  done : A → Result E A
  err : E → Result E A

-- `FixedString::with_str`: a string of at most `size` bytes.
unfoldable pub with_str : ℕ → Text → Option Text
with_str size s = if leb (byte_len s) size then some s else none

abbrev pub key_size : ℕ
key_size = 32

abbrev pub value_size : ℕ
value_size = 128

-- Two sectors at the end of the flash.
abbrev pub erase_size : ℕ
erase_size = 4096

abbrev pub pico2_flash_size : ℕ
pico2_flash_size = 4 * 1024 * 1024

abbrev pub config_size : ℕ
config_size = erase_size * 2

abbrev pub config_base : ℕ
config_base = pico2_flash_size - config_size

-- The functions of the crate on a range of the flash, from its first address to its end.
pub record MapStorage : Type 1 where
  pub Flash : Type 0
  pub Error : Type 0
  pub item_too_big : Error
  pub fetch_item : Flash → ℕ → ℕ → Text → Flash × Result Error (Option Text)
  pub remove_item : Flash → ℕ → ℕ → Text → Flash × Result Error (Unit {0})
  pub store_item : Flash → ℕ → ℕ → Text → Text → Flash × Result Error (Unit {0})
  pub erase_all : Flash → ℕ → ℕ → Flash × Result Error (Unit {0})
  -- What the iterator returns, up to its end or an error.
  pub fetch_all_items : Flash → ℕ → ℕ → Flash × Result Error (List (Text × Text) × Option Error)

-- A `FnvIndexMap`, as the list of its entries.
abbrev pub lookup : Text → List (Text × Text) → Option Text
lookup k [] = none
lookup k ((j, v) ∷ rest) = if text_eq k j then some v else lookup k rest

abbrev pub overwrite : Text → Text → List (Text × Text) → List (Text × Text)
overwrite k v [] = []
overwrite k v ((j, w) ∷ rest) = if text_eq k j then (j, v) ∷ rest else (j, w) ∷ overwrite k v rest

abbrev pub map_capacity : ℕ
map_capacity = 32

-- `insert`: none where the key is new and the map is full.
unfoldable pub map_insert : List (Text × Text) → Text → Text → Option (List (Text × Text))
map_insert m k v = elim (lookup k m) [
  | some old ↦ some (overwrite k v m)
  | none ↦ if ltb (length m) map_capacity then some (m ++ ((k, v) ∷ [])) else none
]

-- The loop of `get_all`: what does not fit is printed and left out.
unfoldable pub insert_all : List (Text × Text) → List (Text × Text) → List (Text × Text)
unfolding map_insert
insert_all m [] = m
insert_all m ((k, v) ∷ rest) = elim (map_insert m k v) [
  | some m' ↦ insert_all m' rest
  | none ↦ insert_all m rest
]

module _ (ms : MapStorage) where
  open ms use {
    Flash, Error, item_too_big, fetch_item, remove_item, store_item, erase_all, fetch_all_items,
  }

  pub record Configuration : Type 0 where
    pub flash : Option Flash

  abbrev pub Reply : Type 0 → Type 0
  Reply A = Outcome (Configuration × Result Error A)

  abbrev pub assign_flash : Configuration → Flash → Configuration
  assign_flash c flash = record { flash = some flash }

  -- `try_into` for a `StrKey`.
  unfoldable pub str_key : Text → Result Error Text
  unfolding with_str
  str_key s = elim (with_str key_size s) [ some k ↦ done k | none ↦ err item_too_big ]

  unfoldable pub str_value : Text → Result Error Text
  unfolding with_str
  str_value s = elim (with_str value_size s) [ some v ↦ done v | none ↦ err item_too_big ]

  abbrev pub keep : {A : Type 0} → Flash × Result Error A → Reply A
  keep (flash, r) = ok (record { flash = some flash }, r)

  -- The arms that need the flash. Without one they are `todo!()`.
  abbrev pub with_flash : {A : Type 0} → Configuration → (Flash → Reply A) → Reply A
  with_flash c f = elim c.flash [ some flash ↦ f flash | none ↦ panicked ]

  abbrev pub with_key :
      {A : Type 0} → Configuration → Text → (Flash → Text → Flash × Result Error A) → Reply A
  with_key c key f =
      with_flash c λ flash. elim (str_key key) [ done k ↦ keep (f flash k) | err e ↦ ok (c, err e) ]

  unfoldable pub fetch : Configuration → Text → Reply (Option Text)
  unfolding str_key
  fetch c key = with_key c key λ flash k. fetch_item flash config_base (config_base + config_size) k

  unfoldable pub remove : Configuration → Text → Reply (Unit {0})
  unfolding str_key
  remove c key =
      with_key c key λ flash k. remove_item flash config_base (config_base + config_size) k

  unfoldable pub store : Configuration → Text → Text → Reply (Unit {0})
  unfolding str_key
  store c key value =
      with_key c key λ flash k. store_item flash config_base (config_base + config_size) k value

  unfoldable pub format : Configuration → Reply (Unit {0})
  format c = with_flash c λ flash. keep (erase_all flash config_base (config_base + config_size))

  abbrev pub collect :
      Result Error (List (Text × Text) × Option Error) → Result Error (List (Text × Text))
  collect (err e) = err e
  collect (done (items, some e)) = err e
  collect (done (items, none)) = done (insert_all [] items)

  unfoldable pub get_all : Configuration → Reply (List (Text × Text))
  unfolding insert_all
  get_all c = with_flash c λ flash.
      let (flash', r) = fetch_all_items flash config_base (config_base + config_size) in
      keep (flash', collect r)

  -- What the command prints: a result as it is, the entries of a map, the error of a value, `OK`,
  -- or that the arguments are invalid.
  pub data Printed : Type 0 where
    result : Result Error (Unit {0}) → Printed
    entries : Result Error (List (Text × Text)) → Printed
    fetched : Result Error (Option Text) → Printed
    value_error : Error → Printed
    stored : Result Error (Unit {0}) → Printed
    invalid_arguments : Printed

  abbrev print_as :
      {A : Type 0} → (Result Error A → Printed) → Reply A → Outcome (Configuration × Printed)
  print_as f reply = reply >>= λ (c, r). ok (c, f r)

  abbrev store_checked :
      Configuration → Text → Result Error Text → Outcome (Configuration × Printed)
  store_checked c key (done value) = print_as stored (store c key value)
  store_checked c key (err e) = ok (c, value_error e)

  -- The arms of the `match` on the arguments behind `config`.
  unfoldable pub config_arguments : Configuration → List Text → Outcome (Configuration × Printed)
  unfolding str_value
  config_arguments c (word ∷ []) =
      if text_eq word (codes "format")
      then print_as result (format c)
      else if text_eq word (codes "list")
      then print_as entries (get_all c)
      else ok (c, invalid_arguments)
  config_arguments c (word ∷ key ∷ []) =
      if text_eq word (codes "get")
      then print_as fetched (fetch c key)
      else if text_eq word (codes "rm")
      then print_as result (remove c key)
      else ok (c, invalid_arguments)
  config_arguments c (word ∷ key ∷ value ∷ []) =
      if text_eq word (codes "set")
      then store_checked c key (str_value value)
      else ok (c, invalid_arguments)
  config_arguments c args = ok (c, invalid_arguments)

  unfoldable pub config_command : Configuration → List Text → Outcome (Configuration × Printed)
  unfolding config_arguments
  config_command c [] = ok (c, invalid_arguments)
  config_command c (word ∷ args) =
      if text_eq word (codes "config") then config_arguments c args else ok (c, invalid_arguments)
