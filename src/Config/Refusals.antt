-- ===== src/Config/Refusals.antt =====
-- src/config.rs and src/fixed_str.rs: what the config command refuses.
use picocalc_wezterm.Prelude.{
  ◌≤◌, ◌<◌, ◌≡◌, refl, ap, ◌∙◌, true, false, ◌∷◌, ◌++◌, arith, leb, Ensures, ok,
}
use picocalc_wezterm.Prelude.Text.{Text, codes}
use picocalc_wezterm.Process.Editor.{byte_len}
use picocalc_wezterm.Process.Shell.{dispatch_command, split, Command, find_command}
use picocalc_wezterm.Process.ShellLaws.{split_cons, split-word, IsWord}
use picocalc_wezterm.Config.Store.{
  err, with_str, key_size, value_size, MapStorage, Configuration, config_command, config_arguments,
  fetch, store, remove, str_key, str_value, stored, fetched, result, value_error, invalid_arguments,
}
use picocalc_wezterm.Config.StoreLaws.{
  assigned, set_args, get_args, rm_args, str_value-fits, str_value-long,
}

module _ (ms : MapStorage) where
  -- For a key of more than 32 bytes, `get`, `rm` and a `set` of a value of at most 128 bytes report
  -- an item that is too big, and the store is not touched; for a value of more than 128 bytes,
  -- `set` reports the same and nothing changes.
  pub too_long_refused :
      (f : ms.Flash) (c : Configuration ms) (key value long : Text)
      → key_size < byte_len key
      → byte_len value ≤ value_size
      → value_size < byte_len long
      → (config_command ms (assigned ms f) (get_args key)
          ≡ ok (assigned ms f, fetched (err ms.item_too_big)))
        × (config_command ms (assigned ms f) (rm_args key)
            ≡ ok (assigned ms f, result (err ms.item_too_big)))
        × (config_command ms (assigned ms f) (set_args key value)
            ≡ ok (assigned ms f, stored (err ms.item_too_big)))
        × (config_command ms c (set_args key long) ≡ ok (c, value_error ms.item_too_big))
  unfolding config_command config_arguments store remove fetch str_key str_value with_str
  too_long_refused f c key value long hk hv hl =
      let no_key : leb (byte_len key) key_size ≡ false = ground arith in
      let fits : leb (byte_len value) value_size ≡ true = ground arith in
      let no_value : leb (byte_len long) value_size ≡ false = ground arith in
      (
        rw no_key refl,
        rw no_key refl,
        rw (str_value-fits ms value fits, no_key) refl,
        rw (str_value-long ms long no_value) refl,
      )

  -- The line `config set`, a key without a blank, and a value with a blank in it is dispatched to
  -- the config command, which finds its arguments invalid and changes nothing.
  blank_value_refused :
      (c : Configuration ms) (key first rest : Text)
      → IsWord key
      → IsWord first
      → Ensures
          (λ r. (r.0 ≡ Command.config) × (config_command ms c r.1 ≡ ok (c, invalid_arguments)))
          (dispatch_command (codes "config set " ++ (key ++ (b' ' ∷ (first ++ (b' ' ∷ rest))))))
  unfolding config_command config_arguments dispatch_command find_command
  blank_value_refused c key first rest hk hf =
      let (w, ws, e) = split_cons rest in
      let words : split (key ++ (b' ' ∷ (first ++ (b' ' ∷ rest)))) ≡ key ∷ first ∷ w ∷ ws =
        split-word key (first ++ (b' ' ∷ rest)) hk
        ∙ ap (λ x. key ∷ x) (split-word first rest hf ∙ ap (λ x. first ∷ x) e) in
      rw words (refl, refl)
