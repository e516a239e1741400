-- ===== src/Net/ChannelLaws.antt =====
-- src/net.rs, `ssh_channel_task`: what the remote host reads of the keys while a session runs.
use picocalc_wezterm.Prelude.{ℕ, ◌<◌, ◌≡◌, true, false, List, [], ◌∷◌, ◌++◌, bit_and}
use picocalc_wezterm.Prelude.Text.{Text, codes}
use picocalc_wezterm.Keyboard.Keys.{Key, KeyReport, only_ctrl, only_alt}
use picocalc_wezterm.Screen.Terminal.{Parser, Screen}
use picocalc_wezterm.Screen.Valid.{IsValid}
use picocalc_wezterm.Net.KeyLaws.{is_letter}
use picocalc_wezterm.Net.Reading.{chars_read}
use picocalc_wezterm.Net.Channel.{ChannelEvent, output, read_error, key_report}

-- A key, and what a terminal sends for it: a char, or an escape sequence.
pub data Plain : Key → Text → Type 0 where
  char : (c : ℕ) → c < 0x110000 → Plain (Key.char c) (c ∷ [])
  enter : Plain Key.enter (10 ∷ [])
  tab : Plain Key.tab (9 ∷ [])
  escape : Plain Key.escape (27 ∷ [])
  back_space : Plain Key.back_space (127 ∷ [])
  up : Plain Key.up (27 ∷ codes "[A")
  down : Plain Key.down (27 ∷ codes "[B")
  right : Plain Key.right (27 ∷ codes "[C")
  left : Plain Key.left (27 ∷ codes "[D")
  home : Plain Key.home (27 ∷ codes "[H")
  end : Plain Key.end (27 ∷ codes "[F")
  page_up : Plain Key.page_up (27 ∷ codes "[5~")
  page_down : Plain Key.page_down (27 ∷ codes "[6~")

-- What a report is to tell the remote host: what stands for the key, which neither Ctrl nor Alt is held
-- with, the same behind an escape where Alt alone is, or the control code of a letter, held with Ctrl
-- alone.
pub data Tells : KeyReport → Text → Type 0 where
  plain :
      (r : KeyReport) (s : Text)
      → r.modifiers.ctrl ≡ false
      → r.modifiers.alt ≡ false
      → Plain r.key s
      → Tells r s
  alt : (r : KeyReport) (s : Text) → only_alt r.modifiers ≡ true → Plain r.key s → Tells r (27 ∷ s)
  control :
      (r : KeyReport) (c : ℕ)
      → only_ctrl r.modifiers ≡ true
      → r.key ≡ Key.char c
      → c < 128
      → is_letter c ≡ true
      → Tells r (bit_and c 0x1f ∷ [])

-- The events of a session up to its end, with what the keys tell. Each write goes through.
pub data Told : List ChannelEvent → Text → Type 0 where
  nothing : Told [] []
  closed : (events : List ChannelEvent) → Told (output [] ∷ events) []
  failed : (err : Text) (events : List ChannelEvent) → Told (read_error err ∷ events) []
  shown :
      (b : ℕ) (bytes : List ℕ) (events : List ChannelEvent) (s : Text)
      → Told events s
      → Told (output (b ∷ bytes) ∷ events) s
  told :
      (r : KeyReport) (s : Text) (events : List ChannelEvent) (s' : Text)
      → Tells r s
      → Told events s'
      → Told (key_report r [] ∷ events) (s ++ s')

abbrev pub joined : List (List ℕ) → List ℕ
joined [] = []
joined (w ∷ ws) = w ++ joined ws

-- Whatever is behind it, the writes are read as the text.
abbrev ReadAs : List (List ℕ) → Text → Type 0
ReadAs ws s =
    (more : List (List ℕ)) → chars_read (joined (ws ++ more)) ≡ s ++ chars_read (joined more)

module _ (p : Parser) where
  -- A valid screen, and a channel that got what is read as the text.
  abbrev pub Heard : Text → Screen p × List (List ℕ) → Type 0
  Heard s (screen, writes) = IsValid screen.model × (chars_read (joined writes) ≡ s)
