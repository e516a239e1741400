-- ===== src/Net/Channel.antt =====
-- src/net.rs, `ssh_channel_task`: the output of the remote host goes to the screen, and the keys go
-- to the channel.
use picocalc_wezterm.Prelude.{ℕ, Option, none, some, take, List, [], ◌∷◌, ◌++◌, Outcome, ok, ◌>>=◌}
use picocalc_wezterm.Prelude.Text.{Text, codes}
use picocalc_wezterm.Keyboard.Keys.{KeyReport}
use picocalc_wezterm.Screen.Terminal.{Parser, Screen, parse_bytes}
use picocalc_wezterm.Net.Keys.{key_writes}

-- Which of the two futures is ready: the bytes that were read, the text of an error, or a key that
-- the process of the session was given. With a key comes what became of each `write_all` for it:
-- none where it went through, else how many bytes it got through before its error or its timeout,
-- which are only logged. Writes that are not mentioned went through.
pub data ChannelEvent : Type 0 where
  output : List ℕ → ChannelEvent
  read_error : Text → ChannelEvent
  key_report : KeyReport → List (Option ℕ) → ChannelEvent

-- What the channel got of some writes.
unfoldable pub got_through : List (Option ℕ) → List (List ℕ) → List (List ℕ)
got_through outcomes [] = []
got_through [] (w ∷ ws) = w ∷ ws
got_through (none ∷ outcomes) (w ∷ ws) = w ∷ got_through outcomes ws
got_through (some n ∷ outcomes) (w ∷ ws) = take n w ∷ got_through outcomes ws

abbrev pub error_text : Text → List ℕ
error_text err = 0x1b ∷ codes "[1mssh_channel_task: " ++ err ++ codes "\r\n"

module _ (p : Parser) where
  -- The screen, and what the channel got of each write, after some events. No byte is the end of the channel,
  -- after which no event is looked at, nor is one after an error.
  unfoldable pub channel_task : Screen p → List ChannelEvent → Outcome (Screen p × List (List ℕ))
  unfolding got_through
  channel_task s [] = ok (s, [])
  channel_task s (output [] ∷ events) = ok (s, [])
  channel_task s (output (b ∷ bytes) ∷ events) =
      parse_bytes p s (b ∷ bytes) >>= λ t. channel_task t events
  channel_task s (read_error err ∷ events) = parse_bytes p s (error_text err) >>= λ t. ok (t, [])
  channel_task s (key_report k outcomes ∷ events) =
      channel_task s events >>= λ (t, writes). ok (t, got_through outcomes (key_writes k) ++ writes)
