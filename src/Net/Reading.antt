-- ===== src/Net/Reading.antt =====
-- src/net.rs, `ssh_channel_task`: a reader of UTF-8, as the remote host has one, and what it makes
-- of the bytes of a char.
use picocalc_wezterm.Prelude.{
  ℕ, zero, suc, ◌+◌, ◌*◌, ◌-◌, ◌/◌, ◌<◌, ◌≡◌, refl, ap, ◌∙◌, true, List, [], ◌∷◌, ◌++◌, arith, ltb,
  if◌then◌else◌, inl, inr, Bool-cases,
}
use picocalc_wezterm.Prelude.Text.{Text}
use picocalc_wezterm.Net.Keys.{encode_utf8}

-- How many bytes are still to come for a char, with its bits up to here: first from the leading
-- byte, and then with the six bits of each further one.
unfoldable pub lead : ℕ → ℕ × ℕ
lead b =
    if ltb b 0x80
    then (0, b)
    else if ltb b 0xe0
    then (1, b - 0xc0)
    else if ltb b 0xf0
    then (2, b - 0xe0)
    else (3, b - 0xf0)

unfoldable pub next : ℕ → ℕ → ℕ → ℕ × ℕ
unfolding lead
next zero bits b = lead b
next (suc n) bits b = (n, bits * 64 + (b - 0x80))

unfoldable pub read_on : ℕ × ℕ → Text → Text
read_on (zero, c) rest = c ∷ rest
read_on (suc n, bits) rest = rest

-- The chars of some bytes that are well-formed UTF-8.
unfoldable pub read_from : ℕ → ℕ → List ℕ → Text
unfolding next read_on
read_from n bits [] = []
read_from n bits (b ∷ bytes) = let (m, c) = next n bits b in read_on (m, c) (read_from m c bytes)

abbrev pub chars_read : List ℕ → Text
chars_read bytes = read_from 0 0 bytes

-- Between two chars nothing is left over.
pub read_from-fresh : (a b : ℕ) (bytes : List ℕ) → read_from 0 a bytes ≡ read_from 0 b bytes
unfolding read_from next
read_from-fresh a b [] = refl
read_from-fresh a b (x ∷ bytes) = refl

lead_two : (x : ℕ) → x < 0x20 → lead (0xc0 + x) ≡ (1, x)
unfolding lead
lead_two x h = ground arith

lead_three : (x : ℕ) → x < 0x10 → lead (0xe0 + x) ≡ (2, x)
unfolding lead
lead_three x h = ground arith

lead_four : (x : ℕ) → lead (0xf0 + x) ≡ (3, x)
unfolding lead
lead_four x = ground arith

whole_char : (d c : ℕ) (rest : List ℕ) → d ≡ c → d ∷ read_from 0 d rest ≡ c ∷ chars_read rest
whole_char d c rest e =
    ap (λ x. x ∷ read_from 0 x rest) e ∙ ap (λ t. c ∷ t) (read_from-fresh c 0 rest)

lead_one : (c : ℕ) → ltb c 0x80 ≡ true → lead c ≡ (0, c)
unfolding lead
lead_one c h = ground arith

pub chars_read-encode_utf8 :
    (c : ℕ) (rest : List ℕ)
    → c < 0x110000
    → chars_read (encode_utf8 c ++ rest) ≡ c ∷ chars_read rest
unfolding read_from next read_on encode_utf8
chars_read-encode_utf8 c rest scalar = elim (Bool-cases (ltb c 0x80)) [
  | inl one ↦ rw (one, lead_one c one) (whole_char c c rest refl)
  | inr more ↦ elim (Bool-cases (ltb c 0x800)) [
    | inl two ↦ rw (more, two, lead_two (c / 64) (ground arith)) (whole_char _ c rest (omega arith))
    | inr more' ↦ elim (Bool-cases (ltb c 0x10000)) [
      | inl three ↦
          rw (more, more', three, lead_three (c / 4096) (ground arith))
            (whole_char _ c rest (omega arith))
      | inr four ↦
          rw (more, more', four, lead_four (c / 262144)) (whole_char _ c rest (omega arith))
    ]
  ]
]
