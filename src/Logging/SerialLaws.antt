-- ===== src/Logging/SerialLaws.antt =====
-- src/logging.rs: what reaches the serial port, and what comes back from it.
use picocalc_wezterm.Prelude.{
  ℕ, ◌+◌, ◌<◌, ◌≤◌, ◌≡◌, refl, sym, ap, ◌∙◌, min, Bool, true, false, some, List, [], ◌∷◌, ◌++◌,
  length, take, drop, ◌==◌, if◌then◌else◌, arith, inl, inr, Bool-cases, length-append, length-drop,
  take-append-drop, length-take, append_assoc, append-nil, subst, take_all, lt_or_ge, ==_iff,
}
use picocalc_wezterm.Logging.Serial.{
  Pipe, push_front, split_inclusive, strip_newline, write_slice, write_chunk, write_chunks,
  write_str, uart_reports,
}

-- A text with a carriage return before each newline.
abbrev pub with_crlf : List ℕ → List ℕ
with_crlf [] = []
with_crlf (c ∷ cs) = if c == 10 then 13 ∷ 10 ∷ with_crlf cs else c ∷ with_crlf cs

-- What one chunk becomes.
abbrev chunk_text : List ℕ → List ℕ
chunk_text chunk = (strip_newline chunk).0 ++ (if (strip_newline chunk).1 then 13 ∷ 10 ∷ [] else [])

abbrev chunks_text : List (List ℕ) → List ℕ
chunks_text [] = []
chunks_text (k ∷ ks) = chunk_text k ++ chunks_text ks

chunk_text-cons : (c : ℕ) (k : List ℕ) → (c == 10) ≡ false → chunk_text (c ∷ k) ≡ c ∷ chunk_text k
unfolding strip_newline
chunk_text-cons c [] h = rw h
chunk_text-cons c (d ∷ k) h = refl

chunks_text-push :
    (c : ℕ) (ks : List (List ℕ))
    → (c == 10) ≡ false
    → chunks_text (push_front c ks) ≡ c ∷ chunks_text ks
unfolding push_front
chunks_text-push c [] h = ap (λ t. t ++ []) (chunk_text-cons c [] h) ∙ unfold strip_newline in refl
chunks_text-push c (k ∷ ks) h = ap (λ t. t ++ chunks_text ks) (chunk_text-cons c k h)

newline_chunk : (d : ℕ) → (d == 10) ≡ true → chunk_text (d ∷ []) ≡ 13 ∷ 10 ∷ []
unfolding strip_newline
newline_chunk d h = rw h

chunks_text-split : (text : List ℕ) → chunks_text (split_inclusive text) ≡ with_crlf text
unfolding split_inclusive
chunks_text-split [] = refl
chunks_text-split (c ∷ cs) = elim (Bool-cases (c == 10)) [
  | inl newline ↦ rw (newline, newline_chunk c newline, chunks_text-split cs)
  | inr other ↦
      rw other
        (chunks_text-push c (split_inclusive cs) other ∙ ap (λ t. c ∷ t) (chunks_text-split cs))
]

module _ (p : Pipe) where
  open p use {State, contents, room, try_write, before_wrap}

  -- From `s` to `t`, exactly `b` was taken.
  abbrev pub Took : State → List ℕ → State → Type 0
  Took s b t = (contents t ≡ contents s ++ b) × (room t + length b ≡ room s)

  pub Took-both : (s t u : State) (b c : List ℕ) → Took s b t → Took t c u → Took s (b ++ c) u
  Took-both s t u b c h k = (
    k.0 ∙ ap (λ x. x ++ c) h.0 ∙ append_assoc (contents s) b c,
    omega (arith, h.1, k.1, length-append b c),
  )

  pub Took-nothing : (s : State) → Took s [] s
  Took-nothing s = (sym (append-nil (contents s)), omega arith)

  -- One attempt takes a prefix.
  try_write-prefix :
      (s : State) (b : List ℕ)
      → 0 < room s
      → Took s (take (min (length b) (before_wrap s)) b) (try_write s b).1
  try_write-prefix s b open_room =
      let (answer, kept, left) = p.takes s b open_room in
      (kept, omega (arith, left, length-take (min (length b) (before_wrap s)) b))

  -- It takes all, where there is room before the wrap.
  try_write-Took :
      (s : State) (b : List ℕ) → 0 < room s → length b ≤ before_wrap s → Took s b (try_write s b).1
  try_write-Took s b open_room fits =
      transp_take (min (length b) (before_wrap s)) (omega arith) (try_write-prefix s b open_room)
    where
      transp_take :
          (n : ℕ) → n ≡ length b → Took s (take n b) (try_write s b).1 → Took s b (try_write s b).1
      transp_take n e h =
          subst (λ x. Took s x (try_write s b).1) (ap (λ m. take m b) e ∙ take_all b) h

  -- The second attempt takes what the first has left.
  second-Took :
      (s : State) (b : List ℕ)
      → 0 < room s
      → length b ≤ room s
      → before_wrap s < length b
      → Took s b (try_write (try_write s b).1 (drop (before_wrap s) b)).1
  second-Took s b open_room fits wraps =
      let s1 = (try_write s b).1 in
      let n = before_wrap s in
      let first : Took s (take n b) s1 =
        subst (λ m. Took s (take m b) s1) (omega arith) (try_write-prefix s b open_room) in
      let left = p.after_wrap s b open_room wraps in
      let size = length-drop n b in
      let taken = length-take n b in
      let second : Took s1 (drop n b) (try_write s1 (drop n b)).1 =
        try_write-Took s1 (drop n b) (omega (arith, first.1)) (omega (arith, first.1)) in
      subst (λ x. Took s x (try_write s1 (drop n b)).1) (take-append-drop n b)
        (Took-both s s1 (try_write s1 (drop n b)).1 (take n b) (drop n b) first second)

  -- An attempt that failed, or that took all, is the only one; another is followed by a second.
  slice_once :
      (s : State) (b : List ℕ) (n : ℕ)
      → (try_write s b).0 ≡ some n
      → length b ≤ n
      → write_slice p s b ≡ (try_write s b).1
  unfolding write_slice
  slice_once s b n answer all = rw (write_slice, answer) (ground arith)

  slice_twice :
      (s : State) (b : List ℕ) (n : ℕ)
      → (try_write s b).0 ≡ some n
      → n < length b
      → write_slice p s b ≡ (try_write (try_write s b).1 (drop n b)).1
  unfolding write_slice
  slice_twice s b n answer short = rw (write_slice, answer) (ground arith)

  slice_full : (s : State) (b : List ℕ) → room s ≡ 0 → write_slice p s b ≡ s
  unfolding write_slice
  slice_full s b e = rw (write_slice, p.full s b e) (ap (λ answer. answer.1) (p.full s b e))

  Took-empty : (s : State) (b : List ℕ) → length b ≤ room s → room s ≤ 0 → Took s b s
  Took-empty s [] fits no_room = Took-nothing s
  Took-empty s (c ∷ b) fits no_room = absurd (omega arith)

  -- Two attempts are enough for what there is room for.
  write_slice-Took : (s : State) (b : List ℕ) → length b ≤ room s → Took s b (write_slice p s b)
  write_slice-Took s b fits = elim (lt_or_ge 0 (room s)) [
    | inr no_room ↦
        subst (Took s b) (sym (slice_full s b (omega arith))) (Took-empty s b fits no_room)
    | inl open_room ↦ elim (lt_or_ge (before_wrap s) (length b)) [
      | inr whole ↦
          subst (Took s b)
            (sym (
              slice_once s b (min (length b) (before_wrap s)) (p.takes s b open_room).0
                (omega arith)))
            (try_write-Took s b open_room whole)
      | inl wraps ↦
          subst (Took s b)
            (sym (
              slice_twice s b (before_wrap s) ((p.takes s b open_room).0 ∙ ap some (omega arith))
                wraps))
            (second-Took s b open_room fits wraps)
    ]
  ]

  write_chunk-Took :
      (s : State) (chunk : List ℕ)
      → length (chunk_text chunk) ≤ room s
      → Took s (chunk_text chunk) (write_chunk p s chunk)
  unfolding write_chunk
  write_chunk-Took s chunk fits = with_end (strip_newline chunk) fits
    where
      with_end :
          (stripped : List ℕ × Bool)
          → length (stripped.0 ++ (if stripped.1 then 13 ∷ 10 ∷ [] else [])) ≤ room s
          → Took s (stripped.0 ++ (if stripped.1 then 13 ∷ 10 ∷ [] else [])) (
              let s1 = write_slice p s stripped.0 in
              if stripped.1 then write_slice p s1 (13 ∷ 10 ∷ []) else s1)
      with_end (line, false) fits' =
          let fits'' = subst (λ x. length x ≤ room s) (append-nil line) fits' in
          subst (λ x. Took s x (write_slice p s line)) (sym (append-nil line))
            (write_slice-Took s line fits'')
      with_end (line, true) fits' =
          let size = length-append line (13 ∷ 10 ∷ []) in
          let first = write_slice-Took s line (omega (arith, size, fits')) in
          Took-both s (write_slice p s line) (write_slice p (write_slice p s line) (13 ∷ 10 ∷ []))
            line (13 ∷ 10 ∷ []) first
            (write_slice-Took (write_slice p s line) (13 ∷ 10 ∷ [])
              (omega (arith, size, fits', first.1)))

  write_chunks-Took :
      (chunks : List (List ℕ)) (s : State)
      → length (chunks_text chunks) ≤ room s
      → Took s (chunks_text chunks) (write_chunks p s chunks)
  unfolding write_chunks
  write_chunks-Took [] s fits = Took-nothing s
  write_chunks-Took (k ∷ ks) s fits =
      let size = length-append (chunk_text k) (chunks_text ks) in
      let s1 = write_chunk p s k in
      let first = write_chunk-Took s k (omega (arith, size, fits)) in
      Took-both s s1 (write_chunks p s1 ks) (chunk_text k) (chunks_text ks) first
        (write_chunks-Took ks s1 (omega (arith, size, fits, first.1)))

  -- Where the pipe has room for it, a text is taken with a carriage return before each newline,
  -- wherever the pipe's buffer wraps.
  pub write_str-Took :
      (s : State) (text : List ℕ)
      → length (with_crlf text) ≤ room s
      → Took s (with_crlf text) (write_str p s text)
  unfolding write_str
  write_str-Took s text fits =
      let same = chunks_text-split text in
      subst (λ x. Took s x (write_chunks p s (split_inclusive text))) same
        (write_chunks-Took (split_inclusive text) s
          (subst (λ x. length x ≤ room s) (sym same) fits))

-- The serial reader makes the same key reports of a text and of that text with a carriage return
-- before each newline, as the writer sends it.
uart_reports-with_crlf : (text : List ℕ) → uart_reports (with_crlf text) ≡ uart_reports text
unfolding uart_reports
uart_reports-with_crlf [] = refl
uart_reports-with_crlf (c ∷ cs) = elim (Bool-cases (c == 10)) [
  | inl newline ↦ rw ((==_iff c 10).0 newline, uart_reports-with_crlf cs)
  | inr other ↦ rw (other, uart_reports, uart_reports-with_crlf cs)
]
