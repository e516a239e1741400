-- ===== src/Psram/RoundTrip.antt =====
-- src/psram.rs: what the chunked transfers do to the memory as a whole.
use picocalc_wezterm.Prelude.{
  ℕ, zero, suc, ◌+◌, ◌-◌, ◌*◌, ◌%◌, ◌^◌, ◌≤◌, ◌<◌, ◌≡◌, refl, ap, sym, ◌∙◌, List, [], ◌∷◌, ◌++◌,
  ◌⊎◌, Ensures, Ensures-bind, Ensures-map, ◌>>=◌, arith, length, length-take, length-drop,
  length-append, take, drop, get_or, min, max,
}
use mathlib.Core.Path.{ap₂}
use mathlib.Core.List.{append_assoc}
use picocalc_wezterm.Psram.Device.{Chip, window, overlay}
use picocalc_wezterm.Psram.Transfer.{
  write_command, read_command, write_loop, write, read_loop, read,
}

get_or-take : (k : ℕ) (xs : List ℕ) (i : ℕ) → i < k → get_or (take k xs) i 0 ≡ get_or xs i 0
get_or-take zero xs i h = absurd (omega arith)
get_or-take (suc k) [] i h = refl
get_or-take (suc k) (x ∷ xs) zero h = refl
get_or-take (suc k) (x ∷ xs) (suc i) h = get_or-take k xs i (omega arith)

get_or-drop : (k : ℕ) (xs : List ℕ) (i : ℕ) → get_or (drop k xs) i 0 ≡ get_or xs (k + i) 0
get_or-drop zero xs i = let e : i ≡ zero + i = omega arith in ap (λ j. get_or xs j 0) e
get_or-drop (suc k) [] i = refl
get_or-drop (suc k) (x ∷ xs) i =
    let e : suc (k + i) ≡ suc k + i = omega arith in
    get_or-drop k xs i ∙ ap (λ j. get_or (x ∷ xs) j 0) e

-- A write in two parts is the write of the whole.
overlay-overlay :
    (mem : ℕ → ℕ) (a k : ℕ) (bytes : List ℕ) (x : ℕ)
    → k ≤ length bytes
    → overlay (overlay mem a (take k bytes)) (a + k) (drop k bytes) x ≡ overlay mem a bytes x
unfolding overlay
overlay-overlay mem a k bytes x h = ground (
  arith,
  length-take k bytes,
  length-drop k bytes,
  get_or-take k bytes (x - a),
  get_or-drop k bytes (x - (a + k)),
  ap (λ j. get_or bytes j 0) at_x,
)
  where
    at_x : k + (x - (a + k)) ≡ max k (x - a)
    at_x = omega arith

overlay-nil : (mem : ℕ → ℕ) (a x : ℕ) → mem x ≡ overlay mem a [] x
unfolding overlay
overlay-nil mem a x = ground arith

overlay_cong :
    (mem mem' : ℕ → ℕ) (a : ℕ) (bytes : List ℕ) (x : ℕ)
    → mem x ≡ mem' x
    → overlay mem a bytes x ≡ overlay mem' a bytes x
unfolding overlay
overlay_cong mem mem' a bytes x h = ground arith

window_cong :
    (mem mem' : ℕ → ℕ) (a n : ℕ) → ((x : ℕ) → mem x ≡ mem' x) → window mem a n ≡ window mem' a n
window_cong mem mem' a zero h = refl
window_cong mem mem' a (suc n) h = ap₂ ◌∷◌ (h a) (window_cong mem mem' (a + 1) n h)

window-append :
    (mem : ℕ → ℕ) (a k n : ℕ) → window mem a k ++ window mem (a + k) n ≡ window mem a (k + n)
window-append mem a zero n =
    let e : a + zero ≡ a = omega arith in let f : zero + n ≡ n = omega arith in rw (e, f)
window-append mem a (suc k) n =
    let e : a + suc k ≡ a + 1 + k = omega arith in
    let f : suc k + n ≡ suc (k + n) = omega arith in
    rw (e, f) (ap (mem a ∷◌) (window-append mem (a + 1) k n))

get_or-append : (pre bytes : List ℕ) (b : ℕ) → get_or (pre ++ (b ∷ bytes)) (length pre) 0 ≡ b
get_or-append [] bytes b = refl
get_or-append (x ∷ pre) bytes b = get_or-append pre bytes b

overlay-append :
    (mem : ℕ → ℕ) (bytes pre : List ℕ) (a b : ℕ)
    → overlay mem a (pre ++ (b ∷ bytes)) (a + length pre) ≡ b
unfolding overlay
overlay-append mem bytes pre a b =
    let i : a + length pre - a ≡ length pre = omega arith in
    ground (
      arith,
      length-append pre (b ∷ bytes),
      get_or-append pre bytes b,
      ap (λ j. get_or (pre ++ (b ∷ bytes)) j 0) i,
    )

-- The written bytes are read back.
window-overlay_from :
    (mem : ℕ → ℕ) (bytes pre : List ℕ) (a : ℕ)
    → window (overlay mem a (pre ++ bytes)) (a + length pre) (length bytes) ≡ bytes
window-overlay_from mem [] pre a = refl
window-overlay_from mem (b ∷ bytes) pre a =
    let regroup : (pre ++ (b ∷ [])) ++ bytes ≡ pre ++ (b ∷ bytes) =
      append_assoc pre (b ∷ []) bytes in
    let next : a + length (pre ++ (b ∷ [])) ≡ a + length pre + 1 =
      omega (arith, length-append pre (b ∷ [])) in
    let tail = window-overlay_from mem bytes (pre ++ (b ∷ [])) a in
    ap₂ ◌∷◌ (overlay-append mem bytes pre a b) (rw (regroup, next) at tail)

pub window-overlay :
    (mem : ℕ → ℕ) (a : ℕ) (bytes : List ℕ) → window (overlay mem a bytes) a (length bytes) ≡ bytes
window-overlay mem a bytes =
    let e : a + 0 ≡ a = omega arith in rw e at (window-overlay_from mem bytes [] a)

module _ (c : Chip) where
  open c use {State, cell, send, write_law, read_law, read_keeps}

  -- One round of `write`: the bytes of the command are those of the datasheet.
  send-write :
      (s : State) (a n : ℕ) (chunk : List ℕ) (x : ℕ)
      → n ≡ length chunk
      → a + length chunk ≤ c.capacity
      → length chunk ≤ 24
      → cell (send s (write_command a n chunk) 0).0 x ≡ overlay (cell s) a chunk x
  send-write s a n chunk x size h k =
      let e : (32 + n % 256 * 8 % 256) % 256 ≡ 32 + length chunk * 8 = omega arith in
      rw e (write_law s a chunk h k x)

  pub write_loop-overlay :
      (fuel : ℕ) (s : State) (a : ℕ) (bytes : List ℕ)
      → length bytes ≤ fuel
      → a + length bytes ≤ c.capacity
      → Ensures (λ t. (x : ℕ) → cell t x ≡ overlay (cell s) a bytes x) (write_loop c fuel s a bytes)
  unfolding write_loop
  write_loop-overlay fuel s a [] h k = λ x. overlay-nil (cell s) a x
  write_loop-overlay zero s a (b ∷ bytes) h k = absurd (omega arith)
  write_loop-overlay (suc fuel) s a (b ∷ bytes) h k =
      let all = b ∷ bytes in
      let n = min (length all) 24 in
      let chunk = take n all in
      let size : length chunk ≡ n = omega (arith, length-take n all) in
      let s' = (send s (write_command a n chunk) 0).0 in
      let next : (a + n) % 2 ^ 32 ≡ a + n = omega arith in
      let q : ℕ = (a + n) % 2 ^ 32 in
      let rest = drop n all in
      Ensures-map _ _ (write_loop c fuel s' q rest)
        (λ t h x.
          h x
          ∙ ap (λ i. overlay (cell s') i rest x) next
          ∙ overlay_cong _ _ (a + n) rest x
              (send-write s a n chunk x (sym size) (omega arith) (omega arith))
          ∙ overlay-overlay (cell s) a n all x (omega arith))
        (write_loop-overlay fuel s' q rest (omega (arith, length-drop n all))
          (omega (arith, length-drop n all)))

  -- `read` returns the bytes from its address on, and leaves the memory.
  pub read_loop-window :
      (fuel : ℕ) (s : State) (a n : ℕ)
      → n ≤ fuel
      → a + n ≤ c.capacity
      → Ensures (λ (t : State × List ℕ). t.1 ≡ window (cell s) a n) (read_loop c fuel s a n)
  unfolding read_loop
  read_loop-window fuel s a zero h k = refl
  read_loop-window zero s a (suc n) h k = absurd (omega arith)
  read_loop-window (suc fuel) s a (suc n) h k =
      let m = min (suc n) 4 in
      let bits : m % 256 * 8 % 256 ≡ m * 8 = omega arith in
      let next : (a + m) % 2 ^ 32 ≡ a + m = omega arith in
      let s' = (send s (read_command a m) m).0 in
      let first : (send s (read_command a m) m).1 ≡ window (cell s) a m =
        rw bits (read_law s a m (omega arith) (omega arith)) in
      let kept : (x : ℕ) → cell s' x ≡ cell s x = λ x. rw bits (read_keeps s a m x) in
      let total : m + (suc n - m) ≡ suc n = omega arith in
      rw next (
        Ensures-bind (λ (t : State × List ℕ). t.1 ≡ window (cell s') (a + m) (suc n - m)) _
          (read_loop c fuel s' (a + m) (suc n - m)) _
          (read_loop-window fuel s' (a + m) (suc n - m) (omega arith) (omega arith))
          λ t e.
            ap₂ ◌++◌ first (e ∙ window_cong _ _ (a + m) (suc n - m) kept)
            ∙ window-append (cell s) a m (suc n - m)
            ∙ ap (window (cell s) a) total)

  -- On a chip with a capacity of 8 MB to 16 MB, and for bytes that end at or below it, a write and
  -- then a read of as many bytes at the same address both return, and the read gives the bytes that
  -- were written.
  pub read-write :
      (s : State) (a : ℕ) (bytes : List ℕ)
      → a + length bytes ≤ c.capacity
      → Ensures
          (λ (t : State × List ℕ). t.1 ≡ bytes)
          (write c s a bytes >>= λ t. read c t a (length bytes))
  unfolding write read
  read-write s a bytes h =
      Ensures-bind (λ t. (x : ℕ) → cell t x ≡ overlay (cell s) a bytes x)
        (λ (t : State × List ℕ). t.1 ≡ bytes) (write_loop c (length bytes) s a bytes) _
        (write_loop-overlay (length bytes) s a bytes (omega arith) h)
        λ t w.
          Ensures-map _ _ (read_loop c (length bytes) t a (length bytes))
            (λ u e. e ∙ window_cong _ _ a (length bytes) w ∙ window-overlay (cell s) a bytes)
            (read_loop-window (length bytes) t a (length bytes) (omega arith) h)

  -- A write of bytes that end at or below the capacity returns, and leaves each byte outside its range as
  -- it was.
  write-elsewhere :
      (s : State) (a : ℕ) (bytes : List ℕ) (x : ℕ)
      → a + length bytes ≤ c.capacity
      → (x < a) ⊎ (a + length bytes ≤ x)
      → Ensures (λ t. cell t x ≡ cell s x) (write c s a bytes)
  unfolding write
  write-elsewhere s a bytes x h out =
      Ensures-map _ _ (write_loop c (length bytes) s a bytes) (λ t w. w x ∙ outside)
        (write_loop-overlay (length bytes) s a bytes (omega arith) h)
    where
      outside : overlay (cell s) a bytes x ≡ cell s x
      outside = unfold overlay in ground arith
