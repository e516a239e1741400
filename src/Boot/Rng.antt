-- ===== src/Boot/Rng.antt =====
-- src/rng.rs: the cell of the random numbers, which is set once, with a lock inside. The hardware
-- behind it is a parameter.
use picocalc_wezterm.Prelude.{ℕ, Bool, true, false, Option, none, some, List, Outcome, ok, panicked}

pub record Trng : Type 1 where
  pub State : Type 0
  pub next_u32 : State → State × ℕ
  pub next_u64 : State → State × ℕ
  pub fill_bytes : State → ℕ → State × List ℕ

module _ (r : Trng) where
  open r use {State}

  -- Whether it is locked, and the hardware.
  abbrev pub Cell : Type 0
  Cell = Option (Bool × State)

  -- A second call panics.
  unfoldable pub init_rng : Cell → State → Outcome Cell
  init_rng none trng = ok (some (false, trng))
  init_rng (some held) trng = panicked

  -- `try_get().unwrap().try_lock().unwrap()`, and a call with the lock held.
  unfoldable pub with_lock : {A : Type 0} → Cell → (State → State × A) → Outcome (Cell × A)
  with_lock none f = panicked
  with_lock (some (true, trng)) f = panicked
  with_lock (some (false, trng)) f = let (trng', a) = f trng in ok (some (false, trng'), a)

  abbrev pub next_u32 : Cell → Outcome (Cell × ℕ)
  next_u32 cell = with_lock cell r.next_u32

  abbrev pub next_u64 : Cell → Outcome (Cell × ℕ)
  next_u64 cell = with_lock cell r.next_u64

  abbrev pub fill_bytes : Cell → ℕ → Outcome (Cell × List ℕ)
  fill_bytes cell n = with_lock cell λ trng. r.fill_bytes trng n
