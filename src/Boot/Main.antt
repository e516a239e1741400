-- ===== src/Boot/Main.antt =====
-- src/main.rs, `main`: the steps of the start whose state the other parts use, in their order. The
-- pins, the display and the tasks that are spawned are left out.
use picocalc_wezterm.Prelude.{
  Bool, ℕ, Option, none, some, List, [], ◌∷◌, ◌++◌, Outcome, ok, ◌>>=◌, ltb, ◌==◌, if◌then◌else◌,
  map,
}
use picocalc_wezterm.Prelude.Text.{Text, codes}
use picocalc_wezterm.Config.Store.{MapStorage, Configuration, assign_flash}
use picocalc_wezterm.Heap.Dual.{
  Allocator, DualHeap, add_primary, add_secondary, used, free, heap_size, qmi_base,
}
use picocalc_wezterm.Psram.Device.{Chip}
use picocalc_wezterm.Psram.Start.{init_psram}
use picocalc_wezterm.Psram.Qmi.{DirectMode, Registers, init_psram_qmi}
use picocalc_wezterm.Net.Wifi.{Notice, setup_wifi}
use picocalc_wezterm.Storage.Card.{Crate, Storage}
use picocalc_wezterm.Storage.HotPlug.{Report, start_storage}
use picocalc_wezterm.Boot.Rng.{Trng, Cell, init_rng, next_u64}

-- What is printed, up to the numbers' format.
pub data Message : Type 0 where
  banner : Message
  prior_panic : Text → Message
  ram_available : ℕ → Message
  psram_sizes : ℕ → ℕ → Message
  psram_not_found : Message
  heap_sizes : ℕ → ℕ → Message
  sd_card : Report → Message
  wifi : Notice → Message

-- `str::lines`: what ends in a newline, without it and a carriage return before it.
abbrev pub end_line : Text → Text
end_line [] = []
end_line (c ∷ []) = if c == 13 then [] else c ∷ []
end_line (c ∷ d ∷ rest) = c ∷ end_line (d ∷ rest)

abbrev push_char : ℕ → List Text → List Text
push_char c [] = (c ∷ []) ∷ []
push_char c (line ∷ lines) = (c ∷ line) ∷ lines

unfoldable pub lines : Text → List Text
lines [] = []
lines (c ∷ cs) = let rest = lines cs in if c == 10 then [] ∷ rest else push_char c rest

abbrev each_line : List Text → Text
each_line [] = []
each_line (line ∷ rest) = end_line line ++ codes "\r\n" ++ each_line rest

-- The report of a panic before the restart. The char before the bracket is 0x1f, not an escape.
unfoldable pub panic_report : Option Text → List Message
unfolding lines
panic_report none = []
panic_report (some msg) =
    prior_panic ((0x1f ∷ codes "[1mPanic: ") ++ each_line (lines msg) ++ (0x1f ∷ codes "[0m")) ∷ []

-- What the start is given: addresses, the clock, the hardware, and what the driver's `join` returns.
pub record Given (r : Trng) (ms : MapStorage) (sd : Crate) : Type 0 where
  pub heap_start : ℕ
  pub stack_available : ℕ
  pub clock_hz : ℕ
  pub panic_message : Option Text
  pub trng : r.State
  pub flash : ms.Flash
  pub sd_present : Bool
  pub sdcard : sd.CardType
  pub open_volume : sd.VolMgr → ℕ → Bool
  pub join : Text → Text → Option ℕ

module _ (r : Trng) (ms : MapStorage) (al : Allocator) (ch : Chip) (q : DirectMode)
    (sd : Crate) where
  pub record Board : Type 0 where
    pub heap : DualHeap al
    pub rng : Cell r
    pub config : Configuration ms
    pub psram : ch.State
    pub registers : Registers q
    pub storage : Storage sd
    pub messages : List Message

  abbrev pub qmi_heap : DualHeap al → ℕ → DualHeap al
  qmi_heap h size =
      if ltb 0 size then add_secondary al h (record { start = qmi_base; size = size }) else h

  abbrev pub memory_messages : DualHeap al → ℕ → ℕ → ℕ → List Message
  memory_messages h stack slow qmi =
      ram_available stack ∷ psram_sizes slow qmi ∷ (if slow == 0 then psram_not_found ∷ [] else [])
      ++ (heap_sizes (used al h) (free al h) ∷ [])

  unfoldable pub main : Board → Given r ms sd → Outcome Board
  unfolding panic_report
  main b g = do
    let heap = add_primary al b.heap (record { start = g.heap_start; size = heap_size })
    rng ← init_rng r b.rng g.trng
    let config = assign_flash ms b.config g.flash
    slow ← init_psram ch b.psram
    (registers, qmi) ← init_psram_qmi q g.clock_hz b.registers
    let heap' = qmi_heap heap qmi
    (slot, printed) ← start_storage sd g.open_volume g.sd_present g.sdcard
    (rng', seed) ← next_u64 r rng
    (config', joined) ← setup_wifi ms g.join config
    ok (record {
      heap = heap';
      rng = rng';
      config = config';
      psram = slow.state;
      registers = registers;
      storage = slot;
      messages =
          b.messages
          ++ (banner ∷ panic_report g.panic_message)
          ++ memory_messages heap' g.stack_available slow.size qmi
          ++ (sd_card printed ∷ map wifi joined.1);
    })
