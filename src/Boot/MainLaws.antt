-- ===== src/Boot/MainLaws.antt =====
-- src/main.rs: what `main` leaves for the other parts.
use picocalc_wezterm.Prelude.{
  ◌≢◌, Bool, sym, subst, ℕ, ◌*◌, ◌≤◌, ◌<◌, ◌≡◌, refl, true, false, Option, none, some, ◌⊎◌, Ensures,
  ok, Ensures-returned, Ensures-bind, Ensures-map, ltb, if◌then◌else◌,
}
use picocalc_wezterm.Prelude.Text.{Text}
use picocalc_wezterm.Process.Editor.{byte_len}
use picocalc_wezterm.Config.Store.{
  MapStorage, Configuration, assign_flash, fetch, str_key, with_str,
}
use picocalc_wezterm.Heap.Dual.{
  Allocator, DualHeap, add_primary, add_secondary, heap_size, qmi_base,
}
use picocalc_wezterm.Psram.Device.{Chip}
use picocalc_wezterm.Psram.Start.{init_psram}
use picocalc_wezterm.Psram.StartLaws.{init_psram-tested}
use picocalc_wezterm.Psram.Qmi.{DirectMode, Registers, init_psram_qmi}
use picocalc_wezterm.Psram.QmiLaws.{Left, Left-writable, init_psram_qmi-leaves}
use picocalc_wezterm.Psram.Sizes.{qmi_timing, qmi_timing_returns}
use picocalc_wezterm.Net.Wifi.{setup_wifi}
use picocalc_wezterm.Storage.Card.{Crate}
use picocalc_wezterm.Storage.Phases.{phase, pending}
use picocalc_wezterm.Storage.HotPlug.{start_storage}
use picocalc_wezterm.Storage.HotPlugLaws.{start_storage-IsSetUp}
use picocalc_wezterm.Boot.Rng.{Trng, Cell, init_rng, with_lock, next_u64}
use picocalc_wezterm.Boot.Main.{Given, Board, qmi_heap, main}

-- The flash is there for the fetches, and it stays.
abbrev pub HasFlash : (ms : MapStorage) → Configuration ms → Type 0
HasFlash ms c = (f : ms.Flash) × (c ≡ record { flash = some f })

setup_wifi-HasFlash :
    (ms : MapStorage) (join : Text → Text → Option ℕ) (c : Configuration ms) (f : ms.Flash)
    → Ensures (λ v. HasFlash ms v.0) (setup_wifi ms join (assign_flash ms c f))
unfolding setup_wifi fetch str_key with_str byte_len
setup_wifi-HasFlash ms join c f = (_, refl)

module _ (r : Trng) (ms : MapStorage) (al : Allocator) (ch : Chip) (q : DirectMode)
    (sd : Crate) where
  -- The heap has the RAM of the chip, and the window behind the QMI, of the size that the detection
  -- returned, where that is not 0; the window is then writable; the random numbers are set and not locked, and the configuration has its flash.
  pub record Booted (b : Board r ms al ch q sd) (g : Given r ms sd) (t : Board r ms al ch q sd)
      : Type 0 where
    pub size : ℕ
    pub detected : init_psram_qmi q g.clock_hz b.registers ≡ ok (t.registers, size)
    pub fits : size ≤ 8 * 1024 * 1024
    pub primary_region : t.heap.primary_region ≡ record { start = g.heap_start; size = heap_size }
    pub primary : t.heap.primary ≡ al.init b.heap.primary g.heap_start heap_size
    pub secondary :
        t.heap.secondary
        ≡ (if ltb 0 size then al.init b.heap.secondary qmi_base size else b.heap.secondary)
    pub window : (size ≡ 0) ⊎ (t.registers.writable_m1 ≡ true)
    pub direct_off : t.registers.csr.en ≡ false
    pub seeded : (trng : r.State) × (t.rng ≡ some (false, trng))
    pub assigned : HasFlash ms t.config
    pub slot : phase sd t.storage ≢ pending

  abbrev Unlocked : Cell r → Type 0
  Unlocked c = (trng : r.State) × (c ≡ some (false, trng))

  init_rng-Unlocked :
      (c : Cell r) (trng : r.State) → c ≡ none → Ensures Unlocked (init_rng r c trng)
  unfolding init_rng
  init_rng-Unlocked c trng e =
      subst (λ d. Ensures Unlocked (init_rng r d trng)) (sym e) (trng, refl)

  next_u64-Unlocked : (c : Cell r) → Unlocked c → Ensures (λ v. Unlocked v.0) (next_u64 r c)
  unfolding with_lock
  next_u64-Unlocked c (trng, e) =
      subst (λ d. Ensures (λ v. Unlocked v.0) (next_u64 r d)) (sym e) (_, refl)

  -- Only the secondary heap is new, and only where there is a window.
  qmi_heap_fields :
      (h : DualHeap al) (size : ℕ)
      → ((qmi_heap r ms al ch q sd h size).primary_region ≡ h.primary_region)
        × ((qmi_heap r ms al ch q sd h size).primary ≡ h.primary)
        × ((qmi_heap r ms al ch q sd h size).secondary
            ≡ (if ltb 0 size then al.init h.secondary qmi_base size else h.secondary))
  unfolding add_secondary
  qmi_heap_fields h size = each (ltb 0 size)
    where
      each :
          (found : Bool)
          → ((if found
                then add_secondary al h (record { start = qmi_base; size = size })
                else h).primary_region
              ≡ h.primary_region)
            × ((if found
                  then add_secondary al h (record { start = qmi_base; size = size })
                  else h).primary
                ≡ h.primary)
            × ((if found
                  then add_secondary al h (record { start = qmi_base; size = size })
                  else h).secondary
                ≡ (if found then al.init h.secondary qmi_base size else h.secondary))
      each true = (refl, refl, refl)
      each false = (refl, refl, refl)

  abbrev Detected : Board r ms al ch q sd → Given r ms sd → Registers q × ℕ → Type 0
  Detected b g v =
      (init_psram_qmi q g.clock_hz b.registers ≡ ok v) × Left q (λ t. Unit) b.registers v

  detection :
      (b : Board r ms al ch q sd) (g : Given r ms sd)
      → 0 < g.clock_hz
      → g.clock_hz ≤ 4_000_000_000
      → Ensures (Detected b g) (init_psram_qmi q g.clock_hz b.registers)
  detection b g pos small = Ensures-returned _ (init_psram_qmi q g.clock_hz b.registers) (
      init_psram_qmi-leaves q (λ t. Unit) g.clock_hz b.registers
        (Ensures-map _ _ (qmi_timing g.clock_hz) (λ t h. tt)
          (qmi_timing_returns g.clock_hz pos small)))

  -- With the random numbers not set yet and a clock from 1 Hz to 4 GHz, `main` comes to its end
  -- without a panic: the heap then has the RAM of the chip, and, exactly where the size that
  -- `init_psram_qmi` returned is not 0, as its second region the window of the QMI RAM of that
  -- size, which is at most 8 MB, and the window is then writable; the registers are those that
  -- `init_psram_qmi` returned, with direct mode off; the random numbers are set and not locked, the
  -- configuration has its flash, and the card slot is set up.
  pub main-Booted :
      (b : Board r ms al ch q sd) (g : Given r ms sd)
      → b.rng ≡ none
      → 0 < g.clock_hz
      → g.clock_hz ≤ 4_000_000_000
      → Ensures (Booted b g) (main r ms al ch q sd b g)
  unfolding main add_primary add_secondary
  main-Booted b g unset pos small =
      Ensures-bind Unlocked (Booted b g) (init_rng r b.rng g.trng) _
        (init_rng-Unlocked b.rng g.trng unset)
        λ rng unlocked.
          Ensures-bind (λ s. Unit) (Booted b g) (init_psram ch b.psram) _
            (Ensures-map _ _ (init_psram ch b.psram) (λ s h. tt) (init_psram-tested ch b.psram))
            λ slow u.
              Ensures-bind (Detected b g) (Booted b g) (init_psram_qmi q g.clock_hz b.registers) _
                (detection b g pos small)
                λ (registers, size) (detected, left).
                  Ensures-bind (λ v. phase sd v.0 ≢ pending) (Booted b g)
                    (start_storage sd g.open_volume g.sd_present g.sdcard) _
                    (start_storage-IsSetUp sd g.open_volume g.sd_present g.sdcard)
                    λ (slot, printed) set_up.
                      Ensures-bind (λ v. Unlocked v.0) (Booted b g) (next_u64 r rng) _
                        (next_u64-Unlocked rng unlocked)
                        λ (rng', seed) unlocked'.
                          Ensures-bind (λ v. HasFlash ms v.0) (Booted b g)
                            (setup_wifi ms g.join (assign_flash ms b.config g.flash)) _
                            (setup_wifi-HasFlash ms g.join b.config g.flash)
                            λ (config, joined) flash. record {
                              size = size;
                              detected = detected;
                              fits = left.3;
                              primary_region = (qmi_heap_fields _ size).0;
                              primary = (qmi_heap_fields _ size).1;
                              secondary = (qmi_heap_fields _ size).2;
                              window =
                                  Left-writable q (λ t. Unit) b.registers (registers, size) left;
                              direct_off = left.0;
                              seeded = unlocked';
                              assigned = flash;
                              slot = set_up;
                            }
