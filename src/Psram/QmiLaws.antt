-- ===== src/Psram/QmiLaws.antt =====
-- src/psram.rs: the registers that `init_psram_qmi` leaves.
use picocalc_wezterm.Prelude.{
  ℕ, ◌*◌, ◌≤◌, ◌≡◌, ◌≢◌, refl, true, false, inl, inr, ◌⊎◌, Bool-cases, Ensures, Ensures-bind, arith,
  ◌==◌,
}
use picocalc_wezterm.Psram.Sizes.{qmi_size, qmi_timing, Timing}
use picocalc_wezterm.Psram.Qmi.{
  DirectMode, Registers, low_bytes, detect_psram_qmi, read_id_words, init_psram_qmi,
}

qmi_size_bound : (kgd eid : ℕ) → qmi_size kgd eid ≤ 8 * 1024 * 1024
unfolding qmi_size
qmi_size_bound kgd eid = ground arith

not_zero : (n : ℕ) → (n == 0) ≡ false → n ≢ 0
not_zero n h e = ground arith

module _ (q : DirectMode) where
  -- The chip is deselected and direct mode is off. Without a RAM nothing else is set; with one, of
  -- at most 8 MB, the window reads and writes in quad mode, with such a timing, and it is writable.
  abbrev pub Left : (Timing → Type 0) → Registers q → Registers q × ℕ → Type 0
  Left InTime r (r', size) =
      (r'.csr.en ≡ false)
      × (r'.csr.assert_cs1n ≡ false)
      × (r'.pad.iso ≡ false)
      × (size ≤ 8 * 1024 * 1024)
      × (((size ≡ 0) × (r'.window ≡ r.window) × (r'.writable_m1 ≡ r.writable_m1))
          ⊎ ((size ≢ 0)
              × InTime r'.window.timing
              × (r'.window.rcmd ≡ 0xeb)
              × (r'.window.wcmd ≡ 0x38)
              × (r'.window.quad_formats ≡ true)
              × (r'.writable_m1 ≡ true)))

  pub Left-writable :
      (InTime : Timing → Type 0) (r : Registers q) (v : Registers q × ℕ)
      → Left InTime r v
      → (v.1 ≡ 0) ⊎ (v.0.writable_m1 ≡ true)
  Left-writable InTime r v (off, deselected, driven, fits, inl (none, same, before)) = inl none
  Left-writable InTime r v
        (off, deselected, driven, fits, inr (found, spec, rd, wr, quad, yes_m1)) =
      inr yes_m1

  detect_window : (r : Registers q) → (detect_psram_qmi q r).0.window ≡ r.window
  unfolding detect_psram_qmi read_id_words
  detect_window r = refl

  detect_writable : (r : Registers q) → (detect_psram_qmi q r).0.writable_m1 ≡ r.writable_m1
  unfolding detect_psram_qmi read_id_words
  detect_writable r = refl

  detect_iso : (r : Registers q) → (detect_psram_qmi q r).0.pad.iso ≡ false
  unfolding detect_psram_qmi read_id_words
  detect_iso r = refl

  detect_off :
      (r : Registers q)
      → ((detect_psram_qmi q r).0.csr.en ≡ false)
        × ((detect_psram_qmi q r).0.csr.assert_cs1n ≡ false)
  unfolding detect_psram_qmi
  detect_off r = (refl, refl)

  detect_size : (r : Registers q) → (detect_psram_qmi q r).1 ≤ 8 * 1024 * 1024
  unfolding detect_psram_qmi
  detect_size r = qmi_size_bound _ _

  -- Whatever the timing is known to satisfy, the window has it.
  pub init_psram_qmi-leaves :
      (InTime : Timing → Type 0) (clock_hz : ℕ) (r : Registers q)
      → Ensures (λ t. InTime (low_bytes t)) (qmi_timing clock_hz)
      → Ensures (Left InTime r) (init_psram_qmi q clock_hz r)
  unfolding init_psram_qmi
  init_psram_qmi-leaves InTime clock_hz r timed =
      elim (Bool-cases ((detect_psram_qmi q r).1 == 0)) [
        | inl none ↦ rw none (
          (detect_off r).0,
          (detect_off r).1,
          detect_iso r,
          omega arith,
          inl (refl, detect_window r, detect_writable r),
        )
        | inr found ↦ rw found (
            Ensures-bind (λ t. InTime (low_bytes t)) (Left InTime r) (qmi_timing clock_hz) _ timed
              λ t in_time. (
                refl,
                refl,
                detect_iso r,
                detect_size r,
                inr (
                  (λ e. not_zero (detect_psram_qmi q r).1 found e),
                  in_time,
                  refl,
                  refl,
                  refl,
                  refl,
                ),
              ))
      ]
