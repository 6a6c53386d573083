-- ===== src/Fusb/Setup.antt =====
-- `fusb_setup` of lib/src/fusb302b.c: the CC line that it selects, and the registers that it leaves.
use usb_pd_firmware.Prelude.{
  ℕ, ◌≡◌, refl, ◌∙◌, ◌≢◌, inl, inr, true, false, not, ltb, ◌==◌, Bool-cases, Ends, if◌then◌else◌,
  arith,
}
use usb_pd_firmware.Fusb.{
  Transfer, Bus, acquire, release, fusb_write_byte, fusb_read_byte, setup_registers, measure,
  select_line, fusb_setup,
}
use usb_pd_firmware.Fusb.Regs.{
  fusb_switches0, fusb_switches1, fusb_control0, fusb_control1, fusb_control1_rx_flush,
  fusb_control3, fusb_mask1, fusb_maska, fusb_maskb, fusb_power, fusb_reset_reg,
  fusb_reset_pd_reset, fusb_reset_sw_res, fusb_fifos, meas_cc1, meas_cc2, txcc1, txcc2, auto_crc,
}
use usb_pd_firmware.Fusb.Chip.{HasRegisters}

module _ {S : Type 0} (transfer : Transfer S) (cc1 cc2 : ℕ)
    (hw : HasRegisters transfer cc1 cc2) where
  write-reg :
      (r v : ℕ) (b : Bus S) (q : ℕ)
      → r ≢ fusb_reset_reg
      → r ≢ fusb_fifos
      → hw.reg (fusb_write_byte transfer r v b).chip q ≡ (if q == r then v else hw.reg b.chip q)
  unfolding fusb_write_byte
  write-reg r v b q n m = hw.write_reg r v b.chip q n m

  measure_lem :
      (v : ℕ) (b : Bus S)
      → ((measure transfer v b).0 ≡ (if meas_cc1 v then cc1 else cc2))
        × ((q : ℕ)
            → hw.reg (measure transfer v b).1.chip q
              ≡ (if q == fusb_switches0 then v else hw.reg b.chip q))
  unfolding measure fusb_write_byte fusb_read_byte
  measure_lem v b = (
    hw.read_level _
        ∙ rw
            (hw.write_reg fusb_switches0 v b.chip fusb_switches0 (λ e. omega arith)
              (λ e. omega arith))
            refl,
    λ q.
        hw.read_kept _ q
        ∙ hw.write_reg fusb_switches0 v b.chip q (λ e. omega arith) (λ e. omega arith),
  )

  -- A register that the first writes set, and that no later one changes.
  setup-reg :
      (b : Bus S) (q : ℕ)
      → hw.reg (setup_registers transfer b).chip q ≡ (
          if q == fusb_control1
          then fusb_control1_rx_flush
          else if q == fusb_control3
          then 0x07
          else if q == fusb_control0
          then 0x04
          else if q == fusb_maskb
          then 0x00
          else if q == fusb_maska
          then 0x00
          else if q == fusb_mask1
          then 0x00
          else if q == fusb_power
          then 0x0f
          else hw.reg (fusb_write_byte transfer fusb_reset_reg fusb_reset_sw_res b).chip q)
  unfolding setup_registers
  setup-reg b q = simp (
    λ (v : ℕ) (b : Bus S). write-reg fusb_control1 v b q (λ e. omega arith) (λ e. omega arith),
    λ (v : ℕ) (b : Bus S). write-reg fusb_control3 v b q (λ e. omega arith) (λ e. omega arith),
    λ (v : ℕ) (b : Bus S). write-reg fusb_control0 v b q (λ e. omega arith) (λ e. omega arith),
    λ (v : ℕ) (b : Bus S). write-reg fusb_maskb v b q (λ e. omega arith) (λ e. omega arith),
    λ (v : ℕ) (b : Bus S). write-reg fusb_maska v b q (λ e. omega arith) (λ e. omega arith),
    λ (v : ℕ) (b : Bus S). write-reg fusb_mask1 v b q (λ e. omega arith) (λ e. omega arith),
    λ (v : ℕ) (b : Bus S). write-reg fusb_power v b q (λ e. omega arith) (λ e. omega arith),
  )

  select-reg :
      (l1 l2 : ℕ) (b : Bus S) (q : ℕ)
      → hw.reg (select_line transfer l1 l2 b).chip q ≡ (
          if q == fusb_switches0
          then (if ltb l2 l1 then 0x07 else 0x0b)
          else if q == fusb_switches1
          then (if ltb l2 l1 then 0x25 else 0x26)
          else hw.reg b.chip q)
  unfolding select_line
  select-reg l1 l2 b q = elim (Bool-cases (ltb l2 l1)) [
    | inl first ↦ rw first (two 0x07 0x25)
    | inr second ↦ rw second (two 0x0b 0x26)
  ]
    where
      two :
          (v0 v1 : ℕ)
          → hw.reg
              (fusb_write_byte transfer fusb_switches0 v0
                (fusb_write_byte transfer fusb_switches1 v1 b)).chip
              q
            ≡ (if q == fusb_switches0
                then v0
                else if q == fusb_switches1
                then v1
                else hw.reg b.chip q)
      two v0 v1 = simp (
        λ (v : ℕ) (b : Bus S). write-reg fusb_switches0 v b q (λ e. omega arith) (λ e. omega arith),
        λ (v : ℕ) (b : Bus S). write-reg fusb_switches1 v b q (λ e. omega arith) (λ e. omega arith),
      )

  -- The chip after `fusb_setup`: the mutex is free; the line with the higher level, the second if
  -- they are equal, is the one that is measured and the one that is sent on; CRCs are sent for
  -- received messages; no interrupt is masked; retries are on, and all power is on.
  pub record IsSetUp (b : Bus S) : Type 0 where
    pub released : b.held ≡ false
    pub measures1 : meas_cc1 (hw.reg b.chip fusb_switches0) ≡ ltb cc2 cc1
    pub measures2 : meas_cc2 (hw.reg b.chip fusb_switches0) ≡ not (ltb cc2 cc1)
    pub sends1 : txcc1 (hw.reg b.chip fusb_switches1) ≡ ltb cc2 cc1
    pub sends2 : txcc2 (hw.reg b.chip fusb_switches1) ≡ not (ltb cc2 cc1)
    pub crc : auto_crc (hw.reg b.chip fusb_switches1) ≡ true
    pub mask1 : hw.reg b.chip fusb_mask1 ≡ 0
    pub maska : hw.reg b.chip fusb_maska ≡ 0
    pub maskb : hw.reg b.chip fusb_maskb ≡ 0
    pub retries : hw.reg b.chip fusb_control3 ≡ 7
    pub powered : hw.reg b.chip fusb_power ≡ 15

  -- The registers that the setup leaves, from the levels that it measured.
  setup_reg :
      (l1 l2 : ℕ) (b : Bus S) (q : ℕ)
      → hw.reg
          (fusb_write_byte transfer fusb_reset_reg fusb_reset_pd_reset (
            select_line transfer l1 l2
              (measure transfer 0x0b
                (measure transfer 0x07 (setup_registers transfer b)).1).1)).chip
          q
        ≡ (if q == fusb_switches0
            then (if ltb l2 l1 then 0x07 else 0x0b)
            else if q == fusb_switches1
            then (if ltb l2 l1 then 0x25 else 0x26)
            else hw.reg (setup_registers transfer b).chip q)
  unfolding fusb_write_byte
  setup_reg l1 l2 b q =
      hw.pd_reset _ q
      ∙ select-reg l1 l2 _ q
      ∙ ground (
        arith,
        (measure_lem 0x0b (measure transfer 0x07 (setup_registers transfer b)).1).1 q,
        (measure_lem 0x07 (setup_registers transfer b)).1 q,
      )

  line_IsSetUp :
      (l1 l2 : ℕ) (b : Bus S)
      → l1 ≡ cc1
      → l2 ≡ cc2
      → IsSetUp (
          release (
            fusb_write_byte transfer fusb_reset_reg fusb_reset_pd_reset (
              select_line transfer l1 l2
                (measure transfer 0x0b (measure transfer 0x07 (setup_registers transfer b)).1).1)))
  unfolding release
  line_IsSetUp l1 l2 b e1 e2 = record {
    released = refl;
    measures1 = rw (setup_reg l1 l2 b fusb_switches0, e1, e2) first.0;
    measures2 = rw (setup_reg l1 l2 b fusb_switches0, e1, e2) first.1;
    sends1 = rw (setup_reg l1 l2 b fusb_switches1, e1, e2) first.2;
    sends2 = rw (setup_reg l1 l2 b fusb_switches1, e1, e2) first.3;
    crc = rw (setup_reg l1 l2 b fusb_switches1, e1, e2) first.4;
    mask1 = setup_reg l1 l2 b fusb_mask1 ∙ setup-reg b fusb_mask1;
    maska = setup_reg l1 l2 b fusb_maska ∙ setup-reg b fusb_maska;
    maskb = setup_reg l1 l2 b fusb_maskb ∙ setup-reg b fusb_maskb;
    retries = setup_reg l1 l2 b fusb_control3 ∙ setup-reg b fusb_control3;
    powered = setup_reg l1 l2 b fusb_power ∙ setup-reg b fusb_power;
  }
    where
      first :
          (meas_cc1 (if ltb cc2 cc1 then 0x07 else 0x0b) ≡ ltb cc2 cc1)
          × (meas_cc2 (if ltb cc2 cc1 then 0x07 else 0x0b) ≡ not (ltb cc2 cc1))
          × (txcc1 (if ltb cc2 cc1 then 0x25 else 0x26) ≡ ltb cc2 cc1)
          × (txcc2 (if ltb cc2 cc1 then 0x25 else 0x26) ≡ not (ltb cc2 cc1))
          × (auto_crc (if ltb cc2 cc1 then 0x25 else 0x26) ≡ true)
      first = elim (Bool-cases (ltb cc2 cc1)) [
        | inl l ↦ rw l (refl, refl, refl, refl, refl)
        | inr l ↦ rw l (refl, refl, refl, refl, refl)
      ]

  -- With the mutex free, the setup returns, and the chip is set up for the line of the higher
  -- level.
  pub fusb_setup-IsSetUp : (b : Bus S) → b.held ≡ false → Ends IsSetUp (fusb_setup transfer b)
  unfolding fusb_setup acquire
  fusb_setup-IsSetUp b free = rw free (
      line_IsSetUp _ _ (record b { held = true })
        (measure_lem 0x07 (setup_registers transfer (record b { held = true }))).0
        (measure_lem 0x0b
          (measure transfer 0x07 (setup_registers transfer (record b { held = true }))).1).0)
