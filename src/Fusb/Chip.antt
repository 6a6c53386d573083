-- ===== src/Fusb/Chip.antt =====
-- What the driver relies on of the FUSB302B, from its data sheet: the FIFOs, the registers and the
-- comparator of the CC lines.
use usb_pd_firmware.Prelude.{
  ℕ, ◌≤◌, ◌≡◌, ◌≢◌, ◌==◌, if◌then◌else◌, List, [], ◌∷◌, ◌++◌, length, take, drop, get_or,
}
use usb_pd_firmware.Fusb.{Transfer}
use usb_pd_firmware.Fusb.Regs.{
  fusb_fifos, fusb_reset_reg, fusb_reset_pd_reset, fusb_status0, fusb_switches0, meas_cc1, bc_lvl,
}

-- The receive and the transmit FIFO.
pub record HasFifos {S : Type 0} (transfer : Transfer S) : Type 0 where
  pub rx : S → List ℕ
  pub tx : S → List ℕ
  pub write_tx : (bs : List ℕ) (s : S) → tx (transfer (fusb_fifos ∷ bs) 0 s).1 ≡ tx s ++ bs
  pub read_bytes :
      (n : ℕ) (s : S) → n ≤ length (rx s) → (transfer (fusb_fifos ∷ []) n s).0 ≡ take n (rx s)
  pub read_rest :
      (n : ℕ) (s : S) → n ≤ length (rx s) → rx (transfer (fusb_fifos ∷ []) n s).1 ≡ drop n (rx s)

-- The registers that can be written, and the levels of the two CC lines, which do not change
-- while the driver works. A reset of the PD logic leaves the registers, a reset of the chip need
-- not. STATUS0 shows the level of the line that SWITCHES0 connects.
pub record HasRegisters {S : Type 0} (transfer : Transfer S) (cc1 cc2 : ℕ) : Type 0 where
  pub reg : S → ℕ → ℕ
  pub write_reg :
      (r v : ℕ) (s : S) (q : ℕ)
      → r ≢ fusb_reset_reg
      → r ≢ fusb_fifos
      → reg (transfer (r ∷ v ∷ []) 0 s).1 q ≡ (if q == r then v else reg s q)
  pub pd_reset :
      (s : S) (q : ℕ) → reg (transfer (fusb_reset_reg ∷ fusb_reset_pd_reset ∷ []) 0 s).1 q ≡ reg s q
  pub read_kept : (s : S) (q : ℕ) → reg (transfer (fusb_status0 ∷ []) 1 s).1 q ≡ reg s q
  pub read_level :
      (s : S)
      → bc_lvl (get_or (transfer (fusb_status0 ∷ []) 1 s).0 0 0)
        ≡ (if meas_cc1 (reg s fusb_switches0) then cc1 else cc2)
