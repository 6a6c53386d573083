-- ===== src/Firmware/Contract.antt =====
-- The output line of the board and what the source agreed to, in runs of the policy engine with the
-- device policy manager.
use usb_pd_firmware.Prelude.{
  ◌≡◌, refl, ◌⊎◌, inl, inr, false, true, Option, none, some, List, [], Ends,
}
use usb_pd_firmware.Dpm.{Sink}
use usb_pd_firmware.Pe.{
  PeState, Pe, Input, startup, discovery, wait_cap, eval_cap, select_cap, transition_sink, ready,
  get_source_cap, give_sink_cap, hard_reset, transition_default, soft_reset, send_soft_reset,
  send_not_supported, chunk_received, not_supported_received, source_unresponsive, pe_init,
}
use usb_pd_firmware.Pe.Step.{pe_thread}
use usb_pd_firmware.Pe.Agreement.{Agreed, history}
use usb_pd_firmware.Pe.Agreement.Runs.{thread-Agreed}
use usb_pd_firmware.Firmware.{pdb_config_dpm}
use usb_pd_firmware.Firmware.Laws.{Configured}
use usb_pd_firmware.Firmware.Output.{Covered, Powered, KeepsOff}
use usb_pd_firmware.Firmware.Powered.{thread-Powered}
use usb_pd_firmware.Firmware.Safety.{pdb_config_laws, AllServed, served_fits}

module _ (A : Type 0) where
  covered : (p : Pe Sink) → Covered p → (p.explicit_contract ≡ true → A) → p.dpm.out_ctrl ≡ true → A
  covered p (inl off) agreed on = absurd cc
  covered p (inr c) agreed on = agreed c

  powered :
      (st : PeState) (p : Pe Sink)
      → Powered st p
      → (p.explicit_contract ≡ true → A)
      → p.dpm.out_ctrl ≡ true
      → (st ≡ source_unresponsive) ⊎ A
  powered startup p h agreed on = absurd cc
  powered source_unresponsive p h agreed on = inl refl
  powered discovery p h agreed on = inr (covered p h agreed on)
  powered wait_cap p h agreed on = inr (covered p h agreed on)
  powered eval_cap p h agreed on = inr (covered p h agreed on)
  powered select_cap p h agreed on = inr (covered p h agreed on)
  powered transition_sink p h agreed on = inr (covered p h agreed on)
  powered ready p h agreed on = inr (covered p h agreed on)
  powered get_source_cap p h agreed on = inr (covered p h agreed on)
  powered give_sink_cap p h agreed on = inr (covered p h agreed on)
  powered hard_reset p h agreed on = inr (covered p h agreed on)
  powered transition_default p h agreed on = inr (covered p h agreed on)
  powered soft_reset p h agreed on = inr (covered p h agreed on)
  powered send_soft_reset p h agreed on = inr (covered p h agreed on)
  powered send_not_supported p h agreed on = inr (covered p h agreed on)
  powered chunk_received p h agreed on = inr (covered p h agreed on)
  powered not_supported_received p h agreed on = inr (covered p h agreed on)

both :
    (A : Type 0) (o : Option (PeState × Pe Sink))
    → Ends KeepsOff o
    → Ends (λ r. (r.1).explicit_contract ≡ true → A) o
    → Ends (λ r. (r.1).dpm.out_ctrl ≡ true → (r.0 ≡ source_unresponsive) ⊎ A) o
both A none off agreed = elim off [ ]
both A (some r) off agreed = λ on. powered A (r.0) (r.1) off agreed on

-- From a start with the output off and a stored configuration whose current takes no division by a
-- voltage or by zero, while no Get_Sink_Cap message comes and the pool has buffers: every run of the
-- policy engine with the device policy manager returns, and if the output is then on, the engine is
-- in PESinkSourceUnresponsive, or since the last start or reset the source accepted a request that
-- was sent and said in the next round that the power is there.
pub thread-Agreed_output :
    (is : List Input) (s : Sink)
    → Configured s.flash
    → AllServed is
    → s.out_ctrl ≡ false
    → Ends
        (λ r.
          (r.1).dpm.out_ctrl ≡ true
          → (r.0 ≡ source_unresponsive) ⊎ Agreed (history pdb_config_dpm is startup (pe_init s) []))
        (pe_thread pdb_config_dpm is s)
unfolding pdb_config_laws
thread-Agreed_output is s h served off =
    both _ (pe_thread pdb_config_dpm is s) (thread-Powered is s h served off)
      (thread-Agreed pdb_config_dpm pdb_config_laws is s h (served_fits is served))
