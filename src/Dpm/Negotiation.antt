-- ===== src/Dpm/Negotiation.antt =====
-- A negotiation as the policy engine drives src/device_policy_manager.c: capabilities are
-- evaluated, the output goes to standby when the source accepts, and to the requested power when
-- the supply is ready.
use usb_pd_firmware.Prelude.{ℕ, ◌≡◌, Bool, ◌&&◌, ◌==◌, some, arith, Ends, Ends-eq}
use usb_pd_firmware.Pd.{PdMsg}
use usb_pd_firmware.Config.{config_read}
use usb_pd_firmware.Dpm.{Sink}
use usb_pd_firmware.Dpm.Request.{prepare, update_capabilities, pdbs_dpm_evaluate_capability}
use usb_pd_firmware.Dpm.Request.Answer.{evaluate-Evaluated}
use usb_pd_firmware.Dpm.Request.Total.{Divides, evaluate-Returns}
use usb_pd_firmware.Dpm.Output.{pdbs_dpm_transition_standby, pdbs_dpm_transition_requested}

-- What the evaluation leaves as it was.
Untouched : Sink → Sink → Type 0
Untouched s s' =
    (s'.out_ctrl ≡ s.out_ctrl)
    × (s'.dpm_data.output_enabled ≡ s.dpm_data.output_enabled)
    × (s'.dpm_data.present_voltage ≡ s.dpm_data.present_voltage)

prepare-Untouched : (caps : PdMsg) (s : Sink) → Untouched s (prepare caps s)
unfolding prepare Untouched
prepare-Untouched caps s = ground arith

evaluate-Untouched :
    (t : ℕ) (caps request : PdMsg) (s s' : Sink) (m : Bool) (r : PdMsg)
    → pdbs_dpm_evaluate_capability t (some caps) request s ≡ some (m, r, s')
    → Untouched s s' × (s'.dpm_data.capability_match ≡ m)
unfolding update_capabilities Untouched
evaluate-Untouched t caps request s s' m r e =
    let went = evaluate-Evaluated t (some caps) request s s' m r e in
    ground (arith, went.left, went.stored_eq, prepare-Untouched went.caps' went.stored)

-- The output through the two transitions, from what is noted.
Follows : Sink → Bool → Sink → Type 0
Follows s m s' =
    let noted = s'.dpm_data.requested_voltage in
    let standby = pdbs_dpm_transition_standby s' in
    let ready = pdbs_dpm_transition_requested standby in
    (standby.out_ctrl ≡ (s.out_ctrl && noted == s.dpm_data.present_voltage))
    × (ready.out_ctrl ≡ (m && s.dpm_data.output_enabled))
    × (ready.dpm_data.present_voltage ≡ noted)

Untouched-Follows :
    (s s' : Sink) (m : Bool) → Untouched s s' → s'.dpm_data.capability_match ≡ m → Follows s m s'
unfolding Untouched Follows pdbs_dpm_transition_standby pdbs_dpm_transition_requested
Untouched-Follows s s' m left matched = ground (arith, left, matched)

-- A negotiation from any state of the sink, with any capabilities and a configuration whose current
-- takes no division by zero. The evaluation returns. In standby, after the source's Accept, the
-- output is on if and only if it was on before and the voltage noted by the evaluation is the
-- present one. When the supply is ready, the output is on if and only if the evaluation
-- found a match and the output is enabled, and the present voltage is the one that it noted.
pub negotiated_output :
    (t : ℕ) (caps request : PdMsg) (s : Sink)
    → Divides (config_read s.flash).0
    → Ends
        (λ a.
          let noted = (a.2).dpm_data.requested_voltage in
          let standby = pdbs_dpm_transition_standby (a.2) in
          let ready = pdbs_dpm_transition_requested standby in
          (standby.out_ctrl ≡ (s.out_ctrl && noted == s.dpm_data.present_voltage))
          × (ready.out_ctrl ≡ (a.0 && s.dpm_data.output_enabled))
          × (ready.dpm_data.present_voltage ≡ noted))
        (pdbs_dpm_evaluate_capability t (some caps) request s)
unfolding Follows
negotiated_output t caps request s ok =
    let made =
      Ends-eq _ (pdbs_dpm_evaluate_capability t (some caps) request s)
        (evaluate-Returns t caps request s ok) in
    let left = evaluate-Untouched t caps request s _ _ _ made.1 in
    rw made.1 (Untouched-Follows s _ _ left.0 left.1)
