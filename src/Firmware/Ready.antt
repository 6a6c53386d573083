-- ===== src/Firmware/Ready.antt =====
-- `pe_sink_ready` with the callbacks of src/device_policy_manager.c, and the output line.
use usb_pd_firmware.Prelude.{
  Bool, true, false, Option, none, some, arith, Allows, Allows->>=, Allows-if, if◌then◌else◌,
}
use usb_pd_firmware.Pd.{PdMsg, is_control, is_data}
use usb_pd_firmware.Pd.MsgType
use usb_pd_firmware.Dpm.{Sink}
use usb_pd_firmware.Dpm.Output.{pdbs_dpm_giveback_enabled}
use usb_pd_firmware.Pe.{PeState, null, Pe, Input, is_timeout, is_pd_3_0, select_cap, ready}
use usb_pd_firmware.Pe.Ready.{
  ready_mask, is_ignored, is_unsupported, is_multi_chunk, other_message, goto_min_answer, goto_min,
  ready_message, drop_message, pe_sink_ready,
}
use usb_pd_firmware.Firmware.{pdb_config_dpm}
use usb_pd_firmware.Firmware.Output.{Covered, Powered, KeepsOff, Still, giveback-Still, min_off}

Powered-if :
    (b : Bool) (st st' : PeState) (p : Pe Sink)
    → Powered st p
    → Powered st' p
    → Powered (if b then st else st') p
Powered-if true st st' p h k = h
Powered-if false st st' p h k = k

other_message-Powered :
    (b : Bool) (m : PdMsg) (p : Pe Sink) → Covered p → Powered (other_message b m) p
unfolding other_message
other_message-Powered b m p h = Powered-if (is_control m MsgType.get_sink_cap) _ _ p h (
    Powered-if (is_control m MsgType.soft_reset) _ _ p h (
      Powered-if b _ _ p
        (Powered-if (is_multi_chunk m) _ _ p h
          (Powered-if (is_control m MsgType.not_supported) _ _ p h h))
        h))

goto_min_answer-Off :
    (p : Pe Sink) (a : Bool × Sink)
    → Covered p
    → Still p.dpm (a.1)
    → Allows KeepsOff (goto_min_answer pdb_config_dpm p a)
unfolding goto_min_answer
goto_min_answer-Off p a h still = ground (arith, still, min_off (a.1))

goto_min-Off : (p : Pe Sink) → Covered p → Allows KeepsOff (goto_min pdb_config_dpm p)
unfolding goto_min
goto_min-Off p h =
    Allows->>= (λ a. Still p.dpm (a.1)) KeepsOff (pdbs_dpm_giveback_enabled p.dpm) _
      (giveback-Still p.dpm) (λ a still. goto_min_answer-Off p a h still)

ready_message-Off :
    (m : PdMsg) (p : Pe Sink) → Covered p → Allows KeepsOff (ready_message pdb_config_dpm m p)
unfolding ready_message
ready_message-Off m p h = Allows-if KeepsOff (is_ignored m) _ _ h (
    Allows-if KeepsOff (is_unsupported m) _ _ h (
      Allows-if KeepsOff (is_control m MsgType.gotomin) _ _ (goto_min-Off p h) (
        Allows-if KeepsOff (is_data m MsgType.source_capabilities) _ _ h
          (other_message-Powered (is_pd_3_0 p) m (record p { message = null }) h))))

drop_message-Off : (p : Pe Sink) → Covered p → Allows Covered (drop_message pdb_config_dpm p)
unfolding drop_message
drop_message-Off p h = ground arith

fetched-Off :
    (o : Option PdMsg) (p : Pe Sink)
    → Covered p
    → Allows KeepsOff
        (elim o [ some m ↦ ready_message pdb_config_dpm m p | none ↦ some (ready, p) ])
fetched-Off none p h = h
fetched-Off (some m) p h = ready_message-Off m p h

pub ready-Off :
    (i : Input) (p : Pe Sink) → Covered p → Allows KeepsOff (pe_sink_ready pdb_config_dpm i p)
unfolding pe_sink_ready
ready-Off i p h = Allows-if KeepsOff i.pending.reset _ _ h (
    Allows-if KeepsOff i.pending.i_ovrtemp _ _ h (
      Allows-if KeepsOff i.pending.get_source_cap _ _ h (
        Allows-if KeepsOff i.pending.new_power _ _
          (Allows->>= Covered KeepsOff (drop_message pdb_config_dpm p) _ (drop_message-Off p h)
            (λ p' k. k))
          (Allows-if KeepsOff i.pending.pps_request _ _ h (
            Allows-if KeepsOff (is_timeout (ready_mask i.pending))
              (some (if p.min_power then select_cap else ready, p)) _
              (Powered-if p.min_power select_cap ready p h h) (fetched-Off i.fetched p h))))))
