-- ===== src/Pe/Messages.antt =====
-- The handlers of lib/src/policy_engine.c that send a message of their own, and the two that only
-- wait or inform.
use usb_pd_firmware.Prelude.{ℕ, Option, none, some, bit_or, ◌==◌, if◌then◌else◌, ◌>>=◌}
use usb_pd_firmware.Pd.{PdMsg, numobj, specrev_get, specrev_2_0, specrev_3_0, is_control}
use usb_pd_firmware.Pd.MsgType
use usb_pd_firmware.Pe.{
  PeState, Events, is_timeout, Ptr, null, live, dangling, DpmCallbacks, msg_tx, Pe, Input, signal,
  wait_cap, ready, hard_reset, transition_default, soft_reset, send_soft_reset, send_not_supported,
}
use usb_pd_firmware.Pe.Handlers.{after_tx_mask, response_mask}

-- `cfg->pe.hdr_template | type | PD_NUMOBJ(0)`.
abbrev pub control_hdr : ℕ → ℕ → ℕ
control_hdr t type = bit_or (bit_or t type) (numobj 0)

-- Where a transmission leads: to `sent`, or to `failed`.
abbrev pub after_transmit : Events → PeState → PeState → PeState
after_transmit pending sent failed =
    let evt = after_tx_mask pending in
    if evt.reset then transition_default else if evt.tx_done then sent else failed

-- The response to a Soft_Reset.
abbrev pub soft_reset_response : PdMsg → PeState
soft_reset_response m =
    if is_control m MsgType.accept
    then wait_cap
    else if is_control m MsgType.soft_reset
    then soft_reset
    else hard_reset

-- The header of a Reject or, with PD 3.0, a Not_Supported message; in neither revision the header
-- stays as it was in the buffer.
abbrev pub not_supported_hdr : ℕ → ℕ → ℕ
not_supported_hdr t old =
    if specrev_get t == specrev_2_0
    then control_hdr t MsgType.reject
    else if specrev_get t == specrev_3_0
    then control_hdr t MsgType.not_supported
    else old

-- `_message`, as the DPM reads it.
unfoldable pub readable : Ptr → Option (Option PdMsg)
readable null = some none
readable (live m) = some (some m)
readable dangling = none

module _ (dpm : DpmCallbacks) where
  open dpm use {State}

  unfoldable pub pe_sink_get_source_cap : Input → Pe State → Option (PeState × Pe State)
  pe_sink_get_source_cap i p = i.buffer >>= λ b. some (
    after_transmit i.pending ready hard_reset,
    signal (msg_tx (record b { hdr = control_hdr p.hdr_template MsgType.get_source_cap })) p,
  )

  unfoldable pub send_sink_cap : Input → Pe State → PdMsg × State → Option (PeState × Pe State)
  send_sink_cap i p made = some (
    after_transmit i.pending ready hard_reset,
    signal (msg_tx (made.0)) (record p { dpm = made.1 }),
  )

  unfoldable pub pe_sink_give_sink_cap : Input → Pe State → Option (PeState × Pe State)
  unfolding readable send_sink_cap
  pe_sink_give_sink_cap i p = do
    b ← i.buffer
    m ← readable p.message
    made ← dpm.get_sink_capability p.hdr_template m b p.dpm
    send_sink_cap i p made

  unfoldable pub pe_sink_soft_reset : Input → Pe State → Option (PeState × Pe State)
  pe_sink_soft_reset i p = i.buffer >>= λ b. some (
    after_transmit i.pending wait_cap hard_reset,
    signal (msg_tx (record b { hdr = control_hdr p.hdr_template MsgType.accept })) p,
  )

  unfoldable pub pe_sink_send_soft_reset : Input → Pe State → Option (PeState × Pe State)
  pe_sink_send_soft_reset i p = i.buffer >>= λ b.
      let sent =
        signal (msg_tx (record b { hdr = control_hdr p.hdr_template MsgType.soft_reset })) p in
      let evt = after_tx_mask i.pending in
      let later = response_mask i.pending_later in
      if evt.reset
      then some (transition_default, sent)
      else if evt.tx_done
      then (if later.reset
          then some (transition_default, sent)
          else if is_timeout later
          then some (hard_reset, sent)
          else elim i.fetched [
            | some m ↦ some (soft_reset_response m, record sent { message = null })
            | none ↦ some (hard_reset, sent)
          ])
      else some (hard_reset, sent)

  unfoldable pub pe_sink_send_not_supported : Input → Pe State → Option (PeState × Pe State)
  pe_sink_send_not_supported i p = i.buffer >>= λ b. some (
    after_transmit i.pending ready send_soft_reset,
    signal (msg_tx (record b { hdr = not_supported_hdr p.hdr_template b.hdr })) p,
  )

  unfoldable pub pe_sink_chunk_received : Input → Pe State → Option (PeState × Pe State)
  pe_sink_chunk_received i p =
      some (if i.pending.reset then transition_default else send_not_supported, p)

  unfoldable pub pe_sink_not_supported_received : Pe State → Option (PeState × Pe State)
  pe_sink_not_supported_received p =
      let told : State = elim dpm.not_supported_received [ some f ↦ f p.dpm | none ↦ p.dpm ] in
      some (ready, record p { dpm = told })
