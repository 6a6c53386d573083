-- ===== src/Pe/Ready.antt =====
-- `pe_sink_ready` of lib/src/policy_engine.c: what the engine does with a contract in place.
use usb_pd_firmware.Prelude.{Bool, true, ◌&&◌, ◌||◌, Option, none, some, ltb, if◌then◌else◌, ◌>>=◌}
use usb_pd_firmware.Pd.{PdMsg, is_control, is_data, is_ext, data_size_get, max_ext_msg_legacy_len}
use usb_pd_firmware.Pd.MsgType
use usb_pd_firmware.Pe.{
  PeState, Events, no_events, is_timeout, null, live, free, DpmCallbacks, start_ams, Pe, Input,
  signal, is_pd_3_0, eval_cap, select_cap, transition_sink, ready, get_source_cap, give_sink_cap,
  hard_reset, transition_default, soft_reset, send_soft_reset, send_not_supported, chunk_received,
  not_supported_received,
}

abbrev pub ready_mask : Events → Events
ready_mask e = record no_events {
  msg_rx = e.msg_rx;
  reset = e.reset;
  i_ovrtemp = e.i_ovrtemp;
  get_source_cap = e.get_source_cap;
  new_power = e.new_power;
  pps_request = e.pps_request;
}

-- Messages that need no more than a change of state, in the order of the code's tests; the rest
-- is `other_message`.
abbrev pub is_ignored : PdMsg → Bool
is_ignored m = is_data m MsgType.vendor_defined || is_control m MsgType.ping

abbrev pub is_unsupported : PdMsg → Bool
is_unsupported m =
    is_control m MsgType.dr_swap
    || is_control m MsgType.get_source_cap
    || is_control m MsgType.pr_swap
    || is_control m MsgType.vconn_swap
    || is_data m MsgType.request
    || is_data m MsgType.sink_capabilities

-- An extended message of more than one chunk.
abbrev pub is_multi_chunk : PdMsg → Bool
is_multi_chunk m = is_ext m && ltb max_ext_msg_legacy_len (data_size_get m)

-- The tests from Get_Sink_Cap on.
unfoldable pub other_message : Bool → PdMsg → PeState
other_message pd_3_0 m =
    if is_control m MsgType.get_sink_cap
    then give_sink_cap
    else if is_control m MsgType.soft_reset
    then soft_reset
    else if pd_3_0
    then (if is_multi_chunk m
        then chunk_received
        else if is_control m MsgType.not_supported
        then not_supported_received
        else send_soft_reset)
    else send_soft_reset

module _ (dpm : DpmCallbacks) where
  open dpm use {State}

  unfoldable pub goto_min_answer : Pe State → Bool × State → Option (PeState × Pe State)
  goto_min_answer p answer =
      if answer.0
      then some (
        transition_sink,
        record p { dpm = dpm.transition_min (answer.1); min_power = true; message = null },
      )
      else some (send_not_supported, record p { dpm = answer.1; message = null })

  -- GotoMin, if the DPM has GiveBack enabled.
  unfoldable pub goto_min : Pe State → Option (PeState × Pe State)
  unfolding goto_min_answer
  goto_min p = elim dpm.giveback_enabled [
    | none ↦ some (send_not_supported, record p { message = null })
    | some enabled ↦ enabled p.dpm >>= goto_min_answer p
  ]

  unfoldable pub ready_message : PdMsg → Pe State → Option (PeState × Pe State)
  unfolding other_message goto_min
  ready_message m p =
      if is_ignored m
      then some (ready, record p { message = null })
      else if is_unsupported m
      then some (send_not_supported, record p { message = null })
      else if is_control m MsgType.gotomin
      then goto_min p
      else if is_data m MsgType.source_capabilities
      then some (eval_cap, record p { message = live m })
      else some (other_message (is_pd_3_0 p) m, record p { message = null })

  -- A new power request evaluates the stored capabilities: a message still held is freed.
  unfoldable pub drop_message : Pe State → Option (Pe State)
  drop_message p = elim p.message [
    | null ↦ some p
    | _ ↦ free p.message >>= λ _. some (record p { message = null })
  ]

  -- The wait has a timeout only with `_min_power`; without it the thread stays until a flag comes.
  unfoldable pub pe_sink_ready : Input → Pe State → Option (PeState × Pe State)
  unfolding drop_message ready_message
  pe_sink_ready i p =
      let evt = ready_mask i.pending in
      if evt.reset
      then some (transition_default, p)
      else if evt.i_ovrtemp
      then some (hard_reset, p)
      else if evt.get_source_cap
      then some (get_source_cap, signal start_ams p)
      else if evt.new_power
      then (drop_message p >>= λ p'. some (eval_cap, signal start_ams p'))
      else if evt.pps_request
      then some (select_cap, signal start_ams p)
      else if is_timeout evt
      then some (if p.min_power then select_cap else ready, p)
      else elim i.fetched [ some m ↦ ready_message m p | none ↦ some (ready, p) ]
