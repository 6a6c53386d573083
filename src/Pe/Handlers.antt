-- ===== src/Pe/Handlers.antt =====
-- The handlers of lib/src/policy_engine.c on the way to a contract, and those of the resets. Each
-- returns the next state; `none` is a fault.
use usb_pd_firmware.Prelude.{
  ℕ, zero, suc, ◌+◌, Bool, true, false, not, ◌&&◌, ◌||◌, Option, none, some, bit_or, leb, ltb, ◌==◌,
  if◌then◌else◌, ◌>>=◌,
}
use usb_pd_firmware.Pd.{
  PdMsg, obj_at, msgtype_get, numobj_get, specrev_get, specrev_1_0, specrev_3_0, pdo_type,
  pdo_type_augmented, apdo_type, apdo_type_pps, rdo_objpos_get, is_control, is_data,
  hard_reset_count,
}
use usb_pd_firmware.Pd.MsgType
use usb_pd_firmware.Pe.{
  PeState, Events, no_events, is_timeout, Ptr, null, live, dangling, DpmCallbacks, hardrst_reset,
  hardrst_done, msg_tx, Pe, Input, signal, is_pd_3_0, startup, discovery, wait_cap, eval_cap,
  select_cap, transition_sink, ready, hard_reset, transition_default, soft_reset, send_soft_reset,
  source_unresponsive,
}

-- `|= PD_SPECREV_3_0` or `|= PD_SPECREV_2_0`, if no revision was chosen yet.
unfoldable pub choose_specrev : ℕ → PdMsg → ℕ
choose_specrev t m =
    if specrev_get t == specrev_1_0
    then (if leb specrev_3_0 (specrev_get m.hdr) then bit_or t 0x80 else bit_or t 0x40)
    else t

-- The loop for the first PPS APDO, from `i` for `n` more objects; 8 if there is none.
unfoldable pub find_pps : PdMsg → ℕ → ℕ → ℕ
find_pps m zero i = 8
find_pps m (suc n) i =
    let rest = find_pps m n (i + 1) in
    if pdo_type (obj_at m i) == pdo_type_augmented && apdo_type (obj_at m i) == apdo_type_pps
    then i + 1
    else rest

-- `chMBFetchTimeout` writes the message's address to `_message`, or leaves it.
abbrev pub after_tx_mask : Events → Events
after_tx_mask e = record no_events { tx_done = e.tx_done; tx_err = e.tx_err; reset = e.reset }

abbrev pub response_mask : Events → Events
response_mask e = record no_events { msg_rx = e.msg_rx; reset = e.reset }

abbrev wait_cap_mask : Events → Events
wait_cap_mask e = record no_events { msg_rx = e.msg_rx; i_ovrtemp = e.i_ovrtemp; reset = e.reset }

abbrev same_match : Bool → Bool → Bool
same_match true b = b
same_match false b = not b

module _ (dpm : DpmCallbacks) where
  open dpm use {State}

  unfoldable pub pe_sink_startup : Pe State → Option (PeState × Pe State)
  pe_sink_startup p =
      let told : State = elim dpm.pd_start [ some f ↦ f p.dpm | none ↦ p.dpm ] in
      some (discovery, record p { explicit_contract = false; dpm = told })

  unfoldable pub pe_sink_discovery : Pe State → Option (PeState × Pe State)
  pe_sink_discovery p = some (wait_cap, p)

  -- A message that is neither Source_Capabilities nor Soft_Reset is given back to the pool, and
  -- `_message` is left dangling.
  unfoldable pub wait_cap_message : PdMsg → Pe State → Option (PeState × Pe State)
  unfolding choose_specrev
  wait_cap_message m p =
      if is_data m MsgType.source_capabilities
      then some
          (eval_cap, record p { message = live m; hdr_template = choose_specrev p.hdr_template m })
      else if is_control m MsgType.soft_reset
      then some (soft_reset, record p { message = null })
      else some (hard_reset, record p { message = dangling })

  unfoldable pub pe_sink_wait_cap : Input → Pe State → Option (PeState × Pe State)
  unfolding wait_cap_message
  pe_sink_wait_cap i p =
      let evt = wait_cap_mask i.pending in
      if is_timeout evt
      then some (hard_reset, p)
      else if evt.reset
      then some (transition_default, p)
      else if evt.i_ovrtemp
      then some (wait_cap, p)
      else if evt.msg_rx
      then elim i.fetched [ some m ↦ wait_cap_message m p | none ↦ some (hard_reset, p) ]
      else some (hard_reset, p)

  -- The first PPS APDO of new capabilities; `_last_pps` is forgotten with them.
  unfoldable pub note_capabilities : Ptr → Pe State → Option (Option PdMsg × Pe State)
  unfolding find_pps
  note_capabilities null p = some (none, p)
  note_capabilities (live m) p =
      some (some m, record p { pps_index = find_pps m (numobj_get m) 0; last_pps = 8 })
  note_capabilities dangling p = none

  -- The message object for the request, and the PPS APDO requested last.
  unfoldable pub request_buffer : Input → Pe State → Option (PdMsg × Pe State)
  request_buffer i p = elim p.last_dpm_request [
    | none ↦ i.buffer >>= λ b. some (b, p)
    | some r ↦ some (
      r,
      record p { last_pps = if leb p.pps_index (rdo_objpos_get r) then rdo_objpos_get r else 8 },
    )
  ]

  -- The request was made; the capabilities were given back to the pool.
  unfoldable pub keep_request : Pe State → Bool × PdMsg × State → Option (PeState × Pe State)
  keep_request p answer =
      some (
        select_cap,
        record p { last_dpm_request = some (answer.1); dpm = answer.2; message = null },
      )

  unfoldable pub pe_sink_eval_cap : Input → Pe State → Option (PeState × Pe State)
  unfolding note_capabilities request_buffer keep_request
  pe_sink_eval_cap i p = do
    noted ← note_capabilities p.message p
    got ← request_buffer i noted.1
    answer ← dpm.evaluate_capability p.hdr_template noted.0 got.0 p.dpm
    keep_request (got.1) answer

  -- The response to a request, once it was fetched.
  unfoldable pub select_cap_response : PdMsg → PdMsg → Pe State → PeState × Pe State
  select_cap_response r m p =
      let p' = record p { message = null } in
      if is_control m MsgType.accept
      then (
        transition_sink,
        record p' {
          dpm = if rdo_objpos_get r == p.last_pps then p.dpm else dpm.transition_standby p.dpm;
          min_power = false;
        },
      )
      else if is_control m MsgType.soft_reset
      then (soft_reset, p')
      else if (msgtype_get m == MsgType.reject || msgtype_get m == MsgType.wait)
          && numobj_get m == 0
      then (if p.explicit_contract
          then (ready, record p' { min_power = msgtype_get m == MsgType.wait })
          else (wait_cap, p'))
      else (send_soft_reset, p')

  -- With PD 3.0 the periodic timer is started for a PPS APDO and stopped for any other.
  unfoldable pub set_pps_timer : PdMsg → Pe State → Pe State
  set_pps_timer r p =
      if is_pd_3_0 p then record p { pps_timer = leb p.pps_index (rdo_objpos_get r) } else p

  unfoldable pub select_cap_sent : Input → PdMsg → Pe State → Option (PeState × Pe State)
  unfolding select_cap_response
  select_cap_sent i r p =
      let evt = response_mask i.pending_later in
      if evt.reset
      then some (transition_default, p)
      else if is_timeout evt
      then some (hard_reset, p)
      else elim i.fetched [
        | some m ↦ some (select_cap_response r m p)
        | none ↦ some (hard_reset, p)
      ]

  unfoldable pub pe_sink_select_cap : Input → Pe State → Option (PeState × Pe State)
  unfolding set_pps_timer select_cap_sent
  pe_sink_select_cap i p = p.last_dpm_request >>= λ r.
      let sent = signal (msg_tx r) p in
      let evt = after_tx_mask i.pending in
      if evt.reset
      then some (transition_default, sent)
      else if evt.tx_done
      then select_cap_sent i r (set_pps_timer r sent)
      else some (hard_reset, sent)

  unfoldable pub pe_sink_transition_sink : Input → Pe State → Option (PeState × Pe State)
  pe_sink_transition_sink i p =
      let evt = response_mask i.pending in
      if evt.reset
      then some (transition_default, p)
      else if is_timeout evt
      then some (hard_reset, p)
      else elim i.fetched [
        | none ↦ some (hard_reset, p)
        | some m ↦
            if is_control m MsgType.ps_rdy
            then some (
              ready,
              record p {
                explicit_contract = true;
                dpm = if p.min_power then p.dpm else dpm.transition_requested p.dpm;
                message = null;
              },
            )
            else some (hard_reset, record p { dpm = dpm.transition_default p.dpm; message = null })
      ]

  -- `chEvtWaitAny(PDB_EVT_PE_HARD_SENT)` returns when the hard reset was sent.
  unfoldable pub pe_sink_hard_reset : Pe State → Option (PeState × Pe State)
  pe_sink_hard_reset p =
      if ltb hard_reset_count p.hard_reset_counter
      then some (source_unresponsive, p)
      else some (
        transition_default,
        signal hardrst_reset (record p { hard_reset_counter = p.hard_reset_counter + 1 }),
      )

  unfoldable pub pe_sink_transition_default : Pe State → Option (PeState × Pe State)
  pe_sink_transition_default p = some (
    startup,
    signal hardrst_done
        (record p { explicit_contract = false; dpm = dpm.transition_default p.dpm }),
  )

  -- The Type-C Current is taken once two matches in a row agree.
  unfoldable pub note_match : Pe State → Bool × State → Option (PeState × Pe State)
  note_match p found =
      let again : Bool = elim p.old_tcc_match [
        | none ↦ false
        | some old ↦ same_match old (found.0)
      ] in
      some (
        source_unresponsive,
        record p {
          dpm = if again then dpm.transition_typec (found.1) else found.1;
          old_tcc_match = some (found.0);
        },
      )

  -- When Power Delivery is unresponsive, fall back to Type-C Current.
  unfoldable pub pe_sink_source_unresponsive : Input → Pe State → Option (PeState × Pe State)
  unfolding note_match
  pe_sink_source_unresponsive i p = elim dpm.evaluate_typec_current [
    | none ↦ some (source_unresponsive, p)
    | some f ↦ f i.typec_current p.dpm >>= note_match p
  ]
