-- ===== src/Pe/Step.antt =====
-- The loop of the policy engine's thread in lib/src/policy_engine.c: one handler a round.
use usb_pd_firmware.Prelude.{Option, some, List, [], ◌∷◌, ◌>>=◌}
use usb_pd_firmware.Pe.{
  PeState, DpmCallbacks, Pe, Input, startup, discovery, wait_cap, eval_cap, select_cap,
  transition_sink, ready, get_source_cap, give_sink_cap, hard_reset, transition_default, soft_reset,
  send_soft_reset, send_not_supported, chunk_received, not_supported_received, source_unresponsive,
  pe_init,
}
use usb_pd_firmware.Pe.Handlers.{
  pe_sink_startup, pe_sink_discovery, pe_sink_wait_cap, pe_sink_eval_cap, pe_sink_select_cap,
  pe_sink_transition_sink, pe_sink_hard_reset, pe_sink_transition_default,
  pe_sink_source_unresponsive,
}
use usb_pd_firmware.Pe.Messages.{
  pe_sink_get_source_cap, pe_sink_give_sink_cap, pe_sink_soft_reset, pe_sink_send_soft_reset,
  pe_sink_send_not_supported, pe_sink_chunk_received, pe_sink_not_supported_received,
}
use usb_pd_firmware.Pe.Ready.{pe_sink_ready}

module _ (dpm : DpmCallbacks) where
  open dpm use {State}

  unfoldable pub pe_step : Input → PeState → Pe State → Option (PeState × Pe State)
  pe_step i startup p = pe_sink_startup dpm p
  pe_step i discovery p = pe_sink_discovery dpm p
  pe_step i wait_cap p = pe_sink_wait_cap dpm i p
  pe_step i eval_cap p = pe_sink_eval_cap dpm i p
  pe_step i select_cap p = pe_sink_select_cap dpm i p
  pe_step i transition_sink p = pe_sink_transition_sink dpm i p
  pe_step i ready p = pe_sink_ready dpm i p
  pe_step i get_source_cap p = pe_sink_get_source_cap dpm i p
  pe_step i give_sink_cap p = pe_sink_give_sink_cap dpm i p
  pe_step i hard_reset p = pe_sink_hard_reset dpm p
  pe_step i transition_default p = pe_sink_transition_default dpm p
  pe_step i soft_reset p = pe_sink_soft_reset dpm i p
  pe_step i send_soft_reset p = pe_sink_send_soft_reset dpm i p
  pe_step i send_not_supported p = pe_sink_send_not_supported dpm i p
  pe_step i chunk_received p = pe_sink_chunk_received dpm i p
  pe_step i not_supported_received p = pe_sink_not_supported_received dpm p
  pe_step i source_unresponsive p = pe_sink_source_unresponsive dpm i p

  -- The rounds of the loop, one for each input.
  unfoldable pub pe_run : List Input → PeState → Pe State → Option (PeState × Pe State)
  pe_run [] st p = some (st, p)
  pe_run (i ∷ is) st p = pe_step i st p >>= λ (st', p'). pe_run is st' p'

  -- The thread from its start.
  unfoldable pub pe_thread : List Input → State → Option (PeState × Pe State)
  unfolding pe_run
  pe_thread is d = pe_run is startup (pe_init d)
