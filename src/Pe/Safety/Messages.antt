-- ===== src/Pe/Safety/Messages.antt =====
-- The handlers of lib/src/policy_engine.c that send a message of their own keep the invariant.
use usb_pd_firmware.Prelude.{◌≡◌, inl, inr, none, Option-cases, arith, Ends, Ends->>=}
use usb_pd_firmware.Pd.{PdMsg}
use usb_pd_firmware.Pe.{Ptr, null, DpmCallbacks, Pe, Input}
use usb_pd_firmware.Pe.Messages.{
  readable, send_sink_cap, pe_sink_get_source_cap, pe_sink_give_sink_cap, pe_sink_soft_reset,
  pe_sink_send_soft_reset, pe_sink_send_not_supported, pe_sink_chunk_received,
  pe_sink_not_supported_received,
}
use usb_pd_firmware.Pe.Invariant.{DpmLaws, Held, Held-eq, Basic, Contracted, Keeps}

module _ (dpm : DpmCallbacks) (laws : DpmLaws dpm) where
  open dpm use {State}

  pub get_source_cap_safe :
      (i : Input) (p : Pe State)
      → Held i.buffer
      → Contracted dpm laws p
      → Ends (Keeps dpm laws) (pe_sink_get_source_cap dpm i p)
  unfolding pe_sink_get_source_cap
  get_source_cap_safe i p room h =
      ground (arith, (Held-eq i.buffer room).1, laws.fed_sound p.dpm h.requested.fed)

  pub soft_reset_safe :
      (i : Input) (p : Pe State)
      → Held i.buffer
      → Basic dpm laws p
      → Ends (Keeps dpm laws) (pe_sink_soft_reset dpm i p)
  unfolding pe_sink_soft_reset
  soft_reset_safe i p room h = ground (arith, (Held-eq i.buffer room).1)

  pub send_soft_reset_safe :
      (i : Input) (p : Pe State)
      → Held i.buffer
      → Basic dpm laws p
      → Ends (Keeps dpm laws) (pe_sink_send_soft_reset dpm i p)
  unfolding pe_sink_send_soft_reset
  send_soft_reset_safe i p room h = elim (Option-cases i.fetched) [
    | inl empty ↦ ground (arith, empty, (Held-eq i.buffer room).1)
    | inr (m, got) ↦ ground (arith, got, (Held-eq i.buffer room).1)
  ]

  pub send_not_supported_safe :
      (i : Input) (p : Pe State)
      → Held i.buffer
      → Contracted dpm laws p
      → Ends (Keeps dpm laws) (pe_sink_send_not_supported dpm i p)
  unfolding pe_sink_send_not_supported
  send_not_supported_safe i p room h =
      ground (arith, (Held-eq i.buffer room).1, laws.fed_sound p.dpm h.requested.fed)

  pub chunk_received_safe :
      (i : Input) (p : Pe State)
      → Contracted dpm laws p
      → Ends (Keeps dpm laws) (pe_sink_chunk_received dpm i p)
  unfolding pe_sink_chunk_received
  chunk_received_safe i p h = ground (arith, laws.fed_sound p.dpm h.requested.fed)

  pub not_supported_received_safe :
      (p : Pe State)
      → Contracted dpm laws p
      → Ends (Keeps dpm laws) (pe_sink_not_supported_received dpm p)
  unfolding pe_sink_not_supported_received
  not_supported_received_safe p h = elim (Option-cases dpm.not_supported_received) [
    | inl absent ↦ ground (arith, absent)
    | inr (f, there) ↦ ground (arith, there, laws.not_supported_fed f p.dpm there h.requested.fed)
  ]

  readable_null : (q : Ptr) → q ≡ null → Ends (λ m. m ≡ none) (readable q)
  unfolding readable
  readable_null q h = ground (arith, h)

  send_sink_cap_safe :
      (i : Input) (p : Pe State) (made : PdMsg × State)
      → Contracted dpm laws p
      → laws.Fed (made.1)
      → Ends (Keeps dpm laws) (send_sink_cap dpm i p made)
  unfolding send_sink_cap
  send_sink_cap_safe i p made h fed = ground (arith, laws.fed_sound (made.1) fed)

  pub give_sink_cap_safe :
      (i : Input) (p : Pe State)
      → Held i.buffer
      → laws.Answers
      → Contracted dpm laws p
      → Ends (Keeps dpm laws) (pe_sink_give_sink_cap dpm i p)
  unfolding pe_sink_give_sink_cap
  give_sink_cap_safe i p room answers h =
      Ends->>= (λ _. Unit {0}) (Keeps dpm laws) i.buffer _ room
        (λ b _.
          Ends->>= (λ m. m ≡ none) (Keeps dpm laws) (readable p.message) _
            (readable_null p.message h.requested.no_message)
            (λ m nothing.
              Ends->>= (λ a. laws.Fed (a.1)) (Keeps dpm laws)
                (dpm.get_sink_capability p.hdr_template m b p.dpm) _
                (rw nothing (laws.sink_capability p.hdr_template b p.dpm answers h.requested.fed))
                (λ made fed. send_sink_cap_safe i p made h fed)))
