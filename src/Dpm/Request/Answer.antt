-- ===== src/Dpm/Request/Answer.antt =====
-- What `pdbs_dpm_evaluate_capability` returns, and what it leaves in the DPM's data.
use mathlib.Core.Path.{subst}
use usb_pd_firmware.Prelude.{
  ℕ, ◌≤◌, ◌<◌, ◌≡◌, refl, ap, ◌∙◌, Bool, true, false, Option, none, some, get_or, set, length,
  get_or-set_self, if◌then◌else◌, arith, >>=-eq-some,
}
use usb_pd_firmware.Bits.{field}
use usb_pd_firmware.Pd.{PdMsg, obj_at, numobj_get, msgtype_get, specrev_get, rdo_objpos_get}
use usb_pd_firmware.Pd.MsgType
use usb_pd_firmware.Config.{PdbsConfig, config_read}
use usb_pd_firmware.Dpm.{Sink}
use usb_pd_firmware.Dpm.Request.{
  Choice, fixed, pps, range, nothing, select_voltage, choose, build, with_usb_comms, request_msg,
  update_capabilities, prepare, answer, pdbs_dpm_evaluate_capability,
}
use usb_pd_firmware.Dpm.Request.Object.{position, build-objpos, build-mismatch, request_msg-hdr}
use usb_pd_firmware.Dpm.Request.Matching.{Suits, choose-Suits}

Suits-position :
    (caps : PdMsg) (scfg : PdbsConfig) (voltage current : ℕ) (c : Choice)
    → 1 ≤ numobj_get caps
    → Suits caps scfg voltage current c
    → (1 ≤ position c) × (position c ≤ numobj_get caps)
Suits-position caps scfg voltage current (fixed i) one h = omega arith
Suits-position caps scfg voltage current (pps i) one h = omega arith
Suits-position caps scfg voltage current (range i) one h = omega arith
Suits-position caps scfg voltage current nothing one h = omega arith

-- Every choice has a position among the PDOs, if the source offers any.
choose-position :
    (caps : PdMsg) (scfg : Option PdbsConfig) (enabled : Bool) (voltage current : ℕ) (c : Choice)
    → 1 ≤ numobj_get caps
    → choose caps scfg enabled voltage current ≡ some c
    → (1 ≤ position c) × (position c ≤ numobj_get caps)
choose-position caps none enabled voltage current c one e =
    let same : nothing ≡ c = unfold choose in cc in
    subst (λ d. (1 ≤ position d) × (position d ≤ numobj_get caps)) same (omega arith)
choose-position caps (some scfg) false voltage current c one e =
    let same : nothing ≡ c = unfold choose in cc in
    subst (λ d. (1 ≤ position d) × (position d ≤ numobj_get caps)) same (omega arith)
choose-position caps (some scfg) true voltage current c one e =
    Suits-position caps scfg voltage current c one (choose-Suits caps scfg voltage current c e)

choose_unconfigured :
    (caps : PdMsg) (scfg : Option PdbsConfig) (enabled : Bool) (voltage current : ℕ) (c : Choice)
    → choose caps scfg enabled voltage current ≡ some c
    → scfg ≡ none
    → c ≡ nothing
unfolding choose
choose_unconfigured caps none enabled voltage current c e h = cc
choose_unconfigured caps (some scfg) enabled voltage current c e h = cc

-- A request as the source reads it: a Request message with one object, in the revision of the
-- header template, that names one of the PDOs offered and is marked as a mismatch just if the
-- DPM found that capabilities do not match.
pub record IsRequest (hdr_template : ℕ) (caps : PdMsg) (matched : Bool) (r : PdMsg) : Type 0 where
  pub kind : msgtype_get r ≡ MsgType.request
  pub one_object : numobj_get r ≡ 1
  pub revision : specrev_get r.hdr ≡ specrev_get hdr_template
  pub objpos_min : 1 ≤ rdo_objpos_get r
  pub objpos_max : rdo_objpos_get r ≤ numobj_get caps
  pub mismatch : field (obj_at r 0) 26 1 ≡ (if matched then 0 else 1)

module _ (hdr_template : ℕ) (request caps : PdMsg) (scfg : Option PdbsConfig) (c : Choice)
    (s : Sink) (no_type : field hdr_template 0 5 ≡ 0) (no_objects : field hdr_template 12 3 ≡ 0)
    (room : 0 < length request.obj) where
  made-IsRequest :
      (voltage current obj noted : ℕ) (matched : Bool)
      → 1 ≤ numobj_get caps
      → choose caps scfg s.dpm_data.output_enabled voltage current ≡ some c
      → build caps scfg s.dpm_data.output_enabled current c ≡ some (obj, noted, matched)
      → IsRequest hdr_template caps matched
          (request_msg hdr_template request (with_usb_comms s.dpm_data.usb_comms obj))
  unfolding request_msg
  made-IsRequest voltage current obj noted matched one chosen built =
      let hdr = request_msg-hdr hdr_template request sent no_type no_objects in
      record {
        kind = hdr.0;
        one_object = hdr.1;
        revision = hdr.2;
        objpos_min = rw here (rw names at.0);
        objpos_max = rw here (rw names at.1);
        mismatch = rw here (build-mismatch caps scfg _ current c s.dpm_data.usb_comms built);
      }
    where
      sent : ℕ
      sent = with_usb_comms s.dpm_data.usb_comms obj

      here : get_or (set request.obj 0 sent) 0 0 ≡ sent
      here = get_or-set_self request.obj 0 sent 0 room

      at : (1 ≤ position c) × (position c ≤ numobj_get caps)
      at = choose-position caps scfg _ voltage current c one chosen

      names : field sent 28 3 ≡ position c
      names =
          build-objpos caps scfg _ current c s.dpm_data.usb_comms (omega (arith, at)) built
            (choose_unconfigured caps scfg _ voltage current c chosen)

update_capabilities_stored :
    (caps : Option PdMsg) (s s' : Sink) (caps' : PdMsg)
    → update_capabilities caps s ≡ some (caps', s')
    → s'.dpm_data.capabilities ≡ some caps'
unfolding update_capabilities
update_capabilities_stored (some m) s s' caps' h = ground arith
update_capabilities_stored none s s' caps' h = ground arith

prepare_keeps :
    (caps : PdMsg) (s : Sink)
    → ((prepare caps s).dpm_data.output_enabled ≡ s.dpm_data.output_enabled)
      × ((prepare caps s).dpm_data.capabilities ≡ s.dpm_data.capabilities)
      × ((prepare caps s).dpm_data.usb_comms ≡ s.dpm_data.usb_comms)
unfolding prepare
prepare_keeps caps s = ground arith

-- The sink when the choice is made, and what was noted for it.
abbrev pub noted_in : Sink → ℕ → Bool → Sink
noted_in s voltage matched = record s {
  dpm_data = record s.dpm_data { requested_voltage = voltage; capability_match = matched };
}

answer-built :
    (t : ℕ) (request caps : PdMsg) (scfg : Option PdbsConfig) (s s' : Sink) (c : Choice) (m : Bool)
    (r : PdMsg)
    → answer t request caps scfg 0 s c ≡ some (m, r, s')
    → (obj : ℕ) × (voltage : ℕ) × (build caps scfg s.dpm_data.output_enabled 0 c
        ≡ some (obj, voltage, m))
      × (r ≡ request_msg t request (with_usb_comms s.dpm_data.usb_comms obj))
      × (s' ≡ noted_in s voltage m)
unfolding answer
answer-built t request caps scfg s s' c m r e =
    let made = >>=-eq-some (build caps scfg s.dpm_data.output_enabled 0 c) _ e in
    let matched : made.0.2 ≡ m = ground (arith, made.2) in
    (
      made.0.0,
      made.0.1,
      made.1 ∙ ap (λ b. some (made.0.0, made.0.1, b)) matched,
      ground (arith, made.2),
      ground (arith, made.2),
    )

-- How a call that returned went.
pub record Evaluated (t : ℕ) (caps : Option PdMsg) (request : PdMsg) (s : Sink) (m : Bool)
    (r : PdMsg) (s' : Sink) : Type 0 where
  pub caps' : PdMsg
  pub stored : Sink
  pub choice : Choice
  pub obj : ℕ
  pub voltage : ℕ
  pub stored_eq : update_capabilities caps s ≡ some (caps', stored)
  pub chosen :
      choose caps'
        (config_read stored.flash).0
        stored.dpm_data.output_enabled
        (select_voltage stored.state).0
        0
      ≡ some choice
  pub built :
      build caps' (config_read stored.flash).0 stored.dpm_data.output_enabled 0 choice
      ≡ some (obj, voltage, m)
  pub sent : r ≡ request_msg t request (with_usb_comms stored.dpm_data.usb_comms obj)
  pub left : s' ≡ noted_in (prepare caps' stored) voltage m

pub evaluate-Evaluated :
    (t : ℕ) (caps : Option PdMsg) (request : PdMsg) (s s' : Sink) (m : Bool) (r : PdMsg)
    → pdbs_dpm_evaluate_capability t caps request s ≡ some (m, r, s')
    → Evaluated t caps request s m r s'
unfolding pdbs_dpm_evaluate_capability
evaluate-Evaluated t caps request s s' m r e =
    let stored = >>=-eq-some (update_capabilities caps s) _ e in
    let caps' : PdMsg = stored.0.0 in
    let at : Sink = stored.0.1 in
    let scfg : Option PdbsConfig = (config_read at.flash).0 in
    let chosen =
      >>=-eq-some (choose caps' scfg at.dpm_data.output_enabled (select_voltage at.state).0 0)
        (λ c. answer t request caps' scfg 0 (prepare caps' at) c) stored.2 in
    let made = answer-built t request caps' scfg (prepare caps' at) s' chosen.0 m r chosen.2 in
    record {
      caps' = caps';
      stored = at;
      choice = chosen.0;
      obj = made.0;
      voltage = made.1;
      stored_eq = stored.1;
      chosen = chosen.1;
      built = rw (← (prepare_keeps caps' at).0) made.2;
      sent = rw (← (prepare_keeps caps' at).2) made.3;
      left = made.4;
    }

pub evaluate_keeps_caps :
    (t : ℕ) (caps request : PdMsg) (s s' : Sink) (m : Bool) (r : PdMsg)
    → pdbs_dpm_evaluate_capability t (some caps) request s ≡ some (m, r, s')
    → s'.dpm_data.capabilities ≡ some caps
unfolding update_capabilities
evaluate_keeps_caps t caps request s s' m r e =
    let went = evaluate-Evaluated t (some caps) request s s' m r e in
    ground (arith, went.left, went.stored_eq, prepare_keeps went.caps' went.stored)

-- Whenever the evaluation returns, for a source that offers something, it has built a proper
-- request and noted whether capabilities match.
pub evaluate-IsRequest :
    (hdr_template : ℕ) (caps : Option PdMsg) (request : PdMsg) (s s' : Sink) (m : Bool)
    (r caps' : PdMsg)
    → field hdr_template 0 5 ≡ 0
    → field hdr_template 12 3 ≡ 0
    → 0 < length request.obj
    → pdbs_dpm_evaluate_capability hdr_template caps request s ≡ some (m, r, s')
    → s'.dpm_data.capabilities ≡ some caps'
    → 1 ≤ numobj_get caps'
    → IsRequest hdr_template caps' m r × (s'.dpm_data.capability_match ≡ m)
evaluate-IsRequest t caps request s s' m r caps' no_type no_objects room e held one =
    let went = evaluate-Evaluated t caps request s s' m r e in
    let same : went.caps' ≡ caps' = ground (
      arith,
      went.left,
      update_capabilities_stored caps s went.stored went.caps' went.stored_eq,
      prepare_keeps went.caps' went.stored,
    ) in
    (
      subst (λ k. IsRequest t k m r) same
          (rw went.sent (
            made-IsRequest t request went.caps' (config_read went.stored.flash).0 went.choice
              went.stored no_type no_objects room _ 0 went.obj went.voltage m (rw same one)
              went.chosen went.built)),
      rw went.left refl,
    )
