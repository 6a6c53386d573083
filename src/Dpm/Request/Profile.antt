-- ===== src/Dpm/Request/Profile.antt =====
-- A change of the power profile in `pdbs_dpm_evaluate_capability` of src/device_policy_manager.c:
-- which voltage is requested, and which is noted.
use native.Mathlib.Decide.{ℕ_discrete}
use usb_pd_firmware.Prelude.{
  ◌∙◌, Bool, ℕ, zero, suc, ◌+◌, ◌-◌, ◌≤◌, ◌<◌, ◌≡◌, ◌≢◌, refl, inl, inr, true, false, Bool-cases,
  none, some, length, get_or, set, get_or-set_self, arith, Ends,
}
use usb_pd_firmware.Bits.{field}
use usb_pd_firmware.Pd.{
  PdMsg, obj_at, numobj_get, pdo_type, pdo_type_fixed, src_fixed_voltage_get, mv2pdv, pdv2mv,
  rdo_objpos_get,
}
use usb_pd_firmware.Config.{PdbsConfig, config_read}
use usb_pd_firmware.Dpm.{Sink, flags_giveback}
use usb_pd_firmware.Dpm.Request.{
  fixed, is_fixed_match, is_pps_match, match_pdo, or_range, choose, select_voltage, build, answer,
  fixed_rdo, with_usb_comms, request_msg, update_capabilities, prepare,
  pdbs_dpm_evaluate_capability,
}
use usb_pd_firmware.Dpm.Request.Object.{fixed_rdo_objpos, field-with_usb_comms}
use usb_pd_firmware.Dpm.Request.Answer.{noted_in}
use usb_pd_firmware.Dpm.Output.{pdbs_dpm_transition_standby}

-- The source offers fixed PDOs only.
abbrev pub OnlyFixed : PdMsg → Type 0
OnlyFixed caps = (k : ℕ) → k < numobj_get caps → pdo_type (obj_at caps k) ≡ pdo_type_fixed

module _ (caps : PdMsg) (scfg : PdbsConfig) (voltage : ℕ) (only : OnlyFixed caps) where
  not_pps : (k : ℕ) → k < numobj_get caps → is_pps_match scfg 0 (obj_at caps k) ≡ false
  unfolding is_pps_match
  not_pps k lt = ground (arith, only k lt)

  -- The loop finds a PDO of the voltage, if there is one.
  match_pdo-found :
      (n i j : ℕ)
      → i + n ≡ numobj_get caps
      → i ≤ j
      → j < numobj_get caps
      → is_fixed_match voltage 0 (obj_at caps j) ≡ true
      → (k : ℕ) × (match_pdo caps scfg voltage 0 n i ≡ fixed k)
        × (k < numobj_get caps)
        × (is_fixed_match voltage 0 (obj_at caps k) ≡ true)
  unfolding match_pdo
  match_pdo-found zero i j all le lt found = absurd (omega arith)
  match_pdo-found (suc n) i j all le lt found =
      elim (Bool-cases (is_fixed_match voltage 0 (obj_at caps i))) [
        | inl here ↦ (i, rw (here, match_pdo) refl, omega arith, here)
        | inr not_here ↦
            let (k, e, below, match) =
              match_pdo-found n (i + 1) j (omega arith) (later not_here) lt found in
            (k, rw (not_here, not_pps i (omega arith), match_pdo) e, below, match)
      ]
    where
      later : is_fixed_match voltage 0 (obj_at caps i) ≡ false → i + 1 ≤ j
      later not_here = elim (ℕ_discrete i j) [
        | yes same ↦
            let here : is_fixed_match voltage 0 (obj_at caps j) ≡ false = rw (← same) not_here in
            absurd (ground (arith, here, found))
        | no other ↦ omega (arith, other)
      ]

  choose-found :
      (j : ℕ)
      → j < numobj_get caps
      → src_fixed_voltage_get (obj_at caps j) ≡ mv2pdv voltage
      → (k : ℕ) × (choose caps (some scfg) true voltage 0 ≡ some (fixed k))
        × (k < numobj_get caps)
        × (src_fixed_voltage_get (obj_at caps k) ≡ mv2pdv voltage)
  unfolding choose or_range is_fixed_match
  choose-found j lt volts =
      let (k, e, below, match) =
        match_pdo-found (numobj_get caps) 0 j (omega arith) (omega arith) lt
          (ground (arith, only j lt)) in
      (k, rw e refl, below, ground (arith, match))

-- The object built for the k-th PDO names it.
fixed_rdo-names :
    (comms giveback : Bool) (k : ℕ)
    → k < 7
    → field (with_usb_comms comms (fixed_rdo giveback 0 k)) 28 3 ≡ k + 1
fixed_rdo-names comms giveback k small =
    field-with_usb_comms comms _ 28 3 refl ∙ fixed_rdo_objpos giveback 0 k ∙ omega arith

-- The evaluation, if the k-th PDO is the match.
evaluate_fixed :
    (t : ℕ) (caps request : PdMsg) (s : Sink) (scfg : PdbsConfig) (k : ℕ)
    → (config_read s.flash).0 ≡ some scfg
    → s.dpm_data.output_enabled ≡ true
    → choose caps (some scfg) true (select_voltage s.state).0 0 ≡ some (fixed k)
    → (kept : Sink) × (pdbs_dpm_evaluate_capability t (some caps) request s
        ≡ some (
          true,
          request_msg t request
              (with_usb_comms s.dpm_data.usb_comms (fixed_rdo (flags_giveback scfg) 0 k)),
          noted_in kept (pdv2mv (mv2pdv scfg.v)) true,
        ))
      × (kept.out_ctrl ≡ s.out_ctrl)
      × (kept.dpm_data.present_voltage ≡ s.dpm_data.present_voltage)
unfolding pdbs_dpm_evaluate_capability answer update_capabilities prepare build
evaluate_fixed t caps request s scfg k configured enabled chosen =
    let stored : Sink = record s {
      dpm_data = record s.dpm_data { capabilities = some caps };
      freed = s.freed + (elim s.dpm_data.capabilities [ none ↦ 0 | some _ ↦ 1 ]);
    } in
    (prepare caps stored, ground (arith, configured, enabled, chosen), ground arith, ground arith)

-- The request that is built for the k-th PDO names it.
request-names :
    (t : ℕ) (request : PdMsg) (comms giveback : Bool) (k : ℕ)
    → k < 7
    → 0 < length request.obj
    → rdo_objpos_get (request_msg t request (with_usb_comms comms (fixed_rdo giveback 0 k))) ≡ k + 1
unfolding request_msg
request-names t request comms giveback k small room =
    let obj : ℕ = with_usb_comms comms (fixed_rdo giveback 0 k) in
    let here : get_or (set request.obj 0 obj) 0 0 ≡ obj =
      get_or-set_self request.obj 0 obj 0 room in
    rw here (fixed_rdo-names comms giveback k small)

-- Standby with the present voltage requested.
standby_unchanged :
    (s : Sink)
    → s.dpm_data.present_voltage ≡ s.dpm_data.requested_voltage
    → (pdbs_dpm_transition_standby s).out_ctrl ≡ s.out_ctrl
unfolding pdbs_dpm_transition_standby
standby_unchanged s same = ground (arith, same)

-- A change of the profile, with a stored configuration and the output enabled: the source offers
-- fixed PDOs, one of them of the voltage of the profile in use, and this is not the configured
-- voltage, which is the present one. The evaluation then returns, for a buffer with an object, and
-- its request names a PDO of the profile's voltage, but the voltage noted is the configured one,
-- which that PDO does not have, and the standby transition before the source's change leaves the
-- output as it was.
pub profile_change_output :
    (t : ℕ) (caps request : PdMsg) (s : Sink) (scfg : PdbsConfig) (j : ℕ)
    → OnlyFixed caps
    → (config_read s.flash).0 ≡ some scfg
    → s.dpm_data.output_enabled ≡ true
    → j < numobj_get caps
    → src_fixed_voltage_get (obj_at caps j) ≡ mv2pdv (select_voltage s.state).0
    → mv2pdv (select_voltage s.state).0 ≢ mv2pdv scfg.v
    → s.dpm_data.present_voltage ≡ pdv2mv (mv2pdv scfg.v)
    → 0 < length request.obj
    → Ends
        (λ a.
          let volts = src_fixed_voltage_get (obj_at caps (rdo_objpos_get (a.1) - 1)) in
          (volts ≡ mv2pdv (select_voltage s.state).0)
          × ((a.2).dpm_data.requested_voltage ≡ pdv2mv (mv2pdv scfg.v))
          × ((a.2).dpm_data.requested_voltage ≢ pdv2mv volts)
          × ((pdbs_dpm_transition_standby (a.2)).out_ctrl ≡ s.out_ctrl))
        (pdbs_dpm_evaluate_capability t (some caps) request s)
profile_change_output t caps request s scfg j only configured enabled lt offered other present
      room =
    let (k, chosen, below, volts) =
      choose-found caps scfg (select_voltage s.state).0 only j lt offered in
    let names =
      request-names t request s.dpm_data.usb_comms (flags_giveback scfg) k (omega arith) room in
    let (kept, evaluated, out, held) =
      evaluate_fixed t caps request s scfg k configured enabled chosen in
    let at : rdo_objpos_get (
            request_msg t request
              (with_usb_comms s.dpm_data.usb_comms (fixed_rdo (flags_giveback scfg) 0 k)))
          - 1
        ≡ k =
      omega (arith, names) in
    rw evaluated (
      rw at volts,
      refl,
      (λ same. other (omega (arith, rw at at same, volts))),
      standby_unchanged _ (held ∙ present) ∙ out,
    )
