-- ===== src/Dpm/Laws.antt =====
-- The currents, the output and the totality of src/device_policy_manager.c.
use native.Mathlib.Nat.{div-lt_iff_lt-mul, mod-eq_of_lt}
use usb_pd_firmware.Prelude.{
  ◌↔◌, Ends, not, ◌∙◌, sym, ℕ, ◌+◌, ◌-◌, ◌*◌, ◌/◌, ◌^◌, ◌≤◌, ◌<◌, ◌≡◌, ◌⊎◌, Bool, true, ◌&&◌, some,
  arith,
}
use usb_pd_firmware.Config.{PdbsConfig, config_read}
use usb_pd_firmware.Dpm.{Sink, current_defn, dpm_get_current, tcc_1_5, tcc_3_0}
use usb_pd_firmware.Dpm.Output.{
  covers, rules_out_5v, tcc_suffices, pdbs_dpm_evaluate_typec_current,
  pdbs_dpm_transition_requested, pdbs_dpm_transition_typec,
}

-- `(a + b - 1) / b` is the quotient rounded up.
div_up : (a b : ℕ) → 0 < b → (a ≤ (a + b - 1) / b * b) × ((a + b - 1) / b * b < a + b)
div_up a b h = omega arith

-- The current of a power at a voltage is the least that gives the power, if it fits 16 bits.
pub dpm_get_current_power :
    (scfg : PdbsConfig) (mv n : ℕ)
    → current_defn scfg ≡ 1
    → dpm_get_current scfg mv ≡ some n
    → scfg.i * 1000 + mv < 2 ^ 16 * mv
    → (scfg.i * 1000 ≤ n * mv) × (n * mv < scfg.i * 1000 + mv)
unfolding dpm_get_current
dpm_get_current_power scfg mv n d e small =
    let pos : 0 < mv = omega arith in
    let fits : (scfg.i * 1000 + mv - 1) / mv < 2 ^ 16 = (div-lt_iff_lt-mul pos).1 (omega arith) in
    let exact : n ≡ (scfg.i * 1000 + mv - 1) / mv = ground (arith, mod-eq_of_lt fits) in
    rw exact (div_up (scfg.i * 1000) mv pos)

-- The current of a resistive load at a voltage is the least that the load takes, if it fits.
pub dpm_get_current_resistance :
    (scfg : PdbsConfig) (mv n : ℕ)
    → current_defn scfg ≡ 2
    → dpm_get_current scfg mv ≡ some n
    → mv * 10 + scfg.i < 2 ^ 16 * scfg.i
    → (mv * 10 ≤ n * scfg.i) × (n * scfg.i < mv * 10 + scfg.i)
unfolding dpm_get_current
dpm_get_current_resistance scfg mv n d e small =
    let pos : 0 < scfg.i = omega arith in
    let fits : (mv * 10 + scfg.i - 1) / scfg.i < 2 ^ 16 = (div-lt_iff_lt-mul pos).1 (omega arith) in
    let exact : n ≡ (mv * 10 + scfg.i - 1) / scfg.i = ground (arith, mod-eq_of_lt fits) in
    rw exact (div_up (mv * 10) scfg.i pos)

-- A transition to the requested power.
pub transition_requested_output :
    (s : Sink)
    → ((pdbs_dpm_transition_requested s).out_ctrl
        ≡ (s.dpm_data.capability_match && s.dpm_data.output_enabled))
      × ((pdbs_dpm_transition_requested s).dpm_data.present_voltage ≡ s.dpm_data.requested_voltage)
unfolding pdbs_dpm_transition_requested
transition_requested_output s = ground arith

transition_typec_output :
    (s : Sink)
    → ((pdbs_dpm_transition_typec s).out_ctrl
        ≡ (s.dpm_data.capability_match && s.dpm_data.output_enabled))
      × ((pdbs_dpm_transition_typec s).dpm_data.present_voltage ≡ s.dpm_data.requested_voltage)
unfolding pdbs_dpm_transition_typec
transition_typec_output s = ground arith

-- What suffices: the configuration is for 5 V or a range with 5 V in it, and 1.5 A or 3 A is
-- advertised, with a wanted current (in 10 mA) that is not above it.
abbrev pub Suffices : PdbsConfig → ℕ → ℕ → Type 0
Suffices c wanted tcc =
    ((c.v ≡ 5000) ⊎ ((c.vmin ≤ 5000) × (5000 ≤ c.vmax)))
    × (((tcc ≡ tcc_1_5) × (wanted ≤ 150)) ⊎ ((tcc ≡ tcc_3_0) × (wanted ≤ 300)))

tcc_suffices-Suffices :
    (c : PdbsConfig) (tcc wanted : ℕ)
    → dpm_get_current c 5000 ≡ some wanted
    → (b : Bool) × (tcc_suffices (some c) tcc ≡ some b) × ((b ≡ true) ↔ Suffices c wanted tcc)
unfolding tcc_suffices rules_out_5v
tcc_suffices-Suffices c tcc wanted e = (
  not (rules_out_5v (some c)) && covers tcc wanted,
  ground (arith, e),
  ((λ h. ground (arith, h)), (λ h. ground (arith, h))),
)

and_true : (a b : Bool) → (a && b) ≡ true → (a ≡ true) × (b ≡ true)
and_true a b h = ground (arith, h)

-- With a stored configuration that has a wanted current at 5 V, the evaluation of the Type-C
-- current returns, and after the transition to it the output is on if and only if it is enabled
-- and the advertised current suffices: the configuration is for 5 V or a range with 5 V in it, and
-- either 1.5 A is advertised and at most 1.5 A is wanted, or 3 A is advertised and at most 3 A is
-- wanted. The present voltage is 5 V in any case.
pub typec_output :
    (tcc wanted : ℕ) (s : Sink) (scfg : PdbsConfig)
    → (config_read s.flash).0 ≡ some scfg
    → dpm_get_current scfg 5000 ≡ some wanted
    → Ends
        (λ a.
          (((pdbs_dpm_transition_typec (a.1)).out_ctrl ≡ true)
            ↔ ((s.dpm_data.output_enabled ≡ true) × Suffices scfg wanted tcc))
          × ((pdbs_dpm_transition_typec (a.1)).dpm_data.present_voltage ≡ 5000))
        (pdbs_dpm_evaluate_typec_current tcc s)
unfolding pdbs_dpm_evaluate_typec_current
typec_output tcc wanted s scfg configured wants =
    let (b, enough, suffices) = tcc_suffices-Suffices scfg tcc wanted wants in
    rw (configured, enough)
      (
        (
          (λ on.
              let (lit, wanted_on) = and_true _ _ (sym (transition_typec_output _).0 ∙ on) in
              (wanted_on, suffices.0 lit)),
          (λ (wanted_on, fine).
              (transition_typec_output _).0 ∙ ground (arith, wanted_on, suffices.1 fine)),
        ),
        (transition_typec_output _).1,
      )
