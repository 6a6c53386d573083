-- ===== src/Firmware/Laws.antt =====
-- The callbacks of src/device_policy_manager.c keep to the interface of lib/include/pdb_dpm.h.
use mathlib.Core.Path.{subst}
use usb_pd_firmware.Prelude.{
  ℕ, ◌≡◌, refl, ◌∙◌, sym, ◌⊎◌, inl, inr, Bool, Option, none, some, Option-cases, Bool-cases, arith,
  Ends, Ends->>=, Ends-map, [],
}
use usb_pd_firmware.Pd.{PdMsg}
use usb_pd_firmware.Config.{PdbsConfig, Flash, config_read, flash_read}
use usb_pd_firmware.Dpm.{Sink, dpm_get_current}
use usb_pd_firmware.Dpm.Request.{
  select_voltage, choose, build, answer, update_capabilities, prepare, pdbs_dpm_evaluate_capability,
}
use usb_pd_firmware.Dpm.Request.Total.{Divides, choose-Returns, build-Returns, get_current-Returns}
use usb_pd_firmware.Dpm.Output.{
  rules_out_5v, tcc_suffices, pdbs_dpm_giveback_enabled, pdbs_dpm_evaluate_typec_current,
  pdbs_dpm_pd_start, pdbs_dpm_transition_default, pdbs_dpm_transition_min,
  pdbs_dpm_transition_standby, pdbs_dpm_transition_requested, pdbs_dpm_transition_typec,
}
use usb_pd_firmware.Pe.Invariant.{Held}

-- A configuration is stored, and its current takes no division by a voltage or by zero.
pub record Configured (f : Flash) : Type 0 where
  pub scfg : PdbsConfig
  pub stored : (config_read f).0 ≡ some scfg
  pub divides : Divides (some scfg)

-- Capabilities are stored too.
pub record HasCaps (s : Sink) : Type 0 where
  pub configured : Configured s.flash
  pub capabilities : Held s.dpm_data.capabilities

config_read_again : (f : Flash) → (config_read (config_read f).1).0 ≡ (config_read f).0
unfolding config_read flash_read
config_read_again f = ground arith

Configured-read : (f : Flash) → Configured f → Configured (config_read f).1
Configured-read f h = record {
  scfg = h.scfg;
  stored = config_read_again f ∙ h.stored;
  divides = h.divides;
}

-- What an evaluation leaves: the flash as it was read, and capabilities.
Leaves : Sink → Bool × PdMsg × Sink → Type 0
Leaves s a = ((a.2).flash ≡ (config_read s.flash).1) × Held (a.2).dpm_data.capabilities

update-Leaves :
    (co : Option PdMsg) (s : Sink)
    → Held co ⊎ Held s.dpm_data.capabilities
    → Ends
        (λ r. ((r.1).flash ≡ s.flash) × Held (r.1).dpm_data.capabilities)
        (update_capabilities co s)
unfolding update_capabilities
update-Leaves (some caps) s h = (refl, tt)
update-Leaves none s (inl h) = elim h [ ]
update-Leaves none s (inr h) = elim (Option-cases s.dpm_data.capabilities) [
  | inl empty ↦ absurd (ground (arith, empty))
  | inr (m, there) ↦ ground (arith, there)
]

prepare_flash :
    (caps : PdMsg) (s : Sink)
    → ((prepare caps s).flash ≡ (config_read s.flash).1)
      × ((prepare caps s).dpm_data.capabilities ≡ s.dpm_data.capabilities)
unfolding prepare
prepare_flash caps s = ground arith

evaluate-Leaves :
    (t : ℕ) (co : Option PdMsg) (request : PdMsg) (s : Sink)
    → Configured s.flash
    → Held co ⊎ Held s.dpm_data.capabilities
    → Ends (Leaves s) (pdbs_dpm_evaluate_capability t co request s)
unfolding pdbs_dpm_evaluate_capability answer Leaves
evaluate-Leaves t co request s ok given =
    Ends->>= (λ r. ((r.1).flash ≡ s.flash) × Held (r.1).dpm_data.capabilities) (Leaves s)
      (update_capabilities co s) _ (update-Leaves co s given)
      (λ r kept.
        let at : Divides (config_read (r.1).flash).0 = rw (kept.0, ok.stored) ok.divides in
        Ends->>= (λ _. Unit {0}) (Leaves s)
          (choose (r.0) (config_read (r.1).flash).0 (r.1).dpm_data.output_enabled
            (select_voltage (r.1).state).0 0)
          _ (choose-Returns (r.0) (config_read (r.1).flash).0 (r.1).dpm_data.output_enabled _ 0 at)
          (λ c _.
            Ends->>= (λ _. Unit {0}) (Leaves s) (build (r.0) (config_read (r.1).flash).0 _ 0 c) _
              (build-Returns (r.0) (config_read (r.1).flash).0 _ 0 c at)
              (λ made _. ground (arith, kept, prepare_flash (r.0) (r.1)))))

pub evaluate-HasCaps :
    (t : ℕ) (co : Option PdMsg) (request : PdMsg) (s : Sink)
    → Configured s.flash
    → Held co ⊎ Held s.dpm_data.capabilities
    → Ends (λ a. HasCaps (a.2)) (pdbs_dpm_evaluate_capability t co request s)
unfolding Leaves
evaluate-HasCaps t co request s ok given =
    Ends-map (Leaves s) (λ a. HasCaps (a.2)) (pdbs_dpm_evaluate_capability t co request s)
      (λ a left. record {
        configured = subst Configured (sym left.0) (Configured-read s.flash ok);
        capabilities = left.1;
      })
      (evaluate-Leaves t co request s ok given)

pub giveback-HasCaps :
    (s : Sink) → HasCaps s → Ends (λ a. HasCaps (a.1)) (pdbs_dpm_giveback_enabled s)
unfolding pdbs_dpm_giveback_enabled
giveback-HasCaps s h =
    rw h.configured.stored
      (record { configured = Configured-read s.flash h.configured; capabilities = h.capabilities })

suffices_returns :
    (scfg : PdbsConfig) (tcc : ℕ)
    → Divides (some scfg)
    → Ends (λ _. Unit {0}) (tcc_suffices (some scfg) tcc)
unfolding tcc_suffices
suffices_returns scfg tcc ok = elim (Bool-cases (rules_out_5v (some scfg))) [
  | inl out ↦ ground (arith, out)
  | inr accepted ↦ rw accepted (
      Ends->>= (λ _. Unit {0}) (λ _. Unit {0}) (dpm_get_current scfg 5000) _
        (get_current-Returns (record { hdr = 0; obj = [] }) scfg ok 5000) (λ n _. tt))
]

pub typec-Configured :
    (tcc : ℕ) (s : Sink)
    → Configured s.flash
    → Ends (λ a. Configured (a.1).flash) (pdbs_dpm_evaluate_typec_current tcc s)
unfolding pdbs_dpm_evaluate_typec_current
typec-Configured tcc s h = rw h.stored (
    Ends->>= (λ _. Unit {0}) (λ a. Configured (a.1).flash) (tcc_suffices (some h.scfg) tcc) _
      (suffices_returns h.scfg tcc h.divides) (λ enough _. Configured-read s.flash h))

-- The transitions and the start leave flash and capabilities alone.
unfoldable pub Same : Sink → Sink → Type 0
Same s s' = (s'.flash ≡ s.flash) × (s'.dpm_data.capabilities ≡ s.dpm_data.capabilities)

pub transitions-Same :
    (s : Sink)
    → Same s (pdbs_dpm_pd_start s)
      × Same s (pdbs_dpm_transition_default s)
      × Same s (pdbs_dpm_transition_min s)
      × Same s (pdbs_dpm_transition_standby s)
      × Same s (pdbs_dpm_transition_requested s)
      × Same s (pdbs_dpm_transition_typec s)
unfolding Same pdbs_dpm_pd_start pdbs_dpm_transition_default pdbs_dpm_transition_min
    pdbs_dpm_transition_standby pdbs_dpm_transition_requested pdbs_dpm_transition_typec
transitions-Same s = ground arith

pub Same-Configured : (s s' : Sink) → Same s s' → Configured s.flash → Configured s'.flash
unfolding Same
Same-Configured s s' same h = subst Configured (sym same.0) h

pub Same-HasCaps : (s s' : Sink) → Same s s' → HasCaps s → HasCaps s'
unfolding Same
Same-HasCaps s s' same h = record {
  configured = subst Configured (sym same.0) h.configured;
  capabilities = rw same.1 h.capabilities;
}
