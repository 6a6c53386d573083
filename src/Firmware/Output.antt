-- ===== src/Firmware/Output.antt =====
-- When the output of the board is on: runs of the policy engine with the device policy manager.
use usb_pd_firmware.Prelude.{
  ℕ, ◌≡◌, refl, ◌⊎◌, inl, inr, true, false, Option, none, some, Option-cases, arith, Allows,
  Allows->>=,
}
use usb_pd_firmware.Pd.{PdMsg}
use usb_pd_firmware.Config.{config_read}
use usb_pd_firmware.Dpm.{Sink}
use usb_pd_firmware.Dpm.Request.{
  select_voltage, choose, build, answer, update_capabilities, prepare, pdbs_dpm_evaluate_capability,
}
use usb_pd_firmware.Dpm.Output.{
  pdbs_dpm_giveback_enabled, pdbs_dpm_pd_start, pdbs_dpm_transition_default,
  pdbs_dpm_transition_min, pdbs_dpm_transition_standby,
}
use usb_pd_firmware.Pe.{PeState, Pe, startup, source_unresponsive}

-- The output is off, or there is an explicit contract.
abbrev pub Covered : Pe Sink → Type 0
Covered p = (p.dpm.out_ctrl ≡ false) ⊎ (p.explicit_contract ≡ true)

-- At the start it is off; with an unresponsive source the Type-C current decides.
abbrev pub Powered : PeState → Pe Sink → Type 0
Powered startup p = p.dpm.out_ctrl ≡ false
Powered source_unresponsive p = Unit
Powered _ p = Covered p

abbrev pub KeepsOff : PeState × Pe Sink → Type 0
KeepsOff r = Powered (r.0) (r.1)

-- The output line after a callback is that of before.
abbrev pub Still : Sink → Sink → Type 0
Still s s' = s'.out_ctrl ≡ s.out_ctrl

update-Still :
    (co : Option PdMsg) (s : Sink) → Allows (λ r. Still s (r.1)) (update_capabilities co s)
unfolding update_capabilities
update-Still (some caps) s = refl
update-Still none s = elim (Option-cases s.dpm_data.capabilities) [
  | inl empty ↦ ground (arith, empty)
  | inr (m, there) ↦ ground (arith, there)
]

prepare-Still : (caps : PdMsg) (s : Sink) → Still s (prepare caps s)
unfolding prepare
prepare-Still caps s = ground arith

pub any : {A : Type 0} (m : Option A) → Allows (λ _. Unit {0}) m
any none = tt
any (some a) = tt

pub evaluate-Still :
    (t : ℕ) (co : Option PdMsg) (request : PdMsg) (s : Sink)
    → Allows (λ a. Still s (a.2)) (pdbs_dpm_evaluate_capability t co request s)
unfolding pdbs_dpm_evaluate_capability answer
evaluate-Still t co request s =
    Allows->>= (λ r. Still s (r.1)) (λ a. Still s (a.2)) (update_capabilities co s) _
      (update-Still co s)
      (λ r still.
        Allows->>= (λ _. Unit {0}) (λ a. Still s (a.2))
          (choose (r.0) (config_read (r.1).flash).0 (r.1).dpm_data.output_enabled
            (select_voltage (r.1).state).0 0)
          _ (any _)
          (λ c _.
            Allows->>= (λ _. Unit {0}) (λ a. Still s (a.2))
              (build (r.0) (config_read (r.1).flash).0 _ 0 c) _ (any _)
              (λ made _. ground (arith, still, prepare-Still (r.0) (r.1)))))

pub pd_start-Still : (s : Sink) → Still s (pdbs_dpm_pd_start s)
unfolding pdbs_dpm_pd_start
pd_start-Still s = ground arith

pub giveback-Still : (s : Sink) → Allows (λ a. Still s (a.1)) (pdbs_dpm_giveback_enabled s)
unfolding pdbs_dpm_giveback_enabled
giveback-Still s =
    Allows->>= (λ _. Unit {0}) (λ a. Still s (a.1)) (config_read s.flash).0 _ (any _) (λ c _. refl)

pub standby_off :
    (s : Sink)
    → ((pdbs_dpm_transition_standby s).out_ctrl ≡ false) ⊎ Still s (pdbs_dpm_transition_standby s)
unfolding pdbs_dpm_transition_standby
standby_off s = ground arith

pub default_off : (s : Sink) → (pdbs_dpm_transition_default s).out_ctrl ≡ false
unfolding pdbs_dpm_transition_default
default_off s = ground arith

pub min_off : (s : Sink) → (pdbs_dpm_transition_min s).out_ctrl ≡ false
unfolding pdbs_dpm_transition_min
min_off s = ground arith
