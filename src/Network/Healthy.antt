-- ===== src/Network/Healthy.antt =====
-- How validation, the health check and the choice of the default interface fit together.
use cedar_switch_3i4o_power.Common.{
  ℕ, zero, suc, ◌<◌, ◌≡◌, ◌⊎◌, ◌↔◌, inl, inr, refl, true, some, ◌==◌, arith, Bool-cases,
}
use cedar_switch_3i4o_power.ApiValidation.Errors.{ApiError}
use cedar_switch_3i4o_power.Network.Types.{
  DeviceConfig, NetworkConfigInput, NetworkStatus, interface_ethernet,
}
use cedar_switch_3i4o_power.Network.Validate.{network_validate_config}
use cedar_switch_3i4o_power.Network.Validate.Accepted.{network_validate_config-Accepted}
use cedar_switch_3i4o_power.Network.Select.{
  iface_ready, network_config_is_healthy, network_iface_state_of, iface_status, can_carry_traffic,
  preferred_of, network_select_default,
}
use cedar_switch_3i4o_power.Network.Parts.{interface_enabled}

carries_cases :
    (cfg : DeviceConfig) (status : NetworkStatus) (iface : ℕ)
    → network_config_is_healthy cfg status ≡ true
    → interface_enabled cfg iface ≡ true
    → can_carry_traffic cfg status iface ≡ true
unfolding network_config_is_healthy can_carry_traffic
carries_cases cfg status iface healthy enabled = elim (Bool-cases (iface == interface_ethernet)) [
  | inl eth ↦ rw eth (ground arith)
  | inr wifi ↦ rw wifi (ground arith)
]

-- An interface is ready exactly if it carries traffic and, where it is the radio, it is associated.
pub network_iface_state_of-ready :
    (cfg : DeviceConfig) (status : NetworkStatus) (iface : ℕ)
    → iface < 2
    → (network_iface_state_of iface (iface_status status iface) (interface_enabled cfg iface)
        ≡ iface_ready)
      ↔ ((can_carry_traffic cfg status iface ≡ true)
          × ((iface ≡ interface_ethernet) ⊎ (status.wifi.wifi_associated ≡ true)))
unfolding network_iface_state_of can_carry_traffic
network_iface_state_of-ready cfg status zero h = ground arith
network_iface_state_of-ready cfg status (suc zero) h = ground arith
network_iface_state_of-ready cfg status (suc (suc n)) h = absurd (omega arith)

preferred_of-known :
    (cfg : DeviceConfig) → cfg.preferred_interface < 2 → preferred_of cfg ≡ cfg.preferred_interface
unfolding preferred_of
preferred_of-known cfg h = ground arith

-- Once a proposal that `network_validate_config` accepts is healthy, the default interface is the one
-- that the proposal prefers.
pub network_select_default-healthy :
    (max_fields : ℕ) (input : NetworkConfigInput) (committed : DeviceConfig)
    (status later : NetworkStatus) (err : ApiError)
    → (network_validate_config max_fields input committed status err).0 ≡ true
    → network_config_is_healthy input.config later ≡ true
    → network_select_default input.config later ≡ some input.config.preferred_interface
unfolding network_select_default
network_select_default-healthy max_fields input committed status later err accepted healthy =
    let fine = network_validate_config-Accepted max_fields input committed status err accepted in
    let preferred = input.config.preferred_interface in
    let carries = carries_cases input.config later preferred healthy fine.preferred_enabled in
    rw (preferred_of-known input.config fine.preferred_known, carries) refl
