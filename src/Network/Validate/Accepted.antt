-- ===== src/Network/Validate/Accepted.antt =====
-- What holds of a proposal that `network_validate_config` accepts.
use cedar_switch_3i4o_power.Common.{ℕ, ◌<◌, ◌≡◌, ◌⊎◌, inl, true, false, ◌&&◌, not, leb, arith}
use cedar_switch_3i4o_power.ApiValidation.Errors.{ApiError}
use cedar_switch_3i4o_power.Network.Types.{
  DeviceConfig, NetworkConfigInput, NetworkStatus, interface_ethernet, interface_wifi,
  interface_count,
}
use cedar_switch_3i4o_power.Network.Parts.{interface_enabled, has_path}
use cedar_switch_3i4o_power.Network.Check.{
  Ensures, weaken-Ensures, refuse-Ensures, refuse_if-Ensures, also-Ensures, unless_failed-Ensures,
  if-Ensures,
}
use cedar_switch_3i4o_power.Network.Validate.{
  refuse_both, validate_enabled, validate_preferred, validate_path, network_validate_config,
}
use cedar_switch_3i4o_power.Network.Validate.Facts.{Accepted}
use cedar_switch_3i4o_power.Network.Validate.Blocks.{validate_ipv4-Ensures}
use cedar_switch_3i4o_power.Network.Validate.Details.{validate_dns-Ensures, validate_wifi-Ensures}

module _ (max_fields : ℕ) where
  validate_enabled-Ensures :
      (cfg : DeviceConfig) (status : NetworkStatus)
      → Ensures
          (validate_enabled max_fields cfg status)
          ((cfg.wifi.enabled ≡ false) ⊎ (status.wifi.present ≡ true))
  unfolding validate_enabled
  validate_enabled-Ensures cfg status =
      if-Ensures (not cfg.ethernet.enabled && not cfg.wifi.enabled) _ _
        (λ none_on. record { ensures = λ err h. inl (ground arith) })
        (λ some_on.
          weaken-Ensures _ (λ fact. ground arith)
            (refuse_if-Ensures max_fields (cfg.wifi.enabled && not status.wifi.present) _ _))

  validate_preferred-Ensures :
      (cfg : DeviceConfig)
      → Ensures (validate_preferred max_fields cfg) (
          (cfg.preferred_interface < interface_count)
          × (interface_enabled cfg cfg.preferred_interface ≡ true))
  unfolding validate_preferred
  validate_preferred-Ensures cfg =
      let enabled = interface_enabled cfg cfg.preferred_interface in
      if-Ensures (leb interface_count cfg.preferred_interface) _ _
        (λ out. refuse-Ensures max_fields _ _)
        (λ known.
          weaken-Ensures _ (λ fact. (ground arith, ground arith))
            (refuse_if-Ensures max_fields (not enabled) _ _))

  validate_path-Ensures :
      (cfg : DeviceConfig) (status : NetworkStatus)
      → Ensures (validate_path max_fields cfg status) (has_path cfg status ≡ true)
  unfolding validate_path
  validate_path-Ensures cfg status =
      if-Ensures (has_path cfg status) _ _ (λ there. record { ensures = λ err h. there })
        (λ missing.
          weaken-Ensures _ (λ fact. fact.1)
            (unfold refuse_both in
              also-Ensures {P = Unit} _ _ (refuse-Ensures max_fields _ _)
                (refuse-Ensures max_fields _ _)))

  network_validate_config-Ensures :
      (input : NetworkConfigInput) (committed : DeviceConfig) (status : NetworkStatus)
      → Ensures
          (network_validate_config max_fields input committed status)
          (Accepted input committed status)
  unfolding network_validate_config
  network_validate_config-Ensures input committed status =
      let cfg = input.config in
      weaken-Ensures _
        (λ facts. record {
          reachable = facts.1;
          wifi_there = facts.0.0;
          preferred_known = facts.0.1.1.1.1.0.0;
          preferred_enabled = facts.0.1.1.1.1.0.1;
          ethernet_block = facts.0.1.0;
          wifi_block = facts.0.1.1.0;
          dns_fine = facts.0.1.1.1.0;
          wifi_fine = facts.0.1.1.1.1.1;
        })
        (unless_failed-Ensures _ _
          (also-Ensures _ _ (validate_enabled-Ensures cfg status) (
            also-Ensures _ _
              (validate_ipv4-Ensures max_fields cfg.ethernet.ipv4 _ interface_ethernet)
              (also-Ensures _ _ (validate_ipv4-Ensures max_fields cfg.wifi.ipv4 _ interface_wifi) (
                also-Ensures _ _ (validate_dns-Ensures max_fields cfg.dns) (
                  also-Ensures _ _ (validate_preferred-Ensures cfg)
                    (validate_wifi-Ensures max_fields input committed))))))
          (validate_path-Ensures cfg status))

  -- A proposal that `network_validate_config` accepts can be reached, over an interface that is
  -- enabled, present and linked. The preferred interface is enabled, a radio is there if Wi-Fi is
  -- enabled, both address blocks are consistent (with DHCP no address, prefix or gateway; with a
  -- static block an address, a prefix of a network, an address that is a host of it, and a gateway
  -- that is another host of it), the resolvers fit their mode and are addresses, and an enabled Wi-Fi
  -- has a name, a known security and, where its password is kept, a stored password of the same
  -- network.
  pub network_validate_config-Accepted :
      (input : NetworkConfigInput) (committed : DeviceConfig) (status : NetworkStatus)
      (err : ApiError)
      → (network_validate_config max_fields input committed status err).0 ≡ true
      → Accepted input committed status
  network_validate_config-Accepted input committed status err h =
      (network_validate_config-Ensures input committed status).ensures err h
