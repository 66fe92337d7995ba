-- ===== src/Network/Validate/Judged.antt =====
-- Every refusal of a proposal names a field, and a proposal that passes leaves the error alone.
use cedar_switch_3i4o_power.Common.{
  ℕ, zero, suc, ◌+◌, ◌<◌, ◌≤◌, ◌≡◌, Bool, true, ◌&&◌, ◌||◌, not, some, List, Bytes, ltb, leb, ◌==◌,
  arith,
}
use cedar_switch_3i4o_power.ApiValidation.Errors.{
  ApiError, path_is_valid, field_required, field_invalid_format, field_out_of_range,
  field_conflicting, field_not_allowed, field_code_count,
}
use cedar_switch_3i4o_power.Network.Types.{
  DeviceAddr, DeviceIpv4, DeviceDns, DeviceConfig, NetworkConfigInput, NetworkStatus,
  ipv4_mode_count, ipv4_dhcp, wifi_open, secret_keep, secret_replace, secret_clear, dns_automatic,
  dns_manual, interface_ethernet, interface_wifi,
}
use cedar_switch_3i4o_power.Network.Check.{
  refuse, refuse_if, also, Judged, Judges, pass-Judges, refuse-Judges, refuse_if-Judges,
  also-Judges, unless_failed-Judges, if-Judges, or_else-Judges,
}
use cedar_switch_3i4o_power.Network.Parts.{
  addr_is_zero, path_dns_servers, no_value, secret_max_len, same_ssid,
}
use cedar_switch_3i4o_power.Network.Validate.{
  validate_dhcp, validate_gateway, validate_prefix, validate_static, validate_ipv4,
  validate_servers, validate_dns, validate_ssid, validate_credential, validate_wifi, refuse_both,
  validate_enabled, validate_preferred, validate_path, network_validate_config,
}
use cedar_switch_3i4o_power.Network.Validate.FinePaths.{
  address_fine, prefix_fine, gateway_fine, mode_fine, server_path-fine, mode_path_fine,
  servers_fine, preferred_fine, ssid_fine, security_fine, credential_fine, action_fine, eth_fine,
  wifi_fine,
}

module _ (max_fields : ℕ) (carries : 0 < max_fields) where
  -- The two kinds of refusal at a path that is fine.
  at :
      (path : Bytes) (code : ℕ)
      → code < field_code_count
      → path_is_valid (some path) ≡ true
      → Judges (refuse max_fields path code)
  at path code known fine = refuse-Judges max_fields carries path code fine known

  at_if :
      (bad : Bool) (path : Bytes) (code : ℕ)
      → code < field_code_count
      → path_is_valid (some path) ≡ true
      → Judges (refuse_if max_fields bad path code)
  at_if bad path code known fine = refuse_if-Judges max_fields carries bad path code fine known

  validate_dhcp-Judges :
      (ipv4 : DeviceIpv4) (has_address : Bool) (iface : ℕ)
      → Judges (validate_dhcp max_fields ipv4 has_address iface)
  unfolding validate_dhcp
  validate_dhcp-Judges ipv4 has_address iface =
      also-Judges _ _ (at_if has_address _ field_not_allowed (omega arith) (address_fine iface)) (
        also-Judges _ _
          (at_if (not (ipv4.prefix_length == 0)) _ field_not_allowed (omega arith)
            (prefix_fine iface))
          (at_if ipv4.has_gateway _ field_not_allowed (omega arith) (gateway_fine iface)))

  validate_gateway-Judges :
      (ipv4 : DeviceIpv4) (iface : ℕ) → Judges (validate_gateway max_fields ipv4 iface)
  unfolding validate_gateway
  validate_gateway-Judges ipv4 iface = if-Judges _ _ _ pass-Judges (
      if-Judges _ _ _ (at _ field_out_of_range (omega arith) (gateway_fine iface))
        (at_if _ _ field_conflicting (omega arith) (gateway_fine iface)))

  validate_prefix-Judges :
      (ipv4 : DeviceIpv4) (iface : ℕ) → Judges (validate_prefix max_fields ipv4 iface)
  unfolding validate_prefix
  validate_prefix-Judges ipv4 iface =
      if-Judges _ _ _ (at _ field_required (omega arith) (prefix_fine iface))
        (at_if _ _ field_out_of_range (omega arith) (prefix_fine iface))

  validate_static-Judges :
      (ipv4 : DeviceIpv4) (has_address : Bool) (iface : ℕ)
      → Judges (validate_static max_fields ipv4 has_address iface)
  unfolding validate_static
  validate_static-Judges ipv4 has_address iface =
      unless_failed-Judges _ _
        (also-Judges _ _ (at_if _ _ field_required (omega arith) (address_fine iface))
          (validate_prefix-Judges ipv4 iface))
        (unless_failed-Judges _ _ (at_if _ _ field_out_of_range (omega arith) (address_fine iface))
          (validate_gateway-Judges ipv4 iface))

  validate_ipv4-Judges :
      (ipv4 : DeviceIpv4) (given : Bool) (iface : ℕ)
      → Judges (validate_ipv4 max_fields ipv4 given iface)
  unfolding validate_ipv4
  validate_ipv4-Judges ipv4 given iface =
      let has_address = given || not (addr_is_zero ipv4.address 4) in
      if-Judges (leb ipv4_mode_count ipv4.mode) _ _
        (at _ field_invalid_format (omega arith) (mode_fine iface))
        (if-Judges (ipv4.mode == ipv4_dhcp) _ _ (validate_dhcp-Judges ipv4 has_address iface)
          (validate_static-Judges ipv4 has_address iface))

  validate_servers-Judges :
      (left i : ℕ) (servers : List DeviceAddr)
      → i + left ≤ 2
      → Judges (validate_servers max_fields left i servers)
  unfolding validate_servers
  validate_servers-Judges zero i servers h = pass-Judges
  validate_servers-Judges (suc left) i servers h =
      also-Judges _ _
        (at_if _ _ field_invalid_format (omega arith) (server_path-fine i (omega arith)))
        (validate_servers-Judges left (i + 1) servers (omega arith))

  validate_dns-Judges : (dns : DeviceDns) → Judges (validate_dns max_fields dns)
  unfolding validate_dns
  validate_dns-Judges dns =
      if-Judges _ _ _ (at _ field_invalid_format (omega arith) mode_path_fine) (
        or_else-Judges _ _ _
          (also-Judges _ _ counted (at _ field_out_of_range (omega arith) servers_fine))
          (λ few.
            also-Judges _ _ counted
              (validate_servers-Judges dns.server_count 0 dns.servers (ground arith))))
    where
      counted : Judges (
          also
            (refuse_if max_fields
              (dns.mode == dns_automatic && not (dns.server_count == 0))
              path_dns_servers
              field_not_allowed)
            (refuse_if max_fields
              (dns.mode == dns_manual && dns.server_count == 0)
              path_dns_servers
              field_required))
      counted =
          also-Judges _ _ (at_if _ _ field_not_allowed (omega arith) servers_fine)
            (at_if _ _ field_required (omega arith) servers_fine)

  validate_ssid-Judges : (input : NetworkConfigInput) → Judges (validate_ssid max_fields input)
  unfolding validate_ssid
  validate_ssid-Judges input = if-Judges _ _ _ (at _ field_invalid_format (omega arith) ssid_fine) (
      if-Judges _ _ _ (at _ field_required (omega arith) ssid_fine)
        (at_if _ _ field_out_of_range (omega arith) ssid_fine))

  validate_credential-Judges :
      (input : NetworkConfigInput) (committed : DeviceConfig)
      → Judges (validate_credential max_fields input committed)
  unfolding validate_credential
  validate_credential-Judges input committed =
      let wifi = input.config.wifi in
      let credential = input.wifi_password in
      let empty =
        no_value credential.value || credential.len == 0 || ltb secret_max_len credential.len in
      let other =
        not (same_ssid input committed) || not (committed.wifi.security == wifi.security) in
      let is_open = wifi.security == wifi_open in
      if-Judges (credential.action == secret_replace) _ _
        (if-Judges empty _ _ (at _ field_conflicting (omega arith) credential_fine)
          (at_if is_open _ field_not_allowed (omega arith) action_fine))
        (if-Judges (credential.action == secret_clear) _ _
          (at_if (not is_open) _ field_conflicting (omega arith) action_fine)
          (if-Judges (credential.action == secret_keep) _ _
            (if-Judges is_open _ _ pass-Judges (
              if-Judges (not committed.wifi.password_set) _ _
                (at _ field_conflicting (omega arith) action_fine)
                (at_if other _ field_not_allowed (omega arith) action_fine)))
            (at _ field_conflicting (omega arith) credential_fine)))

  validate_wifi-Judges :
      (input : NetworkConfigInput) (committed : DeviceConfig)
      → Judges (validate_wifi max_fields input committed)
  unfolding validate_wifi
  validate_wifi-Judges input committed = if-Judges _ _ _ pass-Judges (
      if-Judges _ _ _
        (also-Judges _ _ (validate_ssid-Judges input)
          (at _ field_invalid_format (omega arith) security_fine))
        (also-Judges _ _ (validate_ssid-Judges input) (validate_credential-Judges input committed)))

  refuse_both-Judges : (code : ℕ) → code < field_code_count → Judges (refuse_both max_fields code)
  unfolding refuse_both
  refuse_both-Judges code known =
      also-Judges _ _ (at _ code known eth_fine) (at _ code known wifi_fine)

  validate_enabled-Judges :
      (cfg : DeviceConfig) (status : NetworkStatus)
      → Judges (validate_enabled max_fields cfg status)
  unfolding validate_enabled
  validate_enabled-Judges cfg status =
      if-Judges _ _ _ (refuse_both-Judges field_conflicting (omega arith))
        (at_if _ _ field_not_allowed (omega arith) wifi_fine)

  validate_preferred-Judges : (cfg : DeviceConfig) → Judges (validate_preferred max_fields cfg)
  unfolding validate_preferred
  validate_preferred-Judges cfg =
      if-Judges _ _ _ (at _ field_invalid_format (omega arith) preferred_fine)
        (at_if _ _ field_conflicting (omega arith) preferred_fine)

  validate_path-Judges :
      (cfg : DeviceConfig) (status : NetworkStatus) → Judges (validate_path max_fields cfg status)
  unfolding validate_path
  validate_path-Judges cfg status =
      if-Judges _ _ _ pass-Judges (refuse_both-Judges field_not_allowed (omega arith))

  network_validate_config-Judges :
      (input : NetworkConfigInput) (committed : DeviceConfig) (status : NetworkStatus)
      → Judges (network_validate_config max_fields input committed status)
  unfolding network_validate_config
  network_validate_config-Judges input committed status =
      let cfg = input.config in
      unless_failed-Judges _ _
        (also-Judges _ _ (validate_enabled-Judges cfg status) (
          also-Judges _ _ (validate_ipv4-Judges cfg.ethernet.ipv4 _ interface_ethernet) (
            also-Judges _ _ (validate_ipv4-Judges cfg.wifi.ipv4 _ interface_wifi) (
              also-Judges _ _ (validate_dns-Judges cfg.dns) (
                also-Judges _ _ (validate_preferred-Judges cfg)
                  (validate_wifi-Judges input committed))))))
        (validate_path-Judges cfg status)

  -- A proposal that `network_validate_config` refuses has a field in its error, and one that it accepts
  -- leaves the error as it was, where an error carries at least one field.
  pub network_validate_config-Judged :
      (input : NetworkConfigInput) (committed : DeviceConfig) (status : NetworkStatus)
      (err : ApiError)
      → Judged err (network_validate_config max_fields input committed status err)
  network_validate_config-Judged input committed status err =
      (network_validate_config-Judges input committed status).judged err
