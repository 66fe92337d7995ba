-- ===== src/Network/Validate.antt =====
-- `network_validate_config` and the checks that it is made of.
pub mod Facts
pub mod FinePaths
pub mod Blocks
pub mod Details
pub mod Judged
pub mod Accepted
use cedar_switch_3i4o_power.Common.{
  ℕ, zero, suc, ◌+◌, ◌/◌, ◌%◌, Bool, true, false, ◌&&◌, ◌||◌, not, Option, none, some, List, [],
  ◌∷◌, ◌++◌, Bytes, codes, bytes_eq, length, get_or, take, ltb, leb, ◌==◌, if◌then◌else◌,
}
use cedar_switch_3i4o_power.ApiValidation.Errors.{
  ApiError, field_required, field_invalid_format, field_out_of_range, field_conflicting,
  field_not_allowed,
}
use cedar_switch_3i4o_power.ApiValidation.Address.{
  api_ipv4_prefix_is_valid, api_ipv4_is_usable_host, api_ipv4_same_subnet,
}
use cedar_switch_3i4o_power.Network.Types.{
  DeviceAddr, DeviceIpv4, DeviceDns, DeviceEthernet, DeviceWifi, DeviceConfig, SecretUpdate,
  NetworkConfigInput, IfaceStatus, NetworkStatus, interface_ethernet, interface_wifi,
  interface_count, ipv4_dhcp, ipv4_static, ipv4_mode_count, dns_automatic, dns_manual,
  dns_mode_count, dns_max_servers, wifi_open, wifi_security_count, ssid_max_len, secret_keep,
  secret_replace, secret_clear,
}
use cedar_switch_3i4o_power.Network.Check.{Check, pass, refuse, refuse_if, also, unless_failed}
use cedar_switch_3i4o_power.Network.Parts.{
  path_eth, path_wifi, path_dns_servers, path_preferred, iface_path, ipv4_path, addr_is_zero,
  same_ssid, interface_enabled, secret_max_len, no_value, same_address, server_path, bad_server,
  no_server, has_path,
}

module _ (max_fields : ℕ) where
  abbrev ipv4_if : Bool → ℕ → Bytes → ℕ → Check
  unfolding ipv4_path
  ipv4_if bad iface field code = refuse_if max_fields bad (ipv4_path iface field) code

  -- The branch for DHCP: no static field may be there.
  unfoldable pub validate_dhcp : DeviceIpv4 → Bool → ℕ → Check
  unfolding also refuse_if ipv4_path
  validate_dhcp ipv4 has_address iface =
      also (ipv4_if has_address iface (codes "address") field_not_allowed) (
        also
          (ipv4_if (not (ipv4.prefix_length == 0)) iface (codes "prefix_length") field_not_allowed)
          (ipv4_if ipv4.has_gateway iface (codes "gateway") field_not_allowed))

  -- The gateway of a static block.
  unfoldable pub validate_gateway : DeviceIpv4 → ℕ → Check
  unfolding refuse_if ipv4_path pass
  validate_gateway ipv4 iface =
      let usable = api_ipv4_is_usable_host ipv4.gateway ipv4.prefix_length in
      let near = api_ipv4_same_subnet ipv4.address ipv4.gateway ipv4.prefix_length in
      if not ipv4.has_gateway
      then pass
      else if not usable || not near
      then refuse max_fields (ipv4_path iface (codes "gateway")) field_out_of_range
      else ipv4_if (same_address ipv4) iface (codes "gateway") field_conflicting

  unfoldable pub validate_prefix : DeviceIpv4 → ℕ → Check
  unfolding refuse_if ipv4_path
  validate_prefix ipv4 iface =
      if ipv4.prefix_length == 0
      then refuse max_fields (ipv4_path iface (codes "prefix_length")) field_required
      else ipv4_if (not (api_ipv4_prefix_is_valid ipv4.prefix_length)) iface (codes "prefix_length")
          field_out_of_range

  unfoldable pub validate_static : DeviceIpv4 → Bool → ℕ → Check
  unfolding also unless_failed refuse_if ipv4_path validate_prefix validate_gateway
  validate_static ipv4 has_address iface =
      let usable = api_ipv4_is_usable_host ipv4.address ipv4.prefix_length in
      unless_failed
        (also (ipv4_if (not has_address) iface (codes "address") field_required)
          (validate_prefix ipv4 iface))
        (unless_failed (ipv4_if (not usable) iface (codes "address") field_out_of_range)
          (validate_gateway ipv4 iface))

  unfoldable pub validate_ipv4 : DeviceIpv4 → Bool → ℕ → Check
  unfolding validate_dhcp validate_static refuse ipv4_path addr_is_zero
  validate_ipv4 ipv4 address_given iface =
      let has_address = address_given || not (addr_is_zero ipv4.address 4) in
      if leb ipv4_mode_count ipv4.mode
      then refuse max_fields (ipv4_path iface (codes "mode")) field_invalid_format
      else if ipv4.mode == ipv4_dhcp
      then validate_dhcp ipv4 has_address iface
      else validate_static ipv4 has_address iface

  -- The loop over the servers, with `left` of them to go.
  unfoldable pub validate_servers : ℕ → ℕ → List DeviceAddr → Check
  unfolding also refuse_if pass server_path bad_server
  validate_servers zero i servers = pass
  validate_servers (suc left) i servers =
      also
        (refuse_if max_fields (bad_server (get_or servers i no_server)) (server_path i)
          field_invalid_format)
        (validate_servers left (i + 1) servers)

  unfoldable pub validate_dns : DeviceDns → Check
  unfolding also unless_failed refuse refuse_if validate_servers
  validate_dns dns =
      let automatic = dns.mode == dns_automatic && not (dns.server_count == 0) in
      let manual = dns.mode == dns_manual && dns.server_count == 0 in
      let counted =
        also (refuse_if max_fields automatic path_dns_servers field_not_allowed)
          (refuse_if max_fields manual path_dns_servers field_required) in
      if leb dns_mode_count dns.mode
      then refuse max_fields (codes "/config/dns/mode") field_invalid_format
      else if ltb dns_max_servers dns.server_count
      then also counted (refuse max_fields path_dns_servers field_out_of_range)
      else also counted (validate_servers dns.server_count 0 dns.servers)

  unfoldable pub validate_ssid : NetworkConfigInput → Check
  unfolding refuse refuse_if
  validate_ssid input =
      let path = path_wifi ++ codes "/ssid_base64" in
      if input.ssid_invalid
      then refuse max_fields path field_invalid_format
      else if input.config.wifi.ssid_len == 0
      then refuse max_fields path field_required
      else refuse_if max_fields (ltb ssid_max_len input.config.wifi.ssid_len) path
          field_out_of_range

  -- The switch over the credential's action.
  unfoldable pub validate_credential : NetworkConfigInput → DeviceConfig → Check
  unfolding refuse refuse_if pass same_ssid
  validate_credential input committed =
      let wifi = input.config.wifi in
      let credential = input.wifi_password in
      let whole = path_wifi ++ codes "/credential" in
      let action = path_wifi ++ codes "/credential/action" in
      let empty =
        no_value credential.value || credential.len == 0 || ltb secret_max_len credential.len in
      let other =
        not (same_ssid input committed) || not (committed.wifi.security == wifi.security) in
      let is_open = wifi.security == wifi_open in
      if credential.action == secret_replace
      then if empty
        then refuse max_fields whole field_conflicting
        else refuse_if max_fields is_open action field_not_allowed
      else if credential.action == secret_clear
      then refuse_if max_fields (not is_open) action field_conflicting
      else if credential.action == secret_keep
      then if is_open
        then pass
        else if not committed.wifi.password_set
        then refuse max_fields action field_conflicting
        else refuse_if max_fields other action field_not_allowed
      else refuse max_fields whole field_conflicting

  unfoldable pub validate_wifi : NetworkConfigInput → DeviceConfig → Check
  unfolding also refuse pass validate_ssid validate_credential
  validate_wifi input committed =
      if not input.config.wifi.enabled
      then pass
      else if leb wifi_security_count input.config.wifi.security
      then also (validate_ssid input)
          (refuse max_fields (path_wifi ++ codes "/security") field_invalid_format)
      else also (validate_ssid input) (validate_credential input committed)

  -- Both interfaces' `enabled` fields are named.
  unfoldable pub refuse_both : ℕ → Check
  unfolding also refuse
  refuse_both code =
      also (refuse max_fields (path_eth ++ codes "/enabled") code)
        (refuse max_fields (path_wifi ++ codes "/enabled") code)

  unfoldable pub validate_enabled : DeviceConfig → NetworkStatus → Check
  unfolding refuse_both refuse_if
  validate_enabled cfg status =
      if not cfg.ethernet.enabled && not cfg.wifi.enabled
      then refuse_both field_conflicting
      else refuse_if max_fields (cfg.wifi.enabled && not status.wifi.present)
          (path_wifi ++ codes "/enabled") field_not_allowed

  unfoldable pub validate_preferred : DeviceConfig → Check
  unfolding refuse refuse_if interface_enabled
  validate_preferred cfg =
      if leb interface_count cfg.preferred_interface
      then refuse max_fields path_preferred field_invalid_format
      else refuse_if max_fields (not (interface_enabled cfg cfg.preferred_interface)) path_preferred
          field_conflicting

  unfoldable pub validate_path : DeviceConfig → NetworkStatus → Check
  unfolding refuse_both pass has_path
  validate_path cfg status = if has_path cfg status then pass else refuse_both field_not_allowed

  unfoldable pub network_validate_config : NetworkConfigInput → DeviceConfig → NetworkStatus → Check
  unfolding also unless_failed validate_enabled validate_ipv4 validate_dns validate_preferred
      validate_wifi validate_path
  network_validate_config input committed status =
      let cfg = input.config in
      unless_failed
        (also (validate_enabled cfg status) (
          also (validate_ipv4 cfg.ethernet.ipv4 input.ethernet_address_given interface_ethernet) (
            also (validate_ipv4 cfg.wifi.ipv4 input.wifi_address_given interface_wifi) (
              also (validate_dns cfg.dns)
                (also (validate_preferred cfg) (validate_wifi input committed))))))
        (validate_path cfg status)
