-- ===== src/Network/Validate/Facts.antt =====
-- The facts about a proposal that its validation establishes.
use cedar_switch_3i4o_power.Common.{
  Bool, true, false, ℕ, zero, suc, ◌+◌, ◌<◌, ◌≤◌, ◌≡◌, ◌⊎◌, true, false, List, get_or,
}
use cedar_switch_3i4o_power.ApiValidation.Address.{
  api_ipv4_prefix_is_valid, api_ipv4_is_usable_host, api_ipv4_same_subnet,
}
use cedar_switch_3i4o_power.Network.Types.{
  DeviceAddr, dns_automatic, dns_manual, DeviceIpv4, DeviceDns, DeviceConfig, NetworkConfigInput,
  NetworkStatus, wifi_open, wifi_security_count, ssid_max_len, ipv4_dhcp, ipv4_static, secret_keep,
  dns_max_servers, interface_count,
}
use cedar_switch_3i4o_power.Network.Parts.{
  addr_is_zero, bad_server, no_server, same_ssid, interface_enabled, same_address, has_path,
}

-- A static block: the network is one, the address is a host of it, and so is the gateway, if there is one.
pub record StaticFine (ipv4 : DeviceIpv4) : Type 0 where
  pub prefix_fine : api_ipv4_prefix_is_valid ipv4.prefix_length ≡ true
  pub address_fine : api_ipv4_is_usable_host ipv4.address ipv4.prefix_length ≡ true
  pub gateway_usable :
      (ipv4.has_gateway ≡ false) ⊎ (api_ipv4_is_usable_host ipv4.gateway ipv4.prefix_length ≡ true)
  pub gateway_near :
      (ipv4.has_gateway ≡ false)
      ⊎ (api_ipv4_same_subnet ipv4.address ipv4.gateway ipv4.prefix_length ≡ true)
  pub gateway_other : (ipv4.has_gateway ≡ false) ⊎ (same_address ipv4 ≡ false)

-- The address block of one interface, where `given` says that the request named an address: with DHCP
-- no static field is there, nor an address left over.
pub data BlockFine (ipv4 : DeviceIpv4) (given : Bool) : Type 0 where
  is_dhcp :
      ipv4.mode ≡ ipv4_dhcp
      → given ≡ false
      → addr_is_zero ipv4.address 4 ≡ true
      → ipv4.prefix_length ≡ 0
      → ipv4.has_gateway ≡ false
      → BlockFine ipv4 given
  is_static :
      ipv4.mode ≡ ipv4_static
      → (given ≡ true) ⊎ (addr_is_zero ipv4.address 4 ≡ false)
      → StaticFine ipv4
      → BlockFine ipv4 given

-- The Wi-Fi network: its name has a length, and a password that is kept is one that there is, for the
-- same network.
pub record WifiFine (input : NetworkConfigInput) (committed : DeviceConfig) : Type 0 where
  pub ssid_there : input.ssid_invalid ≡ false
  pub ssid_some : 0 < input.config.wifi.ssid_len
  pub ssid_room : input.config.wifi.ssid_len ≤ ssid_max_len
  pub security_known : input.config.wifi.security < wifi_security_count
  pub password_there :
      ¬ (input.wifi_password.action ≡ secret_keep)
      ⊎ ((input.config.wifi.security ≡ wifi_open)
          ⊎ ((committed.wifi.password_set ≡ true)
              × (same_ssid input committed ≡ true)
              × (committed.wifi.security ≡ input.config.wifi.security)))

-- The resolvers from the `i`th on, `left` of them, are addresses.
unfoldable pub ServersFine : ℕ → ℕ → List DeviceAddr → Type 0
ServersFine zero i servers = Unit
ServersFine (suc left) i servers =
    (bad_server (get_or servers i no_server) ≡ false) × ServersFine left (i + 1) servers

-- The resolvers: none to list, or one or two.
pub data DnsFine (dns : DeviceDns) : Type 0 where
  is_automatic : dns.mode ≡ dns_automatic → dns.server_count ≡ 0 → DnsFine dns
  is_manual :
      dns.mode ≡ dns_manual
      → 0 < dns.server_count
      → dns.server_count ≤ dns_max_servers
      → ServersFine dns.server_count 0 dns.servers
      → DnsFine dns

-- The whole proposal.
pub record Accepted (input : NetworkConfigInput) (committed : DeviceConfig) (status : NetworkStatus)
    : Type 0 where
  pub reachable : has_path input.config status ≡ true
  pub wifi_there : (input.config.wifi.enabled ≡ false) ⊎ (status.wifi.present ≡ true)
  pub preferred_known : input.config.preferred_interface < interface_count
  pub preferred_enabled : interface_enabled input.config input.config.preferred_interface ≡ true
  pub ethernet_block : BlockFine input.config.ethernet.ipv4 input.ethernet_address_given
  pub wifi_block : BlockFine input.config.wifi.ipv4 input.wifi_address_given
  pub dns_fine : DnsFine input.config.dns
  pub wifi_fine : (input.config.wifi.enabled ≡ false) ⊎ WifiFine input committed
