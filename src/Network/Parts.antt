-- ===== src/Network/Parts.antt =====
-- The paths, and the tests on a proposal, that the checks of network_validate.c use.
use cedar_switch_3i4o_power.Common.{
  ℕ, zero, suc, ◌+◌, ◌/◌, ◌%◌, Bool, true, false, ◌&&◌, ◌||◌, not, Option, none, some, [], ◌∷◌,
  ◌++◌, Bytes, codes, bytes_eq, take, leb, ◌==◌, if◌then◌else◌,
}
use cedar_switch_3i4o_power.Network.Types.{
  DeviceAddr, DeviceIpv4, DeviceConfig, NetworkConfigInput, NetworkStatus, interface_ethernet,
  ssid_max_len,
}

abbrev pub path_eth : Bytes
path_eth = codes "/config/interfaces/ethernet"

abbrev pub path_wifi : Bytes
path_wifi = codes "/config/interfaces/wifi"

abbrev pub path_dns_servers : Bytes
path_dns_servers = codes "/config/dns/servers"

abbrev pub path_preferred : Bytes
path_preferred = codes "/config/preferred_interface"

-- `iface_path`
unfoldable pub iface_path : ℕ → Bytes
iface_path iface = if iface == interface_ethernet then path_eth else path_wifi

-- `ipv4_path` into a buffer of 96 bytes
unfoldable pub ipv4_path : ℕ → Bytes → Bytes
unfolding iface_path
ipv4_path iface field = take 95 (iface_path iface ++ (codes "/ipv4/" ++ field))

-- `addr_is_zero` of the first `n` bytes
unfoldable pub addr_is_zero : Bytes → ℕ → Bool
addr_is_zero addr zero = true
addr_is_zero [] (suc n) = true
addr_is_zero (b ∷ addr) (suc n) = b == 0 && addr_is_zero addr n

-- `input->config.wifi` keeps the network of the committed profile: `same_ssid`.
unfoldable pub same_ssid : NetworkConfigInput → DeviceConfig → Bool
same_ssid input committed =
    let wifi = input.config.wifi in
    not input.ssid_invalid
    && committed.wifi.ssid_len == wifi.ssid_len
    && leb wifi.ssid_len ssid_max_len
    && bytes_eq (take wifi.ssid_len committed.wifi.ssid) (take wifi.ssid_len wifi.ssid)

unfoldable pub interface_enabled : DeviceConfig → ℕ → Bool
interface_enabled cfg iface =
    if iface == interface_ethernet then cfg.ethernet.enabled else cfg.wifi.enabled

abbrev pub secret_max_len : ℕ
secret_max_len = 96

abbrev pub no_value : Option Bytes → Bool
no_value none = true
no_value (some _) = false

-- `memcmp(ipv4->address, ipv4->gateway, 4) == 0`
abbrev pub same_address : DeviceIpv4 → Bool
same_address ipv4 = bytes_eq (take 4 ipv4.address) (take 4 ipv4.gateway)

-- `add_server_field` builds this path.
unfoldable pub server_path : ℕ → Bytes
server_path index =
    let tens = if leb 10 index then ((b'0' + index / 10) % 256) ∷ [] else [] in
    path_dns_servers ++ (b'/' ∷ (tens ++ ((b'0' + index % 10) ∷ [])))

-- A resolver's address: of a known family, and not all zero.
unfoldable pub bad_server : DeviceAddr → Bool
unfolding addr_is_zero
bad_server s =
    not (s.family == 4 || s.family == 6) || addr_is_zero s.bytes (if s.family == 4 then 4 else 16)

abbrev pub no_server : DeviceAddr
no_server = record { family = 0; bytes = [] }

-- The recovery path: `eth_path || wifi_path`.
unfoldable pub has_path : DeviceConfig → NetworkStatus → Bool
has_path cfg status =
    (cfg.ethernet.enabled && status.ethernet.present && status.ethernet.link_up)
    || (cfg.wifi.enabled && status.wifi.present && status.wifi.link_up)
