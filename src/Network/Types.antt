-- ===== src/Network/Types.antt =====
-- The structs that validation reads, with the fields that it reads. A `uint8_t` that is used as a truth
-- value is a Boolean; one that holds an enumeration is a number, which may lie outside it.
use cedar_switch_3i4o_power.Common.{ℕ, Bool, Option, List, Bytes}

-- `struct device_config_addr`
pub record DeviceAddr : Type 0 where
  pub family : ℕ
  pub bytes : Bytes

-- `struct device_config_ipv4`
pub record DeviceIpv4 : Type 0 where
  pub mode : ℕ
  pub prefix_length : ℕ
  pub has_gateway : Bool
  pub address : Bytes
  pub gateway : Bytes

-- `struct device_config_dns`
pub record DeviceDns : Type 0 where
  pub mode : ℕ
  pub server_count : ℕ
  pub servers : List DeviceAddr

-- `struct device_config_ethernet`
pub record DeviceEthernet : Type 0 where
  pub enabled : Bool
  pub ipv4 : DeviceIpv4

-- `struct device_config_wifi`; `ssid` is the whole array.
pub record DeviceWifi : Type 0 where
  pub enabled : Bool
  pub security : ℕ
  pub ssid_len : ℕ
  pub ssid : Bytes
  pub password_set : Bool
  pub ipv4 : DeviceIpv4

-- `struct device_config`
pub record DeviceConfig : Type 0 where
  pub preferred_interface : ℕ
  pub dns : DeviceDns
  pub ethernet : DeviceEthernet
  pub wifi : DeviceWifi

-- `struct device_config_secret_update`
pub record SecretUpdate : Type 0 where
  pub action : ℕ
  pub value : Option Bytes
  pub len : ℕ

-- `struct network_config_input`
pub record NetworkConfigInput : Type 0 where
  pub config : DeviceConfig
  pub wifi_password : SecretUpdate
  pub ethernet_address_given : Bool
  pub wifi_address_given : Bool
  pub ssid_invalid : Bool

-- `struct network_iface_status`
pub record IfaceStatus : Type 0 where
  pub present : Bool
  pub link_up : Bool
  pub has_ipv4 : Bool
  pub has_route : Bool
  pub wifi_associated : Bool
  pub wifi_connecting : Bool
  pub wifi_failed : Bool

-- `struct network_status`
pub record NetworkStatus : Type 0 where
  pub ethernet : IfaceStatus
  pub wifi : IfaceStatus

-- The constants of the enumerations.
abbrev pub interface_ethernet : ℕ
interface_ethernet = 0

abbrev pub interface_wifi : ℕ
interface_wifi = 1

abbrev pub interface_count : ℕ
interface_count = 2

abbrev pub ipv4_dhcp : ℕ
ipv4_dhcp = 0

abbrev pub ipv4_static : ℕ
ipv4_static = 1

abbrev pub ipv4_mode_count : ℕ
ipv4_mode_count = 2

abbrev pub dns_automatic : ℕ
dns_automatic = 0

abbrev pub dns_manual : ℕ
dns_manual = 1

abbrev pub dns_mode_count : ℕ
dns_mode_count = 2

abbrev pub dns_max_servers : ℕ
dns_max_servers = 2

abbrev pub wifi_open : ℕ
wifi_open = 0

abbrev pub wifi_security_count : ℕ
wifi_security_count = 3

abbrev pub ssid_max_len : ℕ
ssid_max_len = 32

abbrev pub secret_keep : ℕ
secret_keep = 0

abbrev pub secret_replace : ℕ
secret_replace = 1

abbrev pub secret_clear : ℕ
secret_clear = 2
