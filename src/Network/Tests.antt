-- ===== src/Network/Tests.antt =====
-- The functions of network_validate.c run on a concrete proposal, and the theorems on them applied to it.
use cedar_switch_3i4o_power.Common.{
  ◌≡◌, refl, true, false, none, some, [], ◌∷◌, bytes_eq, codes, arith, replicate,
}
use cedar_switch_3i4o_power.ApiValidation.Address.{
  api_ipv4_prefix_is_valid, api_ipv4_is_usable_host, api_ipv4_same_subnet,
}
use cedar_switch_3i4o_power.ApiValidation.Errors.{ApiError}
use cedar_switch_3i4o_power.Network.Types.{
  DeviceIpv4, DeviceConfig, NetworkConfigInput, IfaceStatus, NetworkStatus,
}
use cedar_switch_3i4o_power.Network.Check.{Judged}
use cedar_switch_3i4o_power.Network.Validate.{network_validate_config}
use cedar_switch_3i4o_power.Network.Validate.Judged.{network_validate_config-Judged}
use cedar_switch_3i4o_power.Network.Validate.Facts.{Accepted}
use cedar_switch_3i4o_power.Network.Validate.Accepted.{network_validate_config-Accepted}
use cedar_switch_3i4o_power.Network.Select.{
  network_config_is_healthy, network_select_default, Policy, network_select_default-Policy,
}
use cedar_switch_3i4o_power.Network.Healthy.{network_select_default-healthy}

abbrev dhcp : DeviceIpv4
dhcp = record {
  mode = 0;
  prefix_length = 0;
  has_gateway = false;
  address = replicate 4 0;
  gateway = replicate 4 0;
}

abbrev fixed : DeviceIpv4
fixed = record {
  mode = 1;
  prefix_length = 24;
  has_gateway = true;
  address = 192 ∷ 168 ∷ 4 ∷ 20 ∷ [];
  gateway = 192 ∷ 168 ∷ 4 ∷ 1 ∷ [];
}

abbrev config : DeviceConfig
config = record {
  preferred_interface = 0;
  dns = record {
    mode = 1;
    server_count = 1;
    servers = record { family = 4; bytes = 8 ∷ 8 ∷ 8 ∷ 8 ∷ [] } ∷ [];
  };
  ethernet = record { enabled = true; ipv4 = fixed };
  wifi = record {
    enabled = true;
    security = 1;
    ssid_len = 4;
    ssid = codes "home";
    password_set = true;
    ipv4 = dhcp;
  };
}

abbrev proposal : NetworkConfigInput
proposal = record {
  config = config;
  wifi_password = record { action = 0; value = none; len = 0 };
  ethernet_address_given = true;
  wifi_address_given = false;
  ssid_invalid = false;
}

abbrev up : IfaceStatus
up = record {
  present = true;
  link_up = true;
  has_ipv4 = true;
  has_route = true;
  wifi_associated = true;
  wifi_connecting = false;
  wifi_failed = false;
}

abbrev all_up : NetworkStatus
all_up = record { ethernet = up; wifi = up }

-- Wi-Fi has lost its address.
abbrev half_up : NetworkStatus
half_up = record { ethernet = up; wifi = record up { has_ipv4 = false } }

abbrev clean : ApiError
clean = record {
  code = 20;
  message = [];
  request_id = [];
  fields = [];
  fields_truncated = false;
  retry_after_seconds = 0;
}

accepted : (network_validate_config 8 proposal config all_up clean).0 ≡ true
unfolding network_validate_config api_ipv4_prefix_is_valid api_ipv4_is_usable_host
    api_ipv4_same_subnet bytes_eq
accepted = refl

-- The same proposal with the gateway in another network.
abbrev far_gateway : NetworkConfigInput
far_gateway = record proposal {
  config = record config {
    ethernet = record { enabled = true; ipv4 = record fixed { gateway = 192 ∷ 168 ∷ 5 ∷ 1 ∷ [] } };
  };
}

refused : (network_validate_config 8 far_gateway config all_up clean).0 ≡ false
unfolding network_validate_config api_ipv4_prefix_is_valid api_ipv4_is_usable_host
    api_ipv4_same_subnet bytes_eq
refused = refl

healthy : network_config_is_healthy config all_up ≡ true
unfolding network_config_is_healthy
healthy = refl

falls_back : network_select_default (record config { preferred_interface = 1 }) half_up ≡ some 0
unfolding network_select_default
falls_back = refl

network_validate_config-Judged_example :
    Judged clean (network_validate_config 8 far_gateway config all_up clean)
network_validate_config-Judged_example =
    network_validate_config-Judged 8 (omega arith) far_gateway config all_up clean

network_validate_config-Accepted_example : Accepted proposal config all_up
network_validate_config-Accepted_example =
    network_validate_config-Accepted 8 proposal config all_up clean accepted

network_select_default-Policy_example :
    Policy config half_up (network_select_default config half_up)
network_select_default-Policy_example = network_select_default-Policy config half_up

network_select_default-healthy_example : network_select_default config all_up ≡ some 0
network_select_default-healthy_example =
    network_select_default-healthy 8 proposal config all_up all_up clean accepted healthy
