-- ===== src/Network/Validate/FinePaths.antt =====
-- The paths that the checks name are ones that an error takes.
use cedar_switch_3i4o_power.Common.{
  ℕ, zero, suc, ◌<◌, ◌≡◌, inl, inr, refl, true, some, ◌++◌, Bytes, codes, take, ◌==◌, arith,
  Bool-cases,
}
use cedar_switch_3i4o_power.ApiValidation.Errors.{path_is_valid}
use cedar_switch_3i4o_power.Network.Types.{interface_ethernet}
use cedar_switch_3i4o_power.Network.Parts.{
  path_eth, path_wifi, path_dns_servers, path_preferred, ipv4_path, server_path,
}

pub ipv4_path-fine :
    (field : Bytes)
    → path_is_valid (some (take 95 (path_eth ++ (codes "/ipv4/" ++ field)))) ≡ true
    → path_is_valid (some (take 95 (path_wifi ++ (codes "/ipv4/" ++ field)))) ≡ true
    → (iface : ℕ) → path_is_valid (some (ipv4_path iface field)) ≡ true
unfolding ipv4_path
ipv4_path-fine field eth wifi iface = elim (Bool-cases (iface == interface_ethernet)) [
  | inl is_eth ↦ rw is_eth eth
  | inr is_wifi ↦ rw is_wifi wifi
]

pub address_fine : (iface : ℕ) → path_is_valid (some (ipv4_path iface (codes "address"))) ≡ true
address_fine =
    ipv4_path-fine (codes "address") (unfold path_is_valid in refl) (unfold path_is_valid in refl)

pub prefix_fine :
    (iface : ℕ) → path_is_valid (some (ipv4_path iface (codes "prefix_length"))) ≡ true
prefix_fine =
    ipv4_path-fine (codes "prefix_length") (unfold path_is_valid in refl)
      (unfold path_is_valid in refl)

pub gateway_fine : (iface : ℕ) → path_is_valid (some (ipv4_path iface (codes "gateway"))) ≡ true
gateway_fine =
    ipv4_path-fine (codes "gateway") (unfold path_is_valid in refl) (unfold path_is_valid in refl)

pub mode_fine : (iface : ℕ) → path_is_valid (some (ipv4_path iface (codes "mode"))) ≡ true
mode_fine =
    ipv4_path-fine (codes "mode") (unfold path_is_valid in refl) (unfold path_is_valid in refl)

pub server_path-fine : (i : ℕ) → i < 2 → path_is_valid (some (server_path i)) ≡ true
unfolding server_path path_is_valid
server_path-fine zero h = refl
server_path-fine (suc zero) h = refl
server_path-fine (suc (suc i)) h = absurd (omega arith)

pub mode_path_fine : path_is_valid (some (codes "/config/dns/mode")) ≡ true
mode_path_fine = unfold path_is_valid in refl

pub servers_fine : path_is_valid (some path_dns_servers) ≡ true
servers_fine = unfold path_is_valid in refl

pub preferred_fine : path_is_valid (some path_preferred) ≡ true
preferred_fine = unfold path_is_valid in refl

pub ssid_fine : path_is_valid (some (path_wifi ++ codes "/ssid_base64")) ≡ true
ssid_fine = unfold path_is_valid in refl

pub security_fine : path_is_valid (some (path_wifi ++ codes "/security")) ≡ true
security_fine = unfold path_is_valid in refl

pub credential_fine : path_is_valid (some (path_wifi ++ codes "/credential")) ≡ true
credential_fine = unfold path_is_valid in refl

pub action_fine : path_is_valid (some (path_wifi ++ codes "/credential/action")) ≡ true
action_fine = unfold path_is_valid in refl

pub eth_fine : path_is_valid (some (path_eth ++ codes "/enabled")) ≡ true
eth_fine = unfold path_is_valid in refl

pub wifi_fine : path_is_valid (some (path_wifi ++ codes "/enabled")) ≡ true
wifi_fine = unfold path_is_valid in refl
