-- ===== src/Network/Select.antt =====
-- What the device does with the status of its interfaces: `network_config_is_healthy`,
-- `network_iface_state_of` and `network_select_default` of network_validate.c.
use cedar_switch_3i4o_power.Common.{
  ℕ, zero, suc, ◌<◌, ◌≤◌, ◌≡◌, ◌⊎◌, inl, inr, refl, Bool, true, false, ◌&&◌, ◌||◌, not, Option,
  none, some, ◌==◌, if◌then◌else◌, Bool-cases, arith,
}
use cedar_switch_3i4o_power.Network.Types.{
  DeviceIpv4, DeviceConfig, IfaceStatus, NetworkStatus, interface_ethernet, interface_wifi,
  ipv4_static,
}
use cedar_switch_3i4o_power.Network.Parts.{interface_enabled}

-- `enum network_iface_state`
pub data NetworkIfaceState : Type 0 where
  iface_disabled : NetworkIfaceState
  iface_down : NetworkIfaceState
  iface_connecting : NetworkIfaceState
  iface_connected : NetworkIfaceState
  iface_addressing : NetworkIfaceState
  iface_ready : NetworkIfaceState
  iface_failed : NetworkIfaceState

-- One round of the loop of `network_config_is_healthy`.
unfoldable pub iface_healthy : DeviceIpv4 → IfaceStatus → Bool → Bool
iface_healthy ipv4 st enabled =
    if not enabled
    then true
    else if not st.present || not st.link_up || not st.has_ipv4
    then false
    else not (ipv4.mode == ipv4_static && ipv4.has_gateway && not st.has_route)

unfoldable pub network_config_is_healthy : DeviceConfig → NetworkStatus → Bool
unfolding iface_healthy
network_config_is_healthy cfg status =
    iface_healthy cfg.ethernet.ipv4 status.ethernet cfg.ethernet.enabled
    && iface_healthy cfg.wifi.ipv4 status.wifi cfg.wifi.enabled

unfoldable pub network_iface_state_of : ℕ → IfaceStatus → Bool → NetworkIfaceState
network_iface_state_of iface st enabled =
    if not enabled
    then iface_disabled
    else if not st.present
    then iface_failed
    else if iface == interface_wifi && not st.wifi_associated
    then if st.wifi_connecting
      then iface_connecting
      else if st.wifi_failed
      then iface_failed
      else iface_down
    else if not st.link_up
    then iface_down
    else if st.has_ipv4
    then iface_ready
    else iface_addressing

unfoldable pub iface_status : NetworkStatus → ℕ → IfaceStatus
iface_status status iface = if iface == interface_ethernet then status.ethernet else status.wifi

unfoldable pub can_carry_traffic : DeviceConfig → NetworkStatus → ℕ → Bool
unfolding interface_enabled iface_status
can_carry_traffic cfg status iface =
    let st = iface_status status iface in
    interface_enabled cfg iface && st.present && st.link_up && st.has_ipv4

-- The preferred interface, Ethernet for a number that is none.
unfoldable pub preferred_of : DeviceConfig → ℕ
preferred_of cfg =
    if cfg.preferred_interface == interface_wifi then interface_wifi else interface_ethernet

unfoldable pub other_of : ℕ → ℕ
other_of preferred = if preferred == interface_wifi then interface_ethernet else interface_wifi

-- `*out` where the function returns true
unfoldable pub network_select_default : DeviceConfig → NetworkStatus → Option ℕ
unfolding can_carry_traffic preferred_of other_of
network_select_default cfg status =
    let preferred = preferred_of cfg in
    let other = other_of preferred in
    if can_carry_traffic cfg status preferred
    then some preferred
    else if can_carry_traffic cfg status other
    then some other
    else none

-- An interface carries traffic: it is enabled, present, up and has an address.
pub Carries : DeviceConfig → NetworkStatus → ℕ → Type 0
Carries cfg status zero =
    (cfg.ethernet.enabled ≡ true)
    × (status.ethernet.present ≡ true)
    × (status.ethernet.link_up ≡ true)
    × (status.ethernet.has_ipv4 ≡ true)
Carries cfg status (suc _) =
    (cfg.wifi.enabled ≡ true)
    × (status.wifi.present ≡ true)
    × (status.wifi.link_up ≡ true)
    × (status.wifi.has_ipv4 ≡ true)

-- The interface that the configuration prefers: the one it names, and Ethernet if it names none.
pub Prefers : DeviceConfig → ℕ → Type 0
Prefers cfg iface =
    ((cfg.preferred_interface ≡ iface) × (iface < 2))
    ⊎ ((2 ≤ cfg.preferred_interface) × (iface ≡ interface_ethernet))

-- The policy: an interface that carries traffic, the preferred one if it does, and none only if none does.
pub Policy : DeviceConfig → NetworkStatus → Option ℕ → Type 0
Policy cfg status none =
    (¬ Carries cfg status interface_ethernet) × (¬ Carries cfg status interface_wifi)
Policy cfg status (some iface) =
    (iface < 2)
    × Carries cfg status iface
    × (Prefers cfg iface ⊎ ((other : ℕ) × Prefers cfg other × (¬ Carries cfg status other)))

can_carry_traffic-Carries :
    (cfg : DeviceConfig) (status : NetworkStatus) (iface : ℕ)
    → can_carry_traffic cfg status iface ≡ true
    → Carries cfg status iface
unfolding can_carry_traffic Carries
can_carry_traffic-Carries cfg status zero h = ground arith
can_carry_traffic-Carries cfg status (suc n) h = ground arith

can_carry_traffic_not :
    (cfg : DeviceConfig) (status : NetworkStatus) (iface : ℕ)
    → can_carry_traffic cfg status iface ≡ false
    → ¬ Carries cfg status iface
unfolding can_carry_traffic Carries
can_carry_traffic_not cfg status zero h c = ground arith
can_carry_traffic_not cfg status (suc n) h c = ground arith

preferred_of-Prefers : (cfg : DeviceConfig) → Prefers cfg (preferred_of cfg)
unfolding preferred_of Prefers
preferred_of-Prefers cfg = ground arith

preferred_of-cases :
    (cfg : DeviceConfig)
    → ((preferred_of cfg ≡ interface_wifi) × (other_of (preferred_of cfg) ≡ interface_ethernet))
      ⊎ ((preferred_of cfg ≡ interface_ethernet) × (other_of (preferred_of cfg) ≡ interface_wifi))
unfolding preferred_of other_of
preferred_of-cases cfg = elim (Bool-cases (cfg.preferred_interface == interface_wifi)) [
  | inl h ↦ rw h (inl (refl, refl))
  | inr h ↦ rw h (inr (refl, refl))
]

in_range : (cfg : DeviceConfig) → (preferred_of cfg < 2) × (other_of (preferred_of cfg) < 2)
in_range cfg = elim (preferred_of-cases cfg) [
  | inl (is_wifi, is_eth) ↦ (rw is_wifi (omega arith), rw is_eth (omega arith))
  | inr (is_eth, is_wifi) ↦ (rw is_eth (omega arith), rw is_wifi (omega arith))
]

-- `network_select_default` follows the policy: what it chooses is enabled, present, up and has an
-- address, it is the interface that the configuration names (Ethernet, if that is none) unless that one
-- does not carry traffic, and nothing is chosen only if neither interface carries traffic.
pub network_select_default-Policy :
    (cfg : DeviceConfig) (status : NetworkStatus)
    → Policy cfg status (network_select_default cfg status)
unfolding Policy network_select_default
network_select_default-Policy cfg status =
    let preferred = preferred_of cfg in
    let other = other_of preferred in
    elim (Bool-cases (can_carry_traffic cfg status preferred)) [
      | inl first ↦ rw first (
        (in_range cfg).0,
        can_carry_traffic-Carries cfg status preferred first,
        inl (preferred_of-Prefers cfg),
      )
      | inr no_first ↦ elim (Bool-cases (can_carry_traffic cfg status other)) [
        | inl second ↦
            rw (no_first, second)
              (
                (in_range cfg).1,
                can_carry_traffic-Carries cfg status other second,
                inr (
                  preferred,
                  preferred_of-Prefers cfg,
                  can_carry_traffic_not cfg status preferred no_first,
                ),
              )
        | inr no_second ↦ rw (no_first, no_second) (neither no_first no_second)
      ]
    ]
  where
    neither :
        can_carry_traffic cfg status (preferred_of cfg) ≡ false
        → can_carry_traffic cfg status (other_of (preferred_of cfg)) ≡ false
        → (¬ Carries cfg status interface_ethernet) × (¬ Carries cfg status interface_wifi)
    neither p o =
        let at_first = can_carry_traffic_not cfg status (preferred_of cfg) p in
        let at_other = can_carry_traffic_not cfg status (other_of (preferred_of cfg)) o in
        elim (preferred_of-cases cfg) [
          | inl (is_wifi, is_eth) ↦ (rw is_eth at at_other, rw is_wifi at at_first)
          | inr (is_eth, is_wifi) ↦ (rw is_eth at at_first, rw is_wifi at at_other)
        ]
