-- ===== src/Network/Validate/Blocks.antt =====
-- What the checks of an address block ensure.
use cedar_switch_3i4o_power.Common.{ℕ, ◌≡◌, ◌⊎◌, Bool, true, false, ◌||◌, not, leb, ◌==◌, arith}
use cedar_switch_3i4o_power.ApiValidation.Address.{
  api_ipv4_prefix_is_valid, api_ipv4_is_usable_host, api_ipv4_same_subnet,
}
use cedar_switch_3i4o_power.Network.Types.{DeviceIpv4, ipv4_mode_count, ipv4_dhcp}
use cedar_switch_3i4o_power.Network.Parts.{addr_is_zero, same_address}
use cedar_switch_3i4o_power.Network.Check.{
  pass, refuse, refuse_if, Ensures, weaken-Ensures, refuse-Ensures, refuse_if-Ensures, also-Ensures,
  unless_failed-Ensures, if-Ensures,
}
use cedar_switch_3i4o_power.Network.Validate.{
  validate_dhcp, validate_gateway, validate_prefix, validate_static, validate_ipv4,
}
use cedar_switch_3i4o_power.Network.Validate.Facts.{StaticFine, BlockFine, is_dhcp, is_static}

module _ (max_fields : ℕ) where
  validate_gateway-Ensures :
      (ipv4 : DeviceIpv4) (iface : ℕ)
      → Ensures (validate_gateway max_fields ipv4 iface) (
          (ipv4.has_gateway ≡ false)
          ⊎ ((api_ipv4_is_usable_host ipv4.gateway ipv4.prefix_length ≡ true)
              × (api_ipv4_same_subnet ipv4.address ipv4.gateway ipv4.prefix_length ≡ true)
              × (same_address ipv4 ≡ false)))
  unfolding validate_gateway refuse_if refuse pass
  validate_gateway-Ensures ipv4 iface = record { ensures = λ err h. ground arith }

  validate_prefix-Ensures :
      (ipv4 : DeviceIpv4) (iface : ℕ)
      → Ensures
          (validate_prefix max_fields ipv4 iface)
          (api_ipv4_prefix_is_valid ipv4.prefix_length ≡ true)
  unfolding validate_prefix refuse_if refuse pass
  validate_prefix-Ensures ipv4 iface = record { ensures = λ err h. ground arith }

  validate_static-Ensures :
      (ipv4 : DeviceIpv4) (has_address : Bool) (iface : ℕ)
      → Ensures
          (validate_static max_fields ipv4 has_address iface)
          ((has_address ≡ true) × StaticFine ipv4)
  unfolding validate_static
  validate_static-Ensures ipv4 has_address iface =
      let usable = api_ipv4_is_usable_host ipv4.address ipv4.prefix_length in
      weaken-Ensures _
        (λ facts. (
          not_false has_address facts.0.0,
          record {
            prefix_fine = facts.0.1;
            address_fine = not_false _ facts.1.0;
            gateway_usable = ground arith;
            gateway_near = ground arith;
            gateway_other = ground arith;
          },
        ))
        (unless_failed-Ensures _ _
          (also-Ensures _ _ (refuse_if-Ensures max_fields (not has_address) _ _)
            (validate_prefix-Ensures ipv4 iface))
          (unless_failed-Ensures _ _ (refuse_if-Ensures max_fields (not usable) _ _)
            (validate_gateway-Ensures ipv4 iface)))
    where
      not_false : (b : Bool) → not b ≡ false → b ≡ true
      not_false b h = ground arith

  validate_dhcp-Ensures :
      (ipv4 : DeviceIpv4) (has_address : Bool) (iface : ℕ)
      → Ensures
          (validate_dhcp max_fields ipv4 has_address iface)
          ((has_address ≡ false) × (ipv4.prefix_length ≡ 0) × (ipv4.has_gateway ≡ false))
  unfolding validate_dhcp
  validate_dhcp-Ensures ipv4 has_address iface =
      weaken-Ensures _ (λ facts. (facts.0, is_zero _ facts.1.0, facts.1.1))
        (also-Ensures _ _ (refuse_if-Ensures max_fields has_address _ _) (
          also-Ensures _ _ (refuse_if-Ensures max_fields (not (ipv4.prefix_length == 0)) _ _)
            (refuse_if-Ensures max_fields ipv4.has_gateway _ _)))
    where
      is_zero : (n : ℕ) → not (n == 0) ≡ false → n ≡ 0
      is_zero n h = ground arith

  pub validate_ipv4-Ensures :
      (ipv4 : DeviceIpv4) (given : Bool) (iface : ℕ)
      → Ensures (validate_ipv4 max_fields ipv4 given iface) (BlockFine ipv4 given)
  unfolding validate_ipv4
  validate_ipv4-Ensures ipv4 given iface =
      let has_address = given || not (addr_is_zero ipv4.address 4) in
      if-Ensures (leb ipv4_mode_count ipv4.mode) _ _ (λ out. refuse-Ensures max_fields _ _)
        (λ known.
          if-Ensures (ipv4.mode == ipv4_dhcp) _ _
            (λ dhcp.
              weaken-Ensures _
                (λ facts.
                  let none = neither given (addr_is_zero ipv4.address 4) facts.0 in
                  is_dhcp (ground arith) none.0 none.1 facts.1 facts.2)
                (validate_dhcp-Ensures ipv4 has_address iface))
            (λ not_dhcp.
              weaken-Ensures _
                (λ facts.
                  is_static (ground arith) (either given (addr_is_zero ipv4.address 4) facts.0)
                    facts.1)
                (validate_static-Ensures ipv4 has_address iface)))
    where
      neither : (a z : Bool) → (a || not z) ≡ false → (a ≡ false) × (z ≡ true)
      neither a z h = ground arith

      either : (a z : Bool) → (a || not z) ≡ true → (a ≡ true) ⊎ (z ≡ false)
      either a z h = ground arith
