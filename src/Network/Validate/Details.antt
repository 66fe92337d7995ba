-- ===== src/Network/Validate/Details.antt =====
-- What the checks of the resolvers and of the Wi-Fi network ensure.
use cedar_switch_3i4o_power.Common.{
  ℕ, zero, suc, ◌+◌, ◌<◌, ◌≤◌, ◌≡◌, ◌⊎◌, inl, inr, Bool, true, false, ◌&&◌, not, List, get_or, ltb,
  leb, ◌==◌, arith, Bool-cases,
}
use cedar_switch_3i4o_power.ApiValidation.Errors.{field_required, field_not_allowed}
use cedar_switch_3i4o_power.Network.Types.{
  DeviceAddr, dns_automatic, dns_manual, dns_mode_count, DeviceDns, DeviceConfig,
  NetworkConfigInput, wifi_open, wifi_security_count, ssid_max_len, secret_keep, dns_max_servers,
}
use cedar_switch_3i4o_power.Network.Parts.{bad_server, no_server, path_dns_servers, same_ssid}
use cedar_switch_3i4o_power.Network.Check.{
  pass, refuse, refuse_if, also, Ensures, weaken-Ensures, refuse-Ensures, refuse_if-Ensures,
  also-Ensures, if-Ensures,
}
use cedar_switch_3i4o_power.Network.Validate.{
  validate_servers, validate_dns, validate_ssid, validate_credential, validate_wifi,
}
use cedar_switch_3i4o_power.Network.Validate.Facts.{
  WifiFine, ServersFine, DnsFine, is_automatic, is_manual,
}

module _ (max_fields : ℕ) where
  validate_servers-Ensures :
      (left i : ℕ) (servers : List DeviceAddr)
      → Ensures (validate_servers max_fields left i servers) (ServersFine left i servers)
  unfolding validate_servers ServersFine
  validate_servers-Ensures zero i servers = record { ensures = λ err h. tt }
  validate_servers-Ensures (suc left) i servers =
      also-Ensures _ _ (refuse_if-Ensures max_fields (bad_server (get_or servers i no_server)) _ _)
        (validate_servers-Ensures left (i + 1) servers)

  pub validate_dns-Ensures : (dns : DeviceDns) → Ensures (validate_dns max_fields dns) (DnsFine dns)
  unfolding validate_dns
  validate_dns-Ensures dns =
      if-Ensures (leb dns_mode_count dns.mode) _ _ (λ out. refuse-Ensures max_fields _ _)
        (λ known.
          if-Ensures (ltb dns_max_servers dns.server_count) _ _
            (λ many.
              weaken-Ensures _ (λ facts. facts.1)
                (also-Ensures _ _ counted (refuse-Ensures max_fields _ _)))
            (λ few.
              weaken-Ensures _ (λ facts. fine known few facts.0 facts.1)
                (also-Ensures _ _ counted
                  (validate_servers-Ensures dns.server_count 0 dns.servers))))
    where
      automatic : Bool
      automatic = dns.mode == dns_automatic && not (dns.server_count == 0)

      manual : Bool
      manual = dns.mode == dns_manual && dns.server_count == 0

      counted :
          Ensures
            (also
              (refuse_if max_fields automatic path_dns_servers field_not_allowed)
              (refuse_if max_fields manual path_dns_servers field_required))
            ((automatic ≡ false) × (manual ≡ false))
      counted =
          also-Ensures _ _ (refuse_if-Ensures max_fields automatic _ _)
            (refuse_if-Ensures max_fields manual _ _)

      fine :
          leb dns_mode_count dns.mode ≡ false
          → ltb dns_max_servers dns.server_count ≡ false
          → (automatic ≡ false) × (manual ≡ false)
          → ServersFine dns.server_count 0 dns.servers
          → DnsFine dns
      fine known few facts servers = elim (Bool-cases (dns.mode == dns_automatic)) [
        | inl auto ↦ is_automatic (ground arith) (ground arith)
        | inr listed ↦ is_manual (ground arith) (ground arith) (ground arith) servers
      ]

  validate_ssid-Ensures :
      (input : NetworkConfigInput)
      → Ensures (validate_ssid max_fields input) (
          (input.ssid_invalid ≡ false)
          × (0 < input.config.wifi.ssid_len)
          × (input.config.wifi.ssid_len ≤ ssid_max_len))
  unfolding validate_ssid refuse_if refuse pass
  validate_ssid-Ensures input = record { ensures = λ err h. ground arith }

  validate_credential-Ensures :
      (input : NetworkConfigInput) (committed : DeviceConfig)
      → Ensures (validate_credential max_fields input committed) (
          ¬ (input.wifi_password.action ≡ secret_keep)
          ⊎ ((input.config.wifi.security ≡ wifi_open)
              ⊎ ((committed.wifi.password_set ≡ true)
                  × (same_ssid input committed ≡ true)
                  × (committed.wifi.security ≡ input.config.wifi.security))))
  unfolding validate_credential refuse_if refuse pass
  validate_credential-Ensures input committed = record { ensures = λ err h. ground arith }

  pub validate_wifi-Ensures :
      (input : NetworkConfigInput) (committed : DeviceConfig)
      → Ensures
          (validate_wifi max_fields input committed)
          ((input.config.wifi.enabled ≡ false) ⊎ WifiFine input committed)
  unfolding validate_wifi
  validate_wifi-Ensures input committed =
      if-Ensures (not input.config.wifi.enabled) _ _
        (λ off. record { ensures = λ err h. inl (ground arith) })
        (λ on.
          if-Ensures (leb wifi_security_count input.config.wifi.security) _ _
            (λ unknown.
              weaken-Ensures _ (λ facts. facts.1)
                (also-Ensures _ _ (validate_ssid-Ensures input) (refuse-Ensures max_fields _ _)))
            (λ known.
              weaken-Ensures _
                (λ facts. inr record {
                  ssid_there = facts.0.0;
                  ssid_some = facts.0.1;
                  ssid_room = facts.0.2;
                  security_known = ground arith;
                  password_there = facts.1;
                })
                (also-Ensures _ _ (validate_ssid-Ensures input)
                  (validate_credential-Ensures input committed))))
