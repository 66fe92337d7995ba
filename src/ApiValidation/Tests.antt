-- ===== src/ApiValidation/Tests.antt =====
-- The functions of api_validation.c run on concrete texts, and the theorems on them applied to such.
use cedar_switch_3i4o_power.Common.{
  ◌<◌, ◌≡◌, ◌≢◌, ◌↔◌, refl, true, false, none, some, [], ◌∷◌, ◌++◌, codes, arith, replicate,
}
use cedar_switch_3i4o_power.ApiValidation.Address.{
  api_parse_ipv4, Halves, ipv6_loop, out_of_fuel, api_parse_ipv6, api_ipv4_same_subnet,
  api_ipv4_is_usable_host,
}
use cedar_switch_3i4o_power.ApiValidation.Address.Ipv4.{print_ipv4, api_parse_ipv4-print}
use cedar_switch_3i4o_power.ApiValidation.Address.Ipv6.{ipv6_loop-ends}
use cedar_switch_3i4o_power.ApiValidation.Address.Groups.{group_text}
use cedar_switch_3i4o_power.ApiValidation.Address.Texts.{
  plain, gapped, print_ipv6, address_of, api_parse_ipv6-print,
}
use cedar_switch_3i4o_power.ApiValidation.Errors.{
  ApiError, api_error_str, api_error_init, field_code_names,
}
use cedar_switch_3i4o_power.ApiValidation.Text.{
  api_json_append_escaped, error_pieces, api_error_to_json,
}
use cedar_switch_3i4o_power.ApiValidation.Text.Appends.{escape_text}
use cedar_switch_3i4o_power.ApiValidation.Text.Escapes.{read_string, read_string-escape_text}
use cedar_switch_3i4o_power.ApiValidation.Text.ErrorJson.{
  pieces_text, Written, api_error_to_json-Written,
}

ipv4_read : api_parse_ipv4 (some (codes "192.168.4.1")) ≡ some (192 ∷ 168 ∷ 4 ∷ 1 ∷ [])
unfolding api_parse_ipv4
ipv4_read = refl

ipv4_leading_zero : api_parse_ipv4 (some (codes "192.168.04.1")) ≡ none
unfolding api_parse_ipv4
ipv4_leading_zero = refl

ipv6_read :
    api_parse_ipv6 (some (codes "fe80::1:2"))
    ≡ some (0xFE ∷ 0x80 ∷ (replicate 10 0 ++ (0 ∷ 1 ∷ 0 ∷ 2 ∷ [])))
unfolding api_parse_ipv6
ipv6_read = refl

ipv6_embedded :
    api_parse_ipv6 (some (codes "::ffff:10.0.0.1"))
    ≡ some (replicate 10 0 ++ (0xFF ∷ 0xFF ∷ 10 ∷ 0 ∷ 0 ∷ 1 ∷ []))
unfolding api_parse_ipv6 api_parse_ipv4
ipv6_embedded = refl

ipv6_two_gaps : api_parse_ipv6 (some (codes "1::2::3")) ≡ none
unfolding api_parse_ipv6
ipv6_two_gaps = refl

network_address : api_ipv4_is_usable_host (192 ∷ 168 ∷ 4 ∷ 0 ∷ []) 24 ≡ false
unfolding api_ipv4_is_usable_host
network_address = refl

other_subnet : api_ipv4_same_subnet (10 ∷ 0 ∷ 0 ∷ 1 ∷ []) (10 ∷ 0 ∷ 1 ∷ 1 ∷ []) 24 ≡ false
unfolding api_ipv4_same_subnet
other_subnet = refl

api_parse_ipv4-print_example :
    (api_parse_ipv4 (some (codes "10.0.0.255")) ≡ some (10 ∷ 0 ∷ 0 ∷ 255 ∷ [])) ↔ (
      (10 < 256)
      × (0 < 256)
      × (0 < 256)
      × (255 < 256)
      × (codes "10.0.0.255" ≡ print_ipv4 10 0 0 255))
api_parse_ipv4-print_example = api_parse_ipv4-print (codes "10.0.0.255") 10 0 0 255

abbrev no_address : Halves
no_address = record { head = []; tail = []; seen_compression = false }

ipv6_loop-ends_example : ipv6_loop 10 no_address (codes "1:2:3") ≢ out_of_fuel
ipv6_loop-ends_example = ipv6_loop-ends 10 no_address (codes "1:2:3") (omega arith)

-- fe80::0001:0002
api_parse_ipv6-print_example :
    api_parse_ipv6 (some (print_ipv6 (gapped (0xFE80 ∷ []) (1 ∷ 2 ∷ []))))
    ≡ address_of (gapped (0xFE80 ∷ []) (1 ∷ 2 ∷ []))
api_parse_ipv6-print_example =
    api_parse_ipv6-print (gapped (0xFE80 ∷ []) (1 ∷ 2 ∷ []))
      (omega arith, (omega arith, (omega arith, tt))) (omega arith)

link_local_text : print_ipv6 (gapped (0xFE80 ∷ []) (1 ∷ 2 ∷ [])) ≡ codes "fe80::0001:0002"
unfolding print_ipv6 group_text
link_local_text = refl

link_local_address :
    address_of (gapped (0xFE80 ∷ []) (1 ∷ 2 ∷ []))
    ≡ some (0xFE ∷ 0x80 ∷ (replicate 10 0 ++ (0 ∷ 1 ∷ 0 ∷ 2 ∷ [])))
unfolding address_of
link_local_address = refl

too_few_groups : address_of (plain (1 ∷ 2 ∷ 3 ∷ [])) ≡ none
unfolding address_of
too_few_groups = refl

busy_name : api_error_str 10 ≡ some (codes "busy")
unfolding api_error_str
busy_name = refl

escaped_too_long : (api_json_append_escaped (replicate 4 7) 4 1 (some (0x22 ∷ 10 ∷ []))).0 ≡ none
unfolding api_json_append_escaped
escaped_too_long = refl

read_string-escape_text_example :
    read_string 5 (escape_text (b'a' ∷ 0x22 ∷ 1 ∷ []) ++ (0x22 ∷ b',' ∷ []))
    ≡ some (b'a' ∷ 0x22 ∷ 1 ∷ [], b',' ∷ [])
read_string-escape_text_example =
    read_string-escape_text (b'a' ∷ 0x22 ∷ 1 ∷ []) (b',' ∷ []) 5 (omega arith)

abbrev not_found : ApiError
not_found = record {
  code = 9;
  message = codes "No such job";
  request_id = codes "req_00000001";
  fields = record { path = codes "/id"; code = 1 } ∷ [];
  fields_truncated = false;
  retry_after_seconds = 0;
}

api_error_to_json-Written_example :
    Written
      (replicate 200 0)
      (pieces_text (error_pieces not_found))
      (api_error_to_json not_found (replicate 200 0) 200)
api_error_to_json-Written_example =
    api_error_to_json-Written not_found (replicate 200 0) (omega arith) (omega arith)

not_found_body :
    pieces_text (error_pieces not_found)
    ≡ codes
        "{\"error\":{\"code\":\"not_found\",\"message\":\"No such job\",\"request_id\":\"req_00000001\",\"retryable\":false,\"fields\":[{\"path\":\"/id\",\"code\":\"invalid_format\"}]}}"
unfolding error_pieces escape_text field_code_names
not_found_body = refl

first_id :
    (api_error_init 9 none none 41 (record { state = 0; seeded = false })).1
    ≡ record { state = 42; seeded = true }
unfolding api_error_init
first_id = refl
