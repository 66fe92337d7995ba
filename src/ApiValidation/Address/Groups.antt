-- ===== src/ApiValidation/Address/Groups.antt =====
-- The texts of IPv6 addresses: groups of four hexadecimal digits, with `::` for groups of zeros.
use cedar_switch_3i4o_power.Common.{
  ℕ, suc, ◌+◌, ◌*◌, ◌/◌, ◌%◌, ◌^◌, ◌<◌, ◌≤◌, ◌≡◌, refl, ap, ◌∙◌, false, some, List, [], ◌∷◌, ◌++◌,
  Bytes, length, ltb, ◌==◌, arith,
}
use cedar_switch_3i4o_power.ApiValidation.Errors.{hex_char}
use cedar_switch_3i4o_power.ApiValidation.Address.{
  Halves, part, add_part, hex_digit, hex_digits, group_checks, parse_hex_group, has_dot,
  after_group, group_round, ipv6_round,
}

-- The four digits of a group.
unfoldable pub group_text : ℕ → Bytes
group_text g =
    hex_char (g / 4096) ∷ hex_char (g / 256 % 16) ∷ hex_char (g / 16 % 16) ∷ hex_char (g % 16) ∷ []

-- The groups behind the first, each after a colon, and all groups.
unfoldable pub more_groups : List ℕ → Bytes
more_groups [] = []
more_groups (g ∷ gs) = b':' ∷ (group_text g ++ more_groups gs)

unfoldable pub groups_text : List ℕ → Bytes
unfolding more_groups
groups_text [] = []
groups_text (g ∷ gs) = group_text g ++ more_groups gs

abbrev pub two : ℕ → Bytes
two g = (g / 2 ^ 8 % 256) ∷ (g % 256) ∷ []

unfoldable pub groups_bytes : List ℕ → Bytes
groups_bytes [] = []
groups_bytes (g ∷ gs) = two g ++ groups_bytes gs

hex_digit-hex_char : (d : ℕ) → d < 16 → hex_digit (hex_char d) ≡ some d
unfolding hex_digit
hex_digit-hex_char d h = ground arith

pub not_colon : (d : ℕ) → d < 16 → (hex_char d == b':') ≡ false
not_colon d h = ground arith

not_dot : (d : ℕ) → d < 16 → (hex_char d == b'.') ≡ false
not_dot d h = ground arith

hex_digits-hex_char :
    (left d : ℕ) (s : Bytes) (len value : ℕ)
    → d < 16
    → hex_digits (suc left) (hex_char d ∷ s) len value
      ≡ hex_digits left s (len + 1) (value * 2 ^ 4 + d)
unfolding hex_digits
hex_digits-hex_char left d s len value h = rw (hex_digit-hex_char d h, hex_digits) refl

-- A group is read back.
parse_hex_group-group_text :
    (g : ℕ) (rest : Bytes) → g < 65536 → parse_hex_group (group_text g ++ rest) ≡ some (g, rest)
unfolding parse_hex_group group_text hex_digits group_checks
parse_hex_group-group_text g rest small =
    let a = g / 4096 in
    let b = g / 256 % 16 in
    let c = g / 16 % 16 in
    let d = g % 16 in
    let value : (((0 * 2 ^ 4 + a) * 2 ^ 4 + b) * 2 ^ 4 + c) * 2 ^ 4 + d ≡ g = omega arith in
    let read =
      hex_digits-hex_char 3 a (hex_char b ∷ hex_char c ∷ hex_char d ∷ rest) 0 0 (omega arith)
      ∙ hex_digits-hex_char 2 b (hex_char c ∷ hex_char d ∷ rest) 1 (0 * 2 ^ 4 + a) (omega arith)
      ∙ hex_digits-hex_char 1 c (hex_char d ∷ rest) 2 ((0 * 2 ^ 4 + a) * 2 ^ 4 + b) (omega arith)
      ∙ hex_digits-hex_char 0 d rest 3 (((0 * 2 ^ 4 + a) * 2 ^ 4 + b) * 2 ^ 4 + c) (omega arith) in
    ap group_checks read ∙ ended g rest _ value
  where
    ended :
        (g : ℕ) (rest : Bytes) (v : ℕ)
        → v ≡ g
        → group_checks (hex_digits 0 rest 4 v) ≡ some (g, rest)
    ended g rest v e = rw e refl

-- What may stand behind a group.
unfoldable pub Behind : Bytes → Type 0
Behind [] = Unit
Behind (c ∷ s) = c ≡ b':'

has_dot-group_text :
    (g : ℕ) (rest : Bytes) → g < 65536 → Behind rest → has_dot (group_text g ++ rest) ≡ false
unfolding has_dot group_text Behind
has_dot-group_text g [] small h =
    rw
      (
        not_colon (g / 4096) (omega arith),
        not_colon (g / 256 % 16) (omega arith),
        not_colon (g / 16 % 16) (omega arith),
        not_colon (g % 16) (omega arith),
        not_dot (g / 4096) (omega arith),
        not_dot (g / 256 % 16) (omega arith),
        not_dot (g / 16 % 16) (omega arith),
        not_dot (g % 16) (omega arith),
      )
      refl
has_dot-group_text g (c ∷ s) small h =
    rw
      (
        h,
        not_colon (g / 4096) (omega arith),
        not_colon (g / 256 % 16) (omega arith),
        not_colon (g / 16 % 16) (omega arith),
        not_colon (g % 16) (omega arith),
        not_dot (g / 4096) (omega arith),
        not_dot (g / 256 % 16) (omega arith),
        not_dot (g / 16 % 16) (omega arith),
        not_dot (g % 16) (omega arith),
      )
      refl

-- One round takes a group.
pub ipv6_round-group_text :
    (h : Halves) (g : ℕ) (rest : Bytes)
    → g < 65536
    → Behind rest
    → length (part h) + 2 ≤ 16
    → ipv6_round h (group_text g ++ rest) ≡ after_group (add_part h (two g)) rest
unfolding ipv6_round group_round
ipv6_round-group_text h g rest small behind room =
    let fits : ltb 16 (length (part h) + 2) ≡ false = ground arith in
    rw (has_dot-group_text g rest small behind, parse_hex_group-group_text g rest small, fits) refl
