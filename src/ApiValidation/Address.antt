-- ===== src/ApiValidation/Address.antt =====
-- IP addresses: `api_parse_ipv4`, `api_parse_ipv6` and the tests on IPv4 addresses. A parser takes the
-- text from its position on and gives what is left of it, in place of the number of bytes read; `none`
-- is -EINVAL, and a text is the bytes before its terminator.
pub mod Ipv4
pub mod Ipv6
pub mod Groups
pub mod Rounds
pub mod Texts
use cedar_switch_3i4o_power.Common.{
  ℕ, zero, suc, ◌+◌, ◌-◌, ◌*◌, ◌/◌, ◌%◌, ◌^◌, Bool, true, false, ◌&&◌, ◌||◌, not, Option, none,
  some, List, [], ◌∷◌, ◌++◌, Bytes, length, get_or, take, drop, replicate, ltb, leb, ◌==◌,
  if◌then◌else◌, ◌>>=◌,
}

abbrev pub is_digit : ℕ → Bool
is_digit c = leb b'0' c && leb c b'9'

-- The loop of `parse_octet`, after `len` digits of value `value`.
unfoldable pub octet_digits : Bytes → ℕ → ℕ → Option (ℕ × ℕ × Bytes)
octet_digits [] len value = some (len, value, [])
octet_digits (c ∷ s) len value =
    let rest = octet_digits s (len + 1) (value * 10 + (c - b'0')) in
    if is_digit c then if len == 3 then none else rest else some (len, value, c ∷ s)

-- The checks after the loop, on the first byte, the number of digits and the value.
unfoldable pub octet_checks : ℕ → ℕ × ℕ × Bytes → Option (ℕ × Bytes)
octet_checks first (len, value, rest) =
    if ltb 1 len && first == b'0' then none else if ltb 255 value then none else some (value, rest)

unfoldable pub parse_octet : Bytes → Option (ℕ × Bytes)
unfolding octet_digits octet_checks
parse_octet s =
    let first = get_or s 0 0 in
    if not (is_digit first) then none else octet_digits s 0 0 >>= octet_checks first

-- `text[pos] != '.'`
unfoldable pub dot : Bytes → Option Bytes
dot [] = none
dot (c ∷ s) = if c == b'.' then some s else none

-- Nothing may follow.
unfoldable pub at_end : Bytes → Bytes → Option Bytes
at_end out [] = some out
at_end out (_ ∷ _) = none

unfoldable pub api_parse_ipv4 : Option Bytes → Option Bytes
unfolding parse_octet dot at_end
api_parse_ipv4 none = none
api_parse_ipv4 (some text) = do
  (a, after_a) ← parse_octet text
  at_b ← dot after_a
  (b, after_b) ← parse_octet at_b
  at_c ← dot after_b
  (c, after_c) ← parse_octet at_c
  at_d ← dot after_c
  (d, after_d) ← parse_octet at_d
  at_end (a ∷ b ∷ c ∷ d ∷ []) after_d

-- The value of a hexadecimal digit; `none` is the `break`.
unfoldable pub hex_digit : ℕ → Option ℕ
hex_digit c =
    if leb b'0' c && leb c b'9'
    then some (c - b'0')
    else if leb b'a' c && leb c b'f'
    then some (c - b'a' + 10)
    else if leb b'A' c && leb c b'F'
    then some (c - b'A' + 10)
    else none

-- The loop of `parse_hex_group`, with `left` of the four digits to go.
unfoldable pub hex_digits : ℕ → Bytes → ℕ → ℕ → ℕ × ℕ × Bytes
unfolding hex_digit
hex_digits zero s len value = (len, value, s)
hex_digits (suc left) [] len value = (len, value, [])
hex_digits (suc left) (c ∷ s) len value = elim (hex_digit c) [
  | none ↦ (len, value, c ∷ s)
  | some digit ↦ hex_digits left s (len + 1) (value * 2 ^ 4 + digit)
]

unfoldable pub group_checks : ℕ × ℕ × Bytes → Option (ℕ × Bytes)
group_checks (len, value, rest) = if len == 0 then none else some (value, rest)

unfoldable pub parse_hex_group : Bytes → Option (ℕ × Bytes)
unfolding hex_digits group_checks
parse_hex_group s = group_checks (hex_digits 4 s 0 0)

-- The scan for a dot before the next colon.
unfoldable pub has_dot : Bytes → Bool
has_dot [] = false
has_dot (c ∷ s) =
    let rest = has_dot s in if c == b':' then false else if c == b'.' then true else rest

-- `head` and `tail` with their lengths, and whether `::` was seen: then `part` is `tail`.
pub record Halves : Type 0 where
  pub head : Bytes
  pub tail : Bytes
  pub seen_compression : Bool

abbrev pub part : Halves → Bytes
part h = if h.seen_compression then h.tail else h.head

unfoldable pub add_part : Halves → Bytes → Halves
add_part h bytes =
    if h.seen_compression
    then record h { tail = h.tail ++ bytes }
    else record h { head = h.head ++ bytes }

-- What follows a group: the end, or a colon, or the `::`. The Boolean says that the loop goes on.
unfoldable pub after_colon : Halves → Bytes → Option (Bool × Halves × Bytes)
after_colon h [] = none
after_colon h (c ∷ s) =
    if c == b':'
    then if h.seen_compression
      then none
      else some (not (length s == 0), record h { seen_compression = true }, s)
    else some (true, h, c ∷ s)

unfoldable pub after_group : Halves → Bytes → Option (Bool × Halves × Bytes)
unfolding after_colon
after_group h [] = some (false, h, [])
after_group h (c ∷ s) = if c == b':' then after_colon h s else none

-- An IPv4 address at the end, which ends the loop.
unfoldable pub embedded_round : Halves → Bytes → Option (Bool × Halves × Bytes)
unfolding add_part
embedded_round h text = do
  v4 ← api_parse_ipv4 (some text)
  if ltb 16 (length (part h) + 4) then none else some (false, add_part h v4, [])

unfoldable pub group_round : Halves → Bytes → Option (Bool × Halves × Bytes)
unfolding add_part parse_hex_group after_group
group_round h text = do
  (group, rest) ← parse_hex_group text
  let bytes = (group / 2 ^ 8 % 256) ∷ (group % 256) ∷ []
  if ltb 16 (length (part h) + 2) then none else after_group (add_part h bytes) rest

-- One round of the loop, at a text that is not at its end.
unfoldable pub ipv6_round : Halves → Bytes → Option (Bool × Halves × Bytes)
unfolding has_dot embedded_round group_round
ipv6_round h text = if has_dot text then embedded_round h text else group_round h text

-- What the loop comes to: it was refused, or it is finished. To run out of fuel is neither.
pub data LoopEnd : Type 0 where
  out_of_fuel refused : LoopEnd
  finished : Halves → LoopEnd

-- The loop.
unfoldable pub ipv6_loop : ℕ → Halves → Bytes → LoopEnd
unfolding ipv6_round
ipv6_loop zero h text = out_of_fuel
ipv6_loop (suc fuel) h [] = finished h
ipv6_loop (suc fuel) h (c ∷ s) = elim (ipv6_round h (c ∷ s)) [
  | none ↦ refused
  | some (more, next, rest) ↦
      let later = ipv6_loop fuel next rest in if more then later else finished next
]

-- The two halves put together, with the zeros that `::` stands for.
unfoldable pub join_halves : Halves → Option Bytes
join_halves h =
    let used = length h.head + length h.tail in
    if h.seen_compression && leb 16 used
    then none
    else if not h.seen_compression && not (length h.head == 16)
    then none
    else some (h.head ++ (replicate (16 - used) 0 ++ h.tail))

abbrev no_halves : Bool → Halves
no_halves seen = record { head = []; tail = []; seen_compression = seen }

-- A text that begins with a colon must begin with two.
unfoldable pub ipv6_start : Bytes → Option (Halves × Bytes)
ipv6_start [] = some (no_halves false, [])
ipv6_start (c ∷ []) = if c == b':' then none else some (no_halves false, c ∷ [])
ipv6_start (c ∷ d ∷ s) =
    if c == b':'
    then if d == b':' then some (no_halves true, s) else none
    else some (no_halves false, c ∷ d ∷ s)

-- The end of the function; the loop does not run out of the fuel that it is given.
unfoldable pub loop_result : LoopEnd → Option Bytes
unfolding join_halves
loop_result out_of_fuel = none
loop_result refused = none
loop_result (finished h) = join_halves h

unfoldable pub api_parse_ipv6 : Option Bytes → Option Bytes
unfolding ipv6_start ipv6_loop loop_result
api_parse_ipv6 none = none
api_parse_ipv6 (some text) = do
  (h, rest) ← ipv6_start text
  loop_result (ipv6_loop (length text + 1) h rest)

unfoldable pub api_ipv4_prefix_is_valid : ℕ → Bool
api_ipv4_prefix_is_valid prefix_length = leb 1 prefix_length && leb prefix_length 30

unfoldable pub to_u32 : Bytes → ℕ
to_u32 addr =
    get_or addr 0 0 * 2 ^ 24 + get_or addr 1 0 * 2 ^ 16 + get_or addr 2 0 * 2 ^ 8 + get_or addr 3 0

-- `value & prefix_mask(p)`: the bits above the lowest `32 - p`, and no bit for a prefix of 0.
unfoldable pub masked : ℕ → ℕ → ℕ
masked value p = if p == 0 then 0 else value / 2 ^ (32 - p) * 2 ^ (32 - p)

-- `value & ~prefix_mask(p)`
unfoldable pub host_part : ℕ → ℕ → ℕ
host_part value p = if p == 0 then value else value % 2 ^ (32 - p)

unfoldable pub api_ipv4_same_subnet : Bytes → Bytes → ℕ → Bool
unfolding to_u32 masked
api_ipv4_same_subnet a b prefix_length =
    if ltb 32 prefix_length
    then false
    else masked (to_u32 a) prefix_length == masked (to_u32 b) prefix_length

unfoldable pub api_ipv4_is_usable_host : Bytes → ℕ → Bool
unfolding to_u32 host_part api_ipv4_prefix_is_valid
api_ipv4_is_usable_host addr prefix_length =
    let host = host_part (to_u32 addr) prefix_length in
    let first = get_or addr 0 0 in
    if not (api_ipv4_prefix_is_valid prefix_length)
    then false
    else if host == 0 || host == 2 ^ (32 - prefix_length) - 1
    then false
    else if first == 0
    then false
    else if first == 127
    then false
    else if leb 224 first
    then false
    else if first == 169 && get_or addr 1 0 == 254
    then false
    else true
