-- ===== src/LogStore/Base64.antt =====
-- The base64url text of a cursor: the two loops of `log_store_cursor_encode` and
-- `log_store_cursor_decode`. A shift by k is a product or quotient by 2^k, and an `|` of fields that
-- do not overlap is a sum.
pub mod Canonical
use cedar_switch_3i4o_power.Common.{
  ℕ, zero, suc, ◌+◌, ◌-◌, ◌*◌, ◌/◌, ◌%◌, ◌^◌, ◌<◌, ◌≤◌, ◌≡◌, refl, ap, ◌⊎◌, inl, inr, Bool, true,
  false, ◌&&◌, Option, none, some, List, [], ◌∷◌, ◌++◌, Bytes, codes, length, get_or, All, ltb, leb,
  ◌==◌, if◌then◌else◌, arith, ◌>>=◌, Bool-cases, Option-cases,
}
use cedar_switch_3i4o_power.LogStore.ByteOrder.{IsByte}

abbrev pub b64url : Bytes
b64url = codes "ABCDEFGHIJKLMNOPQRSTUVWXYZabcdefghijklmnopqrstuvwxyz0123456789-_"

-- The character of six bits: `b64url[v & 0x3F]`.
abbrev pub b64url_char : ℕ → ℕ
b64url_char v = get_or b64url (v % 64) 0

-- `none` is the return value -1.
unfoldable pub b64url_value : ℕ → Option ℕ
b64url_value c =
    if leb b'A' c && leb c b'Z'
    then some (c - b'A')
    else if leb b'a' c && leb c b'z'
    then some (c - b'a' + 26)
    else if leb b'0' c && leb c b'9'
    then some (c - b'0' + 52)
    else if c == b'-'
    then some 62
    else if c == b'_'
    then some 63
    else none

-- The encoding loop: three bytes to four characters, a rest of two to three, of one to two.
unfoldable pub encode : Bytes → Bytes
encode [] = []
encode (a ∷ []) = let v = a * 2 ^ 16 in b64url_char (v / 2 ^ 18) ∷ b64url_char (v / 2 ^ 12) ∷ []
encode (a ∷ b ∷ []) =
    let v = a * 2 ^ 16 + b * 2 ^ 8 in
    b64url_char (v / 2 ^ 18) ∷ b64url_char (v / 2 ^ 12) ∷ b64url_char (v / 2 ^ 6) ∷ []
encode (a ∷ b ∷ c ∷ rest) =
    let v = a * 2 ^ 16 + b * 2 ^ 8 + c in
    b64url_char (v / 2 ^ 18)
    ∷ b64url_char (v / 2 ^ 12)
    ∷ b64url_char (v / 2 ^ 6)
    ∷ b64url_char v
    ∷ encode rest

-- One round of the decoding loop for each length of the group; `none` is -EINVAL.
unfoldable pub decode_one : ℕ → Option Bytes
unfolding b64url_value
decode_one a = do p ← b64url_value a; some ((p * 2 ^ 18 / 2 ^ 16 % 256) ∷ [])

unfoldable pub decode_two : ℕ → ℕ → Option Bytes
unfolding b64url_value
decode_two a b = do
  p ← b64url_value a
  q ← b64url_value b
  let v = p * 2 ^ 18 + q * 2 ^ 12
  if v % 2 ^ 16 == 0 then some ((v / 2 ^ 16 % 256) ∷ []) else none

unfoldable pub decode_three : ℕ → ℕ → ℕ → Option Bytes
unfolding b64url_value
decode_three a b c = do
  p ← b64url_value a
  q ← b64url_value b
  r ← b64url_value c
  let v = p * 2 ^ 18 + q * 2 ^ 12 + r * 2 ^ 6
  if v % 2 ^ 8 == 0 then some ((v / 2 ^ 16 % 256) ∷ (v / 2 ^ 8 % 256) ∷ []) else none

unfoldable pub decode_four : ℕ → ℕ → ℕ → ℕ → Option Bytes → Option Bytes
unfolding b64url_value
decode_four a b c d later = do
  p ← b64url_value a
  q ← b64url_value b
  r ← b64url_value c
  s ← b64url_value d
  rest ← later
  let v = p * 2 ^ 18 + q * 2 ^ 12 + r * 2 ^ 6 + s
  some ((v / 2 ^ 16 % 256) ∷ (v / 2 ^ 8 % 256) ∷ (v % 256) ∷ rest)

unfoldable pub decode : Bytes → Option Bytes
unfolding decode_one decode_two decode_three decode_four
decode [] = some []
decode (a ∷ []) = decode_one a
decode (a ∷ b ∷ []) = decode_two a b
decode (a ∷ b ∷ c ∷ []) = decode_three a b c
decode (a ∷ b ∷ c ∷ d ∷ rest) = decode_four a b c d (decode rest)
