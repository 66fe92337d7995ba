-- ===== src/ApiValidation/Text/Escapes.antt =====
-- Escaped text is a JSON string that reads back as what was escaped.
use mathlib.Core.List.{append_assoc}
use cedar_switch_3i4o_power.Common.{
  ℕ, zero, suc, ◌+◌, ◌-◌, ◌*◌, ◌/◌, ◌%◌, ◌<◌, ◌≡◌, refl, ◌&&◌, Option, none, some, [], ◌∷◌, ◌++◌,
  Bytes, ◌||◌, length, ltb, leb, ◌==◌, if◌then◌else◌, ◌>>=◌, arith, Bool-cases, inl, inr,
}
use cedar_switch_3i4o_power.ApiValidation.Errors.{hex_char}
use cedar_switch_3i4o_power.ApiValidation.Text.{escape_byte}
use cedar_switch_3i4o_power.ApiValidation.Text.Appends.{escape_text}

abbrev quote : ℕ
quote = 0x22

-- A reader of JSON strings, from RFC 8259: the characters after an opening quote, up to the closing
-- one. A character is read as itself or by its escape; `none` inside means the closing quote.
unfoldable hex_value : ℕ → Option ℕ
hex_value c =
    if leb b'0' c && leb c b'9'
    then some (c - b'0')
    else if leb b'a' c && leb c b'f'
    then some (c - b'a' + 10)
    else if leb b'A' c && leb c b'F'
    then some (c - b'A' + 10)
    else none

unfoldable read_unicode : Bytes → Option (Option ℕ × Bytes)
unfolding hex_value
read_unicode (a ∷ b ∷ c ∷ d ∷ s) = do
  p ← hex_value a
  q ← hex_value b
  r ← hex_value c
  t ← hex_value d
  some (some (p * 4096 + q * 256 + r * 16 + t), s)
read_unicode _ = none

unfoldable read_escape : Bytes → Option (Option ℕ × Bytes)
unfolding read_unicode
read_escape [] = none
read_escape (c ∷ s) =
    if c == quote || c == 0x5C || c == b'/'
    then some (some c, s)
    else if c == b'b'
    then some (some 0x08, s)
    else if c == b'f'
    then some (some 0x0C, s)
    else if c == b'n'
    then some (some 0x0A, s)
    else if c == b'r'
    then some (some 0x0D, s)
    else if c == b't'
    then some (some 0x09, s)
    else if c == b'u'
    then read_unicode s
    else none

unfoldable pub read_char : Bytes → Option (Option ℕ × Bytes)
unfolding read_escape
read_char [] = none
read_char (c ∷ s) =
    if c == quote
    then some (none, s)
    else if c == 0x5C
    then read_escape s
    else if ltb c 0x20
    then none
    else some (some c, s)

unfoldable pub read_string : ℕ → Bytes → Option (Bytes × Bytes)
unfolding read_char
read_string zero s = none
read_string (suc fuel) s = do
  (char, rest) ← read_char s
  elim char [
    | none ↦ some ([], rest)
    | some c ↦ read_string fuel rest >>= λ more. some (c ∷ more.0, more.1)
  ]

hex_value-hex_char : (d : ℕ) → d < 16 → hex_value (hex_char d) ≡ some d
unfolding hex_value
hex_value-hex_char d h = ground arith

read_char-escape_byte :
    (c : ℕ) (rest : Bytes) → read_char (escape_byte c ++ rest) ≡ some (some c, rest)
unfolding read_char escape_byte
read_char-escape_byte c rest = elim (Bool-cases (ltb c 0x20)) [
  | inl control ↦ ground (arith, hex_value-hex_char (c / 16), hex_value-hex_char (c % 16))
  | inr plain ↦ ground arith
]

-- Whatever string is escaped, a reader of JSON gets that string back from the escaped text, and goes
-- on behind the closing quote: nothing in it ends the string early.
pub read_string-escape_text :
    (s rest : Bytes) (fuel : ℕ)
    → length s < fuel
    → read_string fuel (escape_text s ++ (0x22 ∷ rest)) ≡ some (s, rest)
unfolding read_string escape_text
read_string-escape_text [] rest zero h = absurd (omega arith)
read_string-escape_text [] rest (suc fuel) h = unfold read_char in refl
read_string-escape_text (c ∷ s) rest zero h = absurd (omega arith)
read_string-escape_text (c ∷ s) rest (suc fuel) h =
    rw (append_assoc (escape_byte c) (escape_text s) (0x22 ∷ rest)) (
      rw (read_char-escape_byte c (escape_text s ++ (0x22 ∷ rest)))
        (rw (read_string-escape_text s rest fuel (omega arith)) refl))
