-- ===== src/ApiValidation/Address/Ipv6.antt =====
-- The loop of `api_parse_ipv6` ends.
use cedar_switch_3i4o_power.Common.{
  ℕ, zero, suc, ◌+◌, ◌*◌, ◌/◌, ◌%◌, ◌^◌, ◌<◌, ◌≤◌, ◌≡◌, ◌≢◌, ◌⊎◌, inl, inr, refl, Bool, true, some,
  [], ◌∷◌, Bytes, length, All, >>=-eq-some, arith, Bool-cases, Option-cases,
}
use cedar_switch_3i4o_power.ApiValidation.Address.{
  Halves, add_part, hex_digit, hex_digits, group_checks, parse_hex_group, has_dot, after_colon,
  after_group, embedded_round, group_round, ipv6_round, ipv6_loop, out_of_fuel, api_parse_ipv4,
}

abbrev IsOctet : ℕ → Type 0
IsOctet b = b < 256

-- The halves of an address, as far as it is read.
record Fits (h : Halves) : Type 0 where
  head_fits : length h.head ≤ 16
  tail_fits : length h.tail ≤ 16
  head_bytes : All IsOctet h.head
  tail_bytes : All IsOctet h.tail
  one_half : (h.seen_compression ≡ true) ⊎ (length h.tail ≡ 0)

-- A group of digits takes what it reads off the text.
length-hex_digits :
    (left : ℕ) (s : Bytes) (len value : ℕ)
    → length (hex_digits left s len value).2 + (hex_digits left s len value).0 ≡ length s + len
unfolding hex_digits
length-hex_digits zero s len value = refl
length-hex_digits (suc left) [] len value = refl
length-hex_digits (suc left) (c ∷ s) len value = elim (Option-cases (hex_digit c)) [
  | inl stop ↦ rw (stop, hex_digits) refl
  | inr (digit, e) ↦
      rw (e, hex_digits) (omega (arith, length-hex_digits left s (len + 1) (value * 2 ^ 4 + digit)))
]

group_checks_only :
    (t : ℕ × ℕ × Bytes) (group : ℕ) (rest : Bytes)
    → group_checks t ≡ some (group, rest)
    → (0 < t.0) × (length t.2 ≡ length rest)
unfolding group_checks
group_checks_only (len, value, left) group rest h = ground arith

length-parse_hex_group :
    (s rest : Bytes) (group : ℕ) → parse_hex_group s ≡ some (group, rest) → length rest < length s
length-parse_hex_group s rest group h = omega (
  arith,
  length-hex_digits 4 s 0 0,
  group_checks_only (hex_digits 4 s 0 0) group rest (unfold parse_hex_group in h),
)

after_group_shorter :
    (h next : Halves) (s rest : Bytes) (more : Bool)
    → after_group h s ≡ some (more, next, rest)
    → length rest ≤ length s
unfolding after_group after_colon
after_group_shorter h next [] rest more e = ground arith
after_group_shorter h next (c ∷ []) rest more e = ground arith
after_group_shorter h next (c ∷ d ∷ s) rest more e = ground arith

embedded_round_shorter :
    (h next : Halves) (s rest : Bytes) (more : Bool)
    → embedded_round h s ≡ some (more, next, rest)
    → length rest ≡ 0
unfolding embedded_round
embedded_round_shorter h next s rest more e =
    let (v4, read, k) = >>=-eq-some (api_parse_ipv4 (some s)) _ e in ground arith

round_shorter :
    (h next : Halves) (c : ℕ) (s rest : Bytes) (more : Bool)
    → ipv6_round h (c ∷ s) ≡ some (more, next, rest)
    → length rest < length (c ∷ s)
unfolding ipv6_round group_round
round_shorter h next c s rest more e = elim (Bool-cases (has_dot (c ∷ s))) [
  | inl dotted ↦ omega (arith, embedded_round_shorter h next (c ∷ s) rest more (rw dotted at e))
  | inr plain ↦
      let (p, read, k) = >>=-eq-some (parse_hex_group (c ∷ s)) _ (rw plain at e) in
      let went_on : after_group (add_part h ((p.0 / 2 ^ 8 % 256) ∷ (p.0 % 256) ∷ [])) p.1
          ≡ some (more, next, rest) =
        ground arith in
      omega (
        arith,
        length-parse_hex_group (c ∷ s) p.1 p.0 read,
        after_group_shorter (add_part h ((p.0 / 2 ^ 8 % 256) ∷ (p.0 % 256) ∷ [])) next p.1 rest more
            went_on,
      )
]

-- With a round for each byte of the text and one more, the loop ends: it refuses the text or is
-- finished, and does not run out of fuel.
pub ipv6_loop-ends :
    (n : ℕ) (h : Halves) (text : Bytes) → length text < n → ipv6_loop n h text ≢ out_of_fuel
unfolding ipv6_loop
ipv6_loop-ends zero h text p e = absurd (omega arith)
ipv6_loop-ends (suc n) h [] p e = cc
ipv6_loop-ends (suc n) h (c ∷ s) p e = elim (Option-cases (ipv6_round h (c ∷ s))) [
  | inl bad ↦ let stopped = rw (bad, ipv6_loop) at e in cc
  | inr ((more, next, rest), went) ↦
      let less = round_shorter h next c s rest more went in
      let later = ipv6_loop-ends n next rest (omega arith) in
      elim (Bool-cases more) [
        | inl on ↦ later (rw (went, ipv6_loop, on) at e)
        | inr off ↦ let stopped = rw (went, ipv6_loop, off) at e in cc
      ]
]
