-- ===== src/LogStore/Base64/Canonical.antt =====
-- The base64url loops are inverse to one another: every byte string is read back from its text, and
-- a text is accepted only if it is the text of the bytes that it gives.
use cedar_switch_3i4o_power.Common.{
  ℕ, ◌+◌, ◌*◌, ◌/◌, ◌%◌, ◌^◌, ◌<◌, ◌≡◌, ◌≢◌, refl, sym, ap, ap₂, ◌∙◌, inl, inr, Bool, true, false,
  ◌&&◌, Option, none, some, [], ◌∷◌, Bytes, length, get_or, All, ltb, ◌==◌, ==_iff, if◌then◌else◌,
  arith, passes_below, passes_below-at, ◌>>=◌, Option-cases,
}
use cedar_switch_3i4o_power.LogStore.ByteOrder.{IsByte}
use cedar_switch_3i4o_power.LogStore.Base64.{
  b64url, b64url_char, b64url_value, encode, decode, decode_two, decode_three, decode_four,
}

value_table :
    passes_below
      (λ v. elim (b64url_value (get_or b64url v 0)) [ none ↦ false | some d ↦ d == v ])
      64
    ≡ true
unfolding passes_below b64url_value
value_table = refl

char_table :
    passes_below
      (λ c. elim (b64url_value c) [ none ↦ true | some d ↦ ltb d 64 && get_or b64url d 0 == c ])
      128
    ≡ true
unfolding passes_below b64url_value
char_table = refl

-- The alphabet and its inverse.
pub b64url_value-char : (v : ℕ) → b64url_value (b64url_char v) ≡ some (v % 64)
b64url_value-char v = from_table (b64url_value (get_or b64url (v % 64) 0)) refl
  where
    from_table : (o : Option ℕ) → b64url_value (get_or b64url (v % 64) 0) ≡ o → o ≡ some (v % 64)
    from_table none e =
        absurd (ground (arith, passes_below-at _ 64 (v % 64) (omega arith) value_table))
    from_table (some d) e = ground (arith, passes_below-at _ 64 (v % 64) (omega arith) value_table)

b64url_value-lt : (c d : ℕ) → b64url_value c ≡ some d → c < 128
unfolding b64url_value
b64url_value-lt c d e = ground arith

char-b64url_value : (c d : ℕ) → b64url_value c ≡ some d → (d < 64) × (b64url_char d ≡ c)
char-b64url_value c d e =
    let row = passes_below-at _ 128 c (b64url_value-lt c d e) char_table in
    let small : d < 64 = ground arith in
    (small, ap (λ (k : ℕ). get_or b64url k 0) {x = d % 64} {y = d} (omega arith) ∙ ground arith)

-- One group of each length.
decode_two-char :
    (a : ℕ)
    → a < 256
    → decode_two (b64url_char (a * 2 ^ 16 / 2 ^ 18)) (b64url_char (a * 2 ^ 16 / 2 ^ 12))
      ≡ some (a ∷ [])
unfolding decode_two
decode_two-char a h =
    rw (b64url_value-char (a * 2 ^ 16 / 2 ^ 18), b64url_value-char (a * 2 ^ 16 / 2 ^ 12))
      (ground arith)

decode_three-char :
    (a b : ℕ)
    → a < 256
    → b < 256
    → let v = a * 2 ^ 16 + b * 2 ^ 8 in
      decode_three (b64url_char (v / 2 ^ 18)) (b64url_char (v / 2 ^ 12)) (b64url_char (v / 2 ^ 6))
      ≡ some (a ∷ b ∷ [])
unfolding decode_three
decode_three-char a b ha hb =
    let v = a * 2 ^ 16 + b * 2 ^ 8 in
    rw
      (
        b64url_value-char (v / 2 ^ 18),
        b64url_value-char (v / 2 ^ 12),
        b64url_value-char (v / 2 ^ 6),
      )
      (ground arith)

decode_four-char :
    (a b c : ℕ) (rest : Bytes)
    → a < 256
    → b < 256
    → c < 256
    → let v = a * 2 ^ 16 + b * 2 ^ 8 + c in
      decode_four
        (b64url_char (v / 2 ^ 18))
        (b64url_char (v / 2 ^ 12))
        (b64url_char (v / 2 ^ 6))
        (b64url_char v)
        (some rest)
      ≡ some (a ∷ b ∷ c ∷ rest)
unfolding decode_four
decode_four-char a b c rest ha hb hc =
    let v = a * 2 ^ 16 + b * 2 ^ 8 + c in
    rw
      (
        b64url_value-char (v / 2 ^ 18),
        b64url_value-char (v / 2 ^ 12),
        b64url_value-char (v / 2 ^ 6),
        b64url_value-char v,
      )
      (ground arith)

-- The decoder reads the text that the encoder makes of any bytes back as those bytes.
pub decode-encode : (bs : Bytes) → All IsByte bs → decode (encode bs) ≡ some bs
unfolding decode encode
decode-encode [] h = refl
decode-encode (a ∷ []) h = decode_two-char a h.0
decode-encode (a ∷ b ∷ []) h = decode_three-char a b h.0 h.1.0
decode-encode (a ∷ b ∷ c ∷ rest) h =
    rw (decode-encode rest h.1.1.1) (decode_four-char a b c rest h.0 h.1.0 h.1.1.0)

-- The other way: the characters of a group that passed are those of its bytes.
abbrev Spells : Bytes → Bytes → Type 0
Spells text bs = All IsByte bs × (text ≡ encode bs)

-- The character of a number that has the value of a given character.
char_of_value : (c p n : ℕ) → b64url_value c ≡ some p → n % 64 ≡ p → b64url_char n ≡ c
char_of_value c p n e at =
    ap (λ (k : ℕ). get_or b64url k 0) at
    ∙ ap (λ (k : ℕ). get_or b64url k 0) {x = p} {y = p % 64}
        (omega (arith, (char-b64url_value c p e).0))
    ∙ (char-b64url_value c p e).1

guarded :
    (t : Bool) (xs bs : Bytes) → (if t then some xs else none) ≡ some bs → (t ≡ true) × (bs ≡ xs)
guarded true xs bs e = ground arith
guarded false xs bs e = cc

Spells-two :
    (a b p q : ℕ) (bs : Bytes)
    → b64url_value a ≡ some p
    → b64url_value b ≡ some q
    → decode_two a b ≡ some bs
    → Spells (a ∷ b ∷ []) bs
unfolding decode_two encode
Spells-two a b p q bs ha hb e =
    let la = (char-b64url_value a p ha).0 in
    let lb = (char-b64url_value b q hb).0 in
    let v = p * 2 ^ 18 + q * 2 ^ 12 in
    let x = v / 2 ^ 16 % 256 in
    let (zeros, bytes) = guarded (v % 2 ^ 16 == 0) (x ∷ []) bs (rw (ha, hb) at e) in
    let clear : v % 2 ^ 16 ≡ 0 = (==_iff (v % 2 ^ 16) 0).0 zeros in
    rw bytes (
      (omega arith, tt),
      ap₂ (λ (s t : ℕ). s ∷ t ∷ []) (sym (char_of_value a p (x * 2 ^ 16 / 2 ^ 18) ha (omega arith)))
          (sym (char_of_value b q (x * 2 ^ 16 / 2 ^ 12) hb (omega arith))),
    )

Spells-three :
    (a b c p q r : ℕ) (bs : Bytes)
    → b64url_value a ≡ some p
    → b64url_value b ≡ some q
    → b64url_value c ≡ some r
    → decode_three a b c ≡ some bs
    → Spells (a ∷ b ∷ c ∷ []) bs
unfolding decode_three encode
Spells-three a b c p q r bs ha hb hc e =
    let la = (char-b64url_value a p ha).0 in
    let lb = (char-b64url_value b q hb).0 in
    let lc = (char-b64url_value c r hc).0 in
    let v = p * 2 ^ 18 + q * 2 ^ 12 + r * 2 ^ 6 in
    let x = v / 2 ^ 16 % 256 in
    let y = v / 2 ^ 8 % 256 in
    let (zeros, bytes) = guarded (v % 2 ^ 8 == 0) (x ∷ y ∷ []) bs (rw (ha, hb, hc) at e) in
    let clear : v % 2 ^ 8 ≡ 0 = (==_iff (v % 2 ^ 8) 0).0 zeros in
    let n = x * 2 ^ 16 + y * 2 ^ 8 in
    rw bytes (
      (omega arith, (omega arith, tt)),
      ap₂ (λ (s : ℕ) (t : Bytes). s ∷ t) (sym (char_of_value a p (n / 2 ^ 18) ha (omega arith)))
          (ap₂ (λ (s t : ℕ). s ∷ t ∷ []) (sym (char_of_value b q (n / 2 ^ 12) hb (omega arith)))
            (sym (char_of_value c r (n / 2 ^ 6) hc (omega arith)))),
    )

Spells-four :
    (a b c d p q r s : ℕ) (text rest bs : Bytes)
    → b64url_value a ≡ some p
    → b64url_value b ≡ some q
    → b64url_value c ≡ some r
    → b64url_value d ≡ some s
    → Spells text rest
    → decode_four a b c d (some rest) ≡ some bs
    → Spells (a ∷ b ∷ c ∷ d ∷ text) bs
unfolding decode_four encode
Spells-four a b c d p q r s text rest bs ha hb hc hd later e =
    let la = (char-b64url_value a p ha).0 in
    let lb = (char-b64url_value b q hb).0 in
    let lc = (char-b64url_value c r hc).0 in
    let ld = (char-b64url_value d s hd).0 in
    let v = p * 2 ^ 18 + q * 2 ^ 12 + r * 2 ^ 6 + s in
    let x = v / 2 ^ 16 % 256 in
    let y = v / 2 ^ 8 % 256 in
    let z = v % 256 in
    let bytes : bs ≡ x ∷ y ∷ z ∷ rest =
      (guarded true (x ∷ y ∷ z ∷ rest) bs (rw (ha, hb, hc, hd) at e)).1 in
    let n = x * 2 ^ 16 + y * 2 ^ 8 + z in
    rw bytes (
      (omega arith, (omega arith, (omega arith, later.0))),
      ap₂ (λ (s : ℕ) (t : Bytes). s ∷ t) (sym (char_of_value a p (n / 2 ^ 18) ha (omega arith)))
          (ap₂ (λ (s : ℕ) (t : Bytes). s ∷ t)
            (sym (char_of_value b q (n / 2 ^ 12) hb (omega arith)))
            (ap₂ (λ (s : ℕ) (t : Bytes). s ∷ t)
              (sym (char_of_value c r (n / 2 ^ 6) hc (omega arith)))
              (ap₂ (λ (s : ℕ) (t : Bytes). s ∷ t) (sym (char_of_value d s n hd (omega arith)))
                later.1))),
    )

-- A group that passed had four, three or two characters of the alphabet.
value_of :
    (c : ℕ) (k : ℕ → Option Bytes) (bs : Bytes)
    → (b64url_value c >>= k) ≡ some bs
    → (d : ℕ) × (b64url_value c ≡ some d) × (k d ≡ some bs)
value_of c k bs e = elim (Option-cases (b64url_value c)) [
  | inl bad ↦ absurd (ground arith)
  | inr (d, good) ↦ (d, good, ground arith)
]

decode_two_inv : (a b : ℕ) (bs : Bytes) → decode_two a b ≡ some bs → Spells (a ∷ b ∷ []) bs
unfolding decode_two
decode_two_inv a b bs e =
    let (p, ha, ea) = value_of a _ bs e in
    let (q, hb, eb) = value_of b _ bs ea in Spells-two a b p q bs ha hb e

decode_three_inv :
    (a b c : ℕ) (bs : Bytes) → decode_three a b c ≡ some bs → Spells (a ∷ b ∷ c ∷ []) bs
unfolding decode_three
decode_three_inv a b c bs e =
    let (p, ha, ea) = value_of a _ bs e in
    let (q, hb, eb) = value_of b _ bs ea in
    let (r, hc, ec) = value_of c _ bs eb in Spells-three a b c p q r bs ha hb hc e

decode_four_inv :
    (a b c d : ℕ) (text : Bytes) (later : Option Bytes) (bs : Bytes)
    → ((rest : Bytes) → later ≡ some rest → Spells text rest)
    → decode_four a b c d later ≡ some bs
    → Spells (a ∷ b ∷ c ∷ d ∷ text) bs
unfolding decode_four
decode_four_inv a b c d text none bs ih e =
    let (p, ha, ea) = value_of a _ bs e in
    let (q, hb, eb) = value_of b _ bs ea in
    let (r, hc, ec) = value_of c _ bs eb in let (s, hd, ed) = value_of d _ bs ec in cc
decode_four_inv a b c d text (some rest) bs ih e =
    let (p, ha, ea) = value_of a _ bs e in
    let (q, hb, eb) = value_of b _ bs ea in
    let (r, hc, ec) = value_of c _ bs eb in
    let (s, hd, ed) = value_of d _ bs ec in
    Spells-four a b c d p q r s text rest bs ha hb hc hd (ih rest refl) e

-- A text whose length does not leave one character over is accepted only if it is exactly the text
-- that the encoder makes of the bytes that it gives.
pub encode-decode :
    (text bs : Bytes)
    → length text % 4 ≢ 1
    → decode text ≡ some bs
    → All IsByte bs × (text ≡ encode bs)
unfolding decode encode
encode-decode [] bs len e = let empty : bs ≡ [] = ground arith in rw empty (tt, refl)
encode-decode (a ∷ []) bs len e = absurd (omega arith)
encode-decode (a ∷ b ∷ []) bs len e = decode_two_inv a b bs e
encode-decode (a ∷ b ∷ c ∷ []) bs len e = decode_three_inv a b c bs e
encode-decode (a ∷ b ∷ c ∷ d ∷ text) bs len e =
    decode_four_inv a b c d text (decode text) bs
      (λ rest h. encode-decode text rest (λ over. len (omega arith)) h) e
