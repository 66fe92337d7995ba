-- ===== src/ApiValidation/Address/Ipv4.antt =====
-- The dotted text of an IPv4 address is the only text that is read as it.
use cedar_switch_3i4o_power.Common.{
  ℕ, ◌+◌, ◌/◌, ◌%◌, ◌<◌, ◌≡◌, ◌↔◌, refl, sym, ap, ◌∙◌, false, some, [], ◌∷◌, ◌++◌, Bytes, length,
  get_or, All, ltb, if◌then◌else◌, ◌>>=◌, >>=-eq-some, append_nil, arith,
}
use cedar_switch_3i4o_power.ApiValidation.Address.{
  is_digit, octet_digits, octet_checks, parse_octet, dot, at_end, api_parse_ipv4,
}

-- A byte in decimal, with no zero before it.
abbrev pub print_octet : ℕ → Bytes
print_octet v =
    if ltb v 10
    then (b'0' + v) ∷ []
    else if ltb v 100
    then (b'0' + v / 10) ∷ (b'0' + v % 10) ∷ []
    else (b'0' + v / 100) ∷ (b'0' + v / 10 % 10) ∷ (b'0' + v % 10) ∷ []

-- A text that does not begin with a digit.
abbrev pub NoDigit : Bytes → Type 0
NoDigit s = is_digit (get_or s 0 0) ≡ false

parse_octet-print :
    (v : ℕ) (rest : Bytes)
    → v < 256
    → NoDigit rest
    → parse_octet (print_octet v ++ rest) ≡ some (v, rest)
unfolding parse_octet octet_digits octet_checks
parse_octet-print v [] small stop = ground arith
parse_octet-print v (c ∷ rest) small stop = ground arith

parse_octet_only :
    (s rest : Bytes) (v : ℕ)
    → parse_octet s ≡ some (v, rest)
    → (v < 256) × NoDigit rest × (s ≡ print_octet v ++ rest)
unfolding parse_octet octet_digits octet_checks
parse_octet_only [] rest v h = ground arith
parse_octet_only (a ∷ []) rest v h = ground arith
parse_octet_only (a ∷ b ∷ []) rest v h = ground arith
parse_octet_only (a ∷ b ∷ c ∷ []) rest v h = ground arith
parse_octet_only (a ∷ b ∷ c ∷ d ∷ s) rest v h = ground arith

abbrev pub print_ipv4 : ℕ → ℕ → ℕ → ℕ → Bytes
print_ipv4 a b c d =
    print_octet a ++ (b'.' ∷ (print_octet b ++ (b'.' ∷ (print_octet c ++ (b'.' ∷ print_octet d)))))

dot_only : (s r : Bytes) → dot s ≡ some r → s ≡ b'.' ∷ r
unfolding dot
dot_only [] r h = cc
dot_only (c ∷ s) r h = ground arith

at_end_only : (out s r : Bytes) → at_end out s ≡ some r → (s ≡ []) × (out ≡ r)
unfolding at_end
at_end_only out [] r h = (refl, ground arith)
at_end_only out (c ∷ s) r h = cc

read_print :
    (a b c d : ℕ)
    → a < 256
    → b < 256
    → c < 256
    → d < 256
    → api_parse_ipv4 (some (print_ipv4 a b c d)) ≡ some (a ∷ b ∷ c ∷ d ∷ [])
unfolding api_parse_ipv4
read_print a b c d ha hb hc hd =
    let at_d = print_octet d in
    let at_c = print_octet c ++ (b'.' ∷ at_d) in
    let at_b = print_octet b ++ (b'.' ∷ at_c) in
    let last : parse_octet at_d ≡ some (d, []) =
      ap parse_octet (sym (append_nil at_d)) ∙ parse_octet-print d [] hd refl in
    rw (parse_octet-print a (b'.' ∷ at_b) ha refl, ◌>>=◌)
      (rw (parse_octet-print b (b'.' ∷ at_c) hb refl, ◌>>=◌)
        (rw (parse_octet-print c (b'.' ∷ at_d) hc refl, ◌>>=◌) (rw last)))

-- The pieces of the text, joined.
joined :
    (text p1 t1 p2 t2 p3 t3 p4 a b c d : Bytes)
    → text ≡ a ++ p1
    → p1 ≡ b'.' ∷ t1
    → t1 ≡ b ++ p2
    → p2 ≡ b'.' ∷ t2
    → t2 ≡ c ++ p3
    → p3 ≡ b'.' ∷ t3
    → t3 ≡ d ++ p4
    → p4 ≡ []
    → text ≡ a ++ (b'.' ∷ (b ++ (b'.' ∷ (c ++ (b'.' ∷ d)))))
joined text p1 t1 p2 t2 p3 t3 p4 a b c d e1 e2 e3 e4 e5 e6 e7 e8 =
    let last : d ++ [] ≡ d = append_nil d in cc

printed :
    (a b c d a' b' c' d' : ℕ)
    → a ≡ a'
    → b ≡ b'
    → c ≡ c'
    → d ≡ d'
    → print_ipv4 a b c d ≡ print_ipv4 a' b' c' d'
printed a b c d a' b' c' d' ea eb ec ed = rw (ea, eb, ec, ed)

-- What is read was printed: the octets, and that the text is theirs.
record Reads (text out : Bytes) : Type 0 where
  a : ℕ
  b : ℕ
  c : ℕ
  d : ℕ
  small : (a < 256) × (b < 256) × (c < 256) × (d < 256)
  result : out ≡ a ∷ b ∷ c ∷ d ∷ []
  source : text ≡ print_ipv4 a b c d

read_only : (text out : Bytes) → api_parse_ipv4 (some text) ≡ some out → Reads text out
unfolding api_parse_ipv4
read_only text out h =
    let (p1, e1, h1) = >>=-eq-some (parse_octet text) _ h in
    let (t1, d1, k1) = >>=-eq-some (dot p1.1) _ h1 in
    let (p2, e2, h2) = >>=-eq-some (parse_octet t1) _ k1 in
    let (t2, d2, k2) = >>=-eq-some (dot p2.1) _ h2 in
    let (p3, e3, h3) = >>=-eq-some (parse_octet t2) _ k2 in
    let (t3, d3, k3) = >>=-eq-some (dot p3.1) _ h3 in
    let (p4, e4, h4) = >>=-eq-some (parse_octet t3) _ k3 in
    let (done, out_is) = at_end_only _ p4.1 out h4 in
    let (s1, n1, x1) = parse_octet_only text p1.1 p1.0 e1 in
    let (s2, n2, x2) = parse_octet_only t1 p2.1 p2.0 e2 in
    let (s3, n3, x3) = parse_octet_only t2 p3.1 p3.0 e3 in
    let (s4, n4, x4) = parse_octet_only t3 p4.1 p4.0 e4 in
    record {
      a = p1.0;
      b = p2.0;
      c = p3.0;
      d = p4.0;
      small = (s1, s2, s3, s4);
      result = sym out_is;
      source =
          joined text p1.1 t1 p2.1 t2 p3.1 t3 p4.1 _ _ _ _ x1 (dot_only p1.1 t1 d1) x2
            (dot_only p2.1 t2 d2) x3 (dot_only p3.1 t3 d3) x4 done;
    }

-- A text is read as the address `a.b.c.d` exactly when it is that address's dotted decimal text, of
-- four numbers below 256 with no zero before them and nothing behind.
pub api_parse_ipv4-print :
    (text : Bytes) (a b c d : ℕ)
    → (api_parse_ipv4 (some text) ≡ some (a ∷ b ∷ c ∷ d ∷ []))
      ↔ ((a < 256) × (b < 256) × (c < 256) × (d < 256) × (text ≡ print_ipv4 a b c d))
api_parse_ipv4-print text a b c d = (
  λ h.
      let r = read_only text (a ∷ b ∷ c ∷ d ∷ []) h in
      let (sa, sb, sc, sd) = r.small in
      let same = r.result in
      let ea : a ≡ r.a = ap (λ (l : Bytes). get_or l 0 0) same in
      let eb : b ≡ r.b = ap (λ (l : Bytes). get_or l 1 0) same in
      let ec : c ≡ r.c = ap (λ (l : Bytes). get_or l 2 0) same in
      let ed : d ≡ r.d = ap (λ (l : Bytes). get_or l 3 0) same in
      (
        omega arith,
        omega arith,
        omega arith,
        omega arith,
        r.source ∙ printed r.a r.b r.c r.d a b c d (sym ea) (sym eb) (sym ec) (sym ed),
      ),
  λ k. rw k.4 (read_print a b c d k.0 k.1 k.2 k.3),
)

-- Every address that is read has four bytes.
pub length-api_parse_ipv4 :
    (text out : Bytes)
    → api_parse_ipv4 (some text) ≡ some out
    → (length out ≡ 4) × All (λ b. b < 256) out
length-api_parse_ipv4 text out h =
    let r = read_only text out h in
    let (sa, sb, sc, sd) = r.small in rw r.result (refl, (sa, (sb, (sc, (sd, tt)))))
