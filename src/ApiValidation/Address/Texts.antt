-- ===== src/ApiValidation/Address/Texts.antt =====
-- `api_parse_ipv6` on the texts of addresses, with and without a `::`.
use mathlib.Core.List.{append_assoc}
use cedar_switch_3i4o_power.Common.{
  ℕ, ◌+◌, ◌-◌, ◌*◌, ◌/◌, ◌<◌, ◌≤◌, ◌≡◌, inl, inr, refl, ap, ◌∙◌, true, false, not, Option, none,
  some, List, [], ◌∷◌, ◌++◌, Bytes, length, length-append, append_nil, replicate, All, ltb, leb,
  ◌==◌, if◌then◌else◌, ◌>>=◌, arith, Bool-cases,
}
use cedar_switch_3i4o_power.ApiValidation.Address.{
  Halves, no_halves, ipv6_loop, LoopEnd, finished, loop_result, ipv6_start, join_halves,
  api_parse_ipv6,
}
use cedar_switch_3i4o_power.ApiValidation.Address.Groups.{
  group_text, more_groups, groups_text, groups_bytes, not_colon,
}
use cedar_switch_3i4o_power.ApiValidation.Address.Rounds.{
  IsGroup, add_groups, with_gap, halves, rounds, rounds_is, loop-groups, loop-groups_gap,
  add_groups-head, add_groups-tail,
}

-- A text: its groups, or those before and those behind a `::`.
pub data Ipv6Text : Type 0 where
  plain : List ℕ → Ipv6Text
  gapped : List ℕ → List ℕ → Ipv6Text

unfoldable pub print_ipv6 : Ipv6Text → Bytes
unfolding groups_text
print_ipv6 (plain gs) = groups_text gs
print_ipv6 (gapped hs ts) = groups_text hs ++ (b':' ∷ b':' ∷ groups_text ts)

-- The address that a text stands for, if it does: eight groups, or fewer and a `::`, which stands for
-- the zeros of the groups that are missing.
unfoldable pub address_of : Ipv6Text → Option Bytes
unfolding groups_bytes
address_of (plain gs) = if length gs == 8 then some (groups_bytes gs) else none
address_of (gapped hs ts) =
    let given = length hs + length ts in
    let zeros = replicate (2 * (8 - given)) 0 in
    if ltb given 8 then some (groups_bytes hs ++ (zeros ++ groups_bytes ts)) else none

abbrev pub all_groups : Ipv6Text → List ℕ
all_groups (plain gs) = gs
all_groups (gapped hs ts) = hs ++ ts

length-groups_bytes : (gs : List ℕ) → length (groups_bytes gs) ≡ 2 * length gs
unfolding groups_bytes
length-groups_bytes [] = omega arith
length-groups_bytes (g ∷ gs) = omega (arith, length-groups_bytes gs)

length-more_groups : (gs : List ℕ) → length (more_groups gs) ≡ 5 * length gs
unfolding more_groups group_text
length-more_groups [] = omega arith
length-more_groups (g ∷ gs) = omega (arith, length-more_groups gs)

join-plain : (gs : List ℕ) → join_halves (halves (groups_bytes gs) [] false) ≡ address_of (plain gs)
unfolding join_halves address_of
join-plain gs =
    let size = length-groups_bytes gs in
    elim (Bool-cases (length gs == 8)) [
      | inl eight ↦
          let whole : (length (groups_bytes gs) == 16) ≡ true = ground arith in
          let none_left : 16 - (length (groups_bytes gs) + 0) ≡ 0 = ground arith in
          rw (eight, whole, none_left) (ap (λ (t : Bytes). some t) (append_nil (groups_bytes gs)))
      | inr other ↦
          let short : (length (groups_bytes gs) == 16) ≡ false = ground arith in
          rw (other, short) refl
    ]

join-gapped :
    (hs ts : List ℕ)
    → join_halves (halves (groups_bytes hs) (groups_bytes ts) true) ≡ address_of (gapped hs ts)
unfolding join_halves address_of
join-gapped hs ts =
    let used = length (groups_bytes hs) + length (groups_bytes ts) in
    let given = length hs + length ts in
    let size : used ≡ 2 * given = omega (arith, length-groups_bytes hs, length-groups_bytes ts) in
    elim (Bool-cases (ltb given 8)) [
      | inl fits ↦
          let room : leb 16 used ≡ false = ground arith in
          let left : 16 - used ≡ 2 * (8 - given) = ground arith in rw (fits, room, left) refl
      | inr over ↦ let too : leb 16 used ≡ true = ground arith in rw (over, too) refl
    ]

-- The parser from the place where the loop begins.
parse_from :
    (text rest : Bytes) (h : Halves)
    → ipv6_start text ≡ some (h, rest)
    → api_parse_ipv6 (some text) ≡ loop_result (ipv6_loop (length text + 1) h rest)
unfolding api_parse_ipv6
parse_from text rest h e = rw (e, ◌>>=◌) refl

start-group_text :
    (g : ℕ) (rest : Bytes)
    → g < 65536
    → ipv6_start (group_text g ++ rest) ≡ some (no_halves false, group_text g ++ rest)
unfolding ipv6_start group_text
start-group_text g rest small = rw (not_colon (g / 4096) (omega arith)) refl

-- The groups behind a `::`.
if_some : {A : Type 0} (n : ℕ) (a b : A) → 0 < n → (if not (n == 0) then a else b) ≡ a
if_some n a b h = let some_there : (n == 0) ≡ false = ground arith in rw some_there refl

loop-tail :
    (ts : List ℕ) (fuel : ℕ) (head : Bytes)
    → length ts < fuel
    → All IsGroup ts
    → length ts ≤ 8
    → (if not (length (groups_text ts) == 0)
        then ipv6_loop fuel (halves head [] true) (groups_text ts)
        else finished (halves head [] true))
      ≡ finished (halves head (groups_bytes ts) true)
unfolding groups_text groups_bytes group_text
loop-tail [] fuel head enough small few = refl
loop-tail (t ∷ ts) fuel head enough small few =
    if_some (length (group_text t ++ more_groups ts)) _ _ (omega arith)
    ∙ loop-groups ts t fuel (halves head [] true) (omega arith) small (omega arith)
    ∙ ap (λ (k : Halves). finished k) (add_groups-tail (t ∷ ts) head [])

All-left : (hs ts : List ℕ) → All IsGroup (hs ++ ts) → All IsGroup hs
All-left [] ts all = tt
All-left (h ∷ hs) ts all = (all.0, All-left hs ts all.1)

All-right : (hs ts : List ℕ) → All IsGroup (hs ++ ts) → All IsGroup ts
All-right [] ts all = all
All-right (h ∷ hs) ts all = All-right hs ts all.1

-- The loop at the whole of a text.
loop-plain :
    (g : ℕ) (gs : List ℕ) (fuel : ℕ)
    → length gs < fuel
    → All IsGroup (g ∷ gs)
    → length (g ∷ gs) ≤ 8
    → ipv6_loop fuel (no_halves false) (group_text g ++ more_groups gs)
      ≡ finished (halves (groups_bytes (g ∷ gs)) [] false)
loop-plain g gs fuel enough small few =
    loop-groups gs g fuel (no_halves false) enough small (omega arith)
    ∙ ap (λ (k : Halves). finished k) (add_groups-head (g ∷ gs) [] [])

loop-gapped :
    (h : ℕ) (hs ts : List ℕ) (m : ℕ)
    → length ts < m
    → All IsGroup ((h ∷ hs) ++ ts)
    → length (h ∷ hs) + length ts ≤ 8
    → ipv6_loop
        (rounds hs m)
        (no_halves false)
        (group_text h ++ (more_groups hs ++ (b':' ∷ b':' ∷ groups_text ts)))
      ≡ finished (halves (groups_bytes (h ∷ hs)) (groups_bytes ts) true)
loop-gapped h hs ts m enough small few =
    let left : with_gap (add_groups (no_halves false) (h ∷ hs))
        ≡ halves (groups_bytes (h ∷ hs)) [] true =
      ap (λ (k : Halves). with_gap k) (add_groups-head (h ∷ hs) [] []) in
    loop-groups_gap hs h m (no_halves false) (groups_text ts) (All-left (h ∷ hs) ts small)
      (omega arith) refl
    ∙ ap
        (λ (k : Halves).
          if not (length (groups_text ts) == 0) then ipv6_loop m k (groups_text ts) else finished k)
        left
    ∙ loop-tail ts m (groups_bytes (h ∷ hs)) enough (All-right (h ∷ hs) ts small) (omega arith)

length-groups_text : (gs : List ℕ) → length gs ≤ length (groups_text gs)
unfolding groups_text group_text
length-groups_text [] = omega arith
length-groups_text (g ∷ gs) = omega (arith, length-more_groups gs)

parse-gapped :
    (h : ℕ) (hs ts : List ℕ)
    → All IsGroup ((h ∷ hs) ++ ts)
    → length (h ∷ hs) + length ts ≤ 8
    → api_parse_ipv6 (some (group_text h ++ (more_groups hs ++ (b':' ∷ b':' ∷ groups_text ts))))
      ≡ address_of (gapped (h ∷ hs) ts)
unfolding loop_result
parse-gapped h hs ts small few =
    let rest = b':' ∷ b':' ∷ groups_text ts in
    let text = group_text h ++ (more_groups hs ++ rest) in
    let size : length text ≡ length (group_text h) + (length (more_groups hs) + length rest) =
      length-append (group_text h) (more_groups hs ++ rest)
      ∙ ap (λ (n : ℕ). length (group_text h) + n) (length-append (more_groups hs) rest) in
    let m = length text - length hs in
    let enough : length ts < m =
      omega (arith, size, length-more_groups hs, length-groups_text ts) in
    let fuel : length text + 1 ≡ rounds hs m =
      omega (arith, rounds_is hs m, size, length-more_groups hs) in
    parse_from text text (no_halves false) (start-group_text h (more_groups hs ++ rest) small.0)
    ∙ ap (λ (n : ℕ). loop_result (ipv6_loop n (no_halves false) text)) fuel
    ∙ ap (λ (e : LoopEnd). loop_result e) (loop-gapped h hs ts m enough small few)
    ∙ join-gapped (h ∷ hs) ts

-- The text of at most eight groups of four hexadecimal digits, with a `::` in one place or without,
-- is read as the address that it stands for: eight groups without a `::`, or at most seven with one,
-- which stands for the zeros of those that are missing. Any other number of groups is refused.
pub api_parse_ipv6-print :
    (text : Ipv6Text)
    → All IsGroup (all_groups text)
    → length (all_groups text) ≤ 8
    → api_parse_ipv6 (some (print_ipv6 text)) ≡ address_of text
unfolding print_ipv6 groups_text loop_result groups_bytes
api_parse_ipv6-print (plain []) small few =
    parse_from [] [] (no_halves false) (unfold ipv6_start in refl)
    ∙ (unfold ipv6_loop in join-plain [])
api_parse_ipv6-print (plain (g ∷ gs)) small few =
    let text = group_text g ++ more_groups gs in
    let size = length-append (group_text g) (more_groups gs) in
    parse_from text text (no_halves false) (start-group_text g (more_groups gs) small.0)
    ∙ ap (λ (e : LoopEnd). loop_result e)
        (loop-plain g gs (length text + 1) (omega (arith, size, length-more_groups gs)) small few)
    ∙ join-plain (g ∷ gs)
api_parse_ipv6-print (gapped [] []) small few =
    parse_from (b':' ∷ b':' ∷ []) [] (no_halves true) (unfold ipv6_start in refl)
    ∙ (unfold ipv6_loop in join-gapped [] [])
api_parse_ipv6-print (gapped [] (t ∷ ts)) small few =
    let rest = group_text t ++ more_groups ts in
    let size = length-append (group_text t) (more_groups ts) in
    parse_from (b':' ∷ b':' ∷ rest) rest (no_halves true) (unfold ipv6_start in refl)
    ∙ ap (λ (e : LoopEnd). loop_result e)
        (loop-groups ts t (length (b':' ∷ b':' ∷ rest) + 1) (halves [] [] true)
            (omega (arith, size, length-more_groups ts)) small (omega arith)
          ∙ ap (λ (k : Halves). finished k) (add_groups-tail (t ∷ ts) [] []))
    ∙ join-gapped [] (t ∷ ts)
api_parse_ipv6-print (gapped (h ∷ hs) ts) small few =
    let size : length ((h ∷ hs) ++ ts) ≡ length (h ∷ hs) + length ts = length-append (h ∷ hs) ts in
    ap (λ (t : Bytes). api_parse_ipv6 (some t))
      (append_assoc (group_text h) (more_groups hs) (b':' ∷ b':' ∷ groups_text ts))
    ∙ parse-gapped h hs ts small (omega (arith, size))
