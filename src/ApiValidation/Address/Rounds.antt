-- ===== src/ApiValidation/Address/Rounds.antt =====
-- The loop of `api_parse_ipv6` on the text of groups, up to the end of the text or a `::`.
use mathlib.Core.List.{append_assoc}
use cedar_switch_3i4o_power.Common.{
  ℕ, zero, suc, ◌+◌, ◌*◌, ◌/◌, ◌<◌, ◌≤◌, ◌≡◌, inl, inr, refl, ap, ◌∙◌, Bool, true, false, not, none,
  some, List, [], ◌∷◌, ◌++◌, Bytes, length, length-append, append_nil, All, ◌==◌, if◌then◌else◌,
  arith, Bool-cases,
}
use cedar_switch_3i4o_power.ApiValidation.Address.{
  Halves, part, add_part, after_colon, after_group, ipv6_round, ipv6_loop, finished,
}
use cedar_switch_3i4o_power.ApiValidation.Address.Groups.{
  group_text, more_groups, two, groups_bytes, not_colon, Behind, ipv6_round-group_text,
}

abbrev pub IsGroup : ℕ → Type 0
IsGroup g = g < 65536

unfoldable pub add_groups : Halves → List ℕ → Halves
add_groups h [] = h
add_groups h (g ∷ gs) = add_groups (add_part h (two g)) gs

length-part-add_part :
    (h : Halves) (bytes : Bytes) → length (part (add_part h bytes)) ≡ length (part h) + length bytes
unfolding add_part
length-part-add_part h bytes = elim (Bool-cases h.seen_compression) [
  | inl seen ↦ rw seen (length-append h.tail bytes)
  | inr unseen ↦ rw unseen (length-append h.head bytes)
]

if_false : {A : Type 0} (t : Bool) (a b : A) → t ≡ false → (if t then a else b) ≡ b
if_false true a b e = cc
if_false false a b e = refl

-- The loop at a group with another one behind it, with nothing behind it, and before a `::`.
loop-next :
    (fuel : ℕ) (h : Halves) (g g1 : ℕ) (rest : Bytes)
    → g < 65536
    → g1 < 65536
    → length (part h) + 2 ≤ 16
    → ipv6_loop (suc fuel) h (group_text g ++ (b':' ∷ (group_text g1 ++ rest)))
      ≡ ipv6_loop fuel (add_part h (two g)) (group_text g1 ++ rest)
unfolding ipv6_loop group_text
loop-next fuel h g g1 rest small small1 room =
    let round : ipv6_round h (group_text g ++ (b':' ∷ (group_text g1 ++ rest)))
        ≡ some (true, add_part h (two g), group_text g1 ++ rest) =
      ipv6_round-group_text h g (b':' ∷ (group_text g1 ++ rest)) small (unfold Behind in refl) room
      ∙ (unfold after_group after_colon in rw (not_colon (g1 / 4096) (omega arith)) refl) in
    rw (round, ipv6_loop) refl

loop-end :
    (fuel : ℕ) (h : Halves) (g : ℕ)
    → g < 65536
    → length (part h) + 2 ≤ 16
    → ipv6_loop (suc fuel) h (group_text g ++ []) ≡ finished (add_part h (two g))
unfolding ipv6_loop group_text
loop-end fuel h g small room =
    let round : ipv6_round h (group_text g ++ []) ≡ some (false, add_part h (two g), []) =
      ipv6_round-group_text h g [] small (unfold Behind in tt) room
      ∙ (unfold after_group in refl) in
    rw (round, ipv6_loop) refl

abbrev pub with_gap : Halves → Halves
with_gap h = record h { seen_compression = true }

loop-gap :
    (fuel : ℕ) (h : Halves) (g : ℕ) (rest : Bytes)
    → g < 65536
    → length (part h) + 2 ≤ 16
    → (add_part h (two g)).seen_compression ≡ false
    → ipv6_loop (suc fuel) h (group_text g ++ (b':' ∷ b':' ∷ rest)) ≡ (
        if not (length rest == 0)
        then ipv6_loop fuel (with_gap (add_part h (two g))) rest
        else finished (with_gap (add_part h (two g))))
unfolding ipv6_loop group_text
loop-gap fuel h g rest small room unseen =
    let round : ipv6_round h (group_text g ++ (b':' ∷ b':' ∷ rest))
        ≡ some (not (length rest == 0), with_gap (add_part h (two g)), rest) =
      ipv6_round-group_text h g (b':' ∷ b':' ∷ rest) small (unfold Behind in refl) room
      ∙ (unfold after_group after_colon in after_gap (add_part h (two g)) unseen) in
    rw (round, ipv6_loop) refl
  where
    after_gap :
        (k : Halves)
        → k.seen_compression ≡ false
        → after_group k (b':' ∷ b':' ∷ rest) ≡ some (not (length rest == 0), with_gap k, rest)
    after_gap k e = if_false k.seen_compression none _ e

add_part-unseen :
    (h : Halves) (bytes : Bytes)
    → h.seen_compression ≡ false
    → (add_part h bytes).seen_compression ≡ false
unfolding add_part
add_part-unseen h bytes e = rw e refl

-- The groups up to the end of the text.
pub loop-groups :
    (gs : List ℕ) (g fuel : ℕ) (h : Halves)
    → length gs < fuel
    → All IsGroup (g ∷ gs)
    → length (part h) + 2 * length (g ∷ gs) ≤ 16
    → ipv6_loop fuel h (group_text g ++ more_groups gs) ≡ finished (add_groups h (g ∷ gs))
unfolding more_groups add_groups
loop-groups gs g zero h enough small room = absurd (omega arith)
loop-groups [] g (suc fuel) h enough small room = loop-end fuel h g small.0 (omega arith)
loop-groups (g1 ∷ gs) g (suc fuel) h enough small room =
    loop-next fuel h g g1 (more_groups gs) small.0 small.1.0 (omega arith)
    ∙ loop-groups gs g1 fuel (add_part h (two g)) (omega arith) small.1
        (omega (arith, length-part-add_part h (two g)))

-- The rounds up to a `::`, with `m` more.
unfoldable pub rounds : List ℕ → ℕ → ℕ
rounds [] m = suc m
rounds (g ∷ gs) m = suc (rounds gs m)

pub rounds_is : (gs : List ℕ) (m : ℕ) → rounds gs m ≡ length gs + m + 1
unfolding rounds
rounds_is [] m = omega arith
rounds_is (g ∷ gs) m = omega (arith, rounds_is gs m)

pub loop-groups_gap :
    (gs : List ℕ) (g m : ℕ) (h : Halves) (rest : Bytes)
    → All IsGroup (g ∷ gs)
    → length (part h) + 2 * length (g ∷ gs) ≤ 16
    → h.seen_compression ≡ false
    → ipv6_loop (rounds gs m) h (group_text g ++ (more_groups gs ++ (b':' ∷ b':' ∷ rest))) ≡ (
        if not (length rest == 0)
        then ipv6_loop m (with_gap (add_groups h (g ∷ gs))) rest
        else finished (with_gap (add_groups h (g ∷ gs))))
unfolding more_groups add_groups rounds
loop-groups_gap [] g m h rest small room unseen =
    loop-gap m h g rest small.0 (omega arith) (add_part-unseen h (two g) unseen)
loop-groups_gap (g1 ∷ gs) g m h rest small room unseen =
    let gap = b':' ∷ b':' ∷ rest in
    let apart : (group_text g1 ++ more_groups gs) ++ gap
        ≡ group_text g1 ++ (more_groups gs ++ gap) =
      append_assoc (group_text g1) (more_groups gs) gap in
    ap (λ (t : Bytes). ipv6_loop (suc (rounds gs m)) h (group_text g ++ (b':' ∷ t))) apart
    ∙ loop-next (rounds gs m) h g g1 (more_groups gs ++ gap) small.0 small.1.0 (omega arith)
    ∙ loop-groups_gap gs g1 m (add_part h (two g)) rest small.1
        (omega (arith, length-part-add_part h (two g))) (add_part-unseen h (two g) unseen)

abbrev pub halves : Bytes → Bytes → Bool → Halves
halves head tail seen = record { head = head; tail = tail; seen_compression = seen }

-- The halves that the groups leave.
pub add_groups-head :
    (gs : List ℕ) (head tail : Bytes)
    → add_groups (record { head = head; tail = tail; seen_compression = false }) gs
      ≡ record { head = head ++ groups_bytes gs; tail = tail; seen_compression = false }
unfolding add_groups groups_bytes add_part
add_groups-head [] head tail = rw (append_nil head) refl
add_groups-head (g ∷ gs) head tail =
    add_groups-head gs (head ++ two g) tail
    ∙ ap (λ (t : Bytes). halves t tail false) (append_assoc head (two g) (groups_bytes gs))

pub add_groups-tail :
    (gs : List ℕ) (head tail : Bytes)
    → add_groups (record { head = head; tail = tail; seen_compression = true }) gs
      ≡ record { head = head; tail = tail ++ groups_bytes gs; seen_compression = true }
unfolding add_groups groups_bytes add_part
add_groups-tail [] head tail = rw (append_nil tail) refl
add_groups-tail (g ∷ gs) head tail =
    add_groups-tail gs head (tail ++ two g)
    ∙ ap (λ (t : Bytes). halves head t true) (append_assoc tail (two g) (groups_bytes gs))
