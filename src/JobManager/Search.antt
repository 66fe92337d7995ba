-- ===== src/JobManager/Search.antt =====
-- What the searches of the two pools find.
use cedar_switch_3i4o_power.Common.{
  ℕ, zero, suc, ◌+◌, ◌≡◌, ◌⊎◌, inl, inr, refl, true, false, ◌&&◌, not, Option, none, some, List, [],
  ◌∷◌, Bytes, bytes_eq, eq_of_bytes_eq, set, get_elem?, ltb, AllAt, AllAt-cons, arith, Bool-cases,
  Option-cases,
}
use cedar_switch_3i4o_power.JobManager.Types.{JobRecord, JobCompact, Store, int64_max, zero_record}
use cedar_switch_3i4o_power.JobManager.Tiers.{
  is_terminal, find_record_from, find_record, find_unused, find_victim, pick_slot, compact_of,
  retire_to_compact, claim_record,
}

-- What `find_record` returns: an entry in use, with the id that was asked for.
pub find_record_from_sound :
    (rs : List JobRecord) (wanted : Bytes) (i j : ℕ) (r : JobRecord)
    → find_record_from rs wanted i ≡ some (j, r)
    → (k : ℕ) × (j ≡ i + k) × (get_elem? rs k ≡ some r) × (r.used ≡ true) × (r.id ≡ wanted)
unfolding find_record_from
find_record_from_sound [] wanted i j r e = cc
find_record_from_sound (x ∷ rs) wanted i j r e =
    elim (Bool-cases (x.used && bytes_eq x.id wanted)) [
      | inl hit ↦
          (0, ground arith, ground arith, ground arith, ground (arith, eq_of_bytes_eq x.id wanted))
      | inr miss ↦
          let (k, at, got, used, id) =
            find_record_from_sound rs wanted (suc i) j r (rw miss at e) in
          (suc k, omega arith, got, used, id)
    ]

pub find_record_sound :
    (rs : List JobRecord) (wanted : Bytes) (i : ℕ) (r : JobRecord)
    → find_record rs (some wanted) ≡ some (i, r)
    → (get_elem? rs i ≡ some r) × (r.used ≡ true) × (r.id ≡ wanted)
unfolding find_record
find_record_sound rs wanted i r e =
    let (k, at, got, used, id) = find_record_from_sound rs wanted 0 i r e in
    let same : i ≡ k = omega arith in (rw same got, used, id)

-- The first free record.
pub find_unused_sound :
    (rs : List JobRecord) (i j : ℕ)
    → find_unused rs i ≡ some j
    → (k : ℕ) × (r : JobRecord) × (j ≡ i + k) × (get_elem? rs k ≡ some r) × (r.used ≡ false)
unfolding find_unused
find_unused_sound [] i j e = cc
find_unused_sound (x ∷ rs) i j e = elim (Bool-cases x.used) [
  | inl used ↦
      let (k, r, at, got, free) = find_unused_sound rs (suc i) j (rw used at e) in
      (suc k, r, omega arith, got, free)
  | inr free ↦ (0, x, ground arith, refl, free)
]

pub find_unused-none :
    (rs : List JobRecord) (i : ℕ) → find_unused rs i ≡ none → AllAt (λ r. r.used ≡ true) rs
unfolding find_unused
find_unused-none [] i e j y h = cc
find_unused-none (x ∷ rs) i e zero y h = ground arith
find_unused-none (x ∷ rs) i e (suc j) y h = find_unused-none rs (suc i) (ground arith) j y h

-- The search for a victim: what it returns is terminal.
pub find_victim_sound :
    (rs : List JobRecord) (i oldest : ℕ) (start : Option (ℕ × JobRecord)) (j : ℕ) (r : JobRecord)
    → find_victim rs i oldest start ≡ some (j, r)
    → (start ≡ some (j, r))
      ⊎ ((k : ℕ) × (j ≡ i + k) × (get_elem? rs k ≡ some r) × (is_terminal r.state ≡ true))
unfolding find_victim
find_victim_sound [] i oldest start j r e = inl e
find_victim_sound (x ∷ rs) i oldest start j r e =
    elim (Bool-cases (is_terminal x.state && ltb x.updated_ms oldest)) [
      | inl better ↦
          elim (find_victim_sound rs (suc i) x.updated_ms (some (i, x)) j r (rw better at e)) [
            | inl this ↦ inr (0, ground arith, ground arith, ground arith)
            | inr (k, at, got, term) ↦ inr (suc k, omega arith, got, term)
          ]
      | inr worse ↦ elim (find_victim_sound rs (suc i) oldest start j r (rw worse at e)) [
        | inl old ↦ inl old
        | inr (k, at, got, term) ↦ inr (suc k, omega arith, got, term)
      ]
    ]

-- It returns none only if nothing terminal is older than the start.
pub find_victim-none :
    (rs : List JobRecord) (i oldest : ℕ) (start : Option (ℕ × JobRecord))
    → find_victim rs i oldest start ≡ none
    → (start ≡ none) × AllAt (λ r. (is_terminal r.state && ltb r.updated_ms oldest) ≡ false) rs
unfolding find_victim
find_victim-none [] i oldest start e = (e, λ j y h. cc)
find_victim-none (x ∷ rs) i oldest start e =
    elim (Bool-cases (is_terminal x.state && ltb x.updated_ms oldest)) [
      | inl better ↦
          let (bad, rest) =
            find_victim-none rs (suc i) x.updated_ms (some (i, x)) (rw better at e) in
          cc
      | inr worse ↦
          let (old, rest) = find_victim-none rs (suc i) oldest start (rw worse at e) in
          (old, AllAt-cons _ x rs worse rest)
    ]

-- The slot for a retired job lies in the pool.
pub pick_slot_sound :
    (cs : List JobCompact) (i oldest : ℕ) (start : Option ℕ) (j : ℕ)
    → pick_slot cs i oldest start ≡ some j
    → (start ≡ some j) ⊎ ((k : ℕ) × (c : JobCompact) × (j ≡ i + k) × (get_elem? cs k ≡ some c))
unfolding pick_slot
pick_slot_sound [] i oldest start j e = inl e
pick_slot_sound (x ∷ cs) i oldest start j e = elim (Bool-cases x.used) [
  | inr free ↦ inr (0, x, ground arith, refl)
  | inl used ↦ elim (Bool-cases (ltb x.retired_ms oldest)) [
    | inl older ↦ elim (pick_slot_sound cs (suc i) x.retired_ms (some i) j (ground arith)) [
      | inl this ↦ inr (0, x, ground arith, refl)
      | inr (k, c, at, got) ↦ inr (suc k, c, omega arith, got)
    ]
    | inr newer ↦ elim (pick_slot_sound cs (suc i) oldest start j (ground arith)) [
      | inl old ↦ inl old
      | inr (k, c, at, got) ↦ inr (suc k, c, omega arith, got)
    ]
  ]
]

-- No slot is picked only where every slot is in use and none is older than the start.
pub pick_slot-none :
    (cs : List JobCompact) (i oldest : ℕ) (start : Option ℕ)
    → pick_slot cs i oldest start ≡ none
    → (start ≡ none) × AllAt (λ c. (c.used && not (ltb c.retired_ms oldest)) ≡ true) cs
unfolding pick_slot
pick_slot-none [] i oldest start e = (e, λ j y h. cc)
pick_slot-none (x ∷ cs) i oldest start e = elim (Bool-cases x.used) [
  | inr free ↦ absurd (ground arith)
  | inl used ↦ elim (Bool-cases (ltb x.retired_ms oldest)) [
    | inl older ↦
        let (bad, rest) = pick_slot-none cs (suc i) x.retired_ms (some i) (ground arith) in cc
    | inr newer ↦
        let (old, rest) = pick_slot-none cs (suc i) oldest start (ground arith) in
        (old, AllAt-cons _ x cs (ground arith) rest)
  ]
]

-- Retirement writes one slot, or none.
pub data Retire (now : ℕ) (rec : JobRecord) (cs : List JobCompact) : List JobCompact → Type 0 where
  dropped : Retire now rec cs cs
  stored :
      (i : ℕ) (old : JobCompact)
      → get_elem? cs i ≡ some old
      → Retire now rec cs (set cs i (compact_of now rec))

pub retire_to_compact-Retire :
    (now : ℕ) (rec : JobRecord) (cs : List JobCompact)
    → Retire now rec cs (retire_to_compact now rec cs)
unfolding retire_to_compact
retire_to_compact-Retire now rec cs = elim (Option-cases (pick_slot cs 0 int64_max none)) [
  | inl e ↦ rw (e, retire_to_compact) dropped
  | inr (i, e) ↦ elim (pick_slot_sound cs 0 int64_max none i e) [
    | inl bad ↦ cc
    | inr (k, c, at, got) ↦
        let same : i ≡ k = omega arith in rw (e, retire_to_compact, same) (stored k c got)
  ]
]

-- The two ways in which `claim_record` finds room.
pub data Claim (now : ℕ) (s : Store) (i : ℕ) : Store → Type 0 where
  free : (old : JobRecord) → get_elem? s.records i ≡ some old → old.used ≡ false → Claim now s i s
  evict :
      (old : JobRecord)
      → get_elem? s.records i ≡ some old
      → old.used ≡ true
      → is_terminal old.state ≡ true
      → Claim now s i (record s {
        compacts = retire_to_compact now old s.compacts;
        records = set s.records i zero_record;
      })

pub claim_record-Claim :
    (now : ℕ) (s t : Store) (i : ℕ) → claim_record now s ≡ some (i, t) → Claim now s i t
unfolding claim_record
claim_record-Claim now s t i e = elim (Option-cases (find_unused s.records 0)) [
  | inr (j, found) ↦
      let (k, r, at, got, unused) = find_unused_sound s.records 0 j found in
      let same : i ≡ k = ground arith in
      let kept : t ≡ s = ground arith in rw (same, kept) (free r got unused)
  | inl full ↦ elim (Option-cases (find_victim s.records 0 int64_max none)) [
    | inl lost ↦ absurd (ground arith)
    | inr ((j, r), found) ↦ elim (find_victim_sound s.records 0 int64_max none j r found) [
      | inl bad ↦ cc
      | inr (k, at, got, term) ↦
          let same : i ≡ k = ground arith in
          let j_same : j ≡ k = ground arith in
          let room : t ≡ record s {
            compacts = retire_to_compact now r s.compacts;
            records = set s.records k zero_record;
          } =
            ground arith in
          rw (same, room) (evict r got (find_unused-none s.records 0 full k r got) term)
    ]
  ]
]
