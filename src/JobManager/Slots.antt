-- ===== src/JobManager/Slots.antt =====
-- What a creation does to a slot of the compact pool that is in use.
use native.Mathlib.Decide.{ℕ_discrete}
use cedar_switch_3i4o_power.Common.{
  ℕ, zero, suc, ◌+◌, ◌≡◌, ◌⊎◌, inl, inr, refl, ap, ◌∙◌, true, false, Option, none, some, List, [],
  ◌∷◌, Bytes, AllAt, AllAt-cons, get_elem?, get_elem?-set_ne, ltb, if◌then◌else◌, arith, Bool-cases,
  Option-cases,
}
use cedar_switch_3i4o_power.JobManager.Types.{
  JobRecord, JobCompact, JobKind, Config, Store, Readings, CreateParams, LookupResult, not_found,
  existing, conflicting, kind_of_index, int64_max,
}
use cedar_switch_3i4o_power.JobManager.Tiers.{
  is_stale, expire_compacts, pick_slot, compact_of, retire_to_compact, claim_record,
}
use cedar_switch_3i4o_power.JobManager.Ops.{
  expired, job_create, create_by_key, after_lookup, create_new, key_refused,
}
use cedar_switch_3i4o_power.JobManager.Search.{Claim, free, evict, claim_record-Claim}

-- The picked slot is free, unless every slot is in use.
pick_slot_free :
    (cs : List JobCompact) (i oldest : ℕ) (start : Option ℕ)
    → AllAt (λ (c : JobCompact). c.used ≡ true) cs
      ⊎ ((k : ℕ) × (c : JobCompact) × (pick_slot cs i oldest start ≡ some (i + k))
          × (get_elem? cs k ≡ some c)
          × (c.used ≡ false))
unfolding pick_slot
pick_slot_free [] i oldest start = inl λ j y h. cc
pick_slot_free (x ∷ cs) i oldest start = elim (Bool-cases x.used) [
  | inr unused ↦ inr (0, x, rw unused (ap (λ (n : ℕ). some n) (omega arith)), refl, unused)
  | inl used ↦
      elim (pick_slot_free cs (suc i) (if ltb x.retired_ms oldest then x.retired_ms else oldest)
        (if ltb x.retired_ms oldest then some i else start)) [
          | inl all ↦ inl (AllAt-cons (λ (c : JobCompact). c.used ≡ true) x cs used all)
          | inr (k, c, found, got, unused) ↦
              inr (suc k, c, rw used (found ∙ ap (λ (n : ℕ). some n) (omega arith)), got, unused)
        ]
]

pub expire_compacts-at :
    (cfg : Config) (now : ℕ) (cs : List JobCompact) (j : ℕ) (c : JobCompact)
    → get_elem? cs j ≡ some c
    → is_stale cfg now c ≡ false
    → get_elem? (expire_compacts cfg now cs) j ≡ some c
unfolding expire_compacts
expire_compacts-at cfg now [] j c at young = at
expire_compacts-at cfg now (x ∷ cs) zero c at young =
    let same : x ≡ c = ground arith in rw (same, young) refl
expire_compacts-at cfg now (x ∷ cs) (suc j) c at young = expire_compacts-at cfg now cs j c at young

-- Every slot of the pool is in use.
abbrev pub Full : List JobCompact → Type 0
Full cs = AllAt (λ (c : JobCompact). c.used ≡ true) cs

module _ (j : ℕ) (c : JobCompact) (used : c.used ≡ true) where
  retire_to_compact-keeps :
      (now : ℕ) (rec : JobRecord) (cs : List JobCompact)
      → get_elem? cs j ≡ some c
      → (get_elem? (retire_to_compact now rec cs) j ≡ some c) ⊎ Full cs
  unfolding retire_to_compact
  retire_to_compact-keeps now rec cs at = elim (pick_slot_free cs 0 int64_max none) [
    | inl all ↦ inr all
    | inr (k, x, found, got, unused) ↦ elim (ℕ_discrete k j) [
      | yes same ↦
          let here : get_elem? cs j ≡ some x = rw (← same) got in
          let one : c ≡ x = cc in absurd (ground arith)
      | no other ↦
          let slot : 0 + k ≡ k = omega arith in
          inl (
            rw (found, retire_to_compact, slot)
              (get_elem?-set_ne cs k j (compact_of now rec) other ∙ at))
    ]
  ]

  Claim-keeps :
      (now i : ℕ) (s t : Store)
      → Claim now s i t
      → get_elem? s.compacts j ≡ some c
      → (get_elem? t.compacts j ≡ some c) ⊎ Full s.compacts
  Claim-keeps now i s t (free old there unused) at = inl at
  Claim-keeps now i s t (evict old there in_use term) at =
      retire_to_compact-keeps now old s.compacts at

  create_new-keeps :
      (at : Readings) (kind : JobKind) (params : CreateParams) (s : Store)
      → get_elem? s.compacts j ≡ some c
      → (get_elem? (create_new at kind params s).1.compacts j ≡ some c) ⊎ Full s.compacts
  unfolding create_new
  create_new-keeps at kind params s here = elim (Option-cases (claim_record at.retire_at s)) [
    | inl e ↦ rw (e, create_new) (inl here)
    | inr ((i, t), e) ↦
        rw (e, create_new)
          (Claim-keeps at.retire_at i s t (claim_record-Claim at.retire_at s t i e) here)
  ]

  after_lookup-keeps :
      (at : Readings) (kind : JobKind) (params : CreateParams) (s : Store) (found : LookupResult)
      → get_elem? s.compacts j ≡ some c
      → (get_elem? (after_lookup at kind params s found).1.compacts j ≡ some c) ⊎ Full s.compacts
  unfolding after_lookup
  after_lookup-keeps at kind params s not_found here = create_new-keeps at kind params s here
  after_lookup-keeps at kind params s conflicting here = inl here
  after_lookup-keeps at kind params s (existing snap) here = inl here

  create_by_key-keeps :
      (at : Readings) (kind : JobKind) (params : CreateParams) (s : Store) (key : Option Bytes)
      → get_elem? s.compacts j ≡ some c
      → (get_elem? (create_by_key at kind params s key).1.compacts j ≡ some c) ⊎ Full s.compacts
  unfolding create_by_key
  create_by_key-keeps at kind params s none here = create_new-keeps at kind params s here
  create_by_key-keeps at kind params s (some key) here = after_lookup-keeps at kind params s _ here

  pub job_create-keeps :
      (cfg : Config) (at : Readings) (params : Option CreateParams) (s : Store)
      → is_stale cfg at.expire_at c ≡ false
      → get_elem? s.compacts j ≡ some c
      → (get_elem? (job_create cfg at params s).1.compacts j ≡ some c)
        ⊎ Full (expired cfg at.expire_at s).compacts
  unfolding job_create
  job_create-keeps cfg at none s young here = inl here
  job_create-keeps cfg at (some params) s young here =
      elim (Option-cases (kind_of_index params.kind_index)) [
        | inl e ↦ rw (e, job_create) (inl here)
        | inr (kind, e) ↦ elim (Bool-cases (key_refused params.idempotency_key)) [
          | inl refused ↦ rw (e, job_create, refused) (inl here)
          | inr fine ↦
              rw (e, job_create, fine)
                (create_by_key-keeps at kind params (expired cfg at.expire_at s)
                  params.idempotency_key
                  (expire_compacts-at cfg at.expire_at s.compacts j c here young))
        ]
      ]
