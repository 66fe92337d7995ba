-- ===== src/JobManager/Answers.antt =====
-- A job whose full record was evicted answers its key from the compact pool.
use cedar_switch_3i4o_power.Common.{
  ℕ, zero, suc, ◌+◌, ◌*◌, ◌^◌, ◌<◌, ◌≤◌, ◌≡◌, ◌⊎◌, inl, inr, refl, ap, subst, ◌∙◌, true, false,
  Option, none, some, List, [], ◌∷◌, Bytes, length, sum_by, sum_by-get_elem?, All, AllAt, get_elem?,
  get_elem?-set_self, ◌==◌, if◌then◌else◌, arith, Bool-cases, Option-cases,
}
use cedar_switch_3i4o_power.JobManager.Types.{
  JobRecord, JobCompact, JobSnapshot, JobKind, Config, Store, Readings, CreateParams, LookupResult,
  not_found, existing, conflicting, new_job, kind_of_index, int64_max,
}
use cedar_switch_3i4o_power.JobManager.Tiers.{
  is_empty, carries_key, is_stale, expire_compacts, compact_of, lookup_compacts, lookup_locked,
  snapshot_from_compact, claim_record,
}
use cedar_switch_3i4o_power.JobManager.Ops.{
  expired, job_create, create_by_key, after_lookup, create_new, key_refused,
}
use cedar_switch_3i4o_power.JobManager.Search.{Claim, free, evict, claim_record-Claim}
use cedar_switch_3i4o_power.JobManager.Calls.{Call, creates, step, run}
use cedar_switch_3i4o_power.JobManager.Tally.{total}
use cedar_switch_3i4o_power.JobManager.Identity.{has_key, key_tally, keys_named, IsValid}
use cedar_switch_3i4o_power.JobManager.Uniqueness.{run-IsValid}
use cedar_switch_3i4o_power.JobManager.Retirement.{
  lookup_tiers-skip, retire_to_compact-stores, Faithful, compact_of-Faithful, compact_of-hash,
  compact_of-carries, compact_of-kept,
}
use cedar_switch_3i4o_power.JobManager.Retention.{sweep_time, Crowded, run-keeps}

-- The only compact record with a key is found after a sweep that leaves it.
lookup_compacts-at :
    (cfg : Config) (now : ℕ) (cs : List JobCompact) (j : ℕ) (c : JobCompact) (key : Bytes)
    (hash : ℕ)
    → get_elem? cs j ≡ some c
    → sum_by (λ x. has_key x.used x.key key) cs ≤ 1
    → carries_key c.used c.key key ≡ true
    → is_stale cfg now c ≡ false
    → lookup_compacts (expire_compacts cfg now cs) key hash
      ≡ (if c.request_hash == hash then existing (snapshot_from_compact c) else conflicting)
unfolding lookup_compacts expire_compacts
lookup_compacts-at cfg now [] j c key hash at once here young = cc
lookup_compacts-at cfg now (x ∷ cs) zero c key hash at once here young =
    let same : x ≡ c = ground arith in rw (same, young) (ground arith)
lookup_compacts-at cfg now (x ∷ cs) (suc j) c key hash at once here young =
    let there = sum_by-get_elem? (λ (y : JobCompact). has_key y.used y.key key) cs j c at in
    ground (arith, lookup_compacts-at cfg now cs j c key hash)

-- So is it by a lookup in a store where the key is named once.
lookup_locked-compact :
    (cfg : Config) (later : ℕ) (s : Store) (j : ℕ) (c : JobCompact) (key : Bytes) (hash : ℕ)
    → keys_named key s ≤ 1
    → get_elem? s.compacts j ≡ some c
    → carries_key c.used c.key key ≡ true
    → is_stale cfg later c ≡ false
    → lookup_locked (expired cfg later s) key hash
      ≡ (if c.request_hash == hash then existing (snapshot_from_compact c) else conflicting)
unfolding lookup_locked total key_tally
lookup_locked-compact cfg later s j c key hash once at here young =
    let there = sum_by-get_elem? (λ (y : JobCompact). has_key y.used y.key key) s.compacts j c at in
    let one : has_key c.used c.key key ≡ 1 = ground arith in
    lookup_tiers-skip s.records (expire_compacts cfg later s.compacts) key hash (omega arith)
    ∙ lookup_compacts-at cfg later s.compacts j c key hash at (omega arith) here young

module _ (at : Readings) (p : CreateParams) (snap : JobSnapshot) (u : Store) (i : ℕ)
    (t : Store) where
  create_new-claimed :
      (kind : JobKind) (s : Store)
      → claim_record at.retire_at s ≡ some (i, t)
      → create_new at kind p s ≡ (new_job snap, u)
      → u.compacts ≡ t.compacts
  unfolding create_new
  create_new-claimed kind s claimed made =
      let done = rw (claimed, create_new) at made in ground arith

  after_lookup-claimed :
      (kind : JobKind) (s : Store) (found : LookupResult)
      → claim_record at.retire_at s ≡ some (i, t)
      → after_lookup at kind p s found ≡ (new_job snap, u)
      → u.compacts ≡ t.compacts
  unfolding after_lookup
  after_lookup-claimed kind s not_found claimed made = create_new-claimed kind s claimed made
  after_lookup-claimed kind s conflicting claimed made = absurd (ground arith)
  after_lookup-claimed kind s (existing x) claimed made = absurd (ground arith)

  create_by_key-claimed :
      (kind : JobKind) (s : Store) (key : Option Bytes)
      → claim_record at.retire_at s ≡ some (i, t)
      → create_by_key at kind p s key ≡ (new_job snap, u)
      → u.compacts ≡ t.compacts
  unfolding create_by_key
  create_by_key-claimed kind s none claimed made = create_new-claimed kind s claimed made
  create_by_key-claimed kind s (some key) claimed made = after_lookup-claimed kind s _ claimed made

  -- A creation that answers with a new job leaves the compact pool as its claim does.
  job_create-claimed :
      (cfg : Config) (s : Store)
      → claim_record at.retire_at (expired cfg at.expire_at s) ≡ some (i, t)
      → job_create cfg at (some p) s ≡ (new_job snap, u)
      → u.compacts ≡ t.compacts
  unfolding job_create
  job_create-claimed cfg s claimed made = elim (Option-cases (kind_of_index p.kind_index)) [
    | inl e ↦ let bad = rw (e, job_create) at made in absurd (ground arith)
    | inr (kind, e) ↦ elim (Bool-cases (key_refused p.idempotency_key)) [
      | inl refused ↦ let bad = rw (e, job_create, refused) at made in absurd (ground arith)
      | inr fine ↦
          create_by_key-claimed kind (expired cfg at.expire_at s) p.idempotency_key claimed
            (rw (e, job_create, fine) at made)
    ]
  ]

-- A claim that takes the slot of a job stores its compact record.
Claim-stores :
    (now i : ℕ) (s t : Store) (old : JobRecord)
    → Claim now s i t
    → get_elem? s.records i ≡ some old
    → old.used ≡ true
    → 0 < length s.compacts
    → AllAt (λ (c : JobCompact). c.retired_ms < int64_max) s.compacts
    → (j : ℕ) × (get_elem? t.compacts j ≡ some (compact_of now old))
Claim-stores now i s t old (free other there unused) here used room young =
    absurd (let same : other ≡ old = cc in ground arith)
Claim-stores now i s t old (evict other there in_use term) here used room young =
    let same : other ≡ old = cc in
    let (j, c, got, stored) = retire_to_compact-stores now other s.compacts room young in
    (
      j,
      rw stored (get_elem?-set_self s.compacts j (compact_of now other) c got)
          ∙ ap (λ (r : JobRecord). some (compact_of now r)) same,
    )

-- In a store that satisfies the invariant, a creation answers with a new job and takes the slot of
-- a job with a key. Over any row of calls after it that sweep the compact pool no later than the end
-- of the retention time, and at any lookup up to that end, the old job answers its key from the
-- compact pool, unless at some point of the row a creation finds every slot of that pool in use. The
-- answer is a snapshot with the job's id, kind, state, error and creation time for the same hash,
-- and a conflict for another. The pool has a slot, no compact record is dated to the last
-- millisecond of the clock, and the calls do not use up the id counter.
pub evicted_answers :
    (cfg : Config) (s : Store) (at : Readings) (p : CreateParams) (snap : JobSnapshot) (u : Store)
    (i : ℕ) (t : Store) (old : JobRecord) (cs : List Call) (later hash : ℕ)
    → IsValid s
    → s.id_counter + length cs + 1 < 2 ^ 32
    → job_create cfg at (some p) s ≡ (new_job snap, u)
    → claim_record at.retire_at (expired cfg at.expire_at s) ≡ some (i, t)
    → get_elem? s.records i ≡ some old
    → old.used ≡ true
    → is_empty old.key ≡ false
    → 0 < length (expired cfg at.expire_at s).compacts
    → AllAt (λ (c : JobCompact). c.retired_ms < int64_max) (expired cfg at.expire_at s).compacts
    → All (λ (call : Call). sweep_time call ≤ at.retire_at + cfg.retention_seconds * 1000) cs
    → later ≤ at.retire_at + cfg.retention_seconds * 1000
    → ((shown : JobSnapshot) × Faithful shown old
        × (lookup_locked (expired cfg later (run cfg u cs)) old.key hash
            ≡ (if old.request_hash == hash then existing shown else conflicting)))
      ⊎ Crowded cfg u cs
unfolding run
evicted_answers cfg s at p snap u i t old cs later hash v room made claimed here used keyed pool
      young in_time in_end =
    let now = at.retire_at in
    let kept = compact_of now old in
    let swept = expired cfg at.expire_at s in
    let (j, there) =
      Claim-stores now i swept t old (claim_record-Claim now swept t i claimed) here used pool
        young in
    let same = job_create-claimed at p snap u i t cfg s claimed made in
    let start : get_elem? u.compacts j ≡ some kept =
      ap (λ (ds : List JobCompact). get_elem? ds j) same ∙ there in
    let fits = v.fits i old here in
    let stepped : step cfg s (creates at (some p)) ≡ u = unfold step in ap (λ x. x.1) made in
    let valid : IsValid (run cfg u cs) =
      subst (λ x. IsValid (run cfg x cs)) stepped
        (run-IsValid cfg (creates at (some p) ∷ cs) s (omega arith) v) in
    elim (run-keeps cfg j kept (unfold compact_of in refl) cs u (unfold compact_of in in_time)
      start) [
        | inr full ↦ inr full
        | inl still ↦ inl (
          snapshot_from_compact kept,
          compact_of-Faithful now old fits,
          lookup_locked-compact cfg later (run cfg u cs) j kept old.key hash
                (valid.key_once old.key) still (compact_of-carries now old fits keyed)
                (compact_of-kept cfg now later old in_end)
              ∙ rw (compact_of-hash now old) refl,
        )
      ]
