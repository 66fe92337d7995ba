-- ===== src/JobManager/Tally.antt =====
-- Counts over both pools. A tally gives each full and each compact record a number; retirement
-- carries a job's number over, so no call but a creation raises the total.
use cedar_switch_3i4o_power.Common.{
  ℕ, ◌+◌, ◌≤◌, ◌≡◌, refl, sym, subst, true, false, Option, none, some, List, [], ◌∷◌, length,
  get_elem?, set, get_elem?-set_self, sum_by, sum_by-set, sum_by-replicate, AllAt, AllAt-set,
  length-take, take, arith,
}
use cedar_switch_3i4o_power.JobManager.Types.{
  JobRecord, JobCompact, Config, JobKind, CreateParams, Store, zero_record, zero_compact, id_max,
  key_max,
}
use cedar_switch_3i4o_power.JobManager.Tiers.{expire_compacts, compact_of}
use cedar_switch_3i4o_power.JobManager.Ops.{
  fresh_record, next_id, expired, job_manager_init, job_id,
}
use cedar_switch_3i4o_power.JobManager.Search.{
  Retire, dropped, stored, retire_to_compact-Retire, Claim, free, evict,
}
use cedar_switch_3i4o_power.JobManager.Lifecycle.{Advance}
use cedar_switch_3i4o_power.JobManager.Calls.{Effect, unchanged, swept, changed, created}

-- The strings of a record fit their arrays.
abbrev pub Fits : JobRecord → Type 0
Fits r = (length r.id ≤ id_max) × (length r.key ≤ key_max)

fresh_record-Fits :
    (now : ℕ) (kind : JobKind) (params : CreateParams) (n : ℕ)
    → Fits (fresh_record now kind params n)
unfolding fresh_record
fresh_record-Fits now kind params n =
    (omega (arith, length-take id_max (job_id n)), key_fits params.idempotency_key)
  where
    key_fits :
        (key : Option (List ℕ))
        → length (elim key as (λ _. List ℕ) [ none ↦ [] | some k ↦ take key_max k ]) ≤ key_max
    key_fits none = omega arith
    key_fits (some k) = omega (arith, length-take key_max k)

Claim-Fits :
    (now : ℕ) (s t : Store) (i : ℕ) → Claim now s i t → AllAt Fits s.records → AllAt Fits t.records
Claim-Fits now s t i (free old at unused) h = h
Claim-Fits now s t i (evict old at used term) h =
    AllAt-set Fits s.records i zero_record h (omega arith, omega arith)

-- Every call keeps the strings within their arrays.
pub Effect-Fits :
    (cfg : Config) (s t : Store) → Effect cfg s t → AllAt Fits s.records → AllAt Fits t.records
Effect-Fits cfg s t unchanged h = h
Effect-Fits cfg s t (swept now) h = h
Effect-Fits cfg s t (changed i rec body keeps at) h =
    let moved = keeps rec in
    AllAt-set Fits s.records i (body rec).1 h (
      subst (λ x. length x ≤ id_max) (sym moved.id_kept) (h i rec at).0,
      subst (λ x. length x ≤ key_max) (sym moved.key_kept) (h i rec at).1,
    )
Effect-Fits cfg s t (created times kind params i mid fresh claim) h =
    AllAt-set Fits mid.records i _
      (Claim-Fits times.retire_at (expired cfg times.expire_at s) mid i claim h)
      (fresh_record-Fits times.create_at kind params (next_id mid.id_counter))

pub record Tally : Type 0 where
  pub full : JobRecord → ℕ
  pub compact : JobCompact → ℕ
  pub full_unused : (r : JobRecord) → r.used ≡ false → full r ≡ 0
  pub full_kept : (r r' : JobRecord) → Advance r r' → full r' ≡ full r
  pub compact_zero : compact zero_compact ≡ 0
  pub compact_retired :
      (now : ℕ) (r : JobRecord) → r.used ≡ true → Fits r → compact (compact_of now r) ≡ full r

module _ (y : Tally) where
  unfoldable pub total : Store → ℕ
  total s = sum_by y.full s.records + sum_by y.compact s.compacts

  expire-le :
      (cfg : Config) (now : ℕ) (cs : List JobCompact)
      → sum_by y.compact (expire_compacts cfg now cs) ≤ sum_by y.compact cs
  unfolding expire_compacts
  expire-le cfg now [] = omega arith
  expire-le cfg now (c ∷ cs) = ground (arith, expire-le cfg now cs, y.compact_zero)

  Retire-le :
      (now : ℕ) (rec : JobRecord) (cs ds : List JobCompact)
      → Retire now rec cs ds
      → sum_by y.compact ds ≤ sum_by y.compact cs + y.compact (compact_of now rec)
  Retire-le now rec cs ds dropped = omega arith
  Retire-le now rec cs ds (stored i old at) =
      omega (arith, sum_by-set y.compact cs i (compact_of now rec) old at)

  pub total-expired : (cfg : Config) (now : ℕ) (s : Store) → total (expired cfg now s) ≤ total s
  unfolding total
  total-expired cfg now s = omega (arith, expire-le cfg now s.compacts)

  -- A claim frees a slot and does not raise the total.
  pub Claim-total :
      (now : ℕ) (s t : Store) (i : ℕ)
      → AllAt Fits s.records
      → Claim now s i t
      → (total t ≤ total s)
        × ((r : JobRecord) × (get_elem? t.records i ≡ some r) × (y.full r ≡ 0))
        × (t.id_counter ≡ s.id_counter)
  unfolding total
  Claim-total now s t i fits (free old at unused) =
      (omega arith, (old, at, y.full_unused old unused), refl)
  Claim-total now s t i fits (evict old at used term) = (
    omega (
      arith,
      Retire-le now old s.compacts _ (retire_to_compact-Retire now old s.compacts),
      sum_by-set y.full s.records i zero_record old at,
      y.compact_retired now old used (fits i old at),
      y.full_unused zero_record refl,
    ),
    (
      zero_record,
      get_elem?-set_self s.records i zero_record old at,
      y.full_unused zero_record refl,
    ),
    refl,
  )

  -- A call adds to the total at most what the record of a new job counts for.
  pub Claim-created :
      (now : ℕ) (s t : Store) (i : ℕ) (rec : JobRecord) (counter : ℕ)
      → AllAt Fits s.records
      → Claim now s i t
      → total (record t { records = set t.records i rec; id_counter = counter })
        ≤ total s + y.full rec
  unfolding total
  Claim-created now s t i rec counter fits claim =
      let (le, (r, at, none_here), same) = Claim-total now s t i fits claim in
      omega (arith, sum_by-set y.full t.records i rec r at)

  pub changed-total :
      (s : Store) (i : ℕ) (rec rec' : JobRecord)
      → Advance rec rec'
      → get_elem? s.records i ≡ some rec
      → total (record s { records = set s.records i rec' }) ≡ total s
  unfolding total
  changed-total s i rec rec' moved at =
      omega (arith, sum_by-set y.full s.records i rec' rec at, y.full_kept rec rec' moved)

  pub total-init : (cfg : Config) → total (job_manager_init cfg) ≡ 0
  unfolding total job_manager_init
  total-init cfg = omega (
    arith,
    sum_by-replicate y.full cfg.max_jobs zero_record (y.full_unused zero_record refl),
    sum_by-replicate y.compact cfg.dedupe_slots zero_compact y.compact_zero,
  )
