-- ===== src/JobManager/Capacity.antt =====
-- Active jobs: counting them, listing them, and refusing a creation only when they fill the pool.
use cedar_switch_3i4o_power.Common.{
  ℕ, zero, suc, ◌+◌, ◌-◌, ◌<◌, ◌≡◌, inl, inr, refl, ap, ◌∙◌, Bool, true, false, Option, none, some,
  List, [], ◌∷◌, Bytes, take, sum_by, sum_by-set, get_elem?-set_self, set, ltb, if◌then◌else◌,
  arith, Bool-cases, Option-cases,
}
use cedar_switch_3i4o_power.JobManager.Types.{
  JobRecord, JobKind, Config, Readings, CreateParams, CreateResult, new_job, LookupResult,
  not_found, existing, conflicting, Store, kind_of_index, int64_max, zero_record,
}
use cedar_switch_3i4o_power.JobManager.Tiers.{claim_record, lookup_locked}
use cedar_switch_3i4o_power.JobManager.Ops.{
  is_active, active_count_from, job_active_count, active_ids_from, job_active_ids, job_create,
  create_by_key, after_lookup, create_new, fresh_record, next_id, expired, key_refused,
}
use cedar_switch_3i4o_power.JobManager.Search.{Claim, free, evict, claim_record-Claim}

abbrev active_one : JobRecord → ℕ
active_one r = if is_active r then 1 else 0

active_count_from-sum :
    (rs : List JobRecord) (n : ℕ) → active_count_from rs n ≡ n + sum_by active_one rs
unfolding active_count_from
active_count_from-sum [] n = omega arith
active_count_from-sum (r ∷ rs) n =
    omega (arith, active_count_from-sum rs (if is_active r then n + 1 else n), one (is_active r))
  where
    one : (b : Bool) → (if b then n + 1 else n) ≡ n + (if b then 1 else 0)
    one true = refl
    one false = omega arith

pub job_active_count-sum : (s : Store) → job_active_count s ≡ sum_by active_one s.records
unfolding job_active_count
job_active_count-sum s = omega (arith, active_count_from-sum s.records 0)

-- The ids of the active jobs, in the order of the pool.
pub active_ids : List JobRecord → List Bytes
active_ids [] = []
active_ids (r ∷ rs) = if is_active r then r.id ∷ active_ids rs else active_ids rs

take-suc_sub :
    (max n : ℕ) (x : Bytes) (xs : List Bytes)
    → take (max - n) (x ∷ xs) ≡ (if ltb n max then x ∷ take (max - (n + 1)) xs else [])
take-suc_sub max n x xs = elim (Bool-cases (ltb n max)) [
  | inl room ↦ let left : max - n ≡ suc (max - (n + 1)) = ground arith in rw (left, room)
  | inr full ↦ let left : max - n ≡ 0 = ground arith in rw (left, full)
]

take-nil_sub : (max n : ℕ) (xs : List Bytes) → ltb n max ≡ false → take (max - n) xs ≡ []
take-nil_sub max n xs h = let left : max - n ≡ 0 = ground arith in rw left

active_ids_from-take :
    (rs : List JobRecord) (max n : ℕ)
    → (active_ids_from rs max n).0 ≡ take (max - n) (active_ids rs)
unfolding active_ids_from active_ids
active_ids_from-take [] max n = take_none (max - n)
  where
    take_none : (k : ℕ) → ◌≡◌ {A = List Bytes} [] (take k [])
    take_none zero = refl
    take_none (suc k) = refl
active_ids_from-take (r ∷ rs) max n = elim (Bool-cases (is_active r)) [
  | inr idle ↦ ground (arith, active_ids_from-take rs max n)
  | inl busy ↦ ground (
    arith,
    active_ids_from-take rs max (n + 1),
    take-suc_sub max n r.id (active_ids rs),
    take-nil_sub max (n + 1) (active_ids rs),
  )
]

active_ids_from-count :
    (rs : List JobRecord) (max n : ℕ) → (active_ids_from rs max n).1 ≡ active_count_from rs n
unfolding active_ids_from active_count_from
active_ids_from-count [] max n = refl
active_ids_from-count (r ∷ rs) max n =
    active_ids_from-count rs max (if is_active r then n + 1 else n)

-- `job_active_ids` writes the first `max` of the active jobs' ids in the pool's order, and returns
-- the number of all active jobs, as `job_active_count` does.
pub job_active_ids-take :
    (max : ℕ) (s : Store)
    → ((job_active_ids max s).0 ≡ take max (active_ids s.records))
      × ((job_active_ids max s).1 ≡ job_active_count s)
unfolding job_active_ids job_active_count
job_active_ids-take max s = (
  active_ids_from-take s.records max 0
      ∙ ap (λ (k : ℕ). take k (active_ids s.records)) (omega arith),
  active_ids_from-count s.records max 0,
)

-- A creation and the number of active jobs.
Claim-active :
    (now : ℕ) (s t : Store) (i : ℕ) (rec : JobRecord)
    → Claim now s i t
    → is_active rec ≡ true
    → sum_by active_one (set t.records i rec) ≡ sum_by active_one s.records + 1
unfolding is_active
Claim-active now s t i rec (free old at unused) on =
    ground (arith, sum_by-set active_one s.records i rec old at)
Claim-active now s t i rec (evict old at used term) on =
    let cleared = sum_by-set active_one s.records i zero_record old at in
    let there = get_elem?-set_self s.records i zero_record old at in
    ground
      (arith, cleared, sum_by-set active_one (set s.records i zero_record) i rec zero_record there)

fresh_record-active :
    (now : ℕ) (kind : JobKind) (p : CreateParams) (n : ℕ)
    → is_active (fresh_record now kind p n) ≡ true
unfolding is_active fresh_record
fresh_record-active now kind p n = refl

abbrev pub new_one : CreateResult → ℕ
new_one (new_job _) = 1
new_one _ = 0

module _ (at : Readings) (kind : JobKind) (p : CreateParams) (s : Store) where
  create_new-active :
      job_active_count (create_new at kind p s).1
      ≡ job_active_count s + new_one (create_new at kind p s).0
  unfolding create_new
  create_new-active = elim (Option-cases (claim_record at.retire_at s)) [
    | inl full ↦ rw (full, create_new) (omega arith)
    | inr ((i, t), claimed) ↦
        rw (claimed, create_new)
          (omega (
            arith,
            job_active_count-sum s,
            job_active_count-sum (record t {
              records = set t.records i (fresh_record at.create_at kind p (next_id t.id_counter));
              id_counter = next_id t.id_counter;
            }),
            Claim-active at.retire_at s t i
                (fresh_record at.create_at kind p (next_id t.id_counter))
                (claim_record-Claim at.retire_at s t i claimed)
                (fresh_record-active at.create_at kind p (next_id t.id_counter)),
          ))
  ]

  after_lookup-active :
      (found : LookupResult)
      → job_active_count (after_lookup at kind p s found).1
        ≡ job_active_count s + new_one (after_lookup at kind p s found).0
  unfolding after_lookup
  after_lookup-active not_found = create_new-active
  after_lookup-active conflicting = omega arith
  after_lookup-active (existing x) = omega arith

  create_by_key-active :
      (key : Option Bytes)
      → job_active_count (create_by_key at kind p s key).1
        ≡ job_active_count s + new_one (create_by_key at kind p s key).0
  unfolding create_by_key
  create_by_key-active none = create_new-active
  create_by_key-active (some key) = after_lookup-active (lookup_locked s key p.request_hash)

active_count-expired :
    (cfg : Config) (now : ℕ) (s : Store) → job_active_count (expired cfg now s) ≡ job_active_count s
unfolding job_active_count
active_count-expired cfg now s = refl

-- A creation that answers with a new job adds exactly one active job, and any other answer none: no
-- creation ends work in flight.
pub job_create-active_count :
    (cfg : Config) (at : Readings) (p : Option CreateParams) (s : Store)
    → job_active_count (job_create cfg at p s).1
      ≡ job_active_count s + new_one (job_create cfg at p s).0
unfolding job_create
job_create-active_count cfg at none s = omega arith
job_create-active_count cfg at (some p) s = elim (Option-cases (kind_of_index p.kind_index)) [
  | inl unknown ↦ rw (unknown, job_create) (omega arith)
  | inr (kind, known) ↦ elim (Bool-cases (key_refused p.idempotency_key)) [
    | inl refused ↦ rw (known, job_create, refused) (omega arith)
    | inr fine ↦
        rw (known, job_create, fine)
          (omega (
            arith,
            create_by_key-active at kind p (expired cfg at.expire_at s) p.idempotency_key,
            active_count-expired cfg at.expire_at s,
          ))
  ]
]

-- The clock has not reached its last millisecond when a job was updated.
abbrev pub IsYoung : JobRecord → Type 0
IsYoung r = r.updated_ms < int64_max
