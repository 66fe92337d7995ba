-- ===== src/JobManager/Identity.antt =====
-- An id names at most one job, in both pools together, and so does a key.
use cedar_switch_3i4o_power.Common.{
  ℕ, ◌+◌, ◌^◌, ◌<◌, ◌≤◌, ◌≡◌, ◌⊎◌, inl, inr, refl, subst, Bool, true, false, ◌&&◌, Option, none,
  some, List, [], ◌∷◌, Bytes, bytes_eq, eq_of_bytes_eq, take, take_all, sum_by, AllAt,
  if◌then◌else◌, arith, Bool-cases,
}
use cedar_switch_3i4o_power.JobManager.Types.{
  JobRecord, JobCompact, Config, Store, CreateParams, JobKind, not_found, id_max, key_max,
}
use cedar_switch_3i4o_power.JobManager.Tiers.{
  compact_of, carries_key, lookup_compacts, lookup_tiers, lookup_locked,
}
use cedar_switch_3i4o_power.JobManager.Ops.{fresh_record, job_id, key_refused}
use cedar_switch_3i4o_power.JobManager.Search.{free, evict}
use cedar_switch_3i4o_power.JobManager.Lifecycle.{Advance}
use cedar_switch_3i4o_power.JobManager.Calls.{Effect, unchanged, swept, changed, created, NewKey}
use cedar_switch_3i4o_power.JobManager.Tally.{Fits, Tally, total}
use cedar_switch_3i4o_power.JobManager.Ids.{length-job_id}

-- 1 for an entry in use with this id.
abbrev pub has_id : Bool → Bytes → Bytes → ℕ
has_id used id wanted = if used && bytes_eq id wanted then 1 else 0

pub has_id_unused :
    (wanted : Bytes) (r : JobRecord) → r.used ≡ false → has_id r.used r.id wanted ≡ 0
has_id_unused wanted r e = ground arith

pub has_id_kept :
    (wanted : Bytes) (r r' : JobRecord)
    → Advance r r'
    → has_id r'.used r'.id wanted ≡ has_id r.used r.id wanted
has_id_kept wanted r r' moved = rw (moved.used_kept, moved.id_kept)

pub has_id_retired :
    (wanted : Bytes) (now : ℕ) (r : JobRecord)
    → r.used ≡ true
    → Fits r
    → has_id (compact_of now r).used (compact_of now r).id wanted ≡ has_id r.used r.id wanted
unfolding compact_of
has_id_retired wanted now r used fits = rw (used, take_all id_max r.id fits.0)

unfoldable pub id_tally : Bytes → Tally
id_tally wanted = record {
  full = λ r. has_id r.used r.id wanted;
  compact = λ c. has_id c.used c.id wanted;
  full_unused = has_id_unused wanted;
  full_kept = has_id_kept wanted;
  compact_zero = refl;
  compact_retired = has_id_retired wanted;
}

-- 1 for an entry that answers this key.
abbrev pub has_key : Bool → Bytes → Bytes → ℕ
has_key used key wanted = if carries_key used key wanted then 1 else 0

pub has_key_unused :
    (wanted : Bytes) (r : JobRecord) → r.used ≡ false → has_key r.used r.key wanted ≡ 0
has_key_unused wanted r e = ground arith

pub has_key_kept :
    (wanted : Bytes) (r r' : JobRecord)
    → Advance r r'
    → has_key r'.used r'.key wanted ≡ has_key r.used r.key wanted
has_key_kept wanted r r' moved = rw (moved.used_kept, moved.key_kept)

pub has_key_retired :
    (wanted : Bytes) (now : ℕ) (r : JobRecord)
    → r.used ≡ true
    → Fits r
    → has_key (compact_of now r).used (compact_of now r).key wanted ≡ has_key r.used r.key wanted
unfolding compact_of
has_key_retired wanted now r used fits = rw (used, take_all key_max r.key fits.1)

unfoldable pub key_tally : Bytes → Tally
key_tally wanted = record {
  full = λ r. has_key r.used r.key wanted;
  compact = λ c. has_key c.used c.key wanted;
  full_unused = has_key_unused wanted;
  full_kept = has_key_kept wanted;
  compact_zero = refl;
  compact_retired = has_key_retired wanted;
}

-- How many entries of both pools have an id, and how many answer a key.
abbrev pub ids_named : Bytes → Store → ℕ
ids_named id = total (id_tally id)

abbrev pub keys_named : Bytes → Store → ℕ
keys_named key = total (key_tally key)

pub record IsValid (s : Store) : Type 0 where
  pub fits : AllAt Fits s.records
  pub id_once : (id : Bytes) → ids_named id s ≤ 1
  pub key_once : (key : Bytes) → keys_named key s ≤ 1
  pub unused_ids : (n : ℕ) → s.id_counter < n → n < 2 ^ 32 → ids_named (job_id n) s ≡ 0

lookup_compacts-none :
    (cs : List JobCompact) (key : Bytes) (hash : ℕ)
    → lookup_compacts cs key hash ≡ not_found
    → sum_by (λ c. has_key c.used c.key key) cs ≡ 0
unfolding lookup_compacts
lookup_compacts-none [] key hash e = refl
lookup_compacts-none (c ∷ cs) key hash e = ground (arith, lookup_compacts-none cs key hash)

lookup_tiers-none :
    (rs : List JobRecord) (cs : List JobCompact) (key : Bytes) (hash : ℕ)
    → lookup_tiers rs cs key hash ≡ not_found
    → sum_by (λ r. has_key r.used r.key key) rs + sum_by (λ c. has_key c.used c.key key) cs ≡ 0
unfolding lookup_tiers
lookup_tiers-none [] cs key hash e = omega (arith, lookup_compacts-none cs key hash e)
lookup_tiers-none (r ∷ rs) cs key hash e = ground (arith, lookup_tiers-none rs cs key hash)

-- A key that is not found is in neither pool.
pub keys_named_of_not_found :
    (s : Store) (key : Bytes) (hash : ℕ)
    → lookup_locked s key hash ≡ not_found
    → keys_named key s ≡ 0
unfolding lookup_locked total key_tally
keys_named_of_not_found s key hash e = lookup_tiers-none s.records s.compacts key hash e

fresh_record-id :
    (now : ℕ) (kind : JobKind) (params : CreateParams) (n : ℕ)
    → (fresh_record now kind params n).id ≡ job_id n
unfolding fresh_record
fresh_record-id now kind params n = take_all id_max (job_id n) (omega (arith, length-job_id n))

-- The id of a new job: it adds to the count of that id alone.
pub fresh-id_count :
    (now : ℕ) (kind : JobKind) (params : CreateParams) (n : ℕ) (wanted : Bytes)
    → let r = fresh_record now kind params n in
      (has_id r.used r.id wanted ≡ 0) ⊎ ((job_id n ≡ wanted) × (has_id r.used r.id wanted ≤ 1))
fresh-id_count now kind params n wanted =
    rw (fresh_record-id now kind params n) (counted (fresh_record now kind params n).used)
  where
    counted :
        (used : Bool)
        → (has_id used (job_id n) wanted ≡ 0)
          ⊎ ((job_id n ≡ wanted) × (has_id used (job_id n) wanted ≤ 1))
    counted used = ground (arith, eq_of_bytes_eq (job_id n) wanted)

-- The key of a new job: it adds to the count of the request's key alone.
pub fresh-key_count :
    (now : ℕ) (kind : JobKind) (params : CreateParams) (n : ℕ) (s : Store) (wanted : Bytes)
    → NewKey params s
    → (let r = fresh_record now kind params n in
        (has_key r.used r.key wanted ≡ 0)
        ⊎ (has_key r.used r.key wanted ≤ 1) × (keys_named wanted s ≡ 0))
unfolding fresh_record
fresh-key_count now kind params n s wanted new = by_key params.idempotency_key (λ k e. new k e)
  where
    by_key :
        (given : Option Bytes)
        → ((k : Bytes)
            → given ≡ some k
            → (lookup_locked s k params.request_hash ≡ not_found) × (key_refused (some k) ≡ false))
        → let key = elim given as (λ _. Bytes) [ none ↦ [] | some k ↦ take key_max k ] in
          (has_key true key wanted ≡ 0) ⊎ (has_key true key wanted ≤ 1) × (keys_named wanted s ≡ 0)
    by_key none h = inl refl
    by_key (some k) h =
        let (missing, fine) = h k refl in
        let whole : take key_max k ≡ k = take_all key_max k (ground arith) in
        elim (Bool-cases (bytes_eq k wanted)) [
          | inr other ↦ inl (rw whole (ground arith))
          | inl same ↦
              let one : k ≡ wanted = eq_of_bytes_eq k wanted same in
              inr (
                rw whole (ground arith),
                subst (λ w. keys_named w s ≡ 0) one (keys_named_of_not_found s k _ missing),
              )
        ]

pub Effect-counter :
    (cfg : Config) (s t : Store)
    → s.id_counter + 1 < 2 ^ 32
    → Effect cfg s t
    → (s.id_counter ≤ t.id_counter) × (t.id_counter ≤ s.id_counter + 1)
Effect-counter cfg s t room unchanged = omega arith
Effect-counter cfg s t room (swept now) = omega arith
Effect-counter cfg s t room (changed i rec body keeps at) = omega arith
Effect-counter cfg s t room (created times kind params i mid fresh (free old at unused)) =
    omega arith
Effect-counter cfg s t room (created times kind params i mid fresh (evict old at used term)) =
    omega arith
