-- ===== src/JobManager/Uniqueness.antt =====
-- The invariant of the two pools, kept by every call until the id counter is used up.
use cedar_switch_3i4o_power.Common.{
  ℕ, ◌+◌, ◌^◌, ◌<◌, ◌≤◌, ◌≡◌, ◌⊎◌, inl, inr, subst, some, List, [], ◌∷◌, Bytes, length, AllAt,
  AllAt-replicate, set, get_elem?, arith,
}
use cedar_switch_3i4o_power.JobManager.Types.{
  JobRecord, Config, Store, CreateParams, JobKind, Readings, zero_record,
}
use cedar_switch_3i4o_power.JobManager.Ops.{
  job_manager_init, fresh_record, next_id, expired, job_id,
}
use cedar_switch_3i4o_power.JobManager.Search.{Claim}
use cedar_switch_3i4o_power.JobManager.Lifecycle.{Advance}
use cedar_switch_3i4o_power.JobManager.Calls.{
  Call, step, run, Effect, unchanged, swept, changed, created, step-Effect, NewKey,
}
use cedar_switch_3i4o_power.JobManager.Tally.{
  Fits, Effect-Fits, Tally, total, total-expired, Claim-total, Claim-created, changed-total,
  total-init,
}
use cedar_switch_3i4o_power.JobManager.Ids.{job_id-injective}
use cedar_switch_3i4o_power.JobManager.Identity.{
  id_tally, key_tally, ids_named, keys_named, IsValid, fresh-id_count, fresh-key_count,
  Effect-counter,
}

module _ (cfg : Config) (s : Store) (v : IsValid s) where
  swept-IsValid : (now : ℕ) → IsValid (expired cfg now s)
  swept-IsValid now = record {
    fits = v.fits;
    id_once = λ w. omega (arith, total-expired (id_tally w) cfg now s, v.id_once w);
    key_once = λ w. omega (arith, total-expired (key_tally w) cfg now s, v.key_once w);
    unused_ids = λ n above below.
        omega (arith, total-expired (id_tally (job_id n)) cfg now s, v.unused_ids n above below);
  }

  module _ (at : Readings) (kind : JobKind) (params : CreateParams) (i : ℕ) (t : Store)
      (new : NewKey params (expired cfg at.expire_at s))
      (claim : Claim at.retire_at (expired cfg at.expire_at s) i t)
      (room : s.id_counter + 1 < 2 ^ 32) where
    abbrev after : Store
    after = record t {
      records = set t.records i (fresh_record at.create_at kind params (next_id t.id_counter));
      id_counter = next_id t.id_counter;
    }

    counter_next : next_id t.id_counter ≡ s.id_counter + 1
    counter_next =
        let (le, here, same) = Claim-total (id_tally []) at.retire_at _ t i v.fits claim in
        omega arith

    grown :
        (y : Tally)
        → total y after
          ≤ total y (expired cfg at.expire_at s)
            + y.full (fresh_record at.create_at kind params (next_id t.id_counter))
    grown y = Claim-created y at.retire_at (expired cfg at.expire_at s) t i _ _ v.fits claim

    created-ids :
        (w : Bytes)
        → (ids_named w after ≤ ids_named w (expired cfg at.expire_at s))
          ⊎ ((job_id (s.id_counter + 1) ≡ w)
              × (ids_named w after ≤ ids_named w (expired cfg at.expire_at s) + 1))
    unfolding id_tally
    created-ids w = elim (fresh-id_count at.create_at kind params (next_id t.id_counter) w) [
      | inl none_here ↦ inl (omega (arith, grown (id_tally w)))
      | inr (one, few) ↦
          inr (subst (λ n. job_id n ≡ w) counter_next one, omega (arith, grown (id_tally w)))
    ]

    created-keys :
        (w : Bytes)
        → (keys_named w after ≤ keys_named w (expired cfg at.expire_at s))
          ⊎ (keys_named w after ≤ 1)
    unfolding key_tally
    created-keys w =
        elim (fresh-key_count at.create_at kind params (next_id t.id_counter) _ w new) [
          | inl none_here ↦ inl (omega (arith, grown (key_tally w)))
          | inr (few, missing) ↦ inr (omega (arith, grown (key_tally w), missing))
        ]

    created-IsValid : IsValid after
    created-IsValid = record {
      fits = Effect-Fits cfg s after (created at kind params i t new claim) v.fits;
      id_once = λ w. elim (created-ids w) [
        | inl le ↦ omega (arith, (swept-IsValid at.expire_at).id_once w)
        | inr (one, le) ↦ omega (
          arith,
          subst (λ x. ids_named x (expired cfg at.expire_at s) ≡ 0) one
              ((swept-IsValid at.expire_at).unused_ids (s.id_counter + 1) (omega arith) room),
        )
      ];
      key_once = λ w. elim (created-keys w) [
        | inl le ↦ omega (arith, (swept-IsValid at.expire_at).key_once w)
        | inr le ↦ le
      ];
      unused_ids = λ n above below. elim (created-ids (job_id n)) [
        | inl le ↦
            omega
              (arith, (swept-IsValid at.expire_at).unused_ids n (omega (arith, counter_next)) below)
        | inr (one, le) ↦
            absurd
              (omega (arith, counter_next, job_id-injective (s.id_counter + 1) n room below one))
      ];
    }

changed-IsValid :
    (cfg : Config) (s : Store) (i : ℕ) (rec rec' : JobRecord)
    → Advance rec rec'
    → get_elem? s.records i ≡ some rec
    → AllAt Fits (set s.records i rec')
    → IsValid s
    → IsValid (record s { records = set s.records i rec' })
changed-IsValid cfg s i rec rec' moved at fits v = record {
  fits = fits;
  id_once = λ w. omega (arith, changed-total (id_tally w) s i rec rec' moved at, v.id_once w);
  key_once = λ w. omega (arith, changed-total (key_tally w) s i rec rec' moved at, v.key_once w);
  unused_ids = λ n above below. omega (
    arith,
    changed-total (id_tally (job_id n)) s i rec rec' moved at,
    v.unused_ids n above below,
  );
}

Effect-IsValid :
    (cfg : Config) (s t : Store)
    → s.id_counter + 1 < 2 ^ 32
    → IsValid s
    → Effect cfg s t
    → IsValid t
Effect-IsValid cfg s t room v unchanged = v
Effect-IsValid cfg s t room v (swept now) = swept-IsValid cfg s v now
Effect-IsValid cfg s t room v (changed i rec body keeps at) =
    changed-IsValid cfg s i rec (body rec).1 (keeps rec) at
      (Effect-Fits cfg s t (changed i rec body keeps at) v.fits) v
Effect-IsValid cfg s t room v (created at kind params i mid new claim) =
    created-IsValid cfg s v at kind params i mid new claim room

-- Every call keeps the invariant while the 32-bit counter has an id left: an id names at most one
-- job of both pools, so does a key, and the ids of the counters to come are not in use.
pub step-IsValid :
    (cfg : Config) (s : Store) (c : Call)
    → s.id_counter + 1 < 2 ^ 32
    → IsValid s
    → IsValid (step cfg s c)
step-IsValid cfg s c room v = Effect-IsValid cfg s (step cfg s c) room v (step-Effect cfg s c)

pub init-IsValid : (cfg : Config) → IsValid (job_manager_init cfg)
unfolding job_manager_init
init-IsValid cfg = record {
  fits = AllAt-replicate Fits cfg.max_jobs zero_record (omega arith, omega arith);
  id_once = λ w. omega (arith, total-init (id_tally w) cfg);
  key_once = λ w. omega (arith, total-init (key_tally w) cfg);
  unused_ids = λ n above below. total-init (id_tally (job_id n)) cfg;
}

pub run-IsValid :
    (cfg : Config) (cs : List Call) (s : Store)
    → s.id_counter + length cs < 2 ^ 32
    → IsValid s
    → IsValid (run cfg s cs)
unfolding run
run-IsValid cfg [] s room v = v
run-IsValid cfg (c ∷ cs) s room v =
    run-IsValid cfg cs (step cfg s c)
      (omega (arith, Effect-counter cfg s (step cfg s c) (omega arith) (step-Effect cfg s c)))
      (step-IsValid cfg s c (omega arith) v)

-- After any history of fewer than 2^32 calls from the start, an id names at most one job among the
-- full and the compact records together, and so does an idempotency key.
pub run_unique :
    (cfg : Config) (cs : List Call) (w : Bytes)
    → length cs < 2 ^ 32
    → (ids_named w (run cfg (job_manager_init cfg) cs) ≤ 1)
      × (keys_named w (run cfg (job_manager_init cfg) cs) ≤ 1)
unfolding job_manager_init
run_unique cfg cs w room =
    let v = run-IsValid cfg cs (job_manager_init cfg) (omega arith) (init-IsValid cfg) in
    (v.id_once w, v.key_once w)
