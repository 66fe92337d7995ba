-- ===== src/JobManager/Tests.antt =====
-- Runs of the job manager on small inputs, and its theorems at concrete ones.
use cedar_switch_3i4o_power.Common.{
  set, ℕ, ◌+◌, ◌<◌, ◌≤◌, ◌≡◌, ◌↔◌, ◌⊎◌, refl, true, false, none, some, List, [], ◌∷◌, Bytes, codes,
  bytes_eq, take, AllAt, AllAt-cons, get_elem?, if◌then◌else◌, ◌==◌, arith,
}
use cedar_switch_3i4o_power.JobManager.Types.{
  JobRecord, JobCompact, JobSnapshot, queued, succeeded, failed, cancelled, int64_max,
  coprocessor_update, Config, Readings, CreateParams, new_job, key_conflict, existing, conflicting,
  einval, eperm, Store, zero_record, zero_compact, zero_error, zero_progress, job_kind_str,
  job_state_str, error_code_max, unit_bytes,
}
use cedar_switch_3i4o_power.JobManager.Tiers.{
  is_terminal, transition_allowed, find_record, claim_record, lookup_locked, snapshot_from_record,
  compact_of,
}
use cedar_switch_3i4o_power.JobManager.Ops.{
  job_manager_init, job_create, get_locked, job_cancel, job_fail, job_set_phase, job_set_state,
  job_set_cancellable, job_set_progress, job_active_count, job_active_ids, expired, fresh_record,
}
use cedar_switch_3i4o_power.JobManager.Lifecycle.{OneOf, documented, transition_allowed-documented}
use cedar_switch_3i4o_power.JobManager.Calls.{Call, creates, cancels, finds, sets_state, step, run}
use cedar_switch_3i4o_power.JobManager.History.{
  Held, Replaced, step-Held, Present, Ended, run_keeps_active,
}
use cedar_switch_3i4o_power.JobManager.Tally.{Fits}
use cedar_switch_3i4o_power.JobManager.Ids.{job_id-injective}
use cedar_switch_3i4o_power.JobManager.Identity.{IsValid, ids_named, keys_named}
use cedar_switch_3i4o_power.JobManager.Uniqueness.{
  step-IsValid, init-IsValid, run-IsValid, run_unique,
}
use cedar_switch_3i4o_power.JobManager.Idempotency.{job_create_retry}
use cedar_switch_3i4o_power.JobManager.Retirement.{Faithful}
use cedar_switch_3i4o_power.JobManager.Retention.{Crowded}
use cedar_switch_3i4o_power.JobManager.Answers.{evicted_answers}
use cedar_switch_3i4o_power.JobManager.Capacity.{
  active_ids, job_active_ids-take, new_one, job_create-active_count,
}
use cedar_switch_3i4o_power.JobManager.Setters.{
  job_cancel-pinned, terminal_refused, Shows, job_fail-get, job_set_state_bare,
}

abbrev small : Config
small = record { max_jobs = 2; dedupe_slots = 2; retention_seconds = 900 }

abbrev at : Readings
at = record { expire_at = 1000; retire_at = 1001; create_at = 1002 }

abbrev update_key : Bytes
update_key = codes "k1"

abbrev update_request : CreateParams
update_request = record {
  kind_index = 8;
  cancellable = true;
  idempotency_key = some update_key;
  request_hash = 7;
}

abbrev other_request : CreateParams
other_request = record update_request { request_hash = 8 }

abbrev plain_request : CreateParams
plain_request = record update_request { idempotency_key = none }

-- The record that `update_request` makes.
abbrev update_job : JobRecord
update_job = record {
  used = true;
  id = codes "job_00000001";
  kind = coprocessor_update;
  state = queued;
  phase = [];
  progress = zero_progress;
  cancellable = true;
  created_ms = 1002;
  updated_ms = 1002;
  error = zero_error;
  has_error = false;
  key = update_key;
  request_hash = 7;
}

abbrev empty : Store
empty = record {
  records = zero_record ∷ zero_record ∷ [];
  compacts = zero_compact ∷ zero_compact ∷ [];
  id_counter = 0;
}

abbrev one_job : Store
one_job = record empty { records = update_job ∷ zero_record ∷ []; id_counter = 1 }

abbrev done_job : JobRecord
done_job = record update_job { state = succeeded; cancellable = false }

-- Both records hold terminal jobs.
abbrev full_of_done : Store
full_of_done = record {
  records =
      done_job ∷ record done_job { id = codes "job_00000002"; key = []; updated_ms = 2000 } ∷ [];
  compacts = zero_compact ∷ zero_compact ∷ [];
  id_counter = 2;
}

empty_start : job_manager_init small ≡ empty
unfolding job_manager_init
empty_start = refl

first_created :
    job_create small at (some update_request) empty
    ≡ (new_job (snapshot_from_record update_job), one_job)
unfolding job_create
first_created = refl

unknown_kind : job_kind_str 11 ≡ none
unfolding job_kind_str
unknown_kind = refl

interrupted_name : job_state_str 6 ≡ some (codes "interrupted")
unfolding job_state_str
interrupted_name = refl

transition_allowed-documented_example :
    (transition_allowed queued succeeded ≡ true)
    ↔ (OneOf succeeded (documented queued) ⊎ ((queued ≡ queued) × (succeeded ≡ succeeded)))
transition_allowed-documented_example = transition_allowed-documented queued succeeded

step-Held_example :
    Held 0 update_job (step small one_job (cancels 2000 (some (codes "job_00000001"))))
    ⊎ Replaced 0 update_job (step small one_job (cancels 2000 (some (codes "job_00000001"))))
step-Held_example =
    step-Held 0 update_job refl small one_job (cancels 2000 (some (codes "job_00000001"))) refl

abbrev history : List Call
history = sets_state 1500 (some (codes "job_00000001")) 3 ∷ creates at (some plain_request) ∷ []

run_keeps_active_example :
    Present 0 update_job (run small one_job history) ⊎ Ended small one_job history 0 update_job
run_keeps_active_example = run_keeps_active small 0 history one_job update_job refl refl

step-IsValid_example :
    IsValid (step small (job_manager_init small) (creates at (some update_request)))
unfolding job_manager_init
step-IsValid_example =
    step-IsValid small (job_manager_init small) (creates at (some update_request)) (omega arith)
      (init-IsValid small)

run_unique_example :
    (ids_named (codes "job_00000001") (run small (job_manager_init small) history) ≤ 1)
    × (keys_named (codes "job_00000001") (run small (job_manager_init small) history) ≤ 1)
run_unique_example = run_unique small history (codes "job_00000001") (omega arith)

job_id-injective_example : ◌≡◌ {A = ℕ} 10 10
job_id-injective_example = job_id-injective 10 10 (omega arith) (omega arith) refl

empty-Fits : AllAt Fits empty.records
empty-Fits =
    AllAt-cons Fits zero_record (zero_record ∷ []) (omega arith, omega arith)
      (AllAt-cons Fits zero_record [] (omega arith, omega arith) (λ i x e. cc))

job_create_retry_example :
    job_create small at (some other_request) one_job ≡ (key_conflict, expired small 1000 one_job)
unfolding job_create
job_create_retry_example =
    job_create_retry small at at update_request other_request update_key coprocessor_update empty
      one_job (snapshot_from_record update_job) empty-Fits refl first_created refl refl

job_active_ids-take_example :
    ((job_active_ids 1 one_job).0 ≡ take 1 (active_ids one_job.records))
    × ((job_active_ids 1 one_job).1 ≡ job_active_count one_job)
job_active_ids-take_example = job_active_ids-take 1 one_job

job_create-active_count_example :
    job_active_count (job_create small at (some plain_request) full_of_done).1
    ≡ job_active_count full_of_done
      + new_one (job_create small at (some plain_request) full_of_done).0
job_create-active_count_example = job_create-active_count small at (some plain_request) full_of_done

-- One record, and an active job in it.
abbrev busy : Store
busy = record one_job { records = update_job ∷ [] }

job_cancel-pinned_example :
    job_cancel 4000
      (some (codes "job_00000001"))
      (job_set_cancellable 3000 (some (codes "job_00000001")) false one_job).1
    ≡ (eperm, (job_set_cancellable 3000 (some (codes "job_00000001")) false one_job).1)
unfolding job_set_cancellable bytes_eq
job_cancel-pinned_example =
    job_cancel-pinned 3000 4000 (codes "job_00000001") one_job
      (job_set_cancellable 3000 (some (codes "job_00000001")) false one_job).1 refl

terminal_refused_example :
    let id = some (codes "job_00000001") in
    let s = full_of_done in
    (job_set_state 50 id 1 s ≡ (einval, s))
    × (job_fail 50 id (some (codes "storage_full")) true s ≡ (einval, s))
    × (job_set_phase 50 id (some (codes "download")) s ≡ (einval, s))
    × (job_set_progress 50 id 3 9 true unit_bytes s ≡ (einval, s))
    × (job_set_cancellable 50 id true s ≡ (einval, s))
    × (job_cancel 50 id s ≡ (einval, s))
unfolding find_record is_terminal bytes_eq
terminal_refused_example =
    terminal_refused (codes "job_00000001") full_of_done 0 done_job 50 1 3 9
      (some (codes "storage_full")) (some (codes "download")) true true true unit_bytes refl refl

job_fail-get_example :
    Shows small 5000
      (codes "job_00000001")
      (job_fail 3000 (some (codes "job_00000001")) (some (codes "storage_full")) true one_job).1
      λ snap.
        (snap.state ≡ failed)
        × (snap.has_error ≡ true)
        × (snap.error.code ≡ take error_code_max (codes "storage_full"))
        × (snap.error.retryable ≡ true)
        × (snap.cancellable ≡ false)
unfolding job_fail bytes_eq
job_fail-get_example =
    job_fail-get small 3000 5000 (codes "job_00000001") (codes "storage_full") true one_job
      (job_fail 3000 (some (codes "job_00000001")) (some (codes "storage_full")) true one_job).1
      refl

job_set_state_bare_example :
    Shows small 5000
      (codes "job_00000001")
      (job_set_state 3000 (some (codes "job_00000001")) 4 one_job).1
      λ snap. (snap.state ≡ failed) × (snap.has_error ≡ false)
unfolding job_set_state get_locked bytes_eq
job_set_state_bare_example =
    job_set_state_bare small 3000 5000 (codes "job_00000001") one_job
      (job_set_state 3000 (some (codes "job_00000001")) 4 one_job).1
      (snapshot_from_record update_job) refl refl refl

-- Two jobs, both cancelled: the next creation retires the first.
abbrev filling : List Call
filling =
    creates at (some update_request)
    ∷ creates at (some plain_request)
    ∷ cancels 1500 (some (codes "job_00000001"))
    ∷ cancels 1600 (some (codes "job_00000002"))
    ∷ []

abbrev filled : Store
filled = run small (job_manager_init small) filling

abbrev cancelled_job : JobRecord
cancelled_job = record update_job { state = cancelled; cancellable = false; updated_ms = 1500 }

filled-IsValid : IsValid filled
unfolding job_manager_init
filled-IsValid =
    run-IsValid small filling (job_manager_init small) (omega arith) (init-IsValid small)

abbrev after_claim : Store
after_claim = record {
  records =
      zero_record
      ∷ record cancelled_job { id = codes "job_00000002"; key = []; updated_ms = 1600 }
      ∷ [];
  compacts = compact_of 2000 cancelled_job ∷ zero_compact ∷ [];
  id_counter = 2;
}

-- The third creation, which retires it, a lookup and a setter behind it.
abbrev third_at : Readings
third_at = record { expire_at = 2000; retire_at = 2000; create_at = 2000 }

abbrev third_record : JobRecord
third_record = fresh_record 2000 coprocessor_update plain_request 3

abbrev after_third : Store
after_third = record after_claim {
  records = set after_claim.records 0 third_record;
  id_counter = 3;
}

third_created :
    job_create small third_at (some plain_request) filled
    ≡ (new_job (snapshot_from_record third_record), after_third)
unfolding claim_record run job_manager_init bytes_eq job_cancel job_create lookup_locked
third_created = refl

third_claimed : claim_record 2000 (expired small 2000 filled) ≡ some (0, after_claim)
unfolding claim_record run job_manager_init bytes_eq job_cancel job_create
third_claimed = refl

filled_first : get_elem? filled.records 0 ≡ some cancelled_job
unfolding run job_manager_init bytes_eq job_cancel job_create
filled_first = refl

filled_compacts : (expired small 2000 filled).compacts ≡ zero_compact ∷ zero_compact ∷ []
unfolding run job_manager_init bytes_eq job_cancel job_create
filled_compacts = refl

filled_young :
    AllAt (λ (c : JobCompact). c.retired_ms < int64_max) (expired small 2000 filled).compacts
filled_young = rw filled_compacts (
    AllAt-cons (λ (c : JobCompact). c.retired_ms < int64_max) zero_compact (zero_compact ∷ [])
      (omega arith)
      (AllAt-cons (λ (c : JobCompact). c.retired_ms < int64_max) zero_compact [] (omega arith)
        (λ i x e. cc)))

filled_counter : filled.id_counter ≡ 2
unfolding run job_manager_init bytes_eq job_cancel job_create
filled_counter = refl

abbrev behind : List Call
behind = finds 300000 (some update_key) 9 ∷ cancels 400000 (some (codes "job_00000003")) ∷ []

evicted_answers_example :
    ((shown : JobSnapshot) × Faithful shown cancelled_job
      × (lookup_locked (expired small 902000 (run small after_third behind)) update_key 7
          ≡ (if 7 == 7 then existing shown else conflicting)))
    ⊎ Crowded small after_third behind
evicted_answers_example =
    evicted_answers small filled third_at plain_request (snapshot_from_record third_record)
      after_third 0 after_claim cancelled_job behind 902000 7 filled-IsValid
      (rw filled_counter (omega arith)) third_created third_claimed filled_first refl refl
      (rw filled_compacts (omega arith)) filled_young (omega arith, (omega arith, tt)) (omega arith)
