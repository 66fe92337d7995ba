-- ===== src/JobManager/Ops.antt =====
-- The entry points of job_manager.c. Each runs under the module's mutex, so a call is one step from
-- a store to a store. The clock's readings are arguments.
use cedar_switch_3i4o_power.Common.{
  ℕ, zero, suc, ◌+◌, ◌-◌, ◌/◌, ◌%◌, ◌^◌, Bool, true, false, not, ◌&&◌, ◌||◌, Option, none, some,
  List, [], ◌∷◌, ◌++◌, Bytes, codes, take, set, length, replicate, ltb, if◌then◌else◌,
}
use cedar_switch_3i4o_power.JobManager.Types.{
  JobKind, JobState, queued, failed, cancelled, ProgressUnit, JobRecord, JobSnapshot, LookupResult,
  not_found, conflicting, existing, CreateResult, new_job, existing_job, key_conflict, exhausted,
  invalid, Status, ok, enoent, einval, eperm, CreateParams, Config, Readings, Store, id_max,
  key_max, phase_max, error_code_max, zero_progress, zero_record, zero_compact, kind_of_index,
  state_of_index,
}
use cedar_switch_3i4o_power.JobManager.Tiers.{
  is_terminal, transition_allowed, find_record, find_compact_by_id, expire_compacts, claim_record,
  snapshot_from_record, snapshot_from_compact, is_empty, lookup_locked,
}

-- `job_manager_init`
unfoldable pub job_manager_init : Config → Store
job_manager_init cfg = record {
  records = replicate cfg.max_jobs zero_record;
  compacts = replicate cfg.dedupe_slots zero_compact;
  id_counter = 0;
}

-- The store after `expire_compacts`.
abbrev pub expired : Config → ℕ → Store → Store
expired cfg now s = record s { compacts = expire_compacts cfg now s.compacts }

-- `job_find_by_key`
unfoldable pub job_find_by_key : Config → ℕ → Option Bytes → ℕ → Store → LookupResult × Store
unfolding expire_compacts lookup_locked
job_find_by_key cfg now none hash s = (not_found, s)
job_find_by_key cfg now (some key) hash s =
    if is_empty key
    then (not_found, s)
    else (lookup_locked (expired cfg now s) key hash, expired cfg now s)

-- A digit of `%x`.
abbrev pub hex_digit : ℕ → ℕ
hex_digit d = if ltb d 10 then b'0' + d else b'a' + (d - 10)

-- `%0<width>x` of a number of at most `width` digits.
unfoldable pub hex : ℕ → ℕ → Bytes
hex zero n = []
hex (suc width) n = hex width (n / 16) ++ (hex_digit (n % 16) ∷ [])

-- `"job_%08x"`
unfoldable pub job_id : ℕ → Bytes
unfolding hex
job_id n = codes "job_" ++ hex 8 n

-- The tests of `params` before the lock: the decoded kind, if they pass.
abbrev pub key_refused : Option Bytes → Bool
key_refused none = false
key_refused (some key) = is_empty key || ltb key_max (length key)

-- What `job_create` writes to the record that it claimed.
unfoldable pub fresh_record : ℕ → JobKind → CreateParams → ℕ → JobRecord
unfolding job_id
fresh_record now kind params counter = record zero_record {
  used = true;
  kind = kind;
  state = queued;
  cancellable = params.cancellable;
  created_ms = now;
  updated_ms = now;
  request_hash = params.request_hash;
  key = elim params.idempotency_key [ none ↦ [] | some key ↦ take key_max key ];
  id = take id_max (job_id counter);
}

-- `++id_counter` on a `uint32_t`
abbrev pub next_id : ℕ → ℕ
next_id n = (n + 1) % 2 ^ 32

-- `job_create` from `claim_record` on.
unfoldable pub create_new : Readings → JobKind → CreateParams → Store → CreateResult × Store
unfolding claim_record fresh_record snapshot_from_record
create_new at kind params s = elim (claim_record at.retire_at s) [
  | none ↦ (exhausted, s)
  | some (i, t) ↦
      let counter = next_id t.id_counter in
      let rec = fresh_record at.create_at kind params counter in
      (
        new_job (snapshot_from_record rec),
        record t { records = set t.records i rec; id_counter = counter },
      )
]

-- The `switch` on what the lookup of the key found.
unfoldable pub after_lookup :
    Readings → JobKind → CreateParams → Store → LookupResult → CreateResult × Store
unfolding create_new
after_lookup at kind params s (existing snapshot) = (existing_job snapshot, s)
after_lookup at kind params s conflicting = (key_conflict, s)
after_lookup at kind params s not_found = create_new at kind params s

-- The part of `job_create` under the lock, after `expire_compacts`, by the request's key.
unfoldable pub create_by_key :
    Readings → JobKind → CreateParams → Store → Option Bytes → CreateResult × Store
unfolding after_lookup lookup_locked
create_by_key at kind params s none = create_new at kind params s
create_by_key at kind params s (some key) =
    after_lookup at kind params s (lookup_locked s key params.request_hash)

-- `job_create`: `none` is a NULL `params`.
unfoldable pub job_create : Config → Readings → Option CreateParams → Store → CreateResult × Store
unfolding create_by_key expire_compacts
job_create cfg at none s = (invalid, s)
job_create cfg at (some params) s = elim (kind_of_index params.kind_index) [
  | none ↦ (invalid, s)
  | some kind ↦
      if key_refused params.idempotency_key
      then (invalid, s)
      else create_by_key at kind params (expired cfg at.expire_at s) params.idempotency_key
]

-- What the setters share: -ENOENT for an unknown id, else the body on the record, in its place.
unfoldable pub with_record :
    Store → Option Bytes → (JobRecord → Status × JobRecord) → Status × Store
unfolding find_record
with_record s id body = elim (find_record s.records id) [
  | none ↦ (enoent, s)
  | some (i, rec) ↦
      let (status, rec') = body rec in (status, record s { records = set s.records i rec' })
]

-- The bodies of the setters, with the early `else if` tests in the code's order.
unfoldable pub set_state_body : ℕ → JobState → JobRecord → Status × JobRecord
unfolding transition_allowed
set_state_body now to rec =
    if transition_allowed rec.state to
    then (
      ok,
      record rec {
        state = to;
        updated_ms = now;
        cancellable = if is_terminal to then false else rec.cancellable;
      },
    )
    else (einval, rec)

-- `job_set_state`
unfoldable pub job_set_state : ℕ → Option Bytes → ℕ → Store → Status × Store
unfolding with_record set_state_body
job_set_state now id index s = elim (state_of_index index) [
  | none ↦ (einval, s)
  | some to ↦ with_record s id (set_state_body now to)
]

unfoldable pub fail_body : ℕ → Bytes → Bool → JobRecord → Status × JobRecord
unfolding transition_allowed
fail_body now code retryable rec =
    if transition_allowed rec.state failed
    then (
      ok,
      record rec {
        state = failed;
        cancellable = false;
        has_error = true;
        error = record { code = take error_code_max code; retryable = retryable };
        updated_ms = now;
      },
    )
    else (einval, rec)

-- `job_fail`
unfoldable pub job_fail : ℕ → Option Bytes → Option Bytes → Bool → Store → Status × Store
unfolding with_record fail_body
job_fail now id none retryable s = (einval, s)
job_fail now id (some code) retryable s =
    if is_empty code then (einval, s) else with_record s id (fail_body now code retryable)

-- A setter that a terminal job refuses.
abbrev unless_terminal : (JobRecord → JobRecord) → JobRecord → Status × JobRecord
unless_terminal change rec = if is_terminal rec.state then (einval, rec) else (ok, change rec)

unfoldable pub set_phase_body : ℕ → Bytes → JobRecord → Status × JobRecord
unfolding is_terminal
set_phase_body now phase =
    unless_terminal
      λ rec. record rec { phase = take phase_max phase; progress = zero_progress; updated_ms = now }

-- `job_set_phase`
unfoldable pub job_set_phase : ℕ → Option Bytes → Option Bytes → Store → Status × Store
unfolding with_record set_phase_body
job_set_phase now id none s = (einval, s)
job_set_phase now id (some phase) s = with_record s id (set_phase_body now phase)

unfoldable pub set_progress_body : ℕ → ℕ → ℕ → Bool → ProgressUnit → JobRecord → Status × JobRecord
unfolding is_terminal
set_progress_body now completed total known unit = unless_terminal λ rec. record rec {
  progress = record {
    completed = completed;
    total = if known then total else 0;
    total_known = known;
    progress_unit = unit;
  };
  updated_ms = now;
}

-- `job_set_progress`
unfoldable pub job_set_progress :
    ℕ → Option Bytes → ℕ → ℕ → Bool → ProgressUnit → Store → Status × Store
unfolding with_record set_progress_body
job_set_progress now id completed total known unit s =
    with_record s id (set_progress_body now completed total known unit)

unfoldable pub set_cancellable_body : ℕ → Bool → JobRecord → Status × JobRecord
unfolding is_terminal
set_cancellable_body now cancellable =
    unless_terminal λ rec. record rec { cancellable = cancellable; updated_ms = now }

-- `job_set_cancellable`
unfoldable pub job_set_cancellable : ℕ → Option Bytes → Bool → Store → Status × Store
unfolding with_record set_cancellable_body
job_set_cancellable now id cancellable s = with_record s id (set_cancellable_body now cancellable)

unfoldable pub cancel_body : ℕ → JobRecord → Status × JobRecord
unfolding is_terminal
cancel_body now rec =
    if is_terminal rec.state
    then (einval, rec)
    else if not rec.cancellable
    then (eperm, rec)
    else (ok, record rec { state = cancelled; cancellable = false; updated_ms = now })

-- `job_cancel`
unfoldable pub job_cancel : ℕ → Option Bytes → Store → Status × Store
unfolding with_record cancel_body
job_cancel now id s = with_record s id (cancel_body now)

-- The lookup of `job_get`: the full record, else the compact one.
unfoldable pub get_locked : Bytes → Store → Status × Option JobSnapshot
unfolding find_record find_compact_by_id snapshot_from_record snapshot_from_compact
get_locked id s = elim (find_record s.records (some id)) [
  | some (i, rec) ↦ (ok, some (snapshot_from_record rec))
  | none ↦ elim (find_compact_by_id s.compacts id) [
    | none ↦ (enoent, none)
    | some c ↦ (ok, some (snapshot_from_compact c))
  ]
]

-- `job_get`: `has_out` tells that `out` is not NULL, and the option is what goes through it.
unfoldable pub job_get :
    Config → ℕ → Option Bytes → Bool → Store → (Status × Option JobSnapshot) × Store
unfolding get_locked expire_compacts
job_get cfg now none has_out s = ((einval, none), s)
job_get cfg now (some id) false s = ((einval, none), s)
job_get cfg now (some id) true s = (get_locked id (expired cfg now s), expired cfg now s)

-- The test of `job_active_count` and `job_active_ids`.
unfoldable pub is_active : JobRecord → Bool
unfolding is_terminal
is_active rec = rec.used && not (is_terminal rec.state)

-- `job_active_count`, from the count `n` on.
unfoldable pub active_count_from : List JobRecord → ℕ → ℕ
unfolding is_active
active_count_from [] n = n
active_count_from (r ∷ rs) n = active_count_from rs (if is_active r then n + 1 else n)

unfoldable pub job_active_count : Store → ℕ
unfolding active_count_from
job_active_count s = active_count_from s.records 0

-- `job_active_ids` at an array of `max` ids: what is written to it, in order, and the count.
unfoldable pub active_ids_from : List JobRecord → ℕ → ℕ → List Bytes × ℕ
unfolding is_active
active_ids_from [] max n = ([], n)
active_ids_from (r ∷ rs) max n =
    let (ids, count) = active_ids_from rs max (if is_active r then n + 1 else n) in
    (if is_active r && ltb n max then r.id ∷ ids else ids, count)

unfoldable pub job_active_ids : ℕ → Store → List Bytes × ℕ
unfolding active_ids_from
job_active_ids max s = active_ids_from s.records max 0
