-- ===== src/JobManager/Types.antt =====
-- The data of job_manager.h and job_manager.c. A C string is the list of its bytes, and a pointer
-- that may be NULL is an `Option`. The times are milliseconds of uptime, which is never negative.
-- An enumeration's argument that a caller may give out of range is a number, read by `of_index`.
use cedar_switch_3i4o_power.Common.{
  ℕ, ◌^◌, ◌-◌, Bool, false, Option, none, some, Bytes, get_elem?, List, [], ◌∷◌, codes,
}

-- `enum job_kind`
pub data JobKind : Type 0 where
  matter_open matter_close network_apply network_discard wifi_scan upload_chunk : JobKind
  firmware_verify firmware_delete coprocessor_update password_change system_update : JobKind

-- `enum job_state`
pub data JobState : Type 0 where
  queued running waiting_confirmation succeeded failed cancelled interrupted : JobState

-- `enum job_progress_unit`
pub data ProgressUnit : Type 0 where
  unit_none unit_bytes unit_records unit_percent : ProgressUnit

-- The constants in the order of `enum job_kind`: an index from `JOB_KIND_COUNT` on has none.
abbrev pub kinds : List JobKind
kinds =
    matter_open ∷ matter_close ∷ network_apply ∷ network_discard ∷ wifi_scan ∷ upload_chunk
    ∷ firmware_verify ∷ firmware_delete ∷ coprocessor_update ∷ password_change ∷ system_update ∷ []

abbrev pub kind_of_index : ℕ → Option JobKind
kind_of_index = get_elem? kinds

-- The constants in the order of `enum job_state`.
abbrev pub states : List JobState
states = queued ∷ running ∷ waiting_confirmation ∷ succeeded ∷ failed ∷ cancelled ∷ interrupted ∷ []

abbrev pub state_of_index : ℕ → Option JobState
state_of_index = get_elem? states

-- `struct job_progress`
pub record JobProgress : Type 0 where
  pub completed : ℕ
  pub total : ℕ
  pub total_known : Bool
  pub progress_unit : ProgressUnit

-- `struct job_error`
pub record JobError : Type 0 where
  pub code : Bytes
  pub retryable : Bool

-- `struct job_record`
pub record JobRecord : Type 0 where
  pub used : Bool
  pub id : Bytes
  pub kind : JobKind
  pub state : JobState
  pub phase : Bytes
  pub progress : JobProgress
  pub cancellable : Bool
  pub created_ms : ℕ
  pub updated_ms : ℕ
  pub error : JobError
  pub has_error : Bool
  pub key : Bytes
  pub request_hash : ℕ

-- `struct job_compact`
pub record JobCompact : Type 0 where
  pub used : Bool
  pub id : Bytes
  pub key : Bytes
  pub request_hash : ℕ
  pub kind : JobKind
  pub state : JobState
  pub error : JobError
  pub has_error : Bool
  pub created_ms : ℕ
  pub retired_ms : ℕ

-- `struct job_snapshot`
pub record JobSnapshot : Type 0 where
  pub id : Bytes
  pub kind : JobKind
  pub state : JobState
  pub phase : Bytes
  pub progress : JobProgress
  pub cancellable : Bool
  pub created_uptime_ms : ℕ
  pub updated_uptime_ms : ℕ
  pub error : JobError
  pub has_error : Bool
  pub compact : Bool

-- `enum job_lookup_result`, with what goes through `out` on JOB_LOOKUP_EXISTING.
pub data LookupResult : Type 0 where
  not_found conflicting : LookupResult
  existing : JobSnapshot → LookupResult

-- `enum job_create_result`, with what goes through `out`.
pub data CreateResult : Type 0 where
  new_job existing_job : JobSnapshot → CreateResult
  key_conflict exhausted invalid : CreateResult

-- The `int` that the other entry points return.
pub data Status : Type 0 where
  ok enoent einval eperm : Status

-- `struct job_create_params`
pub record CreateParams : Type 0 where
  pub kind_index : ℕ
  pub cancellable : Bool
  pub idempotency_key : Option Bytes
  pub request_hash : ℕ

-- The Kconfig options of the module.
pub record Config : Type 0 where
  pub max_jobs : ℕ
  pub dedupe_slots : ℕ
  pub retention_seconds : ℕ

-- The readings of the clock that one call makes, in order.
pub record Readings : Type 0 where
  pub expire_at : ℕ
  pub retire_at : ℕ
  pub create_at : ℕ

-- The file's static variables.
pub record Store : Type 0 where
  pub records : List JobRecord
  pub compacts : List JobCompact
  pub id_counter : ℕ

abbrev pub id_max : ℕ
id_max = 31

abbrev pub key_max : ℕ
key_max = 96

abbrev pub phase_max : ℕ
phase_max = 23

abbrev pub error_code_max : ℕ
error_code_max = 31

abbrev pub int64_max : ℕ
int64_max = 2 ^ 63 - 1

-- What `memset` to 0 leaves.
abbrev pub zero_progress : JobProgress
zero_progress = record { completed = 0; total = 0; total_known = false; progress_unit = unit_none }

abbrev pub zero_error : JobError
zero_error = record { code = []; retryable = false }

abbrev pub zero_record : JobRecord
zero_record = record {
  used = false;
  id = [];
  kind = matter_open;
  state = queued;
  phase = [];
  progress = zero_progress;
  cancellable = false;
  created_ms = 0;
  updated_ms = 0;
  error = zero_error;
  has_error = false;
  key = [];
  request_hash = 0;
}

abbrev pub zero_compact : JobCompact
zero_compact = record {
  used = false;
  id = [];
  key = [];
  request_hash = 0;
  kind = matter_open;
  state = queued;
  error = zero_error;
  has_error = false;
  created_ms = 0;
  retired_ms = 0;
}

-- `kind_names`
unfoldable pub kind_name : JobKind → Bytes
kind_name matter_open = codes "matter_open"
kind_name matter_close = codes "matter_close"
kind_name network_apply = codes "network_apply"
kind_name network_discard = codes "network_discard"
kind_name wifi_scan = codes "wifi_scan"
kind_name upload_chunk = codes "upload_chunk"
kind_name firmware_verify = codes "firmware_verify"
kind_name firmware_delete = codes "firmware_delete"
kind_name coprocessor_update = codes "coprocessor_update"
kind_name password_change = codes "password_change"
kind_name system_update = codes "system_update"

-- `job_kind_str`: `none` is NULL.
unfoldable pub job_kind_str : ℕ → Option Bytes
unfolding kind_name
job_kind_str index = elim (kind_of_index index) [ none ↦ none | some k ↦ some (kind_name k) ]

-- `state_names`
unfoldable pub state_name : JobState → Bytes
state_name queued = codes "queued"
state_name running = codes "running"
state_name waiting_confirmation = codes "waiting_confirmation"
state_name succeeded = codes "succeeded"
state_name failed = codes "failed"
state_name cancelled = codes "cancelled"
state_name interrupted = codes "interrupted"

-- `job_state_str`
unfoldable pub job_state_str : ℕ → Option Bytes
unfolding state_name
job_state_str index = elim (state_of_index index) [ none ↦ none | some s ↦ some (state_name s) ]

-- `job_progress_unit_str`
unfoldable pub job_progress_unit_str : ProgressUnit → Option Bytes
job_progress_unit_str unit_bytes = some (codes "bytes")
job_progress_unit_str unit_records = some (codes "records")
job_progress_unit_str unit_percent = some (codes "percent")
job_progress_unit_str unit_none = none
