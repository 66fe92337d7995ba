-- ===== src/JobManager/Tiers.antt =====
-- The two pools of job_manager.c: searching them, expiring compact records, and freeing a full
-- record by retiring the oldest terminal job.
use cedar_switch_3i4o_power.Common.{
  ℕ, suc, ◌+◌, ◌*◌, Bool, true, false, not, ◌&&◌, Option, none, some, List, [], ◌∷◌, Bytes,
  bytes_eq, take, set, ltb, ◌==◌, if◌then◌else◌,
}
use cedar_switch_3i4o_power.JobManager.Types.{
  JobState, queued, running, waiting_confirmation, succeeded, failed, cancelled, interrupted,
  JobRecord, JobCompact, JobSnapshot, LookupResult, not_found, conflicting, existing, Config, Store,
  id_max, key_max, phase_max, int64_max, zero_progress, zero_record, zero_compact,
}

-- `job_state_is_terminal`
unfoldable pub is_terminal : JobState → Bool
is_terminal succeeded = true
is_terminal failed = true
is_terminal cancelled = true
is_terminal interrupted = true
is_terminal _ = false

-- `to == JOB_STATE_RUNNING` and `to == JOB_STATE_WAITING_CONFIRMATION`
abbrev is_running : JobState → Bool
is_running running = true
is_running _ = false

abbrev is_waiting : JobState → Bool
is_waiting waiting_confirmation = true
is_waiting _ = false

-- The `switch` of `transition_allowed`.
abbrev active_transition : JobState → JobState → Bool
active_transition queued to = is_running to
active_transition running to = is_waiting to
active_transition waiting_confirmation to = is_running to
active_transition _ to = false

unfoldable pub transition_allowed : JobState → JobState → Bool
unfolding is_terminal
transition_allowed from to =
    if is_terminal from then false else if is_terminal to then true else active_transition from to

-- The loop of `find_record`, from index `i` on.
unfoldable pub find_record_from : List JobRecord → Bytes → ℕ → Option (ℕ × JobRecord)
find_record_from [] wanted i = none
find_record_from (r ∷ rs) wanted i =
    if r.used && bytes_eq r.id wanted then some (i, r) else find_record_from rs wanted (suc i)

-- `find_record`: the record with its index in the pool. A NULL id finds nothing.
unfoldable pub find_record : List JobRecord → Option Bytes → Option (ℕ × JobRecord)
unfolding find_record_from
find_record records none = none
find_record records (some wanted) = find_record_from records wanted 0

-- `find_compact_by_id`
unfoldable pub find_compact_by_id : List JobCompact → Bytes → Option JobCompact
find_compact_by_id [] wanted = none
find_compact_by_id (c ∷ cs) wanted =
    if c.used && bytes_eq c.id wanted then some c else find_compact_by_id cs wanted

-- `expire_compacts`: `retired_ms < now - retention * 1000`, with the subtraction taken across,
-- since the cutoff may be negative.
unfoldable pub is_stale : Config → ℕ → JobCompact → Bool
is_stale cfg now c = c.used && ltb (c.retired_ms + cfg.retention_seconds * 1000) now

unfoldable pub expire_compacts : Config → ℕ → List JobCompact → List JobCompact
unfolding is_stale
expire_compacts cfg now [] = []
expire_compacts cfg now (c ∷ cs) =
    (if is_stale cfg now c then zero_compact else c) ∷ expire_compacts cfg now cs

-- The loop of `retire_to_compact` that picks a slot: the first free one, else the oldest.
unfoldable pub pick_slot : List JobCompact → ℕ → ℕ → Option ℕ → Option ℕ
pick_slot [] i oldest slot = slot
pick_slot (c ∷ cs) i oldest slot =
    let older = ltb c.retired_ms oldest in
    let rest =
      pick_slot cs (suc i) (if older then c.retired_ms else oldest)
        (if older then some i else slot) in
    if c.used then rest else some i

-- What `retire_to_compact` writes to the slot.
unfoldable pub compact_of : ℕ → JobRecord → JobCompact
compact_of now rec = record {
  used = true;
  id = take id_max rec.id;
  key = take key_max rec.key;
  request_hash = rec.request_hash;
  kind = rec.kind;
  state = rec.state;
  error = rec.error;
  has_error = rec.has_error;
  created_ms = rec.created_ms;
  retired_ms = now;
}

unfoldable pub retire_to_compact : ℕ → JobRecord → List JobCompact → List JobCompact
unfolding pick_slot compact_of
retire_to_compact now rec cs = elim (pick_slot cs 0 int64_max none) [
  | none ↦ cs
  | some i ↦ set cs i (compact_of now rec)
]

-- The first loop of `claim_record`: the first record that is not in use.
unfoldable pub find_unused : List JobRecord → ℕ → Option ℕ
find_unused [] i = none
find_unused (r ∷ rs) i = if r.used then find_unused rs (suc i) else some i

-- The second loop: the terminal record that was updated first.
unfoldable pub find_victim :
    List JobRecord → ℕ → ℕ → Option (ℕ × JobRecord) → Option (ℕ × JobRecord)
unfolding is_terminal
find_victim [] i oldest victim = victim
find_victim (r ∷ rs) i oldest victim =
    let better = is_terminal r.state && ltb r.updated_ms oldest in
    find_victim rs (suc i) (if better then r.updated_ms else oldest)
      (if better then some (i, r) else victim)

-- `claim_record`: the index of the record that is free now, with the pools after it.
unfoldable pub claim_record : ℕ → Store → Option (ℕ × Store)
unfolding find_unused find_victim retire_to_compact
claim_record now s = elim (find_unused s.records 0) [
  | some i ↦ some (i, s)
  | none ↦ elim (find_victim s.records 0 int64_max none) [
    | none ↦ none
    | some (i, victim) ↦ some (
      i,
      record s {
        compacts = retire_to_compact now victim s.compacts;
        records = set s.records i zero_record;
      },
    )
  ]
]

-- `snapshot_from_record`
unfoldable pub snapshot_from_record : JobRecord → JobSnapshot
snapshot_from_record r = record {
  id = take id_max r.id;
  kind = r.kind;
  state = r.state;
  phase = take phase_max r.phase;
  progress = r.progress;
  cancellable = r.cancellable;
  created_uptime_ms = r.created_ms;
  updated_uptime_ms = r.updated_ms;
  error = r.error;
  has_error = r.has_error;
  compact = false;
}

-- `snapshot_from_compact`
unfoldable pub snapshot_from_compact : JobCompact → JobSnapshot
snapshot_from_compact c = record {
  id = take id_max c.id;
  kind = c.kind;
  state = c.state;
  phase = [];
  progress = zero_progress;
  cancellable = false;
  created_uptime_ms = c.created_ms;
  updated_uptime_ms = c.retired_ms;
  error = c.error;
  has_error = c.has_error;
  compact = true;
}

-- `key[0] == '\0'`
abbrev pub is_empty : Bytes → Bool
is_empty [] = true
is_empty (_ ∷ _) = false

-- Whether an entry with this key answers `wanted`: the negation of the `continue` test.
abbrev pub carries_key : Bool → Bytes → Bytes → Bool
carries_key used key wanted = used && not (is_empty key) && bytes_eq key wanted

-- The second loop of `lookup_locked`.
unfoldable pub lookup_compacts : List JobCompact → Bytes → ℕ → LookupResult
unfolding snapshot_from_compact
lookup_compacts [] wanted hash = not_found
lookup_compacts (c ∷ cs) wanted hash =
    if carries_key c.used c.key wanted
    then if c.request_hash == hash then existing (snapshot_from_compact c) else conflicting
    else lookup_compacts cs wanted hash

-- The first loop, which goes on to the second.
unfoldable pub lookup_tiers : List JobRecord → List JobCompact → Bytes → ℕ → LookupResult
unfolding snapshot_from_record lookup_compacts
lookup_tiers [] cs wanted hash = lookup_compacts cs wanted hash
lookup_tiers (r ∷ rs) cs wanted hash =
    if carries_key r.used r.key wanted
    then if r.request_hash == hash then existing (snapshot_from_record r) else conflicting
    else lookup_tiers rs cs wanted hash

-- `lookup_locked`
unfoldable pub lookup_locked : Store → Bytes → ℕ → LookupResult
unfolding lookup_tiers
lookup_locked s = lookup_tiers s.records s.compacts
