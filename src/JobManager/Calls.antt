-- ===== src/JobManager/Calls.antt =====
-- The calls of the module as data, with histories of them; and how a call acts on one slot.
use cedar_switch_3i4o_power.Common.{
  ℕ, ◌≡◌, inl, inr, refl, subst, Bool, true, false, Option, none, some, List, [], ◌∷◌, Bytes,
  get_elem?, set, arith, Bool-cases, Option-cases,
}
use cedar_switch_3i4o_power.JobManager.Types.{
  JobKind, JobRecord, ProgressUnit, CreateParams, Config, Readings, Status, Store, state_of_index,
  kind_of_index, LookupResult, not_found, conflicting, existing,
}
use cedar_switch_3i4o_power.JobManager.Tiers.{find_record, claim_record, lookup_locked}
use cedar_switch_3i4o_power.JobManager.Ops.{
  with_record, job_set_state, job_fail, job_set_phase, job_set_progress, job_set_cancellable,
  job_cancel, job_get, job_find_by_key, job_create, create_by_key, after_lookup, create_new,
  fresh_record, expired, key_refused, next_id,
}
use cedar_switch_3i4o_power.JobManager.Search.{find_record_sound, Claim, claim_record-Claim}
use cedar_switch_3i4o_power.JobManager.Lifecycle.{
  Advances, set_state_body-Advances, fail_body-Advances, set_phase_body-Advances,
  set_progress_body-Advances, set_cancellable_body-Advances, cancel_body-Advances,
}

-- A call of an entry point that may change the store, with its clock readings.
pub data Call : Type 0 where
  creates : Readings → Option CreateParams → Call
  finds : ℕ → Option Bytes → ℕ → Call
  gets : ℕ → Option Bytes → Bool → Call
  sets_state : ℕ → Option Bytes → ℕ → Call
  fails : ℕ → Option Bytes → Option Bytes → Bool → Call
  sets_phase : ℕ → Option Bytes → Option Bytes → Call
  sets_progress : ℕ → Option Bytes → ℕ → ℕ → Bool → ProgressUnit → Call
  sets_cancellable : ℕ → Option Bytes → Bool → Call
  cancels : ℕ → Option Bytes → Call

-- The store after one call, and after a history of calls.
unfoldable pub step : Config → Store → Call → Store
step cfg s (creates at params) = (job_create cfg at params s).1
step cfg s (finds now key hash) = (job_find_by_key cfg now key hash s).1
step cfg s (gets now id has_out) = (job_get cfg now id has_out s).1
step cfg s (sets_state now id index) = (job_set_state now id index s).1
step cfg s (fails now id code retryable) = (job_fail now id code retryable s).1
step cfg s (sets_phase now id phase) = (job_set_phase now id phase s).1
step cfg s (sets_progress now id completed total known unit) =
    (job_set_progress now id completed total known unit s).1
step cfg s (sets_cancellable now id cancellable) = (job_set_cancellable now id cancellable s).1
step cfg s (cancels now id) = (job_cancel now id s).1

unfoldable pub run : Config → Store → List Call → Store
unfolding step
run cfg s [] = s
run cfg s (c ∷ cs) = run cfg (step cfg s c) cs

-- The key of a new job is short enough, and nothing in the store carries it.
abbrev pub NewKey : CreateParams → Store → Type 0
NewKey params s =
    (key : Bytes)
    → params.idempotency_key ≡ some key
    → (lookup_locked s key params.request_hash ≡ not_found) × (key_refused (some key) ≡ false)

-- The shapes of a call's effect on the store.
pub data Effect (cfg : Config) (s : Store) : Store → Type 0 where
  unchanged : Effect cfg s s
  swept : (now : ℕ) → Effect cfg s (expired cfg now s)
  changed :
      (i : ℕ) (rec : JobRecord) (body : JobRecord → Status × JobRecord)
      → Advances body
      → get_elem? s.records i ≡ some rec
      → Effect cfg s (record s { records = set s.records i (body rec).1 })
  created :
      (at : Readings) (kind : JobKind) (params : CreateParams) (i : ℕ) (t : Store)
      → NewKey params (expired cfg at.expire_at s)
      → Claim at.retire_at (expired cfg at.expire_at s) i t
      → Effect cfg s (record t {
        records = set t.records i (fresh_record at.create_at kind params (next_id t.id_counter));
        id_counter = next_id t.id_counter;
      })

module _ (cfg : Config) (s : Store) where
  with_record-Effect :
      (id : Option Bytes) (body : JobRecord → Status × JobRecord)
      → Advances body
      → Effect cfg s (with_record s id body).1
  unfolding with_record
  with_record-Effect none body keeps = unchanged
  with_record-Effect (some id) body keeps = elim (Option-cases (find_record s.records (some id))) [
    | inl e ↦ rw (e, with_record) unchanged
    | inr ((i, r), e) ↦
        rw (e, with_record) (changed i r body keeps (find_record_sound s.records id i r e).0)
  ]

  create_new-Effect :
      (at : Readings) (kind : JobKind) (params : CreateParams)
      → NewKey params (expired cfg at.expire_at s)
      → (Effect cfg s (create_new at kind params (expired cfg at.expire_at s)).1)
  unfolding create_new
  create_new-Effect at kind params fresh =
      elim (Option-cases (claim_record at.retire_at (expired cfg at.expire_at s))) [
        | inl e ↦ rw (e, create_new) (swept at.expire_at)
        | inr ((i, t), e) ↦
            rw (e, create_new)
              (created at kind params i t fresh (claim_record-Claim at.retire_at _ t i e))
      ]

  after_lookup-Effect :
      (at : Readings) (kind : JobKind) (params : CreateParams) (found : LookupResult)
      → (found ≡ not_found → NewKey params (expired cfg at.expire_at s))
      → Effect cfg s (after_lookup at kind params (expired cfg at.expire_at s) found).1
  unfolding after_lookup
  after_lookup-Effect at kind params not_found fresh = create_new-Effect at kind params (fresh refl)
  after_lookup-Effect at kind params conflicting fresh = swept at.expire_at
  after_lookup-Effect at kind params (existing snapshot) fresh = swept at.expire_at

  create_by_key-Effect :
      (at : Readings) (kind : JobKind) (params : CreateParams) (key : Option Bytes)
      → params.idempotency_key ≡ key
      → key_refused key ≡ false
      → Effect cfg s (create_by_key at kind params (expired cfg at.expire_at s) key).1
  unfolding create_by_key
  create_by_key-Effect at kind params none e fine =
      create_new-Effect at kind params (λ key has. absurd (ground arith))
  create_by_key-Effect at kind params (some key) e fine = after_lookup-Effect at kind params _ new
    where
      new :
          lookup_locked (expired cfg at.expire_at s) key params.request_hash ≡ not_found
          → NewKey params (expired cfg at.expire_at s)
      new missing other has =
          let one : key ≡ other = cc in
          subst
            (λ k.
              (lookup_locked (expired cfg at.expire_at s) k params.request_hash ≡ not_found)
              × (key_refused (some k) ≡ false))
            one (missing, fine)

  job_create-Effect :
      (at : Readings) (params : Option CreateParams) → Effect cfg s (job_create cfg at params s).1
  unfolding job_create
  job_create-Effect at none = unchanged
  job_create-Effect at (some params) = elim (Option-cases (kind_of_index params.kind_index)) [
    | inl e ↦ rw (e, job_create) unchanged
    | inr (kind, e) ↦ elim (Bool-cases (key_refused params.idempotency_key)) [
      | inl refused ↦ rw (e, job_create, refused) unchanged
      | inr fine ↦
          rw (e, job_create, fine)
            (create_by_key-Effect at kind params params.idempotency_key refl fine)
    ]
  ]

  job_find_by_key-Effect :
      (now : ℕ) (key : Option Bytes) (hash : ℕ)
      → Effect cfg s (job_find_by_key cfg now key hash s).1
  unfolding job_find_by_key
  job_find_by_key-Effect now none hash = unchanged
  job_find_by_key-Effect now (some []) hash = unchanged
  job_find_by_key-Effect now (some (b ∷ bs)) hash = swept now

  job_get-Effect :
      (now : ℕ) (id : Option Bytes) (has_out : Bool) → Effect cfg s (job_get cfg now id has_out s).1
  unfolding job_get
  job_get-Effect now none has_out = unchanged
  job_get-Effect now (some id) false = unchanged
  job_get-Effect now (some id) true = swept now

  job_set_state-Effect :
      (now : ℕ) (id : Option Bytes) (index : ℕ) → Effect cfg s (job_set_state now id index s).1
  unfolding job_set_state
  job_set_state-Effect now id index = elim (Option-cases (state_of_index index)) [
    | inl e ↦ rw (e, job_set_state) unchanged
    | inr (to, e) ↦ rw (e, job_set_state) (with_record-Effect id _ (set_state_body-Advances now to))
  ]

  job_fail-Effect :
      (now : ℕ) (id code : Option Bytes) (retryable : Bool)
      → Effect cfg s (job_fail now id code retryable s).1
  unfolding job_fail
  job_fail-Effect now id none retryable = unchanged
  job_fail-Effect now id (some []) retryable = unchanged
  job_fail-Effect now id (some (b ∷ bs)) retryable =
      with_record-Effect id _ (fail_body-Advances now (b ∷ bs) retryable)

  job_set_phase-Effect :
      (now : ℕ) (id phase : Option Bytes) → Effect cfg s (job_set_phase now id phase s).1
  unfolding job_set_phase
  job_set_phase-Effect now id none = unchanged
  job_set_phase-Effect now id (some phase) =
      with_record-Effect id _ (set_phase_body-Advances now phase)

  -- Every call has one of the shapes.
  pub step-Effect : (c : Call) → Effect cfg s (step cfg s c)
  unfolding step job_set_progress job_set_cancellable job_cancel
  step-Effect (creates at params) = job_create-Effect at params
  step-Effect (finds now key hash) = job_find_by_key-Effect now key hash
  step-Effect (gets now id has_out) = job_get-Effect now id has_out
  step-Effect (sets_state now id index) = job_set_state-Effect now id index
  step-Effect (fails now id code retryable) = job_fail-Effect now id code retryable
  step-Effect (sets_phase now id phase) = job_set_phase-Effect now id phase
  step-Effect (sets_progress now id completed total known unit) =
      with_record-Effect id _ (set_progress_body-Advances now completed total known unit)
  step-Effect (sets_cancellable now id cancellable) =
      with_record-Effect id _ (set_cancellable_body-Advances now cancellable)
  step-Effect (cancels now id) = with_record-Effect id _ (cancel_body-Advances now)
