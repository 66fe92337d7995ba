-- ===== src/JobManager/Setters.antt =====
-- What a setter's success means for the calls that follow on the same job.
use cedar_switch_3i4o_power.Common.{
  ℕ, suc, ◌+◌, ◌≡◌, ◌⊎◌, inl, inr, refl, ap, subst, Bool, true, false, ◌&&◌, Option, none, some,
  List, [], ◌∷◌, Bytes, bytes_eq, take, take_all, length-take, set, set-get_elem?, arith,
  Bool-cases, Option-cases,
}
use cedar_switch_3i4o_power.JobManager.Types.{
  JobRecord, failed, JobSnapshot, Config, Status, ok, enoent, einval, eperm, Store, ProgressUnit,
  zero_progress, error_code_max, phase_max, state_of_index,
}
use cedar_switch_3i4o_power.JobManager.Tiers.{
  is_empty, is_terminal, transition_allowed, find_record, find_record_from, snapshot_from_record,
}
use cedar_switch_3i4o_power.JobManager.Ops.{
  with_record, get_locked, job_get, set_state_body, fail_body, set_phase_body, set_progress_body,
  set_cancellable_body, cancel_body, job_set_state, job_fail, job_set_phase, job_set_progress,
  job_set_cancellable, job_cancel, expired,
}
use cedar_switch_3i4o_power.JobManager.Search.{find_record_sound}
use cedar_switch_3i4o_power.JobManager.Lifecycle.{
  Advances, fail_body-Advances, set_phase_body-Advances, set_cancellable_body-Advances,
}

find_record_from-set :
    (rs : List JobRecord) (id : Bytes) (i j : ℕ) (r r' : JobRecord)
    → find_record_from rs id i ≡ some (j, r)
    → r'.used ≡ r.used
    → r'.id ≡ r.id
    → (k : ℕ) × (j ≡ i + k)
      × (find_record_from (set rs k r') id i ≡ some (j, r'))
      × (set (set rs k r') k r' ≡ set rs k r')
unfolding find_record_from
find_record_from-set [] id i j r r' e u d = cc
find_record_from-set (x ∷ rs) id i j r r' e u d = elim (Bool-cases (x.used && bytes_eq x.id id)) [
  | inl hit ↦
      let one : x ≡ r = ground arith in
      let at : j ≡ i = ground arith in (0, omega arith, rw (u, d, ← one, hit, at) refl, refl)
  | inr miss ↦
      let (k, at, found, same) = find_record_from-set rs id (suc i) j r r' (rw miss at e) u d in
      (suc k, omega arith, rw miss found, ap (◌∷◌ x) same)
]

find_record-set :
    (rs : List JobRecord) (id : Bytes) (i : ℕ) (r r' : JobRecord)
    → find_record rs (some id) ≡ some (i, r)
    → r'.used ≡ r.used
    → r'.id ≡ r.id
    → (find_record (set rs i r') (some id) ≡ some (i, r')) × (set (set rs i r') i r' ≡ set rs i r')
unfolding find_record
find_record-set rs id i r r' e u d =
    let (k, at, found, same) = find_record_from-set rs id 0 i r r' e u d in
    let one : k ≡ i = omega arith in
    subst
      (λ (m : ℕ).
        (find_record_from (set rs m r') id 0 ≡ some (i, r'))
        × (set (set rs m r') m r' ≡ set rs m r'))
      one (found, same)

module _ (s : Store) (id : Bytes) (body : JobRecord → Status × JobRecord)
    (keeps : Advances body) where
  -- Two setters on one job: the second sees what the first wrote.
  pub with_record-cases :
      (with_record s (some id) body ≡ (enoent, s))
      ⊎ ((i : ℕ) × (r : JobRecord) × (with_record s (some id) body
            ≡ ((body r).0, record s { records = set s.records i (body r).1 }))
          × (find_record (set s.records i (body r).1) (some id) ≡ some (i, (body r).1))
          × (set (set s.records i (body r).1) i (body r).1 ≡ set s.records i (body r).1))
  unfolding with_record
  with_record-cases = elim (Option-cases (find_record s.records (some id))) [
    | inl e ↦ inl (rw (e, with_record))
    | inr ((i, r), e) ↦
        let (found, same) =
          find_record-set s.records id i r (body r).1 e (keeps r).used_kept (keeps r).id_kept in
        inr (i, r, rw (e, with_record), found, same)
  ]

-- A job that was made not cancellable cannot be cancelled: the cancel that comes next is refused
-- with -EPERM and changes nothing.
pub job_cancel-pinned :
    (now later : ℕ) (id : Bytes) (s t : Store)
    → job_set_cancellable now (some id) false s ≡ (ok, t)
    → job_cancel later (some id) t ≡ (eperm, t)
unfolding job_set_cancellable job_cancel with_record set_cancellable_body cancel_body
job_cancel-pinned now later id s t e =
    elim (with_record-cases s id (set_cancellable_body now false)
      (set_cancellable_body-Advances now false)) [
        | inl lost ↦ absurd (ground arith)
        | inr (i, r, did, found, same) ↦ ground arith
      ]

-- A terminal job is final: every setter is refused with -EINVAL and changes nothing, whatever state,
-- reason, phase, progress or flag it asks for.
pub terminal_refused :
    (id : Bytes) (s : Store) (i : ℕ) (r : JobRecord) (now index completed total : ℕ)
    (code phase : Option Bytes) (retryable known flag : Bool) (unit : ProgressUnit)
    → find_record s.records (some id) ≡ some (i, r)
    → is_terminal r.state ≡ true
    → (job_set_state now (some id) index s ≡ (einval, s))
      × (job_fail now (some id) code retryable s ≡ (einval, s))
      × (job_set_phase now (some id) phase s ≡ (einval, s))
      × (job_set_progress now (some id) completed total known unit s ≡ (einval, s))
      × (job_set_cancellable now (some id) flag s ≡ (einval, s))
      × (job_cancel now (some id) s ≡ (einval, s))
unfolding job_set_state job_fail job_set_phase job_set_progress job_set_cancellable job_cancel
    with_record set_state_body fail_body set_phase_body set_progress_body set_cancellable_body
    cancel_body transition_allowed
terminal_refused id s i r now index completed total code phase retryable known flag unit found
      term =
    let same = set-get_elem? s.records i r (find_record_sound s.records id i r found).0 in
    (
      elim (Option-cases (state_of_index index)) [ inl e ↦ rw e | inr (to, e) ↦ ground arith ],
      reason code now retryable same,
      named phase now same,
      ground arith,
      ground arith,
      ground arith,
    )
  where
    reason :
        (code : Option Bytes) (now : ℕ) (retryable : Bool)
        → set s.records i r ≡ s.records
        → job_fail now (some id) code retryable s ≡ (einval, s)
    reason none now retryable same = refl
    reason (some code) now retryable same = ground arith

    named :
        (phase : Option Bytes) (now : ℕ)
        → set s.records i r ≡ s.records
        → job_set_phase now (some id) phase s ≡ (einval, s)
    named none now same = refl
    named (some phase) now same = ground arith

-- What `job_get` shows of the job after a call that went through.
abbrev pub Shows : Config → ℕ → Bytes → Store → (JobSnapshot → Type 0) → Type 0
Shows cfg later id t P =
    (snap : JobSnapshot) × (job_get cfg later (some id) true t
      ≡ ((ok, some snap), expired cfg later t))
    × P snap

with_record-Shows :
    (cfg : Config) (later : ℕ) (id : Bytes) (s t : Store) (body : JobRecord → Status × JobRecord)
    → Advances body
    → with_record s (some id) body ≡ (ok, t)
    → (r : JobRecord) × ((body r).0 ≡ ok)
      × (job_get cfg later (some id) true t
          ≡ ((ok, some (snapshot_from_record (body r).1)), expired cfg later t))
unfolding job_get get_locked
with_record-Shows cfg later id s t body keeps e = elim (with_record-cases s id body keeps) [
  | inl lost ↦ absurd (ground arith)
  | inr (i, r, did, found, same) ↦
      let at : t ≡ record s { records = set s.records i (body r).1 } = ground arith in
      (r, ground arith, rw (at, found, get_locked))
]

take-take : (n : ℕ) (xs : Bytes) → take n (take n xs) ≡ take n xs
take-take n xs = take_all n (take n xs) (omega (arith, length-take n xs))

-- After a `job_fail` that succeeds, `job_get` shows the job failed, with the reason cut to the length
-- of its field, the flag that was given, and no way to cancel it.
pub job_fail-get :
    (cfg : Config) (now later : ℕ) (id code : Bytes) (retryable : Bool) (s t : Store)
    → job_fail now (some id) (some code) retryable s ≡ (ok, t)
    → Shows cfg later id t λ snap.
      (snap.state ≡ failed)
      × (snap.has_error ≡ true)
      × (snap.error.code ≡ take error_code_max code)
      × (snap.error.retryable ≡ retryable)
      × (snap.cancellable ≡ false)
unfolding job_fail fail_body snapshot_from_record
job_fail-get cfg now later id code retryable s t e = elim (Bool-cases (is_empty code)) [
  | inl bare ↦ absurd (ground arith)
  | inr told ↦
      let (r, went, got) =
        with_record-Shows cfg later id s t (fail_body now code retryable)
          (fail_body-Advances now code retryable) (ground arith) in
      (snapshot_from_record (fail_body now code retryable r).1, got, ground arith)
]

-- After a `job_set_phase` that succeeds, `job_get` shows the phase, cut to the length of its field,
-- and the progress back at zero.
pub job_set_phase-get :
    (cfg : Config) (now later : ℕ) (id phase : Bytes) (s t : Store)
    → job_set_phase now (some id) (some phase) s ≡ (ok, t)
    → Shows cfg later id t
        λ snap. (snap.phase ≡ take phase_max phase) × (snap.progress ≡ zero_progress)
unfolding job_set_phase set_phase_body snapshot_from_record
job_set_phase-get cfg now later id phase s t e =
    let (r, went, got) =
      with_record-Shows cfg later id s t (set_phase_body now phase)
        (set_phase_body-Advances now phase) e in
    (
      snapshot_from_record (set_phase_body now phase r).1,
      got,
      ground (arith, take-take phase_max phase),
    )

-- `job_set_state` can record a failure with no reason: where it moves a job that shows no error to
-- the failed state, `job_get` shows the job failed and still without an error.
pub job_set_state_bare :
    (cfg : Config) (now later : ℕ) (id : Bytes) (s t : Store) (shown : JobSnapshot)
    → get_locked id s ≡ (ok, some shown)
    → shown.has_error ≡ false
    → job_set_state now (some id) 4 s ≡ (ok, t)
    → Shows cfg later id t λ snap. (snap.state ≡ failed) × (snap.has_error ≡ false)
unfolding job_set_state with_record set_state_body snapshot_from_record get_locked job_get
job_set_state_bare cfg now later id s t shown seen clean e =
    elim (Option-cases (find_record s.records (some id))) [
      | inl lost ↦ absurd (ground arith)
      | inr ((i, r), found) ↦
          let (found', same) =
            find_record-set s.records id i r (set_state_body now failed r).1 found (ground arith)
              (ground arith) in
          let at : t ≡ record s { records = set s.records i (set_state_body now failed r).1 } =
            ground arith in
          (
            snapshot_from_record (set_state_body now failed r).1,
            rw (at, found', get_locked),
            ground arith,
          )
    ]
