-- ===== src/JobManager/Lifecycle.antt =====
-- The lifecycle of a job: which transitions pass, what a setter may change of a record, and what
-- any call does to a record in its slot.
use cedar_switch_3i4o_power.Common.{
  ℕ, ◌≡◌, ◌↔◌, ◌⊎◌, inl, refl, Bool, true, List, [], ◌∷◌, Bytes, arith,
}
use cedar_switch_3i4o_power.JobManager.Types.{
  JobState, queued, running, waiting_confirmation, succeeded, failed, cancelled, interrupted,
  JobRecord, ProgressUnit, Status,
}
use cedar_switch_3i4o_power.JobManager.Tiers.{is_terminal, transition_allowed}
use cedar_switch_3i4o_power.JobManager.Ops.{
  set_state_body, fail_body, set_phase_body, set_progress_body, set_cancellable_body, cancel_body,
}

-- The transitions that job_manager.h lists, by the state they leave.
abbrev pub documented : JobState → List JobState
documented queued = running ∷ cancelled ∷ failed ∷ interrupted ∷ []
documented running = waiting_confirmation ∷ succeeded ∷ failed ∷ cancelled ∷ interrupted ∷ []
documented waiting_confirmation = running ∷ succeeded ∷ failed ∷ cancelled ∷ interrupted ∷ []
documented _ = []

abbrev pub OneOf : JobState → List JobState → Type 0
OneOf s [] = ⊥
OneOf s (x ∷ xs) = (s ≡ x) ⊎ OneOf s xs

-- A transition passes exactly when job_manager.h lists it, or when it takes a job from queued
-- straight to succeeded, which the header does not list.
pub transition_allowed-documented :
    (from to : JobState)
    → (transition_allowed from to ≡ true)
      ↔ (OneOf to (documented from) ⊎ ((from ≡ queued) × (to ≡ succeeded)))
unfolding transition_allowed
transition_allowed-documented queued to = ground arith
transition_allowed-documented running to = ground arith
transition_allowed-documented waiting_confirmation to = ground arith
transition_allowed-documented from to = ground arith

-- What a setter keeps of a record, and how it may move its state.
pub record Advance (r r' : JobRecord) : Type 0 where
  pub used_kept : r'.used ≡ r.used
  pub id_kept : r'.id ≡ r.id
  pub kind_kept : r'.kind ≡ r.kind
  pub key_kept : r'.key ≡ r.key
  pub hash_kept : r'.request_hash ≡ r.request_hash
  pub created_kept : r'.created_ms ≡ r.created_ms
  pub moves : (r'.state ≡ r.state) ⊎ (transition_allowed r.state r'.state ≡ true)
  pub terminal_kept : is_terminal r.state ≡ true → r' ≡ r

pub Advance-refl : (r : JobRecord) → Advance r r
Advance-refl r = record {
  used_kept = refl;
  id_kept = refl;
  kind_kept = refl;
  key_kept = refl;
  hash_kept = refl;
  created_kept = refl;
  moves = inl refl;
  terminal_kept = λ h. refl;
}

-- A body that a setter runs.
abbrev pub Advances : (JobRecord → Status × JobRecord) → Type 0
Advances body = (r : JobRecord) → Advance r (body r).1

pub set_state_body-Advances : (now : ℕ) (to : JobState) → Advances (set_state_body now to)
unfolding set_state_body
set_state_body-Advances now to r = ground arith

pub fail_body-Advances :
    (now : ℕ) (code : Bytes) (retryable : Bool) → Advances (fail_body now code retryable)
unfolding fail_body
fail_body-Advances now code retryable r = ground arith

pub set_phase_body-Advances : (now : ℕ) (phase : Bytes) → Advances (set_phase_body now phase)
unfolding set_phase_body
set_phase_body-Advances now phase r = ground arith

pub set_progress_body-Advances :
    (now completed total : ℕ) (known : Bool) (unit : ProgressUnit)
    → Advances (set_progress_body now completed total known unit)
unfolding set_progress_body
set_progress_body-Advances now completed total known unit r = ground arith

pub set_cancellable_body-Advances :
    (now : ℕ) (cancellable : Bool) → Advances (set_cancellable_body now cancellable)
unfolding set_cancellable_body
set_cancellable_body-Advances now cancellable r = ground arith

pub cancel_body-Advances : (now : ℕ) → Advances (cancel_body now)
unfolding cancel_body transition_allowed
cancel_body-Advances now r = ground arith
