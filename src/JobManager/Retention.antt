-- ===== src/JobManager/Retention.antt =====
-- What calls do to a record of the compact pool: it stays where it is until its retention time is
-- over, unless a creation finds the pool full.
use cedar_switch_3i4o_power.Common.{
  ℕ, ◌+◌, ◌*◌, ◌≤◌, ◌≡◌, ◌⊎◌, inl, inr, refl, ap, ◌∙◌, Bool, true, false, Option, none, some, List,
  [], ◌++◌, ◌∷◌, Bytes, All, get_elem?, arith, Option-cases,
}
use cedar_switch_3i4o_power.JobManager.Types.{
  JobRecord, JobCompact, Config, Store, Status, Readings, CreateParams, state_of_index,
}
use cedar_switch_3i4o_power.JobManager.Tiers.{is_stale, find_record}
use cedar_switch_3i4o_power.JobManager.Ops.{
  expired, with_record, job_find_by_key, job_get, job_set_state, job_fail, job_set_phase,
  job_set_progress, job_set_cancellable, job_cancel,
}
use cedar_switch_3i4o_power.JobManager.Calls.{
  Call, creates, finds, gets, sets_state, fails, sets_phase, sets_progress, sets_cancellable,
  cancels, step, run,
}
use cedar_switch_3i4o_power.JobManager.Slots.{Full, expire_compacts-at, job_create-keeps}

with_record-compacts :
    (s : Store) (id : Option Bytes) (body : JobRecord → Status × JobRecord)
    → (with_record s id body).1.compacts ≡ s.compacts
unfolding with_record
with_record-compacts s id body = elim (Option-cases (find_record s.records id)) [
  | inl e ↦ rw (e, with_record) refl
  | inr ((i, r), e) ↦ rw (e, with_record) refl
]

job_find_by_key-keeps :
    (cfg : Config) (now : ℕ) (key : Option Bytes) (hash : ℕ) (s : Store) (j : ℕ) (c : JobCompact)
    → is_stale cfg now c ≡ false
    → get_elem? s.compacts j ≡ some c
    → get_elem? (job_find_by_key cfg now key hash s).1.compacts j ≡ some c
unfolding job_find_by_key
job_find_by_key-keeps cfg now none hash s j c young here = here
job_find_by_key-keeps cfg now (some []) hash s j c young here = here
job_find_by_key-keeps cfg now (some (_ ∷ _)) hash s j c young here =
    expire_compacts-at cfg now s.compacts j c here young

job_get-keeps :
    (cfg : Config) (now : ℕ) (id : Option Bytes) (has_out : Bool) (s : Store) (j : ℕ)
    (c : JobCompact)
    → is_stale cfg now c ≡ false
    → get_elem? s.compacts j ≡ some c
    → get_elem? (job_get cfg now id has_out s).1.compacts j ≡ some c
unfolding job_get
job_get-keeps cfg now none has_out s j c young here = here
job_get-keeps cfg now (some id) false s j c young here = here
job_get-keeps cfg now (some id) true s j c young here =
    expire_compacts-at cfg now s.compacts j c here young

job_set_state-compacts :
    (now : ℕ) (id : Option Bytes) (index : ℕ) (s : Store)
    → (job_set_state now id index s).1.compacts ≡ s.compacts
unfolding job_set_state
job_set_state-compacts now id index s = elim (Option-cases (state_of_index index)) [
  | inl e ↦ rw (e, job_set_state) refl
  | inr (to, e) ↦ rw (e, job_set_state) (with_record-compacts s id _)
]

job_fail-compacts :
    (now : ℕ) (id code : Option Bytes) (retryable : Bool) (s : Store)
    → (job_fail now id code retryable s).1.compacts ≡ s.compacts
unfolding job_fail
job_fail-compacts now id none retryable s = refl
job_fail-compacts now id (some []) retryable s = refl
job_fail-compacts now id (some (_ ∷ _)) retryable s = with_record-compacts s id _

job_set_phase-compacts :
    (now : ℕ) (id phase : Option Bytes) (s : Store)
    → (job_set_phase now id phase s).1.compacts ≡ s.compacts
unfolding job_set_phase
job_set_phase-compacts now id none s = refl
job_set_phase-compacts now id (some phase) s = with_record-compacts s id _

-- The time at which a call sweeps the compact pool, for the calls that do.
abbrev pub sweep_time : Call → ℕ
sweep_time (creates at params) = at.expire_at
sweep_time (finds now key hash) = now
sweep_time (gets now id has_out) = now
sweep_time (sets_state now id index) = 0
sweep_time (fails now id code retryable) = 0
sweep_time (sets_phase now id phase) = 0
sweep_time (sets_progress now id completed total known unit) = 0
sweep_time (sets_cancellable now id cancellable) = 0
sweep_time (cancels now id) = 0

-- The call is a creation that finds every slot of the compact pool in use, after its sweep.
abbrev pub FindsFull : Config → Store → Call → Type 0
FindsFull cfg s c =
    (at : Readings) × (params : Option CreateParams) × (c ≡ creates at params)
    × Full (expired cfg at.expire_at s).compacts

-- At some point of the row of calls a creation finds the compact pool full.
abbrev pub Crowded : Config → Store → List Call → Type 0
Crowded cfg s cs =
    (before : List Call) × (call : Call) × (after : List Call) × (cs ≡ before ++ (call ∷ after))
    × FindsFull cfg (run cfg s before) call

module _ (cfg : Config) (j : ℕ) (c : JobCompact) (used : c.used ≡ true) where
  setter-keeps :
      (s : Store) (cs : List JobCompact) (call : Call)
      → cs ≡ s.compacts
      → get_elem? s.compacts j ≡ some c
      → (get_elem? cs j ≡ some c) ⊎ FindsFull cfg s call
  setter-keeps s cs call same here = inl (ap (λ (ds : List JobCompact). get_elem? ds j) same ∙ here)

  step-keeps :
      (s : Store) (call : Call)
      → is_stale cfg (sweep_time call) c ≡ false
      → get_elem? s.compacts j ≡ some c
      → (get_elem? (step cfg s call).compacts j ≡ some c) ⊎ FindsFull cfg s call
  unfolding step
  step-keeps s (creates at params) young here =
      elim (job_create-keeps j c used cfg at params s young here) [
        | inl kept ↦ inl kept
        | inr full ↦ inr (at, params, refl, full)
      ]
  step-keeps s (finds now key hash) young here =
      inl (job_find_by_key-keeps cfg now key hash s j c young here)
  step-keeps s (gets now id has_out) young here =
      inl (job_get-keeps cfg now id has_out s j c young here)
  step-keeps s (sets_state now id index) young here =
      setter-keeps s _ _ (job_set_state-compacts now id index s) here
  step-keeps s (fails now id code retryable) young here =
      setter-keeps s _ _ (job_fail-compacts now id code retryable s) here
  step-keeps s (sets_phase now id phase) young here =
      setter-keeps s _ _ (job_set_phase-compacts now id phase s) here
  step-keeps s (sets_progress now id completed total known unit) young here =
      setter-keeps s _ _ (unfold job_set_progress in with_record-compacts s id _) here
  step-keeps s (sets_cancellable now id cancellable) young here =
      setter-keeps s _ _ (unfold job_set_cancellable in with_record-compacts s id _) here
  step-keeps s (cancels now id) young here =
      setter-keeps s _ _ (unfold job_cancel in with_record-compacts s id _) here

  pub run-keeps :
      (cs : List Call) (s : Store)
      → All (λ (call : Call). sweep_time call ≤ c.retired_ms + cfg.retention_seconds * 1000) cs
      → get_elem? s.compacts j ≡ some c
      → (get_elem? (run cfg s cs).compacts j ≡ some c) ⊎ Crowded cfg s cs
  unfolding run
  run-keeps [] s in_time here = inl here
  run-keeps (call ∷ cs) s in_time here =
      let early = in_time.0 in
      let young : is_stale cfg (sweep_time call) c ≡ false = unfold is_stale in ground arith in
      elim (step-keeps s call young here) [
        | inr full ↦ inr ([], call, cs, refl, full)
        | inl kept ↦ elim (run-keeps cs (step cfg s call) in_time.1 kept) [
          | inl still ↦ inl still
          | inr (before, other, after, split, full) ↦
              inr (call ∷ before, other, after, ap (◌∷◌ call) split, full)
        ]
      ]
