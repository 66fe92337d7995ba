-- ===== src/JobManager/History.antt =====
-- What calls, and histories of calls, do to a job that holds a full record.
use cedar_switch_3i4o_power.Common.{
  ℕ, ◌≡◌, ◌⊎◌, inl, inr, refl, ap, subst, ◌∙◌, true, some, List, [], ◌∷◌, ◌++◌, get_elem?, set,
  get_elem?-set_self, get_elem?-set_ne, arith,
}
use native.Mathlib.Decide.{ℕ_discrete}
use cedar_switch_3i4o_power.JobManager.Types.{JobRecord, queued, Config, Store, zero_record}
use cedar_switch_3i4o_power.JobManager.Tiers.{is_terminal}
use cedar_switch_3i4o_power.JobManager.Ops.{fresh_record, expired}
use cedar_switch_3i4o_power.JobManager.Search.{Claim, free, evict}
use cedar_switch_3i4o_power.JobManager.Lifecycle.{Advance, Advance-refl}
use cedar_switch_3i4o_power.JobManager.Calls.{
  Call, step, run, Effect, unchanged, swept, changed, created, step-Effect,
}

-- The job of record `r` still holds slot `i`, and moved as a setter may move it.
abbrev pub Held : ℕ → JobRecord → Store → Type 0
Held i r t = (r' : JobRecord) × (get_elem? t.records i ≡ some r') × Advance r r'

-- The job of record `r` was terminal, and a new queued job has its slot `i`.
abbrev pub Replaced : ℕ → JobRecord → Store → Type 0
Replaced i r t =
    (is_terminal r.state ≡ true)
    × ((r' : JobRecord) × (get_elem? t.records i ≡ some r')
        × (r'.used ≡ true)
        × (r'.state ≡ queued))

module _ (i : ℕ) (r : JobRecord) (used : r.used ≡ true) where
  changed-Held :
      (rs : List JobRecord) (j : ℕ) (rec rec' : JobRecord)
      → get_elem? rs i ≡ some r
      → get_elem? rs j ≡ some rec
      → Advance rec rec'
      → (r' : JobRecord) × (get_elem? (set rs j rec') i ≡ some r') × Advance r r'
  changed-Held rs j rec rec' at there keeps = elim (ℕ_discrete j i) [
    | yes same ↦
        let here : get_elem? rs i ≡ some rec = rw (← same) there in
        let one : rec ≡ r = cc in
        (rec', rw same (get_elem?-set_self rs i rec' r at), subst (λ x. Advance x rec') one keeps)
    | no other ↦ (r, get_elem?-set_ne rs j i rec' other ∙ at, Advance-refl r)
  ]

  claimed-Kept :
      (now j : ℕ) (s t : Store) (fresh : JobRecord)
      → fresh.used ≡ true
      → fresh.state ≡ queued
      → get_elem? s.records i ≡ some r
      → Claim now s j t
      → ((r' : JobRecord) × (get_elem? (set t.records j fresh) i ≡ some r') × Advance r r')
        ⊎ ((is_terminal r.state ≡ true)
            × ((r' : JobRecord) × (get_elem? (set t.records j fresh) i ≡ some r')
                × (r'.used ≡ true)
                × (r'.state ≡ queued)))
  claimed-Kept now j s t fresh u q at (free old there unused) = elim (ℕ_discrete j i) [
    | yes same ↦
        let here : get_elem? s.records i ≡ some old = rw (← same) there in
        let one : old ≡ r = cc in absurd (ground arith)
    | no other ↦ inl (r, get_elem?-set_ne s.records j i fresh other ∙ at, Advance-refl r)
  ]
  claimed-Kept now j s t fresh u q at (evict old there in_use term) = elim (ℕ_discrete j i) [
    | yes same ↦
        let here : get_elem? s.records i ≡ some old = rw (← same) there in
        let one : old ≡ r = cc in
        inr (
          subst (λ (x : JobRecord). is_terminal x.state ≡ true) one term,
          (
            fresh,
            rw same (
                get_elem?-set_self (set s.records i zero_record) i fresh zero_record
                  (get_elem?-set_self s.records i zero_record r at)),
            u,
            q,
          ),
        )
    | no other ↦ inl (
      r,
      get_elem?-set_ne (set s.records j zero_record) j i fresh other
          ∙ get_elem?-set_ne s.records j i zero_record other
          ∙ at,
      Advance-refl r,
    )
  ]

  Effect-Held :
      (cfg : Config) (s t : Store)
      → get_elem? s.records i ≡ some r
      → Effect cfg s t
      → Held i r t ⊎ Replaced i r t
  unfolding fresh_record
  Effect-Held cfg s t at unchanged = inl (r, at, Advance-refl r)
  Effect-Held cfg s t at (swept now) = inl (r, at, Advance-refl r)
  Effect-Held cfg s t at (changed j rec body keeps there) =
      inl (changed-Held s.records j rec (body rec).1 at there (keeps rec))
  Effect-Held cfg s t at (created times kind params j mid fresh claim) =
      claimed-Kept times.retire_at j (expired cfg times.expire_at s) mid _ refl refl at claim

  -- A call leaves a job in its slot, with its identity, and moves its state only by an allowed
  -- transition; a terminal job stays as it is. The slot goes to another job only if the job was
  -- terminal, and then to a new queued one.
  pub step-Held :
      (cfg : Config) (s : Store) (c : Call)
      → get_elem? s.records i ≡ some r
      → Held i r (step cfg s c) ⊎ Replaced i r (step cfg s c)
  step-Held cfg s c at = Effect-Held cfg s (step cfg s c) at (step-Effect cfg s c)

-- The record is the same job's: what never changes in it agrees.
pub record SameJob (r r' : JobRecord) : Type 0 where
  pub same_used : r'.used ≡ r.used
  pub same_id : r'.id ≡ r.id
  pub same_kind : r'.kind ≡ r.kind
  pub same_key : r'.key ≡ r.key
  pub same_hash : r'.request_hash ≡ r.request_hash
  pub same_created : r'.created_ms ≡ r.created_ms

Advance-SameJob : {r r' : JobRecord} → Advance r r' → SameJob r r'
Advance-SameJob a = ground arith

SameJob-trans : {r r' r'' : JobRecord} → SameJob r r' → SameJob r' r'' → SameJob r r''
SameJob-trans a b = ground arith

-- The job of record `r` holds slot `i` after the history.
abbrev pub Present : ℕ → JobRecord → Store → Type 0
Present i r t = (r' : JobRecord) × (get_elem? t.records i ≡ some r') × SameJob r r'

-- At some point of the history the job of record `r` held slot `i` in a terminal state.
abbrev pub Ended : Config → Store → List Call → ℕ → JobRecord → Type 0
Ended cfg s cs i r =
    (before : List Call) × (after : List Call) × (cs ≡ before ++ after)
    × ((r' : JobRecord) × (get_elem? (run cfg s before).records i ≡ some r')
        × SameJob r r'
        × (is_terminal r'.state ≡ true))

module _ (cfg : Config) (i : ℕ) where
  -- No history of calls drops a job before it is terminal: the job still holds its slot, with its
  -- id, kind, key, hash and creation time, or it was terminal there at some point of the history.
  pub run_keeps_active :
      (cs : List Call) (s : Store) (r : JobRecord)
      → r.used ≡ true
      → get_elem? s.records i ≡ some r
      → Present i r (run cfg s cs) ⊎ Ended cfg s cs i r
  unfolding run
  run_keeps_active [] s r used at = inl (r, at, ground arith)
  run_keeps_active (c ∷ cs) s r used at = elim (step-Held i r used cfg s c at) [
    | inr (term, rest) ↦ inr ([], c ∷ cs, refl, (r, at, ground arith, term))
    | inl (r', at', moved) ↦
        let still : r'.used ≡ true = ground arith in
        elim (run_keeps_active cs (step cfg s c) r' still at') [
          | inl (r'', at'', same) ↦ inl (r'', at'', SameJob-trans (Advance-SameJob moved) same)
          | inr (before, after, split, (r'', at'', same, term)) ↦ inr (
            c ∷ before,
            after,
            ap (◌∷◌ c) split,
            (r'', at'', SameJob-trans (Advance-SameJob moved) same, term),
          )
        ]
  ]
