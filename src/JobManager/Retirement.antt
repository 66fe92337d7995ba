-- ===== src/JobManager/Retirement.antt =====
-- What the compact pool keeps of a job whose full record was evicted.
use cedar_switch_3i4o_power.Common.{
  ℕ, ◌+◌, ◌*◌, ◌<◌, ◌≤◌, ◌≡◌, inl, inr, refl, true, false, none, some, List, [], ◌∷◌, Bytes,
  bytes_eq_refl, length, take_all, sum_by, AllAt, get_elem?, set, arith, Option-cases,
}
use cedar_switch_3i4o_power.JobManager.Types.{
  JobRecord, JobCompact, JobSnapshot, Config, id_max, key_max, int64_max,
}
use cedar_switch_3i4o_power.JobManager.Tiers.{
  is_empty, carries_key, is_stale, pick_slot, compact_of, retire_to_compact, lookup_compacts,
  lookup_tiers, snapshot_from_compact,
}
use cedar_switch_3i4o_power.JobManager.Search.{pick_slot-none, pick_slot_sound}
use cedar_switch_3i4o_power.JobManager.Tally.{Fits}
use cedar_switch_3i4o_power.JobManager.Identity.{has_key}

pub lookup_tiers-skip :
    (rs : List JobRecord) (cs : List JobCompact) (key : Bytes) (hash : ℕ)
    → sum_by (λ r. has_key r.used r.key key) rs ≡ 0
    → lookup_tiers rs cs key hash ≡ lookup_compacts cs key hash
unfolding lookup_tiers
lookup_tiers-skip [] cs key hash e = refl
lookup_tiers-skip (r ∷ rs) cs key hash e = ground (arith, lookup_tiers-skip rs cs key hash)

-- A pool that has a slot takes the retired job.
pub retire_to_compact-stores :
    (now : ℕ) (rec : JobRecord) (cs : List JobCompact)
    → 0 < length cs
    → AllAt (λ c. c.retired_ms < int64_max) cs
    → (i : ℕ) × (old : JobCompact) × (get_elem? cs i ≡ some old)
      × (retire_to_compact now rec cs ≡ set cs i (compact_of now rec))
unfolding retire_to_compact
retire_to_compact-stores now rec [] room young = absurd (omega arith)
retire_to_compact-stores now rec (c ∷ cs) room young =
    elim (Option-cases (pick_slot (c ∷ cs) 0 int64_max none)) [
      | inl full ↦
          let (start, all_old) = pick_slot-none (c ∷ cs) 0 int64_max none full in
          let this = all_old 0 c refl in let early = young 0 c refl in absurd (ground arith)
      | inr (i, found) ↦ elim (pick_slot_sound (c ∷ cs) 0 int64_max none i found) [
        | inl bad ↦ cc
        | inr (k, old, at, got) ↦
            let same : i ≡ k = omega arith in (k, old, got, rw (found, retire_to_compact, same))
      ]
    ]

-- The compact record tells the truth about the job.
pub record Faithful (snap : JobSnapshot) (r : JobRecord) : Type 0 where
  pub id_true : snap.id ≡ r.id
  pub kind_true : snap.kind ≡ r.kind
  pub state_true : snap.state ≡ r.state
  pub error_true : snap.error ≡ r.error
  pub has_error_true : snap.has_error ≡ r.has_error
  pub created_true : snap.created_uptime_ms ≡ r.created_ms

pub compact_of-Faithful :
    (now : ℕ) (r : JobRecord) → Fits r → Faithful (snapshot_from_compact (compact_of now r)) r
unfolding compact_of snapshot_from_compact
compact_of-Faithful now r fits = record {
  id_true = rw (take_all id_max r.id fits.0) (take_all id_max r.id fits.0);
  kind_true = refl;
  state_true = refl;
  error_true = refl;
  has_error_true = refl;
  created_true = refl;
}

pub compact_of-hash : (now : ℕ) (r : JobRecord) → (compact_of now r).request_hash ≡ r.request_hash
unfolding compact_of
compact_of-hash now r = refl

pub compact_of-carries :
    (now : ℕ) (r : JobRecord)
    → Fits r
    → is_empty r.key ≡ false
    → carries_key (compact_of now r).used (compact_of now r).key r.key ≡ true
unfolding compact_of
compact_of-carries now r fits full =
    rw (take_all key_max r.key fits.1) (ground (arith, bytes_eq_refl r.key))

pub compact_of-kept :
    (cfg : Config) (now later : ℕ) (r : JobRecord)
    → later ≤ now + cfg.retention_seconds * 1000
    → is_stale cfg later (compact_of now r) ≡ false
unfolding is_stale compact_of
compact_of-kept cfg now later r young = ground arith
