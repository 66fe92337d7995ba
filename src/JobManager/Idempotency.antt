-- ===== src/JobManager/Idempotency.antt =====
-- A repeated request does not repeat the action.
use cedar_switch_3i4o_power.Common.{
  ℕ, zero, suc, ◌≡◌, inl, inr, refl, true, false, some, List, [], ◌∷◌, Bytes, bytes_eq_refl,
  take_all, sum_by, AllAt, get_elem?, set, ◌==◌, if◌then◌else◌, arith, Bool-cases, Option-cases,
}
use cedar_switch_3i4o_power.JobManager.Types.{
  JobRecord, JobCompact, JobSnapshot, Config, Store, Readings, CreateParams, JobKind, LookupResult,
  not_found, existing, conflicting, new_job, existing_job, key_conflict, kind_of_index, key_max,
}
use cedar_switch_3i4o_power.JobManager.Tiers.{
  carries_key, lookup_tiers, lookup_locked, snapshot_from_record, claim_record,
}
use cedar_switch_3i4o_power.JobManager.Ops.{
  job_create, create_by_key, after_lookup, create_new, fresh_record, next_id, expired, key_refused,
}
use cedar_switch_3i4o_power.JobManager.Search.{Claim, claim_record-Claim}
use cedar_switch_3i4o_power.JobManager.Tally.{Fits, total, Claim-total}
use cedar_switch_3i4o_power.JobManager.Identity.{
  has_key, key_tally, keys_named, keys_named_of_not_found,
}

-- How `job_create` can have answered with a new job.
record Created (cfg : Config) (at : Readings) (p : CreateParams) (key : Bytes) (s : Store)
    (snap : JobSnapshot) (t : Store) : Type 0 where
  kind : JobKind
  slot : ℕ
  mid : Store
  kind_known : kind_of_index p.kind_index ≡ some kind
  key_fine : key_refused (some key) ≡ false
  key_new : lookup_locked (expired cfg at.expire_at s) key p.request_hash ≡ not_found
  claim : Claim at.retire_at (expired cfg at.expire_at s) slot mid
  snap_is : snap ≡ snapshot_from_record (fresh_record at.create_at kind p (next_id mid.id_counter))
  store_is : t ≡ record mid {
    records = set mid.records slot (fresh_record at.create_at kind p (next_id mid.id_counter));
    id_counter = next_id mid.id_counter;
  }

module _ (cfg : Config) (at : Readings) (p : CreateParams) (key : Bytes) (s : Store)
    (snap : JobSnapshot) (t : Store) where
  create_new-Created :
      (kind : JobKind)
      → kind_of_index p.kind_index ≡ some kind
      → key_refused (some key) ≡ false
      → lookup_locked (expired cfg at.expire_at s) key p.request_hash ≡ not_found
      → create_new at kind p (expired cfg at.expire_at s) ≡ (new_job snap, t)
      → Created cfg at p key s snap t
  unfolding create_new
  create_new-Created kind known fine missing e =
      elim (Option-cases (claim_record at.retire_at (expired cfg at.expire_at s))) [
        | inl full ↦ absurd (ground arith)
        | inr ((i, mid), found) ↦ record {
          kind = kind;
          slot = i;
          mid = mid;
          kind_known = known;
          key_fine = fine;
          key_new = missing;
          claim = claim_record-Claim at.retire_at _ mid i found;
          snap_is = ground arith;
          store_is = ground arith;
        }
      ]

  after_lookup-Created :
      (kind : JobKind) (found : LookupResult)
      → kind_of_index p.kind_index ≡ some kind
      → key_refused (some key) ≡ false
      → lookup_locked (expired cfg at.expire_at s) key p.request_hash ≡ found
      → after_lookup at kind p (expired cfg at.expire_at s) found ≡ (new_job snap, t)
      → Created cfg at p key s snap t
  unfolding after_lookup
  after_lookup-Created kind not_found known fine h e = create_new-Created kind known fine h e
  after_lookup-Created kind conflicting known fine h e = absurd (ground arith)
  after_lookup-Created kind (existing x) known fine h e = absurd (ground arith)

  job_create-Created :
      p.idempotency_key ≡ some key
      → job_create cfg at (some p) s ≡ (new_job snap, t)
      → Created cfg at p key s snap t
  unfolding job_create create_by_key
  job_create-Created has e = elim (Option-cases (kind_of_index p.kind_index)) [
    | inl none_such ↦ absurd (ground arith)
    | inr (kind, known) ↦ elim (Bool-cases (key_refused (some key))) [
      | inl refused ↦ absurd (ground arith)
      | inr fine ↦ after_lookup-Created kind _ known fine refl (ground arith)
    ]
  ]

-- The record with a key is found where no other full record carries it.
lookup_tiers-set :
    (rs : List JobRecord) (cs : List JobCompact) (i : ℕ) (old rec : JobRecord) (key : Bytes)
    (hash stored : ℕ)
    → rec.request_hash ≡ stored
    → get_elem? rs i ≡ some old
    → sum_by (λ r. has_key r.used r.key key) rs ≡ 0
    → carries_key rec.used rec.key key ≡ true
    → lookup_tiers (set rs i rec) cs key hash
      ≡ (if stored == hash then existing (snapshot_from_record rec) else conflicting)
unfolding lookup_tiers
lookup_tiers-set [] cs i old rec key hash stored is at zero_sum here = cc
lookup_tiers-set (x ∷ rs) cs zero old rec key hash stored is at zero_sum here = ground arith
lookup_tiers-set (x ∷ rs) cs (suc i) old rec key hash stored is at zero_sum here =
    ground (arith, lookup_tiers-set rs cs i old rec key hash stored)

module _ (p : CreateParams) (key : Bytes) (has : p.idempotency_key ≡ some key)
    (fine : key_refused (some key) ≡ false) where
  fresh_record-key : (now : ℕ) (kind : JobKind) (n : ℕ) → (fresh_record now kind p n).key ≡ key
  unfolding fresh_record
  fresh_record-key now kind n = rw (has, fresh_record) (take_all key_max key (ground arith))

  fresh_record-carries :
      (now : ℕ) (kind : JobKind) (n : ℕ)
      → carries_key (fresh_record now kind p n).used (fresh_record now kind p n).key key ≡ true
  fresh_record-carries now kind n =
      rw (fresh_record-key now kind n) (unfold fresh_record in ground (arith, bytes_eq_refl key))

fresh_record-hash :
    (now : ℕ) (kind : JobKind) (p : CreateParams) (n : ℕ)
    → (fresh_record now kind p n).request_hash ≡ p.request_hash
unfolding fresh_record
fresh_record-hash now kind p n = refl

-- The lookup after a creation: the new job answers its key, if the hash is the same.
Created-lookup :
    (cfg : Config) (at : Readings) (p : CreateParams) (key : Bytes) (s : Store) (snap : JobSnapshot)
    (t : Store) (now hash : ℕ)
    → AllAt Fits s.records
    → p.idempotency_key ≡ some key
    → Created cfg at p key s snap t
    → lookup_locked (expired cfg now t) key hash
      ≡ (if p.request_hash == hash then existing snap else conflicting)
unfolding lookup_locked
Created-lookup cfg at p key s snap t now hash fits has c =
    let (le, (old, got, empty_here), same) =
      Claim-total (key_tally key) at.retire_at (expired cfg at.expire_at s) c.mid c.slot fits
        c.claim in
    let none_mid : keys_named key c.mid ≡ 0 =
      omega (
        arith,
        keys_named_of_not_found (expired cfg at.expire_at s) key p.request_hash c.key_new,
      ) in
    let counter = next_id c.mid.id_counter in
    let rec = fresh_record at.create_at c.kind p counter in
    rw (c.store_is, c.snap_is)
      (lookup_tiers-set c.mid.records _ c.slot old rec key hash p.request_hash
        (fresh_record-hash at.create_at c.kind p counter) got (keys_in_records c.mid none_mid)
        (fresh_record-carries p key has c.key_fine at.create_at c.kind counter))
  where
    keys_in_records :
        (m : Store)
        → keys_named key m ≡ 0
        → sum_by (λ (r : JobRecord). has_key r.used r.key key) m.records ≡ 0
    keys_in_records m e = unfold total key_tally in omega arith

-- After a request with a key has made a job, any request with that key and a known kind makes none:
-- with the same hash it gets the first request's job, with another hash a conflict, and the store
-- is only rid of expired compact records.
pub job_create_retry :
    (cfg : Config) (at again : Readings) (p q : CreateParams) (key : Bytes) (kind : JobKind)
    (s t : Store) (snap : JobSnapshot)
    → AllAt Fits s.records
    → p.idempotency_key ≡ some key
    → job_create cfg at (some p) s ≡ (new_job snap, t)
    → q.idempotency_key ≡ some key
    → kind_of_index q.kind_index ≡ some kind
    → job_create cfg again (some q) t ≡ (
      (if p.request_hash == q.request_hash then existing_job snap else key_conflict),
      expired cfg again.expire_at t,
    )
unfolding job_create create_by_key after_lookup
job_create_retry cfg at again p q key kind s t snap fits has made q_has known =
    let c = job_create-Created cfg at p key s snap t has made in
    let fine = c.key_fine in
    let found = Created-lookup cfg at p key s snap t again.expire_at q.request_hash fits has c in
    ground arith
