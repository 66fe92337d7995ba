-- ===== src/LogStore/Append/Runs.antt =====
-- The rings of the store after `log_store_init` and any row of calls of `log_store_append`.
use cedar_switch_3i4o_power.Common.{
  ℕ, zero, suc, ◌+◌, ◌*◌, ◌^◌, ◌<◌, ◌≤◌, ◌≡◌, refl, subst, Bool, true, false, ◌||◌, none, some,
  List, [], ◌∷◌, ◌++◌, Bytes, length, append_nil, ◌==◌, if◌then◌else◌, arith, Bool-cases, inl, inr,
}
use mathlib.Core.List.{append_assoc}
use cedar_switch_3i4o_power.LogStore.ByteOrder.{ByteOrder}
use cedar_switch_3i4o_power.LogStore.Ring.{Ring}
use cedar_switch_3i4o_power.LogStore.State.{
  LogState, LogTiming, ring_at, with_ring, add64, log_store_init, empty_ring,
}
use cedar_switch_3i4o_power.LogStore.Append.{
  LogEntry, record_max, append_ring, entry_refused, after_append, log_store_append,
}
use cedar_switch_3i4o_power.LogStore.Append.Log.{joined, make_room}
use cedar_switch_3i4o_power.LogStore.Append.Refine.{frame_of}
use cedar_switch_3i4o_power.LogStore.Append.History.{AppendCall, call, Latest, append_ring-Latest}

module _ (order : ByteOrder) where
  -- The calls, one after the other.
  unfoldable pub run : List AppendCall → LogState → LogState
  unfolding log_store_append
  run [] t = t
  run (call e late wait hold ∷ calls) t = run calls (log_store_append order e late wait hold t).1

  -- The records that the calls make for a source, when `seq` is the next sequence number: one for
  -- each call that is not refused.
  unfoldable pub sent : ℕ → ℕ → List AppendCall → List Bytes
  unfolding entry_refused frame_of
  sent source seq [] = []
  sent source seq (call none late wait hold ∷ calls) = sent source seq calls
  sent source seq (call (some e) late wait hold ∷ calls) =
      let skipped = sent source seq calls in
      let later = sent source (add64 seq 1) calls in
      if entry_refused order e || late
      then skipped
      else if e.source == source
      then frame_of order e seq ∷ later
      else later

  -- A store in use, with the records that each ring got.
  pub record Running (t : LogState) (size0 size1 : ℕ) (all0 all1 : List Bytes) (bound : ℕ)
      : Type 0 where
    pub ready : t.initialized ≡ true
    pub calm : t.panicked ≡ false
    pub stm32_latest : Latest order t.stm32_ring size0 all0 bound
    pub esp32_latest : Latest order t.esp32_ring size1 all1 bound

  Latest-le :
      (r : Ring) (size : ℕ) (all : List Bytes) (bound more : ℕ)
      → bound ≤ more
      → Latest order r size all bound
      → Latest order r size all more
  Latest-le r size all bound more le h = record {
    same_size = h.same_size;
    is_log = h.is_log;
    counted_all = h.counted_all;
    few = omega (arith, h.few);
    head_bound = omega (arith, h.head_bound);
  }

  -- What a source's ring got, with one more record if it is that source's.
  abbrev with_new : ℕ → ℕ → Bytes → List Bytes → List Bytes
  with_new source own f all = if source == own then all ++ (f ∷ []) else all

  accepted-Running :
      (source : ℕ) (e : LogEntry) (seq more : ℕ) (maxima : LogTiming) (t : LogState)
      (size0 size1 : ℕ) (all0 all1 : List Bytes) (bound : ℕ)
      → source < 2
      → bound + record_max < 2 ^ 64
      → Running t size0 size1 all0 all1 bound
      → Running
          (record (with_ring source (append_ring order e seq (ring_at source t)) t) {
            next_seq = more;
            timing = maxima;
          })
          size0
          size1
          (with_new source 0 (frame_of order e seq) all0)
          (with_new source 1 (frame_of order e seq) all1)
          (bound + record_max)
  unfolding with_ring ring_at
  accepted-Running zero e seq more maxima t size0 size1 all0 all1 bound known below h = record {
    ready = h.ready;
    calm = h.calm;
    stm32_latest =
        append_ring-Latest order e seq t.stm32_ring size0 all0 bound below h.stm32_latest;
    esp32_latest =
        Latest-le t.esp32_ring size1 all1 bound (bound + record_max) (omega arith) h.esp32_latest;
  }
  accepted-Running (suc zero) e seq more maxima t size0 size1 all0 all1 bound known below h =
      record {
        ready = h.ready;
        calm = h.calm;
        stm32_latest =
            Latest-le t.stm32_ring size0 all0 bound (bound + record_max) (omega arith)
              h.stm32_latest;
        esp32_latest =
            append_ring-Latest order e seq t.esp32_ring size1 all1 bound below h.esp32_latest;
      }
  accepted-Running (suc (suc n)) e seq more maxima t size0 size1 all0 all1 bound known below h =
      absurd (omega arith)

  -- A call that is refused leaves the store as it was.
  refused_lem :
      (e : LogEntry) (late : Bool) (wait hold : ℕ) (t : LogState)
      → (entry_refused order e || late) ≡ true
      → (log_store_append order (some e) late wait hold t).1 ≡ t
  unfolding log_store_append
  refused_lem e late wait hold t h = ground arith

  accepted_lem :
      (e : LogEntry) (late : Bool) (wait hold : ℕ) (t : LogState)
      → t.initialized ≡ true
      → t.panicked ≡ false
      → (entry_refused order e || late) ≡ false
      → (log_store_append order (some e) late wait hold t).1 ≡ after_append order e wait hold t
  unfolding log_store_append
  accepted_lem e late wait hold t ready calm h = ground arith

  no_entry_lem :
      (late : Bool) (wait hold : ℕ) (t : LogState)
      → (log_store_append order none late wait hold t).1 ≡ t
  unfolding log_store_append
  no_entry_lem late wait hold t = ground arith

  source_known : (e : LogEntry) → entry_refused order e ≡ false → e.source < 2
  unfolding entry_refused
  source_known e h = ground arith

  next_seq_after :
      (e : LogEntry) (wait hold : ℕ) (t : LogState)
      → (after_append order e wait hold t).next_seq ≡ add64 t.next_seq 1
  unfolding after_append
  next_seq_after e wait hold t = refl

  with_new-append :
      (source own : ℕ) (f : Bytes) (all later : List Bytes)
      → all ++ (if source == own then f ∷ later else later) ≡ with_new source own f all ++ later
  with_new-append source own f all later = elim (Bool-cases (source == own)) [
    | inl yes_own ↦ rw yes_own (simp append_assoc)
    | inr other ↦ rw other refl
  ]

  run-Running :
      (calls : List AppendCall) (t : LogState) (size0 size1 : ℕ) (all0 all1 : List Bytes)
      (bound limit : ℕ)
      → bound + record_max * length calls ≤ limit
      → limit < 2 ^ 64
      → Running t size0 size1 all0 all1 bound
      → Running
          (run calls t)
          size0
          size1
          (all0 ++ sent 0 t.next_seq calls)
          (all1 ++ sent 1 t.next_seq calls)
          limit
  unfolding run sent
  run-Running [] t size0 size1 all0 all1 bound limit le below h =
      rw (append_nil all0, append_nil all1)
        (record {
          ready = h.ready;
          calm = h.calm;
          stm32_latest = Latest-le t.stm32_ring size0 all0 bound limit (omega arith) h.stm32_latest;
          esp32_latest = Latest-le t.esp32_ring size1 all1 bound limit (omega arith) h.esp32_latest;
        })
  run-Running (call none late wait hold ∷ calls) t size0 size1 all0 all1 bound limit le below h =
      rw (no_entry_lem late wait hold t)
        (run-Running calls t size0 size1 all0 all1 bound limit (omega arith) below h)
  run-Running (call (some e) late wait hold ∷ calls) t size0 size1 all0 all1 bound limit le below
        h =
      elim (Bool-cases (entry_refused order e || late)) [
        | inl bad ↦
            rw (bad, refused_lem e late wait hold t bad)
              (run-Running calls t size0 size1 all0 all1 bound limit (omega arith) below h)
        | inr good ↦
            let f = frame_of order e t.next_seq in
            let next = after_append order e wait hold t in
            let running : Running next size0 size1 (with_new e.source 0 f all0)
                (with_new e.source 1 f all1) (bound + record_max) =
              unfold after_append in
              accepted-Running e.source e t.next_seq _ _ t size0 size1 all0 all1 bound
                (source_known e (ground arith)) (omega arith) h in
            let after =
              run-Running calls next size0 size1 (with_new e.source 0 f all0)
                (with_new e.source 1 f all1) (bound + record_max) limit (omega arith) below
                running in
            rw
              (
                good,
                accepted_lem e late wait hold t h.ready h.calm good,
                with_new-append e.source 0 f all0 (sent 0 (add64 t.next_seq 1) calls),
                with_new-append e.source 1 f all1 (sent 1 (add64 t.next_seq 1) calls),
              )
              (subst
                (λ (seq : ℕ).
                  Running (run calls next) size0 size1
                    (with_new e.source 0 f all0 ++ sent 0 seq calls)
                    (with_new e.source 1 f all1 ++ sent 1 seq calls) limit)
                (next_seq_after e wait hold t) after)
      ]

  empty_ring-Latest :
      (r : Ring)
      → length r.buf ≡ r.size
      → record_max ≤ r.size
      → r.size < 2 ^ 32
      → Latest order (empty_ring r) r.size [] 0
  unfolding empty_ring make_room
  empty_ring-Latest r whole room sized = record {
    same_size = refl;
    counted_all = refl;
    few = omega arith;
    is_log = record {
      whole = whole;
      room = room;
      sized = sized;
      head_is = unfold joined in omega arith;
      within = unfold joined in omega arith;
      held = unfold joined in refl;
      counted = refl;
      accounted = omega arith;
      framed = tt;
    };
    head_bound = omega arith;
  }

  -- After `log_store_init` and any row of calls (too few to wrap a 64-bit position), each ring
  -- consists of the records that the calls made for its source, in their order, without the oldest
  -- that have no room in its size: as few are left out as that takes. Its counters agree: those
  -- appended are all of them, and those held and overwritten add up to that. (Each buffer has its
  -- ring's size, which takes the largest record and is below 2^32.)
  pub run-Latest :
      (calls : List AppendCall) (t : LogState)
      → record_max * length calls < 2 ^ 64
      → length t.stm32_ring.buf ≡ t.stm32_ring.size
      → length t.esp32_ring.buf ≡ t.esp32_ring.size
      → record_max ≤ t.stm32_ring.size
      → record_max ≤ t.esp32_ring.size
      → t.stm32_ring.size < 2 ^ 32
      → t.esp32_ring.size < 2 ^ 32
      → Latest order
          (run calls (log_store_init t)).stm32_ring
          t.stm32_ring.size
          (sent 0 1 calls)
          (record_max * length calls)
        × Latest order
            (run calls (log_store_init t)).esp32_ring
            t.esp32_ring.size
            (sent 1 1 calls)
            (record_max * length calls)
  unfolding log_store_init
  run-Latest calls t few whole0 whole1 room0 room1 sized0 sized1 =
      let start : Running (log_store_init t) t.stm32_ring.size t.esp32_ring.size [] [] 0 = record {
        ready = refl;
        calm = refl;
        stm32_latest = empty_ring-Latest t.stm32_ring whole0 room0 sized0;
        esp32_latest = empty_ring-Latest t.esp32_ring whole1 room1 sized1;
      } in
      let done =
        run-Running calls (log_store_init t) t.stm32_ring.size t.esp32_ring.size [] [] 0
          (record_max * length calls) (omega arith) few start in
      (done.stm32_latest, done.esp32_latest)
