-- ===== src/LogStore/Reader/Answers.antt =====
-- What `log_store_read` answers.
use cedar_switch_3i4o_power.Common.{
  ℕ, zero, suc, ◌+◌, ◌%◌, ◌<◌, ◌≡◌, ◌⊎◌, inl, inr, refl, sym, ap, ◌∙◌, subst, true, ◌&&◌, not,
  Option, none, some, Bytes, take, leb, ◌==◌, if◌then◌else◌, arith, Bool-cases,
}
use cedar_switch_3i4o_power.LogStore.ByteOrder.{ByteOrder}
use cedar_switch_3i4o_power.LogStore.Types.{LogFilter, LogRecord}
use cedar_switch_3i4o_power.LogStore.State.{LogState, ring_at}
use cedar_switch_3i4o_power.LogStore.Record.{copy_record}
use cedar_switch_3i4o_power.LogStore.Filter.{log_store_filter_match}
use cedar_switch_3i4o_power.LogStore.Reader.{LogReader}
use cedar_switch_3i4o_power.LogStore.Reader.Read.{
  ReadResult, seq_of, position, moved, take_best, read_round, read_rounds, log_store_read,
  read_record, read_end, read_budget,
}

-- What an answer says: a record passes the filter, and lies before the bound, if there is one.
pub Answer : LogFilter → ℕ → ReadResult → Type 0
Answer filter upper_seq (read_record rec) =
    (log_store_filter_match filter rec ≡ true) × ((upper_seq ≡ 0) ⊎ (rec.seq < upper_seq))
Answer filter upper_seq read_end = Unit
Answer filter upper_seq read_budget = Unit

-- What a call leaves of the reader, and its answer.
pub record Answers (filter : LogFilter) (upper_seq : ℕ) (result : ReadResult × LogReader)
    : Type 0 where
  pub same_filter : result.1.filter ≡ filter
  pub same_bound : result.1.upper_seq ≡ upper_seq
  pub answer : Answer filter upper_seq result.0

module _ (order : ByteOrder) where
  take_best_lem :
      (t : LogState) (reader : LogReader) (choice : Option (ℕ × Bytes)) (rec : LogRecord)
      → (take_best order t reader choice).1 ≡ some rec
      → (reader.upper_seq ≡ 0) ⊎ (rec.seq < reader.upper_seq)
  unfolding take_best copy_record
  take_best_lem t reader none rec e = cc
  take_best_lem t reader (some (best, hdr)) rec e =
      let copied = copy_record order (ring_at best t) (position reader best) hdr in
      elim (Bool-cases (not (reader.upper_seq == 0) && leb reader.upper_seq (seq_of order hdr))) [
        | inl stop ↦ absurd (let nothing = rw stop at e in cc)
        | inr on ↦
            let same : some copied ≡ some rec = rw on at e in
            let number : seq_of order hdr ≡ rec.seq =
              ap (λ (o : Option LogRecord). seq_in o) same in
            ground arith
      ]
    where
      seq_in : Option LogRecord → ℕ
      seq_in none = 0
      seq_in (some r) = r.seq

  moved_kept :
      (reader : LogReader) (best len : ℕ)
      → ((moved reader best len).filter ≡ reader.filter)
        × ((moved reader best len).upper_seq ≡ reader.upper_seq)
  unfolding moved
  moved_kept reader zero len = (refl, refl)
  moved_kept reader (suc best) len = (refl, refl)

  take_best_kept :
      (t : LogState) (reader : LogReader) (choice : Option (ℕ × Bytes))
      → ((take_best order t reader choice).0.filter ≡ reader.filter)
        × ((take_best order t reader choice).0.upper_seq ≡ reader.upper_seq)
  unfolding take_best
  take_best_kept t reader none = (refl, refl)
  take_best_kept t reader (some (best, hdr)) =
      elim (Bool-cases (not (reader.upper_seq == 0) && leb reader.upper_seq (seq_of order hdr))) [
        | inl stop ↦ rw stop (refl, refl)
        | inr on ↦ rw on (moved_kept reader best (order.get_le (take 2 hdr)))
      ]

  passed_on :
      (f g : LogFilter) (u v : ℕ) (result : ReadResult × LogReader)
      → f ≡ g
      → u ≡ v
      → Answers f u result
      → Answers g v result
  passed_on f g u v result ef eu a =
      subst (λ x. Answers x v result) ef (subst (λ y. Answers f y result) eu a)

  read_round_kept :
      (t : LogState) (reader : LogReader)
      → ((read_round order t reader).0.filter ≡ reader.filter)
        × ((read_round order t reader).0.upper_seq ≡ reader.upper_seq)
  unfolding read_round
  read_round_kept t reader = take_best_kept t _ _

  read_round_lem :
      (t : LogState) (reader : LogReader) (rec : LogRecord)
      → (read_round order t reader).1 ≡ some rec
      → (reader.upper_seq ≡ 0) ⊎ (rec.seq < reader.upper_seq)
  unfolding read_round
  read_round_lem t reader rec e = take_best_lem t _ _ rec e

  read_rounds-Answers :
      (states : ℕ → LogState) (left i : ℕ) (reader : LogReader)
      → Answers reader.filter reader.upper_seq (read_rounds order states left i reader)
  unfolding read_rounds Answer
  read_rounds-Answers states zero i reader = record {
    same_filter = refl;
    same_bound = refl;
    answer = tt;
  }
  read_rounds-Answers states (suc left) i reader =
      let kept = read_round_kept (states i) reader in
      next (read_round order (states i) reader) kept.0 kept.1 (read_round_lem (states i) reader)
        (read_rounds-Answers states left (i + 1) (read_round order (states i) reader).0)
    where
      next :
          (done : LogReader × Option LogRecord)
          → done.0.filter ≡ reader.filter
          → done.0.upper_seq ≡ reader.upper_seq
          → ((rec : LogRecord)
              → done.1 ≡ some rec
              → (reader.upper_seq ≡ 0) ⊎ (rec.seq < reader.upper_seq))
          → Answers done.0.filter done.0.upper_seq (read_rounds order states left (i + 1) done.0)
          → Answers reader.filter reader.upper_seq (elim done.1 [
            | none ↦ (read_end, done.0)
            | some rec ↦
                if log_store_filter_match done.0.filter rec
                then (read_record rec, done.0)
                else read_rounds order states left (i + 1) done.0
          ])
      next (at, none) f u bound later = record { same_filter = f; same_bound = u; answer = tt }
      next (at, some rec) f u bound later =
          elim (Bool-cases (log_store_filter_match at.filter rec)) [
            | inl passes ↦ rw passes (record {
              same_filter = f;
              same_bound = u;
              answer = (
                ap (λ (g : LogFilter). log_store_filter_match g rec) (sym f) ∙ passes,
                bound rec refl,
              );
            })
            | inr fails ↦ rw fails (
                passed_on at.filter reader.filter at.upper_seq reader.upper_seq
                  (read_rounds order states left (i + 1) at) f u later)
          ]

  -- Whatever the stores hold, and change to between two rounds, `log_store_read` keeps the reader's
  -- filter and bound, and a record that it returns passes the filter and lies before the bound, if
  -- there is one.
  pub log_store_read-Answers :
      (states : ℕ → LogState) (scan_budget : ℕ) (reader : LogReader)
      → Answers reader.filter reader.upper_seq (log_store_read order states scan_budget reader)
  unfolding log_store_read Answer
  log_store_read-Answers states scan_budget reader = elim (Bool-cases ((states 0).initialized)) [
    | inr unset ↦ rw unset (record { same_filter = refl; same_bound = refl; answer = tt })
    | inl set_up ↦ elim (Bool-cases (reader.filter.sources % 4 == 0)) [
      | inl nothing ↦
          rw (set_up, nothing) (record { same_filter = refl; same_bound = refl; answer = tt })
      | inr some_source ↦ rw (set_up, some_source) (read_rounds-Answers states scan_budget 0 reader)
    ]
  ]
