-- ===== src/LogStore/Reader/Tail.antt =====
-- `log_store_reader_tail`: a walk back over both rings. It gives the lock up between two rounds, so
-- the store is an argument for each round, and for the first look at the heads.
use cedar_switch_3i4o_power.Common.{
  ℕ, zero, suc, ◌+◌, ◌-◌, Bool, true, false, ◌||◌, not, Option, none, some, Bytes, take, drop, ltb,
  leb, ◌==◌, if◌then◌else◌,
}
use cedar_switch_3i4o_power.LogStore.ByteOrder.{ByteOrder}
use cedar_switch_3i4o_power.LogStore.Types.{LogFilter}
use cedar_switch_3i4o_power.LogStore.Ring.{Ring, ring_get}
use cedar_switch_3i4o_power.LogStore.State.{LogState, ring_at, sub64}
use cedar_switch_3i4o_power.LogStore.Append.{hdr_size, trailer_size, trailer_magic, length_sane}
use cedar_switch_3i4o_power.LogStore.Record.{copy_record}
use cedar_switch_3i4o_power.LogStore.Filter.{log_store_filter_match}
use cedar_switch_3i4o_power.LogStore.Reader.{LogReader}
use cedar_switch_3i4o_power.LogStore.Reader.Read.{seq_of, selects}

-- `bp` and `done` of one ring.
pub record Walk : Type 0 where
  pub at : ℕ
  pub done : Bool

-- A record that ends at `at`: where it starts, and its header.
abbrev pub Found : Type 0
Found = Option (ℕ × Bytes)

unfoldable pub stepped : ℕ → ℕ → Walk → Walk → Walk × Walk
stepped zero start a b = (record a { at = start }, b)
stepped (suc _) start a b = (a, record b { at = start })

module _ (order : ByteOrder) where
  -- The body of the loop over the sources.
  unfoldable pub look_back : Ring → Walk → Walk × Found
  look_back r w =
      let tr = ring_get r.buf r.size (sub64 w.at trailer_size) trailer_size in
      let len = order.get_le (take 2 tr) in
      let start = w.at - len in
      let bad = not (order.get_le (drop 2 tr) == trailer_magic) || not (length_sane len) in
      if w.done
      then (w, none)
      else if leb w.at r.tail
      then (record { at = r.tail; done = true }, none)
      else if bad || ltb (w.at - r.tail) len
      then (record { at = r.tail; done = true }, none)
      else (w, some (start, ring_get r.buf r.size start hdr_size))

  -- `best`: the source with the larger number.
  unfoldable pub newest : Found → Found → Option (ℕ × ℕ × Bytes)
  newest none none = none
  newest none (some b) = some (1, b.0, b.1)
  newest (some a) none = some (0, a.0, a.1)
  newest (some a) (some b) =
      if ltb (seq_of order a.1) (seq_of order b.1) then some (1, b.0, b.1) else some (0, a.0, a.1)

  -- The loop, with `left` of the budget: the two places, and the rounds that copied a record.
  unfoldable pub walk_back :
      LogFilter → ℕ → (ℕ → LogState) → ℕ → ℕ → ℕ → Walk → Walk → Walk × Walk × ℕ
  unfolding look_back newest stepped copy_record ring_at
  walk_back filter count states zero matched scanned a b = (a, b, scanned)
  walk_back filter count states (suc left) matched scanned a b =
      let t = states scanned in
      let one = look_back t.stm32_ring a in
      let two = look_back t.esp32_ring b in
      if leb count matched then (a, b, scanned) else elim (newest one.1 two.1) [
        | none ↦ (one.0, two.0, scanned)
        | some (best, start, hdr) ↦
            let places = stepped best start one.0 two.0 in
            let passes =
              log_store_filter_match filter (copy_record order (ring_at best t) start hdr) in
            walk_back filter count states left (if passes then matched + 1 else matched)
              (scanned + 1) places.0 places.1
      ]

  unfoldable pub log_store_reader_tail : LogFilter → ℕ → ℕ → LogState → (ℕ → LogState) → LogReader
  unfolding walk_back
  log_store_reader_tail filter count scan_budget t states =
      let walked =
        walk_back filter count states scan_budget 0 0
          (record { at = t.stm32_ring.head; done = not (selects filter 0) })
          (record { at = t.esp32_ring.head; done = not (selects filter 1) }) in
      record {
        filter = filter;
        pos0 = walked.0.at;
        pos1 = walked.1.at;
        upper_seq = 0;
        gap = false;
        scanned = walked.2;
      }
