-- ===== src/LogStore/Reader/Read.antt =====
-- `log_store_read`. It gives the lock up between two rounds, so the store is an argument for each
-- round: `states i` is what round `i` finds.
use cedar_switch_3i4o_power.Common.{
  ℕ, zero, suc, ◌+◌, ◌/◌, ◌%◌, ◌^◌, Bool, false, ◌&&◌, ◌||◌, not, Option, none, some, Bytes, take,
  drop, ltb, leb, ◌==◌, if◌then◌else◌,
}
use cedar_switch_3i4o_power.LogStore.ByteOrder.{ByteOrder}
use cedar_switch_3i4o_power.LogStore.Types.{LogFilter, LogRecord}
use cedar_switch_3i4o_power.LogStore.Ring.{Ring, ring_get}
use cedar_switch_3i4o_power.LogStore.State.{LogState, ring_at, add64, note_max}
use cedar_switch_3i4o_power.LogStore.Append.{hdr_size, length_sane}
use cedar_switch_3i4o_power.LogStore.Record.{copy_record}
use cedar_switch_3i4o_power.LogStore.Filter.{log_store_filter_match}
use cedar_switch_3i4o_power.LogStore.Reader.{LogReader}

-- `enum log_store_read_result`, with the record of the first.
pub data ReadResult : Type 0 where
  read_record : LogRecord → ReadResult
  read_end read_budget : ReadResult

-- A source of the filter.
abbrev pub selects : LogFilter → ℕ → Bool
selects filter source = filter.sources / 2 ^ source % 2 == 1

-- What a round finds at a position of a ring: the position it goes on from, whether records were lost,
-- and a header.
pub record Sight : Type 0 where
  pub at : ℕ
  pub lost : Bool
  pub header : Option Bytes

-- The time that a round held the lock.
unfoldable pub note_read : ℕ → LogState → LogState
note_read held_us t =
    let timing = t.timing in
    record t {
      timing = record timing { read_hold_max_us = note_max timing.read_hold_max_us held_us };
    }

unfoldable pub position : LogReader → ℕ → ℕ
position reader zero = reader.pos0
position reader (suc _) = reader.pos1

unfoldable pub moved : LogReader → ℕ → ℕ → LogReader
moved reader zero len = record reader {
  pos0 = add64 reader.pos0 len;
  scanned = (reader.scanned + 1) % 2 ^ 32;
}
moved reader (suc _) len = record reader {
  pos1 = add64 reader.pos1 len;
  scanned = (reader.scanned + 1) % 2 ^ 32;
}

module _ (order : ByteOrder) where
  abbrev pub seq_of : Bytes → ℕ
  seq_of hdr = order.get_le (take 8 (drop 12 hdr))

  -- The body of the loop over the sources.
  unfoldable pub look : Ring → Bool → ℕ → Sight
  look r selected p =
      let q = if ltb p r.tail then r.tail else p in
      let lost = ltb p r.tail in
      let hdr = ring_get r.buf r.size q hdr_size in
      if not selected
      then record { at = p; lost = false; header = none }
      else if leb r.head q
      then record { at = r.head; lost = lost; header = none }
      else if not (length_sane (order.get_le (take 2 hdr)))
      then record { at = r.head; lost = lost; header = none }
      else record { at = q; lost = lost; header = some hdr }

  -- `best`: the source with the smaller number.
  unfoldable pub oldest : Option Bytes → Option Bytes → Option (ℕ × Bytes)
  oldest none none = none
  oldest none (some b) = some (1, b)
  oldest (some a) none = some (0, a)
  oldest (some a) (some b) = if ltb (seq_of b) (seq_of a) then some (1, b) else some (0, a)

  -- What follows the choice; `none` ends the reading.
  unfoldable pub take_best :
      LogState → LogReader → Option (ℕ × Bytes) → LogReader × Option LogRecord
  unfolding position moved ring_at copy_record
  take_best t reader none = (reader, none)
  take_best t reader (some (best, hdr)) =
      let len = order.get_le (take 2 hdr) in
      let rec = copy_record order (ring_at best t) (position reader best) hdr in
      if not (reader.upper_seq == 0) && leb reader.upper_seq (seq_of hdr)
      then (reader, none)
      else (moved reader best len, some rec)

  unfoldable pub read_round : LogState → LogReader → LogReader × Option LogRecord
  unfolding look oldest take_best
  read_round t reader =
      let a = look t.stm32_ring (selects reader.filter 0) reader.pos0 in
      let b = look t.esp32_ring (selects reader.filter 1) reader.pos1 in
      let looked = record reader {
        pos0 = a.at;
        pos1 = b.at;
        gap = reader.gap || a.lost || b.lost;
      } in
      take_best t looked (oldest a.header b.header)

  -- The loop, with `left` of the budget.
  unfoldable pub read_rounds : (ℕ → LogState) → ℕ → ℕ → LogReader → ReadResult × LogReader
  unfolding read_round
  read_rounds states zero i reader = (read_budget, reader)
  read_rounds states (suc left) i reader =
      let done = read_round (states i) reader in
      let later = read_rounds states left (i + 1) done.0 in
      elim done.1 [
        | none ↦ (read_end, done.0)
        | some rec ↦
            if log_store_filter_match done.0.filter rec then (read_record rec, done.0) else later
      ]

  unfoldable pub log_store_read : (ℕ → LogState) → ℕ → LogReader → ReadResult × LogReader
  unfolding read_rounds
  log_store_read states scan_budget reader =
      let t = states 0 in
      let at_heads = record reader { pos0 = t.stm32_ring.head; pos1 = t.esp32_ring.head } in
      if not t.initialized
      then (read_end, reader)
      else if reader.filter.sources % 4 == 0
      then (read_end, at_heads)
      else read_rounds states scan_budget 0 reader
