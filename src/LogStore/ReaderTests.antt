-- ===== src/LogStore/ReaderTests.antt =====
-- The readers of log_store.c run on a store with one record, and the theorems on them applied to it.
use cedar_switch_3i4o_power.Common.{
  ◌≤◌, ◌≡◌, refl, true, false, none, some, [], Option, Bytes, codes, arith,
}
use cedar_switch_3i4o_power.LogStore.ByteOrder.{little_endian, put_little, get_little}
use cedar_switch_3i4o_power.LogStore.Types.{LogFilter, level_none}
use cedar_switch_3i4o_power.LogStore.Ring.{ring_get, ring_put}
use cedar_switch_3i4o_power.LogStore.State.{LogState}
use cedar_switch_3i4o_power.LogStore.Append.{
  append_ring, add_record, evict, stored_or_empty, stored,
}
use cedar_switch_3i4o_power.LogStore.Filter.{log_store_filter_match}
use cedar_switch_3i4o_power.LogStore.Reader.{LogReader}
use cedar_switch_3i4o_power.LogStore.Reader.Read.{ReadResult, read_record, log_store_read}
use cedar_switch_3i4o_power.LogStore.Reader.Answers.{Answers, log_store_read-Answers}
use cedar_switch_3i4o_power.LogStore.Reader.Tail.{log_store_reader_tail}
use cedar_switch_3i4o_power.LogStore.Reader.Inside.{Inside, log_store_reader_tail-Inside}
use cedar_switch_3i4o_power.LogStore.Tests.{cold, one_ring}

-- The STM32's ring has one record, the other one none.
abbrev holding : LogState
holding = record cold { stm32_ring = one_ring; initialized = true }

abbrev all_records : LogFilter
all_records = record {
  sources = 3;
  min_level = level_none;
  has_module = false;
  module_name = [];
  has_contains = false;
  contains = [];
}

abbrev from_start : LogReader
from_start = record {
  filter = all_records;
  pos0 = 0;
  pos1 = 0;
  upper_seq = 0;
  gap = false;
  scanned = 0;
}

abbrev text_of : ReadResult → Option Bytes
text_of (read_record rec) = some rec.text
text_of _ = none

first_text :
    text_of (log_store_read little_endian (λ _. holding) 4 from_start).0 ≡ some (codes "booted")
unfolding log_store_read append_ring add_record evict stored_or_empty stored get_little ring_get
    ring_put put_little log_store_filter_match
first_text = refl

log_store_read-Answers_example :
    Answers all_records 0 (log_store_read little_endian (λ _. holding) 4 from_start)
log_store_read-Answers_example = log_store_read-Answers little_endian (λ _. holding) 4 from_start

one_ring-tail : one_ring.tail ≡ 0
unfolding append_ring add_record evict stored_or_empty
one_ring-tail = refl

-- One step back finds the record.
tail_scanned :
    (log_store_reader_tail little_endian all_records 1 4 holding (λ _. holding)).scanned ≡ 1
unfolding log_store_reader_tail append_ring add_record evict stored_or_empty stored get_little
    ring_get ring_put put_little log_store_filter_match
tail_scanned = refl

log_store_reader_tail-Inside_example :
    let reader = log_store_reader_tail little_endian all_records 1 4 holding (λ _. holding) in
    Inside holding reader.pos0 reader.pos1 × (reader.scanned ≤ 4)
log_store_reader_tail-Inside_example =
    log_store_reader_tail-Inside little_endian all_records 1 4 holding
      (rw one_ring-tail (omega arith)) (omega arith)
