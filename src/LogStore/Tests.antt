-- ===== src/LogStore/Tests.antt =====
-- The functions of log_store.c run on concrete cursors and rings, and the theorems on them applied to
-- such.
use cedar_switch_3i4o_power.Common.{
  ℕ, ◌≤◌, ◌<◌, ◌%◌, ◌≡◌, ◌↔◌, ◌⊎◌, ◌/◌, refl, true, false, none, some, List, [], ◌∷◌, Bytes, codes,
  All, arith, if◌then◌else◌, ◌==◌, replicate, length, length-replicate, ◌*◌, ◌++◌,
}
use cedar_switch_3i4o_power.LogStore.ByteOrder.{little_endian, put_little, get_little, IsByte}
use cedar_switch_3i4o_power.LogStore.Base64.{encode, decode}
use cedar_switch_3i4o_power.LogStore.Base64.Canonical.{decode-encode, encode-decode}
use cedar_switch_3i4o_power.LogStore.Types.{LogFilter, warning, debug}
use cedar_switch_3i4o_power.LogStore.State.{LogState, log_store_init}
use cedar_switch_3i4o_power.LogStore.Append.{
  LogEntry, hdr_size, record_max, need, cut_back, log_store_utf8_cut, entry_refused, append_ring,
  evict, add_record, stored, stored_or_empty,
}
use cedar_switch_3i4o_power.LogStore.Append.Log.{window-split, IsLog, joined, make_room}
use cedar_switch_3i4o_power.LogStore.Filter.{lower, equal_from, contains_from, ascii_contains}
use cedar_switch_3i4o_power.LogStore.Filter.Contains.{OccursAt, ascii_contains-OccursAt}
use cedar_switch_3i4o_power.LogStore.Reader.{
  log_store_reader_at, StandsFor, log_store_reader_at-StandsFor,
}
use cedar_switch_3i4o_power.LogStore.Record.{copy_record}
use cedar_switch_3i4o_power.LogStore.Record.ReadBack.{record_of, copy_record-frame_of}
use cedar_switch_3i4o_power.LogStore.Append.Evict.{Evicted, evict-Evicted}
use cedar_switch_3i4o_power.LogStore.Append.Refine.{frame_of, append_ring-IsLog}
use cedar_switch_3i4o_power.LogStore.Append.History.{AppendCall, call, Latest}
use cedar_switch_3i4o_power.LogStore.Append.Runs.{run, sent, run-Latest}
use cedar_switch_3i4o_power.LogStore.Ring.{Ring, ring_put, ring_get}
use cedar_switch_3i4o_power.LogStore.Ring.Window.{
  window, ring_get-ring_put, ring_get-ring_put_before,
}
use cedar_switch_3i4o_power.LogStore.Cursor.{
  positions, einval, estale, filter_digest, mix, fnv1a, cursor_check, raw_body, raw_cursor,
  check_raw, log_store_cursor_encode, log_store_cursor_decode,
}
use cedar_switch_3i4o_power.LogStore.Cursor.RoundTrip.{log_store_cursor_decode-encode}
use cedar_switch_3i4o_power.LogStore.Cursor.Accepted.{log_store_cursor_decode_only}

abbrev pub warnings : LogFilter
warnings = record {
  sources = 3;
  min_level = warning;
  has_module = true;
  module_name = codes "net";
  has_contains = false;
  contains = [];
}

abbrev everything : LogFilter
everything = record {
  sources = 3;
  min_level = debug;
  has_module = false;
  module_name = [];
  has_contains = false;
  contains = [];
}

encode_man : encode (codes "Man") ≡ codes "TWFu"
unfolding encode
encode_man = refl

decode_man : decode (codes "TWFu") ≡ some (codes "Man")
unfolding decode
decode_man = refl

decode_padding_bits : decode (codes "TX") ≡ none
unfolding decode
decode_padding_bits = refl

ring_put_wraps : ring_put (1 ∷ 2 ∷ 3 ∷ 4 ∷ []) 4 7 (8 ∷ 9 ∷ []) ≡ 9 ∷ 2 ∷ 3 ∷ 8 ∷ []
unfolding ring_put
ring_put_wraps = refl

ring_get_wraps : ring_get (9 ∷ 2 ∷ 3 ∷ 8 ∷ []) 4 7 2 ≡ 8 ∷ 9 ∷ []
unfolding ring_get
ring_get_wraps = refl

abbrev page : Bytes
page = 1 ∷ 2 ∷ 3 ∷ 4 ∷ []

-- Two bytes put across the end of a ring of four.
ring_get-ring_put_example : ring_get (ring_put page 4 7 (8 ∷ 9 ∷ [])) 4 7 2 ≡ 8 ∷ 9 ∷ []
ring_get-ring_put_example = ring_get-ring_put page 4 7 (8 ∷ 9 ∷ []) refl (omega arith) (omega arith)

ring_get-ring_put_before_example :
    ring_get (ring_put page 4 7 (8 ∷ 9 ∷ [])) 4 5 2 ≡ ring_get page 4 5 2
ring_get-ring_put_before_example =
    ring_get-ring_put_before page 4 7 (8 ∷ 9 ∷ []) refl (omega arith) (omega arith) 5 2
      (omega arith) (omega arith) (omega arith)

decode-encode_example : decode (encode (codes "cedar")) ≡ some (codes "cedar")
decode-encode_example =
    decode-encode (codes "cedar")
      (omega arith, (omega arith, (omega arith, (omega arith, (omega arith, tt)))))

-- The cursor that the device makes for `warnings` at the positions 8 and 12.
abbrev some_cursor : Bytes
some_cursor = codes "AU0AAACy_jjgCAAAAAAAAAAMAAAAAAAAALqeNBg"

some_cursor_made : log_store_cursor_encode little_endian warnings 8 12 77 40 ≡ some some_cursor
unfolding log_store_cursor_encode encode raw_cursor raw_body filter_digest mix fnv1a cursor_check
    put_little
some_cursor_made = refl

log_store_cursor_decode-encode_example :
    log_store_cursor_decode little_endian (some some_cursor) 78 warnings 16 16 ≡ (
      if filter_digest little_endian warnings == filter_digest little_endian warnings
      then if 77 == 78 then positions 8 12 else estale
      else einval)
log_store_cursor_decode-encode_example =
    log_store_cursor_decode-encode little_endian warnings warnings 8 12 77 78 40 16 16 some_cursor
      (omega arith) (omega arith) (omega arith) refl refl some_cursor_made

some_cursor_read :
    log_store_cursor_decode little_endian (some some_cursor) 77 warnings 16 16 ≡ positions 8 12
unfolding log_store_cursor_decode decode check_raw encode raw_cursor raw_body filter_digest mix
    fnv1a cursor_check put_little get_little
some_cursor_read = refl

other_filter_refused :
    log_store_cursor_decode little_endian (some some_cursor) 77 everything 16 16 ≡ einval
unfolding log_store_cursor_decode decode check_raw filter_digest mix fnv1a cursor_check get_little
other_filter_refused = refl

log_store_cursor_decode_only_example :
    (log_store_cursor_encode little_endian warnings 8 12 77 40 ≡ some some_cursor)
    × (8 % 4 ≡ 0)
    × (8 ≤ 16)
    × (12 % 4 ≡ 0)
    × (12 ≤ 16)
log_store_cursor_decode_only_example =
    log_store_cursor_decode_only little_endian some_cursor 77 16 16 8 12 warnings some_cursor_read

-- A ring of one kibibyte that nothing has been put into.
abbrev pub kib_ring : Ring
kib_ring = record {
  buf = replicate 1024 0;
  size = 1024;
  head = 0;
  tail = 0;
  records = 0;
  appended = 0;
  overwritten = 0;
}

abbrev pub cold : LogState
cold = record {
  stm32_ring = kib_ring;
  esp32_ring = kib_ring;
  next_seq = 0;
  timing = record { append_hold_max_us = 0; append_wait_max_us = 0; read_hold_max_us = 0 };
  initialized = false;
  panicked = false;
  losses = [];
}

abbrev pub boot_entry : LogEntry
boot_entry = record {
  source = 0;
  level = 2;
  kind = 0;
  truncated = false;
  generation = 1;
  uptime_ms = 12;
  module_name = some (codes "main");
  module_len = 4;
  text = some (codes "booted");
  text_len = 6;
}

abbrev three_calls : List AppendCall
three_calls =
    call (some boot_entry) false 3 5 ∷ call none false 0 0 ∷ call (some boot_entry) true 1 2 ∷ []

one_record : length (sent little_endian 0 1 three_calls) ≡ 1
unfolding sent entry_refused
one_record = refl

utf8_cut_before_half_a_character : log_store_utf8_cut (b'a' ∷ 0xD0 ∷ 0xB6 ∷ []) 3 2 ≡ 1
unfolding log_store_utf8_cut cut_back need
utf8_cut_before_half_a_character = refl

run-Latest_example :
    Latest little_endian
      (run little_endian three_calls (log_store_init cold)).stm32_ring
      cold.stm32_ring.size
      (sent little_endian 0 1 three_calls)
      (record_max * length three_calls)
    × Latest little_endian
        (run little_endian three_calls (log_store_init cold)).esp32_ring
        cold.esp32_ring.size
        (sent little_endian 1 1 three_calls)
        (record_max * length three_calls)
run-Latest_example =
    run-Latest little_endian three_calls cold (omega arith) (length-replicate {A = ℕ} 1024 0)
      (length-replicate {A = ℕ} 1024 0) (omega arith) (omega arith) (omega arith) (omega arith)

kib_ring-IsLog : IsLog little_endian kib_ring []
unfolding joined
kib_ring-IsLog = record {
  whole = length-replicate {A = ℕ} 1024 0;
  room = omega arith;
  sized = omega arith;
  head_is = refl;
  within = omega arith;
  held = refl;
  counted = refl;
  accounted = refl;
  framed = tt;
}

append_ring-IsLog_example : IsLog little_endian (append_ring little_endian boot_entry 7 kib_ring) (
    make_room 1024 (length (frame_of little_endian boot_entry 7)) []
    ++ (frame_of little_endian boot_entry 7 ∷ []))
append_ring-IsLog_example =
    append_ring-IsLog little_endian boot_entry 7 kib_ring [] (omega arith) kib_ring-IsLog

-- The same ring with one record in it, which does not fit beside 1000 more bytes.
abbrev pub one_ring : Ring
one_ring = append_ring little_endian boot_entry 7 kib_ring

one_ring_head : one_ring.head ≡ 44
unfolding append_ring add_record evict stored_or_empty stored
one_ring_head = refl

one_ring_size : one_ring.size ≡ 1024
unfolding append_ring add_record evict stored_or_empty stored
one_ring_size = refl

one_ring-IsLog : IsLog little_endian one_ring (frame_of little_endian boot_entry 7 ∷ [])
unfolding make_room
one_ring-IsLog =
    append_ring-IsLog little_endian boot_entry 7 kib_ring [] (omega arith) kib_ring-IsLog

evict-Evicted_example :
    Evicted little_endian one_ring
      (evict little_endian 2 1000 one_ring)
      (make_room one_ring.size 1000 (frame_of little_endian boot_entry 7 ∷ []))
evict-Evicted_example =
    evict-Evicted little_endian 2 1000 (frame_of little_endian boot_entry 7 ∷ []) one_ring
      (omega arith) (omega (arith, one_ring_size)) (omega (arith, one_ring_head)) one_ring-IsLog

one_ring_tail : one_ring.tail ≡ 0
unfolding append_ring add_record evict stored_or_empty stored
one_ring_tail = refl

one_ring_shows :
    window one_ring.buf one_ring.size one_ring.tail (length (frame_of little_endian boot_entry 7))
    ≡ frame_of little_endian boot_entry 7
unfolding joined
one_ring_shows =
    (window-split one_ring.buf one_ring.size one_ring.tail (frame_of little_endian boot_entry 7) []
      one_ring-IsLog.held).0

copy_record-frame_of_example :
    copy_record little_endian one_ring one_ring.tail
      (ring_get one_ring.buf one_ring.size one_ring.tail hdr_size)
    ≡ record_of little_endian boot_entry 7
copy_record-frame_of_example =
    copy_record-frame_of little_endian boot_entry 7 one_ring one_ring.tail one_ring-IsLog.whole
      one_ring-IsLog.room (omega (arith, one_ring_tail)) (omega arith) (omega arith) (omega arith)
      (omega arith) one_ring_shows

-- A search that ignores the case of the letters.
ascii_contains-OccursAt_example :
    ascii_contains (codes "Link Up") 7 (codes "UP") ≡ true
    ↔ ((p : ℕ) × OccursAt (codes "Link Up") (codes "UP") p)
ascii_contains-OccursAt_example = ascii_contains-OccursAt (codes "Link Up") (codes "UP")

up_found : ascii_contains (codes "Link Up") 7 (codes "UP") ≡ true
unfolding ascii_contains contains_from equal_from lower
up_found = refl

-- A reader set before the tail of the first ring and inside the second.
abbrev busy : LogState
busy = record cold {
  stm32_ring = record kib_ring { tail = 44; head = 88; records = 1 };
  esp32_ring = record kib_ring { tail = 0; head = 88; records = 2 };
}

log_store_reader_at-StandsFor_example :
    let reader = log_store_reader_at warnings 0 44 busy in
    StandsFor busy.stm32_ring 0 reader.pos0
    × StandsFor busy.esp32_ring 44 reader.pos1
    × (reader.gap ≡ true
        ↔ ((warnings.sources % 2 ≡ 1) × (0 < busy.stm32_ring.tail))
          ⊎ ((warnings.sources / 2 % 2 ≡ 1) × (44 < busy.esp32_ring.tail)))
log_store_reader_at-StandsFor_example =
    log_store_reader_at-StandsFor warnings 0 44 busy (omega arith) (omega arith)

encode-decode_example : All IsByte (codes "Man") × (codes "TWFu" ≡ encode (codes "Man"))
encode-decode_example =
    encode-decode (codes "TWFu") (codes "Man") (λ e. absurd (omega arith)) decode_man
