-- ===== src/LogStore/Append.antt =====
-- `log_store_append`, with `log_store_utf8_cut` and the loop that pushes out the oldest records.
pub mod Grow
pub mod Log
pub mod Evict
pub mod Refine
pub mod History
pub mod Runs
use cedar_switch_3i4o_power.Common.{
  ℕ, zero, suc, ◌+◌, ◌-◌, ◌*◌, ◌/◌, ◌%◌, ◌^◌, min, Bool, true, false, ◌&&◌, ◌||◌, not, Option, none,
  some, List, [], ◌∷◌, ◌++◌, Bytes, length, take, replicate, get_or, ltb, leb, ◌==◌, if◌then◌else◌,
}
use cedar_switch_3i4o_power.LogStore.ByteOrder.{ByteOrder}
use cedar_switch_3i4o_power.LogStore.Ring.{Ring, ring_put, ring_get}
use cedar_switch_3i4o_power.LogStore.State.{
  LogState, LogTiming, ring_at, with_ring, add64, sub64, note_max,
}
use cedar_switch_3i4o_power.LogStore.Types.{text_max, module_max}

-- `struct log_store_entry`: `none` is NULL. A source, level or kind may lie outside its enumeration.
pub record LogEntry : Type 0 where
  pub source : ℕ
  pub level : ℕ
  pub kind : ℕ
  pub truncated : Bool
  pub generation : ℕ
  pub uptime_ms : ℕ
  pub module_name : Option Bytes
  pub module_len : ℕ
  pub text : Option Bytes
  pub text_len : ℕ

abbrev pub hdr_size : ℕ
hdr_size = 28

abbrev pub trailer_size : ℕ
trailer_size = 4

abbrev pub trailer_magic : ℕ
trailer_magic = 0xC3D5

-- `ROUND_UP(n, 4U)`
abbrev pub round_up : ℕ → ℕ
round_up n = (n + 3) / 4 * 4

abbrev pub record_min : ℕ
record_min = 32

abbrev pub record_max : ℕ
record_max = 608

-- `length_sane`
abbrev pub length_sane : ℕ → Bool
length_sane len = leb record_min len && leb len record_max && (len % 4 == 0)

-- The bytes that the code point of a lead byte takes.
unfoldable pub need : ℕ → ℕ
need c =
    if ltb c 0x80
    then 1
    else if c / 32 == 6
    then 2
    else if c / 16 == 14
    then 3
    else if c / 8 == 30
    then 4
    else 1

-- The loop of `log_store_utf8_cut`, with `left` rounds to go.
unfoldable pub cut_back : Bytes → ℕ → ℕ → ℕ → ℕ
unfolding need
cut_back text n zero back = n
cut_back text n (suc left) back =
    let later = cut_back text n left (back + 1) in
    let c = get_or text (n - back) 0 in
    if leb back n
    then if c / 64 == 2 then later else if ltb back (need c) then n - back else n
    else n

unfoldable pub log_store_utf8_cut : Bytes → ℕ → ℕ → ℕ
unfolding cut_back
log_store_utf8_cut text len cap = cut_back text (min len cap) 4 1

-- The bytes of a string that are stored: all `len`, or those up to the cut.
unfoldable pub stored : Bytes → ℕ → ℕ → Bytes
unfolding log_store_utf8_cut
stored text len cap =
    if ltb cap len then take (log_store_utf8_cut text len cap) text else take len text

-- `zeros`
abbrev pub zeros : ℕ → Bytes
zeros n = replicate n 0

-- What a NULL text or module leaves: no bytes.
unfoldable pub stored_or_empty : Option Bytes → ℕ → ℕ → Bytes
unfolding stored
stored_or_empty none len cap = []
stored_or_empty (some bytes) len cap = stored bytes len cap

abbrev pub is_given : Option Bytes → Bool
is_given none = false
is_given (some _) = true

module _ (order : ByteOrder) where
  open order use {put_le, get_le}

  -- The oldest record of `len` bytes is pushed out.
  unfoldable pub push_out : Ring → ℕ → Ring
  push_out r len = record r {
    tail = add64 r.tail len;
    records = (r.records + (2 ^ 32 - 1)) % 2 ^ 32;
    overwritten = add64 r.overwritten 1;
  }

  -- The ring is started over.
  unfoldable pub start_over : Ring → Ring
  start_over r = record r {
    overwritten = add64 r.overwritten r.records;
    records = 0;
    tail = r.head;
  }

  -- `while (r->head + total - r->tail > r->size)`, for at most as many rounds as there is fuel.
  unfoldable pub evict : ℕ → ℕ → Ring → Ring
  unfolding push_out start_over
  evict zero total r = r
  evict (suc fuel) total r =
      let len = get_le (ring_get r.buf r.size r.tail 2) in
      let rest = evict fuel total (push_out r len) in
      if ltb r.size (sub64 (add64 r.head total) r.tail)
      then if length_sane len then rest else start_over r
      else r

  -- The header of a record. An entry comes here after `entry_refused`, so its level and source are
  -- bytes, and its kind leaves the two bits of the flags free: `+` is the `|` of the code.
  unfoldable pub header : LogEntry → ℕ → ℕ → ℕ → ℕ → Bytes
  header e total mlen tlen seq =
      let cut = e.truncated || ltb text_max e.text_len in
      let flags =
        e.kind + (if is_given e.module_name then 2 ^ 6 else 0) + (if cut then 2 ^ 7 else 0) in
      put_le 2 total
      ++ ((e.level ∷ flags ∷ (mlen % 256) ∷ e.source ∷ [])
          ++ (put_le 2 tlen ++ (put_le 4 e.generation ++ (put_le 8 seq ++ put_le 8 e.uptime_ms))))

  -- The part is put only if it is not empty.
  abbrev pub put_if : Bytes → ℕ → ℕ → Bytes → Bytes
  put_if buf size pos part = if ltb 0 (length part) then ring_put buf size pos part else buf

  -- The five `ring_put` calls, one behind the other.
  unfoldable pub put_record : Ring → ℕ → Bytes → Bytes → Bytes → Bytes
  put_record r total hdr name text =
      let with_header = ring_put r.buf r.size r.head hdr in
      let at_name = add64 r.head hdr_size in
      let with_name = put_if with_header r.size at_name name in
      let at_text = add64 at_name (length name) in
      let with_text = put_if with_name r.size at_text text in
      let at_zeros = add64 at_text (length text) in
      let left = total - trailer_size - hdr_size - length name - length text in
      let with_zeros = ring_put with_text r.size at_zeros (zeros left) in
      ring_put with_zeros r.size (add64 r.head (total - trailer_size))
        (put_le 2 total ++ put_le 2 trailer_magic)

  -- The record goes into a ring with room for it.
  unfoldable pub add_record : Ring → ℕ → Bytes → Bytes → Bytes → Ring
  unfolding put_record
  add_record r total hdr name text = record r {
    buf = put_record r total hdr name text;
    head = add64 r.head total;
    records = (r.records + 1) % 2 ^ 32;
    appended = add64 r.appended 1;
  }

  -- What happens to the ring under the lock.
  unfoldable pub append_ring : LogEntry → ℕ → Ring → Ring
  unfolding evict header add_record stored
  append_ring e seq r =
      let text = stored_or_empty e.text e.text_len text_max in
      let name = stored_or_empty e.module_name e.module_len module_max in
      let total = round_up (hdr_size + length name + length text) + trailer_size in
      add_record (evict (suc r.records) total r) total
        (header e total (length name) (length text) seq) name text

  -- The guard on the arguments.
  unfoldable pub entry_refused : LogEntry → Bool
  entry_refused e =
      leb 2 e.source || ltb 5 e.level || ltb 3 e.kind || (not (is_given e.text) && ltb 0 e.text_len)

  pub data AppendResult : Type 0 where
    append_ok append_eagain append_einval : AppendResult

  -- The store when the lock is released.
  unfoldable pub after_append : LogEntry → ℕ → ℕ → LogState → LogState
  unfolding ring_at with_ring append_ring note_max
  after_append e wait hold t =
      let r = append_ring e t.next_seq (ring_at e.source t) in
      let maxima = record t.timing {
        append_wait_max_us = note_max t.timing.append_wait_max_us wait;
        append_hold_max_us = note_max t.timing.append_hold_max_us hold;
      } in
      record (with_ring e.source r t) { next_seq = add64 t.next_seq 1; timing = maxima }

  -- `log_store_append`: `late_panic` is the second reading of the panic flag, and `wait` and `hold`
  -- are the two times that are measured.
  unfoldable pub log_store_append :
      Option LogEntry → Bool → ℕ → ℕ → LogState → AppendResult × LogState
  unfolding after_append entry_refused
  log_store_append none late_panic wait hold t =
      if t.panicked || not t.initialized then (append_eagain, t) else (append_einval, t)
  log_store_append (some e) late_panic wait hold t =
      if t.panicked || not t.initialized
      then (append_eagain, t)
      else if entry_refused e
      then (append_einval, t)
      else if late_panic
      then (append_eagain, t)
      else (append_ok, after_append e wait hold t)
