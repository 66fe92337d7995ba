-- ===== src/LogStore/Record.antt =====
-- Reading a record out of a ring: `copy_record`.
pub mod ReadBack
use cedar_switch_3i4o_power.Common.{
  ℕ, ◌+◌, ◌*◌, ◌/◌, ◌%◌, ◌^◌, min, Bytes, get_or, take, drop, ◌==◌,
}
use cedar_switch_3i4o_power.LogStore.ByteOrder.{ByteOrder}
use cedar_switch_3i4o_power.LogStore.Types.{LogRecord, text_max, module_max}
use cedar_switch_3i4o_power.LogStore.Ring.{Ring, ring_get}
use cedar_switch_3i4o_power.LogStore.State.{add64}
use cedar_switch_3i4o_power.LogStore.Append.{hdr_size}

-- `copy_record`, with the header that the caller has read at `pos`.
unfoldable pub copy_record : ByteOrder → Ring → ℕ → Bytes → LogRecord
copy_record order r pos hdr =
    let flags = get_or hdr 3 0 in
    let mlen = min (get_or hdr 4 0) module_max in
    let tlen = min (order.get_le (take 2 (drop 6 hdr))) text_max in
    record {
      source = get_or hdr 5 0;
      level = get_or hdr 2 0;
      kind = flags % 8;
      truncated = flags / 2 ^ 7 % 2 == 1;
      has_module = flags / 2 ^ 6 % 2 == 1;
      generation = order.get_le (take 4 (drop 8 hdr));
      seq = order.get_le (take 8 (drop 12 hdr));
      uptime_ms = order.get_le (take 8 (drop 20 hdr));
      module_name = ring_get r.buf r.size (add64 pos hdr_size) mlen;
      text = ring_get r.buf r.size (add64 (add64 pos hdr_size) mlen) tlen;
    }
