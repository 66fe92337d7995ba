-- ===== src/LogStore/Cursor.antt =====
-- Cursors: `log_store_cursor_encode` and `log_store_cursor_decode`, with the digest of a filter, the
-- tag of a boot and the checksum that they carry.
pub mod RoundTrip
pub mod Accepted
use Prim.Native.Nat.{bit_xor}
use cedar_switch_3i4o_power.Common.{
  ℕ, zero, suc, ◌+◌, ◌*◌, ◌%◌, ◌^◌, ◌<◌, ◌≤◌, ◌≡◌, Bool, true, false, ◌&&◌, ◌||◌, not, Option, none,
  some, List, [], ◌∷◌, ◌++◌, Bytes, codes, length, get_or, take, drop, ltb, ◌==◌, if◌then◌else◌,
}
use cedar_switch_3i4o_power.LogStore.ByteOrder.{ByteOrder}
use cedar_switch_3i4o_power.LogStore.Base64.{encode, decode}
use cedar_switch_3i4o_power.LogStore.Types.{LogFilter, level_index, module_max, contains_max}

abbrev pub fnv32_init : ℕ
fnv32_init = 0x811C9DC5

abbrev pub fnv32_prime : ℕ
fnv32_prime = 0x01000193

-- `fnv1a` on a `uint32_t`
unfoldable pub fnv1a : ℕ → Bytes → ℕ
fnv1a h [] = h
fnv1a h (b ∷ bs) = fnv1a (bit_xor h b * fnv32_prime % 2 ^ 32) bs

-- `log_store_boot_tag`
unfoldable pub log_store_boot_tag : Option Bytes → ℕ
unfolding fnv1a
log_store_boot_tag none = 0
log_store_boot_tag (some boot_id) = fnv1a fnv32_init boot_id

-- `bounded_len`
abbrev pub bounded : ℕ → Bytes → Bytes
bounded = take

-- `cursor_check`, over all of the raw cursor but its last four bytes.
unfoldable pub cursor_check : Bytes → ℕ
unfolding fnv1a
cursor_check raw = fnv1a (fnv1a fnv32_init (codes "cedar-log-cursor")) raw

abbrev pub cursor_version : ℕ
cursor_version = 1

abbrev pub cursor_raw_len : ℕ
cursor_raw_len = 29

abbrev pub cursor_text_len : ℕ
cursor_text_len = 39

-- What `log_store_cursor_decode` returns: 0 with both positions, -EINVAL or -ESTALE.
pub data Decoded : Type 0 where
  positions : ℕ → ℕ → Decoded
  einval estale : Decoded

-- `n` bytes of a buffer from `offset` on.
abbrev pub slice : ℕ → ℕ → Bytes → Bytes
slice offset n raw = take n (drop offset raw)

-- Hashing a part of the filter, if it is there: its length, then its bytes.
unfoldable pub mix : Bool → Bytes → Bytes → ℕ → ℕ
unfolding fnv1a
mix present size part h = if present then fnv1a (fnv1a h size) part else h

module _ (order : ByteOrder) where
  open order use {put_le, get_le}

  -- `filter_digest`: the parts of the filter that a cursor is bound to.
  unfoldable pub filter_digest : LogFilter → ℕ
  unfolding mix
  filter_digest f =
      let flags = (if f.has_module then 1 else 0) + (if f.has_contains then 2 else 0) in
      let h = fnv1a fnv32_init ((f.sources % 4) ∷ level_index f.min_level ∷ flags ∷ []) in
      let name = bounded module_max f.module_name in
      let wanted = bounded contains_max f.contains in
      mix f.has_contains (put_le 2 (length wanted % 2 ^ 16)) wanted
        (mix f.has_module ((length name % 256) ∷ []) name h)

  -- The raw cursor without its checksum.
  unfoldable pub raw_body : ℕ → ℕ → ℕ → ℕ → Bytes
  raw_body tag digest pos0 pos1 =
      cursor_version ∷ (put_le 4 tag ++ (put_le 4 digest ++ (put_le 8 pos0 ++ put_le 8 pos1)))

  unfoldable pub raw_cursor : Bytes → Bytes
  unfolding cursor_check
  raw_cursor body = body ++ put_le 4 (cursor_check body)

  -- `log_store_cursor_encode`: `none` is -ENOSPC.
  unfoldable pub log_store_cursor_encode : LogFilter → ℕ → ℕ → ℕ → ℕ → Option Bytes
  log_store_cursor_encode filter pos0 pos1 boot_tag cap =
      if ltb cap (cursor_text_len + 1)
      then none
      else some (encode (raw_cursor (raw_body boot_tag (filter_digest filter) pos0 pos1)))

  -- A position that no reader of this device can stand at.
  abbrev pub position_refused : ℕ → ℕ → Bool
  position_refused p head = not (p % 4 == 0) || ltb head p

  -- The checks on the raw cursor, in the code's order; `head0` and `head1` are the rings' heads.
  unfoldable pub check_raw : ℕ → LogFilter → ℕ → ℕ → Bytes → Decoded
  check_raw boot_tag filter head0 head1 raw =
      if not (length raw == cursor_raw_len)
      then einval
      else if not (get_or raw 0 0 == cursor_version)
      then einval
      else if not (get_le (slice 25 4 raw) == cursor_check (take 25 raw))
      then einval
      else if not (get_le (slice 5 4 raw) == filter_digest filter)
      then einval
      else if not (get_le (slice 1 4 raw) == boot_tag)
      then estale
      else if position_refused (get_le (slice 9 8 raw)) head0
      then einval
      else if position_refused (get_le (slice 17 8 raw)) head1
      then einval
      else positions (get_le (slice 9 8 raw)) (get_le (slice 17 8 raw))

  -- `log_store_cursor_decode`: `none` is a NULL cursor.
  unfoldable pub log_store_cursor_decode : Option Bytes → ℕ → LogFilter → ℕ → ℕ → Decoded
  log_store_cursor_decode none boot_tag filter head0 head1 = einval
  log_store_cursor_decode (some cursor) boot_tag filter head0 head1 =
      if not (length cursor == cursor_text_len) then einval else elim (decode cursor) [
        | none ↦ einval
        | some raw ↦ check_raw boot_tag filter head0 head1 raw
      ]
