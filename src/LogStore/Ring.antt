-- ===== src/LogStore/Ring.antt =====
-- The byte rings of log_store.c: `struct ring`, `ring_put` and `ring_get`. The size is a power of two
-- (the file asserts it), so `abs & (size - 1)` is `abs % size`.
pub mod Positions
pub mod Window
use cedar_switch_3i4o_power.Common.{
  write, ℕ, zero, suc, ◌+◌, ◌-◌, ◌%◌, ◌^◌, min, List, [], ◌∷◌, ◌++◌, Bytes, length, take, drop, ltb,
  if◌then◌else◌,
}

-- `struct ring`
pub record Ring : Type 0 where
  pub buf : Bytes
  pub size : ℕ
  pub head : ℕ
  pub tail : ℕ
  pub records : ℕ
  pub appended : ℕ
  pub overwritten : ℕ

-- `ring_put` on the buffer of a ring of `size` bytes
unfoldable pub ring_put : Bytes → ℕ → ℕ → Bytes → Bytes
unfolding write
ring_put buf size abs src =
    let off = abs % size in
    let first = min (length src) (size - off) in
    let once = write buf off (take first src) in
    if ltb first (length src) then write once 0 (drop first src) else once

-- `ring_get`
unfoldable pub ring_get : Bytes → ℕ → ℕ → ℕ → Bytes
ring_get buf size abs n =
    let off = abs % size in
    let first = min n (size - off) in
    let start = take first (drop off buf) in
    if ltb first n then start ++ take (n - first) buf else start
