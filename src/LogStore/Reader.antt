-- ===== src/LogStore/Reader.antt =====
-- `struct log_store_reader` and `log_store_reader_at`.
pub mod Read
pub mod Tail
pub mod Answers
pub mod Inside
use cedar_switch_3i4o_power.Common.{
  ℕ, ◌/◌, ◌%◌, ◌<◌, ◌≤◌, ◌≡◌, ◌↔◌, ◌⊎◌, Bool, true, ◌&&◌, ◌||◌, ltb, ◌==◌, if◌then◌else◌, arith,
}
use cedar_switch_3i4o_power.LogStore.Types.{LogFilter}
use cedar_switch_3i4o_power.LogStore.Ring.{Ring}
use cedar_switch_3i4o_power.LogStore.State.{LogState}

-- `struct log_store_reader`, with a position for each of the two rings.
pub record LogReader : Type 0 where
  pub filter : LogFilter
  pub pos0 : ℕ
  pub pos1 : ℕ
  pub upper_seq : ℕ
  pub gap : Bool
  pub scanned : ℕ

-- A position that is moved into what the ring holds.
unfoldable pub clamped : Ring → ℕ → ℕ
clamped r p = let q = if ltb p r.tail then r.tail else p in if ltb r.head q then r.head else q

unfoldable pub log_store_reader_at : LogFilter → ℕ → ℕ → LogState → LogReader
unfolding clamped
log_store_reader_at filter pos0 pos1 t = record {
  filter = filter;
  pos0 = clamped t.stm32_ring pos0;
  pos1 = clamped t.esp32_ring pos1;
  upper_seq = 0;
  gap =
      (ltb pos0 t.stm32_ring.tail && (filter.sources % 2 == 1))
      || (ltb pos1 t.esp32_ring.tail && (filter.sources / 2 % 2 == 1));
  scanned = 0;
}

-- `q` lies within the ring, and it is `p` unless `p` lies outside.
pub record StandsFor (r : Ring) (p q : ℕ) : Type 0 where
  pub from_tail : r.tail ≤ q
  pub to_head : q ≤ r.head
  pub kept : (q ≡ p) ⊎ ((p < r.tail) ⊎ (r.head < p))

clamped-StandsFor : (r : Ring) (p : ℕ) → r.tail ≤ r.head → StandsFor r p (clamped r p)
unfolding clamped
clamped-StandsFor r p h = record {
  from_tail = ground arith;
  to_head = ground arith;
  kept = ground arith;
}

-- A reader that is set at two positions stands within both rings (whose tails are not past their
-- heads), at the position itself unless that lay outside, and reports a gap exactly if the position
-- in the ring of a source that its filter selects had been overwritten.
pub log_store_reader_at-StandsFor :
    (filter : LogFilter) (pos0 pos1 : ℕ) (t : LogState)
    → t.stm32_ring.tail ≤ t.stm32_ring.head
    → t.esp32_ring.tail ≤ t.esp32_ring.head
    → let reader = log_store_reader_at filter pos0 pos1 t in
      StandsFor t.stm32_ring pos0 reader.pos0
      × StandsFor t.esp32_ring pos1 reader.pos1
      × (reader.gap ≡ true
          ↔ ((filter.sources % 2 ≡ 1) × (pos0 < t.stm32_ring.tail))
            ⊎ ((filter.sources / 2 % 2 ≡ 1) × (pos1 < t.esp32_ring.tail)))
unfolding log_store_reader_at
log_store_reader_at-StandsFor filter pos0 pos1 t h0 h1 = (
  clamped-StandsFor t.stm32_ring pos0 h0,
  clamped-StandsFor t.esp32_ring pos1 h1,
  (λ g. ground arith, λ lost. ground arith),
)
