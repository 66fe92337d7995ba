-- ===== src/LogStore/State.antt =====
-- The state of log_store.c: the two rings, the sequence counter, the flags, the loss counters and the
-- timing, with the operations on them that neither append nor read. A call under the mutex is one
-- step. A source outside the enumeration is a number from 2 on.
use cedar_switch_3i4o_power.Common.{
  ℕ, zero, suc, ◌+◌, ◌-◌, ◌/◌, ◌%◌, ◌^◌, Bool, true, false, ◌||◌, List, [], ◌∷◌, ltb, leb, ◌==◌,
  if◌then◌else◌, get_or, set,
}
use cedar_switch_3i4o_power.LogStore.Ring.{Ring}

-- `struct log_store_timing`
pub record LogTiming : Type 0 where
  pub append_hold_max_us : ℕ
  pub append_wait_max_us : ℕ
  pub read_hold_max_us : ℕ

-- `losses` has a row for each source and in it a counter for each kind of loss.
pub record LogState : Type 0 where
  pub stm32_ring : Ring
  pub esp32_ring : Ring
  pub next_seq : ℕ
  pub timing : LogTiming
  pub initialized : Bool
  pub panicked : Bool
  pub losses : List (List ℕ)

-- `rings[source]`
unfoldable pub ring_at : ℕ → LogState → Ring
ring_at zero t = t.stm32_ring
ring_at (suc _) t = t.esp32_ring

unfoldable pub with_ring : ℕ → Ring → LogState → LogState
with_ring zero r t = record t { stm32_ring = r }
with_ring (suc _) r t = record t { esp32_ring = r }

-- Sums and differences of a `uint64_t`.
abbrev pub add64 : ℕ → ℕ → ℕ
add64 a b = (a + b) % 2 ^ 64

abbrev pub sub64 : ℕ → ℕ → ℕ
sub64 a b = (a + (2 ^ 64 - b)) % 2 ^ 64

-- `note_max`
unfoldable pub note_max : ℕ → ℕ → ℕ
note_max old value = if ltb old value then value else old

unfoldable pub empty_ring : Ring → Ring
empty_ring r = record r { head = 0; tail = 0; records = 0; appended = 0; overwritten = 0 }

-- `log_store_init`
unfoldable pub log_store_init : LogState → LogState
unfolding empty_ring
log_store_init t = record {
  stm32_ring = empty_ring t.stm32_ring;
  esp32_ring = empty_ring t.esp32_ring;
  next_seq = 1;
  timing = record { append_hold_max_us = 0; append_wait_max_us = 0; read_hold_max_us = 0 };
  initialized = true;
  panicked = false;
  losses = (0 ∷ 0 ∷ []) ∷ (0 ∷ 0 ∷ []) ∷ [];
}

-- `log_store_panic`
unfoldable pub log_store_panic : LogState → LogState
log_store_panic t = record t { panicked = true }

-- `log_store_count_loss`
unfoldable pub log_store_count_loss : ℕ → ℕ → ℕ → LogState → LogState
log_store_count_loss source loss n t =
    if leb 2 source || leb 2 loss
    then t
    else let row = get_or t.losses source [] in
      record t { losses = set t.losses source (set row loss (add64 (get_or row loss 0) n)) }

-- `log_store_dropped`: the loop over the sources in the mask.
abbrev pub row_sum : List ℕ → ℕ
row_sum row = add64 (get_or row 0 0) (get_or row 1 0)

unfoldable pub log_store_dropped : ℕ → LogState → ℕ
log_store_dropped sources t =
    add64 (if sources % 2 == 1 then row_sum (get_or t.losses 0 []) else 0)
      (if sources / 2 % 2 == 1 then row_sum (get_or t.losses 1 []) else 0)

-- `struct log_store_stats`
pub record LogStats : Type 0 where
  pub appended : ℕ
  pub overwritten : ℕ
  pub lost : List ℕ
  pub used_bytes : ℕ
  pub capacity_bytes : ℕ
  pub records : ℕ

-- `log_store_get_stats`
unfoldable pub log_store_get_stats : ℕ → LogState → LogStats
unfolding ring_at
log_store_get_stats source t =
    if leb 2 source
    then record {
      appended = 0;
      overwritten = 0;
      lost = 0 ∷ 0 ∷ [];
      used_bytes = 0;
      capacity_bytes = 0;
      records = 0;
    }
    else let r = ring_at source t in
      record {
        appended = r.appended;
        overwritten = r.overwritten;
        lost = get_or t.losses source [];
        used_bytes = sub64 r.head r.tail % 2 ^ 32;
        capacity_bytes = r.size;
        records = r.records;
      }
