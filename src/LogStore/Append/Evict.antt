-- ===== src/LogStore/Append/Evict.antt =====
-- The loop that pushes out the oldest records until the new one fits.
use cedar_switch_3i4o_power.Common.{
  ℕ, zero, suc, ◌+◌, ◌^◌, ◌<◌, ◌≤◌, ◌≡◌, refl, false, List, [], ◌∷◌, Bytes, length, ltb, arith,
  Bool-cases, inl, inr,
}
use cedar_switch_3i4o_power.LogStore.ByteOrder.{ByteOrder}
use cedar_switch_3i4o_power.LogStore.Ring.{Ring}
use cedar_switch_3i4o_power.LogStore.State.{add64, sub64}
use cedar_switch_3i4o_power.LogStore.Append.{push_out, evict}
use cedar_switch_3i4o_power.LogStore.Append.Log.{
  joined, IsLog, make_room, oldest_length, push_out-IsLog,
}

-- What the loop leaves of a ring.
pub record Evicted (order : ByteOrder) (r out : Ring) (left : List Bytes) : Type 0 where
  pub is_log : IsLog order out left
  pub same_size : out.size ≡ r.size
  pub same_head : out.head ≡ r.head
  pub same_appended : out.appended ≡ r.appended

-- The loop's condition, when the ring's bytes are `used`.
needed_is :
    (head tail total used : ℕ)
    → head ≡ tail + used
    → head + total < 2 ^ 64
    → sub64 (add64 head total) tail ≡ used + total
needed_is head tail total used h below = omega arith

module _ (order : ByteOrder) where
  open order use {get_le}

  -- With a round for each record and one more, the loop leaves the newest records that fit beside
  -- `total` more bytes.
  pub evict-Evicted :
      (fuel total : ℕ) (recs : List Bytes) (r : Ring)
      → length recs < fuel
      → total ≤ r.size
      → r.head + total < 2 ^ 64
      → IsLog order r recs
      → Evicted order r (evict order fuel total r) (make_room r.size total recs)
  unfolding evict make_room
  evict-Evicted zero total recs r enough fits below h = absurd (omega arith)
  evict-Evicted (suc fuel) total [] r enough fits below h =
      let fine : ltb r.size (sub64 (add64 r.head total) r.tail) ≡ false =
        let at = needed_is r.head r.tail total 0 (unfold joined in h.head_is) below in
        ground arith in
      rw fine (record { is_log = h; same_size = refl; same_head = refl; same_appended = refl })
  evict-Evicted (suc fuel) total (f ∷ fs) r enough fits below h =
      let needed = needed_is r.head r.tail total (length (joined (f ∷ fs))) h.head_is below in
      rw (needed, oldest_length order r f fs h, h.framed.0.sane)
        (elim (Bool-cases (ltb r.size (length (joined (f ∷ fs)) + total))) [
          | inl over ↦
              let rest =
                evict-Evicted fuel total fs (push_out order r (length f)) (omega arith)
                  (unfold push_out in fits) (unfold push_out in below)
                  (push_out-IsLog order r f fs (omega arith) h) in
              rw over (record {
                is_log = unfold push_out in rest.is_log;
                same_size = unfold push_out in rest.same_size;
                same_head = unfold push_out in rest.same_head;
                same_appended = unfold push_out in rest.same_appended;
              })
          | inr fine ↦
              rw fine
                (record { is_log = h; same_size = refl; same_head = refl; same_appended = refl })
        ])
