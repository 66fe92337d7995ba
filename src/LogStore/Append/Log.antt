-- ===== src/LogStore/Append/Log.antt =====
-- A ring as the list of its records, the oldest first.
use cedar_switch_3i4o_power.Common.{
  ℕ, ◌+◌, ◌-◌, ◌%◌, ◌^◌, ◌<◌, ◌≤◌, ◌≡◌, refl, sym, ap, ◌∙◌, true, List, [], ◌∷◌, ◌++◌, Bytes, All,
  length, length-append, take, drop, take-append, drop-append, ltb, if◌then◌else◌, arith,
  Bool-cases, inl, inr,
}
use cedar_switch_3i4o_power.LogStore.ByteOrder.{ByteOrder}
use cedar_switch_3i4o_power.LogStore.Ring.{Ring, ring_get}
use cedar_switch_3i4o_power.LogStore.Ring.Window.{
  window, window-add, length-window, ring_get-window,
}
use cedar_switch_3i4o_power.LogStore.State.{add64}
use cedar_switch_3i4o_power.LogStore.Append.{record_max, length_sane, push_out}

-- All bytes of the records, in their order.
unfoldable pub joined : List Bytes → Bytes
joined [] = []
joined (f ∷ fs) = f ++ joined fs

-- A record begins with its length, which is one that a record can have.
pub record IsFrame (order : ByteOrder) (f : Bytes) : Type 0 where
  pub sane : length_sane (length f) ≡ true
  pub length_first : order.get_le (take 2 f) ≡ length f

-- The ring consists of the records `recs`: they fill it from the tail to the head, and the counters
-- agree.
pub record IsLog (order : ByteOrder) (r : Ring) (recs : List Bytes) : Type 0 where
  pub whole : length r.buf ≡ r.size
  pub room : record_max ≤ r.size
  pub sized : r.size < 2 ^ 32
  pub head_is : r.head ≡ r.tail + length (joined recs)
  pub within : length (joined recs) ≤ r.size
  pub held : window r.buf r.size r.tail (length (joined recs)) ≡ joined recs
  pub counted : r.records ≡ length recs
  pub accounted : (r.overwritten + r.records) % 2 ^ 64 ≡ r.appended
  pub framed : All (IsFrame order) recs

-- The records that are left when the oldest are dropped until `total` more bytes fit.
unfoldable pub make_room : ℕ → ℕ → List Bytes → List Bytes
unfolding joined
make_room size total [] = []
make_room size total (f ∷ fs) =
    let rest = make_room size total fs in
    if ltb size (length (joined (f ∷ fs)) + total) then rest else f ∷ fs

pub make_room-fits :
    (size total : ℕ) (recs : List Bytes)
    → total ≤ size
    → length (joined (make_room size total recs)) + total ≤ size
unfolding make_room
make_room-fits size total [] h = unfold joined in omega arith
make_room-fits size total (f ∷ fs) h =
    elim (Bool-cases (ltb size (length (joined (f ∷ fs)) + total))) [
      | inl over ↦ rw over (make_room-fits size total fs h)
      | inr fine ↦ rw fine (ground arith)
    ]

-- A window that shows two rows of bytes shows each where it stands.
pub window-split :
    (buf : Bytes) (size p : ℕ) (xs ys : Bytes)
    → window buf size p (length (xs ++ ys)) ≡ xs ++ ys
    → (window buf size p (length xs) ≡ xs) × (window buf size (p + length xs) (length ys) ≡ ys)
window-split buf size p xs ys h =
    let first = window buf size p (length xs) in
    let second = window buf size (p + length xs) (length ys) in
    let both : first ++ second ≡ xs ++ ys =
      sym (window-add buf size p (length xs) (length ys) (length (xs ++ ys)) (length-append xs ys))
      ∙ h in
    let sized = length-window buf size p (length xs) in
    (
      sym (take-append (length xs) first second sized)
          ∙ ap (take (length xs)) both
          ∙ take-append (length xs) xs ys refl,
      sym (drop-append (length xs) first second sized)
          ∙ ap (drop (length xs)) both
          ∙ drop-append (length xs) xs ys refl,
    )

module _ (order : ByteOrder) where
  open order use {get_le}

  sane_bounds : (f : Bytes) → IsFrame order f → (32 ≤ length f) × (length f ≤ 608)
  sane_bounds f h = let s = h.sane in (ground arith, ground arith)

  -- The length that the code reads at the tail is that of the oldest record.
  pub oldest_length :
      (r : Ring) (f : Bytes) (fs : List Bytes)
      → IsLog order r (f ∷ fs)
      → get_le (ring_get r.buf r.size r.tail 2) ≡ length f
  unfolding joined
  oldest_length r f fs h =
      let (low, high) = sane_bounds f h.framed.0 in
      let first = (window-split r.buf r.size r.tail f (joined fs) h.held).0 in
      let cut : window r.buf r.size r.tail 2 ≡ take 2 f =
        sym (
          take-append 2 (window r.buf r.size r.tail 2)
            (window r.buf r.size (r.tail + 2) (length f - 2)) (length-window r.buf r.size r.tail 2))
        ∙ ap (take 2) (
            sym (window-add r.buf r.size r.tail 2 (length f - 2) (length f) (omega arith))
            ∙ first) in
      ap get_le (
        ring_get-window r.buf r.size r.tail 2 h.whole (omega (arith, h.room))
          (omega (arith, h.room))
        ∙ cut)
      ∙ h.framed.0.length_first

  pub records_fit :
      (recs : List Bytes) → All (IsFrame order) recs → length recs ≤ length (joined recs)
  unfolding joined
  records_fit [] h = omega arith
  records_fit (f ∷ fs) h =
      omega (arith, length-append f (joined fs), records_fit fs h.1, (sane_bounds f h.0).0)

  pub push_out-IsLog :
      (r : Ring) (f : Bytes) (fs : List Bytes)
      → r.head < 2 ^ 64
      → IsLog order r (f ∷ fs)
      → IsLog order (push_out order r (length f)) fs
  unfolding joined push_out
  push_out-IsLog r f fs below h =
      let both = length-append f (joined fs) in
      let at : add64 r.tail (length f) ≡ r.tail + length f = omega (arith, h.head_is, both) in
      let few = records_fit (f ∷ fs) h.framed in
      record {
        whole = h.whole;
        room = h.room;
        sized = h.sized;
        head_is = omega (arith, h.head_is, both, at);
        within = omega (arith, h.within, both);
        held =
            ap (λ (q : ℕ). window r.buf r.size q (length (joined fs))) at
            ∙ (window-split r.buf r.size r.tail f (joined fs) h.held).1;
        counted = omega (arith, h.counted, few, h.within, h.sized);
        accounted = omega (arith, h.accounted, h.counted, few, h.within, h.sized);
        framed = h.framed.1;
      }
