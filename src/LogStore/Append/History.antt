-- ===== src/LogStore/Append/History.antt =====
-- What the rings hold after any row of calls of `log_store_append`.
use cedar_switch_3i4o_power.Common.{
  ℕ, zero, suc, ◌+◌, ◌^◌, ◌<◌, ◌≤◌, ◌≡◌, refl, ap, subst, ◌∙◌, Bool, true, false, Option, List, [],
  ◌∷◌, ◌++◌, Bytes, length, length-append, append_nil, ltb, arith, Bool-cases, inl, inr,
}
use cedar_switch_3i4o_power.LogStore.ByteOrder.{ByteOrder}
use cedar_switch_3i4o_power.LogStore.State.{add64}
use cedar_switch_3i4o_power.LogStore.Ring.{Ring, ring_get}
use cedar_switch_3i4o_power.LogStore.Types.{text_max, module_max}
use cedar_switch_3i4o_power.LogStore.Append.{
  LogEntry, record_max, hdr_size, trailer_size, round_up, stored_or_empty, push_out, start_over,
  header, evict, add_record, append_ring,
}
use cedar_switch_3i4o_power.LogStore.Append.Grow.{length-frame}
use cedar_switch_3i4o_power.LogStore.Append.Log.{joined, IsLog, make_room}
use cedar_switch_3i4o_power.LogStore.Append.Refine.{
  joined_end, length-header, frame_of, append_ring-IsLog, length-stored_or_empty,
}

-- A call with the second reading of the panic flag and the two measured times.
pub data AppendCall : Type 0 where
  call : Option LogEntry → Bool → ℕ → ℕ → AppendCall

-- The newest of the records `all` that have room in `size` bytes: the oldest are left out, until the
-- rest fits.
abbrev pub newest : ℕ → List Bytes → List Bytes
newest size all = make_room size 0 all

make_room_all :
    (size total : ℕ) (recs : List Bytes)
    → length (joined recs) + total ≤ size
    → make_room size total recs ≡ recs
unfolding make_room
make_room_all size total [] h = refl
make_room_all size total (g ∷ gs) h =
    let fine : ltb size (length (joined (g ∷ gs)) + total) ≡ false = ground arith in rw fine refl

-- Room is made for one record after the other, or for all of them at once.
newest-append :
    (size : ℕ) (f : Bytes) (all : List Bytes)
    → length f ≤ size
    → make_room size (length f) (newest size all) ++ (f ∷ []) ≡ newest size (all ++ (f ∷ []))
unfolding make_room
newest-append size f [] fits =
    let one : length (joined (f ∷ [])) ≡ length f = unfold joined in ap length (append_nil f) in
    let fine : ltb size (length (joined (f ∷ [])) + 0) ≡ false = ground arith in rw fine refl
newest-append size f (g ∷ gs) fits =
    let used = length (joined (g ∷ gs)) in
    let whole : length (joined (g ∷ (gs ++ (f ∷ [])))) ≡ used + length f = longer in
    let later = newest-append size f gs fits in
    elim (Bool-cases (ltb size (used + 0))) [
      | inl over ↦
          let too : ltb size (length (joined (g ∷ (gs ++ (f ∷ [])))) + 0) ≡ true = ground arith in
          rw (over, too) later
      | inr room ↦ elim (Bool-cases (ltb size (used + length f))) [
        | inl over ↦
            let too : ltb size (length (joined (g ∷ (gs ++ (f ∷ [])))) + 0) ≡ true = ground arith in
            let rest : newest size gs ≡ gs = make_room_all size 0 gs (ground (arith, tail_fits)) in
            rw (room, over, too) (rw rest at later)
        | inr fine ↦
            let too : ltb size (length (joined (g ∷ (gs ++ (f ∷ [])))) + 0) ≡ false =
              ground arith in
            rw (room, fine, too) refl
      ]
    ]
  where
    tail_fits : length (joined gs) ≤ length (joined (g ∷ gs))
    tail_fits = unfold joined in omega (arith, length-append g (joined gs))

    longer : length (joined (g ∷ (gs ++ (f ∷ [])))) ≡ length (joined (g ∷ gs)) + length f
    longer = ap length (joined_end (g ∷ gs) f) ∙ length-append (joined (g ∷ gs)) f

module _ (order : ByteOrder) where
  -- The ring has `size` bytes and consists of the newest of the records `all` that have room in it,
  -- all of which it has counted, and its head is at most `bound`.
  pub record Latest (r : Ring) (size : ℕ) (all : List Bytes) (bound : ℕ) : Type 0 where
    pub same_size : r.size ≡ size
    pub is_log : IsLog order r (newest size all)
    pub counted_all : r.appended ≡ length all
    pub few : length all ≤ bound
    pub head_bound : r.head ≤ bound

  evict-head : (fuel total : ℕ) (r : Ring) → (evict order fuel total r).head ≡ r.head
  unfolding evict push_out start_over
  evict-head zero total r = refl
  evict-head (suc fuel) total r =
      let len = order.get_le (ring_get r.buf r.size r.tail 2) in
      let rest = evict-head fuel total (push_out order r len) in ground arith

  evict-size : (fuel total : ℕ) (r : Ring) → (evict order fuel total r).size ≡ r.size
  unfolding evict push_out start_over
  evict-size zero total r = refl
  evict-size (suc fuel) total r =
      let len = order.get_le (ring_get r.buf r.size r.tail 2) in
      let rest = evict-size fuel total (push_out order r len) in ground arith

  evict-appended : (fuel total : ℕ) (r : Ring) → (evict order fuel total r).appended ≡ r.appended
  unfolding evict push_out start_over
  evict-appended zero total r = refl
  evict-appended (suc fuel) total r =
      let len = order.get_le (ring_get r.buf r.size r.tail 2) in
      let rest = evict-appended fuel total (push_out order r len) in ground arith

  append_ring-size : (e : LogEntry) (seq : ℕ) (r : Ring) → (append_ring order e seq r).size ≡ r.size
  unfolding append_ring add_record
  append_ring-size e seq r = evict-size (suc r.records) _ r

  append_ring-appended :
      (e : LogEntry) (seq : ℕ) (r : Ring)
      → (append_ring order e seq r).appended ≡ add64 r.appended 1
  unfolding append_ring add_record
  append_ring-appended e seq r = ap (λ (n : ℕ). add64 n 1) (evict-appended (suc r.records) _ r)

  length-frame_of : (e : LogEntry) (seq : ℕ) → length (frame_of order e seq) ≤ record_max
  unfolding frame_of
  length-frame_of e seq =
      let text = stored_or_empty e.text e.text_len text_max in
      let name = stored_or_empty e.module_name e.module_len module_max in
      let total = round_up (hdr_size + length name + length text) + trailer_size in
      omega (
        arith,
        length-stored_or_empty e.text e.text_len text_max,
        length-stored_or_empty e.module_name e.module_len module_max,
        length-frame order total (header order e total (length name) (length text) seq) name text
            (length-header order e total (length name) (length text) seq) (omega arith),
      )

  append_ring-head :
      (e : LogEntry) (seq : ℕ) (r : Ring) → (append_ring order e seq r).head ≤ r.head + record_max
  unfolding append_ring add_record
  append_ring-head e seq r =
      let text = stored_or_empty e.text e.text_len text_max in
      let name = stored_or_empty e.module_name e.module_len module_max in
      let total = round_up (hdr_size + length name + length text) + trailer_size in
      omega (
        arith,
        length-stored_or_empty e.text e.text_len text_max,
        length-stored_or_empty e.module_name e.module_len module_max,
        evict-head (suc r.records) total r,
      )

  pub append_ring-Latest :
      (e : LogEntry) (seq : ℕ) (r : Ring) (size : ℕ) (all : List Bytes) (bound : ℕ)
      → bound + record_max < 2 ^ 64
      → Latest r size all bound
      → Latest
          (append_ring order e seq r)
          size
          (all ++ (frame_of order e seq ∷ []))
          (bound + record_max)
  append_ring-Latest e seq r size all bound below h =
      let f = frame_of order e seq in
      let fits : length f ≤ size =
        omega (arith, length-frame_of e seq, h.is_log.room, h.same_size) in
      let kept : make_room r.size (length f) (newest size all) ++ (f ∷ [])
          ≡ newest size (all ++ (f ∷ [])) =
        ap (λ (n : ℕ). make_room n (length f) (newest size all) ++ (f ∷ [])) h.same_size
        ∙ newest-append size f all fits in
      record {
        same_size = append_ring-size e seq r ∙ h.same_size;
        is_log =
            subst (λ (recs : List Bytes). IsLog order (append_ring order e seq r) recs) kept
              (append_ring-IsLog order e seq r (newest size all) (omega (arith, h.head_bound))
                h.is_log);
        counted_all =
            omega (
              arith,
              append_ring-appended e seq r,
              h.counted_all,
              h.few,
              length-append all (f ∷ []),
            );
        few = omega (arith, length-append all (f ∷ []), h.few);
        head_bound = omega (arith, append_ring-head e seq r, h.head_bound);
      }
