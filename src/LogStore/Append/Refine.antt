-- ===== src/LogStore/Append/Refine.antt =====
-- Appending to a ring is appending to the list of its records.
use cedar_switch_3i4o_power.Common.{
  ℕ, zero, suc, ◌+◌, ◌%◌, ◌^◌, ◌<◌, ◌≤◌, ◌≡◌, ap, ◌∙◌, min, Option, none, some, List, [], ◌∷◌, ◌++◌,
  Bytes, All-append, length, length-append, append_nil, length-take, take, take-append, ltb, arith,
  Bool-cases, inl, inr,
}
use mathlib.Core.List.{append_assoc}
use cedar_switch_3i4o_power.LogStore.ByteOrder.{ByteOrder}
use cedar_switch_3i4o_power.LogStore.Ring.{Ring}
use cedar_switch_3i4o_power.LogStore.Types.{text_max, module_max}
use cedar_switch_3i4o_power.LogStore.Append.{
  LogEntry, record_max, hdr_size, trailer_size, round_up, cut_back, log_store_utf8_cut, stored,
  stored_or_empty, header, add_record, append_ring, evict,
}
use cedar_switch_3i4o_power.LogStore.Append.Log.{
  joined, IsFrame, IsLog, make_room, make_room-fits, records_fit,
}
use cedar_switch_3i4o_power.LogStore.Append.Evict.{evict-Evicted}
use cedar_switch_3i4o_power.LogStore.Append.Grow.{frame, length-frame, Holds-put_record}

cut_back-le : (text : Bytes) (n left back : ℕ) → cut_back text n left back ≤ n
unfolding cut_back
cut_back-le text n zero back = omega arith
cut_back-le text n (suc left) back = let later = cut_back-le text n left (back + 1) in ground arith

-- No more than `cap` bytes of a string are stored.
pub length-stored : (text : Bytes) (len cap : ℕ) → length (stored text len cap) ≤ cap
unfolding stored log_store_utf8_cut
length-stored text len cap = elim (Bool-cases (ltb cap len)) [
  | inl long ↦ rw long (
      omega (
        arith,
        length-take (cut_back text (min len cap) 4 1) text,
        cut_back-le text (min len cap) 4 1,
      ))
  | inr short ↦
      let fine : len ≤ cap = ground arith in rw short (omega (arith, length-take len text))
]

pub length-stored_or_empty :
    (given : Option Bytes) (len cap : ℕ) → length (stored_or_empty given len cap) ≤ cap
unfolding stored_or_empty
length-stored_or_empty none len cap = omega arith
length-stored_or_empty (some text) len cap = length-stored text len cap

pub joined_end : (recs : List Bytes) (f : Bytes) → joined (recs ++ (f ∷ [])) ≡ joined recs ++ f
unfolding joined
joined_end [] f = append_nil f
joined_end (g ∷ recs) f = ap (λ (bs : Bytes). g ++ bs) (joined_end recs f) ∙ simp append_assoc

take_front : (n : ℕ) (xs ys zs : Bytes) → length xs ≡ n → take n ((xs ++ ys) ++ zs) ≡ xs
take_front n xs ys zs h =
    let flat : (xs ++ ys) ++ zs ≡ xs ++ (ys ++ zs) = simp append_assoc in
    ap (take n) flat ∙ take-append n xs (ys ++ zs) h

module _ (order : ByteOrder) where
  open order use {put_le, get_le, length-put_le, get_le-put_le}

  -- The whole record of an entry with a sequence number.
  unfoldable pub frame_of : LogEntry → ℕ → Bytes
  unfolding frame header
  frame_of e seq =
      let text = stored_or_empty e.text e.text_len text_max in
      let name = stored_or_empty e.module_name e.module_len module_max in
      let total = round_up (hdr_size + length name + length text) + trailer_size in
      frame order total (header order e total (length name) (length text) seq) name text

  pub length-header :
      (e : LogEntry) (total mlen tlen seq : ℕ)
      → length (header order e total mlen tlen seq) ≡ hdr_size
  unfolding header
  length-header e total mlen tlen seq =
      let late = put_le 8 seq ++ put_le 8 e.uptime_ms in
      let mid = put_le 4 e.generation ++ late in
      let low = put_le 2 tlen ++ mid in
      omega (
        arith,
        length-append (put_le 2 total) _,
        length-append (put_le 2 tlen) mid,
        length-append (put_le 4 e.generation) late,
        length-append (put_le 8 seq) (put_le 8 e.uptime_ms),
        length-put_le 2 total,
        length-put_le 2 tlen,
        length-put_le 4 e.generation,
        length-put_le 8 seq,
        length-put_le 8 e.uptime_ms,
      )

  frame-IsFrame :
      (e : LogEntry) (total mlen tlen seq : ℕ) (name text : Bytes)
      → hdr_size + length name + length text + trailer_size ≤ total
      → total ≤ record_max
      → total % 4 ≡ 0
      → IsFrame order (frame order total (header order e total mlen tlen seq) name text)
  unfolding frame header
  frame-IsFrame e total mlen tlen seq name text fits small aligned =
      let size =
        length-frame order total (header order e total mlen tlen seq) name text
          (length-header e total mlen tlen seq) fits in
      record {
        sane = rw size (ground arith);
        length_first = rw size (
            ap get_le (take_front 2 (put_le 2 total) _ _ (length-put_le 2 total))
            ∙ get_le-put_le 2 total (omega arith));
      }

  add_record-IsLog :
      (r : Ring) (recs : List Bytes) (total : ℕ) (hdr name text : Bytes)
      → length hdr ≡ hdr_size
      → hdr_size + length name + length text + trailer_size ≤ total
      → length (joined recs) + total ≤ r.size
      → r.head + total < 2 ^ 64
      → IsFrame order (frame order total hdr name text)
      → IsLog order r recs
      → IsLog order
          (add_record order r total hdr name text)
          (recs ++ (frame order total hdr name text ∷ []))
  unfolding add_record
  add_record-IsLog r recs total hdr name text sized fits room below framed h =
      let f = frame order total hdr name text in
      let end = joined_end recs f in
      let f_len = length-frame order total hdr name text sized fits in
      let longer : length (joined (recs ++ (f ∷ []))) ≡ length (joined recs) + total =
        ap length end
        ∙ length-append (joined recs) f
        ∙ ap (λ (n : ℕ). length (joined recs) + n) f_len in
      let few = records_fit order recs h.framed in
      let more = length-append recs (f ∷ []) in
      let out =
        Holds-put_record order r total (joined recs) hdr name text sized fits room h.head_is below
          (record { whole = h.whole; held = h.held }) in
      record {
        whole = out.whole;
        room = h.room;
        sized = h.sized;
        head_is = omega (arith, h.head_is, longer);
        within = omega (arith, longer);
        held = rw end out.held;
        counted = omega (arith, h.counted, more, few, h.within, h.sized);
        accounted = omega (arith, h.accounted, h.counted, few, h.within, h.sized);
        framed = All-append (IsFrame order) recs (f ∷ []) h.framed (framed, tt);
      }

  -- A ring that consists of the records `recs` consists after an append of the newest of them that
  -- fit beside the new record, and then of the new record; and the counters agree.
  pub append_ring-IsLog :
      (e : LogEntry) (seq : ℕ) (r : Ring) (recs : List Bytes)
      → r.head + record_max < 2 ^ 64
      → IsLog order r recs
      → IsLog order
          (append_ring order e seq r)
          (make_room r.size (length (frame_of e seq)) recs ++ (frame_of e seq ∷ []))
  unfolding append_ring frame_of
  append_ring-IsLog e seq r recs below h =
      let text = stored_or_empty e.text e.text_len text_max in
      let name = stored_or_empty e.module_name e.module_len module_max in
      let total = round_up (hdr_size + length name + length text) + trailer_size in
      let hdr = header order e total (length name) (length text) seq in
      let t_max = length-stored_or_empty e.text e.text_len text_max in
      let n_max = length-stored_or_empty e.module_name e.module_len module_max in
      let fits : hdr_size + length name + length text + trailer_size ≤ total = omega arith in
      let small : total ≤ record_max = omega arith in
      let hdr_len = length-header e total (length name) (length text) seq in
      let size : length (frame order total hdr name text) ≡ total =
        length-frame order total hdr name text hdr_len fits in
      let done =
        evict-Evicted order (suc r.records) total recs r (omega (arith, h.counted))
          (omega (arith, h.room)) (omega arith) h in
      let room = make_room-fits r.size total recs (omega (arith, h.room)) in
      rw size (
        add_record-IsLog (evict order (suc r.records) total r) (make_room r.size total recs) total
          hdr name text hdr_len fits (omega (arith, done.same_size, room))
          (omega (arith, done.same_head))
          (frame-IsFrame e total (length name) (length text) seq name text fits small (omega arith))
          done.is_log)
