-- ===== src/LogStore/Append/Grow.antt =====
-- The bytes of a ring while a record is put into it part by part.
use cedar_switch_3i4o_power.Common.{
  ℕ, ◌+◌, ◌-◌, ◌^◌, ◌<◌, ◌≤◌, ◌≡◌, sym, ap, ap₂, ◌∙◌, true, [], ◌∷◌, ◌++◌, Bytes, length,
  length-append, append_nil, length-replicate, subst, ltb, arith,
}
use mathlib.Core.List.{append_assoc}
use cedar_switch_3i4o_power.LogStore.ByteOrder.{ByteOrder}
use cedar_switch_3i4o_power.LogStore.State.{add64}
use cedar_switch_3i4o_power.LogStore.Append.{
  zeros, put_if, put_record, hdr_size, trailer_size, trailer_magic,
}
use cedar_switch_3i4o_power.LogStore.Ring.{Ring, ring_put}
use cedar_switch_3i4o_power.LogStore.Ring.Positions.{length-ring_put}
use cedar_switch_3i4o_power.LogStore.Ring.Window.{
  window, window-add, window-ring_put, window-ring_put_before,
}

-- The ring holds `xs` from `start` on.
pub record Holds (buf : Bytes) (size start : ℕ) (xs : Bytes) : Type 0 where
  pub whole : length buf ≡ size
  pub held : window buf size start (length xs) ≡ xs

pub Holds-ring_put :
    (buf : Bytes) (size start pos : ℕ) (xs src : Bytes)
    → pos ≡ start + length xs
    → length xs < size
    → length xs + length src ≤ size
    → Holds buf size start xs
    → Holds (ring_put buf size pos src) size start (xs ++ src)
Holds-ring_put buf size start pos xs src at room fits h =
    let out = ring_put buf size pos src in
    let before : window out size start (length xs) ≡ xs =
      window-ring_put_before buf size pos src h.whole (omega arith) (omega arith) start (length xs)
        (omega arith) (omega arith) (omega arith)
      ∙ h.held in
    let new : window out size (start + length xs) (length src) ≡ src =
      ap (λ (q : ℕ). window out size q (length src)) (sym at)
      ∙ window-ring_put buf size pos src h.whole (omega arith) (omega arith) in
    record {
      whole = length-ring_put buf size pos src h.whole (omega arith) (omega arith);
      held =
          window-add out size start (length xs) (length src) (length (xs ++ src))
            (length-append xs src)
          ∙ ap₂ (λ (a b : Bytes). a ++ b) before new;
    }

pub Holds-put_if :
    (order : ByteOrder) (buf : Bytes) (size start pos : ℕ) (xs src : Bytes)
    → pos ≡ start + length xs
    → length xs < size
    → length xs + length src ≤ size
    → Holds buf size start xs
    → Holds (put_if order buf size pos src) size start (xs ++ src)
Holds-put_if order buf size start pos xs [] at room fits h =
    subst (λ (bs : Bytes). Holds buf size start bs) (sym (append_nil xs)) h
Holds-put_if order buf size start pos xs (b ∷ src) at room fits h =
    let given : ltb 0 (length (b ∷ src)) ≡ true = ground arith in
    rw given (Holds-ring_put buf size start pos xs (b ∷ src) at room fits h)

length-zeros : (n : ℕ) → length (zeros n) ≡ n
length-zeros n = length-replicate n 0

-- The bytes of a whole record of `total` bytes.
unfoldable pub frame : ByteOrder → ℕ → Bytes → Bytes → Bytes → Bytes
frame order total hdr name text =
    hdr
    ++ (name
        ++ (text
            ++ (zeros (total - trailer_size - hdr_size - length name - length text)
                ++ (order.put_le 2 total ++ order.put_le 2 trailer_magic))))

pub length-frame :
    (order : ByteOrder) (total : ℕ) (hdr name text : Bytes)
    → length hdr ≡ hdr_size
    → hdr_size + length name + length text + trailer_size ≤ total
    → length (frame order total hdr name text) ≡ total
unfolding frame
length-frame order total hdr name text sized fits =
    let pad = zeros (total - trailer_size - hdr_size - length name - length text) in
    let trailer = order.put_le 2 total ++ order.put_le 2 trailer_magic in
    omega (
      arith,
      length-append hdr (name ++ (text ++ (pad ++ trailer))),
      length-append name (text ++ (pad ++ trailer)),
      length-append text (pad ++ trailer),
      length-append pad trailer,
      length-append (order.put_le 2 total) (order.put_le 2 trailer_magic),
      length-zeros (total - trailer_size - hdr_size - length name - length text),
      order.length-put_le 2 total,
      order.length-put_le 2 trailer_magic,
    )

-- The five calls put the whole record behind what the ring held.
pub Holds-put_record :
    (order : ByteOrder) (r : Ring) (total : ℕ) (xs hdr name text : Bytes)
    → length hdr ≡ hdr_size
    → hdr_size + length name + length text + trailer_size ≤ total
    → length xs + total ≤ r.size
    → r.head ≡ r.tail + length xs
    → r.head + total < 2 ^ 64
    → Holds r.buf r.size r.tail xs
    → Holds
        (put_record order r total hdr name text)
        r.size
        r.tail
        (xs ++ frame order total hdr name text)
unfolding put_record frame
Holds-put_record order r total xs hdr name text sized fits room at below h =
    let n = total - trailer_size - hdr_size - length name - length text in
    let pad = zeros n in
    let pad_len : length pad ≡ n = length-zeros n in
    let trailer = order.put_le 2 total ++ order.put_le 2 trailer_magic in
    let l5 : length trailer ≡ 4 = omega (
      arith,
      length-append (order.put_le 2 total) (order.put_le 2 trailer_magic),
      order.length-put_le 2 total,
      order.length-put_le 2 trailer_magic,
    ) in
    let l1 = length-append xs hdr in
    let l2 = length-append (xs ++ hdr) name in
    let l3 = length-append ((xs ++ hdr) ++ name) text in
    let l4 = length-append (((xs ++ hdr) ++ name) ++ text) pad in
    let p1 : add64 r.head hdr_size ≡ r.tail + length (xs ++ hdr) = omega arith in
    let p2 : add64 (add64 r.head hdr_size) (length name) ≡ r.tail + length ((xs ++ hdr) ++ name) =
      omega arith in
    let p3 : add64 (add64 (add64 r.head hdr_size) (length name)) (length text)
        ≡ r.tail + length (((xs ++ hdr) ++ name) ++ text) =
      omega arith in
    let p4 : add64 r.head (total - trailer_size)
        ≡ r.tail + length ((((xs ++ hdr) ++ name) ++ text) ++ pad) =
      omega arith in
    let h1 = Holds-ring_put r.buf r.size r.tail r.head xs hdr at (omega arith) (omega arith) h in
    let h2 =
      Holds-put_if order _ r.size r.tail _ (xs ++ hdr) name p1 (omega arith) (omega arith) h1 in
    let h3 =
      Holds-put_if order _ r.size r.tail _ ((xs ++ hdr) ++ name) text p2 (omega arith) (omega arith)
        h2 in
    let h4 =
      Holds-ring_put _ r.size r.tail _ (((xs ++ hdr) ++ name) ++ text) pad p3 (omega arith)
        (omega arith) h3 in
    let h5 =
      Holds-ring_put _ r.size r.tail _ ((((xs ++ hdr) ++ name) ++ text) ++ pad) trailer p4
        (omega arith) (omega arith) h4 in
    let flat : ((((xs ++ hdr) ++ name) ++ text) ++ pad) ++ trailer
        ≡ xs ++ (hdr ++ (name ++ (text ++ (pad ++ trailer)))) =
      simp append_assoc in
    subst (λ (bs : Bytes). Holds (put_record order r total hdr name text) r.size r.tail bs) flat h5
