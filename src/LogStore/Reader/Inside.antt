-- ===== src/LogStore/Reader/Inside.antt =====
-- Where `log_store_reader_tail` leaves a reader.
use cedar_switch_3i4o_power.Common.{
  ℕ, zero, suc, ◌+◌, ◌≤◌, ◌≡◌, ◌⊎◌, inl, inr, refl, ◌∙◌, not, Option, none, some, Bytes, leb,
  if◌then◌else◌, arith, Bool-cases,
}
use cedar_switch_3i4o_power.LogStore.ByteOrder.{ByteOrder}
use cedar_switch_3i4o_power.LogStore.Types.{LogFilter}
use cedar_switch_3i4o_power.LogStore.Ring.{Ring}
use cedar_switch_3i4o_power.LogStore.State.{LogState, ring_at}
use cedar_switch_3i4o_power.LogStore.Record.{copy_record}
use cedar_switch_3i4o_power.LogStore.Filter.{log_store_filter_match}
use cedar_switch_3i4o_power.LogStore.Reader.Read.{selects}
use cedar_switch_3i4o_power.LogStore.Reader.Tail.{
  Walk, Found, look_back, newest, stepped, walk_back, log_store_reader_tail,
}

-- Places within the two rings.
pub record Inside (t : LogState) (pos0 pos1 : ℕ) : Type 0 where
  pub from_tail0 : t.stm32_ring.tail ≤ pos0
  pub to_head0 : pos0 ≤ t.stm32_ring.head
  pub from_tail1 : t.esp32_ring.tail ≤ pos1
  pub to_head1 : pos1 ≤ t.esp32_ring.head

-- What a walk gives.
abbrev pub Walked : LogState → ℕ → Walk × Walk × ℕ → Type 0
Walked t most result = Inside t result.0.at result.1.at × (result.2 ≤ most)

module _ (order : ByteOrder) where
  look_back_lem :
      (r : Ring) (w : Walk)
      → r.tail ≤ w.at
      → r.tail ≤ r.head
      → w.at ≤ r.head
      → (r.tail ≤ (look_back order r w).0.at) × ((look_back order r w).0.at ≤ r.head)
  unfolding look_back
  look_back_lem r w h1 h2 h3 = ground arith

  found_lem :
      (r : Ring) (w : Walk) (start : ℕ) (hdr : Bytes)
      → w.at ≤ r.head
      → (look_back order r w).1 ≡ some (start, hdr)
      → (r.tail ≤ start) × (start ≤ r.head)
  unfolding look_back
  found_lem r w start hdr h e = ground arith

  newest_only :
      (a b : Found) (best start : ℕ) (hdr : Bytes)
      → newest order a b ≡ some (best, start, hdr)
      → ((best ≡ 0) × (a ≡ some (start, hdr))) ⊎ ((best ≡ 1) × (b ≡ some (start, hdr)))
  unfolding newest
  newest_only none none best start hdr e = cc
  newest_only none (some b) best start hdr e = ground arith
  newest_only (some a) none best start hdr e = ground arith
  newest_only (some a) (some b) best start hdr e = ground arith

  stepped-Inside :
      (t : LogState) (best start : ℕ) (a b : Walk)
      → Inside t a.at b.at
      → ((best ≡ 0) × (t.stm32_ring.tail ≤ start) × (start ≤ t.stm32_ring.head))
        ⊎ ((best ≡ 1) × (t.esp32_ring.tail ≤ start) × (start ≤ t.esp32_ring.head))
      → Inside t (stepped best start a b).0.at (stepped best start a b).1.at
  unfolding stepped
  stepped-Inside t zero start a b inside place =
      let lower = inside.from_tail1 in
      let upper = inside.to_head1 in
      record {
        from_tail0 = ground arith;
        to_head0 = ground arith;
        from_tail1 = lower;
        to_head1 = upper;
      }
  stepped-Inside t (suc best) start a b inside place =
      let lower = inside.from_tail0 in
      let upper = inside.to_head0 in
      record {
        from_tail0 = lower;
        to_head0 = upper;
        from_tail1 = ground arith;
        to_head1 = ground arith;
      }

  walk_back-Walked :
      (filter : LogFilter) (count : ℕ) (t : LogState) (left matched scanned : ℕ) (a b : Walk)
      → t.stm32_ring.tail ≤ t.stm32_ring.head
      → t.esp32_ring.tail ≤ t.esp32_ring.head
      → Inside t a.at b.at
      → Walked t (scanned + left) (walk_back order filter count (λ _. t) left matched scanned a b)
  unfolding walk_back
  walk_back-Walked filter count t zero matched scanned a b h0 h1 inside = (inside, omega arith)
  walk_back-Walked filter count t (suc left) matched scanned a b h0 h1 inside =
      let one = look_back order t.stm32_ring a in
      let two = look_back order t.esp32_ring b in
      let first = look_back_lem t.stm32_ring a inside.from_tail0 h0 inside.to_head0 in
      let second = look_back_lem t.esp32_ring b inside.from_tail1 h1 inside.to_head1 in
      let there : Inside t one.0.at two.0.at = record {
        from_tail0 = first.0;
        to_head0 = first.1;
        from_tail1 = second.0;
        to_head1 = second.1;
      } in
      elim (Bool-cases (leb count matched)) [
        | inl enough ↦ rw enough (inside, omega arith)
        | inr more ↦ rw more (
            next one.0 two.0 (newest order one.1 two.1) there (found one.1 two.1 refl refl)
              (λ m x y. walk_back-Walked filter count t left m (scanned + 1) x y h0 h1))
      ]
    where
      Place : ℕ → ℕ → Type 0
      Place best start =
          ((best ≡ 0) × (t.stm32_ring.tail ≤ start) × (start ≤ t.stm32_ring.head))
          ⊎ ((best ≡ 1) × (t.esp32_ring.tail ≤ start) × (start ≤ t.esp32_ring.head))

      found :
          (x y : Found)
          → (look_back order t.stm32_ring a).1 ≡ x
          → (look_back order t.esp32_ring b).1 ≡ y
          → (best start : ℕ) (hdr : Bytes) → newest order x y ≡ some (best, start, hdr)
          → Place best start
      found x y ex ey best start hdr e = elim (newest_only x y best start hdr e) [
        | inl (is_zero, at_x) ↦
            let inner = found_lem t.stm32_ring a start hdr inside.to_head0 (ex ∙ at_x) in
            inl (is_zero, inner.0, inner.1)
        | inr (is_one, at_y) ↦
            let inner = found_lem t.esp32_ring b start hdr inside.to_head1 (ey ∙ at_y) in
            inr (is_one, inner.0, inner.1)
      ]

      next :
          (w0 w1 : Walk) (c : Option (ℕ × ℕ × Bytes))
          → Inside t w0.at w1.at
          → ((best start : ℕ) (hdr : Bytes) → c ≡ some (best, start, hdr) → Place best start)
          → ((m : ℕ) (x y : Walk)
              → Inside t x.at y.at
              → Walked t
                  ((scanned + 1) + left)
                  (walk_back order filter count (λ _. t) left m (scanned + 1) x y))
          → Walked t (scanned + suc left) (elim c [
            | none ↦ (w0, w1, scanned)
            | some (best, start, hdr) ↦
                let places = stepped best start w0 w1 in
                let passes =
                  log_store_filter_match filter (copy_record order (ring_at best t) start hdr) in
                walk_back order filter count
                  (λ _. t)
                  left
                  (if passes then matched + 1 else matched)
                  (scanned + 1)
                  places.0
                  places.1
          ])
      next w0 w1 none there place again = (there, omega arith)
      next w0 w1 (some (best, start, hdr)) there place again =
          let passes =
            log_store_filter_match filter (copy_record order (ring_at best t) start hdr) in
          let later =
            again (if passes then matched + 1 else matched) (stepped best start w0 w1).0
              (stepped best start w0 w1).1
              (stepped-Inside t best start w0 w1 there (place best start hdr refl)) in
          (later.0, omega (arith, later.1))

  -- A reader that `log_store_reader_tail` sets, while nothing is appended, stands within both rings,
  -- whatever bytes they hold, and has copied no more records than its budget. (The tails are not past
  -- the heads.)
  pub log_store_reader_tail-Inside :
      (filter : LogFilter) (count scan_budget : ℕ) (t : LogState)
      → t.stm32_ring.tail ≤ t.stm32_ring.head
      → t.esp32_ring.tail ≤ t.esp32_ring.head
      → let reader = log_store_reader_tail order filter count scan_budget t (λ _. t) in
        Inside t reader.pos0 reader.pos1 × (reader.scanned ≤ scan_budget)
  unfolding log_store_reader_tail
  log_store_reader_tail-Inside filter count scan_budget t h0 h1 =
      let walked =
        walk_back-Walked filter count t scan_budget 0 0
          (record { at = t.stm32_ring.head; done = not (selects filter 0) })
          (record { at = t.esp32_ring.head; done = not (selects filter 1) }) h0 h1
          (record {
            from_tail0 = h0;
            to_head0 = omega arith;
            from_tail1 = h1;
            to_head1 = omega arith;
          }) in
      (walked.0, omega (arith, walked.1))
