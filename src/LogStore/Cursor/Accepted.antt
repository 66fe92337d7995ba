-- ===== src/LogStore/Cursor/Accepted.antt =====
-- The decoder accepts nothing but the encoder's cursors.
use cedar_switch_3i4o_power.Common.{
  ℕ, ◌+◌, ◌%◌, ◌≤◌, ◌≡◌, ◌≢◌, inl, inr, refl, sym, ap, ap₂, subst, ◌∙◌, Bool, true, false, not,
  some, [], ◌∷◌, ◌++◌, Bytes, length, get_or, All, All-take, All-drop, length-take, length-drop,
  take, drop, take_all, take-append, take-append-drop, drop-drop, ◌==◌, if◌then◌else◌, arith,
  Option-cases,
}
use mathlib.Core.List.{append_assoc}
use cedar_switch_3i4o_power.LogStore.ByteOrder.{ByteOrder, IsByte}
use cedar_switch_3i4o_power.LogStore.Base64.{encode, decode}
use cedar_switch_3i4o_power.LogStore.Base64.Canonical.{encode-decode}
use cedar_switch_3i4o_power.LogStore.Cursor.RoundTrip.{length-raw_body}
use cedar_switch_3i4o_power.LogStore.Types.{LogFilter}
use cedar_switch_3i4o_power.LogStore.Cursor.{
  Decoded, positions, einval, estale, slice, cursor_check, cursor_version, filter_digest, raw_body,
  raw_cursor, log_store_cursor_encode, log_store_cursor_decode, check_raw, position_refused,
}

-- Cutting a buffer at an offset.
cut :
    (offset n next : ℕ) (raw : Bytes)
    → next ≡ offset + n
    → drop offset raw ≡ slice offset n raw ++ drop next raw
cut offset n next raw e =
    sym (take-append-drop n (drop offset raw))
    ∙ ap (λ (r : Bytes). slice offset n raw ++ r)
        (drop-drop n offset raw ∙ ap (λ (k : ℕ). drop k raw) (sym e))

-- A raw cursor is the row of its fields.
raw_split :
    (raw : Bytes)
    → length raw ≡ 29
    → raw
      ≡ (get_or raw 0 0 ∷ (slice 1 4 raw ++ (slice 5 4 raw ++ (slice 9 8 raw ++ slice 17 8 raw))))
        ++ slice 25 4 raw
raw_split [] h = absurd (omega arith)
raw_split (b ∷ rest) h = ap (◌∷◌ b) (
    cut 0 4 4 rest refl
    ∙ ap (λ (r : Bytes). slice 0 4 rest ++ r)
        (cut 4 4 8 rest refl
          ∙ ap (λ (r : Bytes). slice 4 4 rest ++ r)
              (cut 8 8 16 rest refl
                ∙ ap (λ (r : Bytes). slice 8 8 rest ++ r)
                    (cut 16 8 24 rest refl
                      ∙ ap (λ (r : Bytes). slice 16 8 rest ++ r)
                          (sym (take_all 4 (drop 24 rest) (omega (arith, length-drop 24 rest)))))))
    ∙ simp append_assoc)

-- What the checks let through.
record Passed (order : ByteOrder) (boot_tag : ℕ) (filter : LogFilter) (head0 head1 pos0 pos1 : ℕ)
    (raw : Bytes) : Type 0 where
  size : length raw ≡ 29
  version : get_or raw 0 0 ≡ cursor_version
  check : order.get_le (slice 25 4 raw) ≡ cursor_check (take 25 raw)
  digest : order.get_le (slice 5 4 raw) ≡ filter_digest order filter
  tag : order.get_le (slice 1 4 raw) ≡ boot_tag
  pos0_is : order.get_le (slice 9 8 raw) ≡ pos0
  pos1_is : order.get_le (slice 17 8 raw) ≡ pos1
  pos0_fine : position_refused order pos0 head0 ≡ false
  pos1_fine : position_refused order pos1 head1 ≡ false

einval_ne : (p q : ℕ) → einval ≢ positions p q
einval_ne p q h = cc

estale_ne : (p q : ℕ) → estale ≢ positions p q
estale_ne p q h = cc

abbrev first_position : Decoded → ℕ
first_position (positions p q) = p
first_position _ = 0

abbrev second_position : Decoded → ℕ
second_position (positions p q) = q
second_position _ = 0

module _ (order : ByteOrder) where
  open order use {
    put_le, get_le, length-put_le, put_le-IsByte, get_le-put_le, put_le-get_le, get_le-lt,
  }

  -- A test that must fail for the cascade to go on.
  past :
      (t : Bool) (r rest : Decoded) (p q : ℕ)
      → r ≢ positions p q
      → (if t then r else rest) ≡ positions p q
      → (t ≡ false) × (rest ≡ positions p q)
  past true r rest p q no_pos e = absurd (no_pos e)
  past false r rest p q no_pos e = (refl, e)

  equal_of_not : (a b : ℕ) → not (a == b) ≡ false → a ≡ b
  equal_of_not a b h = ground arith

  check_raw-Passed :
      (boot_tag head0 head1 pos0 pos1 : ℕ) (filter : LogFilter) (raw : Bytes)
      → check_raw order boot_tag filter head0 head1 raw ≡ positions pos0 pos1
      → Passed order boot_tag filter head0 head1 pos0 pos1 raw
  unfolding check_raw
  check_raw-Passed boot_tag head0 head1 pos0 pos1 filter raw e =
      let (t1, e1) = past _ einval _ pos0 pos1 (einval_ne pos0 pos1) e in
      let (t2, e2) = past _ einval _ pos0 pos1 (einval_ne pos0 pos1) e1 in
      let (t3, e3) = past _ einval _ pos0 pos1 (einval_ne pos0 pos1) e2 in
      let (t4, e4) = past _ einval _ pos0 pos1 (einval_ne pos0 pos1) e3 in
      let (t5, e5) = past _ estale _ pos0 pos1 (estale_ne pos0 pos1) e4 in
      let (t6, e6) = past _ einval _ pos0 pos1 (einval_ne pos0 pos1) e5 in
      let (t7, e7) = past _ einval _ pos0 pos1 (einval_ne pos0 pos1) e6 in
      let p0 : get_le (slice 9 8 raw) ≡ pos0 = ap first_position e7 in
      let p1 : get_le (slice 17 8 raw) ≡ pos1 = ap second_position e7 in
      record {
        size = equal_of_not (length raw) 29 t1;
        version = equal_of_not (get_or raw 0 0) cursor_version t2;
        check = equal_of_not _ _ t3;
        digest = equal_of_not _ _ t4;
        tag = equal_of_not _ _ t5;
        pos0_is = p0;
        pos1_is = p1;
        pos0_fine = subst (λ p. position_refused order p head0 ≡ false) p0 t6;
        pos1_fine = subst (λ p. position_refused order p head1 ≡ false) p1 t7;
      }

  -- A field that reads back as a number is what the encoder writes for that number.
  field_is :
      (n v : ℕ) (field : Bytes)
      → length field ≡ n
      → All IsByte field
      → get_le field ≡ v
      → field ≡ put_le n v
  field_is n v field size bytes e = sym (put_le-get_le field bytes) ∙ ap₂ put_le size e

  length-slice :
      (offset n : ℕ) (raw : Bytes) → offset + n ≤ length raw → length (slice offset n raw) ≡ n
  length-slice offset n raw h =
      omega (arith, length-take n (drop offset raw), length-drop offset raw)

  slice-IsByte : (offset n : ℕ) (raw : Bytes) → All IsByte raw → All IsByte (slice offset n raw)
  slice-IsByte offset n raw h = All-take IsByte n _ (All-drop IsByte offset raw h)

  slice_is :
      (offset n v : ℕ) (raw : Bytes)
      → length raw ≡ 29
      → offset + n ≤ 29
      → All IsByte raw
      → get_le (slice offset n raw) ≡ v
      → slice offset n raw ≡ put_le n v
  slice_is offset n v raw size fits bytes e =
      field_is n v (slice offset n raw) (length-slice offset n raw (omega arith))
        (slice-IsByte offset n raw bytes) e

  -- So an accepted raw cursor is the one that the encoder makes.
  Passed-raw_cursor :
      (boot_tag head0 head1 pos0 pos1 : ℕ) (filter : LogFilter) (raw : Bytes)
      → All IsByte raw
      → Passed order boot_tag filter head0 head1 pos0 pos1 raw
      → raw ≡ raw_cursor order (raw_body order boot_tag (filter_digest order filter) pos0 pos1)
  unfolding raw_cursor raw_body
  Passed-raw_cursor boot_tag head0 head1 pos0 pos1 filter raw bytes ok =
      let digest = filter_digest order filter in
      let body = raw_body order boot_tag digest pos0 pos1 in
      let body_is : get_or raw 0 0
            ∷ (slice 1 4 raw ++ (slice 5 4 raw ++ (slice 9 8 raw ++ slice 17 8 raw)))
          ≡ body =
        rw (
          ok.version,
          slice_is 1 4 boot_tag raw ok.size (omega arith) bytes ok.tag,
          slice_is 5 4 digest raw ok.size (omega arith) bytes ok.digest,
          slice_is 9 8 pos0 raw ok.size (omega arith) bytes ok.pos0_is,
          slice_is 17 8 pos1 raw ok.size (omega arith) bytes ok.pos1_is,
        ) in
      let split : raw ≡ body ++ slice 25 4 raw =
        raw_split raw ok.size ∙ ap (λ (r : Bytes). r ++ slice 25 4 raw) body_is in
      let first : take 25 raw ≡ body =
        ap (take 25) split
        ∙ take-append 25 body (slice 25 4 raw) (length-raw_body order boot_tag digest pos0 pos1) in
      split
      ∙ ap (λ (r : Bytes). body ++ r)
          (slice_is 25 4 (cursor_check body) raw ok.size (omega arith) bytes
            (ok.check ∙ ap cursor_check first))

  fine_of_position : (p head : ℕ) → position_refused order p head ≡ false → (p % 4 ≡ 0) × (p ≤ head)
  fine_of_position p head h = (ground arith, ground arith)

  -- A cursor is accepted with two positions only if it is, byte for byte, the cursor that the device
  -- makes for the filter at those positions in this boot, and each position is aligned and not past
  -- its ring's head.
  pub log_store_cursor_decode_only :
      (cursor : Bytes) (boot_tag head0 head1 pos0 pos1 : ℕ) (filter : LogFilter)
      → log_store_cursor_decode order (some cursor) boot_tag filter head0 head1
        ≡ positions pos0 pos1
      → (log_store_cursor_encode order filter pos0 pos1 boot_tag 40 ≡ some cursor)
        × (pos0 % 4 ≡ 0)
        × (pos0 ≤ head0)
        × (pos1 % 4 ≡ 0)
        × (pos1 ≤ head1)
  unfolding log_store_cursor_decode log_store_cursor_encode
  log_store_cursor_decode_only cursor boot_tag head0 head1 pos0 pos1 filter e =
      let (sized, e1) =
        past (not (length cursor == 39)) einval _ pos0 pos1 (einval_ne pos0 pos1) e in
      elim (Option-cases (decode cursor)) [
        | inl bad ↦ absurd (einval_ne pos0 pos1 (rw bad at e1))
        | inr (raw, good) ↦
            let size : length cursor ≡ 39 = equal_of_not (length cursor) 39 sized in
            let (bytes, text) = encode-decode cursor raw (λ over. absurd (omega arith)) good in
            let ok = check_raw-Passed boot_tag head0 head1 pos0 pos1 filter raw (rw good at e1) in
            let made = Passed-raw_cursor boot_tag head0 head1 pos0 pos1 filter raw bytes ok in
            (
              ap (λ (r : Bytes). some r) (sym (text ∙ ap encode made)),
              (fine_of_position pos0 head0 ok.pos0_fine).0,
              (fine_of_position pos0 head0 ok.pos0_fine).1,
              (fine_of_position pos1 head1 ok.pos1_fine).0,
              (fine_of_position pos1 head1 ok.pos1_fine).1,
            )
      ]
