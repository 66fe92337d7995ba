-- ===== src/LogStore/Cursor/RoundTrip.antt =====
-- Cursors come back as they went out, and only cursors that the device makes are accepted.
use Prim.Native.Nat.{bit_xor}
use mathlib.Core.List.{append_assoc}
use cedar_switch_3i4o_power.Common.{
  ℕ, ◌+◌, ◌*◌, ◌/◌, ◌%◌, ◌^◌, ◌<◌, ◌≡◌, refl, ap, ◌∙◌, Bool, true, false, not, some, [], ◌∷◌, ◌++◌,
  Bytes, codes, length, get_or, All, All-append, length-append, take, drop, take_all, take-append,
  drop-append_skip, ◌==◌, if◌then◌else◌, arith,
}
use cedar_switch_3i4o_power.LogStore.ByteOrder.{ByteOrder, IsByte}
use cedar_switch_3i4o_power.LogStore.Base64.{encode}
use cedar_switch_3i4o_power.LogStore.Base64.Canonical.{decode-encode}
use cedar_switch_3i4o_power.LogStore.Types.{LogFilter, level_index, module_max, contains_max}
use cedar_switch_3i4o_power.LogStore.Cursor.{
  bounded, positions, einval, estale, slice, fnv1a, fnv32_init, fnv32_prime, mix, cursor_check,
  cursor_version, filter_digest, raw_body, raw_cursor, log_store_cursor_encode,
  log_store_cursor_decode, check_raw, position_refused,
}

length-encode : (bs : Bytes) → length (encode bs) ≡ (length bs * 4 + 2) / 3
unfolding encode
length-encode [] = refl
length-encode (a ∷ []) = refl
length-encode (a ∷ b ∷ []) = refl
length-encode (a ∷ b ∷ c ∷ rest) = omega (arith, length-encode rest)

fnv1a-lt : (bs : Bytes) (h : ℕ) → h < 2 ^ 32 → fnv1a h bs < 2 ^ 32
unfolding fnv1a
fnv1a-lt [] h small = small
fnv1a-lt (b ∷ bs) h small = fnv1a-lt bs (bit_xor h b * fnv32_prime % 2 ^ 32) (omega arith)

cursor_check-lt : (raw : Bytes) → cursor_check raw < 2 ^ 32
unfolding cursor_check
cursor_check-lt raw =
    fnv1a-lt raw (fnv1a fnv32_init (codes "cedar-log-cursor"))
      (fnv1a-lt (codes "cedar-log-cursor") fnv32_init (omega arith))

mix-lt :
    (present : Bool) (size part : Bytes) (h : ℕ) → h < 2 ^ 32 → mix present size part h < 2 ^ 32
unfolding mix
mix-lt true size part h small = fnv1a-lt part (fnv1a h size) (fnv1a-lt size h small)
mix-lt false size part h small = small

==_refl : (n : ℕ) → (n == n) ≡ true
==_refl n = ground arith

-- The cascade of tests once every field is read.
verdict :
    (checked known current : Bool) (pos0 pos1 : ℕ)
    → checked ≡ true
    → (if not checked
        then einval
        else if not known
        then einval
        else if not current
        then estale
        else positions pos0 pos1)
      ≡ (if known then if current then positions pos0 pos1 else estale else einval)
verdict true true true pos0 pos1 h = refl
verdict true true false pos0 pos1 h = refl
verdict true false current pos0 pos1 h = refl
verdict false known current pos0 pos1 h = cc

module _ (order : ByteOrder) where
  open order use {
    put_le, get_le, length-put_le, put_le-IsByte, get_le-put_le, put_le-get_le, get_le-lt,
  }

  filter_digest-lt : (f : LogFilter) → filter_digest order f < 2 ^ 32
  unfolding filter_digest
  filter_digest-lt f =
      let flags = (if f.has_module then 1 else 0) + (if f.has_contains then 2 else 0) in
      let head = (f.sources % 4) ∷ level_index f.min_level ∷ flags ∷ [] in
      let h = fnv1a fnv32_init head in
      let name = bounded module_max f.module_name in
      let size = (length name % 256) ∷ [] in
      let wanted = bounded contains_max f.contains in
      mix-lt f.has_contains (put_le 2 (length wanted % 2 ^ 16)) wanted
        (mix f.has_module size name h)
        (mix-lt f.has_module size name h (fnv1a-lt head fnv32_init (omega arith)))

  -- The fields of a raw cursor lie where the decoder looks for them.
  raw_cursor-flat :
      (tag digest pos0 pos1 : ℕ)
      → raw_cursor order (raw_body order tag digest pos0 pos1)
        ≡ cursor_version
          ∷ (put_le 4 tag
              ++ (put_le 4 digest
                  ++ (put_le 8 pos0
                      ++ (put_le 8 pos1
                          ++ put_le 4 (cursor_check (raw_body order tag digest pos0 pos1))))))
  unfolding raw_cursor raw_body
  raw_cursor-flat tag digest pos0 pos1 = simp append_assoc

  pub length-raw_body :
      (tag digest pos0 pos1 : ℕ) → length (raw_body order tag digest pos0 pos1) ≡ 25
  unfolding raw_body
  length-raw_body tag digest pos0 pos1 = omega (
    arith,
    length-append (put_le 4 tag) (put_le 4 digest ++ (put_le 8 pos0 ++ put_le 8 pos1)),
    length-append (put_le 4 digest) (put_le 8 pos0 ++ put_le 8 pos1),
    length-append (put_le 8 pos0) (put_le 8 pos1),
    length-put_le 4 tag,
    length-put_le 4 digest,
    length-put_le 8 pos0,
    length-put_le 8 pos1,
  )

  -- A field that is followed by the rest of the cursor.
  field_here : (n : ℕ) (v : ℕ) (rest : Bytes) → take n (put_le n v ++ rest) ≡ put_le n v
  field_here n v rest = take-append n (put_le n v) rest (length-put_le n v)

  field_skip : (n k m v : ℕ) (rest : Bytes) → n ≡ k + m → drop n (put_le k v ++ rest) ≡ drop m rest
  field_skip n k m v rest e = drop-append_skip n k m (put_le k v) rest e (length-put_le k v)

  raw_fields :
      (tag digest pos0 pos1 check : ℕ)
      → let raw =
          cursor_version
          ∷ (put_le 4 tag
              ++ (put_le 4 digest ++ (put_le 8 pos0 ++ (put_le 8 pos1 ++ put_le 4 check)))) in
        (slice 1 4 raw ≡ put_le 4 tag)
        × (slice 5 4 raw ≡ put_le 4 digest)
        × (slice 9 8 raw ≡ put_le 8 pos0)
        × (slice 17 8 raw ≡ put_le 8 pos1)
        × (slice 25 4 raw ≡ put_le 4 check)
  raw_fields tag digest pos0 pos1 check =
      let e = put_le 4 check in
      let d = put_le 8 pos1 ++ e in
      let c = put_le 8 pos0 ++ d in
      let b = put_le 4 digest ++ c in
      let s5 : drop 4 (put_le 4 tag ++ b) ≡ b = field_skip 4 4 0 tag b refl in
      let s9 : drop 8 (put_le 4 tag ++ b) ≡ c =
        field_skip 8 4 4 tag b refl ∙ field_skip 4 4 0 digest c refl in
      let s17 : drop 16 (put_le 4 tag ++ b) ≡ d =
        field_skip 16 4 12 tag b refl
        ∙ field_skip 12 4 8 digest c refl
        ∙ field_skip 8 8 0 pos0 d refl in
      let s25 : drop 24 (put_le 4 tag ++ b) ≡ e =
        field_skip 24 4 20 tag b refl
        ∙ field_skip 20 4 16 digest c refl
        ∙ field_skip 16 8 8 pos0 d refl
        ∙ field_skip 8 8 0 pos1 e refl in
      (
        field_here 4 tag b,
        ap (take 4) s5 ∙ field_here 4 digest c,
        ap (take 8) s9 ∙ field_here 8 pos0 d,
        ap (take 8) s17 ∙ field_here 8 pos1 e,
        ap (take 4) s25 ∙ take_all 4 e (omega (arith, length-put_le 4 check)),
      )

  raw_body-IsByte : (tag digest pos0 pos1 : ℕ) → All IsByte (raw_body order tag digest pos0 pos1)
  unfolding raw_body
  raw_body-IsByte tag digest pos0 pos1 = (
    omega arith,
    All-append IsByte (put_le 4 tag) _ (put_le-IsByte 4 tag) (
        All-append IsByte (put_le 4 digest) _ (put_le-IsByte 4 digest)
          (All-append IsByte (put_le 8 pos0) _ (put_le-IsByte 8 pos0) (put_le-IsByte 8 pos1))),
  )

  raw_cursor-IsByte : (body : Bytes) → All IsByte body → All IsByte (raw_cursor order body)
  unfolding raw_cursor
  raw_cursor-IsByte body h = All-append IsByte body _ h (put_le-IsByte 4 (cursor_check body))

  length-raw_cursor :
      (tag digest pos0 pos1 : ℕ)
      → length (raw_cursor order (raw_body order tag digest pos0 pos1)) ≡ 29
  unfolding raw_cursor
  length-raw_cursor tag digest pos0 pos1 =
      let body = raw_body order tag digest pos0 pos1 in
      omega (
        arith,
        length-append body (put_le 4 (cursor_check body)),
        length-raw_body tag digest pos0 pos1,
        length-put_le 4 (cursor_check body),
      )

  -- What the checks make of a cursor of this device.
  check_raw-raw_cursor :
      (tag digest pos0 pos1 boot_tag head0 head1 : ℕ) (filter : LogFilter)
      → tag < 2 ^ 32
      → digest < 2 ^ 32
      → pos0 < 2 ^ 64
      → pos1 < 2 ^ 64
      → position_refused order pos0 head0 ≡ false
      → position_refused order pos1 head1 ≡ false
      → check_raw order boot_tag filter head0 head1
          (raw_cursor order (raw_body order tag digest pos0 pos1))
        ≡ (if digest == filter_digest order filter
            then if tag == boot_tag then positions pos0 pos1 else estale
            else einval)
  unfolding check_raw
  check_raw-raw_cursor tag digest pos0 pos1 boot_tag head0 head1 filter ht hd h0 h1 fine0 fine1 =
      let body = raw_body order tag digest pos0 pos1 in
      let raw = raw_cursor order body in
      let flat = raw_cursor-flat tag digest pos0 pos1 in
      let fields = raw_fields tag digest pos0 pos1 (cursor_check body) in
      let tag_read : get_le (slice 1 4 raw) ≡ tag =
        ap (λ (r : Bytes). get_le (slice 1 4 r)) flat
        ∙ ap get_le fields.0
        ∙ get_le-put_le 4 tag (omega arith) in
      let digest_read : get_le (slice 5 4 raw) ≡ digest =
        ap (λ (r : Bytes). get_le (slice 5 4 r)) flat
        ∙ ap get_le fields.1
        ∙ get_le-put_le 4 digest (omega arith) in
      let pos0_read : get_le (slice 9 8 raw) ≡ pos0 =
        ap (λ (r : Bytes). get_le (slice 9 8 r)) flat
        ∙ ap get_le fields.2
        ∙ get_le-put_le 8 pos0 (omega arith) in
      let pos1_read : get_le (slice 17 8 raw) ≡ pos1 =
        ap (λ (r : Bytes). get_le (slice 17 8 r)) flat
        ∙ ap get_le fields.3
        ∙ get_le-put_le 8 pos1 (omega arith) in
      let check_read : get_le (slice 25 4 raw) ≡ cursor_check body =
        ap (λ (r : Bytes). get_le (slice 25 4 r)) flat
        ∙ ap get_le fields.4
        ∙ get_le-put_le 4 (cursor_check body) (omega (arith, cursor_check-lt body)) in
      let version_read : get_or raw 0 0 ≡ cursor_version = ap (λ (r : Bytes). get_or r 0 0) flat in
      let body_read : take 25 raw ≡ body =
        unfold raw_cursor in
        take-append 25 body (put_le 4 (cursor_check body)) (length-raw_body tag digest pos0 pos1) in
      let size : length raw ≡ 29 = length-raw_cursor tag digest pos0 pos1 in
      rw
        (
          size, version_read, check_read, body_read, digest_read, tag_read, pos0_read, pos1_read,
          fine0, fine1,
        )
        (verdict (cursor_check body == cursor_check body) (digest == filter_digest order filter)
          (tag == boot_tag) pos0 pos1 (==_refl (cursor_check body)))

  -- A cursor made for a filter at two readable positions comes back: with a filter of the same digest
  -- in the same boot as those positions, in another boot as -ESTALE, and with a filter of another
  -- digest as -EINVAL. (Positions are aligned, not past the heads, and 64 bits wide; the boot tag has
  -- 32 bits.)
  pub log_store_cursor_decode-encode :
      (filter other : LogFilter) (pos0 pos1 tag boot_tag cap head0 head1 : ℕ) (text : Bytes)
      → tag < 2 ^ 32
      → pos0 < 2 ^ 64
      → pos1 < 2 ^ 64
      → position_refused order pos0 head0 ≡ false
      → position_refused order pos1 head1 ≡ false
      → log_store_cursor_encode order filter pos0 pos1 tag cap ≡ some text
      → log_store_cursor_decode order (some text) boot_tag other head0 head1 ≡ (
          if filter_digest order filter == filter_digest order other
          then if tag == boot_tag then positions pos0 pos1 else estale
          else einval)
  unfolding log_store_cursor_encode log_store_cursor_decode
  log_store_cursor_decode-encode filter other pos0 pos1 tag boot_tag cap head0 head1 text ht h0 h1
        fine0 fine1 made =
      let digest = filter_digest order filter in
      let body = raw_body order tag digest pos0 pos1 in
      let raw = raw_cursor order body in
      let text_is : text ≡ encode raw = ground arith in
      let size : length (encode raw) ≡ 39 =
        omega (arith, length-encode raw, length-raw_cursor tag digest pos0 pos1) in
      rw
        (
          text_is,
          size,
          decode-encode raw (raw_cursor-IsByte body (raw_body-IsByte tag digest pos0 pos1)),
        )
        (check_raw-raw_cursor tag digest pos0 pos1 boot_tag head0 head1 other ht
          (filter_digest-lt filter) h0 h1 fine0 fine1)
