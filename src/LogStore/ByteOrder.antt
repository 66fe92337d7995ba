-- ===== src/LogStore/ByteOrder.antt =====
-- The byte order functions that the firmware takes from Zephyr, `sys_put_le16` and its relatives, by
-- the number of bytes: `put_le w n` is what is written, `get_le` what is read back from those bytes.
use cedar_switch_3i4o_power.Common.{
  ℕ, zero, suc, ◌+◌, ◌*◌, ◌/◌, ◌%◌, ◌^◌, ◌<◌, ◌≡◌, refl, ap, [], ◌∷◌, Bytes, length, All, arith,
}

abbrev pub IsByte : ℕ → Type 0
IsByte b = b < 256

pub record ByteOrder : Type 0 where
  pub put_le : ℕ → ℕ → Bytes
  pub get_le : Bytes → ℕ
  pub length-put_le : (w n : ℕ) → length (put_le w n) ≡ w
  pub put_le-IsByte : (w n : ℕ) → All IsByte (put_le w n)
  pub get_le-put_le : (w n : ℕ) → n < 256 ^ w → get_le (put_le w n) ≡ n
  pub put_le-get_le : (bs : Bytes) → All IsByte bs → put_le (length bs) (get_le bs) ≡ bs
  pub get_le-lt : (bs : Bytes) → All IsByte bs → get_le bs < 256 ^ length bs

-- A value of the interface: the least significant byte first.
unfoldable pub put_little : ℕ → ℕ → Bytes
put_little zero n = []
put_little (suc w) n = (n % 256) ∷ put_little w (n / 256)

unfoldable pub get_little : Bytes → ℕ
get_little [] = 0
get_little (b ∷ bs) = b + 256 * get_little bs

pub length-put_little : (w n : ℕ) → length (put_little w n) ≡ w
unfolding put_little
length-put_little zero n = refl
length-put_little (suc w) n = ap suc (length-put_little w (n / 256))

pub put_little-IsByte : (w n : ℕ) → All IsByte (put_little w n)
unfolding put_little
put_little-IsByte zero n = tt
put_little-IsByte (suc w) n = (omega arith, put_little-IsByte w (n / 256))

pub get_little-put_little : (w n : ℕ) → n < 256 ^ w → get_little (put_little w n) ≡ n
unfolding put_little get_little
get_little-put_little zero n h = omega arith
get_little-put_little (suc w) n h = omega (arith, get_little-put_little w (n / 256) (grind arith))

pub put_little-get_little :
    (bs : Bytes) → All IsByte bs → put_little (length bs) (get_little bs) ≡ bs
unfolding put_little get_little
put_little-get_little [] h = refl
put_little-get_little (b ∷ bs) h =
    let low : (b + 256 * get_little bs) % 256 ≡ b = omega arith in
    let high : (b + 256 * get_little bs) / 256 ≡ get_little bs = omega arith in
    rw (low, high) (ap (◌∷◌ b) (put_little-get_little bs h.1))

pub get_little-lt : (bs : Bytes) → All IsByte bs → get_little bs < 256 ^ length bs
unfolding get_little
get_little-lt [] h = omega arith
get_little-lt (b ∷ bs) h = grind (arith, get_little-lt bs h.1)

abbrev pub little_endian : ByteOrder
little_endian = record {
  put_le = put_little;
  get_le = get_little;
  length-put_le = length-put_little;
  put_le-IsByte = put_little-IsByte;
  get_le-put_le = get_little-put_little;
  put_le-get_le = put_little-get_little;
  get_le-lt = get_little-lt;
}
