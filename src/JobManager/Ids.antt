-- ===== src/JobManager/Ids.antt =====
-- The identifiers "job_%08x": two counters below 2^32 never share one.
use cedar_switch_3i4o_power.Common.{
  ℕ, zero, suc, ◌/◌, ◌%◌, ◌^◌, ◌<◌, ◌≡◌, refl, [], ◌∷◌, ◌++◌, Bytes, length, length-append, arith,
}
use cedar_switch_3i4o_power.JobManager.Ops.{hex_digit, hex, job_id}

snoc_injective : (xs ys : Bytes) (a b : ℕ) → xs ++ (a ∷ []) ≡ ys ++ (b ∷ []) → (xs ≡ ys) × (a ≡ b)
snoc_injective [] [] a b e = ground arith
snoc_injective [] (y ∷ []) a b e = cc
snoc_injective [] (y ∷ z ∷ ys) a b e = cc
snoc_injective (x ∷ []) [] a b e = cc
snoc_injective (x ∷ z ∷ xs) [] a b e = cc
snoc_injective (x ∷ xs) (y ∷ ys) a b e = ground (arith, snoc_injective xs ys a b)

hex_digit-injective : (a b : ℕ) → a < 16 → b < 16 → hex_digit a ≡ hex_digit b → a ≡ b
hex_digit-injective a b ha hb e = ground arith

pub length-hex : (width n : ℕ) → length (hex width n) ≡ width
unfolding hex
length-hex zero n = refl
length-hex (suc width) n =
    omega (
      arith,
      length-append (hex width (n / 16)) (hex_digit (n % 16) ∷ []),
      length-hex width (n / 16),
    )

hex-injective :
    (width n m : ℕ) → n < 16 ^ width → m < 16 ^ width → hex width n ≡ hex width m → n ≡ m
unfolding hex
hex-injective zero n m hn hm e = omega arith
hex-injective (suc width) n m hn hm e =
    let (high, low) = snoc_injective (hex width (n / 16)) (hex width (m / 16)) _ _ e in
    let digit : n % 16 ≡ m % 16 =
      hex_digit-injective (n % 16) (m % 16) (omega arith) (omega arith) low in
    let rest : n / 16 ≡ m / 16 =
      hex-injective width (n / 16) (m / 16) (grind arith) (grind arith) high in
    omega arith

pub length-job_id : (n : ℕ) → length (job_id n) ≡ 12
unfolding job_id
length-job_id n = omega (arith, length-hex 8 n)

-- The identifiers of two different counters are different.
pub job_id-injective : (n m : ℕ) → n < 2 ^ 32 → m < 2 ^ 32 → job_id n ≡ job_id m → n ≡ m
unfolding job_id
job_id-injective n m hn hm e = hex-injective 8 n m hn hm (ground arith)
