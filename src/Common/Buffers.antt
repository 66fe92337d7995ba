-- ===== src/Common/Buffers.antt =====
-- Writing into a C array.
use Prim.Native.Nat.{ℕ, zero, suc, ◌+◌, ◌≤◌, ◌<◌}
use mathlib.Core.Path.{◌≡◌, refl, ap}
use mathlib.Core.List.{[], ◌∷◌, ◌++◌}
use native.Mathlib.Omega.{arith}
use cedar_switch_3i4o_power.Common.Lists.{length, take, get_or}
use cedar_switch_3i4o_power.Common.Strings.{Bytes}

-- `memcpy(&buf[off], src, length src)`; what lies past the end of the buffer is not written.
unfoldable pub write : Bytes → ℕ → Bytes → Bytes
write [] off src = []
write (b ∷ bs) (suc off) src = b ∷ write bs off src
write (b ∷ bs) zero [] = b ∷ bs
write (b ∷ bs) zero (x ∷ xs) = x ∷ write bs zero xs

pub length-write : (buf : Bytes) (off : ℕ) (src : Bytes) → length (write buf off src) ≡ length buf
unfolding write
length-write [] off src = refl
length-write (b ∷ bs) (suc off) src = ap suc (length-write bs off src)
length-write (b ∷ bs) zero [] = refl
length-write (b ∷ bs) zero (x ∷ xs) = ap suc (length-write bs zero xs)

-- Up to its end, a write inside the buffer leaves what was there and then what it wrote.
pub take-write :
    (buf : Bytes) (off : ℕ) (src : Bytes) (n : ℕ)
    → n ≡ off + length src
    → n ≤ length buf
    → take n (write buf off src) ≡ take off buf ++ src
unfolding write
take-write buf zero [] zero e h = refl
take-write buf zero [] (suc n) e h = absurd (omega arith)
take-write buf zero (x ∷ xs) zero e h = absurd (omega arith)
take-write [] zero (x ∷ xs) (suc n) e h = absurd (omega arith)
take-write (b ∷ bs) zero (x ∷ xs) (suc n) e h =
    ap (◌∷◌ x) (take-write bs zero xs n (omega arith) (omega arith))
take-write buf (suc off) src zero e h = absurd (omega arith)
take-write [] (suc off) src (suc n) e h = absurd (omega arith)
take-write (b ∷ bs) (suc off) src (suc n) e h =
    ap (◌∷◌ b) (take-write bs off src n (omega arith) (omega arith))

-- What stands before a write stays.
pub take-write_before :
    (buf : Bytes) (off : ℕ) (src : Bytes) (n : ℕ)
    → n ≤ off
    → take n (write buf off src) ≡ take n buf
unfolding write
take-write_before buf off src zero h = refl
take-write_before [] off src (suc n) h = refl
take-write_before (b ∷ bs) zero src (suc n) h = absurd (omega arith)
take-write_before (b ∷ bs) (suc off) src (suc n) h =
    ap (◌∷◌ b) (take-write_before bs off src n (omega arith))

pub get_or-write_one :
    (buf : Bytes) (off c d : ℕ) → off < length buf → get_or (write buf off (c ∷ [])) off d ≡ c
unfolding write
get_or-write_one [] off c d h = absurd (omega arith)
get_or-write_one (b ∷ []) zero c d h = refl
get_or-write_one (b ∷ b' ∷ bs) zero c d h = refl
get_or-write_one (b ∷ bs) (suc off) c d h = get_or-write_one bs off c d (omega arith)
