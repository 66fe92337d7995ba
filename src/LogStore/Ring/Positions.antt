-- ===== src/LogStore/Ring/Positions.antt =====
-- The single bytes of a ring: which ones `ring_put` writes, and which ones it leaves.
use native.Mathlib.Nat.{mod-add-mod, mod-eq_of_lt, mod-eq-sub-mod, mod-lt}
use native.Mathlib.Decide.{dec_lt}
use cedar_switch_3i4o_power.Common.{
  write, length-write, ℕ, zero, suc, ◌+◌, ◌-◌, ◌%◌, ◌<◌, ◌≤◌, ◌≡◌, ◌⊎◌, inl, inr, refl, sym, ap,
  ◌∙◌, min, [], ◌∷◌, Bytes, length, get_or, take, drop, length-take, length-drop, ltb, arith,
  Bool-cases,
}
use cedar_switch_3i4o_power.LogStore.Ring.{ring_put}

-- Step by step round the ring.
pub mod_step :
    (p k size : ℕ)
    → 0 < size
    → k < size
    → ((p % size + k < size) × ((p + k) % size ≡ p % size + k))
      ⊎ ((size ≤ p % size + k) × ((p + k) % size + size ≡ p % size + k))
mod_step p k size pos le = elim (dec_lt (p % size + k) size) [
  | yes small ↦ inl (small, sym (mod-add-mod p size k) ∙ mod-eq_of_lt small)
  | no big ↦ inr (
    omega arith,
    omega (
      arith,
      mod-add-mod p size k,
      mod-lt p {m = size} pos,
      mod-eq-sub-mod {n = p % size + k} {m = size} (omega arith),
      mod-eq_of_lt {n = p % size + k - size} {m = size} (omega (arith, mod-lt p {m = size} pos)),
    ),
  )
]

get_or-write_in :
    (buf : Bytes) (off : ℕ) (src : Bytes) (i k : ℕ)
    → i ≡ off + k
    → k < length src
    → i < length buf
    → get_or (write buf off src) i 0 ≡ get_or src k 0
unfolding write
get_or-write_in [] off src i k e h1 h2 = absurd (omega arith)
get_or-write_in (b ∷ bs) (suc off) src zero k e h1 h2 = absurd (omega arith)
get_or-write_in (b ∷ bs) (suc off) src (suc i) k e h1 h2 =
    get_or-write_in bs off src i k (omega arith) h1 (omega arith)
get_or-write_in (b ∷ bs) zero [] i k e h1 h2 = absurd (omega arith)
get_or-write_in (b ∷ bs) zero (x ∷ xs) zero zero e h1 h2 = refl
get_or-write_in (b ∷ bs) zero (x ∷ xs) zero (suc k) e h1 h2 = absurd (omega arith)
get_or-write_in (b ∷ bs) zero (x ∷ xs) (suc i) zero e h1 h2 = absurd (omega arith)
get_or-write_in (b ∷ bs) zero (x ∷ xs) (suc i) (suc k) e h1 h2 =
    get_or-write_in bs zero xs i k (omega arith) (omega arith) (omega arith)

get_or-write_before :
    (buf : Bytes) (off : ℕ) (src : Bytes) (i : ℕ)
    → i < off
    → get_or (write buf off src) i 0 ≡ get_or buf i 0
unfolding write
get_or-write_before [] off src i h = refl
get_or-write_before (b ∷ bs) zero src i h = absurd (omega arith)
get_or-write_before (b ∷ bs) (suc off) src zero h = refl
get_or-write_before (b ∷ bs) (suc off) src (suc i) h =
    get_or-write_before bs off src i (omega arith)

get_or-write_after :
    (buf : Bytes) (off : ℕ) (src : Bytes) (i : ℕ)
    → off + length src ≤ i
    → get_or (write buf off src) i 0 ≡ get_or buf i 0
unfolding write
get_or-write_after [] off src i h = refl
get_or-write_after (b ∷ bs) (suc off) src zero h = absurd (omega arith)
get_or-write_after (b ∷ bs) (suc off) src (suc i) h = get_or-write_after bs off src i (omega arith)
get_or-write_after (b ∷ bs) zero [] i h = refl
get_or-write_after (b ∷ bs) zero (x ∷ xs) zero h = absurd (omega arith)
get_or-write_after (b ∷ bs) zero (x ∷ xs) (suc i) h = get_or-write_after bs zero xs i (omega arith)

pub get_or-take : (n : ℕ) (xs : Bytes) (i : ℕ) → i < n → get_or (take n xs) i 0 ≡ get_or xs i 0
get_or-take zero xs i h = absurd (omega arith)
get_or-take (suc n) [] i h = refl
get_or-take (suc n) (x ∷ xs) zero h = refl
get_or-take (suc n) (x ∷ xs) (suc i) h = get_or-take n xs i (omega arith)

pub get_or-drop :
    (n : ℕ) (xs : Bytes) (i j : ℕ) → j ≡ n + i → get_or (drop n xs) i 0 ≡ get_or xs j 0
get_or-drop zero xs i j e = ap (λ (k : ℕ). get_or xs k 0) (omega arith)
get_or-drop (suc n) [] i j e = refl
get_or-drop (suc n) (x ∷ xs) i zero e = absurd (omega arith)
get_or-drop (suc n) (x ∷ xs) i (suc j) e = get_or-drop n xs i j (omega arith)

module _ (buf : Bytes) (size abs : ℕ) (src : Bytes) (whole : length buf ≡ size) (pos : 0 < size)
    (fits : length src ≤ size) where
  pub length-ring_put : length (ring_put buf size abs src) ≡ size
  unfolding ring_put
  length-ring_put =
      let off = abs % size in
      let first = min (length src) (size - off) in
      let once = write buf off (take first src) in
      elim (Bool-cases (ltb first (length src))) [
        | inl wraps ↦
            rw wraps
              (length-write once 0 (drop first src) ∙ length-write buf off (take first src) ∙ whole)
        | inr flat ↦ rw flat (length-write buf off (take first src) ∙ whole)
      ]

  -- The bytes that `ring_put` writes are read at their positions.
  pub ring_put_in :
      (k : ℕ)
      → k < length src
      → get_or (ring_put buf size abs src) ((abs + k) % size) 0 ≡ get_or src k 0
  unfolding ring_put
  ring_put_in k inside =
      let off = abs % size in
      let low : off < size = mod-lt abs pos in
      let first = min (length src) (size - off) in
      let once = write buf off (take first src) in
      let sized = length-write buf off (take first src) in
      let head_len = length-take first src in
      elim (Bool-cases (ltb first (length src))) [
        | inl wraps ↦
            let more : first < length src = ground arith in
            rw wraps (elim (mod_step abs k size pos (omega arith)) [
              | inl (small, at) ↦
                  get_or-write_after once 0 (drop first src) ((abs + k) % size)
                    (omega (arith, length-drop first src))
                  ∙ get_or-write_in buf off (take first src) ((abs + k) % size) k at (omega arith)
                      (omega arith)
                  ∙ get_or-take first src k (omega arith)
              | inr (big, at) ↦
                  get_or-write_in once 0 (drop first src) ((abs + k) % size) ((abs + k) % size)
                    (omega arith) (omega (arith, length-drop first src)) (omega arith)
                  ∙ get_or-drop first src ((abs + k) % size) k (omega arith)
            ])
        | inr flat ↦
            let none_left : length src ≤ first = ground arith in
            rw flat (elim (mod_step abs k size pos (omega arith)) [
              | inl (small, at) ↦
                  get_or-write_in buf off (take first src) ((abs + k) % size) k at (omega arith)
                    (omega arith)
                  ∙ get_or-take first src k (omega arith)
              | inr (big, at) ↦ absurd (omega arith)
            ])
      ]

  -- Every other position of the last `size` keeps its byte.
  pub ring_put_out :
      (q : ℕ)
      → q < abs
      → abs < q + size
      → abs + length src ≤ q + size
      → get_or (ring_put buf size abs src) (q % size) 0 ≡ get_or buf (q % size) 0
  unfolding ring_put
  ring_put_out q below near clear =
      let off = abs % size in
      let low : off < size = mod-lt abs pos in
      let first = min (length src) (size - off) in
      let once = write buf off (take first src) in
      let head_len = length-take first src in
      let gap : abs ≡ q + (abs - q) = omega arith in
      let same : abs % size ≡ (q + (abs - q)) % size = ap (λ (n : ℕ). n % size) gap in
      elim (Bool-cases (ltb first (length src))) [
        | inl wraps ↦
            let more : first < length src = ground arith in
            rw wraps (elim (mod_step q (abs - q) size pos (omega arith)) [
              | inl (small, at) ↦
                  get_or-write_after once 0 (drop first src) (q % size)
                    (omega (arith, length-drop first src))
                  ∙ get_or-write_before buf off (take first src) (q % size) (omega arith)
              | inr (big, at) ↦ absurd (omega (arith, mod-lt q pos))
            ])
        | inr flat ↦
            let none_left : length src ≤ first = ground arith in
            rw flat (elim (mod_step q (abs - q) size pos (omega arith)) [
              | inl (small, at) ↦
                  get_or-write_before buf off (take first src) (q % size) (omega arith)
              | inr (big, at) ↦ get_or-write_after buf off (take first src) (q % size) (omega arith)
            ])
      ]
