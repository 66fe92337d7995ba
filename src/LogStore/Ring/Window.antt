-- ===== src/LogStore/Ring/Window.antt =====
-- A ring seen as an endless row of bytes: position `p` is the byte at `p % size`.
use native.Mathlib.Nat.{mod-lt}
use cedar_switch_3i4o_power.Common.{
  ℕ, zero, suc, ◌+◌, ◌-◌, ◌%◌, ◌<◌, ◌≤◌, ◌≡◌, inl, inr, refl, sym, ap, ap₂, ◌∙◌, min, [], ◌∷◌, ◌++◌,
  Bytes, length, get_or, take, drop, length-take, length-drop, length-append, ltb, arith,
  Bool-cases,
}
use cedar_switch_3i4o_power.LogStore.Ring.{ring_put, ring_get}
use cedar_switch_3i4o_power.LogStore.Ring.Positions.{
  mod_step, get_or-take, get_or-drop, length-ring_put, ring_put_in, ring_put_out,
}

-- The `n` bytes from position `p` on.
abbrev pub window : Bytes → ℕ → ℕ → ℕ → Bytes
window buf size p zero = []
window buf size p (suc n) = get_or buf (p % size) 0 ∷ window buf size (p + 1) n

pub length-window : (buf : Bytes) (size p n : ℕ) → length (window buf size p n) ≡ n
length-window buf size p zero = refl
length-window buf size p (suc n) = ap suc (length-window buf size (p + 1) n)

pub window-add :
    (buf : Bytes) (size p n m k : ℕ)
    → k ≡ n + m
    → window buf size p k ≡ window buf size p n ++ window buf size (p + n) m
window-add buf size p zero m k e =
    ap₂ (λ (q j : ℕ). window buf size q j) (omega arith) (omega arith)
window-add buf size p (suc n) m zero e = absurd (omega arith)
window-add buf size p (suc n) m (suc k) e = ap (◌∷◌ (get_or buf (p % size) 0)) (
    window-add buf size (p + 1) n m k (omega arith)
    ∙ ap (λ (q : ℕ). window buf size (p + 1) n ++ window buf size q m) (omega arith))

-- A window is known from its bytes.
pub window_of :
    (buf : Bytes) (size p n : ℕ) (xs : Bytes)
    → length xs ≡ n
    → ((k : ℕ) → k < n → get_or buf ((p + k) % size) 0 ≡ get_or xs k 0)
    → window buf size p n ≡ xs
window_of buf size p zero [] len h = refl
window_of buf size p zero (x ∷ xs) len h = absurd (omega arith)
window_of buf size p (suc n) [] len h = absurd (omega arith)
window_of buf size p (suc n) (x ∷ xs) len h =
    ap₂ (λ (b : ℕ) (r : Bytes). b ∷ r)
      (ap (λ (q : ℕ). get_or buf (q % size) 0) {y = p + 0} (omega arith) ∙ h 0 (omega arith))
      (window_of buf size (p + 1) n xs (omega arith) λ k inside.
        ap (λ (q : ℕ). get_or buf (q % size) 0) {y = p + suc k} (omega arith)
        ∙ h (suc k) (omega arith))

pub window_congr :
    (a b : Bytes) (size p n : ℕ)
    → ((k : ℕ) → k < n → get_or a ((p + k) % size) 0 ≡ get_or b ((p + k) % size) 0)
    → window a size p n ≡ window b size p n
window_congr a b size p zero h = refl
window_congr a b size p (suc n) h =
    ap₂ (λ (x : ℕ) (r : Bytes). x ∷ r)
      (ap (λ (q : ℕ). get_or a (q % size) 0) {y = p + 0} (omega arith)
        ∙ h 0 (omega arith)
        ∙ ap (λ (q : ℕ). get_or b (q % size) 0) {x = p + 0} (omega arith))
      (window_congr a b size (p + 1) n λ k inside.
        ap (λ (q : ℕ). get_or a (q % size) 0) {y = p + suc k} (omega arith)
        ∙ h (suc k) (omega arith)
        ∙ ap (λ (q : ℕ). get_or b (q % size) 0) {x = p + suc k} (omega arith))

get_or-append_in : (xs ys : Bytes) (k : ℕ) → k < length xs → get_or (xs ++ ys) k 0 ≡ get_or xs k 0
get_or-append_in [] ys k h = absurd (omega arith)
get_or-append_in (x ∷ xs) ys zero h = refl
get_or-append_in (x ∷ xs) ys (suc k) h = get_or-append_in xs ys k (omega arith)

get_or-append_past :
    (xs ys : Bytes) (k j : ℕ) → k ≡ length xs + j → get_or (xs ++ ys) k 0 ≡ get_or ys j 0
get_or-append_past [] ys k j e = ap (λ (n : ℕ). get_or ys n 0) {y = j} (omega arith)
get_or-append_past (x ∷ xs) ys zero j e = absurd (omega arith)
get_or-append_past (x ∷ xs) ys (suc k) j e = get_or-append_past xs ys k j (omega arith)

-- `ring_get` reads a window.
pub ring_get-window :
    (buf : Bytes) (size abs n : ℕ)
    → length buf ≡ size
    → 0 < size
    → n ≤ size
    → ring_get buf size abs n ≡ window buf size abs n
unfolding ring_get
ring_get-window buf size abs n whole pos fits =
    let off = abs % size in
    let low : off < size = mod-lt abs pos in
    let first = min n (size - off) in
    let start = take first (drop off buf) in
    let start_len : length start ≡ first =
      omega (arith, length-take first (drop off buf), length-drop off buf) in
    let tail_len = length-take (n - first) buf in
    elim (Bool-cases (ltb first n)) [
      | inl wraps ↦
          let more : first < n = ground arith in
          rw wraps (
            sym (
              window_of buf size abs n (start ++ take (n - first) buf)
                (omega (arith, length-append start (take (n - first) buf)))
                λ k inside. elim (mod_step abs k size pos (omega arith)) [
                  | inl (small, at) ↦ sym (
                      get_or-append_in start (take (n - first) buf) k (omega arith)
                      ∙ get_or-take first (drop off buf) k (omega arith)
                      ∙ get_or-drop off buf k ((abs + k) % size) at)
                  | inr (big, at) ↦ sym (
                      get_or-append_past start (take (n - first) buf) k ((abs + k) % size)
                        (omega arith)
                      ∙ get_or-take (n - first) buf ((abs + k) % size) (omega arith))
                ]))
      | inr flat ↦
          let none_left : n ≤ first = ground arith in
          rw flat (
            sym (
              window_of buf size abs n start (omega arith) λ k inside.
                elim (mod_step abs k size pos (omega arith)) [
                  | inl (small, at) ↦ sym (
                      get_or-take first (drop off buf) k (omega arith)
                      ∙ get_or-drop off buf k ((abs + k) % size) at)
                  | inr (big, at) ↦ absurd (omega arith)
                ]))
    ]

module _ (buf : Bytes) (size abs : ℕ) (src : Bytes) (whole : length buf ≡ size) (pos : 0 < size)
    (fits : length src ≤ size) where
  -- What `ring_put` writes is what stands there afterwards.
  pub window-ring_put : window (ring_put buf size abs src) size abs (length src) ≡ src
  window-ring_put =
      window_of (ring_put buf size abs src) size abs (length src) src refl
        (ring_put_in buf size abs src whole pos fits)

  -- What stands before, as far back as the ring reaches, stays.
  pub window-ring_put_before :
      (p n : ℕ)
      → p + n ≤ abs
      → abs < p + size
      → abs + length src ≤ p + size
      → window (ring_put buf size abs src) size p n ≡ window buf size p n
  window-ring_put_before p n below near clear =
      window_congr (ring_put buf size abs src) buf size p n λ k inside.
        ring_put_out buf size abs src whole pos fits (p + k) (omega arith) (omega arith)
          (omega arith)

  -- What was put is got back.
  pub ring_get-ring_put : ring_get (ring_put buf size abs src) size abs (length src) ≡ src
  ring_get-ring_put =
      ring_get-window (ring_put buf size abs src) size abs (length src)
        (length-ring_put buf size abs src whole pos fits) pos fits
      ∙ window-ring_put

  -- Bytes between a position and the put one, as far back as the ring reaches when the new bytes are
  -- in, are got as before.
  pub ring_get-ring_put_before :
      (p n : ℕ)
      → p + n ≤ abs
      → abs < p + size
      → abs + length src ≤ p + size
      → ring_get (ring_put buf size abs src) size p n ≡ ring_get buf size p n
  ring_get-ring_put_before p n below near clear =
      ring_get-window (ring_put buf size abs src) size p n
        (length-ring_put buf size abs src whole pos fits) pos (omega arith)
      ∙ window-ring_put_before p n below near clear
      ∙ sym (ring_get-window buf size p n whole pos (omega arith))
