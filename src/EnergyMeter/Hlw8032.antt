-- ===== src/EnergyMeter/Hlw8032.antt =====
-- `hlw8032_frame_ok` and `hlw8032_parse`, on frames of 24 bytes.
use cedar_switch_3i4o_power.Common.{
  ℕ, zero, suc, ◌+◌, ◌-◌, ◌*◌, ◌/◌, ◌%◌, ◌^◌, ◌<◌, ◌≤◌, ◌≡◌, ◌≢◌, inl, inr, refl, ap, Bool, true,
  false, ◌&&◌, ◌||◌, not, [], ◌∷◌, Bytes, length, get_or, set, ◌==◌, if◌then◌else◌, arith,
  Bool-cases,
}

-- `struct hlw8032_regs`
pub record Hlw8032Regs : Type 0 where
  pub v_par : ℕ
  pub v : ℕ
  pub i_par : ℕ
  pub i : ℕ
  pub p_par : ℕ
  pub p : ℕ
  pub pf : ℕ

-- `REG24`
unfoldable pub reg24 : Bytes → ℕ → ℕ
reg24 f i = get_or f i 0 * 2 ^ 16 + get_or f (i + 1) 0 * 2 ^ 8 + get_or f (i + 2) 0

-- The sum after `n` rounds of the loop, which begins at byte 2.
unfoldable pub frame_sum : ℕ → Bytes → ℕ
frame_sum zero f = 0
frame_sum (suc n) f = (frame_sum n f + get_or f (2 + n) 0) % 256

-- The two bytes that a frame begins with.
unfoldable pub head_ok : ℕ → ℕ → Bool
head_ok state check = check == 0x5A && (state == 0x55 || (state / 16 == 15 && state % 2 == 0))

unfoldable pub hlw8032_frame_ok : Bytes → Bool
hlw8032_frame_ok f =
    if not (head_ok (get_or f 0 0) (get_or f 1 0)) then false else frame_sum 21 f == get_or f 23 0

abbrev pub bit : ℕ → ℕ → Bool
bit byte k = byte / 2 ^ k % 2 == 1

-- A measurement: zero on overflow, and the old one if the frame has no new one.
unfoldable pub measured : Bool → Bool → ℕ → ℕ → ℕ
measured overflow updated new old = if overflow then 0 else if updated then new else old

unfoldable pub hlw8032_parse : Bytes → Hlw8032Regs → Hlw8032Regs
unfolding reg24 measured
hlw8032_parse f r =
    let state = get_or f 0 0 in
    let overflow = if state / 16 == 15 then state else 0 in
    let updated = get_or f 20 0 in
    record {
      v_par = reg24 f 2;
      i_par = reg24 f 8;
      p_par = reg24 f 14;
      v = measured (bit overflow 3) (bit updated 6) (reg24 f 5) r.v;
      i = measured (bit overflow 2) (bit updated 5) (reg24 f 11) r.i;
      p = measured (bit overflow 1) (bit updated 4) (reg24 f 17) r.p;
      pf = get_or f 21 0 * 2 ^ 8 + get_or f 22 0;
    }

get_or-set_at : (f : Bytes) (i b : ℕ) → i < length f → get_or (set f i b) i 0 ≡ b
get_or-set_at [] i b h = absurd (omega arith)
get_or-set_at (x ∷ f) zero b h = refl
get_or-set_at (x ∷ f) (suc i) b h = get_or-set_at f i b (omega arith)

get_or-set_elsewhere : (f : Bytes) (i j b : ℕ) → i ≢ j → get_or (set f i b) j 0 ≡ get_or f j 0
get_or-set_elsewhere [] i j b h = refl
get_or-set_elsewhere (x ∷ f) zero zero b h = absurd (h refl)
get_or-set_elsewhere (x ∷ f) zero (suc j) b h = refl
get_or-set_elsewhere (x ∷ f) (suc i) zero b h = refl
get_or-set_elsewhere (x ∷ f) (suc i) (suc j) b h = get_or-set_elsewhere f i j b (λ e. h (ap suc e))

-- A byte behind those that are summed.
frame_sum-set_behind :
    (n k b : ℕ) (f : Bytes) → n ≤ k → frame_sum n (set f (2 + k) b) ≡ frame_sum n f
unfolding frame_sum
frame_sum-set_behind zero k b f h = refl
frame_sum-set_behind (suc n) k b f h =
    rw
      (
        frame_sum-set_behind n k b f (omega arith),
        get_or-set_elsewhere f (2 + k) (2 + n) b (omega arith),
      )
      refl

frame_sum-set :
    (n k b : ℕ) (f : Bytes)
    → k < n
    → 2 + k < length f
    → (frame_sum n (set f (2 + k) b) + get_or f (2 + k) 0) % 256 ≡ (frame_sum n f + b) % 256
unfolding frame_sum
frame_sum-set zero k b f h room = absurd (omega arith)
frame_sum-set (suc n) k b f h room = elim (Bool-cases (k == n)) [
  | inl last ↦
      let same : k ≡ n = ground arith in
      rw (← same) (
        rw (frame_sum-set_behind k k b f (omega arith), get_or-set_at f (2 + k) b room)
          (omega arith))
  | inr before ↦
      let less : k < n = ground arith in
      let other : 2 + k ≢ 2 + n = omega arith in
      rw (get_or-set_elsewhere f (2 + k) (2 + n) b other)
        (omega (arith, frame_sum-set n k b f less room))
]

-- The two sums cannot both be the last byte.
sums_differ :
    (s s1 last a b : ℕ)
    → (s1 + a) % 256 ≡ (s + b) % 256
    → s ≡ last
    → a < 256
    → b < 256
    → b ≢ a
    → (s1 == last) ≡ false
sums_differ s s1 last a b e same ha hb other = elim (Bool-cases (s1 == last)) [
  | inr no_match ↦ no_match
  | inl match ↦ absurd (let equal : s1 ≡ last = ground arith in omega arith)
]

accepted_sum :
    (f : Bytes)
    → hlw8032_frame_ok f ≡ true
    → (head_ok (get_or f 0 0) (get_or f 1 0) ≡ true) × (frame_sum 21 f ≡ get_or f 23 0)
unfolding hlw8032_frame_ok
accepted_sum f ok = ground arith

-- The checksum finds a wrong byte: if a frame of 24 bytes is accepted, no frame with one of its bytes 2
-- to 22 changed for another is.
pub hlw8032_frame_ok-set :
    (f : Bytes) (i b : ℕ)
    → length f ≡ 24
    → hlw8032_frame_ok f ≡ true
    → 2 ≤ i
    → i ≤ 22
    → get_or f i 0 < 256
    → b < 256
    → b ≢ get_or f i 0
    → hlw8032_frame_ok (set f i b) ≡ false
unfolding hlw8032_frame_ok
hlw8032_frame_ok-set f i b size ok low high old new other =
    let (head, sum) = accepted_sum f ok in
    let k = i - 2 in
    let place : i ≡ 2 + k = omega arith in
    let moved : (frame_sum 21 (set f i b) + get_or f i 0) % 256 ≡ (frame_sum 21 f + b) % 256 =
      rw place (frame_sum-set 21 k b f (omega arith) (omega arith)) in
    let wrong =
      sums_differ (frame_sum 21 f) (frame_sum 21 (set f i b)) (get_or f 23 0) (get_or f i 0) b moved
        sum old new other in
    rw
      (
        get_or-set_elsewhere f i 0 b (omega arith),
        get_or-set_elsewhere f i 1 b (omega arith),
        get_or-set_elsewhere f i 23 b (omega arith),
        head,
        wrong,
      )
      refl
