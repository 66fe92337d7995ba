-- ===== src/LogStore/Filter/Contains.antt =====
-- The search of `ascii_contains` finds a text that is there, and nothing else.
use native.Mathlib.Decide.{dec_lt}
use cedar_switch_3i4o_power.Common.{
  ℕ, zero, suc, ◌+◌, ◌<◌, ◌≤◌, ◌≡◌, ◌↔◌, refl, true, false, [], ◌∷◌, Bytes, length, get_or, leb,
  ◌==◌, arith, Bool-cases, inl, inr,
}
use cedar_switch_3i4o_power.LogStore.Filter.{lower, equal_from, contains_from, ascii_contains}

-- The needle stands at `p` of the haystack, but for the case of its letters.
pub record OccursAt (hay needle : Bytes) (p : ℕ) : Type 0 where
  pub fits : p + length needle ≤ length hay
  pub same : (k : ℕ) → k < length needle → lower (get_or hay (p + k) 0) ≡ lower (get_or needle k 0)

equal_from-at :
    (hay needle : Bytes) (i left k m : ℕ)
    → k ≤ m
    → m < k + left
    → equal_from hay needle i k left ≡ true
    → lower (get_or hay (i + m) 0) ≡ lower (get_or needle m 0)
unfolding equal_from
equal_from-at hay needle i zero k m low high h = absurd (omega arith)
equal_from-at hay needle i (suc left) k m low high h =
    elim (Bool-cases (lower (get_or hay (i + k) 0) == lower (get_or needle k 0))) [
      | inr other ↦ absurd (let stop = rw other at h in cc)
      | inl here ↦
          let later : equal_from hay needle i (k + 1) left ≡ true = rw here at h in
          elim (dec_lt k m) [
            | yes more ↦ equal_from-at hay needle i left (k + 1) m (omega arith) (omega arith) later
            | no last ↦
                let at : m ≡ k = omega arith in
                let equal : lower (get_or hay (i + k) 0) ≡ lower (get_or needle k 0) =
                  ground arith in
                rw at equal
          ]
    ]

equal_from-all :
    (hay needle : Bytes) (i left k : ℕ)
    → ((m : ℕ) → k ≤ m → m < k + left → lower (get_or hay (i + m) 0) ≡ lower (get_or needle m 0))
    → equal_from hay needle i k left ≡ true
unfolding equal_from
equal_from-all hay needle i zero k h = refl
equal_from-all hay needle i (suc left) k h =
    let here : (lower (get_or hay (i + k) 0) == lower (get_or needle k 0)) ≡ true =
      let same = h k (omega arith) (omega arith) in ground arith in
    rw here (equal_from-all hay needle i left (k + 1) λ m low high. h m (omega arith) (omega arith))

contains_from-found :
    (hay needle : Bytes) (hay_len n fuel i : ℕ)
    → contains_from hay hay_len needle n i fuel ≡ true
    → (p : ℕ) × (p + n ≤ hay_len) × (equal_from hay needle p 0 n ≡ true)
unfolding contains_from
contains_from-found hay needle hay_len n zero i h = absurd (cc)
contains_from-found hay needle hay_len n (suc fuel) i h = elim (Bool-cases (leb (i + n) hay_len)) [
  | inr over ↦ absurd (let stop = rw over at h in cc)
  | inl room ↦ elim (Bool-cases (equal_from hay needle i 0 n)) [
    | inl found ↦ (i, ground arith, found)
    | inr other ↦ contains_from-found hay needle hay_len n fuel (i + 1) (rw (room, other) at h)
  ]
]

contains_from-finds :
    (hay needle : Bytes) (hay_len n p fuel i : ℕ)
    → i ≤ p
    → p < i + fuel
    → p + n ≤ hay_len
    → equal_from hay needle p 0 n ≡ true
    → contains_from hay hay_len needle n i fuel ≡ true
unfolding contains_from
contains_from-finds hay needle hay_len n p zero i low high fits h = absurd (omega arith)
contains_from-finds hay needle hay_len n p (suc fuel) i low high fits h =
    let room : leb (i + n) hay_len ≡ true = ground arith in
    rw room (elim (Bool-cases (equal_from hay needle i 0 n)) [
      | inl found ↦ rw found
      | inr other ↦ rw other (elim (dec_lt i p) [
        | yes later ↦
            contains_from-finds hay needle hay_len n p fuel (i + 1) (omega arith) (omega arith) fits
              h
        | no here ↦ let at : p ≡ i = omega arith in absurd (let both = rw (at, other) at h in cc)
      ])
    ])

-- The search succeeds exactly when the needle stands somewhere in the haystack, the case of ASCII
-- letters aside.
pub ascii_contains-OccursAt :
    (hay needle : Bytes)
    → ascii_contains hay (length hay) needle ≡ true ↔ ((p : ℕ) × OccursAt hay needle p)
unfolding ascii_contains
ascii_contains-OccursAt hay [] = (
  λ h. (0, record { fits = omega arith; same = λ k inside. absurd (omega arith) }),
  λ found. refl,
)
ascii_contains-OccursAt hay (b ∷ needle) =
    let whole = b ∷ needle in
    let given : (length (b ∷ needle) == 0) ≡ false = ground arith in
    (
      λ h.
          let (p, fits, same) =
            contains_from-found hay whole (length hay) (length whole) (length hay + 1) 0
              (rw given at h) in
          (
            p,
            record {
              fits = fits;
              same = λ k inside.
                  equal_from-at hay whole p (length whole) 0 k (omega arith) (omega arith) same;
            },
          ),
      λ found.
          let (p, at) = found in
          rw given (
            contains_from-finds hay whole (length hay) (length whole) p (length hay + 1) 0
              (omega arith) (omega (arith, at.fits)) at.fits
              (equal_from-all hay whole p (length whole) 0 λ m low high. at.same m (omega arith))),
    )
