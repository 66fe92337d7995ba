-- ===== src/ApiValidation/Errors/Codes.antt =====
-- The wire names of the error codes tell the codes apart.
use cedar_switch_3i4o_power.Common.{
  ℕ, ◌<◌, ◌≡◌, refl, Bool, true, false, ◌||◌, not, Option, none, some, Bytes, bytes_eq,
  bytes_eq_refl, passes_below, passes_below-at, ◌==◌, arith, Bool-cases, inl, inr,
}
use cedar_switch_3i4o_power.ApiValidation.Errors.{code_in_range, api_error_str}

abbrev same_name : Option Bytes → Option Bytes → Bool
same_name (some a) (some b) = bytes_eq a b
same_name _ _ = false

-- Every pair of codes: the same one, or two names.
names_differ :
    passes_below
      (λ a. passes_below (λ b. a == b || not (same_name (api_error_str a) (api_error_str b))) 30)
      30
    ≡ true
unfolding passes_below api_error_str bytes_eq
names_differ = refl

same_name_self : (a : Option Bytes) (n : Bytes) → a ≡ some n → same_name a a ≡ true
same_name_self none n h = cc
same_name_self (some m) n h = bytes_eq_refl m

known_of_name : (a : ℕ) (n : Bytes) → api_error_str a ≡ some n → a < 30
unfolding api_error_str
known_of_name a n h = elim (Bool-cases (code_in_range a)) [
  | inl known ↦ unfold code_in_range in ground arith
  | inr unknown ↦ absurd (let no_name = rw unknown at h in cc)
]

-- No two error codes have one wire name.
pub api_error_str-injective :
    (a b : ℕ) (name : Bytes) → api_error_str a ≡ some name → api_error_str b ≡ some name → a ≡ b
api_error_str-injective a b name ha hb =
    let row = passes_below-at _ 30 a (known_of_name a name ha) names_differ in
    let cell : (a == b || not (same_name (api_error_str a) (api_error_str b))) ≡ true =
      passes_below-at _ 30 b (known_of_name b name hb) row in
    let same : same_name (api_error_str a) (api_error_str b) ≡ true =
      rw (ha, hb) (bytes_eq_refl name) in
    ground arith
