-- ===== src/Network/Check.antt =====
-- A check reads a proposal and adds to an error what is wrong with it, as the functions of
-- network_validate.c do with `ok` and `err`: the Boolean is the function's result. The combinators are
-- the ways in which those functions go on.
use cedar_switch_3i4o_power.Common.{
  ℕ, ◌<◌, ◌≡◌, ◌⊎◌, inl, inr, refl, Bool, true, false, ◌&&◌, some, List, [], ◌∷◌, ◌++◌, Bytes,
  length, leb, if◌then◌else◌, arith, Bool-cases,
}
use cedar_switch_3i4o_power.ApiValidation.Errors.{
  ApiError, api_error_add_field, path_is_valid, api_field_code_str, field_code_count, is_null,
}

abbrev pub Check : Type 0
Check = ApiError → Bool × ApiError

-- Nothing is wrong.
unfoldable pub pass : Check
pass err = (true, err)

module _ (max_fields : ℕ) where
  -- `(void)api_error_add_field(err, path, code); ok = false;`
  unfoldable pub refuse : Bytes → ℕ → Check
  refuse path code err = (false, (api_error_add_field max_fields err (some path) code).1)

  unfoldable pub refuse_if : Bool → Bytes → ℕ → Check
  unfolding refuse pass
  refuse_if bad path code err = if bad then refuse path code err else pass err

-- Both are made, and both must pass.
unfoldable pub also : Check → Check → Check
also a b err = let first = a err in let second = b first.1 in (first.0 && second.0, second.1)

-- The second is made only if the first passes: `return false`.
unfoldable pub unless_failed : Check → Check → Check
unless_failed a b err = let first = a err in if first.0 then b first.1 else first

-- What a check does to an error: a pass leaves it alone, and a refusal leaves it with a field.
abbrev pub Judged : ApiError → Bool × ApiError → Type 0
Judged err v = ((v.0 ≡ true) × (v.1 ≡ err)) ⊎ ((v.0 ≡ false) × (0 < length v.1.fields))

pub record Judges (check : Check) : Type 0 where
  pub judged : (err : ApiError) → Judged err (check err)

pub pass-Judges : Judges pass
unfolding pass
pass-Judges = record { judged = λ err. inl (refl, refl) }

length-snoc : {A : Type 0} (xs : List A) (x : A) → 0 < length (xs ++ (x ∷ []))
length-snoc [] x = omega arith
length-snoc (y ∷ xs) x = omega arith

known_code : (code : ℕ) → code < field_code_count → is_null (api_field_code_str code) ≡ false
unfolding api_field_code_str
known_code code h = let below : leb field_code_count code ≡ false = ground arith in rw below refl

module _ (max_fields : ℕ) (carries : 0 < max_fields) where
  refuse-Judged :
      (path : Bytes) (code : ℕ)
      → path_is_valid (some path) ≡ true
      → code < field_code_count
      → (err : ApiError) → Judged err (refuse max_fields path code err)
  unfolding refuse api_error_add_field
  refuse-Judged path code fine known err =
      rw (fine, known_code code known)
        (elim (Bool-cases (leb max_fields (length err.fields))) [
          | inl full ↦ rw full (inr (refl, ground arith))
          | inr room ↦ rw room (inr (refl, length-snoc err.fields _))
        ])

  pub refuse-Judges :
      (path : Bytes) (code : ℕ)
      → path_is_valid (some path) ≡ true
      → code < field_code_count
      → Judges (refuse max_fields path code)
  refuse-Judges path code fine known = record { judged = refuse-Judged path code fine known }

  pub refuse_if-Judges :
      (bad : Bool) (path : Bytes) (code : ℕ)
      → path_is_valid (some path) ≡ true
      → code < field_code_count
      → Judges (refuse_if max_fields bad path code)
  unfolding refuse_if pass
  refuse_if-Judges bad path code fine known = record { judged = either bad }
    where
      either : (bad : Bool) (err : ApiError) → Judged err (refuse_if max_fields bad path code err)
      either true err = refuse-Judged path code fine known err
      either false err = inl (refl, refl)

pub also-Judges : (a b : Check) → Judges a → Judges b → Judges (also a b)
unfolding also
also-Judges a b ja jb = record {
  judged = λ err. joined err (a err) (b (a err).1) (ja.judged err) (jb.judged (a err).1);
}
  where
    joined :
        (err : ApiError) (u v : Bool × ApiError)
        → Judged err u
        → Judged u.1 v
        → Judged err (u.0 && v.0, v.1)
    joined err (true, e) (true, e') h k = ground arith
    joined err (true, e) (false, e') h k = ground arith
    joined err (false, e) (true, e') h k = ground arith
    joined err (false, e) (false, e') h k = ground arith

pub unless_failed-Judges : (a b : Check) → Judges a → Judges b → Judges (unless_failed a b)
unfolding unless_failed
unless_failed-Judges a b ja jb = record {
  judged = λ err. joined err (a err) (b (a err).1) (ja.judged err) (jb.judged (a err).1);
}
  where
    joined :
        (err : ApiError) (u v : Bool × ApiError)
        → Judged err u
        → Judged u.1 v
        → Judged err (if u.0 then v else u)
    joined err (true, e) v h k = ground arith
    joined err (false, e) v h k = ground arith

pub if-Judges : (t : Bool) (a b : Check) → Judges a → Judges b → Judges (if t then a else b)
if-Judges true a b ja jb = ja
if-Judges false a b ja jb = jb

-- The second branch may use that the test failed.
pub or_else-Judges :
    (t : Bool) (a b : Check) → Judges a → (t ≡ false → Judges b) → Judges (if t then a else b)
or_else-Judges true a b ja jb = ja
or_else-Judges false a b ja jb = jb refl

-- What a pass of a check tells.
pub record Ensures (check : Check) (Fact : Type 0) : Type 0 where
  pub ensures : (err : ApiError) → (check err).0 ≡ true → Fact

pub weaken-Ensures : {P Q : Type 0} (check : Check) → (P → Q) → Ensures check P → Ensures check Q
weaken-Ensures check f e = record { ensures = λ err h. f (e.ensures err h) }

pub refuse-Ensures :
    {P : Type 0} (max_fields : ℕ) (path : Bytes) (code : ℕ)
    → Ensures (refuse max_fields path code) P
unfolding refuse
refuse-Ensures max_fields path code = record { ensures = λ err h. ground arith }

pub refuse_if-Ensures :
    (max_fields : ℕ) (bad : Bool) (path : Bytes) (code : ℕ)
    → Ensures (refuse_if max_fields bad path code) (bad ≡ false)
unfolding refuse_if refuse
refuse_if-Ensures max_fields true path code = record { ensures = λ err h. ground arith }
refuse_if-Ensures max_fields false path code = record { ensures = λ err h. refl }

module _ {P Q : Type 0} where
  pub also-Ensures : (a b : Check) → Ensures a P → Ensures b Q → Ensures (also a b) (P × Q)
  unfolding also
  also-Ensures a b ea eb = record {
    ensures = λ err h.
        let both : ((a err).0 ≡ true) × ((b (a err).1).0 ≡ true) = ground arith in
        (ea.ensures err both.0, eb.ensures (a err).1 both.1);
  }

  pub unless_failed-Ensures :
      (a b : Check) → Ensures a P → Ensures b Q → Ensures (unless_failed a b) (P × Q)
  unfolding unless_failed
  unless_failed-Ensures a b ea eb = record {
    ensures = λ err h.
        let both = split (a err) (b (a err).1) h in
        (ea.ensures err both.0, eb.ensures (a err).1 both.1);
  }
    where
      split :
          (u v : Bool × ApiError) → (if u.0 then v else u).0 ≡ true → (u.0 ≡ true) × (v.0 ≡ true)
      split (true, e) v h = (refl, h)
      split (false, e) v h = (h, ground arith)

pub if-Ensures :
    {P : Type 0} (t : Bool) (a b : Check)
    → (t ≡ true → Ensures a P)
    → (t ≡ false → Ensures b P)
    → Ensures (if t then a else b) P
if-Ensures true a b ea eb = ea refl
if-Ensures false a b ea eb = eb refl
