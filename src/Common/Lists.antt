-- ===== src/Common/Lists.antt =====
-- C arrays as lists with native indices, and sums over them.
use Prim.Native.Nat.{ℕ, zero, suc, ◌+◌, ◌-◌, ◌≤◌, min}
use mathlib.Core.Path.{◌≡◌, refl, sym, ap, subst, ◌∙◌}
use mathlib.Core.Logic.{◌≢◌}
use mathlib.Core.List.{List, [], ◌∷◌, ◌++◌}
use mathlib.Core.Option.{Option, none, some}
use native.Mathlib.Omega.{arith}

module _ {ℓ} {A : Type ℓ} where
  abbrev pub length : List A → ℕ
  length [] = 0
  length (x ∷ xs) = suc (length xs)

  abbrev pub get_elem? : List A → ℕ → Option A
  get_elem? [] i = none
  get_elem? (x ∷ xs) zero = some x
  get_elem? (x ∷ xs) (suc i) = get_elem? xs i

  -- A write out of bounds changes nothing.
  abbrev pub set : List A → ℕ → A → List A
  set [] i v = []
  set (x ∷ xs) zero v = v ∷ xs
  set (x ∷ xs) (suc i) v = x ∷ set xs i v

  abbrev pub take : ℕ → List A → List A
  take zero xs = []
  take (suc n) [] = []
  take (suc n) (x ∷ xs) = x ∷ take n xs

  abbrev pub drop : ℕ → List A → List A
  drop zero xs = xs
  drop (suc n) [] = []
  drop (suc n) (x ∷ xs) = drop n xs

  abbrev pub get_or : List A → ℕ → A → A
  get_or [] i d = d
  get_or (x ∷ xs) zero d = x
  get_or (x ∷ xs) (suc i) d = get_or xs i d

  -- A property of every entry of a list.
  abbrev pub All {κ} : (A → Type κ) → List A → Type κ
  All P [] = Unit
  All P (x ∷ xs) = P x × All P xs

  abbrev pub replicate : ℕ → A → List A
  replicate zero a = []
  replicate (suc n) a = a ∷ replicate n a

  -- The sum of `f` over a list; with `f` into 0 and 1, a count.
  abbrev pub sum_by : (A → ℕ) → List A → ℕ
  sum_by f [] = 0
  sum_by f (x ∷ xs) = f x + sum_by f xs

module _ {ℓ} {A : Type ℓ} where
  pub append_nil : (xs : List A) → xs ++ [] ≡ xs
  append_nil [] = refl
  append_nil (x ∷ xs) = ap (◌∷◌ x) (append_nil xs)

  pub length-append : (xs ys : List A) → length (xs ++ ys) ≡ length xs + length ys
  length-append [] ys = omega arith
  length-append (x ∷ xs) ys = omega (arith, length-append xs ys)

  pub length-take : (n : ℕ) (xs : List A) → length (take n xs) ≡ min n (length xs)
  length-take zero xs = omega arith
  length-take (suc n) [] = omega arith
  length-take (suc n) (x ∷ xs) = omega (arith, length-take n xs)

  pub length-drop : (n : ℕ) (xs : List A) → length (drop n xs) ≡ length xs - n
  length-drop zero xs = omega arith
  length-drop (suc n) [] = omega arith
  length-drop (suc n) (x ∷ xs) = omega (arith, length-drop n xs)

  pub take-append : (n : ℕ) (xs ys : List A) → length xs ≡ n → take n (xs ++ ys) ≡ xs
  take-append zero [] ys h = refl
  take-append zero (x ∷ xs) ys h = absurd (omega arith)
  take-append (suc n) [] ys h = absurd (omega arith)
  take-append (suc n) (x ∷ xs) ys h = ap (◌∷◌ x) (take-append n xs ys (omega arith))

  pub drop-append : (n : ℕ) (xs ys : List A) → length xs ≡ n → drop n (xs ++ ys) ≡ ys
  drop-append zero [] ys h = refl
  drop-append zero (x ∷ xs) ys h = absurd (omega arith)
  drop-append (suc n) [] ys h = absurd (omega arith)
  drop-append (suc n) (x ∷ xs) ys h = drop-append n xs ys (omega arith)

  -- A prefix that is skipped whole.
  pub drop-append_skip :
      (n k m : ℕ) (xs ys : List A) → n ≡ k + m → length xs ≡ k → drop n (xs ++ ys) ≡ drop m ys
  drop-append_skip n k m [] ys e h = ap (λ j. drop j ys) (omega arith)
  drop-append_skip zero k m (x ∷ xs) ys e h = absurd (omega arith)
  drop-append_skip (suc n) k m (x ∷ xs) ys e h =
      drop-append_skip n (k - 1) m xs ys (omega arith) (omega arith)

  pub take-append-drop : (n : ℕ) (xs : List A) → take n xs ++ drop n xs ≡ xs
  take-append-drop zero xs = refl
  take-append-drop (suc n) [] = refl
  take-append-drop (suc n) (x ∷ xs) = ap (◌∷◌ x) (take-append-drop n xs)

  drop-nil : (n : ℕ) → drop {A = A} n [] ≡ []
  drop-nil zero = refl
  drop-nil (suc n) = refl

  pub drop-drop : (n m : ℕ) (xs : List A) → drop n (drop m xs) ≡ drop (m + n) xs
  drop-drop n zero xs = ap (λ k. drop k xs) (omega arith)
  drop-drop n (suc m) [] = drop-nil n ∙ sym (drop-nil (suc m + n))
  drop-drop n (suc m) (x ∷ xs) =
      drop-drop n m xs ∙ ap (λ (k : ℕ). drop k (x ∷ xs)) {x = suc (m + n)} (omega arith)

  pub All-append {κ} : (P : A → Type κ) (xs ys : List A) → All P xs → All P ys → All P (xs ++ ys)
  All-append P [] ys h k = k
  All-append P (x ∷ xs) ys h k = (h.0, All-append P xs ys h.1 k)

  pub All-take {κ} : (P : A → Type κ) (n : ℕ) (xs : List A) → All P xs → All P (take n xs)
  All-take P zero xs h = tt
  All-take P (suc n) [] h = tt
  All-take P (suc n) (x ∷ xs) h = (h.0, All-take P n xs h.1)

  pub All-drop {κ} : (P : A → Type κ) (n : ℕ) (xs : List A) → All P xs → All P (drop n xs)
  All-drop P zero xs h = h
  All-drop P (suc n) [] h = h
  All-drop P (suc n) (x ∷ xs) h = All-drop P n xs h.1

  pub take_all : (n : ℕ) (xs : List A) → length xs ≤ n → take n xs ≡ xs
  take_all zero [] h = refl
  take_all zero (x ∷ xs) h = absurd (omega arith)
  take_all (suc n) [] h = refl
  take_all (suc n) (x ∷ xs) h = ap (◌∷◌ x) (take_all n xs (omega arith))

  pub length-set : (xs : List A) (i : ℕ) (v : A) → length (set xs i v) ≡ length xs
  length-set [] i v = refl
  length-set (x ∷ xs) zero v = refl
  length-set (x ∷ xs) (suc i) v = ap suc (length-set xs i v)

  pub length-replicate : (n : ℕ) (a : A) → length (replicate n a) ≡ n
  length-replicate zero a = refl
  length-replicate (suc n) a = ap suc (length-replicate n a)

  pub get_elem?-set_self :
      (xs : List A) (i : ℕ) (v a : A) → get_elem? xs i ≡ some a → get_elem? (set xs i v) i ≡ some v
  get_elem?-set_self [] i v a h = cc
  get_elem?-set_self (x ∷ xs) zero v a h = refl
  get_elem?-set_self (x ∷ xs) (suc i) v a h = get_elem?-set_self xs i v a h

  pub get_elem?-set_ne :
      (xs : List A) (i j : ℕ) (v : A) → i ≢ j → get_elem? (set xs i v) j ≡ get_elem? xs j
  get_elem?-set_ne [] i j v h = refl
  get_elem?-set_ne (x ∷ xs) zero zero v h = absurd (h refl)
  get_elem?-set_ne (x ∷ xs) zero (suc j) v h = refl
  get_elem?-set_ne (x ∷ xs) (suc i) zero v h = refl
  get_elem?-set_ne (x ∷ xs) (suc i) (suc j) v h = get_elem?-set_ne xs i j v (λ e. h (ap suc e))

  -- Writing back what is there changes nothing.
  pub set-get_elem? : (xs : List A) (i : ℕ) (a : A) → get_elem? xs i ≡ some a → set xs i a ≡ xs
  set-get_elem? [] i a h = refl
  set-get_elem? (x ∷ xs) zero a h = ground arith
  set-get_elem? (x ∷ xs) (suc i) a h = ap (◌∷◌ x) (set-get_elem? xs i a h)

  -- A write moves a sum by the difference of the two entries.
  pub sum_by-set :
      (f : A → ℕ) (xs : List A) (i : ℕ) (v a : A)
      → get_elem? xs i ≡ some a
      → sum_by f (set xs i v) + f a ≡ sum_by f xs + f v
  sum_by-set f [] i v a h = cc
  sum_by-set f (x ∷ xs) zero v a h = ground arith
  sum_by-set f (x ∷ xs) (suc i) v a h = omega (arith, sum_by-set f xs i v a h)

  -- One entry is at most the sum.
  pub sum_by-get_elem? :
      (f : A → ℕ) (xs : List A) (i : ℕ) (a : A) → get_elem? xs i ≡ some a → f a ≤ sum_by f xs
  sum_by-get_elem? f [] i a h = cc
  sum_by-get_elem? f (x ∷ xs) zero a h = ground arith
  sum_by-get_elem? f (x ∷ xs) (suc i) a h = omega (arith, sum_by-get_elem? f xs i a h)

  pub sum_by-replicate : (f : A → ℕ) (n : ℕ) (a : A) → f a ≡ 0 → sum_by f (replicate n a) ≡ 0
  sum_by-replicate f zero a h = refl
  sum_by-replicate f (suc n) a h = omega (arith, sum_by-replicate f n a h)

  -- Two different entries add up to at most the sum.
  pub sum_by-pair :
      (f : A → ℕ) (xs : List A) (i j : ℕ) (a b : A)
      → get_elem? xs i ≡ some a
      → get_elem? xs j ≡ some b
      → i ≢ j
      → f a + f b ≤ sum_by f xs
  sum_by-pair f [] i j a b h k ne = cc
  sum_by-pair f (x ∷ xs) zero zero a b h k ne = absurd (ne refl)
  sum_by-pair f (x ∷ xs) zero (suc j) a b h k ne = ground (arith, sum_by-get_elem? f xs j b k)
  sum_by-pair f (x ∷ xs) (suc i) zero a b h k ne = ground (arith, sum_by-get_elem? f xs i a h)
  sum_by-pair f (x ∷ xs) (suc i) (suc j) a b h k ne =
      omega (arith, sum_by-pair f xs i j a b h k (λ e. ne (ap suc e)))

  -- A property of every entry of an array.
  abbrev pub AllAt {κ} : (A → Type κ) → List A → Type (ℓ ⊔ κ)
  AllAt P xs = (i : ℕ) (x : A) → get_elem? xs i ≡ some x → P x

  pub AllAt-tail {κ} : (P : A → Type κ) (x : A) (xs : List A) → AllAt P (x ∷ xs) → AllAt P xs
  AllAt-tail P x xs h i y e = h (suc i) y e

  pub AllAt-cons {κ} : (P : A → Type κ) (x : A) (xs : List A) → P x → AllAt P xs → AllAt P (x ∷ xs)
  AllAt-cons P x xs p h zero y e = subst P (cc) p
  AllAt-cons P x xs p h (suc i) y e = h i y e

  pub AllAt-set {κ} :
      (P : A → Type κ) (xs : List A) (i : ℕ) (v : A) → AllAt P xs → P v → AllAt P (set xs i v)
  AllAt-set P [] i v h p j y e = cc
  AllAt-set P (x ∷ xs) zero v h p zero y e = subst P (cc) p
  AllAt-set P (x ∷ xs) zero v h p (suc j) y e = h (suc j) y e
  AllAt-set P (x ∷ xs) (suc i) v h p zero y e = h zero y e
  AllAt-set P (x ∷ xs) (suc i) v h p (suc j) y e =
      AllAt-set P xs i v (λ k z q. h (suc k) z q) p j y e

  pub AllAt-replicate {κ} : (P : A → Type κ) (n : ℕ) (a : A) → P a → AllAt P (replicate n a)
  AllAt-replicate P zero a p j y e = cc
  AllAt-replicate P (suc n) a p zero y e = subst P (cc) p
  AllAt-replicate P (suc n) a p (suc j) y e = AllAt-replicate P n a p j y e
