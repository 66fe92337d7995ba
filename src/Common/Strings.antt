-- ===== src/Common/Strings.antt =====
-- Byte strings. A C string is the list of its bytes before the terminator.
use Prim.Native.Nat.{ℕ, compare, Ordering}
use Prim.Native.Char.{code}
use Prim.Native.String.{String}
use mathlib.Core.Path.{◌≡◌, refl}
use mathlib.Core.Logic.{◌≢◌}
use mathlib.Core.Bool.{Bool, true, false, ◌&&◌}
use mathlib.Core.List.{List, [], ◌∷◌}
use native.Mathlib.Omega.{arith}

abbrev pub Bytes : Type 0
Bytes = List ℕ

-- The bytes of an ASCII text.
abbrev pub codes : String → Bytes
codes String.[] = []
codes (String.◌∷◌ c s) = code c ∷ codes s

abbrev same_byte : ℕ → ℕ → Bool
same_byte a b = elim (compare a b) [ Ordering.eq ↦ true | _ ↦ false ]

-- `strcmp(a, b) == 0`, and `memcmp` of arrays of one size.
unfoldable pub bytes_eq : Bytes → Bytes → Bool
bytes_eq [] [] = true
bytes_eq [] (b ∷ bs) = false
bytes_eq (a ∷ as') [] = false
bytes_eq (a ∷ as') (b ∷ bs) = same_byte a b && bytes_eq as' bs

pub bytes_eq_refl : (a : Bytes) → bytes_eq a a ≡ true
unfolding bytes_eq
bytes_eq_refl [] = refl
bytes_eq_refl (a ∷ as') = ground (arith, bytes_eq_refl as')

pub eq_of_bytes_eq : (a b : Bytes) → bytes_eq a b ≡ true → a ≡ b
unfolding bytes_eq
eq_of_bytes_eq [] [] h = refl
eq_of_bytes_eq [] (b ∷ bs) h = cc
eq_of_bytes_eq (a ∷ as') [] h = cc
eq_of_bytes_eq (a ∷ as') (b ∷ bs) h = ground (arith, eq_of_bytes_eq as' bs)

pub bytes_eq_of_ne : (a b : Bytes) → a ≢ b → bytes_eq a b ≡ false
bytes_eq_of_ne a b ne = ground (arith, eq_of_bytes_eq a b)
