-- ===== src/WebApi/JsonWriter/Levels.antt =====
-- The writer seen as the text that it has made and a stack of open levels, or as out of room.
use cedar_switch_3i4o_power.Common.{
  ℕ, zero, suc, ◌+◌, ◌-◌, ◌<◌, ◌≤◌, ◌≡◌, refl, ap, ◌∙◌, Bool, true, false, List, [], ◌∷◌, Bytes,
  length, get_or, take, set, arith,
}
use cedar_switch_3i4o_power.WebApi.JsonWriter.{LevelKind, kind_root, Writer, max_depth}

-- An open level: what it is, and whether it has a value.
abbrev pub Level : Type 0
Level = LevelKind × Bool

-- The arrays hold the stack, the level at `depth` first.
unfoldable pub StackOf : List LevelKind → List Bool → ℕ → List Level → Type 0
StackOf kinds values depth [] = ⊥
StackOf kinds values zero (top ∷ []) =
    (get_or kinds 0 kind_root ≡ top.0) × (get_or values 0 false ≡ top.1)
StackOf kinds values zero (top ∷ _ ∷ _) = ⊥
StackOf kinds values (suc depth) (top ∷ rest) =
    (get_or kinds (suc depth) kind_root ≡ top.0)
    × (get_or values (suc depth) false ≡ top.1)
    × StackOf kinds values depth rest

module _ {A : Type 0} where
  pub get_or-set : (xs : List A) (i : ℕ) (v d : A) → i < length xs → get_or (set xs i v) i d ≡ v
  get_or-set [] i v d h = absurd (omega arith)
  get_or-set (x ∷ xs) zero v d h = refl
  get_or-set (x ∷ xs) (suc i) v d h = get_or-set xs i v d (omega arith)

  pub get_or-set_other :
      (xs : List A) (i j : ℕ) (v d : A) → j < i → get_or (set xs i v) j d ≡ get_or xs j d
  get_or-set_other [] i j v d h = refl
  get_or-set_other (x ∷ xs) zero j v d h = absurd (omega arith)
  get_or-set_other (x ∷ xs) (suc i) zero v d h = refl
  get_or-set_other (x ∷ xs) (suc i) (suc j) v d h = get_or-set_other xs i j v d (omega arith)

-- The level on top is at `depth`.
pub StackOf-top :
    (kinds : List LevelKind) (values : List Bool) (depth : ℕ) (top : Level) (rest : List Level)
    → StackOf kinds values depth (top ∷ rest)
    → (get_or kinds depth kind_root ≡ top.0)
      × (get_or values depth false ≡ top.1)
      × (length rest ≡ depth)
unfolding StackOf
StackOf-top kinds values zero top [] h = (h.0, h.1, refl)
StackOf-top kinds values zero top (next ∷ rest) h = absurd h
StackOf-top kinds values (suc depth) top [] h = absurd h.2
StackOf-top kinds values (suc depth) top (next ∷ rest) h =
    (h.0, h.1, ap suc (StackOf-top kinds values depth next rest h.2).2)

-- A level above the stack is not a part of it.
pub StackOf-above :
    (kinds : List LevelKind) (values : List Bool) (depth i : ℕ) (k : LevelKind) (v : Bool)
    (stack : List Level)
    → depth < i
    → StackOf kinds values depth stack
    → StackOf (set kinds i k) (set values i v) depth stack
unfolding StackOf
StackOf-above kinds values depth i k v [] h s = s
StackOf-above kinds values zero i k v (top ∷ []) h s =
    (get_or-set_other kinds i 0 k _ h ∙ s.0, get_or-set_other values i 0 v _ h ∙ s.1)
StackOf-above kinds values zero i k v (top ∷ next ∷ rest) h s = s
StackOf-above kinds values (suc depth) i k v (top ∷ rest) h s = (
  get_or-set_other kinds i (suc depth) k _ h ∙ s.0,
  get_or-set_other values i (suc depth) v _ h ∙ s.1,
  StackOf-above kinds values depth i k v rest (omega arith) s.2,
)

pub StackOf-push :
    (kinds : List LevelKind) (values : List Bool) (depth : ℕ) (k : LevelKind) (stack : List Level)
    → suc depth < length kinds
    → suc depth < length values
    → StackOf kinds values depth stack
    → StackOf
        (set kinds (suc depth) k)
        (set values (suc depth) false)
        (suc depth)
        ((k, false) ∷ stack)
unfolding StackOf
StackOf-push kinds values depth k stack hk hv s = (
  get_or-set kinds (suc depth) k _ hk,
  get_or-set values (suc depth) false _ hv,
  StackOf-above kinds values depth (suc depth) k false stack (omega arith) s,
)

-- A value on the level on top.
StackOf-values :
    (kinds : List LevelKind) (values : List Bool) (depth i : ℕ) (v : Bool) (stack : List Level)
    → depth < i
    → StackOf kinds values depth stack
    → StackOf kinds (set values i v) depth stack
unfolding StackOf
StackOf-values kinds values depth i v [] h s = s
StackOf-values kinds values zero i v (top ∷ []) h s = (s.0, get_or-set_other values i 0 v _ h ∙ s.1)
StackOf-values kinds values zero i v (top ∷ next ∷ rest) h s = s
StackOf-values kinds values (suc depth) i v (top ∷ rest) h s = (
  s.0,
  get_or-set_other values i (suc depth) v _ h ∙ s.1,
  StackOf-values kinds values depth i v rest (omega arith) s.2,
)

pub StackOf-value :
    (kinds : List LevelKind) (values : List Bool) (depth : ℕ) (top : Level) (rest : List Level)
    → depth < length values
    → StackOf kinds values depth (top ∷ rest)
    → StackOf kinds (set values depth true) depth ((top.0, true) ∷ rest)
unfolding StackOf
StackOf-value kinds values zero top [] h s = (s.0, get_or-set values 0 true _ h)
StackOf-value kinds values zero top (next ∷ rest) h s = s
StackOf-value kinds values (suc depth) top rest h s = (
  s.0,
  get_or-set values (suc depth) true _ h,
  StackOf-values kinds values depth (suc depth) true rest (omega arith) s.2,
)

-- Without the level on top.
pub StackOf-pop :
    (kinds : List LevelKind) (values : List Bool) (depth : ℕ) (top below : Level)
    (rest : List Level)
    → StackOf kinds values depth (top ∷ below ∷ rest)
    → StackOf kinds values (depth - 1) (below ∷ rest)
unfolding StackOf
StackOf-pop kinds values zero top below rest h = absurd h
StackOf-pop kinds values (suc depth) top below rest h =
    let less : suc depth - 1 ≡ depth = omega arith in rw less h.2

abbrev pub at_work : ℕ → Bytes → ℕ → ℕ → List LevelKind → List Bool → Bool → Writer
at_work cap buf pos depth kinds values after_key = record {
  buf = buf;
  cap = cap;
  pos = pos;
  depth = depth;
  kind = kinds;
  has_value = values;
  after_key = after_key;
  failed = false;
}

-- The writer of a buffer of `cap` bytes has made the text `out`, which ends in the buffer with a
-- terminator, with the levels of `stack` open; or the text has no room in the buffer.
pub data Shows (cap : ℕ) (w : Writer) (out : Bytes) (stack : List Level) (after_key : Bool)
    : Type 0 where
  going :
      (buf : Bytes) (pos depth : ℕ) (kinds : List LevelKind) (values : List Bool)
      → w ≡ at_work cap buf pos depth kinds values after_key
      → length buf ≡ cap
      → pos ≡ length out
      → pos < cap
      → take pos buf ≡ out
      → get_or buf pos 1 ≡ 0
      → length kinds ≡ max_depth + 1
      → length values ≡ max_depth + 1
      → StackOf kinds values depth stack
      → Shows cap w out stack after_key
  full : w.failed ≡ true → length w.buf ≡ cap → cap ≤ length out → Shows cap w out stack after_key
