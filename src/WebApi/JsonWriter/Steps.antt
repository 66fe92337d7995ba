-- ===== src/WebApi/JsonWriter/Steps.antt =====
-- What the parts of the writer do to the text and the stack.
use cedar_switch_3i4o_power.Common.{
  ℕ, suc, ◌+◌, ◌-◌, ◌<◌, ◌≤◌, ◌≡◌, inl, inr, refl, ap, ◌∙◌, Bool, true, false, ◌&&◌, not, List, [],
  ◌∷◌, ◌++◌, Bytes, length, length-append, append_nil, get_or, set, length-set, write, length-write,
  take-write, take-write_before, get_or-write_one, leb, ◌==◌, if◌then◌else◌, arith, Bool-cases,
}
use cedar_switch_3i4o_power.WebApi.JsonWriter.{
  LevelKind, kind_root, kind_object, kind_array, same_kind, Writer, fail, max_depth, put, begin_at,
  begin_value, end_value, level_opened, open_level, close_level,
}
use cedar_switch_3i4o_power.WebApi.JsonWriter.Levels.{
  Level, StackOf, StackOf-top, StackOf-push, StackOf-value, StackOf-pop, at_work, Shows, going,
  full,
}

module _ (cap : ℕ) where
  pub put-Shows :
      (w : Writer) (out text : Bytes) (stack : List Level) (after_key : Bool)
      → Shows cap w out stack after_key
      → Shows cap (put w text) (out ++ text) stack after_key
  unfolding put
  put-Shows w out text stack after_key (full failed size over) =
      rw failed (full refl size (omega (arith, length-append out text)))
  put-Shows w out text stack after_key
        (going buf pos depth kinds values is size at room shown ended nk nv levels) =
      rw is (elim (Bool-cases (leb cap (pos + length text))) [
        | inl over ↦ rw over (full refl size (ground (arith, length-append out text)))
        | inr fine ↦
            let next = pos + length text in
            let inside : next < cap = ground arith in
            let buf1 = write buf pos text in
            let size1 : length buf1 ≡ cap = length-write buf pos text ∙ size in
            rw fine (
              going (write buf1 next (0 ∷ [])) next depth kinds values refl
                (length-write buf1 next (0 ∷ []) ∙ size1) (omega (arith, length-append out text))
                inside
                (take-write_before buf1 next (0 ∷ []) next (omega arith)
                  ∙ take-write buf pos text next refl (omega arith)
                  ∙ ap (λ (bs : Bytes). bs ++ text) shown)
                (get_or-write_one buf1 next 0 1 (omega arith)) nk nv levels)
      ])

  -- The flag that a value needs no name any more.
  no_key :
      (w : Writer) (out : Bytes) (stack : List Level)
      → Shows cap w out stack true
      → Shows cap (begin_at kind_object w) out stack false
  unfolding begin_at
  no_key w out stack (full failed size over) = rw failed (full refl size over)
  no_key w out stack (going buf pos depth kinds values is size at room shown ended nk nv levels) =
      rw is (going buf pos depth kinds values refl size at room shown ended nk nv levels)

-- The level `top` of a stack takes a value.
unfoldable pub may_begin : Level → List Level → Bool → Bool
may_begin (kind_root, has) [] after_key = not has && not after_key
may_begin (kind_root, has) (_ ∷ _) after_key = false
may_begin (kind_object, has) rest after_key = after_key
may_begin (kind_array, has) rest after_key = not after_key

-- The comma before a value.
unfoldable pub comma : Level → Bytes
comma (kind_array, true) = b',' ∷ []
comma (_, _) = []

module _ (cap : ℕ) where
  -- A writer that goes on has the top level where its depth says.
  begin_at-Shows :
      (w : Writer) (out : Bytes) (top : Level) (rest : List Level) (after_key : Bool)
      → may_begin top rest after_key ≡ true
      → w.failed ≡ false
      → get_or w.has_value w.depth false ≡ top.1
      → length rest ≡ w.depth
      → w.after_key ≡ after_key
      → Shows cap w out (top ∷ rest) after_key
      → Shows cap (begin_at top.0 w) (out ++ comma top) (top ∷ rest) false
  unfolding begin_at may_begin comma
  begin_at-Shows w out (kind_root, true) [] ak may f v d a s = absurd cc
  begin_at-Shows w out (kind_root, false) [] true may f v d a s = absurd cc
  begin_at-Shows w out (kind_root, false) [] false may f v d a s =
      let none_yet : get_or w.has_value 0 false ≡ false = rw (← d) at v in
      rw (none_yet, append_nil out) s
  begin_at-Shows w out (kind_root, has) (_ ∷ _) ak may f v d a s = absurd cc
  begin_at-Shows w out (kind_object, has) rest false may f v d a s = absurd cc
  begin_at-Shows w out (kind_object, has) rest true may f v d a s =
      rw (append_nil out) (no_key cap w out ((kind_object, has) ∷ rest) s)
  begin_at-Shows w out (kind_array, true) rest false may f v d a s =
      rw v (put-Shows cap w out (b',' ∷ []) ((kind_array, true) ∷ rest) false s)
  begin_at-Shows w out (kind_array, false) rest false may f v d a s = rw (v, append_nil out) s
  begin_at-Shows w out (kind_array, has) rest true may f v d a s = absurd cc

  pub begin_value-Shows :
      (w : Writer) (out : Bytes) (top : Level) (rest : List Level) (after_key : Bool)
      → may_begin top rest after_key ≡ true
      → Shows cap w out (top ∷ rest) after_key
      → Shows cap (begin_value w) (out ++ comma top) (top ∷ rest) false
  unfolding begin_value
  begin_value-Shows w out top rest after_key may (full failed size over) =
      rw failed (full refl size (omega (arith, length-append out (comma top))))
  begin_value-Shows w out top rest after_key may
        (going buf pos depth kinds values is size at room shown ended nk nv levels) =
      let (kind_there, value_there, deep) = StackOf-top kinds values depth top rest levels in
      rw (is, kind_there)
        (begin_at-Shows (at_work cap buf pos depth kinds values after_key) out top rest after_key
          may refl value_there deep refl
          (going buf pos depth kinds values refl size at room shown ended nk nv levels))

  pub end_value-Shows :
      (w : Writer) (out : Bytes) (top : Level) (rest : List Level) (after_key : Bool)
      → Shows cap w out (top ∷ rest) after_key
      → length rest ≤ max_depth
      → Shows cap (end_value w) out ((top.0, true) ∷ rest) after_key
  unfolding end_value
  end_value-Shows w out top rest after_key (full failed size over) h =
      rw failed (full refl size over)
  end_value-Shows w out top rest after_key
        (going buf pos depth kinds values is size at room shown ended nk nv levels) h =
      let (kind_there, value_there, deep) = StackOf-top kinds values depth top rest levels in
      rw is (
        going buf pos depth kinds (set values depth true) refl size at room shown ended nk
          (length-set values depth true ∙ nv)
          (StackOf-value kinds values depth top rest (omega arith) levels))

  level_opened-Shows :
      (w : Writer) (out : Bytes) (kind : LevelKind) (stack : List Level)
      → length stack ≤ max_depth
      → Shows cap w out stack false
      → Shows cap (level_opened kind w) out ((kind, false) ∷ stack) false
  unfolding level_opened
  level_opened-Shows w out kind stack h (full failed size over) = full failed size over
  level_opened-Shows w out kind [] h
        (going buf pos depth kinds values is size at room shown ended nk nv levels) =
      absurd (unfold StackOf in levels)
  level_opened-Shows w out kind (top ∷ rest) h
        (going buf pos depth kinds values is size at room shown ended nk nv levels) =
      let (kind_there, value_there, deep) = StackOf-top kinds values depth top rest levels in
      rw is (
        going buf pos (suc depth) (set kinds (suc depth) kind) (set values (suc depth) false) refl
          size at room shown ended (length-set kinds (suc depth) kind ∙ nk)
          (length-set values (suc depth) false ∙ nv)
          (StackOf-push kinds values depth kind (top ∷ rest) (omega arith) (omega arith) levels))

  pub open_level-Shows :
      (w : Writer) (out token : Bytes) (kind : LevelKind) (top : Level) (rest : List Level)
      (after_key : Bool)
      → may_begin top rest after_key ≡ true
      → length rest < max_depth
      → Shows cap w out (top ∷ rest) after_key
      → Shows cap
          (open_level kind token w)
          ((out ++ comma top) ++ token)
          ((kind, false) ∷ top ∷ rest)
          false
  unfolding open_level
  open_level-Shows w out token kind top rest after_key may deep s =
      opened (begin_value w) (begin_value-Shows w out top rest after_key may s)
    where
      opened :
          (begun : Writer)
          → Shows cap begun (out ++ comma top) (top ∷ rest) false
          → Shows cap
              (if begun.failed
                then begun
                else if leb max_depth begun.depth
                then fail begun
                else level_opened kind (put begun token))
              ((out ++ comma top) ++ token)
              ((kind, false) ∷ top ∷ rest)
              false
      opened begun (full failed size over) =
          rw failed (full refl size (omega (arith, length-append (out ++ comma top) token)))
      opened begun (going buf pos depth kinds values is size at room shown ended nk nv levels) =
          let (kind_there, value_there, height) = StackOf-top kinds values depth top rest levels in
          let fits : leb max_depth depth ≡ false = ground arith in
          let fresh = at_work cap buf pos depth kinds values false in
          rw (is, fits)
            (level_opened-Shows (put fresh token) ((out ++ comma top) ++ token) kind (top ∷ rest)
              (omega arith)
              (put-Shows cap fresh (out ++ comma top) token (top ∷ rest) false
                (going buf pos depth kinds values refl size at room shown ended nk nv levels)))

  pub close_level-Shows :
      (w : Writer) (out token : Bytes) (kind : LevelKind) (has : Bool) (below : Level)
      (rest : List Level)
      → same_kind kind kind ≡ true
      → length rest ≤ max_depth
      → Shows cap w out ((kind, has) ∷ below ∷ rest) false
      → Shows cap (close_level kind token w) (out ++ token) ((below.0, true) ∷ rest) false
  unfolding close_level
  close_level-Shows w out token kind has below rest same h (full failed size over) =
      rw failed (full refl size (omega (arith, length-append out token)))
  close_level-Shows w out token kind has below rest same h
        (going buf pos depth kinds values is size at room shown ended nk nv levels) =
      let (kind_there, value_there, height) =
        StackOf-top kinds values depth (kind, has) (below ∷ rest) levels in
      let fresh = at_work cap buf pos depth kinds values false in
      let open_there : (depth == 0) ≡ false = ground arith in
      rw (is, open_there, kind_there, same)
        (end_value-Shows (record (put fresh token) { depth = (put fresh token).depth - 1 })
          (out ++ token) below rest false
          (popped (put fresh token) (
            put-Shows cap fresh out token ((kind, has) ∷ below ∷ rest) false
              (going buf pos depth kinds values refl size at room shown ended nk nv levels)))
          h)
    where
      popped :
          (written : Writer)
          → Shows cap written (out ++ token) ((kind, has) ∷ below ∷ rest) false
          → Shows cap
              (record written { depth = written.depth - 1 })
              (out ++ token)
              (below ∷ rest)
              false
      popped written (full failed size over) = full failed size over
      popped written (going buf pos depth kinds values is size at room shown ended nk nv levels) =
          rw is (
            going buf pos (depth - 1) kinds values refl size at room shown ended nk nv
              (StackOf-pop kinds values depth (kind, has) below rest levels))
