-- ===== src/WebApi/JsonWriter/Render.antt =====
-- The calls for a JSON value write its text.
use mathlib.Core.List.{append_assoc}
use cedar_switch_3i4o_power.Common.{
  ℕ, ◌+◌, ◌<◌, ◌≤◌, ◌≡◌, inl, inr, refl, sym, ap, ◌∙◌, subst, Bool, true, false, some, List, [],
  ◌∷◌, ◌++◌, Bytes, codes, length, append_nil, get_or, take, write, length-write, get_or-write_one,
  ◌==◌, if◌then◌else◌, arith, replicate,
}
use cedar_switch_3i4o_power.ApiValidation.Text.Appends.{escape_text}
use cedar_switch_3i4o_power.ApiValidation.Text.ErrorJson.{Written}
use cedar_switch_3i4o_power.WebApi.JsonWriter.{
  kind_root, kind_object, kind_array, Writer, max_depth, int_text, decimal_text,
  web_json_writer_init, web_json_writer_finish, web_json_object_begin, web_json_object_end,
  web_json_array_begin, web_json_array_end, web_json_bool, web_json_null, web_json_int,
  web_json_decimal,
}
use cedar_switch_3i4o_power.WebApi.JsonWriter.Levels.{
  Level, StackOf, StackOf-top, Shows, going, full,
}
use cedar_switch_3i4o_power.WebApi.JsonWriter.Steps.{
  may_begin, comma, open_level-Shows, close_level-Shows,
}
use cedar_switch_3i4o_power.WebApi.JsonWriter.Calls.{
  plain_value-Shows, web_json_key-Shows, web_json_string-Shows,
}
use cedar_switch_3i4o_power.WebApi.JsonWriter.Value.{
  Json, json_null, json_bool, json_string, json_int, json_decimal, json_array, json_object, Items,
  no_items, item, Members, no_members, member, render, render_items, render_members, higher, height,
  items_height, members_height, emit, emit_items, emit_members,
}

string_assoc : (out a q s e : Bytes) → (((out ++ a) ++ q) ++ s) ++ e ≡ (out ++ a) ++ (q ++ (s ++ e))
string_assoc out a q s e = simp (append_assoc)

items_assoc :
    (out a a1 v more : Bytes) → a ≡ a1 → ((out ++ a) ++ v) ++ more ≡ out ++ (a1 ++ (v ++ more))
items_assoc out a a1 v more e = rw e (simp (append_assoc))

comma_array : (has : Bool) → comma (kind_array, has) ≡ (if has then b',' ∷ [] else [])
unfolding comma
comma_array true = refl
comma_array false = refl

member_assoc :
    (out a q name c v more : Bytes)
    → ((((((out ++ a) ++ q) ++ name) ++ c) ++ []) ++ v) ++ more
      ≡ out ++ (a ++ (q ++ (name ++ (c ++ (v ++ more)))))
member_assoc out a q name c v more = simp (append_assoc, append_nil)

higher_below : (n a b m : ℕ) → n + higher a b ≤ m → (n + a ≤ m) × (n + b ≤ m)
higher_below n a b m h = ground arith

module _ (cap : ℕ) where
  written_as :
      (w : Writer) (out out1 : Bytes) (stack : List Level) (after_key : Bool)
      → out ≡ out1
      → Shows cap w out stack after_key
      → Shows cap w out1 stack after_key
  written_as w out out1 stack after_key e s = subst (λ t. Shows cap w t stack after_key) e s

  mutual
    unfolding emit render height may_begin comma web_json_null web_json_bool web_json_int
        web_json_decimal web_json_array_begin web_json_array_end web_json_object_begin
        web_json_object_end

    emit-Shows :
        (j : Json) (w : Writer) (out : Bytes) (top : Level) (rest : List Level) (after_key : Bool)
        → may_begin top rest after_key ≡ true
        → length rest + height j ≤ max_depth
        → Shows cap w out (top ∷ rest) after_key
        → Shows cap (emit j w) ((out ++ comma top) ++ render j) ((top.0, true) ∷ rest) false
    emit-Shows json_null w out top rest after_key may h s =
        plain_value-Shows cap w out (codes "null") top rest after_key may (omega arith) s
    emit-Shows (json_bool b) w out top rest after_key may h s =
        plain_value-Shows cap w out (if b then codes "true" else codes "false") top rest after_key
          may (omega arith) s
    emit-Shows (json_int z) w out top rest after_key may h s =
        plain_value-Shows cap w out (int_text z) top rest after_key may (omega arith) s
    emit-Shows (json_decimal n) w out top rest after_key may h s =
        plain_value-Shows cap w out (decimal_text n) top rest after_key may (omega arith) s
    emit-Shows (json_string t) w out top rest after_key may h s =
        written_as _ _ _ _ _ (string_assoc out (comma top) (0x22 ∷ []) (escape_text t) (0x22 ∷ []))
          (web_json_string-Shows cap w out t top rest after_key may (omega arith) s)
    emit-Shows (json_array items) w out top rest after_key may h s =
        let begun =
          open_level-Shows cap w out (b'[' ∷ []) kind_array top rest after_key may (omega arith)
            s in
        let (has, inside) = items-Shows items _ _ false (top ∷ rest) (omega arith) begun in
        written_as _ _ _ _ _
          (string_assoc out (comma top) (b'[' ∷ []) (render_items false items) (b']' ∷ []))
          (close_level-Shows cap _ _ (b']' ∷ []) kind_array has top rest refl (omega arith) inside)
    emit-Shows (json_object members) w out top rest after_key may h s =
        let begun =
          open_level-Shows cap w out (b'{' ∷ []) kind_object top rest after_key may (omega arith)
            s in
        let (has, inside) = members-Shows members _ _ false (top ∷ rest) (omega arith) begun in
        written_as _ _ _ _ _
          (string_assoc out (comma top) (b'{' ∷ []) (render_members false members) (b'}' ∷ []))
          (close_level-Shows cap _ _ (b'}' ∷ []) kind_object has top rest refl (omega arith) inside)

    items-Shows :
        (items : Items) (w : Writer) (out : Bytes) (has : Bool) (rest : List Level)
        → length rest + items_height items ≤ max_depth
        → Shows cap w out ((kind_array, has) ∷ rest) false
        → (used : Bool) × Shows cap
            (emit_items items w)
            (out ++ render_items has items)
            ((kind_array, used) ∷ rest)
            false
    items-Shows no_items w out has rest h s = (has, written_as _ _ _ _ _ (sym (append_nil out)) s)
    items-Shows (item v items) w out has rest h s =
        let (h_v, h_items) =
          higher_below (length rest) (height v) (items_height items) max_depth h in
        let one = emit-Shows v w out (kind_array, has) rest false refl h_v s in
        let (used, all) = items-Shows items _ _ true rest h_items one in
        (
          used,
          written_as _ _ _ _ _
              (items_assoc out _ _ (render v) (render_items true items) (comma_array has)) all,
        )

    members-Shows :
        (members : Members) (w : Writer) (out : Bytes) (has : Bool) (rest : List Level)
        → length rest + members_height members ≤ max_depth
        → Shows cap w out ((kind_object, has) ∷ rest) false
        → (used : Bool) × Shows cap
            (emit_members members w)
            (out ++ render_members has members)
            ((kind_object, used) ∷ rest)
            false
    members-Shows no_members w out has rest h s =
        (has, written_as _ _ _ _ _ (sym (append_nil out)) s)
    members-Shows (member name v members) w out has rest h s =
        let (h_v, h_members) =
          higher_below (length rest) (height v) (members_height members) max_depth h in
        let named = web_json_key-Shows cap w out name has rest s in
        let one = emit-Shows v _ _ (kind_object, has) rest true refl h_v named in
        let (used, all) = members-Shows members _ _ true rest h_members one in
        (
          used,
          written_as _ _ _ _ _
              (member_assoc out _ _ name _ (render v) (render_members true members)) all,
        )

-- A finished document.
finish-Written :
    (buf : Bytes) (w : Writer) (out : Bytes)
    → Shows (length buf) w out ((kind_root, true) ∷ []) false
    → Written buf out (web_json_writer_finish w, w.buf)
unfolding web_json_writer_finish
finish-Written buf w out (full failed size over) =
    rw failed (record { size = size; outcome = inr (over, refl) })
finish-Written buf w out
      (going made pos depth kinds values is size at room shown ended nk nv levels) =
    let (kind_there, value_there, deep) =
      StackOf-top kinds values depth (kind_root, true) [] levels in
    let no_levels : (depth == 0) ≡ true = ground arith in
    let first : get_or values 0 false ≡ true =
      ap (λ (i : ℕ). get_or values i false) deep ∙ value_there in
    rw (is, no_levels, first)
      (record {
        size = size;
        outcome = inl (
          omega arith,
          ap (λ (i : ℕ). some i) at,
          ap (λ (i : ℕ). take i made) (sym at) ∙ shown,
          ap (λ (i : ℕ). get_or made i 1) (sym at) ∙ ended,
        );
      })

init-Shows :
    (buf : Bytes)
    → 0 < length buf
    → Shows (length buf) (web_json_writer_init buf (length buf)) [] ((kind_root, false) ∷ []) false
unfolding web_json_writer_init StackOf
init-Shows buf room =
    let some_room : (length buf == 0) ≡ false = ground arith in
    rw some_room (
      going (write buf 0 (0 ∷ [])) 0 0 (replicate 9 kind_root) (replicate 9 false) refl
        (length-write buf 0 (0 ∷ [])) refl room refl (get_or-write_one buf 0 0 1 room) refl refl
        (refl, refl))

-- For a buffer that is not empty and a value that opens at most eight levels, the calls for the value
-- and `web_json_writer_finish` write the value's compact text, with a terminator behind it, and return
-- its length, exactly if the buffer has room for both; otherwise the result is -ENOMEM. The buffer
-- keeps its size.
pub web_json_writer_finish-render :
    (j : Json) (buf : Bytes)
    → 0 < length buf
    → height j ≤ 8
    → Written buf (render j) (
      web_json_writer_finish (emit j (web_json_writer_init buf (length buf))),
      (emit j (web_json_writer_init buf (length buf))).buf,
    )
web_json_writer_finish-render j buf room low =
    finish-Written buf (emit j (web_json_writer_init buf (length buf))) (render j) (
      unfold comma may_begin in
      emit-Shows (length buf) j (web_json_writer_init buf (length buf)) [] (kind_root, false) []
        false refl (omega arith) (init-Shows buf room))
