-- ===== src/WebApi/JsonWriter/Calls.antt =====
-- What the functions that write a value or a name do to the text and the stack.
use cedar_switch_3i4o_power.Common.{
  ℕ, ◌+◌, ◌≤◌, ◌≡◌, inl, inr, refl, ap, ◌∙◌, Bool, true, false, not, Option, none, some, List, [],
  ◌∷◌, ◌++◌, Bytes, length, length-append, append_nil, get_or, take, if◌then◌else◌, arith,
}
use cedar_switch_3i4o_power.ApiValidation.Text.{api_json_append_escaped}
use cedar_switch_3i4o_power.ApiValidation.Text.Appends.{
  escape_text, Appends, api_json_append_escaped-Appends, api_json_append_escaped_ended,
}
use cedar_switch_3i4o_power.WebApi.JsonWriter.{
  kind_object, Writer, max_depth, put, begin_value, plain_value, put_name, key_written,
  web_json_key, string_end, web_json_string,
}
use cedar_switch_3i4o_power.WebApi.JsonWriter.Levels.{
  Level, StackOf-top, at_work, Shows, going, full,
}
use cedar_switch_3i4o_power.WebApi.JsonWriter.Steps.{
  put-Shows, may_begin, comma, begin_value-Shows, end_value-Shows,
}

module _ (cap : ℕ) where
  pub plain_value-Shows :
      (w : Writer) (out text : Bytes) (top : Level) (rest : List Level) (after_key : Bool)
      → may_begin top rest after_key ≡ true
      → length rest ≤ max_depth
      → Shows cap w out (top ∷ rest) after_key
      → Shows cap (plain_value w text) ((out ++ comma top) ++ text) ((top.0, true) ∷ rest) false
  unfolding plain_value
  plain_value-Shows w out text top rest after_key may h s =
      end_value-Shows cap (put (begin_value w) text) ((out ++ comma top) ++ text) top rest false
        (put-Shows cap (begin_value w) (out ++ comma top) text (top ∷ rest) false
          (begin_value-Shows cap w out top rest after_key may s))
        h

  -- A name: the comma before it, the name in quotes, and a colon.
  abbrev pub name_text : Bool → Bytes → Bytes
  name_text has name = (if has then b',' ∷ [] else []) ++ (0x22 ∷ (name ++ (0x22 ∷ b':' ∷ [])))

  put_name-Shows :
      (w : Writer) (out name : Bytes) (stack : List Level)
      → Shows cap w out stack false
      → Shows cap
          (put_name name w)
          (((out ++ (0x22 ∷ [])) ++ name) ++ (0x22 ∷ b':' ∷ []))
          stack
          false
  unfolding put_name
  put_name-Shows w out name stack s =
      put-Shows cap _ _ (0x22 ∷ b':' ∷ []) stack false
        (put-Shows cap _ _ name stack false (put-Shows cap w out (0x22 ∷ []) stack false s))

  -- The flag that a value has its name.
  named-Shows :
      (w : Writer) (out : Bytes) (stack : List Level)
      → Shows cap w out stack false
      → Shows cap (record w { after_key = not w.failed }) out stack true
  named-Shows w out stack (full failed size over) = full failed size over
  named-Shows w out stack
        (going buf pos depth kinds values is size at room shown ended nk nv levels) =
      rw is (going buf pos depth kinds values refl size at room shown ended nk nv levels)

  apart-Shows :
      (w : Writer) (out : Bytes) (has : Bool) (stack : List Level)
      → Shows cap w out stack false
      → Shows cap
          (if has then put w (b',' ∷ []) else w)
          (out ++ (if has then b',' ∷ [] else []))
          stack
          false
  apart-Shows w out true stack s = put-Shows cap w out (b',' ∷ []) stack false s
  apart-Shows w out false stack s = rw (append_nil out) s

  key_written-Shows :
      (w : Writer) (out name : Bytes) (has : Bool) (stack : List Level)
      → Shows cap w out stack false
      → Shows cap
          (key_written has name w)
          ((((out ++ (if has then b',' ∷ [] else [])) ++ (0x22 ∷ [])) ++ name)
            ++ (0x22 ∷ b':' ∷ []))
          stack
          true
  unfolding key_written
  key_written-Shows w out name has stack s =
      let first = if has then put w (b',' ∷ []) else w in
      named-Shows (put_name name first) _ stack
        (put_name-Shows first _ name stack (apart-Shows w out has stack s))

  pub web_json_key-Shows :
      (w : Writer) (out name : Bytes) (has : Bool) (rest : List Level)
      → Shows cap w out ((kind_object, has) ∷ rest) false
      → Shows cap
          (web_json_key w (some name))
          ((((out ++ (if has then b',' ∷ [] else [])) ++ (0x22 ∷ [])) ++ name)
            ++ (0x22 ∷ b':' ∷ []))
          ((kind_object, has) ∷ rest)
          true
  unfolding web_json_key
  web_json_key-Shows w out name has rest (full failed size over) = rw failed (
      full refl size (
        omega (
          arith,
          length-append (((out ++ (if has then b',' ∷ [] else [])) ++ (0x22 ∷ [])) ++ name)
              (0x22 ∷ b':' ∷ []),
          length-append ((out ++ (if has then b',' ∷ [] else [])) ++ (0x22 ∷ [])) name,
          length-append (out ++ (if has then b',' ∷ [] else [])) (0x22 ∷ []),
          length-append out (if has then b',' ∷ [] else []),
        )))
  web_json_key-Shows w out name has rest
        (going buf pos depth kinds values is size at room shown ended nk nv levels) =
      let (kind_there, value_there, height) =
        StackOf-top kinds values depth (kind_object, has) rest levels in
      let fresh = at_work cap buf pos depth kinds values false in
      rw (is, kind_there, value_there)
        (key_written-Shows fresh out name has ((kind_object, has) ∷ rest)
          (going buf pos depth kinds values refl size at room shown ended nk nv levels))

  -- What follows the quote of a string.
  string_end-Shows :
      (w : Writer) (out : Bytes) (text : Bytes) (top : Level) (rest : List Level)
      → w.failed ≡ false
      → length rest ≤ max_depth
      → Shows cap w out (top ∷ rest) false
      → Shows cap
          (string_end (api_json_append_escaped w.buf w.cap w.pos (some text)) w)
          ((out ++ escape_text text) ++ (0x22 ∷ []))
          ((top.0, true) ∷ rest)
          false
  unfolding string_end
  string_end-Shows w out text top rest goes h (full failed size over) = absurd cc
  string_end-Shows w out text top rest goes h
        (going buf pos depth kinds values is size at room shown ended nk nv levels) =
      rw (is, ← size)
        (ends (api_json_append_escaped buf (length buf) pos (some text))
          (api_json_append_escaped-Appends buf pos text (omega arith))
          (λ n. api_json_append_escaped_ended buf pos n text (omega arith)))
    where
      ends :
          (r : Option ℕ × Bytes)
          → Appends buf pos (escape_text text) r
          → ((n : ℕ) → r.0 ≡ some n → get_or r.1 n 1 ≡ 0)
          → Shows
              (length buf)
              (string_end r (at_work (length buf) buf pos depth kinds values false))
              ((out ++ escape_text text) ++ (0x22 ∷ []))
              ((top.0, true) ∷ rest)
              false
      ends (none, buf1) appends end = elim appends.outcome [
        | inl fits ↦ absurd (let no_result = fits.1 in cc)
        | inr over ↦ full refl appends.size (
            omega (
              arith,
              over.0,
              length-append (out ++ escape_text text) (0x22 ∷ []),
              length-append out (escape_text text),
            ))
      ]
      ends (some n, buf1) appends end = elim appends.outcome [
        | inr over ↦ absurd (let no_result = over.1 in cc)
        | inl (fits, there, written) ↦
            let n_is : n ≡ pos + length (escape_text text) = ground arith in
            let next = at_work (length buf) buf1 n depth kinds values false in
            end_value-Shows (length buf) (put next (0x22 ∷ []))
              ((out ++ escape_text text) ++ (0x22 ∷ [])) top rest false
              (put-Shows (length buf) next (out ++ escape_text text) (0x22 ∷ []) (top ∷ rest) false
                (going buf1 n depth kinds values refl appends.size
                  (omega (arith, length-append out (escape_text text))) (omega arith)
                  (ap (λ (i : ℕ). take i buf1) n_is
                    ∙ written
                    ∙ ap (λ (bs : Bytes). bs ++ escape_text text) shown)
                  (end n refl) nk nv levels))
              h
      ]

  pub web_json_string-Shows :
      (w : Writer) (out text : Bytes) (top : Level) (rest : List Level) (after_key : Bool)
      → may_begin top rest after_key ≡ true
      → length rest ≤ max_depth
      → Shows cap w out (top ∷ rest) after_key
      → Shows cap
          (web_json_string w (some text))
          ((((out ++ comma top) ++ (0x22 ∷ [])) ++ escape_text text) ++ (0x22 ∷ []))
          ((top.0, true) ∷ rest)
          false
  unfolding web_json_string
  web_json_string-Shows w out text top rest after_key may h s =
      quoted (put (begin_value w) (0x22 ∷ [])) (
        put-Shows cap (begin_value w) (out ++ comma top) (0x22 ∷ []) (top ∷ rest) false
          (begin_value-Shows cap w out top rest after_key may s))
    where
      quoted :
          (begun : Writer)
          → Shows cap begun ((out ++ comma top) ++ (0x22 ∷ [])) (top ∷ rest) false
          → Shows cap
              (if begun.failed
                then begun
                else string_end
                    (api_json_append_escaped begun.buf begun.cap begun.pos (some text))
                    begun)
              ((((out ++ comma top) ++ (0x22 ∷ [])) ++ escape_text text) ++ (0x22 ∷ []))
              ((top.0, true) ∷ rest)
              false
      quoted begun (full failed size over) =
          let before = (out ++ comma top) ++ (0x22 ∷ []) in
          rw failed (
            full refl size (
              omega (
                arith,
                over,
                length-append (before ++ escape_text text) (0x22 ∷ []),
                length-append before (escape_text text),
              )))
      quoted begun (going buf pos depth kinds values is size at room shown ended nk nv levels) =
          rw is (
            string_end-Shows (at_work cap buf pos depth kinds values false)
              ((out ++ comma top) ++ (0x22 ∷ [])) text top rest refl h
              (going buf pos depth kinds values refl size at room shown ended nk nv levels))
