-- ===== src/WebApi/JsonWriter/Value.antt =====
-- JSON values: their text, and the calls of the writer that a handler makes for one.
use cedar_switch_3i4o_power.Common.{
  ℕ, ◌+◌, Bool, true, false, some, [], ◌∷◌, ◌++◌, Bytes, codes, if◌then◌else◌, ltb,
}
use cedar_switch_3i4o_power.ApiValidation.Text.Appends.{escape_text}
use cedar_switch_3i4o_power.WebApi.JsonWriter.{
  Writer, ℤ, int_text, decimal_text, web_json_object_begin, web_json_object_end,
  web_json_array_begin, web_json_array_end, web_json_key, web_json_string, web_json_bool,
  web_json_null, web_json_int, web_json_decimal,
}

mutual
  pub data Json : Type 0 where
    json_null : Json
    json_bool : Bool → Json
    json_string : Bytes → Json
    json_int : ℤ → Json
    json_decimal : ℕ → Json
    json_array : Items → Json
    json_object : Members → Json

  pub data Items : Type 0 where
    no_items : Items
    item : Json → Items → Items

  pub data Members : Type 0 where
    no_members : Members
    member : Bytes → Json → Members → Members

-- The compact text of a value; `more` says that a value came before.
unfoldable mutual
  pub render : Json → Bytes
  render json_null = codes "null"
  render (json_bool b) = if b then codes "true" else codes "false"
  render (json_string s) = 0x22 ∷ (escape_text s ++ (0x22 ∷ []))
  render (json_int z) = int_text z
  render (json_decimal n) = decimal_text n
  render (json_array items) = b'[' ∷ (render_items false items ++ (b']' ∷ []))
  render (json_object members) = b'{' ∷ (render_members false members ++ (b'}' ∷ []))

  pub render_items : Bool → Items → Bytes
  render_items more no_items = []
  render_items more (item v items) =
      (if more then b',' ∷ [] else []) ++ (render v ++ render_items true items)

  pub render_members : Bool → Members → Bytes
  render_members more no_members = []
  render_members more (member name v members) =
      (if more then b',' ∷ [] else [])
      ++ (0x22 ∷ (name ++ (0x22 ∷ b':' ∷ (render v ++ render_members true members))))

abbrev pub higher : ℕ → ℕ → ℕ
higher a b = if ltb a b then b else a

-- The levels that a value opens.
unfoldable mutual
  pub height : Json → ℕ
  height (json_array items) = 1 + items_height items
  height (json_object members) = 1 + members_height members
  height _ = 0

  pub items_height : Items → ℕ
  items_height no_items = 0
  items_height (item v items) = higher (height v) (items_height items)

  pub members_height : Members → ℕ
  members_height no_members = 0
  members_height (member name v members) = higher (height v) (members_height members)

-- The calls.
unfoldable mutual
  pub emit : Json → Writer → Writer
  emit json_null w = web_json_null w
  emit (json_bool b) w = web_json_bool w b
  emit (json_string s) w = web_json_string w (some s)
  emit (json_int z) w = web_json_int w z
  emit (json_decimal n) w = web_json_decimal w n
  emit (json_array items) w = web_json_array_end (emit_items items (web_json_array_begin w))
  emit (json_object members) w =
      web_json_object_end (emit_members members (web_json_object_begin w))

  pub emit_items : Items → Writer → Writer
  emit_items no_items w = w
  emit_items (item v items) w = emit_items items (emit v w)

  pub emit_members : Members → Writer → Writer
  emit_members no_members w = w
  emit_members (member name v members) w =
      emit_members members (emit v (web_json_key w (some name)))
