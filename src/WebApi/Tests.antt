-- ===== src/WebApi/Tests.antt =====
-- The JSON writer run on concrete values, and its theorem applied to one.
use cedar_switch_3i4o_power.Common.{◌≡◌, refl, true, none, codes, arith, replicate}
use cedar_switch_3i4o_power.ApiValidation.Text.Appends.{escape_text}
use cedar_switch_3i4o_power.ApiValidation.Text.ErrorJson.{Written}
use cedar_switch_3i4o_power.WebApi.JsonWriter.{
  negsuc, int_text, decimal_text, web_json_writer_init, web_json_writer_finish,
  web_json_object_begin, web_json_null, web_json_writer_room,
}
use cedar_switch_3i4o_power.WebApi.JsonWriter.Value.{
  Json, json_bool, json_string, json_int, json_decimal, json_array, json_object, no_items, item,
  no_members, member, render, height, emit,
}
use cedar_switch_3i4o_power.WebApi.JsonWriter.Render.{web_json_writer_finish-render}

abbrev reading : Json
reading = json_object (
    member (codes "on") (json_bool true) (
      member (codes "mW") (json_decimal 103000) (
        member (codes "phases")
          (json_array (item (json_int (negsuc 4)) (item (json_string (codes "a\"b")) no_items)))
          no_members)))

reading_text : render reading ≡ codes "{\"on\":true,\"mW\":\"103000\",\"phases\":[-5,\"a\\\"b\"]}"
unfolding render int_text decimal_text escape_text
reading_text = refl

height-reading : height reading ≡ 2
unfolding height
height-reading = refl

web_json_writer_finish-render_example : Written (replicate 64 0) (render reading) (
  web_json_writer_finish (emit reading (web_json_writer_init (replicate 64 0) 64)),
  (emit reading (web_json_writer_init (replicate 64 0) 64)).buf,
)
web_json_writer_finish-render_example =
    web_json_writer_finish-render reading (replicate 64 0) (omega arith)
      (omega (arith, height-reading))

-- A document that is still open is not finished, and a second value makes the writer fail.
left_open :
    web_json_writer_finish (web_json_object_begin (web_json_writer_init (replicate 8 0) 8)) ≡ none
unfolding web_json_writer_finish web_json_object_begin web_json_writer_init
left_open = refl

two_values :
    web_json_writer_finish
      (web_json_null (web_json_null (web_json_writer_init (replicate 16 0) 16)))
    ≡ none
unfolding web_json_writer_finish web_json_null web_json_writer_init
two_values = refl

room_left : web_json_writer_room (web_json_null (web_json_writer_init (replicate 16 0) 16)) ≡ 11
unfolding web_json_writer_room web_json_null web_json_writer_init
room_left = refl
