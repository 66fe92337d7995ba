-- ===== src/WebApi/JsonWriter.antt =====
-- The bounded JSON writer of modules/web-api/lib/json_writer.c, whose struct is in
-- modules/web-api/include/web_api/json_writer.h. A buffer that is not NULL is the list of its bytes.
pub mod Value
pub mod Levels
pub mod Steps
pub mod Calls
pub mod Render
use cedar_switch_3i4o_power.Common.{
  ℕ, zero, suc, ◌+◌, ◌-◌, ◌/◌, ◌%◌, Bool, true, false, ◌&&◌, ◌||◌, not, Option, none, some, List,
  [], ◌∷◌, ◌++◌, Bytes, codes, length, get_or, set, replicate, write, ltb, leb, ◌==◌, if◌then◌else◌,
}
use cedar_switch_3i4o_power.ApiValidation.Text.{api_json_append_escaped}

-- `enum level_kind`
pub data LevelKind : Type 0 where
  kind_root kind_object kind_array : LevelKind

abbrev pub same_kind : LevelKind → LevelKind → Bool
same_kind kind_root kind_root = true
same_kind kind_object kind_object = true
same_kind kind_array kind_array = true
same_kind _ _ = false

abbrev pub max_depth : ℕ
max_depth = 8

-- `struct web_json_writer`
pub record Writer : Type 0 where
  pub buf : Bytes
  pub cap : ℕ
  pub pos : ℕ
  pub depth : ℕ
  pub kind : List LevelKind
  pub has_value : List Bool
  pub after_key : Bool
  pub failed : Bool

abbrev pub fail : Writer → Writer
fail w = record w { failed = true }

unfoldable pub web_json_writer_init : Bytes → ℕ → Writer
web_json_writer_init buf cap = record {
  buf = if cap == 0 then buf else write buf 0 (0 ∷ []);
  cap = cap;
  pos = 0;
  depth = 0;
  kind = replicate (max_depth + 1) kind_root;
  has_value = replicate (max_depth + 1) false;
  after_key = false;
  failed = cap == 0;
}

unfoldable pub put : Writer → Bytes → Writer
put w text =
    let next = w.pos + length text in
    if w.failed
    then w
    else if leb w.cap next
    then fail w
    else record w { buf = write (write w.buf w.pos text) next (0 ∷ []); pos = next }

-- The switch of `begin_value`.
unfoldable pub begin_at : LevelKind → Writer → Writer
unfolding put
begin_at kind_root w = if get_or w.has_value 0 false then fail w else w
begin_at kind_object w = record w { failed = w.failed || not w.after_key; after_key = false }
begin_at kind_array w = if get_or w.has_value w.depth false then put w (b',' ∷ []) else w

unfoldable pub begin_value : Writer → Writer
unfolding begin_at
begin_value w = if w.failed then w else begin_at (get_or w.kind w.depth kind_root) w

unfoldable pub end_value : Writer → Writer
end_value w = if w.failed then w else record w { has_value = set w.has_value w.depth true }

-- The end of `open_level`.
unfoldable pub level_opened : LevelKind → Writer → Writer
level_opened kind w =
    let depth = suc w.depth in
    record w {
      depth = depth;
      kind = set w.kind depth kind;
      has_value = set w.has_value depth false;
    }

unfoldable pub open_level : LevelKind → Bytes → Writer → Writer
unfolding begin_value put level_opened
open_level kind token w =
    let begun = begin_value w in
    if begun.failed
    then begun
    else if leb max_depth begun.depth
    then fail begun
    else level_opened kind (put begun token)

unfoldable pub close_level : LevelKind → Bytes → Writer → Writer
unfolding put end_value
close_level kind token w =
    let written = put w token in
    let bad =
      w.depth == 0 || not (same_kind (get_or w.kind w.depth kind_root) kind) || w.after_key in
    if w.failed
    then w
    else if bad
    then fail w
    else end_value (record written { depth = written.depth - 1 })

unfoldable pub web_json_object_begin : Writer → Writer
unfolding open_level
web_json_object_begin = open_level kind_object (b'{' ∷ [])

unfoldable pub web_json_object_end : Writer → Writer
unfolding close_level
web_json_object_end = close_level kind_object (b'}' ∷ [])

unfoldable pub web_json_array_begin : Writer → Writer
unfolding open_level
web_json_array_begin = open_level kind_array (b'[' ∷ [])

unfoldable pub web_json_array_end : Writer → Writer
unfolding close_level
web_json_array_end = close_level kind_array (b']' ∷ [])

-- The three last writes of `web_json_key`.
unfoldable pub put_name : Bytes → Writer → Writer
unfolding put
put_name name w = put (put (put w (0x22 ∷ [])) name) (0x22 ∷ b':' ∷ [])

-- The writes of `web_json_key`.
unfoldable pub key_written : Bool → Bytes → Writer → Writer
unfolding put put_name
key_written has name w =
    let apart = if has then put w (b',' ∷ []) else w in
    let named = put_name name apart in record named { after_key = not named.failed }

unfoldable pub web_json_key : Writer → Option Bytes → Writer
web_json_key w none = if w.failed then w else fail w
web_json_key w (some name) =
    let bad = not (same_kind (get_or w.kind w.depth kind_root) kind_object) || w.after_key in
    if w.failed
    then w
    else if bad
    then fail w
    else key_written (get_or w.has_value w.depth false) name w

-- What follows the escaped text.
unfoldable pub string_end : Option ℕ × Bytes → Writer → Writer
unfolding put end_value
string_end (none, buf) w = record w { buf = buf; failed = true }
string_end (some next, buf) w = end_value (put (record w { buf = buf; pos = next }) (0x22 ∷ []))

unfoldable pub web_json_string : Writer → Option Bytes → Writer
unfolding put begin_value string_end
web_json_string w none = fail w
web_json_string w (some text) =
    let begun = put (begin_value w) (0x22 ∷ []) in
    if begun.failed
    then begun
    else string_end (api_json_append_escaped begun.buf begun.cap begun.pos (some text)) begun

-- A value whose text is written as it is: the bodies of the four functions that follow.
unfoldable pub plain_value : Writer → Bytes → Writer
unfolding begin_value put end_value
plain_value w text = end_value (put (begin_value w) text)

unfoldable pub web_json_bool : Writer → Bool → Writer
unfolding plain_value
web_json_bool w value = plain_value w (if value then codes "true" else codes "false")

unfoldable pub web_json_null : Writer → Writer
unfolding plain_value
web_json_null w = plain_value w (codes "null")

unfoldable pub web_json_string_or_null : Writer → Option Bytes → Writer
unfolding web_json_null web_json_string
web_json_string_or_null w none = web_json_null w
web_json_string_or_null w (some text) = web_json_string w (some text)

-- The digits of a number of 64 bits, of which there are at most 20: `%PRIu64`.
unfoldable pub digits : ℕ → ℕ → Bytes
digits zero n = []
digits (suc more) n =
    let before = digits more (n / 10) in
    if n / 10 == 0 then (b'0' + n % 10) ∷ [] else before ++ ((b'0' + n % 10) ∷ [])

unfoldable pub decimal : ℕ → Bytes
unfolding digits
decimal n = digits 20 n

-- An `int64_t`: `negsuc n` is -(n + 1).
pub data ℤ : Type 0 where
  pos negsuc : ℕ → ℤ

unfoldable pub int_text : ℤ → Bytes
unfolding decimal
int_text (pos n) = decimal n
int_text (negsuc n) = b'-' ∷ decimal (n + 1)

unfoldable pub web_json_int : Writer → ℤ → Writer
unfolding plain_value int_text
web_json_int w value = plain_value w (int_text value)

unfoldable pub decimal_text : ℕ → Bytes
unfolding decimal
decimal_text value = 0x22 ∷ (decimal value ++ (0x22 ∷ []))

unfoldable pub web_json_decimal : Writer → ℕ → Writer
unfolding plain_value decimal_text
web_json_decimal w value = plain_value w (decimal_text value)

-- `saved` points into the same buffer, whose bytes are those of `w`.
unfoldable pub web_json_writer_rollback : Writer → Writer → Writer
web_json_writer_rollback w saved =
    if ltb saved.pos saved.cap
    then record saved { buf = write w.buf saved.pos (0 ∷ []) }
    else record saved { buf = w.buf }

unfoldable pub web_json_writer_room : Writer → ℕ
web_json_writer_room w = if w.failed || leb w.cap (w.pos + 1) then 0 else w.cap - w.pos - 1

-- `none` is -ENOMEM.
unfoldable pub web_json_writer_finish : Writer → Option ℕ
web_json_writer_finish w =
    if w.failed || not (w.depth == 0) || w.after_key || not (get_or w.has_value 0 false)
    then none
    else some w.pos
