-- ===== src/ApiValidation/Text.antt =====
-- Writing JSON text into a buffer: `api_json_append_escaped`, `append_literal` and
-- `api_error_to_json`. A call gives its return value, `none` for -ENOMEM, and the buffer, which has
-- `cap` bytes and is never NULL here.
pub mod Appends
pub mod Escapes
pub mod ErrorJson
use cedar_switch_3i4o_power.Common.{
  ℕ, zero, suc, ◌+◌, ◌-◌, ◌/◌, ◌%◌, Bool, true, false, ◌&&◌, ◌||◌, not, Option, none, some, List,
  [], ◌∷◌, ◌++◌, Bytes, codes, write, length, get_or, ltb, leb, ◌==◌, if◌then◌else◌,
}
use cedar_switch_3i4o_power.ApiValidation.Errors.{
  hex_char, ErrorField, ApiError, ErrorEntry, error_table, code_in_range, field_code_names,
  api_error_str, api_error_is_retryable, api_field_code_str,
}

abbrev backslash : ℕ
backslash = 0x5C

-- The switch over one byte.
unfoldable pub escape_byte : ℕ → Bytes
escape_byte c =
    if c == 0x22
    then backslash ∷ 0x22 ∷ []
    else if c == backslash
    then backslash ∷ backslash ∷ []
    else if c == 0x0A
    then backslash ∷ b'n' ∷ []
    else if c == 0x0D
    then backslash ∷ b'r' ∷ []
    else if c == 0x09
    then backslash ∷ b't' ∷ []
    else if ltb c 0x20
    then backslash ∷ b'u' ∷ b'0' ∷ b'0' ∷ hex_char (c / 16) ∷ hex_char (c % 16) ∷ []
    else c ∷ []

-- The loop of `api_json_append_escaped`.
unfoldable pub append_bytes : Bytes → ℕ → ℕ → Bytes → Option ℕ × Bytes
unfolding escape_byte
append_bytes buf cap pos [] = (some pos, write buf pos (0 ∷ []))
append_bytes buf cap pos (c ∷ s) =
    let piece = escape_byte c in
    let rest = append_bytes (write buf pos piece) cap (pos + length piece) s in
    if leb cap (pos + length piece) then (none, buf) else rest

unfoldable pub api_json_append_escaped : Bytes → ℕ → ℕ → Option Bytes → Option ℕ × Bytes
unfolding append_bytes
api_json_append_escaped buf cap pos none = (none, buf)
api_json_append_escaped buf cap pos (some src) =
    if leb cap pos then (none, buf) else append_bytes buf cap pos src

unfoldable pub append_literal : Bytes → ℕ → ℕ → Bytes → Option ℕ × Bytes
append_literal buf cap pos src =
    if leb cap (pos + length src) then (none, buf) else (some (pos + length src), write buf pos src)

-- One use of the macro `APPEND`.
pub data Piece : Type 0 where
  literal escaped : Bytes → Piece

unfoldable pub append_piece : Bytes → ℕ → ℕ → Piece → Option ℕ × Bytes
append_piece buf cap pos (literal src) = append_literal buf cap pos src
append_piece buf cap pos (escaped src) = api_json_append_escaped buf cap pos (some src)

-- A row of them; the first that fails ends the function. At the end the terminator is written.
unfoldable pub append_pieces : Bytes → ℕ → ℕ → List Piece → Option ℕ × Bytes
unfolding append_piece
append_pieces buf cap pos [] = (some pos, write buf pos (0 ∷ []))
append_pieces buf cap pos (p ∷ ps) =
    let done = append_piece buf cap pos p in
    elim done.0 [ none ↦ (none, done.1) | some next ↦ append_pieces done.1 cap next ps ]

-- The loop over the fields.
unfoldable pub field_pieces : ErrorField → List Piece
field_pieces f =
    literal (codes "{\"path\":\"")
    ∷ escaped f.path
    ∷ literal (codes "\",\"code\":\"")
    ∷ literal (get_or field_code_names f.code [])
    ∷ literal (codes "\"}")
    ∷ []

unfoldable pub more_fields : List ErrorField → List Piece
unfolding field_pieces
more_fields [] = []
more_fields (f ∷ fs) = literal (codes ",") ∷ (field_pieces f ++ more_fields fs)

unfoldable pub all_fields : List ErrorField → List Piece
unfolding field_pieces more_fields
all_fields [] = []
all_fields (f ∷ fs) =
    literal (codes ",\"fields\":[")
    ∷ (field_pieces f ++ (more_fields fs ++ (literal (codes "]") ∷ [])))

abbrev truncation_note : Bool → List Piece
truncation_note true = literal (codes " (further problems were not reported)") ∷ []
truncation_note false = []

unfoldable pub error_pieces : ApiError → List Piece
unfolding all_fields error_table
error_pieces err =
    let row = get_or error_table err.code (record { name = []; status = 0; retryable = false }) in
    literal (codes "{\"error\":{\"code\":\"")
    ∷ literal row.name
    ∷ literal (codes "\",\"message\":\"")
    ∷ escaped err.message
    ∷ (truncation_note err.fields_truncated
        ++ (literal (codes "\",\"request_id\":\"")
            ∷ escaped err.request_id
            ∷ literal (codes "\",\"retryable\":")
            ∷ literal (if row.retryable then codes "true" else codes "false")
            ∷ (all_fields err.fields ++ (literal (codes "}}") ∷ []))))

unfoldable pub api_error_to_json : ApiError → Bytes → ℕ → Option ℕ × Bytes
unfolding error_pieces append_pieces code_in_range
api_error_to_json err buf cap =
    if cap == 0
    then (none, buf)
    else if not (code_in_range err.code)
    then (none, buf)
    else append_pieces buf cap 0 (error_pieces err)
