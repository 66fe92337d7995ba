-- ===== src/ApiValidation/Errors.antt =====
-- The error codes of the web API and the error that a handler fills in: the table, request ids,
-- `api_error_init` and `api_error_add_field`. A code is the number of its constant, so that one past the
-- table can be given too.
pub mod Codes
use cedar_switch_3i4o_power.Common.{
  ℕ, zero, suc, ◌+◌, ◌-◌, ◌*◌, ◌/◌, ◌%◌, ◌^◌, Bool, true, false, ◌&&◌, ◌||◌, not, Option, none,
  some, List, [], ◌∷◌, ◌++◌, Bytes, codes, length, get_or, get_elem?, take, ltb, leb, ◌==◌,
  if◌then◌else◌, ◌>>=◌,
}
use Prim.Native.String.{String}

-- `struct error_entry`
pub record ErrorEntry : Type 0 where
  pub name : Bytes
  pub status : ℕ
  pub retryable : Bool

abbrev entry : String → ℕ → Bool → ErrorEntry
entry name status retryable = record { name = codes name; status = status; retryable = retryable }

unfoldable pub error_table : List ErrorEntry
error_table =
    entry "invalid_json" 400 false
    ∷ entry "invalid_query" 400 false
    ∷ entry "invalid_cursor" 400 false
    ∷ entry "authentication_required" 401 false
    ∷ entry "invalid_credentials" 401 false
    ∷ entry "session_expired" 401 true
    ∷ entry "csrf_failed" 403 false
    ∷ entry "origin_rejected" 403 false
    ∷ entry "setup_not_allowed" 403 false
    ∷ entry "not_found" 404 false
    ∷ entry "busy" 409 true
    ∷ entry "stale_revision" 409 false
    ∷ entry "invalid_state" 409 false
    ∷ entry "offset_mismatch" 409 false
    ∷ entry "idempotency_conflict" 409 false
    ∷ entry "ethernet_required" 409 false
    ∷ entry "resource_expired" 410 false
    ∷ entry "boot_changed" 410 false
    ∷ entry "payload_too_large" 413 false
    ∷ entry "unsupported_media_type" 415 false
    ∷ entry "validation_failed" 422 false
    ∷ entry "invalid_image" 422 false
    ∷ entry "unsupported_target" 422 false
    ∷ entry "incompatible_firmware" 422 false
    ∷ entry "signature_invalid" 422 false
    ∷ entry "rate_limited" 429 true
    ∷ entry "internal_error" 500 true
    ∷ entry "service_not_ready" 503 true
    ∷ entry "capability_unavailable" 503 false
    ∷ entry "storage_full" 507 false
    ∷ []

abbrev pub error_count : ℕ
error_count = 30

unfoldable pub field_code_names : List Bytes
field_code_names =
    codes "required"
    ∷ codes "invalid_format"
    ∷ codes "out_of_range"
    ∷ codes "too_long"
    ∷ codes "unknown_field"
    ∷ codes "conflicting"
    ∷ codes "not_allowed"
    ∷ []

-- `enum api_field_code`
abbrev pub field_required : ℕ
field_required = 0

abbrev pub field_invalid_format : ℕ
field_invalid_format = 1

abbrev pub field_out_of_range : ℕ
field_out_of_range = 2

abbrev pub field_conflicting : ℕ
field_conflicting = 5

abbrev pub field_not_allowed : ℕ
field_not_allowed = 6

abbrev pub field_code_count : ℕ
field_code_count = 7

unfoldable pub code_in_range : ℕ → Bool
code_in_range code = ltb code error_count

abbrev unknown_entry : ErrorEntry
unknown_entry = record { name = []; status = 500; retryable = false }

unfoldable pub api_error_status : ℕ → ℕ
unfolding code_in_range error_table
api_error_status code =
    if code_in_range code then (get_or error_table code unknown_entry).status else 500

-- `none` is NULL, here and in the next.
unfoldable pub api_error_str : ℕ → Option Bytes
unfolding code_in_range error_table
api_error_str code =
    if code_in_range code then some (get_or error_table code unknown_entry).name else none

unfoldable pub api_field_code_str : ℕ → Option Bytes
unfolding field_code_names
api_field_code_str code =
    if leb field_code_count code then none else some (get_or field_code_names code [])

unfoldable pub api_error_is_retryable : ℕ → Bool
unfolding code_in_range error_table
api_error_is_retryable code =
    if code_in_range code then (get_or error_table code unknown_entry).retryable else false

-- A hexadecimal digit of printf's `%x`, and `%0nx` of a number of at most `n` digits.
abbrev pub hex_char : ℕ → ℕ
hex_char d = if ltb d 10 then b'0' + d else b'a' + d - 10

unfoldable pub hex_fixed : ℕ → ℕ → Bytes
hex_fixed zero v = []
hex_fixed (suc n) v = hex_fixed n (v / 16) ++ (hex_char (v % 16) ∷ [])

-- `request_id_state` and `request_id_seeded`
pub record RequestIds : Type 0 where
  pub state : ℕ
  pub seeded : Bool

unfoldable pub api_request_id_seed : ℕ → RequestIds → RequestIds
api_request_id_seed seed ids = record { state = seed; seeded = true }

-- `cycle` is the cycle counter, which the first id takes for its seed; `none` is -ENOMEM.
unfoldable pub api_request_id_generate : ℕ → ℕ → RequestIds → Option Bytes × RequestIds
unfolding api_request_id_seed hex_fixed
api_request_id_generate cap cycle ids =
    let started = if ids.seeded then ids else api_request_id_seed cycle ids in
    let next = (started.state + 1) % 2 ^ 32 in
    if ltb cap 13
    then (none, ids)
    else (some (codes "req_" ++ hex_fixed 8 next), record started { state = next })

-- The loops of the two validators of identifiers: all bytes pass, and there are no more than `max`.
unfoldable pub all_pass : (ℕ → Bool) → Bytes → Bool
all_pass test [] = true
all_pass test (c ∷ s) = test c && all_pass test s

abbrev pub key_byte : ℕ → Bool
key_byte c = leb 0x21 c && leb c 0x7E

abbrev pub id_byte : ℕ → Bool
id_byte c =
    (leb b'a' c && leb c b'z')
    || (leb b'A' c && leb c b'Z')
    || (leb b'0' c && leb c b'9')
    || c == b'_'
    || c == b'-'

unfoldable pub api_validate_idempotency_key : Option Bytes → Bool
unfolding all_pass
api_validate_idempotency_key none = false
api_validate_idempotency_key (some key) =
    all_pass key_byte (take 65 key) && leb 16 (length key) && leb (length key) 64

unfoldable pub api_validate_opaque_id : Option Bytes → Bool
unfolding all_pass
api_validate_opaque_id none = false
api_validate_opaque_id (some id) =
    all_pass id_byte (take 65 id) && ltb 0 (length id) && leb (length id) 64

-- `struct api_error_field` and `struct api_error`; `fields` has the `field_count` fields in use.
pub record ErrorField : Type 0 where
  pub path : Bytes
  pub code : ℕ

pub record ApiError : Type 0 where
  pub code : ℕ
  pub message : Bytes
  pub request_id : Bytes
  pub fields : List ErrorField
  pub fields_truncated : Bool
  pub retry_after_seconds : ℕ

-- `copy_bounded` into an array of `size` bytes.
unfoldable pub copy_bounded : ℕ → Option Bytes → Bytes
copy_bounded size none = []
copy_bounded size (some src) = take (size - 1) src

-- `api_error_init`: `none` is -EINVAL.
unfoldable pub fresh_error : ℕ → Option Bytes → Bytes → ApiError
unfolding copy_bounded
fresh_error code message request_id = record {
  code = code;
  message = copy_bounded 128 message;
  request_id = copy_bounded 65 (some request_id);
  fields = [];
  fields_truncated = false;
  retry_after_seconds = 0;
}

unfoldable pub with_generated :
    ℕ → Option Bytes → Option Bytes × RequestIds → Option ApiError × RequestIds
unfolding fresh_error
with_generated code message (none, ids) = (none, ids)
with_generated code message (some id, ids) = (some (fresh_error code message id), ids)

unfoldable pub api_error_init :
    ℕ → Option Bytes → Option Bytes → ℕ → RequestIds → Option ApiError × RequestIds
unfolding code_in_range api_validate_opaque_id fresh_error with_generated api_request_id_generate
api_error_init code message none cycle ids =
    if not (code_in_range code)
    then (none, ids)
    else with_generated code message (api_request_id_generate 65 cycle ids)
api_error_init code message (some request_id) cycle ids =
    if not (code_in_range code) || not (api_validate_opaque_id (some request_id))
    then (none, ids)
    else (some (fresh_error code message request_id), ids)

-- The loop of `path_is_valid`, after `i` bytes.
unfoldable pub path_bytes : Bytes → ℕ → Bool
path_bytes [] i = true
path_bytes (c ∷ s) i =
    let rest = path_bytes s (i + 1) in
    if ltb c 0x20 then false else if ltb 63 (i + 1) then false else rest

unfoldable pub path_is_valid : Option Bytes → Bool
unfolding path_bytes
path_is_valid none = false
path_is_valid (some path) = if not (get_or path 0 0 == b'/') then false else path_bytes path 0

pub data AddResult : Type 0 where
  add_ok add_einval add_enospc : AddResult

abbrev pub is_null : Option Bytes → Bool
is_null none = true
is_null (some _) = false

-- `api_error_add_field`, where an error carries `max_fields` fields.
unfoldable pub api_error_add_field : ℕ → ApiError → Option Bytes → ℕ → AddResult × ApiError
unfolding path_is_valid api_field_code_str copy_bounded
api_error_add_field max_fields err path code =
    let field : ErrorField = record { path = copy_bounded 64 path; code = code } in
    if not (path_is_valid path) || is_null (api_field_code_str code)
    then (add_einval, err)
    else if leb max_fields (length err.fields)
    then (add_enospc, record err { fields_truncated = true })
    else (add_ok, record err { fields = err.fields ++ (field ∷ []) })

unfoldable pub api_error_set_retry_after : ApiError → ℕ → ApiError
api_error_set_retry_after err seconds = record err { retry_after_seconds = seconds }
