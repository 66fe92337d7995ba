-- ===== src/LogStore/Types.antt =====
-- The data of log_store.h. A C string is the list of its bytes before the terminator, and a buffer
-- with a length is the list of that many bytes. `sources` is the bit mask of a filter.
use cedar_switch_3i4o_power.Common.{ℕ, Bool, Option, none, some, Bytes, codes, ◌==◌, if◌then◌else◌}

-- `enum log_store_source`
pub data LogSource : Type 0 where
  stm32 esp32 : LogSource

abbrev pub source_index : LogSource → ℕ
source_index stm32 = 0
source_index esp32 = 1

-- `enum log_store_level`
pub data LogLevel : Type 0 where
  level_none debug info warning error unknown : LogLevel

abbrev pub level_index : LogLevel → ℕ
level_index level_none = 0
level_index debug = 1
level_index info = 2
level_index warning = 3
level_index error = 4
level_index unknown = 5

-- `enum log_store_kind`
pub data LogKind : Type 0 where
  message reset paused gap : LogKind

abbrev pub kind_index : LogKind → ℕ
kind_index message = 0
kind_index reset = 1
kind_index paused = 2
kind_index gap = 3

-- `struct log_store_record`: `text` has `text_len` bytes. The source, level and kind are cast from
-- stored bytes, so they are numbers.
pub record LogRecord : Type 0 where
  pub source : ℕ
  pub level : ℕ
  pub kind : ℕ
  pub truncated : Bool
  pub generation : ℕ
  pub seq : ℕ
  pub uptime_ms : ℕ
  pub has_module : Bool
  pub module_name : Bytes
  pub text : Bytes

-- `struct log_store_filter`
pub record LogFilter : Type 0 where
  pub sources : ℕ
  pub min_level : LogLevel
  pub has_module : Bool
  pub module_name : Bytes
  pub has_contains : Bool
  pub contains : Bytes

abbrev pub text_max : ℕ
text_max = 512

abbrev pub module_max : ℕ
module_max = 64

abbrev pub contains_max : ℕ
contains_max = 512

-- `log_store_source_str`, `log_store_level_str` and `log_store_kind_str`, on any number; `none` is
-- NULL.
unfoldable pub log_store_source_str : ℕ → Option Bytes
log_store_source_str source =
    if source == 0 then some (codes "stm32") else if source == 1 then some (codes "esp32") else none

unfoldable pub log_store_level_str : ℕ → Option Bytes
log_store_level_str level =
    if level == 1
    then some (codes "debug")
    else if level == 2
    then some (codes "info")
    else if level == 3
    then some (codes "warning")
    else if level == 4
    then some (codes "error")
    else if level == 5
    then some (codes "unknown")
    else none

unfoldable pub log_store_kind_str : ℕ → Option Bytes
log_store_kind_str kind =
    if kind == 0
    then some (codes "message")
    else if kind == 1
    then some (codes "reset")
    else if kind == 2
    then some (codes "paused")
    else if kind == 3
    then some (codes "gap")
    else none
