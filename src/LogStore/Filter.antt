-- ===== src/LogStore/Filter.antt =====
-- Which records a filter passes: `log_store_filter_match` and `ascii_contains`.
pub mod Contains
use cedar_switch_3i4o_power.Common.{
  ℕ, zero, suc, ◌+◌, ◌-◌, ◌*◌, ◌/◌, ◌%◌, ◌^◌, Bool, true, false, ◌&&◌, ◌||◌, not, List, [], ◌∷◌,
  Bytes, bytes_eq, length, get_or, ltb, leb, ◌==◌, if◌then◌else◌,
}
use cedar_switch_3i4o_power.LogStore.Types.{LogRecord, LogFilter, level_index}

-- A capital letter becomes a small one.
unfoldable pub lower : ℕ → ℕ
lower a = if leb b'A' a && leb a b'Z' then a - b'A' + b'a' else a

-- The inner loop at `hay[i]`, from `needle[k]` on with `left` bytes of it to go.
unfoldable pub equal_from : Bytes → Bytes → ℕ → ℕ → ℕ → Bool
unfolding lower
equal_from hay needle i k zero = true
equal_from hay needle i k (suc left) =
    let later = equal_from hay needle i (k + 1) left in
    if lower (get_or hay (i + k) 0) == lower (get_or needle k 0) then later else false

-- The outer loop from `i` on; it ends when the needle no longer fits, and after at most `fuel` rounds.
unfoldable pub contains_from : Bytes → ℕ → Bytes → ℕ → ℕ → ℕ → Bool
unfolding equal_from
contains_from hay hay_len needle n i zero = false
contains_from hay hay_len needle n i (suc fuel) =
    let later = contains_from hay hay_len needle n (i + 1) fuel in
    if leb (i + n) hay_len then if equal_from hay needle i 0 n then true else later else false

unfoldable pub ascii_contains : Bytes → ℕ → Bytes → Bool
unfolding contains_from
ascii_contains hay hay_len needle =
    let n = length needle in
    if n == 0 then true else contains_from hay hay_len needle n 0 (hay_len + 1)

-- The string that `strcmp` sees in a buffer that may hold a zero byte.
unfoldable pub c_string : Bytes → Bytes
c_string [] = []
c_string (b ∷ bs) = let rest = c_string bs in if b == 0 then [] else b ∷ rest

unfoldable pub log_store_filter_match : LogFilter → LogRecord → Bool
unfolding ascii_contains c_string
log_store_filter_match f rec =
    let min_level = level_index f.min_level in
    if leb 2 rec.source || not (f.sources / 2 ^ rec.source % 2 == 1)
    then false
    else if not (min_level == 0) && leb 1 rec.level && leb rec.level 4 && ltb rec.level min_level
    then false
    else if f.has_module
        && (not rec.has_module || not (bytes_eq f.module_name (c_string rec.module_name)))
    then false
    else if f.has_contains && not (ascii_contains rec.text (length rec.text) f.contains)
    then false
    else true
