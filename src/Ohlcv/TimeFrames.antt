-- ===== src/Ohlcv/TimeFrames.antt =====
-- src/ohlcv.c: the names of the time frames and the start of a request, on 64-bit milliseconds.
pub mod Start
use hyperliquid_c.Prelude.{
  ℕ, zero, suc, ◌+◌, ◌-◌, ◌*◌, ◌/◌, ◌%◌, ◌^◌, ◌≤◌, ◌<◌, min, String, ◌≡◌, refl, sym, ap, ap₂, ◌∙◌,
  ◌≢◌, ◌↔◌, ◌⊎◌, inl, inr, Bool, true, false, not, ◌&&◌, ◌||◌, Option, none, some, List, [], ◌∷◌,
  ◌++◌, map, arith, ltb, leb, ◌==◌, if◌then◌else◌, ltb→lt, lt→ltb, leb→le, ==_iff, ==_refl,
  Bool-cases, Option-cases, &&-eq-true, ◌>>=◌, ◌>>◌, guard, some-injective, >>=-eq-some,
  guard-eq-some, length, get_elem?, set, take, drop, replicate, length-append, length-set,
  length-take, length-drop, length-replicate, take_all, take-append_le, take-append-drop,
  append_cancel, All,
}
use hyperliquid_c.Prelude.Text.{
  CString, str, str_eq, str_eq_refl, str_eq→eq, str_eq_iff, split_at_char, strncpy, c_str, snprintf,
}
use hyperliquid_c.Prelude.Words.{sub_u64}
use hyperliquid_c.Types.{HlError, success, invalid_params}

abbrev pub valid_timeframes : List CString
valid_timeframes =
    str "1m"
    ∷ str "3m"
    ∷ str "5m"
    ∷ str "15m"
    ∷ str "30m"
    ∷ str "1h"
    ∷ str "2h"
    ∷ str "4h"
    ∷ str "8h"
    ∷ str "12h"
    ∷ str "1d"
    ∷ str "3d"
    ∷ str "1w"
    ∷ str "1M"
    ∷ []

unfoldable pub find_text : CString → List CString → Bool
find_text s [] = false
find_text s (t ∷ ts) = let rest = find_text s ts in if str_eq s t then true else rest

unfoldable pub validate_timeframe : Option CString → HlError
validate_timeframe none = invalid_params
validate_timeframe (some s) = if find_text s valid_timeframes then success else invalid_params

-- The milliseconds of a time frame, by the chain of comparisons.
unfoldable pub timeframe_ms : CString → ℕ
timeframe_ms s =
    if str_eq s (str "1m")
    then 60 * 1000
    else if str_eq s (str "3m")
    then 3 * 60 * 1000
    else if str_eq s (str "5m")
    then 5 * 60 * 1000
    else if str_eq s (str "15m")
    then 15 * 60 * 1000
    else if str_eq s (str "30m")
    then 30 * 60 * 1000
    else if str_eq s (str "1h")
    then 60 * 60 * 1000
    else if str_eq s (str "2h")
    then 2 * 60 * 60 * 1000
    else if str_eq s (str "4h")
    then 4 * 60 * 60 * 1000
    else if str_eq s (str "8h")
    then 8 * 60 * 60 * 1000
    else if str_eq s (str "12h")
    then 12 * 60 * 60 * 1000
    else if str_eq s (str "1d")
    then 24 * 60 * 60 * 1000
    else if str_eq s (str "3d")
    then 3 * 24 * 60 * 60 * 1000
    else if str_eq s (str "1w")
    then 7 * 24 * 60 * 60 * 1000
    else if str_eq s (str "1M")
    then 30 * 24 * 60 * 60 * 1000
    else 0

unfoldable pub calculate_start_time : ℕ → ℕ → CString → ℕ
calculate_start_time end_time limit timeframe =
    if limit == 0
    then sub_u64 end_time (30 * 24 * 60 * 60 * 1000)
    else sub_u64 end_time (limit * timeframe_ms timeframe % 2 ^ 64)

-- The part of `hl_fetch_ohlcv` that chooses the start. A pointer that is null is `none`.
unfoldable pub request_start : Option ℕ → Option ℕ → ℕ → CString → ℕ
request_start (some since) limit end_time timeframe = since
request_start none none end_time timeframe = sub_u64 end_time (24 * 60 * 60 * 1000)
request_start none (some limit) end_time timeframe =
    if ltb 0 limit
    then calculate_start_time end_time limit timeframe
    else sub_u64 end_time (24 * 60 * 60 * 1000)
