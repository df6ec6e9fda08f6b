-- ===== src/Ohlcv/TimeFrames/Start.antt =====
-- Requests of src/ohlcv.c span what their time frame and limit say.
use hyperliquid_c.Prelude.{
  ◌≤◌, ℕ, ◌+◌, ◌*◌, ◌%◌, ◌^◌, ◌<◌, ◌≡◌, ◌↔◌, inl, inr, true, none, some, arith, ltb, ◌==◌,
  if◌then◌else◌, Bool-cases,
}
use hyperliquid_c.Prelude.Text.{CString}
use hyperliquid_c.Prelude.Words.{sub_u64_exact}
use hyperliquid_c.Types.{success}
use hyperliquid_c.Ohlcv.TimeFrames.{
  find_text, validate_timeframe, timeframe_ms, calculate_start_time, request_start,
}

-- A time frame is accepted exactly where the chain of comparisons knows its length.
pub validate_timeframe_iff :
    (s : CString) → (validate_timeframe (some s) ≡ success) ↔ (0 < timeframe_ms s)
unfolding validate_timeframe timeframe_ms find_text
validate_timeframe_iff s = (λ h. ground arith, λ h. ground arith)

-- An accepted time frame lasts from one minute to thirty days.
timeframe_ms_bounds : (s : CString) → timeframe_ms s ≤ 30 * 24 * 60 * 60 * 1000
unfolding timeframe_ms
timeframe_ms_bounds s = ground arith

-- Without a start but with a limit, a request spans the limit times the length of the time frame,
-- if so much time has passed since 1970; with neither it spans a day.
pub request_start_lem :
    (limit end_time : ℕ) (timeframe : CString)
    → end_time < 2 ^ 64
    → limit * timeframe_ms timeframe ≤ end_time
    → 24 * 60 * 60 * 1000 ≤ end_time
    → let start = request_start none (some limit) end_time timeframe in
      start + (if limit == 0 then 24 * 60 * 60 * 1000 else limit * timeframe_ms timeframe)
      ≡ end_time
unfolding request_start calculate_start_time
request_start_lem limit end_time timeframe small enough day = elim (Bool-cases (limit == 0)) [
  | inl z ↦ ground (arith, sub_u64_exact end_time (24 * 60 * 60 * 1000) small day)
  | inr nz ↦
      let fits = sub_u64_exact end_time (limit * timeframe_ms timeframe) small enough in
      let same : limit * timeframe_ms timeframe % 2 ^ 64 ≡ limit * timeframe_ms timeframe =
        omega arith in
      let pos : ltb 0 limit ≡ true = ground arith in simp (pos, nz, same) (simp same at fits)
]
