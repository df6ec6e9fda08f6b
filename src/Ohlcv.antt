-- ===== src/Ohlcv.antt =====
-- src/ohlcv.c, by part: time frames, and what is computed from candles.
pub mod TimeFrames
pub mod Candles
pub mod Fetch
