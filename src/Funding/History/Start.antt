-- ===== src/Funding/History/Start.antt =====
-- How far back a request of the funding history of src/funding.c reaches.
use hyperliquid_c.Prelude.{ℕ, ◌+◌, ◌*◌, ◌%◌, ◌^◌, ◌≤◌, ◌<◌, ◌≡◌, arith, ltb, if◌then◌else◌}
use hyperliquid_c.Prelude.Words.{sub_u64}
use hyperliquid_c.Funding.History.{history_start}

-- How long before `time` the request starts, in hours.
abbrev pub hours : ℕ → ℕ
hours limit = if ltb 0 limit then limit else 500

reach :
    (h t : ℕ)
    → t < 2 ^ 64
    → 2 ^ 32 ≤ t
    → (h ≤ 1193 → sub_u64 (t % 2 ^ 64) (h * 60 * 60 * 1000 % 2 ^ 32) + h * 60 * 60 * 1000 ≡ t)
      × (t < sub_u64 (t % 2 ^ 64) (h * 60 * 60 * 1000 % 2 ^ 32) + 2 ^ 32)
reach h t small late = (λ le. omega arith, omega arith)

-- For a limit of at most 1193 hours, the request starts so many hours (500 where the limit is 0)
-- before the time; for a longer one the product wraps, and the request never starts 2^32
-- milliseconds, which are less than fifty days, before the time.
pub history_start_lem :
    (limit time : ℕ)
    → time * 1000 < 2 ^ 64
    → 2 ^ 32 ≤ time * 1000
    → (limit ≤ 1193 → history_start limit time + hours limit * 60 * 60 * 1000 ≡ time * 1000)
      × (time * 1000 < history_start limit time + 2 ^ 32)
unfolding history_start
history_start_lem limit time small late =
    let (exact, near) = reach (hours limit) (time * 1000) small late in
    (λ le. exact (ground arith), near)
