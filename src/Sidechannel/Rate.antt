-- ===== src/Sidechannel/Rate.antt =====
-- features/sidechannel/index.js, _getLimiter and _checkRate: a token bucket for each connection.
-- Tokens are bytes, with fractions; the model counts thousandths of a byte and is exact.
pub mod Throughput
use intercom_swap.Prelude.{
  ℕ, ◌+◌, ◌-◌, ◌*◌, Bool, true, false, Option, some, none, ltb, leb, if◌then◌else◌,
}
use intercom_swap.Sidechannel.Settings.{Settings}

pub record Limiter : Type 0 where
  pub tokens : ℕ  -- in thousandths
  pub last_refill : ℕ
  pub strikes : ℕ
  pub strike_reset_at : ℕ
  pub blocked_until : ℕ

abbrev pub capacity : Settings → ℕ
capacity settings = settings.rate_burst_bytes * 1000

-- The limiter of a connection that has none yet.
abbrev pub new_limiter : Settings → ℕ → Limiter
new_limiter settings now = record {
  tokens = capacity settings;
  last_refill = now;
  strikes = 0;
  strike_reset_at = now + settings.strike_window_ms;
  blocked_until = 0;
}

-- _getLimiter
abbrev pub get_limiter : Settings → ℕ → Option Limiter → Limiter
get_limiter settings now none = new_limiter settings now
get_limiter settings now (some limiter) = limiter

unfoldable pub reset_strikes : Settings → ℕ → Limiter → Limiter
reset_strikes settings now limiter =
    if ltb limiter.strike_reset_at now
    then record limiter { strikes = 0; strike_reset_at = now + settings.strike_window_ms }
    else limiter

-- Math.min(this.rateBurstBytes, state.tokens + refill)
unfoldable pub refilled : Settings → ℕ → ℕ → ℕ
refilled settings elapsed tokens =
    let more = tokens + elapsed * settings.rate_bytes_per_second in
    if ltb more (capacity settings) then more else capacity settings

unfoldable pub refill : Settings → ℕ → Limiter → Limiter
unfolding refilled
refill settings now limiter =
    if ltb limiter.last_refill now
    then record limiter {
      tokens = refilled settings (now - limiter.last_refill) limiter.tokens;
      last_refill = now;
    }
    else limiter

-- A message over the tokens: a strike, and a block after too many.
unfoldable pub strike : Settings → ℕ → Limiter → Limiter
strike settings now limiter = record limiter {
  strikes = limiter.strikes + 1;
  blocked_until =
      if leb settings.max_strikes (limiter.strikes + 1)
      then now + settings.block_ms
      else limiter.blocked_until;
}

unfoldable pub spend : Settings → ℕ → ℕ → Limiter → Limiter × Bool
unfolding strike
spend settings now bytes limiter =
    if ltb limiter.tokens (bytes * 1000)
    then (strike settings now limiter, false)
    else (record limiter { tokens = limiter.tokens - bytes * 1000 }, true)

-- _checkRate, on the limiter of the connection
unfoldable pub check_rate : Settings → ℕ → ℕ → Limiter → Limiter × Bool
check_rate settings now bytes limiter =
    if ltb now limiter.blocked_until
    then (limiter, false)
    else spend settings now bytes (refill settings now (reset_strikes settings now limiter))
