-- ===== src/Time.antt =====
-- Instants and durations of Go's time package, and the local calendar (internal/gateway/pool.go
-- calls it for the daily cap and the daily starting key).
--
-- An instant is a number of nanoseconds; 0 is the zero time.Time, which lies before every instant
-- that a clock shows. A duration is a number of nanoseconds too: the program makes no negative one.
-- `now.Sub(t)` is `now - t`, which is 0 where Go's difference is negative; the program only tests
-- whether such a difference passes a positive bound, and there both give the same answer.
use nano_llm_proxy.Prelude.{ℕ, ◌+◌, ◌*◌, ◌/◌, ◌^◌, ◌≤◌, ◌<◌, ◌≡◌, suc, arith}

-- time.Second
abbrev pub second : ℕ
second = 10 ^ 9

-- The calendar of the server's time zone. The laws are those of a zone whose clock does not jump
-- over a midnight.
pub record Calendar : Type 0 where
  -- the number of the local calendar day that an instant falls on; it stands for the text that
  -- Format("2006-01-02") gives, and for the day number that dailyOffset computes from that date
  pub day : ℕ → ℕ
  -- nextMidnight: the first instant of the next local day
  pub next_midnight : ℕ → ℕ
  pub midnight_later : (t : ℕ) → t < next_midnight t
  pub day-midnight : (t : ℕ) → day (next_midnight t) ≡ suc (day t)
  pub same_day : (t u : ℕ) → t ≤ u → u < next_midnight t → day u ≡ day t
  pub day_mono : (t u : ℕ) → t ≤ u → day t ≤ day u

abbrev day_length : ℕ
day_length = 86400 * second

-- Coordinated universal time, as an example of a calendar.
abbrev pub utc : Calendar
utc = record {
  day = λ t. t / day_length;
  next_midnight = λ t. (t / day_length + 1) * day_length;
  midnight_later = λ t. omega arith;
  day-midnight = λ t. omega arith;
  same_day = λ t u h k. omega arith;
  day_mono = λ t u h. omega arith;
}
