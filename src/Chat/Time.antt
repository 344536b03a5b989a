-- ===== src/Chat/Time.antt =====
-- Go's time.Time and time.Duration, as the hub uses them. An instant is the number of nanoseconds
-- since year 1 in UTC, so that 0 is the zero value `time.Time{}`. The code subtracts only under
-- `max(..., 0)`, so a duration is a number too; `Sub` saturates at the largest int64.
use mamechat.Prelude.{
  ℕ, ◌-◌, min, ◌≡◌, Bool, false, Option, none, some, [], Text, ◌==◌, if◌then◌else◌,
}
use mamechat.Strings.{is_empty}

abbrev pub Time : Type 0
Time = ℕ

abbrev pub Duration : Type 0
Duration = ℕ

abbrev pub zero_time : Time
zero_time = 0

abbrev pub is_zero : Time → Bool
is_zero t = t == 0

abbrev pub second : Duration
second = 1000000000

abbrev pub max_duration : Duration
max_duration = 9223372036854775807

-- `max(deadline.Sub(now), 0)`
abbrev pub time_left : Time → Time → Duration
time_left deadline now = min (deadline - now) max_duration

-- `time.Time.UTC().Format(time.RFC3339Nano)` and `time.Parse(time.RFC3339Nano, s)`. What the hub
-- relies on: a text that was formatted is parsed to the same instant, and is not empty.
pub record TimeFormat : Type 0 where
  pub format : Time → Text
  pub parse : Text → Option Time
  pub parse-format : (t : Time) → parse (format t) ≡ some t
  pub format_nonempty : (t : Time) → is_empty (format t) ≡ false

-- `parseTime`: the present if there is no instant to read.
unfoldable pub parse_time : TimeFormat → Time → Text → Time
parse_time f now s = if is_empty s then now else (elim (f.parse s) [ none ↦ now | some t ↦ t ])

-- `formatTime`
unfoldable pub format_time : TimeFormat → Time → Text
format_time f t = if is_zero t then [] else f.format t
