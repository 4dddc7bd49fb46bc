-- ===== src/Store/Times.antt =====
-- internal/store/snapshots.go: how a timestamp column is written and read.
use calendar_digest.Prelude.{ℕ, ◌/◌, ◌<◌, ◌≡◌, true, Option, some}
use calendar_digest.Prelude.Chars.{Text, text_lt}
use calendar_digest.Clock.Zone.{day_seconds}
use calendar_digest.Clock.Stamp.{
  format_rfc3339, parse_rfc3339, parse_rfc3339-format_rfc3339, format_rfc3339_lt,
}

-- The argument is the instant.
unfoldable pub format_time : ℕ → Text
format_time t = format_rfc3339 t

unfoldable pub parse_time : Text → Option ℕ
parse_time s = parse_rfc3339 s

-- Up to 9999-12-30, `ParseTime` reads back the instant that `FormatTime` wrote, and of two instants
-- the earlier has the lesser text.
pub format_time_lem :
    (t u : ℕ)
    → t < u
    → u / day_seconds < 3652058
    → (parse_time (format_time u) ≡ some u) × (text_lt (format_time t) (format_time u) ≡ true)
unfolding parse_time format_time
format_time_lem t u h small = (parse_rfc3339-format_rfc3339 u small, format_rfc3339_lt t u h small)
