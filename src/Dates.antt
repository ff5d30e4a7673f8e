-- ===== src/Dates.antt =====
-- The date-fns functions that the services call, on times in milliseconds since the epoch. The
-- package is not part of the repository; days are calendar days of the server's time zone.
use redbox.Prelude.{ℕ, ◌<◌, ◌+◌, ◌*◌, arith}

pub record DateFns : Type 0 where
  pub add_hours : ℕ → ℕ → ℕ
  pub add_days : ℕ → ℕ → ℕ
  pub add_hours_later : (t n : ℕ) → 0 < n → t < add_hours t n
  pub add_days_later : (t n : ℕ) → 0 < n → t < add_days t n

pub hours_later : (t n : ℕ) → 0 < n → t < t + n * 3600000
hours_later t n h = omega arith

pub days_later : (t n : ℕ) → 0 < n → t < t + n * 86400000
days_later t n h = omega arith

-- Dates of a time zone without clock changes.
unfoldable pub utc : DateFns
utc = record {
  add_hours = λ t n. t + n * 3600000;
  add_days = λ t n. t + n * 86400000;
  add_hours_later = hours_later;
  add_days_later = days_later;
}
