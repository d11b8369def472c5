-- ===== src/Subscription/Calendar.antt =====
-- What the program takes from Python's calendar, and `days_to_datetime`
-- (src/core/utils/converters.py).
use remnashop.Prelude.{ℕ, ◌+◌, ◌≡◌, Time, Option, none, some, ◌==◌, if◌then◌else◌, days}

-- `UNLIMITED_EXPIRE_YEAR`
abbrev pub unlimited_expire_year : ℕ
unlimited_expire_year = 2099

-- `datetime.year`; `dt.replace(year=y)`, none where it raises `ValueError` (29 February); and
-- `dt.replace(year=y, day=min(dt.day, monthrange(y, dt.month)[1]))`. Both give a date of the year.
pub record Calendar : Type 0 where
  pub year : Time → ℕ
  pub replace_year : ℕ → Time → Option Time
  pub replace_year_clamped : ℕ → Time → Time
  pub year-replace_year : (y : ℕ) (t u : Time) → replace_year y t ≡ some u → year u ≡ y
  pub year-replace_year_clamped : (y : ℕ) (t : Time) → year (replace_year_clamped y t) ≡ y

module _ (calendar : Calendar) where
  open calendar use {replace_year, replace_year_clamped}

  abbrev pub unlimited_from : Time → Time
  unlimited_from now = elim (replace_year unlimited_expire_year now) [
    | none ↦ replace_year_clamped unlimited_expire_year now
    | some t ↦ t
  ]

  unfoldable pub days_to_datetime : ℕ → Time → Time
  days_to_datetime value now = if value == 0 then unlimited_from now else now + days value
