-- ===== src/Storage/Retention/Names.antt =====
-- The names of shard files.
use grepod.Prelude.{ℕ, ◌<◌, ◌≡◌, refl, ◌∙◌, false, some, ◌>>=◌}
use grepod.Storage.Dates.{format_date, write_date}
use grepod.Storage.Dates.Parse.{parse_date}
use grepod.Storage.Dates.Parse.RoundTrip.{parse_date-format_date}
use grepod.Storage.Retention.{db_name, shard_day, from_year_one}

trimmed :
    (y : ℕ) (md : ℕ × ℕ)
    → shard_day (record { is_dir = false; name = db_name (write_date y md) })
      ≡ (parse_date (write_date y md) >>= from_year_one)
unfolding shard_day db_name
trimmed y md = refl

-- The file of a day, up to the year 9999, is taken for that day.
pub shard_day-db_name :
    (day : ℕ)
    → day < 3_652_059
    → shard_day (record { is_dir = false; name = db_name (format_date day) }) ≡ some day
unfolding format_date
shard_day-db_name day h = trimmed _ _ ∙ rw (parse_date-format_date day h) refl
