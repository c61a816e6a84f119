-- ===== src/Api/Search/Window.antt =====
-- The days that a search without dates looks at.
use grepod.Prelude.{
  ℕ, suc, ◌+◌, ◌-◌, ◌*◌, ◌≤◌, ◌<◌, ◌≡◌, refl, ap, ◌∙◌, subst, true, Option, [], length, drop, keep,
  leb, Text, codes, arith, le→ltb,
}
use grepod.Prelude.Int.{ℤ, pos}
use grepod.Metrics.{Metrics}
use grepod.Storage.Line.{Time}
use grepod.Storage.Shards.{day_length, day_of, max_attached_shards, existing_shard_dates}
use grepod.Storage.Shards.Range.{days_from, existing_shard_dates_lem}
use grepod.Storage.Dates.{format_date}
use grepod.Storage.Dates.Parse.RoundTrip.{parse_date-format_date}
use grepod.Storage.Dates.Days.{days_before, format_day}
use grepod.Storage.Ranks.{Ranks}
use grepod.Storage.Search.{Engine, search}
use grepod.Api.Search.{
  start_text, end_text, valid, read_dates, options_of, answer, search_range, handle_search,
}

days_before-pos : (day n : ℕ) → n ≤ day → format_day (days_before day n) ≡ format_date (day - n)
unfolding format_day
days_before-pos day n h = rw (leb-true) refl
  where
    leb-true : leb n day ≡ true
    leb-true = ground (arith, h)

read_dates-format :
    (start end : ℕ)
    → start ≤ end
    → end < 3_652_059
    → read_dates (format_date start) (format_date end) ≡ valid (pos start) (pos end)
unfolding read_dates
read_dates-format start end h h' =
    rw
      (
        parse_date-format_date start (omega (arith, h, h')),
        parse_date-format_date end h',
        le→ltb end start h,
        read_dates,
      )
      refl

start_text-default :
    (n : ℕ) (now : Time) (get : Text → Text)
    → get (codes "start") ≡ []
    → n ≤ day_of now
    → start_text (pos (suc n)) now get ≡ format_date (day_of now - n)
unfolding start_text
start_text-default n now get e h = rw e (
    ap (λ k. format_day (days_before (day_of now) k)) (omega arith)
    ∙ days_before-pos (day_of now) n h)

end_text-default :
    (now : Time) (get : Text → Text)
    → get (codes "end") ≡ []
    → end_text now get ≡ format_date (day_of now)
unfolding end_text format_day
end_text-default now get e = rw e refl

window_days : (n today : ℕ) → n ≤ today → day_of (today * day_length) + 1 - (today - n) ≡ suc n
window_days n today h = omega arith

module _ (ranks : Ranks) (engine : Engine ranks) (reason : Text) (elapsed : ℕ) where
  handle_search-dates :
      (days : ℤ) (now : Time) (get : Text → Text) (metrics : Option Metrics)
      (start_str end_str : Text) (start end : ℤ)
      → start_text days now get ≡ start_str
      → end_text now get ≡ end_str
      → read_dates start_str end_str ≡ valid start end
      → handle_search ranks engine reason elapsed days now get metrics
        ≡ answer ranks reason elapsed start_str end_str get metrics
            (search ranks engine (options_of start end get))
  unfolding handle_search
  handle_search-dates days now get metrics start_str end_str start end e e' h =
      rw (e, e') (ap (search_range ranks engine reason elapsed start_str end_str get metrics) h)

  -- A request without dates, where the days to look back are at least one and do not reach behind the
  -- first day of year 1, and today is before the year 10000: handleSearch asks Search for the window of
  -- so many days of which today is the last, and answers with its page or its error; and Search looks at
  -- the shards there are of exactly these days, the ten most recent ones if there are more.
  pub default_window_lem :
      (n : ℕ) (now : Time) (get : Text → Text) (metrics : Option Metrics)
      → get (codes "start") ≡ []
      → get (codes "end") ≡ []
      → n ≤ day_of now
      → day_of now < 3_652_059
      → let first = day_of now - n in
        let shards = keep engine.exists (days_from first (suc n)) in
        let opts = options_of (pos first) (pos (day_of now)) get in
        (handle_search ranks engine reason elapsed (pos (suc n)) now get metrics
          ≡ answer ranks reason elapsed
              (format_date first)
              (format_date (day_of now))
              get
              metrics
              (search ranks engine opts))
        × ((existing_shard_dates engine.exists opts.start opts.end).0
            ≡ drop (length shards - max_attached_shards) shards)
  default_window_lem n now get metrics e e' h h' = (
    handle_search-dates (pos (suc n)) now get metrics (format_date (day_of now - n))
        (format_date (day_of now)) (pos (day_of now - n)) (pos (day_of now))
        (start_text-default n now get e h) (end_text-default now get e')
        (read_dates-format (day_of now - n) (day_of now) (omega arith) h'),
    subst
        (λ k.
          (existing_shard_dates engine.exists ((day_of now - n) * day_length)
            (day_of now * day_length)).0
          ≡ drop (length (keep engine.exists (days_from (day_of now - n) k)) - max_attached_shards)
              (keep engine.exists (days_from (day_of now - n) k)))
        (window_days n (day_of now) h)
        (existing_shard_dates_lem engine.exists (day_of now - n) (day_of now * day_length)
          (omega arith)).0,
  )
