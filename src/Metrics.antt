-- ===== src/Metrics.antt =====
-- internal/metrics/metrics.go: the collectors that grepod registers. A counter is a number; a
-- histogram is the list of its observations, the newest first.
use grepod.Prelude.{ℕ, List, []}

pub record Metrics : Type 0 where
  pub insert_requests_total : ℕ
  pub insert_errors_total : ℕ
  pub insert_duration : List ℕ
  pub lines_dropped_total : ℕ
  pub tail_streams_total : ℕ
  pub tail_stream_errors_total : ℕ
  pub search_requests_total : ℕ
  pub search_errors_total : ℕ
  pub search_duration : List ℕ

unfoldable pub new : Metrics
new = record {
  insert_requests_total = 0;
  insert_errors_total = 0;
  insert_duration = [];
  lines_dropped_total = 0;
  tail_streams_total = 0;
  tail_stream_errors_total = 0;
  search_requests_total = 0;
  search_errors_total = 0;
  search_duration = [];
}
