-- ===== src/Server/Tests.antt =====
-- Settings and the sink of cmd/server/main.go on concrete inputs.
use grepod.Prelude.{
  ℕ, ◌≡◌, refl, true, Option, none, some, [], ◌∷◌, ◌++◌, drop, contains, Text, codes,
}
use grepod.Prelude.Int.{ℤ, pos}
use grepod.Prelude.Decimal.{format_int}
use grepod.Storage.Line.{LogLine}
use grepod.Storage.Queue.{new_batch_queue, enqueue}
use grepod.Storage.Broadcast.{new_broadcaster, subscribe, undisturbed}
use grepod.Storage.Broadcast.Valid.{IsValid}
use grepod.Storage.Broadcast.Traces.{new-IsValid, subscribe-IsValid}
use grepod.Server.{FanoutSink, sink_enqueue, level_debug, level_info, parse_log_level, parse_bool}
use grepod.Server.Fanout.{sink_enqueue_delivers}

levels_read :
    (parse_log_level (codes "debug") ≡ level_debug)
    × (parse_log_level (codes "verbose") ≡ level_info)
    × (parse_bool (codes "True") ≡ some true)
unfolding parse_log_level parse_bool
levels_read = (refl, refl, refl)

-- Every variable holds 30.
abbrev thirty : Text → Text
thirty key = format_int (pos 30)

abbrev no_duration : Text → Option ℤ
no_duration text = none

abbrev line : LogLine
line = record {
  pod = codes "web";
  namespace = codes "default";
  container = codes "app";
  timestamp = 1;
  level = [];
  content = codes "hello";
}

abbrev sink : FanoutSink Text
sink = record {
  queue = new_batch_queue [] (pos 2) (pos 0) (pos 0) none;
  broadcaster = subscribe new_broadcaster;
}

sink_enqueue_delivers_example :
    (sink' : FanoutSink Text) × (sink_enqueue 5 true undisturbed line sink ≡ some sink')
    × (sink'.queue ≡ enqueue line 5 true sink.queue)
    × IsValid sink'.broadcaster
    × ((ch : ℕ)
        → contains sink.broadcaster.subs ch ≡ true
        → (k : ℕ) × ((sink'.broadcaster.chans ch).buffer
            ≡ drop k (sink.broadcaster.chans ch).buffer ++ line ∷ []))
sink_enqueue_delivers_example =
    sink_enqueue_delivers 5 true undisturbed line sink
      (subscribe-IsValid new_broadcaster new-IsValid)
