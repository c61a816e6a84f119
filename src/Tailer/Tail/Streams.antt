-- ===== src/Tailer/Tail/Streams.antt =====
-- What streamLogs enqueues of a stream, and where it leaves the rest.
use grepod.Prelude.{
  ℕ, ◌≤◌, ◌<◌, ◌≡◌, refl, ap, ◌∙◌, true, false, List, [], ◌∷◌, ◌++◌, All, if◌then◌else◌, Text,
  is_empty,
}
use grepod.Storage.Line.{Time}
use grepod.Tailer.Key.{ContainerKey}
use grepod.Tailer.Markers.{Markers}
use grepod.Tailer.Ingest.{newline, byte_length, drop_return, scan_lines}
use grepod.Tailer.Ingest.Scan.{
  IsOneLine, unlines, drop_returns, scan_lines-unlines, scan_lines_too_long,
}
use grepod.Tailer.Ingest.Stamps.{contents, levels, levels_of, ingest_lem}
use grepod.Tailer.Tail.{streamed, stream_logs}

module _ (namespace : Text) (key : ContainerKey) (clock : ℕ → Time) (markers : Markers) where
  contents-stream_logs :
      (text : Text) (lines : List Text)
      → scan_lines text ≡ lines
      → let result = stream_logs namespace key (streamed text clock) markers in
        (contents result.0 ≡ lines) × (levels result.0 ≡ levels_of lines) × (result.1 ≡ false)
  unfolding stream_logs
  contents-stream_logs text lines h =
      let of_ingest = ingest_lem true namespace key clock text markers in
      (of_ingest.0 ∙ h, of_ingest.1 ∙ ap levels_of h, refl)

  -- A stream of lines below 1 MiB, each with its newline, and of a last one without: streamLogs
  -- enqueues them all, in order, the last one unless it is empty, each without one carriage return at its
  -- end and with its own level, and returns no error.
  pub stream_logs-unlines :
      (ls : List Text) (last : Text)
      → All (λ l. IsOneLine l × (byte_length l < 1_048_576)) ls
      → IsOneLine last
      → byte_length last < 1_048_576
      → let result = stream_logs namespace key (streamed (unlines ls ++ last) clock) markers in
        let lines = drop_returns ls ++ (if is_empty last then [] else drop_return last ∷ []) in
        (contents result.0 ≡ lines) × (levels result.0 ≡ levels_of lines) × (result.1 ≡ false)
  stream_logs-unlines ls last h one short =
      contents-stream_logs (unlines ls ++ last) _ (scan_lines-unlines ls last h one short)

  -- A stream with a line of 1 MiB or more, behind lines that are shorter: streamLogs enqueues these,
  -- and neither that line nor anything behind it, however much the stream still holds; and it returns
  -- no error, as for a stream that has ended.
  pub stream_logs_too_long :
      (ls : List Text) (long rest : Text)
      → All (λ l. IsOneLine l × (byte_length l < 1_048_576)) ls
      → IsOneLine long
      → 1_048_576 ≤ byte_length long
      → let stream = unlines ls ++ (long ++ (newline ∷ rest)) in
        let result = stream_logs namespace key (streamed stream clock) markers in
        (contents result.0 ≡ drop_returns ls)
        × (levels result.0 ≡ levels_of (drop_returns ls))
        × (result.1 ≡ false)
  stream_logs_too_long ls long rest h one over =
      contents-stream_logs (unlines ls ++ (long ++ (newline ∷ rest))) _
        (scan_lines_too_long ls long rest h one over)
