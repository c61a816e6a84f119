-- ===== src/Tailer/Ingest/Scan.antt =====
-- What the scanner returns of a stream of lines, and where it stops.
use grepod.Prelude.{
  ◌≤◌, ◌<◌, ◌≡◌, refl, ap, ◌≢◌, List, [], ◌∷◌, ◌++◌, append_assoc, append-nil, All, if◌then◌else◌,
  Text, is_empty, arith, lt→ltb, le→ltb,
}
use grepod.Tailer.Ingest.{newline, fits, drop_return, scan_from, scan_lines, byte_length, max_token}

abbrev pub IsOneLine : Text → Type 0
IsOneLine = All (λ c. c ≢ newline)

-- Each line with its newline.
abbrev pub unlines : List Text → Text
unlines [] = []
unlines (l ∷ ls) = l ++ (newline ∷ unlines ls)

scan_from-line :
    (line l s : Text)
    → IsOneLine l
    → scan_from line (l ++ (newline ∷ s))
      ≡ (if fits (line ++ l) then drop_return (line ++ l) ∷ scan_from [] s else [])
unfolding scan_from
scan_from-line line [] s h = rw (append-nil line)
scan_from-line line (c ∷ l) s h =
    ground (arith, scan_from-line (line ++ c ∷ []) l s h.1, append_assoc line (c ∷ []) l, h.0)

abbrev pub drop_returns : List Text → List Text
drop_returns [] = []
drop_returns (l ∷ ls) = drop_return l ∷ drop_returns ls

-- The scanner returns every line that fits, without a carriage return at its end, and goes on
-- behind it.
scan_from-unlines :
    (ls : List Text) (s : Text)
    → All (λ l. IsOneLine l × (byte_length l < max_token)) ls
    → scan_from [] (unlines ls ++ s) ≡ drop_returns ls ++ scan_from [] s
scan_from-unlines [] s h = refl
scan_from-unlines (l ∷ ls) s h =
    rw
      (
        append_assoc l (newline ∷ unlines ls) s,
        scan_from-line [] l (unlines ls ++ s) h.0.0,
        lt→ltb _ _ h.0.1,
      )
      (ap (λ t. drop_return l ∷ t) (scan_from-unlines ls s h.1))

scan_from-last :
    (line l : Text)
    → IsOneLine l
    → scan_from line l ≡ (
        if is_empty (line ++ l)
        then []
        else if fits (line ++ l)
        then drop_return (line ++ l) ∷ []
        else [])
unfolding scan_from
scan_from-last line [] h = rw (append-nil line)
scan_from-last line (c ∷ l) h =
    ground (arith, scan_from-last (line ++ c ∷ []) l h.1, append_assoc line (c ∷ []) l, h.0)

-- A stream of lines that fit, each with its newline, and of a last one without: the scanner returns
-- them all, in order, each without one carriage return at its end, and the last one unless it is
-- empty.
pub scan_lines-unlines :
    (ls : List Text) (last : Text)
    → All (λ l. IsOneLine l × (byte_length l < max_token)) ls
    → IsOneLine last
    → byte_length last < max_token
    → scan_lines (unlines ls ++ last)
      ≡ drop_returns ls ++ (if is_empty last then [] else drop_return last ∷ [])
unfolding scan_lines
scan_lines-unlines ls last h one short =
    rw (scan_from-unlines ls last h, scan_from-last [] last one, lt→ltb _ _ short)

-- A line of 1 MiB or more ends the scan: neither it nor anything behind it is returned, however
-- much the stream still holds.
pub scan_lines_too_long :
    (ls : List Text) (long rest : Text)
    → All (λ l. IsOneLine l × (byte_length l < max_token)) ls
    → IsOneLine long
    → max_token ≤ byte_length long
    → scan_lines (unlines ls ++ (long ++ (newline ∷ rest))) ≡ drop_returns ls
unfolding scan_lines
scan_lines_too_long ls long rest h one over =
    rw
      (
        scan_from-unlines ls (long ++ (newline ∷ rest)) h,
        scan_from-line [] long rest one,
        le→ltb _ _ over,
      )
      (append-nil (drop_returns ls))
