-- ===== src/Head/Scan.antt =====
-- src/proto/h1/head/scan.rs: the incremental search for the end of a head.
use vakya.Prelude.{
  ℕ, ◌+◌, min, Bool, false, ◌||◌, Option, none, some, [], ◌∷◌, ltb, leb, ◌==◌, if◌then◌else◌,
  length, take, drop, Bytes, Result, ok, err,
}
use vakya.Head.{HeadError, limit, bytes}

pub data ScanLine : Type 0 where
  leading content end end_cr : ScanLine

pub data HeadScan : Type 0 where
  scanning : (scanned : ℕ) → ScanLine → HeadScan
  complete : (length : ℕ) → HeadScan

abbrev pub default : HeadScan
default = scanning 0 leading

-- A line feed behind the end of a line, or behind a carriage return there, ends the head.
unfoldable pub ends_head : ScanLine → ℕ → Bool
ends_head end b = b == b'\n'
ends_head end_cr b = b == b'\n'
ends_head _ b = false

unfoldable pub next_line : ScanLine → ℕ → ScanLine
next_line leading b = if b == b'\r' || b == b'\n' then leading else content
next_line end b = if b == b'\r' then end_cr else if b == b'\n' then end else content
next_line _ b = if b == b'\n' then end else content

-- The loop over `input[scanned..]`.
unfoldable pub scan_loop : Bytes → (scanned : ℕ) → ScanLine → HeadScan × Option ℕ
scan_loop [] scanned line = (scanning scanned line, none)
scan_loop (b ∷ bs) scanned line =
    let rest = scan_loop bs (scanned + 1) (next_line line b) in
    if ends_head line b then (complete (scanned + 1), some (scanned + 1)) else rest

-- The method `complete`: a shorter input than before starts the search again.
unfoldable pub find_end : HeadScan → Bytes → HeadScan × Option ℕ
find_end (scanning scanned line) input =
    if ltb (length input) scanned
    then scan_loop input 0 leading
    else scan_loop (drop scanned input) scanned line
find_end (complete found) input =
    if leb found (length input) then (complete found, some found) else scan_loop input 0 leading

-- From the end of the search on.
unfoldable pub answer :
    (max_bytes : ℕ) → Bytes → HeadScan × Option ℕ → HeadScan × Result HeadError (Option ℕ)
answer max_bytes input (scan, some found) = (scan, ok (some found))
answer max_bytes input (scan, none) =
    if ltb max_bytes (length input) then (default, err (limit bytes)) else (scan, ok none)

unfoldable pub head_len :
    (max_bytes : ℕ) → HeadScan → Bytes → HeadScan × Result HeadError (Option ℕ)
head_len max_bytes scan input =
    answer max_bytes input (find_end scan (take (min (length input) max_bytes) input))
