-- ===== src/Report/Csv/Reader.antt =====
-- A reader of comma-separated values by RFC 4180, section 2: records end with CRLF, a field stands bare
-- or in double quotes, and a double quote within quotes is written twice.
use usb_sentinel.Prelude.{ℕ, List, [], ◌∷◌, ◌++◌, Option, none, some, CString, ◌==◌, if◌then◌else◌}
use usb_sentinel.Report.Csv.Rows.{Row}

pub data Mode : Type 0 where
  row_start field_start bare quoted after_quote line_end : Mode

pub record Reader : Type 0 where
  pub mode : Mode
  pub field : CString
  pub row : Row
  pub rows : List Row

abbrev pub push : Mode → ℕ → Reader → Reader
push m c r = record r { mode = m; field = r.field ++ (c ∷ []) }

abbrev pub end_field : Mode → Reader → Reader
end_field m r = record r { mode = m; field = []; row = r.row ++ (r.field ∷ []) }

abbrev pub end_row : Reader → Reader
end_row r = record r { mode = row_start; row = []; rows = r.rows ++ (r.row ∷ []) }

-- Behind a field: the comma or the line end.
unfoldable pub separate : ℕ → Reader → Option Reader
separate c r =
    if c == b','
    then some (end_field field_start r)
    else if c == b'\r'
    then some (end_field line_end r)
    else none

unfoldable pub read_bare : ℕ → Reader → Option Reader
read_bare c r =
    if c == b','
    then separate c r
    else if c == b'\r'
    then separate c r
    else if c == b'"'
    then none
    else if c == b'\n'
    then none
    else some (push bare c r)

unfoldable pub begin_field : ℕ → Reader → Option Reader
begin_field c r = if c == b'"' then some (record r { mode = quoted }) else read_bare c r

unfoldable pub read_in : Mode → ℕ → Reader → Option Reader
read_in row_start c r = begin_field c r
read_in field_start c r = begin_field c r
read_in bare c r = read_bare c r
read_in quoted c r =
    if c == b'"' then some (record r { mode = after_quote }) else some (push quoted c r)
read_in after_quote c r = if c == b'"' then some (push quoted c r) else separate c r
read_in line_end c r = if c == b'\n' then some (end_row r) else none

-- The text ends with a line.
unfoldable pub complete : Mode → List Row → Option (List Row)
complete row_start rows = some rows
complete _ rows = none

unfoldable pub run : Reader → CString → Option (List Row)
unfolding read_in begin_field read_bare separate complete
run r [] = complete r.mode r.rows
run r (c ∷ s) = elim (read_in r.mode c r) [ none ↦ none | some r' ↦ run r' s ]

unfoldable pub read : CString → Option (List Row)
read s = run (record { mode = row_start; field = []; row = []; rows = [] }) s
