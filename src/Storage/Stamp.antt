-- ===== src/Storage/Stamp.antt =====
-- `compact_timestamp` and `expand_timestamp`: the time in the name of a report.
pub mod RoundTrip
use usb_sentinel.Prelude.{
  ℕ, ◌+◌, Bool, not, ◌||◌, List, [], ◌∷◌, ◌++◌, Option, none, some, CString, ltb, leb, ◌==◌,
  if◌then◌else◌, length, take, drop,
}
use usb_sentinel.Status.{Status, ok, invalid_arg}

-- The loop of `compact_timestamp` into a buffer of `size` bytes, and the test behind it.
unfoldable pub compact_from : ℕ → CString → CString → Status × Option CString
compact_from size out [] = if length out == 16 then (ok, some out) else (invalid_arg, none)
compact_from size out (c ∷ s) =
    let dropped = c == b'-' || c == b':' in
    let more = compact_from size (if dropped then out else out ++ (c ∷ [])) s in
    if dropped then more else if leb size (length out + 1) then (invalid_arg, none) else more

-- `compact_timestamp`; `none` is a NULL time
unfoldable pub compact_timestamp : Option CString → ℕ → Status × Option CString
compact_timestamp none size = (invalid_arg, none)
compact_timestamp (some iso) size =
    if ltb size 17 then (invalid_arg, none) else compact_from size [] iso

-- "%.4s-%.2s-%.2sT%.2s:%.2s:%.2sZ"
unfoldable pub expanded : CString → CString
expanded c =
    take 4 c
    ++ (b'-'
        ∷ (take 2 (drop 4 c)
            ++ (b'-'
                ∷ (take 2 (drop 6 c)
                    ++ (b'T'
                        ∷ (take 2 (drop 9 c)
                            ++ (b':'
                                ∷ (take 2 (drop 11 c)
                                    ++ (b':' ∷ (take 2 (drop 13 c) ++ (b'Z' ∷ [])))))))))))

-- `expand_timestamp`, whose result has 20 bytes and fits
unfoldable pub expand_timestamp : Option CString → ℕ → Status × Option CString
expand_timestamp none size = (invalid_arg, none)
expand_timestamp (some compact) size =
    if not (length compact == 16) || ltb size 21
    then (invalid_arg, none)
    else (ok, some (expanded compact))
