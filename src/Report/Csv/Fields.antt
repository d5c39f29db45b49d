-- ===== src/Report/Csv/Fields.antt =====
-- The fields of a row, read back.
use usb_sentinel.Prelude.{
  ℕ, ◌≡◌, refl, ap, ◌∙◌, inl, inr, Bool, true, false, List, [], ◌∷◌, ◌++◌, some, append-nil,
  append_assoc, CString, codes, arith, ◌==◌, if◌then◌else◌, map, Bool-cases, ==_iff,
}
use usb_sentinel.Report.Csv.Reader.{
  Mode, row_start, field_start, bare, quoted, after_quote, line_end, Reader, push, run, read_in,
  begin_field, read_bare,
}
use usb_sentinel.Report.Csv.Rows.{Row, closed, guarded, field_text, fields_text}
use usb_sentinel.Report.Csv.{needs_formula_prefix, needs_quote}

abbrev pub state : Mode → CString → Row → List Row → Reader
state m f w q = record { mode = m; field = f; row = w; rows = q }

run-read_in :
    (r r' : Reader) (c : ℕ) (s : CString) → read_in r.mode c r ≡ some r' → run r (c ∷ s) ≡ run r' s
unfolding run
run-read_in r r' c s e = rw (e, run) refl

module _ (w : Row) (q : List Row) where
  run-escaped :
      (c : ℕ) (f rest : CString)
      → run (state quoted f w q) ((if c == b'"' then codes "\"\"" else c ∷ []) ++ rest)
        ≡ run (state quoted (f ++ (c ∷ [])) w q) rest
  unfolding run
  run-escaped c f rest = elim (Bool-cases (c == b'"')) [
    | inl e ↦ rw e (rw (← (==_iff c b'"').0 e) refl)
    | inr e ↦ rw e (run-read_in (state quoted f w q) _ c rest (unfold read_in in rw e refl))
  ]

  -- A field in quotes.
  run-closed :
      (s f rest : CString)
      → run (state quoted f w q) (closed s ++ rest) ≡ run (state after_quote (f ++ s) w q) rest
  unfolding run
  run-closed [] f rest = rw (append-nil f) refl
  run-closed (c ∷ s) f rest = simp (append_assoc) (
      run-escaped c f (closed s ++ rest)
      ∙ run-closed s (f ++ (c ∷ [])) rest
      ∙ rw (append_assoc f (c ∷ []) s) refl)

  read_bare-push :
      (c : ℕ) (s : CString) (r : Reader)
      → needs_quote (c ∷ s) ≡ false
      → (read_bare c r ≡ some (push bare c r)) × ((c == b'"') ≡ false) × (needs_quote s ≡ false)
  unfolding read_bare needs_quote
  read_bare-push c s r n = ground arith

  -- A field without quotes, to its end.
  run_bare :
      (s f rest : CString)
      → needs_quote s ≡ false
      → run (state bare f w q) (s ++ rest) ≡ run (state bare (f ++ s) w q) rest
  run_bare [] f rest n = rw (append-nil f) refl
  run_bare (c ∷ s) f rest n =
      let (first, _, n') = read_bare-push c s (state bare f w q) n in
      run-read_in (state bare f w q) (state bare (f ++ (c ∷ [])) w q) c (s ++ rest)
        (unfold read_in in first)
      ∙ run_bare s (f ++ (c ∷ [])) rest n'
      ∙ rw (append_assoc f (c ∷ []) s) refl

-- What stands behind a field, and what the reader awaits then.
abbrev separator : Bool → ℕ
separator more = if more then b',' else b'\r'

abbrev awaited : Bool → Mode
awaited more = if more then field_start else line_end

abbrev pub start : Bool → Mode
start first = if first then row_start else field_start

module _ (w : Row) (q : List Row) where
  end_bare :
      (more : Bool) (f t : CString)
      → run (state bare f w q) (separator more ∷ t)
        ≡ run (state (awaited more) [] (w ++ (f ∷ [])) q) t
  unfolding run
  end_bare true f t = refl
  end_bare false f t = refl

  end_quoted :
      (more : Bool) (f t : CString)
      → run (state after_quote f w q) (separator more ∷ t)
        ≡ run (state (awaited more) [] (w ++ (f ∷ [])) q) t
  unfolding run
  end_quoted true f t = refl
  end_quoted false f t = refl

  run-quoted :
      (first more : Bool) (f t : CString)
      → run (state (start first) [] w q) (b'"' ∷ (closed f ++ (separator more ∷ t)))
        ≡ run (state (awaited more) [] (w ++ (f ∷ [])) q) t
  unfolding run
  run-quoted true more f t = run-closed w q f [] _ ∙ end_quoted more f t
  run-quoted false more f t = run-closed w q f [] _ ∙ end_quoted more f t

  read_in-start :
      (first : Bool) (c : ℕ) (r : Reader)
      → (c == b'"') ≡ false
      → read_bare c (state (start first) [] w q) ≡ some r
      → read_in (start first) c (state (start first) [] w q) ≡ some r
  unfolding read_in begin_field
  read_in-start true c r e h = rw e h
  read_in-start false c r e h = rw e h

  run-plain :
      (first more : Bool) (f t : CString)
      → needs_quote f ≡ false
      → run (state (start first) [] w q) (f ++ (separator more ∷ t))
        ≡ run (state (awaited more) [] (w ++ (f ∷ [])) q) t
  unfolding run
  run-plain true true [] t n = refl
  run-plain true false [] t n = refl
  run-plain false true [] t n = refl
  run-plain false false [] t n = refl
  run-plain first more (c ∷ f) t n =
      let (pushed, bare_start, n') = read_bare-push w q c f (state (start first) [] w q) n in
      run-read_in (state (start first) [] w q) (state bare (c ∷ []) w q) c _
        (read_in-start first c (push bare c (state (start first) [] w q)) bare_start pushed)
      ∙ run_bare w q f (c ∷ []) _ n'
      ∙ end_bare more (c ∷ f) t

  run-field_text :
      (first more : Bool) (f t : CString)
      → run (state (start first) [] w q) (field_text f ++ (separator more ∷ t))
        ≡ run (state (awaited more) [] (w ++ (guarded f ∷ [])) q) t
  unfolding field_text guarded
  run-field_text first more f t = elim (Bool-cases (needs_formula_prefix f)) [
    | inl e ↦ elim (Bool-cases (needs_quote f)) [
      | inl n ↦ rw (e, n) (run-quoted first more (b'\'' ∷ f) t)
      | inr n ↦ rw (e, n) (run-quoted first more (b'\'' ∷ f) t)
    ]
    | inr e ↦ elim (Bool-cases (needs_quote f)) [
      | inl n ↦ rw (e, n) (run-quoted first more f t)
      | inr n ↦ rw (e, n) (run-plain first more f t n)
    ]
  ]

pub run-fields_text :
    (first : Bool) (f : CString) (fs w : Row) (q : List Row) (rest : CString)
    → run (state (start first) [] w q) (field_text f ++ (fields_text false fs ++ rest))
      ≡ run (state row_start [] [] (q ++ ((w ++ map guarded (f ∷ fs)) ∷ []))) rest
unfolding fields_text
run-fields_text first f [] w q rest =
    run-field_text w q first false f (b'\n' ∷ rest) ∙ (unfold run in refl)
run-fields_text first f (g ∷ fs) w q rest =
    ap (λ x. run (state (start first) [] w q) (field_text f ++ (b',' ∷ x)))
      (append_assoc (field_text g) (fields_text false fs) rest)
    ∙ run-field_text w q first true f (field_text g ++ (fields_text false fs ++ rest))
    ∙ run-fields_text false g fs (w ++ (guarded f ∷ [])) q rest
    ∙ ap (λ x. run (state row_start [] [] (q ++ (x ∷ []))) rest)
        (append_assoc w (guarded f ∷ []) (map guarded (g ∷ fs)))
