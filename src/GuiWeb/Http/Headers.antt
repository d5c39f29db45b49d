-- ===== src/GuiWeb/Http/Headers.antt =====
-- The headers of a request, printed and parsed.
use usb_sentinel.Prelude.{
  ℕ, zero, suc, ◌≤◌, ◌<◌, ◌≡◌, refl, sym, ap, ap₂, ◌∙◌, Bool, false, ◌||◌, List, [], ◌∷◌, ◌++◌,
  some, append-nil, append_assoc, CString, map, arith, ◌==◌, All, length, length-append,
  take-eq_self,
}
use usb_sentinel.GuiWeb.Http.{
  Header, until_nul, cut_at, trim_leading_space, parse_header_line, head_lines, parse_headers,
}

abbrev Without : ℕ → CString → Type 0
Without mark s = All (λ (c : ℕ). (c == mark) ≡ false) s

abbrev starts_in_space : CString → Bool
starts_in_space [] = false
starts_in_space (c ∷ s) = c == b' ' || c == b'\t'

-- A header whose name and value fit their fields and can stand in a line.
pub record IsHeader (h : Header) : Type 0 where
  pub name_size : length h.name < 64
  pub value_size : length h.value < 512
  pub name_colon : Without b':' h.name
  pub name_nul : Without 0 h.name
  pub name_cr : Without b'\r' h.name
  pub value_nul : Without 0 h.value
  pub value_cr : Without b'\r' h.value
  pub value_start : starts_in_space h.value ≡ false

abbrev pub header_line : Header → CString
header_line h = h.name ++ (b':' ∷ b' ' ∷ h.value)

-- The lines with CR LF between them.
unfoldable pub print_headers : List Header → CString
print_headers [] = []
print_headers (h ∷ []) = header_line h
print_headers (h ∷ g ∷ hs) = header_line h ++ (b'\r' ∷ b'\n' ∷ print_headers (g ∷ hs))

cut_at-first :
    (mark : ℕ) (s t : CString) → Without mark s → cut_at mark (s ++ (mark ∷ t)) ≡ some (s, t)
unfolding cut_at
cut_at-first mark [] t h = ground arith
cut_at-first mark (c ∷ s) t (h, hs) = rw (h, cut_at-first mark s t hs) refl

until_nul-plain : (s : CString) → Without 0 s → until_nul s ≡ s
unfolding until_nul
until_nul-plain [] h = refl
until_nul-plain (c ∷ s) (h, hs) = rw (h, until_nul-plain s hs) refl

trim_leading_space-value :
    (v : CString) → starts_in_space v ≡ false → trim_leading_space (b' ' ∷ v) ≡ v
unfolding trim_leading_space
trim_leading_space-value [] h = refl
trim_leading_space-value (c ∷ v) h = rw h refl

parse_header_line-header_line : (h : Header) → IsHeader h → parse_header_line (header_line h) ≡ h
unfolding parse_header_line
parse_header_line-header_line h i =
    rw
      (
        cut_at-first b':' h.name (b' ' ∷ h.value) i.name_colon,
        trim_leading_space-value h.value i.value_start,
        take-eq_self 63 h.name (omega (arith, i.name_size)),
        take-eq_self 511 h.value (omega (arith, i.value_size)),
        until_nul-plain h.name i.name_nul,
        until_nul-plain h.value i.value_nul,
      )
      refl

head_lines-append :
    (line s rest : CString)
    → Without b'\r' s
    → head_lines line (s ++ rest) ≡ head_lines (line ++ s) rest
unfolding head_lines
head_lines-append line [] rest h = rw (append-nil line) refl
head_lines-append line (c ∷ s) rest (h, hs) =
    rw h (head_lines-append (line ++ (c ∷ [])) s rest hs ∙ rw (append_assoc line (c ∷ []) s) refl)

head_lines-header_line :
    (h : Header) (rest : CString)
    → IsHeader h
    → head_lines [] (header_line h ++ rest) ≡ head_lines (header_line h) rest
head_lines-header_line h rest i =
    ap (head_lines []) (append_assoc h.name (b':' ∷ b' ' ∷ h.value) rest)
    ∙ head_lines-append [] h.name _ i.name_cr
    ∙ head_lines-append h.name (b':' ∷ b' ' ∷ h.value) rest (refl, (refl, i.value_cr))

head_lines-line :
    (line t : CString)
    → (length line == 0) ≡ false
    → head_lines line (b'\r' ∷ b'\n' ∷ t) ≡ line ∷ head_lines [] t
unfolding head_lines
head_lines-line line t h = rw h refl

filled : (h : Header) → (length (header_line h) == 0) ≡ false
filled h = ground (arith, length-append h.name (b':' ∷ b' ' ∷ h.value))

head_lines-print_headers :
    (h : Header) (hs : List Header)
    → All IsHeader (h ∷ hs)
    → head_lines [] (print_headers (h ∷ hs)) ≡ map header_line (h ∷ hs)
unfolding print_headers
head_lines-print_headers h [] (i, _) =
    ap (head_lines []) (sym (append-nil (header_line h)))
    ∙ head_lines-header_line h [] i
    ∙ (unfold head_lines in rw (filled h) refl)
head_lines-print_headers h (g ∷ hs) (i, is) =
    head_lines-header_line h _ i
    ∙ head_lines-line (header_line h) (print_headers (g ∷ hs)) (filled h)
    ∙ ap (λ x. header_line h ∷ x) (head_lines-print_headers g hs is)

parse_headers-header_line :
    (room : ℕ) (hs : List Header)
    → length hs ≤ room
    → All IsHeader hs
    → parse_headers room (map header_line hs) ≡ hs
unfolding parse_headers
parse_headers-header_line zero [] fits is = refl
parse_headers-header_line zero (h ∷ hs) fits is = absurd (omega (arith, fits))
parse_headers-header_line (suc room) [] fits is = refl
parse_headers-header_line (suc room) (h ∷ hs) fits (i, is) =
    ap₂ (λ x y. x ∷ y) (parse_header_line-header_line h i)
      (parse_headers-header_line room hs (omega (arith, fits)) is)

-- At most 16 headers, whose names and values fit their fields, hold no CR and no NUL, in the name
-- no colon and at the start of the value no blank, are parsed from their lines as they are.
pub parse_headers-print_headers :
    (hs : List Header)
    → length hs ≤ 16
    → All IsHeader hs
    → parse_headers 16 (head_lines [] (print_headers hs)) ≡ hs
parse_headers-print_headers [] fits is = unfold head_lines print_headers parse_headers in refl
parse_headers-print_headers (h ∷ hs) fits is =
    ap (parse_headers 16) (head_lines-print_headers h hs is)
    ∙ parse_headers-header_line 16 (h ∷ hs) fits is
