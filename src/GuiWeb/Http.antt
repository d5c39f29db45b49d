-- ===== src/GuiWeb/Http.antt =====
-- gui_web/http_server.c, the part without sockets: the parser of requests and their headers. A field of
-- the request holds what a reader of the C string sees, the bytes before the first NUL.
pub mod Headers
use usb_sentinel.Prelude.{
  ℕ, zero, suc, ◌+◌, ◌<◌, Bool, true, false, not, ◌&&◌, ◌||◌, List, [], ◌∷◌, ◌++◌, Option, none,
  some, map, CString, codes, clip, ltb, leb, ◌==◌, within, if◌then◌else◌, str_eq, lower_ascii,
  length,
}
use usb_sentinel.Core.Json.Decimal.{ℤ, pos, negsuc}

-- `http_header_t`
pub record Header : Type 0 where
  pub name : CString
  pub value : CString

-- `http_request_t`, with the bytes of its body
pub record Request : Type 0 where
  pub method : CString
  pub path : CString
  pub query : CString
  pub headers : List Header
  pub body : CString

unfoldable pub until_nul : CString → CString
until_nul [] = []
until_nul (c ∷ s) = if c == 0 then [] else c ∷ until_nul s

-- `isspace`
abbrev pub is_space : ℕ → Bool
is_space c = c == b' ' || within 9 13 c

unfoldable pub skip_spaces : CString → CString
skip_spaces [] = []
skip_spaces (c ∷ s) = if is_space c then skip_spaces s else c ∷ s

unfoldable pub take_word : ℕ → CString → CString × CString
take_word zero s = ([], s)
take_word (suc n) [] = ([], [])
take_word (suc n) (c ∷ s) =
    let (word, rest) = take_word n s in if is_space c then ([], c ∷ s) else (c ∷ word, rest)

-- One "%<n>s" of `sscanf`, which fails where no byte is left for it.
abbrev pub word_of : CString × CString → Option (CString × CString)
word_of ([], rest) = none
word_of (c ∷ word, rest) = some (c ∷ word, rest)

unfoldable pub scan_word : ℕ → CString → Option (CString × CString)
scan_word n s = word_of (take_word n (skip_spaces s))

-- What stands before and behind the first `mark`, where there is one.
unfoldable pub cut_at : ℕ → CString → Option (CString × CString)
cut_at mark [] = none
cut_at mark (c ∷ s) =
    if c == mark
    then some ([], s)
    else elim (cut_at mark s) [ none ↦ none | some (a, b) ↦ some (c ∷ a, b) ]

-- The path and the query of a target, each cut to its field.
abbrev pub with_target : CString → CString → Option (CString × CString) → Request
with_target method target none = record {
  method = clip 8 method;
  path = clip 256 target;
  query = [];
  headers = [];
  body = [];
}
with_target method target (some (path, query)) = record {
  method = clip 8 method;
  path = clip 256 path;
  query = clip 256 query;
  headers = [];
  body = [];
}

infixl 5 ◌>>=◌
abbrev ◌>>=◌ : {A B : Type 0} → Option A → (A → Option B) → Option B
none >>= f = none
some a >>= f = f a

-- "%7s %511s %31s"
unfoldable pub scan_request_line : CString → Option Request
scan_request_line s = do
  (method, s₁) ← scan_word 7 s
  (target, s₂) ← scan_word 511 s₁
  (version, s₃) ← scan_word 31 s₂
  some (with_target method target (cut_at b'?' target))

-- `parse_request_line`; `none` is a failure with IO.
unfoldable pub parse_request_line : CString → Option Request
parse_request_line line = if leb 560 (length line) then none else scan_request_line (until_nul line)

unfoldable pub trim_leading_space : CString → CString
trim_leading_space [] = []
trim_leading_space (c ∷ s) = if c == b' ' || c == b'\t' then trim_leading_space s else c ∷ s

-- `parse_header_line` into a header that is all zero; a line without a colon leaves it so.
abbrev pub header_of : Option (CString × CString) → Header
header_of none = record { name = []; value = [] }
header_of (some (name, value)) = record {
  name = until_nul (clip 64 name);
  value = until_nul (clip 512 (trim_leading_space value));
}

unfoldable pub parse_header_line : CString → Header
parse_header_line line = header_of (cut_at b':' line)

-- The lines of the head, each up to a CR, behind which one byte is skipped; an empty one ends them.
-- `line` is what has been read of the line.
unfoldable mutual
  pub head_lines : CString → CString → List CString
  head_lines line [] = if length line == 0 then [] else line ∷ []
  head_lines line (c ∷ s) =
      let longer = head_lines (line ++ (c ∷ [])) s in
      let more = skip_newline s in
      if not (c == b'\r') then longer else if length line == 0 then [] else line ∷ more

  pub skip_newline : CString → List CString
  skip_newline [] = []
  skip_newline (c ∷ s) = head_lines [] s

-- The headers that fit `headers[HTTP_MAX_HEADERS]`
unfoldable pub parse_headers : ℕ → List CString → List Header
parse_headers zero lines = []
parse_headers (suc room) [] = []
parse_headers (suc room) (line ∷ lines) = parse_header_line line ∷ parse_headers room lines

abbrev pub starts_blank : CString → Bool
starts_blank (a ∷ b ∷ c ∷ d ∷ s) = a == b'\r' && (b == b'\n' && (c == b'\r' && d == b'\n'))
starts_blank _ = false

-- The bytes before the first CR LF CR LF, where there is one.
unfoldable pub find_head : CString → Option CString
find_head [] = none
find_head (c ∷ s) =
    if starts_blank (c ∷ s)
    then some []
    else elim (find_head s) [ none ↦ none | some head ↦ some (c ∷ head) ]

abbrev before_cr : Option (CString × CString) → CString → CString × List CString
before_cr none head = (head, [])
before_cr (some (line, rest)) head = (line, skip_newline rest)

-- The head, whose first line is the request line.
unfoldable pub parse_head : CString → Option Request
parse_head head =
    let (first, lines) = before_cr (cut_at b'\r' head) head in
    elim (parse_request_line first) [
      | none ↦ none
      | some request ↦ some (record request { headers = parse_headers 16 lines })
    ]

-- `http_request_parse`: the request and the length of the head; `none` is a failure with IO.
unfoldable pub http_request_parse : CString → Option (Request × ℕ)
http_request_parse buf = elim (find_head buf) [
  | none ↦ none
  | some head ↦ elim (parse_head head) [
    | none ↦ none
    | some request ↦ some (request, length head + 4)
  ]
]

-- `http_request_header`; `strcasecmp` folds ASCII letters.
unfoldable pub http_request_header : List Header → CString → Option CString
http_request_header [] name = none
http_request_header (h ∷ hs) name =
    if str_eq (map lower_ascii h.name) (map lower_ascii name)
    then some h.value
    else http_request_header hs name

-- `http_request_content_length`: `strtoll` gives the number and what stands behind it; `none` is a
-- failure with IO.
abbrev length_of : CString → ℤ × CString → Option ℕ
length_of value (pos n, rest) =
    if length rest == length value || not (length rest == 0) then none else some n
length_of value (negsuc n, rest) = none

unfoldable pub http_request_content_length : (CString → ℤ × CString) → Request → Option ℕ
http_request_content_length strtoll request =
    elim (http_request_header request.headers (codes "Content-Length")) [
      | none ↦ some 0
      | some value ↦ length_of value (strtoll value)
    ]
