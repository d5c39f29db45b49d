-- ===== src/GuiWeb/Tests.antt =====
-- Requests of tests/test_http_server.c in short, and the theorems at concrete inputs.
use usb_sentinel.Prelude.{
  ℕ, zero, suc, ◌-◌, ◌≡◌, refl, [], ◌∷◌, some, arith, CString, codes, str_eq, lower_ascii,
}
use usb_sentinel.Core.Json.Decimal.{ℤ, pos}
use usb_sentinel.GuiWeb.Connection.{
  handles, has_head, received, read_body, read_head, serve_head, serve_length,
  handle_one_connection,
}
use usb_sentinel.GuiWeb.Connection.Ends.{Ends, handle_one_connection-Ends}
use usb_sentinel.GuiWeb.Http.{
  Request, Header, until_nul, skip_spaces, take_word, scan_word, cut_at, scan_request_line,
  parse_request_line, trim_leading_space, parse_header_line, head_lines, parse_headers, find_head,
  parse_head, http_request_parse, http_request_header, http_request_content_length,
}
use usb_sentinel.GuiWeb.Http.Headers.{IsHeader, print_headers, parse_headers-print_headers}
use usb_sentinel.GuiWeb.Query.{
  Pairs, http_query_get, answer, print_pairs, first_value, http_query_get-print_pairs,
}

parsing : Unit {0}
unfolding until_nul skip_spaces take_word scan_word cut_at scan_request_line parse_request_line
    trim_leading_space parse_header_line head_lines parse_headers find_head parse_head
    http_request_parse http_request_header http_request_content_length str_eq lower_ascii
parsing = tt

abbrev post : CString
post = codes "POST /api/scan?device=d1 HTTP/1.1\r\nHost: a\r\ncontent-length: 2\r\n\r\n"

abbrev host : Header
host = record { name = codes "Host"; value = codes "a" }

abbrev two_bytes : Header
two_bytes = record { name = codes "content-length"; value = codes "2" }

abbrev request : Request
request = record {
  method = codes "POST";
  path = codes "/api/scan";
  query = codes "device=d1";
  headers = host ∷ two_bytes ∷ [];
  body = codes "{}";
}

parsed : http_request_parse post ≡ some (record request { body = [] }, 65)
unfolding parsing
parsed = refl

-- The request arrives in two pieces.
abbrev pieces : ℕ → CString
pieces zero = post
pieces (suc zero) = codes "{}"
pieces (suc (suc n)) = []

-- A `strtoll` that reads one digit.
abbrev one_digit : CString → ℤ × CString
one_digit [] = (pos 0, [])
one_digit (c ∷ s) = (pos (c - b'0'), s)

served : handle_one_connection pieces 4 one_digit ≡ handles request
unfolding parsing handle_one_connection read_head read_body serve_head serve_length received
    has_head
served = refl

handle_one_connection-Ends_example : Ends one_digit (handle_one_connection pieces 65536 one_digit)
handle_one_connection-Ends_example = handle_one_connection-Ends pieces one_digit

host-IsHeader : IsHeader host
host-IsHeader = record {
  name_size = omega arith;
  value_size = omega arith;
  name_colon = ground arith;
  name_nul = ground arith;
  name_cr = ground arith;
  value_nul = ground arith;
  value_cr = ground arith;
  value_start = refl;
}

two_bytes-IsHeader : IsHeader two_bytes
two_bytes-IsHeader = record {
  name_size = omega arith;
  value_size = omega arith;
  name_colon = ground arith;
  name_nul = ground arith;
  name_cr = ground arith;
  value_nul = ground arith;
  value_cr = ground arith;
  value_start = refl;
}

parse_headers-print_headers_example :
    parse_headers 16 (head_lines [] (print_headers (host ∷ two_bytes ∷ []))) ≡ host ∷ two_bytes ∷ []
parse_headers-print_headers_example =
    parse_headers-print_headers (host ∷ two_bytes ∷ []) (omega arith)
      (host-IsHeader, (two_bytes-IsHeader, tt))

abbrev pairs : Pairs
pairs = (codes "device", codes "d1") ∷ (codes "token", codes "f0") ∷ []

http_query_get-print_pairs_example :
    http_query_get (some (print_pairs pairs)) (some (codes "token")) 8
    ≡ answer 8 (first_value (codes "token") pairs)
http_query_get-print_pairs_example =
    http_query_get-print_pairs (codes "token") pairs 8 (ground arith) (ground arith) (omega arith)
