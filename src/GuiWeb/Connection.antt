-- ===== src/GuiWeb/Connection.antt =====
-- gui_web/http_server.c, one connection: what arrives is read until a request is complete. The answer to
-- the n-th `recv` is a list of bytes, of which the call gets no more than it asks for; an empty one
-- stands for a connection that is closed or fails.
pub mod Ends
use usb_sentinel.Prelude.{
  ℕ, zero, suc, ◌+◌, ◌-◌, Bool, not, List, [], ◌∷◌, ◌++◌, Option, none, some, CString, codes, leb,
  ltb, ◌==◌, if◌then◌else◌, is_some, length, take, drop,
}
use usb_sentinel.Core.Json.Decimal.{ℤ, print_uint}
use usb_sentinel.GuiWeb.Http.{
  Request, until_nul, find_head, http_request_parse, http_request_content_length,
}

-- How a connection ends: it is dropped, answered with a plain text, or its request goes to the handler.
pub data Served : Type 0 where
  out_of_fuel dropped : Served
  responds : ℕ → CString → Served
  handles : Request → Served

-- `sizeof(buf) - 1`
abbrev pub buffer_size : ℕ
buffer_size = 65535

-- `strstr(buf, "\r\n\r\n") != NULL`
unfoldable pub has_head : CString → Bool
has_head buf = is_some (find_head (until_nul buf))

-- The body that the request gets.
abbrev pub body_of : ℕ → ℕ → CString → CString
body_of head_len content_length buf = take content_length (drop head_len buf)

module _ (recv : ℕ → CString) where
  -- What the n-th `recv` puts behind `buf`.
  unfoldable pub received : ℕ → CString → CString
  received n buf = take (buffer_size - length buf) (recv n)

  -- The loop over the body, up to `need` bytes in all.
  unfoldable pub read_body : ℕ → ℕ → CString → ℕ → (CString → Served) → Served
  read_body zero n buf need next = out_of_fuel
  read_body (suc fuel) n buf need next =
      let more = read_body fuel (suc n) (buf ++ received n buf) need next in
      if leb need (length buf)
      then next buf
      else if length (received n buf) == 0
      then dropped
      else more

  -- What follows on a complete head.
  unfoldable pub serve_length : ℕ → ℕ → CString → Request → ℕ → Option ℕ → Served
  serve_length fuel n buf request head_len none = responds 400 (codes "Bad Content-Length")
  serve_length fuel n buf request head_len (some content_length) =
      let need = head_len + content_length in
      if leb (buffer_size + 1) need
      then responds 413 (codes "Payload Too Large")
      else read_body fuel n buf need
          (λ all. handles (record request { body = body_of head_len content_length all }))

  unfoldable pub serve_head :
      (CString → ℤ × CString) → ℕ → ℕ → CString → Option (Request × ℕ) → Served
  serve_head strtoll fuel n buf none = responds 400 (codes "Bad Request")
  serve_head strtoll fuel n buf (some (request, head_len)) =
      serve_length fuel n buf request head_len (http_request_content_length strtoll request)

  -- The loop over the head, with the number of calls so far and what stands in the buffer.
  unfoldable pub read_head : ℕ → ℕ → CString → (ℕ → CString → Served) → Served
  read_head zero n buf next = out_of_fuel
  read_head (suc fuel) n buf next =
      let buf' = buf ++ received n buf in
      let more = read_head fuel (suc n) buf' next in
      if leb buffer_size (length buf)
      then responds 413 (codes "Request too large")
      else if length (received n buf) == 0
      then dropped
      else if has_head buf'
      then next (suc n) buf'
      else more

  -- `handle_one_connection`
  unfoldable pub handle_one_connection : ℕ → (CString → ℤ × CString) → Served
  handle_one_connection fuel strtoll =
      read_head fuel 0 [] (λ n buf. serve_head strtoll fuel n buf (http_request_parse buf))

-- The texts of the status codes.
unfoldable pub status_text : ℕ → CString
status_text code =
    if code == 200
    then codes "OK"
    else if code == 202
    then codes "Accepted"
    else if code == 400
    then codes "Bad Request"
    else if code == 403
    then codes "Forbidden"
    else if code == 404
    then codes "Not Found"
    else if code == 405
    then codes "Method Not Allowed"
    else if code == 409
    then codes "Conflict"
    else if code == 413
    then codes "Payload Too Large"
    else if code == 500
    then codes "Internal Server Error"
    else codes "Error"

unfoldable pub response_header : ℕ → CString → ℕ → CString → CString
response_header code content_type body_len extra =
    codes "HTTP/1.1 "
    ++ (print_uint code
        ++ (codes " "
            ++ (status_text code
                ++ (codes "\r\nContent-Type: "
                    ++ (content_type
                        ++ (codes "\r\nContent-Length: "
                            ++ (print_uint body_len
                                ++ (codes "\r\nConnection: close\r\n"
                                    ++ (extra ++ codes "\r\n")))))))))

-- `http_send_response`: what is sent, as long as the client takes all; `none` is a NULL `extra_headers`.
unfoldable pub http_send_response : ℕ → CString → CString → Option CString → CString
http_send_response code content_type body extra =
    let header =
      response_header code content_type (length body) (elim extra [ none ↦ [] | some e ↦ e ]) in
    if ltb (length header) 1024 then header ++ body else body
