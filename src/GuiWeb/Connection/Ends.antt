-- ===== src/GuiWeb/Connection/Ends.antt =====
-- A connection comes to an end, and the handler gets whole requests only.
use usb_sentinel.Prelude.{
  ℕ, zero, suc, ◌+◌, ◌-◌, ◌≤◌, ◌<◌, ◌≡◌, ◌⊎◌, refl, sym, ap, ◌∙◌, inl, inr, [], ◌∷◌, ◌++◌, Option,
  none, some, CString, codes, arith, leb, ◌==◌, length, length-append, length-take-le, length-drop,
  take, drop, Bool-cases,
}
use usb_sentinel.Core.Json.Decimal.{ℤ}
use usb_sentinel.GuiWeb.Connection.{
  Served, out_of_fuel, dropped, responds, handles, buffer_size, received, read_body, serve_length,
  serve_head, read_head, has_head, body_of, handle_one_connection,
}
use usb_sentinel.GuiWeb.Http.{Request, http_request_parse, http_request_content_length}

module _ (recv : ℕ → CString) where
  length-received :
      (n : ℕ) (buf : CString) → length (received recv n buf) ≤ buffer_size - length buf
  unfolding received
  length-received n buf = length-take-le (buffer_size - length buf) (recv n)

  -- Every round takes at least one byte into the buffer.
  read_head-ends :
      (fuel n : ℕ) (buf : CString) (next : ℕ → CString → Served) (P : Served → Type 0)
      → length buf ≤ buffer_size
      → buffer_size < fuel + length buf
      → P dropped
      → P (responds 413 (codes "Request too large"))
      → ((m : ℕ) (all : CString) → length all ≤ buffer_size → P (next m all))
      → P (read_head recv fuel n buf next)
  unfolding read_head
  read_head-ends zero n buf next P full fuel_left d r k = absurd (omega (arith, full, fuel_left))
  read_head-ends (suc fuel) n buf next P full fuel_left d r k =
      let size = length-append buf (received recv n buf) in
      let small = length-received n buf in
      elim (Bool-cases (leb buffer_size (length buf))) [
        | inl e ↦ rw e r
        | inr e ↦ elim (Bool-cases (length (received recv n buf) == 0)) [
          | inl z ↦ rw (e, z) d
          | inr more ↦ elim (Bool-cases (has_head (buf ++ received recv n buf))) [
            | inl h ↦
                rw (e, more, h)
                  (k (suc n) (buf ++ received recv n buf) (omega (arith, size, small)))
            | inr h ↦
                rw (e, more, h)
                  (read_head-ends fuel (suc n) (buf ++ received recv n buf) next P
                    (omega (arith, size, small)) (ground (arith, more, size)) d r k)
          ]
        ]
      ]

  read_body-ends :
      (fuel n : ℕ) (buf : CString) (need : ℕ) (next : CString → Served) (P : Served → Type 0)
      → need ≤ buffer_size
      → length buf ≤ buffer_size
      → buffer_size < fuel + length buf
      → P dropped
      → ((all : CString) → need ≤ length all → P (next all))
      → P (read_body recv fuel n buf need next)
  unfolding read_body
  read_body-ends zero n buf need next P fits full fuel_left d k =
      absurd (omega (arith, full, fuel_left))
  read_body-ends (suc fuel) n buf need next P fits full fuel_left d k =
      let size = length-append buf (received recv n buf) in
      elim (Bool-cases (leb need (length buf))) [
        | inl e ↦ rw e (k buf (ground (arith, e)))
        | inr e ↦ elim (Bool-cases (length (received recv n buf) == 0)) [
          | inl z ↦ rw (e, z) d
          | inr more ↦
              rw (e, more)
                (read_body-ends fuel (suc n) (buf ++ received recv n buf) need next P fits
                  (omega (arith, size, length-received n buf)) (ground (arith, more, size)) d k)
        ]
      ]

-- How a connection may end: the handler gets a request only with a body of the length that its
-- headers declare, and that fits the buffer.
abbrev pub Ends : (CString → ℤ × CString) → Served → Type 0
Ends strtoll out_of_fuel = ⊥
Ends strtoll dropped = Unit {0}
Ends strtoll (responds code text) = (code ≡ 400) ⊎ (code ≡ 413)
Ends strtoll (handles request) =
    (http_request_content_length strtoll request ≡ some (length request.body))
    × (length request.body ≤ buffer_size)

length-take_full : (n : ℕ) (xs : CString) → n ≤ length xs → length (take n xs) ≡ n
length-take_full zero xs h = omega arith
length-take_full (suc n) [] h = absurd (omega (arith, h))
length-take_full (suc n) (x ∷ xs) h = omega (arith, length-take_full n xs (omega (arith, h)))

module _ (recv : ℕ → CString) (strtoll : CString → ℤ × CString) where
  handles-Ends :
      (request : Request) (head_len n : ℕ) (all : CString)
      → http_request_content_length strtoll request ≡ some n
      → head_len + n ≤ buffer_size
      → head_len + n ≤ length all
      → Ends strtoll (handles (record request { body = body_of head_len n all }))
  unfolding http_request_content_length
  handles-Ends request head_len n all e fits there =
      let size : length (body_of head_len n all) ≡ n =
        length-take_full n (drop head_len all) (omega (arith, there, length-drop head_len all)) in
      (e ∙ ap some (sym size), omega (arith, size, fits))

  serve_length-Ends :
      (m : ℕ) (buf : CString) (request : Request) (head_len : ℕ) (o : Option ℕ)
      → http_request_content_length strtoll request ≡ o
      → length buf ≤ buffer_size
      → Ends strtoll (serve_length recv 65536 m buf request head_len o)
  unfolding serve_length
  serve_length-Ends m buf request head_len none e full = inl refl
  serve_length-Ends m buf request head_len (some n) e full =
      elim (Bool-cases (leb (buffer_size + 1) (head_len + n))) [
        | inl large ↦ rw large (inr refl)
        | inr small ↦
            let fits : head_len + n ≤ buffer_size = ground (arith, small) in
            rw small (
              read_body-ends recv 65536 m buf (head_len + n) _ (Ends strtoll) fits full
                (omega arith) tt (λ all there. handles-Ends request head_len n all e fits there))
      ]

  serve_head-Ends :
      (m : ℕ) (buf : CString) (parsed : Option (Request × ℕ))
      → length buf ≤ buffer_size
      → Ends strtoll (serve_head recv strtoll 65536 m buf parsed)
  unfolding serve_head
  serve_head-Ends m buf none full = inl refl
  serve_head-Ends m buf (some (request, head_len)) full =
      serve_length-Ends m buf request head_len _ refl full

  -- Whatever the client sends, in pieces of any size and without an end, a connection comes to an
  -- end within 65536 rounds of each loop: it is dropped, it is answered with 400 or 413, or the
  -- handler gets a request whose body has the length that its headers declare and fits the
  -- buffer.
  pub handle_one_connection-Ends : Ends strtoll (handle_one_connection recv 65536 strtoll)
  unfolding handle_one_connection
  handle_one_connection-Ends =
      read_head-ends recv 65536 0 [] _ (Ends strtoll) (omega arith) (omega arith) tt (inr refl)
        (λ m all full. serve_head-Ends m all (http_request_parse all) full)
