-- ===== src/GuiWeb/Query.antt =====
-- `http_query_get`, and a query printed from its pairs.
use usb_sentinel.Prelude.{
  ℕ, ◌<◌, ◌≡◌, refl, sym, ap, ap₂, ◌∙◌, Bool, true, false, List, [], ◌∷◌, ◌++◌, Option, none, some,
  append-nil, append_assoc, CString, clip, arith, ◌==◌, if◌then◌else◌, str_eq, strip_prefix, All,
}

-- The value of a pair whose key is `key`.
abbrev after_key : Option CString → Option CString
after_key none = none
after_key (some []) = none
after_key (some (c ∷ value)) = if c == b'=' then some value else none

unfoldable pub pair_value : CString → CString → Option CString
pair_value key pair = after_key (strip_prefix key pair)

abbrev pub or_else : Option CString → Option CString → Option CString
or_else none other = other
or_else (some v) other = some v

-- The loop over the pairs; `pair` is what has been read of one.
unfoldable pub get_from : CString → CString → CString → Option CString
get_from key pair [] = pair_value key pair
get_from key pair (c ∷ s) =
    let longer = get_from key (pair ++ (c ∷ [])) s in
    let next = or_else (pair_value key pair) (get_from key [] s) in
    if c == b'&' then next else longer

-- `http_query_get`: the answer, and the new content of `out` where it is written. `none` is a NULL
-- argument.
abbrev pub answer : ℕ → Option CString → Bool × Option CString
answer size none = (false, some [])
answer size (some value) = (true, some (clip size value))

unfoldable pub http_query_get : Option CString → Option CString → ℕ → Bool × Option CString
http_query_get none key size = (false, none)
http_query_get (some query) none size = (false, none)
http_query_get (some query) (some key) size =
    if size == 0 then (false, none) else answer size (get_from key [] query)

-- A query of pairs, and the first value of a key.
abbrev pub Pairs : Type 0
Pairs = List (CString × CString)

unfoldable pub print_pairs : Pairs → CString
print_pairs [] = []
print_pairs ((k, v) ∷ []) = k ++ (b'=' ∷ v)
print_pairs ((k, v) ∷ p ∷ ps) = k ++ (b'=' ∷ (v ++ (b'&' ∷ print_pairs (p ∷ ps))))

unfoldable pub first_value : CString → Pairs → Option CString
first_value key [] = none
first_value key ((k, v) ∷ ps) = if str_eq k key then some v else first_value key ps

abbrev pub Without : ℕ → CString → Type 0
Without mark s = All (λ (c : ℕ). (c == mark) ≡ false) s

abbrev pub IsPair : CString × CString → Type 0
IsPair (k, v) = Without b'&' k × Without b'=' k × Without b'&' v

pair_value-pair :
    (key k v : CString)
    → Without b'=' key
    → Without b'=' k
    → pair_value key (k ++ (b'=' ∷ v)) ≡ (if str_eq k key then some v else none)
unfolding pair_value strip_prefix str_eq
pair_value-pair [] [] v hk h = refl
pair_value-pair [] (c ∷ k) v hk (h, _) = rw h refl
pair_value-pair (x ∷ key) [] v (hk, _) h = rw hk refl
pair_value-pair (x ∷ key) (c ∷ k) v (_, hk) (_, h) = ground (arith, pair_value-pair key k v hk h)

get_from-append :
    (key pair s rest : CString)
    → Without b'&' s
    → get_from key pair (s ++ rest) ≡ get_from key (pair ++ s) rest
unfolding get_from
get_from-append key pair [] rest h = rw (append-nil pair) refl
get_from-append key pair (c ∷ s) rest (h, hs) =
    rw h (get_from-append key (pair ++ (c ∷ [])) s rest hs ∙ rw (append_assoc pair (c ∷ []) s) refl)

get_from-pair :
    (key k v rest : CString)
    → IsPair (k, v)
    → get_from key [] (k ++ (b'=' ∷ (v ++ rest))) ≡ get_from key (k ++ (b'=' ∷ v)) rest
get_from-pair key k v rest (hk, _, hv) =
    get_from-append key [] k _ hk
    ∙ get_from-append key k (b'=' ∷ []) _ (refl, tt)
    ∙ get_from-append key (k ++ (b'=' ∷ [])) v rest hv
    ∙ rw (append_assoc k (b'=' ∷ []) v) refl

get_from-ampersand :
    (key pair t : CString)
    → get_from key pair (b'&' ∷ t) ≡ or_else (pair_value key pair) (get_from key [] t)
unfolding get_from
get_from-ampersand key pair t = refl

or_else-if :
    (b : Bool) (v : CString) (o : Option CString)
    → or_else (if b then some v else none) o ≡ (if b then some v else o)
or_else-if true v o = refl
or_else-if false v o = refl

get_from-print_pairs :
    (key : CString) (ps : Pairs)
    → Without b'=' key
    → All IsPair ps
    → get_from key [] (print_pairs ps) ≡ first_value key ps
unfolding print_pairs first_value
get_from-print_pairs [] [] hk h = unfold get_from pair_value strip_prefix in refl
get_from-print_pairs (x ∷ key) [] hk h = unfold get_from pair_value strip_prefix in refl
get_from-print_pairs key ((k, v) ∷ []) hk (h, _) =
    ap (λ x. get_from key [] (k ++ (b'=' ∷ x))) (sym (append-nil v))
    ∙ get_from-pair key k v [] h
    ∙ (unfold get_from in pair_value-pair key k v hk h.1)
get_from-print_pairs key ((k, v) ∷ p ∷ ps) hk (h, hs) =
    get_from-pair key k v (b'&' ∷ print_pairs (p ∷ ps)) h
    ∙ get_from-ampersand key (k ++ (b'=' ∷ v)) (print_pairs (p ∷ ps))
    ∙ ap₂ or_else (pair_value-pair key k v hk h.1) (get_from-print_pairs key (p ∷ ps) hk hs)
    ∙ or_else-if (str_eq k key) v (first_value key (p ∷ ps))

-- From a query of pairs, whose keys hold no ampersand and no equals sign and whose values hold no
-- ampersand, the lookup of a key without an equals sign into a buffer answers the value of the
-- first pair with that key, cut to the buffer, or that there is none.
pub http_query_get-print_pairs :
    (key : CString) (ps : Pairs) (size : ℕ)
    → Without b'=' key
    → All IsPair ps
    → 0 < size
    → http_query_get (some (print_pairs ps)) (some key) size ≡ answer size (first_value key ps)
unfolding http_query_get
http_query_get-print_pairs key ps size hk h room = ground (arith, get_from-print_pairs key ps hk h)
