-- ===== src/Detectors/Autorun/Reading.antt =====
-- What the loop that fills `buf` reads of autorun.inf.
use usb_sentinel.Prelude.{
  ℕ, zero, suc, ◌-◌, ◌≤◌, ◌<◌, ◌≡◌, refl, sym, ap, ◌∙◌, inl, inr, Bool, true, false, not, ◌&&◌,
  List, [], ◌∷◌, ◌++◌, append_assoc, append-nil, arith, if◌then◌else◌, length, length-append, ltb,
  leb, ◌==◌, take, length-take-le, take-eq_self, take-append_eq, Bool-cases,
}
use usb_sentinel.Detectors.Autorun.{max_read, read_all}
use usb_sentinel.Platform.{Reads, finished, breaks, chunk}
use usb_sentinel.Status.{ok, is_ok}

-- All that the reads give, until one of them gives nothing or fails
unfoldable pub given : Reads → List ℕ
given finished = []
given (breaks status) = []
given (chunk bytes rest) = if length bytes == 0 then [] else bytes ++ given rest

-- The reads end with a failure.
unfoldable pub breaks_off : Reads → Bool
breaks_off finished = false
breaks_off (breaks status) = not (is_ok status)
breaks_off (chunk bytes rest) =
    let later = breaks_off rest in if length bytes == 0 then false else later

-- A read fails in front of the 8192nd byte.
abbrev pub fails_early : Reads → Bool
fails_early reads = breaks_off reads && ltb (length (given reads)) 8192

take_again : (m : ℕ) (xs q : List ℕ) → take m (take m xs ++ q) ≡ take m (xs ++ q)
take_again zero xs q = refl
take_again (suc m) [] q = refl
take_again (suc m) (x ∷ xs) q = ap (◌∷◌ x) (take_again m xs q)

take-append :
    (n : ℕ) (buf bytes q : List ℕ)
    → length buf ≤ n
    → take n ((buf ++ take (n - length buf) bytes) ++ q) ≡ take n (buf ++ (bytes ++ q))
take-append n [] bytes q h = let whole : n - 0 ≡ n = omega arith in rw whole (take_again n bytes q)
take-append zero (x ∷ buf) bytes q h = absurd (omega arith)
take-append (suc n) (x ∷ buf) bytes q h =
    let less : suc n - suc (length buf) ≡ n - length buf = omega arith in
    rw less (ap (◌∷◌ x) (take-append n buf bytes q (omega arith)))

length-take_all : (m : ℕ) (xs : List ℕ) → m ≤ length xs → length (take m xs) ≡ m
length-take_all zero xs h = refl
length-take_all (suc m) [] h = absurd (omega arith)
length-take_all (suc m) (x ∷ xs) h = omega (arith, length-take_all m xs (omega arith))

not_below : (n : ℕ) (xs : List ℕ) → n ≤ length xs → ltb (length xs) n ≡ false
not_below n xs h = ground arith

length-append_ge :
    (n : ℕ) (buf bytes q : List ℕ)
    → length buf ≤ n
    → ltb (length ((buf ++ take (n - length buf) bytes) ++ q)) n
      ≡ ltb (length (buf ++ (bytes ++ q))) n
length-append_ge n buf bytes q h = elim (Bool-cases (leb (length bytes) (n - length buf))) [
  | inl fits ↦
      rw (take-eq_self (n - length buf) bytes (ground (arith, fits)))
        (ap (λ l. ltb (length l) n) (append_assoc buf bytes q))
  | inr over ↦
      let cut = length-take_all (n - length buf) bytes (ground (arith, over)) in
      not_below n ((buf ++ take (n - length buf) bytes) ++ q) (
        omega (
          arith,
          cut,
          length-append (buf ++ take (n - length buf) bytes) q,
          length-append buf (take (n - length buf) bytes),
        ))
      ∙ sym (
          not_below n (buf ++ (bytes ++ q))
            (ground (arith, over, length-append buf (bytes ++ q), length-append bytes q)))
]

-- What is known of the loop from a buffer that is not over-full on.
pub record Reading (reads : Reads) (buf : List ℕ) : Type 0 where
  pub text : (read_all reads buf).1 ≡ take 8192 (buf ++ given reads)
  pub fine :
      is_ok (read_all reads buf).0
      ≡ not (breaks_off reads && ltb (length (buf ++ given reads)) 8192)

read_all_halted :
    (reads : Reads) (buf : List ℕ)
    → leb max_read (length buf) ≡ true
    → read_all reads buf ≡ (ok, buf)
unfolding read_all
read_all_halted finished buf e = refl
read_all_halted (breaks status) buf e = rw e refl
read_all_halted (chunk bytes rest) buf e = rw e refl

and_false : (b : Bool) → not (b && false) ≡ true
and_false true = refl
and_false false = refl

Reading-full : (reads : Reads) (buf : List ℕ) → length buf ≡ 8192 → Reading reads buf
Reading-full reads buf e =
    let halted = read_all_halted reads buf (ground (arith, e)) in
    let large =
      not_below 8192 (buf ++ given reads) (omega (arith, e, length-append buf (given reads))) in
    record {
      text = ap (λ o. o.1) halted ∙ sym (take-append_eq 8192 buf (given reads) e);
      fine = rw (halted, large) (sym (and_false (breaks_off reads)));
    }

taken_some :
    (m : ℕ) (bytes : List ℕ)
    → 0 < m
    → (length bytes == 0) ≡ false
    → (length (take m bytes) == 0) ≡ false
taken_some m bytes h e = elim (Bool-cases (leb (length bytes) m)) [
  | inl fits ↦ rw (take-eq_self m bytes (ground (arith, fits))) e
  | inr over ↦ ground (arith, over, length-take_all m bytes (ground (arith, over)))
]

taken_none :
    (m : ℕ) (bytes : List ℕ) → (length bytes == 0) ≡ true → (length (take m bytes) == 0) ≡ true
taken_none m bytes e = rw (take-eq_self m bytes (ground (arith, e))) e

negated_twice : (b : Bool) → b ≡ not (not b && true)
negated_twice true = refl
negated_twice false = refl

-- Nothing more is read, and no read fails.
Reading-end :
    (reads : Reads) (buf : List ℕ)
    → length buf ≤ 8192
    → given reads ≡ []
    → (read_all reads buf).1 ≡ buf
    → is_ok (read_all reads buf).0 ≡ not (breaks_off reads && ltb (length buf) 8192)
    → Reading reads buf
Reading-end reads buf h none_left text fine = record {
  text = text ∙ sym (rw (none_left, append-nil buf) (take-eq_self 8192 buf h));
  fine = rw (none_left, append-nil buf) fine;
}

pub read_all-Reading : (reads : Reads) (buf : List ℕ) → length buf ≤ 8192 → Reading reads buf
unfolding read_all given breaks_off
read_all-Reading finished buf h = Reading-end finished buf h refl refl refl
read_all-Reading (breaks status) buf h = elim (Bool-cases (leb max_read (length buf))) [
  | inl full ↦ Reading-full (breaks status) buf (ground (arith, full))
  | inr room ↦
      let below : ltb (length buf) 8192 ≡ true = ground (arith, room) in
      Reading-end (breaks status) buf h refl (rw room refl)
        (rw (room, below) (negated_twice (is_ok status)))
]
read_all-Reading (chunk bytes rest) buf h = elim (Bool-cases (leb max_read (length buf))) [
  | inl full ↦ Reading-full (chunk bytes rest) buf (ground (arith, full))
  | inr room ↦
      let got = take (max_read - length buf) bytes in
      elim (Bool-cases (length bytes == 0)) [
        | inl over ↦
            let stop = taken_none (max_read - length buf) bytes over in
            Reading-end (chunk bytes rest) buf h (rw over refl) (rw (room, stop) refl)
              (rw (room, stop, over) refl)
        | inr more ↦
            let some_bytes = taken_some (max_read - length buf) bytes (ground (arith, room)) more in
            let next = read_all-Reading rest (buf ++ got) (
              omega (arith, length-append buf got, length-take-le (max_read - length buf) bytes)) in
            record {
              text =
                  rw (room, some_bytes, more)
                    (next.text ∙ take-append 8192 buf bytes (given rest) h);
              fine =
                  rw (room, some_bytes, more)
                    (next.fine
                      ∙ ap (λ b. not (breaks_off rest && b))
                          (length-append_ge 8192 buf bytes (given rest) h));
            }
      ]
]
