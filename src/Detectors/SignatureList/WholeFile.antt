-- ===== src/Detectors/SignatureList/WholeFile.antt =====
-- What the capped read has of a file.
use usb_sentinel.Prelude.{
  ℕ, zero, suc, ◌+◌, ◌-◌, ◌≤◌, ◌<◌, ◌≡◌, ◌^◌, refl, sym, ap, ◌∙◌, ◌⊎◌, inl, inr, Bool, true, not,
  List, List-cases, [], ◌++◌, append_assoc, append-nil, CString, arith, ltb, leb, ◌==◌,
  if◌then◌else◌, length, length-append, take, take-eq_self, Bool-cases,
}
use usb_sentinel.Detectors.SignatureList.FileRead.{
  signature_file_max_read, grown_cap, opened, read_loop, read_whole_file_capped,
}
use usb_sentinel.Status.{Status, ok, is_ok}

-- `realloc` finds anything up to 2 ^ 40 bytes.
abbrev pub Gives : (ℕ → Bool) → Type 0
Gives grants = (n : ℕ) → n ≤ 2 ^ 40 → grants n ≡ true

-- What is relied on of the reads of a file: each gives the next bytes, as many as it likes up to those
-- asked for, and none only at the end of the file.
abbrev pub Serves : CString → (ℕ → ℕ → Status × List ℕ) → Type 0
Serves content read =
    (front rest : CString) (n : ℕ)
    → content ≡ front ++ rest
    → 0 < n
    → (got later : CString) × (rest ≡ got ++ later)
      × (length got ≤ n)
      × ((length got ≡ 0) → rest ≡ [])
      × (read (length front) n ≡ (ok, got))

-- The whole file, or at least 64 MiB at its front and at most 64 KiB more
pub record IsFront (content buf : CString) : Type 0 where
  pub rest : CString
  pub split : content ≡ buf ++ rest
  pub whole : (rest ≡ []) ⊎ (2 ^ 26 ≤ length buf)
  pub bounded : length buf ≤ 2 ^ 26 + 65536

module _ (grants : ℕ → Bool) (mem : Gives grants) (content : CString)
    (read : ℕ → ℕ → Status × List ℕ) (serves : Serves content read) where
  abbrev Fronts : Status × CString → Type 0
  Fronts out = (buf : CString) × (out ≡ (ok, buf)) × IsFront content buf

  grown_cap-le : (cap : ℕ) → grown_cap cap ≤ 2 ^ 26 + 65536
  grown_cap-le cap = ground arith

  grown_cap-gt : (cap len : ℕ) → len ≤ cap → len < 2 ^ 26 → len < grown_cap cap
  grown_cap-gt cap len h k = ground arith

  -- The read of one turn, and what follows it; `next` is what is known of the next turn.
  turn-Fronts :
      (fuel : ℕ) (buf rest : CString) (cap : ℕ)
      → content ≡ buf ++ rest
      → length buf < cap
      → length buf < 2 ^ 26
      → ((got later : CString)
          → content ≡ (buf ++ got) ++ later
          → 0 < length got
          → length (buf ++ got) ≤ cap
          → Fronts (read_loop grants read fuel (buf ++ got) cap))
      → Fronts (
          if not (is_ok (read (length buf) (cap - length buf)).0)
          then ((read (length buf) (cap - length buf)).0, [])
          else if length (take (cap - length buf) (read (length buf) (cap - length buf)).1) == 0
          then (ok, buf)
          else read_loop grants read fuel
              (buf ++ take (cap - length buf) (read (length buf) (cap - length buf)).1)
              cap)
  turn-Fronts fuel buf rest cap split h small next =
      let (got, later, more, short, last, answer) =
        serves buf rest (cap - length buf) split (omega arith) in
      let kept = take-eq_self (cap - length buf) got short in
      elim (Bool-cases (length got == 0)) [
        | inl over ↦
            simp (answer, kept, over)
              (
                buf,
                refl,
                record {
                  rest = rest;
                  split = split;
                  whole = inl (last (ground (arith, over)));
                  bounded = omega arith;
                },
              )
        | inr some_bytes ↦
            simp (answer, kept, some_bytes)
              (next got later (split ∙ ap (λ r. buf ++ r) more ∙ sym (append_assoc buf got later))
                (ground (arith, some_bytes)) (omega (arith, short, length-append buf got)))
      ]

  read_loop-Fronts :
      (fuel : ℕ) (buf rest : CString) (cap : ℕ)
      → content ≡ buf ++ rest
      → length buf ≤ cap
      → cap ≤ 2 ^ 26 + 65536
      → 2 ^ 26 + 65536 < fuel + length buf
      → Fronts (read_loop grants read fuel buf cap)
  unfolding read_loop
  read_loop-Fronts zero buf rest cap split h k f = absurd (omega arith)
  read_loop-Fronts (suc fuel) buf rest cap split h k f =
      let next : (cap' : ℕ)
          → cap' ≤ 2 ^ 26 + 65536
          → (got later : CString) → content ≡ (buf ++ got) ++ later
          → 0 < length got
          → length (buf ++ got) ≤ cap'
          → Fronts (read_loop grants read fuel (buf ++ got) cap') =
        λ cap' small got later split' some_bytes fits.
          read_loop-Fronts fuel (buf ++ got) later cap' split' fits small
            (omega (arith, length-append buf got)) in
      elim (Bool-cases (leb signature_file_max_read (length buf))) [
        | inl full ↦ (
          buf,
          rw full refl,
          record {
            rest = rest;
            split = split;
            whole = inr (ground (arith, full));
            bounded = omega arith;
          },
        )
        | inr room ↦ elim (Bool-cases (ltb cap (length buf + 65536))) [
          | inl grows ↦
              let granted = mem (grown_cap cap) (omega (arith, grown_cap-le cap)) in
              let below : length buf < 2 ^ 26 = ground (arith, room) in
              simp (room, grows, granted)
                (turn-Fronts fuel buf rest (grown_cap cap) split
                  (grown_cap-gt cap (length buf) h below) below
                  (next (grown_cap cap) (grown_cap-le cap)))
          | inr fits ↦
              simp (room, fits)
                (turn-Fronts fuel buf rest cap split (ground (arith, fits)) (ground (arith, room))
                  (next cap k))
        ]
      ]

  -- With memory for 2 ^ 40 bytes, the read succeeds.
  pub read_whole_file_capped-IsFront : Fronts (read_whole_file_capped grants (opened read))
  unfolding read_whole_file_capped
  read_whole_file_capped-IsFront =
      read_loop-Fronts 67174401 [] content 0 refl (omega arith) (omega arith) (omega arith)

-- A file of at most 64 MiB is read whole.
pub IsFront-small :
    (content buf : CString) → IsFront content buf → length content ≤ 2 ^ 26 → buf ≡ content
IsFront-small content buf f h =
    let none_left : f.rest ≡ [] = elim f.whole [
      | inl e ↦ e
      | inr long ↦ elim (List-cases f.rest) [
        | inl e ↦ e
        | inr (x, xs, e) ↦
            absurd (omega (arith, ap length f.split, ap length e, length-append buf f.rest))
      ]
    ] in
    sym (f.split ∙ ap (λ r. buf ++ r) none_left ∙ append-nil buf)
