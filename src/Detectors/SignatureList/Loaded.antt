-- ===== src/Detectors/SignatureList/Loaded.antt =====
-- What a load leaves in the list, and what a lookup in a loaded list answers for.
use mathlib.Core.List.{Perm, Permᴰ}
use mathlib.Core.List.Permᴰ
use mathlib.Core.Bool.{Bool-set}
use usb_sentinel.Prelude.{
  ℕ, suc, ◌+◌, ◌*◌, ◌≤◌, ◌<◌, ◌≡◌, ◌^◌, refl, sym, ap, ◌∙◌, inl, inr, Bool, true, false, ◌||◌, ◌&&◌,
  List, [], ◌∷◌, ◌++◌, append_assoc, append-nil, some, CString, ltb, is_some, ◌==◌, length,
  length-append, subst, str_eq, arith, Bool-cases, ◌⊎◌,
}
use usb_sentinel.Detectors.SignatureList.{Signature, SignatureList}
use usb_sentinel.Detectors.SignatureList.Line.{LineResult, skip_quiet, malformed, parse_line}
use usb_sentinel.Detectors.SignatureList.FileRead.{Source, opened, read_whole_file_capped}
use usb_sentinel.Detectors.SignatureList.WholeFile.{
  Gives, Serves, IsFront, read_whole_file_capped-IsFront,
}
use usb_sentinel.Detectors.SignatureList.Load.{
  empty_list, next_capacity, entry_size, first_byte, lines, push_entry, load_lines, load,
}
use usb_sentinel.Detectors.SignatureList.Lookup.{lookup, has_size}
use usb_sentinel.Detectors.SignatureList.Bounds.{IsSorted}
use usb_sentinel.Detectors.SignatureList.Search.{
  find_name, any_of, any_size, lookup-find_name, has_size-any_size,
}
use usb_sentinel.Status.{Status, ok}

-- More lines than the largest file that is read can have.
abbrev pub lines_max : ℕ
lines_max = 2 ^ 27

length-first_byte-le : (c : ℕ) (ls : List CString) → length (first_byte c ls) ≤ suc (length ls)
unfolding first_byte
length-first_byte-le c [] = omega arith
length-first_byte-le c (l ∷ ls) = omega arith

length-lines-le : (buf : CString) → length (lines buf) ≤ length buf
unfolding lines
length-lines-le [] = omega arith
length-lines-le (c ∷ buf) = ground (arith, length-lines-le buf, length-first_byte-le c (lines buf))

-- The array has room for the entries, and not much more.
record Fits (list : SignatureList) : Type 0 where
  room : length list.entries ≤ list.capacity
  near : list.capacity ≤ 2 * length list.entries + 64

or-swap : (x y z : Bool) → (x || (y || z)) ≡ (y || (x || z))
or-swap true true z = refl
or-swap true false z = refl
or-swap false true z = refl
or-swap false false z = refl

LineResult-cases :
    (r : LineResult)
    → (r ≡ skip_quiet) ⊎ (r ≡ malformed) ⊎ ((entry : Signature) × (r ≡ LineResult.ok entry))
LineResult-cases skip_quiet = inl refl
LineResult-cases malformed = inr (inl refl)
LineResult-cases (LineResult.ok entry) = inr (inr (entry, refl))

-- The entries that the lines hold, in order.
unfoldable pub parsed : (CString → ℕ × ℕ) → List CString → List Signature
parsed strtoull [] = []
parsed strtoull (line ∷ more) = elim (parse_line strtoull line) [
  | LineResult.ok entry ↦ entry ∷ parsed strtoull more
  | _ ↦ parsed strtoull more
]

module _ (grants : ℕ → Bool) (mem : Gives grants) where
  push_entry-Fits :
      (list : SignatureList) (entry : Signature)
      → Fits list
      → length list.entries < lines_max
      → (list' : SignatureList) × (push_entry grants list entry ≡ (ok, list'))
        × (list'.entries ≡ list.entries ++ (entry ∷ []))
        × Fits list'
  unfolding push_entry
  push_entry-Fits list entry h few =
      let more = length-append list.entries (entry ∷ []) in
      elim (Bool-cases (length list.entries == list.capacity)) [
        | inr e ↦ (
          record list { entries = list.entries ++ (entry ∷ []) },
          rw e refl,
          refl,
          record { room = ground (arith, more, h.room); near = omega (arith, more, h.near) },
        )
        | inl e ↦
            let small : ltb 76861433640456465 (next_capacity list.capacity) ≡ false =
              ground (arith, h.near) in
            let next : next_capacity list.capacity ≤ 2 * length list.entries + 64 =
              ground (arith, h.near) in
            let granted = mem (next_capacity list.capacity * entry_size) (omega arith) in
            (
              record list {
                entries = list.entries ++ (entry ∷ []);
                capacity = next_capacity list.capacity;
              },
              rw e (rw small (rw granted refl)),
              refl,
              record {
                room = ground (arith, more, h.room, h.near);
                near = omega (arith, more, next);
              },
            )
      ]

  load_lines-parsed :
      (strtoull : CString → ℕ × ℕ) (ls : List CString) (list : SignatureList) (skipped : ℕ)
      → Fits list
      → length list.entries + length ls ≤ lines_max
      → (load_lines grants strtoull list ls skipped).0.entries ≡ list.entries ++ parsed strtoull ls
  unfolding load_lines parsed
  load_lines-parsed strtoull [] list skipped h few = sym (append-nil list.entries)
  load_lines-parsed strtoull (line ∷ more) list skipped h few =
      elim (LineResult-cases (parse_line strtoull line)) [
        | inl e ↦
            rw (e, load_lines, parsed)
              (load_lines-parsed strtoull more list skipped h (omega arith))
        | inr (inl e) ↦
            rw (e, load_lines, parsed)
              (load_lines-parsed strtoull more list (skipped + 1) h (omega arith))
        | inr (inr (entry, e)) ↦
            let (list', pushed, grown, h') = push_entry-Fits list entry h (omega arith) in
            rw (e, load_lines, parsed)
              (rw (pushed, load_lines)
                (load_lines-parsed strtoull more list' skipped h'
                    (omega (arith, ap length grown, length-append list.entries (entry ∷ [])))
                  ∙ ap (λ es. es ++ parsed strtoull more) grown
                  ∙ append_assoc list.entries (entry ∷ []) (parsed strtoull more)))
      ]

-- Some entry has the size and the hash.
abbrev pub any_match : List Signature → ℕ → CString → Bool
any_match es size_bytes hex = any_of (λ e. e.size == size_bytes && str_eq e.sha256_hex hex) es

any_of-Permᴰ :
    (test : Signature → Bool) {xs ys : List Signature}
    → Permᴰ xs ys
    → any_of test xs ≡ any_of test ys
any_of-Permᴰ test Permᴰ.nil = refl
any_of-Permᴰ test (Permᴰ.cons e p) = λ i. test (e i) || any_of-Permᴰ test p i
any_of-Permᴰ test (Permᴰ.swap {a} {b} {l = l} e f) =
    or-swap (test a) (test b) (any_of test l) ∙ (λ i. test (f i) || (test (e i) || any_of test l))
any_of-Permᴰ test (Permᴰ.trans p q) = any_of-Permᴰ test p ∙ any_of-Permᴰ test q

-- That some entry passes a test does not depend on the order.
any_of-Perm :
    (test : Signature → Bool) {xs ys : List Signature}
    → Perm xs ys
    → any_of test xs ≡ any_of test ys
any_of-Perm test p = ∥∥₁_rec (Bool-set _ _) (any_of-Permᴰ test) p

find_name-any_match :
    (es : List Signature) (size_bytes : ℕ) (hex : CString)
    → is_some (find_name es size_bytes hex) ≡ any_match es size_bytes hex
find_name-any_match [] size_bytes hex = refl
find_name-any_match (e ∷ es) size_bytes hex = ground (arith, find_name-any_match es size_bytes hex)

IsSorted-empty : (es : List Signature) → length es ≤ 0 → IsSorted es
IsSorted-empty [] h = tt
IsSorted-empty (e ∷ es) h = absurd (omega arith)

-- What is relied on of `qsort` by `compare_by_size`.
pub record Sorts (sort : List Signature → List Signature) : Type 0 where
  pub orders : (es : List Signature) → IsSorted (sort es)
  pub keeps : (es : List Signature) → Perm (sort es) es

-- A list that holds the entries of the lines of `buf`, ready for lookups.
pub record Holds (strtoull : CString → ℕ × ℕ) (buf : CString) (list : SignatureList) : Type 0 where
  pub sorted : IsSorted list.entries
  pub found :
      (size_bytes : ℕ) (hex : CString)
      → is_some (lookup (some list) size_bytes (some hex))
        ≡ any_match (parsed strtoull (lines buf)) size_bytes hex
  pub sized :
      (size_bytes : ℕ)
      → has_size (some list) size_bytes ≡ any_size (parsed strtoull (lines buf)) size_bytes

Holds-sorted :
    (strtoull : CString → ℕ × ℕ) (buf : CString) (list : SignatureList)
    → IsSorted list.entries
    → Perm list.entries (parsed strtoull (lines buf))
    → Holds strtoull buf list
Holds-sorted strtoull buf list s p = record {
  sorted = s;
  found = λ size_bytes hex.
      ap is_some (lookup-find_name list size_bytes hex s)
      ∙ find_name-any_match list.entries size_bytes hex
      ∙ any_of-Perm _ p;
  sized = λ size_bytes. has_size-any_size list size_bytes s ∙ any_of-Perm _ p;
}

module _ (grants : ℕ → Bool) (mem : Gives grants) (strtoull : CString → ℕ × ℕ) where
  loaded-Holds :
      (sort : List Signature → List Signature) (buf : CString)
      → Sorts sort
      → length buf ≤ lines_max
      → (file : Source) → read_whole_file_capped grants file ≡ (ok, buf)
      → (list : SignatureList) × (load grants strtoull sort (some empty_list) file
          ≡ (ok, some list))
        × Holds strtoull buf list
  unfolding load empty_list
  loaded-Holds sort buf sorts short file read =
      let all =
        load_lines-parsed grants mem strtoull (lines buf) empty_list 0
          (record { room = omega arith; near = omega arith })
          (omega (arith, length-lines-le buf)) in
      let loaded = (load_lines grants strtoull empty_list (lines buf) 0).0 in
      elim (Bool-cases (ltb 0 (length loaded.entries))) [
        | inl some_entry ↦ (
          record loaded { entries = sort loaded.entries },
          simp (read, some_entry) refl,
          Holds-sorted strtoull buf (record loaded { entries = sort loaded.entries })
              (sorts.orders loaded.entries)
              (subst (λ es. Perm (sort loaded.entries) es) all (sorts.keeps loaded.entries)),
        )
        | inr no_entry ↦ (
          loaded,
          simp (read, no_entry) refl,
          Holds-sorted strtoull buf loaded (IsSorted-empty loaded.entries (ground arith))
              (subst (λ es. Perm loaded.entries es) all ∣ Permᴰ.refl _ ∣₁),
        )
      ]

  -- Given memory for 2 ^ 40 bytes, a qsort that permutes and orders by size, and a file whose
  -- reads give its bytes in order, loading it into a fresh list succeeds with a front of the file
  -- that is the whole file or has at least 64 MiB, and at most 64 KiB more; the list is sorted by
  -- size, a lookup in it finds a name exactly if some well-formed line of this front has the size
  -- and the hash, and has_size holds exactly if some well-formed line has the size.
  pub load-Holds :
      (sort : List Signature → List Signature) (content : CString) (read : ℕ → ℕ → Status × List ℕ)
      → Sorts sort
      → Serves content read
      → (buf : CString) × (list : SignatureList) × IsFront content buf
        × (load grants strtoull sort (some empty_list) (opened read) ≡ (ok, some list))
        × Holds strtoull buf list
  load-Holds sort content read sorts serves =
      let (buf, answer, front) = read_whole_file_capped-IsFront grants mem content read serves in
      let (list, loads, holds) =
        loaded-Holds sort buf sorts (omega (arith, front.bounded)) (opened read) answer in
      (buf, list, front, loads, holds)
