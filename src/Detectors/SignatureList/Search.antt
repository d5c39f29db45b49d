-- ===== src/Detectors/SignatureList/Search.antt =====
-- On a list that is sorted by size, the binary search finds what a search of the whole list finds.
use usb_sentinel.Prelude.{
  ℕ, zero, suc, ◌≤◌, ◌<◌, ◌≡◌, refl, ◌∙◌, Bool, false, ◌||◌, ◌&&◌, List, [], ◌∷◌, Option, none,
  some, CString, ◌==◌, if◌then◌else◌, length, drop, get_elem?, str_eq, All, arith,
}
use usb_sentinel.Detectors.SignatureList.{Signature, SignatureList}
use usb_sentinel.Detectors.SignatureList.Lookup.{scan_run, lookup, has_size}
use usb_sentinel.Detectors.SignatureList.Bounds.{IsSorted, Below, Above, lower_bound_by_size_lem}

-- The name of the first entry with the size and the hash.
abbrev pub find_name : List Signature → ℕ → CString → Option CString
find_name [] size_bytes hex = none
find_name (e ∷ es) size_bytes hex =
    if e.size == size_bytes && str_eq e.sha256_hex hex
    then some e.name
    else find_name es size_bytes hex

abbrev pub any_of : (Signature → Bool) → List Signature → Bool
any_of test [] = false
any_of test (e ∷ es) = test e || any_of test es

-- Some entry has the size.
abbrev pub any_size : List Signature → ℕ → Bool
any_size es size_bytes = any_of (λ e. e.size == size_bytes) es

find_name-drop :
    (es : List Signature) (size_bytes m : ℕ) (hex : CString)
    → Below es size_bytes m
    → find_name (drop m es) size_bytes hex ≡ find_name es size_bytes hex
find_name-drop es size_bytes zero hex below = refl
find_name-drop [] size_bytes (suc m) hex below = refl
find_name-drop (e ∷ es) size_bytes (suc m) hex below =
    let smaller : (e.size == size_bytes) ≡ false = ground (arith, below 0 e refl) in
    rw smaller (find_name-drop es size_bytes m hex (λ i x p h. below (suc i) x p (omega arith)))

-- Nothing of a size stands behind an entry that is larger.
find_name-larger :
    (es : List Signature) (n size_bytes : ℕ) (hex : CString)
    → All (λ x. n ≤ x.size) es
    → size_bytes < n
    → find_name es size_bytes hex ≡ none
find_name-larger [] n size_bytes hex a h = refl
find_name-larger (e ∷ es) n size_bytes hex (le, a) h =
    ground (arith, find_name-larger es n size_bytes hex a h)

scan_run-find_name :
    (es : List Signature) (size_bytes : ℕ) (hex : CString)
    → IsSorted es
    → Above es size_bytes 0
    → scan_run es size_bytes hex ≡ find_name es size_bytes hex
unfolding scan_run
scan_run-find_name [] size_bytes hex s above = refl
scan_run-find_name (e ∷ es) size_bytes hex (le, s) above = ground (
  arith,
  above 0 e refl,
  find_name-larger es e.size size_bytes hex le,
  scan_run-find_name es size_bytes hex s (λ i x p h. above (suc i) x p (omega arith)),
)

IsSorted-drop : (es : List Signature) (m : ℕ) → IsSorted es → IsSorted (drop m es)
IsSorted-drop es zero s = s
IsSorted-drop [] (suc m) s = s
IsSorted-drop (e ∷ es) (suc m) (le, s) = IsSorted-drop es m s

Above-drop :
    (es : List Signature) (size_bytes m : ℕ)
    → Above es size_bytes m
    → Above (drop m es) size_bytes 0
Above-drop es size_bytes zero above = above
Above-drop [] size_bytes (suc m) above = λ i e p h. absurd (cc)
Above-drop (x ∷ es) size_bytes (suc m) above =
    Above-drop es size_bytes m (λ i e p h. above (suc i) e p (omega arith))

-- The test for an empty list changes nothing.
find_name-guard :
    (es : List Signature) (size_bytes : ℕ) (hex : CString) (r : Option CString)
    → r ≡ find_name es size_bytes hex
    → (if length es == 0 then none else r) ≡ find_name es size_bytes hex
find_name-guard [] size_bytes hex r e = refl
find_name-guard (x ∷ es) size_bytes hex r e = ground (arith, e)

any_size-guard :
    (es : List Signature) (size_bytes : ℕ) (r : Bool)
    → r ≡ any_size es size_bytes
    → (if length es == 0 then false else r) ≡ any_size es size_bytes
any_size-guard [] size_bytes r e = refl
any_size-guard (x ∷ es) size_bytes r e = ground (arith, e)

-- On a list that is sorted by size, the lookup by binary search answers what a search of the
-- whole list answers: the name of the first entry with the size and the hash.
pub lookup-find_name :
    (list : SignatureList) (size_bytes : ℕ) (hex : CString)
    → IsSorted list.entries
    → lookup (some list) size_bytes (some hex) ≡ find_name list.entries size_bytes hex
unfolding lookup
lookup-find_name list size_bytes hex s =
    let (m, q, below, above) = lower_bound_by_size_lem list.entries size_bytes s in
    let run =
      scan_run-find_name (drop m list.entries) size_bytes hex (IsSorted-drop list.entries m s)
        (Above-drop list.entries size_bytes m above)
      ∙ find_name-drop list.entries size_bytes m hex below in
    rw q (find_name-guard list.entries size_bytes hex _ run)

any_size-larger :
    (es : List Signature) (n size_bytes : ℕ)
    → All (λ x. n ≤ x.size) es
    → size_bytes < n
    → any_size es size_bytes ≡ false
any_size-larger [] n size_bytes a h = refl
any_size-larger (e ∷ es) n size_bytes (le, a) h =
    ground (arith, any_size-larger es n size_bytes a h)

any_size-drop :
    (es : List Signature) (size_bytes m : ℕ)
    → Below es size_bytes m
    → any_size (drop m es) size_bytes ≡ any_size es size_bytes
any_size-drop es size_bytes zero below = refl
any_size-drop [] size_bytes (suc m) below = refl
any_size-drop (e ∷ es) size_bytes (suc m) below =
    let smaller : (e.size == size_bytes) ≡ false = ground (arith, below 0 e refl) in
    rw smaller (any_size-drop es size_bytes m (λ i x p h. below (suc i) x p (omega arith)))

get_elem?-drop : (es : List Signature) (m : ℕ) → get_elem? es m ≡ get_elem? (drop m es) 0
get_elem?-drop [] zero = refl
get_elem?-drop [] (suc m) = refl
get_elem?-drop (e ∷ es) zero = refl
get_elem?-drop (e ∷ es) (suc m) = get_elem?-drop es m

-- Among entries that are no smaller, the first one decides.
any_size-front :
    (es : List Signature) (size_bytes : ℕ) (o : Option Signature)
    → o ≡ get_elem? es 0
    → IsSorted es
    → Above es size_bytes 0
    → (elim o [ none ↦ false | some e ↦ e.size == size_bytes ]) ≡ any_size es size_bytes
any_size-front [] size_bytes o q s above = rw q refl
any_size-front (e ∷ es) size_bytes o q (le, s) above =
    rw q (ground (arith, above 0 e refl, any_size-larger es e.size size_bytes le))

-- On a list that is sorted by size, has_size holds exactly if some entry has the size.
pub has_size-any_size :
    (list : SignatureList) (size_bytes : ℕ)
    → IsSorted list.entries
    → has_size (some list) size_bytes ≡ any_size list.entries size_bytes
unfolding has_size
has_size-any_size list size_bytes s =
    let (m, q, below, above) = lower_bound_by_size_lem list.entries size_bytes s in
    let front =
      any_size-front (drop m list.entries) size_bytes (get_elem? list.entries m)
        (get_elem?-drop list.entries m) (IsSorted-drop list.entries m s)
        (Above-drop list.entries size_bytes m above)
      ∙ any_size-drop list.entries size_bytes m below in
    rw q (any_size-guard list.entries size_bytes _ front)
