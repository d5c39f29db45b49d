-- ===== src/Detectors/HashMatch/Verdict.antt =====
-- Which files the comparison flags, from the signature file to the finding.
use usb_sentinel.Prelude.{
  ℕ, ◌≤◌, ◌<◌, ◌≡◌, refl, ◌∙◌, ap, ap₂, subst, inl, inr, Bool, true, false, not, ◌&&◌, ◌^◌, List,
  [], ◌∷◌, Option, none, some, is_some, CString, clip, ltb, ◌==◌, length, arith, Bool-cases,
  Option-cases,
}
use usb_sentinel.Core.Scan.{high, Finding, FindingList, CheckResult, finding_list_push}
use usb_sentinel.Detectors.Detector.{FileContext}
use usb_sentinel.Detectors.HashMatch.{
  HashMatch, World, resolve_signature_path, keep_loaded, ensure_signatures_loaded, match_label,
  hash_match_lookup,
}
use usb_sentinel.Detectors.HashMatch.Content.{content, hash_loop-content}
use usb_sentinel.Detectors.HashMatch.OnFile.{
  relative_path, set_disclaimer, may_match, hash_loop, hex_of, volume_of, match_finding, hash_file,
  hash_match_on_file,
}
use usb_sentinel.Detectors.SignatureList.{Signature, SignatureList}
use usb_sentinel.Detectors.SignatureList.Load.{lines, load, empty_list}
use usb_sentinel.Detectors.SignatureList.Loaded.{parsed, any_match, Sorts, Holds, load-Holds}
use usb_sentinel.Detectors.SignatureList.FileRead.{opened}
use usb_sentinel.Detectors.SignatureList.WholeFile.{Gives, Serves, IsFront-small}
use usb_sentinel.Detectors.SignatureList.Lookup.{has_size}
use usb_sentinel.Detectors.SignatureList.Search.{any_size}
use usb_sentinel.Platform.{DirEntry, Reads, readable}
use usb_sentinel.Platform.Sha256.{init, final}
use usb_sentinel.Platform.Sha256.Digest.{sha256}
use usb_sentinel.Status.{Status, ok}

-- A file that is listed has one finding more, of severity HIGH and under its relative path.
pub data Flagged (w : World) (path : CString) (before after : FindingList) : Bool → Type 0 where
  flagged :
      (f : Finding)
      → f.severity ≡ high
      → f.path ≡ clip 1024 path
      → after ≡ (finding_list_push w.realloc before f).1
      → Flagged w path before after true
  clean : after ≡ before → Flagged w path before after false

-- Where some entry has the size and the hash, some entry has the size.
any_match-any_size :
    (es : List Signature) (size : ℕ) (hex : CString)
    → any_match es size hex ≡ true
    → any_size es size ≡ true
any_match-any_size [] size hex h = cc
any_match-any_size (e ∷ es) size hex h = ground (arith, h, any_match-any_size es size hex)

has_size-some :
    (list : SignatureList) (size : ℕ)
    → has_size (some list) size ≡ true
    → (length list.entries == 0) ≡ false
unfolding has_size
has_size-some list size h = ground (arith, h)

any_size-first : (es : List Signature) → 0 < length es → (size : ℕ) × (any_size es size ≡ true)
any_size-first [] h = absurd (omega arith)
any_size-first (e ∷ es) h = (e.size, ground arith)

-- A signature file that can be read and has a well-formed line is loaded.
ensure-Holds :
    (w : World) (g : HashMatch) (path buf : CString) (source : ℕ → ℕ → Status × List ℕ)
    → g.load_attempted ≡ false
    → resolve_signature_path w ≡ some path
    → w.signature_file path ≡ opened source
    → Serves buf source
    → Gives w.realloc
    → Sorts w.sort
    → length buf ≤ 2 ^ 26
    → 0 < length (parsed w.strtoull (lines buf))
    → ((ensure_signatures_loaded w g).loaded_from_file ≡ true)
      × Holds w.strtoull buf (ensure_signatures_loaded w g).signatures
unfolding ensure_signatures_loaded keep_loaded
ensure-Holds w g path buf source fresh resolved opening serves gives sorts short lined =
    let (front, list, is_front, loaded, held) =
      load-Holds w.realloc gives w.strtoull w.sort buf source sorts serves in
    let holds =
      subst (λ b. Holds w.strtoull b list) (IsFront-small buf front is_front short) held in
    let (size, listed) = any_size-first (parsed w.strtoull (lines buf)) lined in
    let filled = has_size-some list size (holds.sized size ∙ listed) in
    simp (fresh, resolved, opening, loaded, filled) (refl, holds)

kept :
    (g : HashMatch) (path : CString) (answer : Status × Option SignatureList)
    → g.load_attempted ≡ true
    → (keep_loaded g path answer).load_attempted ≡ true
unfolding keep_loaded
kept g path (status, none) h = h
kept g path (status, some list) h = ground (arith, h)

ensure-attempted :
    (w : World) (g : HashMatch) → (ensure_signatures_loaded w g).load_attempted ≡ true
unfolding ensure_signatures_loaded keep_loaded
ensure-attempted w g = elim (Bool-cases g.load_attempted) [
  | inl e ↦ simp (e) refl
  | inr e ↦ elim (Option-cases (resolve_signature_path w)) [
    | inl unresolved ↦ simp (e, unresolved) refl
    | inr (path, resolved) ↦
        simp (e, resolved)
          (kept (record g { load_attempted = true; signatures = empty_list }) path
            (load w.realloc w.strtoull w.sort (some empty_list) (w.signature_file path)) refl)
  ]
]

ensure_idem :
    (w : World) (g : HashMatch) → g.load_attempted ≡ true → ensure_signatures_loaded w g ≡ g
unfolding ensure_signatures_loaded
ensure_idem w g h = simp (h) refl

labelled :
    (w : World) (g : HashMatch) (ctx : FileContext) (full_path hex : CString) (before : CheckResult)
    (label : Option CString)
    → Flagged w
        (relative_path full_path (volume_of ctx.detect_ctx))
        before.findings
        (CheckResult.findings (elim label [
          | none ↦ before
          | some l ↦ record before {
            findings =
                (finding_list_push w.realloc before.findings
                  (match_finding g ctx.detect_ctx full_path l hex)).1;
          }
        ]))
        (is_some label)
unfolding match_finding
labelled w g ctx full_path hex before none = clean refl
labelled w g ctx full_path hex before (some l) =
    flagged (match_finding g ctx.detect_ctx full_path l hex) refl refl refl

hash_file-Flagged :
    (w : World) (g : HashMatch) (ctx : FileContext) (full_path : CString) (size : ℕ) (reads : Reads)
    (before : CheckResult)
    → (ensure_signatures_loaded w g) ≡ g
    → Flagged w
        (relative_path full_path (volume_of ctx.detect_ctx))
        before.findings
        (hash_file w g ctx.detect_ctx full_path size true (readable reads) before).findings
        (is_some (match_label g size (hex_of (sha256 (content reads)))))
unfolding hash_file hash_match_lookup
hash_file-Flagged w g ctx full_path size reads before settled =
    let hex = hex_of (final (hash_loop reads init)) in
    subst
      (Flagged w (relative_path full_path (volume_of ctx.detect_ctx)) before.findings
        (hash_file w g ctx.detect_ctx full_path size true (readable reads) before).findings)
      (ap is_some (ap₂ (λ g' h. match_label g' size h) settled (hash_loop-content reads)))
      (labelled w g ctx full_path hex before (match_label (ensure_signatures_loaded w g) size hex))

-- Before the signatures are loaded, with a signature path that resolves, a file of at most 64 MiB
-- there that opens, whose reads give its bytes in order and that has at least one well-formed
-- line, memory for 2 ^ 40 bytes and a qsort that permutes and orders by size, the callback on a
-- readable file answers OK, leaves the loaded state, and pushes one finding, HIGH and under the
-- relative path, if the file has at most 64 MiB and some well-formed line has its size and the
-- SHA-256 of what was read of it, and no finding else.
pub on_file-Flagged :
    (w : World) (g : HashMatch) (path buf : CString) (source : ℕ → ℕ → Status × List ℕ)
    → g.load_attempted ≡ false
    → resolve_signature_path w ≡ some path
    → w.signature_file path ≡ opened source
    → Serves buf source
    → Gives w.realloc
    → Sorts w.sort
    → length buf ≤ 2 ^ 26
    → 0 < length (parsed w.strtoull (lines buf))
    → (ctx : FileContext) (full_path : CString) (entry : DirEntry) (reads : Reads)
    → (r : CheckResult) × (hash_match_on_file w g true
          (readable reads)
          (some ctx)
          (some full_path)
          (some entry)
        ≡ (ok, ensure_signatures_loaded w g, some r))
      × Flagged w
          (relative_path full_path (volume_of ctx.detect_ctx))
          ctx.result.findings
          r.findings
          (not (ltb (2 ^ 26) entry.size_bytes)
            && any_match
                (parsed w.strtoull (lines buf))
                entry.size_bytes
                (hex_of (sha256 (content reads))))
unfolding hash_match_on_file set_disclaimer may_match match_label
on_file-Flagged w g path buf source fresh resolved opening serves gives sorts short lined ctx
      full_path entry reads =
    let g' = ensure_signatures_loaded w g in
    let (loaded, holds) =
      ensure-Holds w g path buf source fresh resolved opening serves gives sorts short lined in
    let base = (set_disclaimer w g ctx.result).1 in
    let size = entry.size_bytes in
    let hex = hex_of (sha256 (content reads)) in
    let found = holds.found size hex in
    elim (Bool-cases (ltb (2 ^ 26) size)) [
      | inl big ↦ simp (big) (base, refl, clean refl)
      | inr small ↦ elim (Bool-cases (has_size (some g'.signatures) size)) [
        | inr unlisted ↦
            let none_listed : any_match (parsed w.strtoull (lines buf)) size hex ≡ false = ground (
              arith,
              any_match-any_size (parsed w.strtoull (lines buf)) size hex,
              holds.sized size,
              unlisted,
            ) in
            simp (small, loaded, unlisted, none_listed) (base, refl, clean refl)
        | inl sized ↦
            let verdict : is_some (match_label g' size hex)
                ≡ any_match (parsed w.strtoull (lines buf)) size hex =
              simp (loaded) found in
            simp (small, loaded, sized)
              (
                hash_file w g' ctx.detect_ctx full_path size true (readable reads) base,
                refl,
                subst
                    (Flagged w (relative_path full_path (volume_of ctx.detect_ctx))
                      ctx.result.findings
                      (hash_file w g' ctx.detect_ctx full_path size true (readable reads)
                        base).findings)
                    verdict
                    (hash_file-Flagged w g' ctx full_path size reads base
                      (ensure_idem w g' (ensure-attempted w g))),
              )
      ]
    ]
