-- ===== src/Scanner/Shown.antt =====
-- The files that a volume shows to the traversal of src/scanner/scanner.c, and where they are listed.
use usb_sentinel.Prelude.{
  ℕ, suc, ◌≤◌, ◌≡◌, refl, ap, inl, inr, List, [], ◌∷◌, ◌++◌, CString, ltb, arith, All, Bool-cases,
  Option-cases,
}
use usb_sentinel.Platform.{DirEntry, Visit, Listing, refuses, opens, ends, cancels, fails, lists}
use usb_sentinel.Scanner.Events.{
  Event, file, exclusion, failure, cancellation, shown, events_of, events_in,
}
use usb_sentinel.Scanner.Steps.{Reaches, child, Seen}
use usb_sentinel.Scanner.Walk.{Setup, is_excluded, child_path}

-- The files among the events
unfoldable pub files_in : List Event → List (CString × DirEntry)
files_in [] = []
files_in (file path entry ∷ es) = (path, entry) ∷ files_in es
files_in (_ ∷ es) = files_in es

abbrev pub AllSeen : Setup → List (CString × DirEntry) → Type 0
AllSeen w files = All (λ f. Seen w f.0 f.1) files

files_in-append : (es fs : List Event) → files_in (es ++ fs) ≡ files_in es ++ files_in fs
unfolding files_in
files_in-append [] fs = refl
files_in-append (file path entry ∷ es) fs = ap (◌∷◌ (path, entry)) (files_in-append es fs)
files_in-append (exclusion ∷ es) fs = files_in-append es fs
files_in-append (failure reachable ∷ es) fs = files_in-append es fs
files_in-append (cancellation ∷ es) fs = files_in-append es fs

AllSeen-append :
    (w : Setup) (es fs : List Event)
    → AllSeen w (files_in es)
    → AllSeen w (files_in fs)
    → AllSeen w (files_in (es ++ fs))
unfolding files_in
AllSeen-append w [] fs h k = k
AllSeen-append w (file path entry ∷ es) fs h k = (h.0, AllSeen-append w es fs h.1 k)
AllSeen-append w (exclusion ∷ es) fs h k = AllSeen-append w es fs h k
AllSeen-append w (failure reachable ∷ es) fs h k = AllSeen-append w es fs h k
AllSeen-append w (cancellation ∷ es) fs h k = AllSeen-append w es fs h k

shown-AllSeen :
    (w : Setup) (dir : CString) (depth : ℕ) (entry : DirEntry) (below : CString → List Event)
    → Reaches w depth dir
    → depth ≤ 64
    → ((path : CString) → Reaches w (suc depth) path → AllSeen w (files_in (below path)))
    → AllSeen w (files_in (shown w dir entry below))
unfolding shown files_in
shown-AllSeen w dir depth entry below r shallow deeper = elim (Bool-cases entry.is_reparse_point) [
  | inl link ↦ simp (link) tt
  | inr no_link ↦ elim (Option-cases (child_path w dir entry.name)) [
    | inl long ↦ simp (no_link, long) tt
    | inr (path, joined) ↦ elim (Bool-cases entry.is_directory) [
      | inr plain ↦
          simp (no_link, joined, plain)
            (
              record {
                depth = depth;
                dir = dir;
                reached = r;
                shallow = shallow;
                no_link = no_link;
                no_directory = plain;
                joined = joined;
              },
              tt,
            )
      | inl folder ↦ elim (Bool-cases (is_excluded w path)) [
        | inl out ↦ simp (no_link, joined, folder, out) tt
        | inr kept ↦
            simp (no_link, joined, folder, kept)
              (deeper path (child entry r no_link folder joined kept))
      ]
    ]
  ]
]

mutual
  unfolding events_of events_in files_in

  events_of-AllSeen :
      (w : Setup) (dir : CString) (depth : ℕ) (visit : Visit)
      → Reaches w depth dir
      → AllSeen w (files_in (events_of w dir depth visit))
  events_of-AllSeen w dir depth (refuses status reachable) r = elim (Bool-cases (ltb 64 depth)) [
    | inl deep ↦ simp (deep) tt
    | inr shallow ↦ simp (shallow) tt
  ]
  events_of-AllSeen w dir depth (opens listing) r = elim (Bool-cases (ltb 64 depth)) [
    | inl deep ↦ simp (deep) tt
    | inr shallow ↦ simp (shallow) (events_in-AllSeen w dir depth listing r (ground arith))
  ]

  pub events_in-AllSeen :
      (w : Setup) (dir : CString) (depth : ℕ) (listing : Listing)
      → Reaches w depth dir
      → depth ≤ 64
      → AllSeen w (files_in (events_in w dir depth listing))
  events_in-AllSeen w dir depth ends r shallow = tt
  events_in-AllSeen w dir depth (cancels rest) r shallow =
      events_in-AllSeen w dir depth rest r shallow
  events_in-AllSeen w dir depth (fails status reachable) r shallow = tt
  events_in-AllSeen w dir depth (lists entry visit rest) r shallow =
      AllSeen-append w (shown w dir entry (λ path. events_of w path (suc depth) visit))
        (events_in w dir depth rest)
        (shown-AllSeen w dir depth entry (λ path. events_of w path (suc depth) visit) r shallow
          (λ path r'. events_of-AllSeen w path (suc depth) visit r'))
        (events_in-AllSeen w dir depth rest r shallow)
