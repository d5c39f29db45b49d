-- ===== src/Scanner/Events.antt =====
-- The traversal of src/scanner/scanner.c against a description without its control flow: what a volume
-- shows, in order, and what becomes of the state when it is played until a stop.
use usb_sentinel.Prelude.{
  ℕ, suc, ◌≡◌, refl, sym, ap, ◌∙◌, inl, inr, Bool, true, false, not, List, [], ◌∷◌, ◌++◌, none,
  some, CString, ltb, ◌==◌, if◌then◌else◌, arith, Bool-cases, Option-cases,
}
use usb_sentinel.Platform.{DirEntry, Visit, Listing, refuses, opens, ends, cancels, fails, lists}
use usb_sentinel.Scanner.Walk.{
  Setup, TraverseState, add_u64, classify_path_failure, count_file, is_excluded, child_path,
  Disposition, pass, descend, dispose, is_stopped, after_child, walk_dir, list_dir,
}
use usb_sentinel.Status.{Status, ok}

-- What the walk meets: a file, an excluded directory, a failure to open or to read a directory, with the
-- answer of `root_still_reachable`, or a moment at which the cancel check would ask for a stop.
pub data Event : Type 0 where
  file : CString → DirEntry → Event
  exclusion : Event
  failure : Bool → Event
  cancellation : Event

-- What one entry shows; `below` is what a directory shows under its path.
unfoldable pub shown : Setup → CString → DirEntry → (CString → List Event) → List Event
shown w dir entry below =
    if entry.is_reparse_point then [] else elim (child_path w dir entry.name) [
      | none ↦ []
      | some child ↦
          if not entry.is_directory
          then file child entry ∷ []
          else if is_excluded w child
          then exclusion ∷ []
          else below child
    ]

-- What a directory shows, and what the rest of a listing does, down to the largest depth.
unfoldable mutual
  pub events_of : Setup → CString → ℕ → Visit → List Event
  events_of w dir depth (refuses status reachable) =
      if ltb 64 depth then [] else failure reachable ∷ []
  events_of w dir depth (opens listing) =
      let inside = events_in w dir depth listing in if ltb 64 depth then [] else inside

  pub events_in : Setup → CString → ℕ → Listing → List Event
  events_in w dir depth ends = []
  events_in w dir depth (cancels rest) = cancellation ∷ events_in w dir depth rest
  events_in w dir depth (fails status reachable) = failure reachable ∷ []
  events_in w dir depth (lists entry visit rest) =
      shown w dir entry (λ child. events_of w child (suc depth) visit) ++ events_in w dir depth rest

abbrev pub after_event : Setup → Event → TraverseState → TraverseState
after_event w (file path entry) st = count_file w path entry st
after_event w exclusion st = record st { paths_excluded = add_u64 st.paths_excluded 1 }
after_event w (failure reachable) st = classify_path_failure reachable st
after_event w cancellation st = if w.has_cancel_check then record st { cancelled = true } else st

-- The events one after the other, until the state is cancelled or removed.
unfoldable pub play : Setup → List Event → TraverseState → TraverseState
play w [] st = st
play w (e ∷ es) st = let more = play w es (after_event w e st) in if is_stopped st then st else more

play-stopped :
    (w : Setup) (es : List Event) (st : TraverseState) → is_stopped st ≡ true → play w es st ≡ st
unfolding play
play-stopped w [] st h = refl
play-stopped w (e ∷ es) st h = rw h refl

play-append :
    (w : Setup) (es fs : List Event) (st : TraverseState)
    → play w (es ++ fs) st ≡ play w fs (play w es st)
unfolding play
play-append w [] fs st = refl
play-append w (e ∷ es) fs st = elim (Bool-cases (is_stopped st)) [
  | inl halted ↦ rw halted (sym (play-stopped w fs st halted))
  | inr live ↦ rw live (play-append w es fs (after_event w e st))
]

play-one :
    (w : Setup) (e : Event) (st : TraverseState)
    → is_stopped st ≡ false
    → play w (e ∷ []) st ≡ after_event w e st
unfolding play
play-one w e st live = rw live refl

after_child-play :
    (w : Setup) (es fs : List Event) (st : TraverseState) (out : Status × TraverseState)
    (rest : TraverseState → Status × TraverseState)
    → out ≡ (ok, play w es st)
    → ((mid : TraverseState) → is_stopped mid ≡ false → rest mid ≡ (ok, play w fs mid))
    → after_child out rest ≡ (ok, play w (es ++ fs) st)
unfolding after_child
after_child-play w es fs st out rest e more =
    let mid = play w es st in
    elim (Bool-cases (is_stopped mid)) [
      | inl halted ↦ rw (e, halted, play-append w es fs st, play-stopped w fs mid halted) refl
      | inr live ↦ rw (e, live, play-append w es fs st) (more mid live)
    ]

below_root : (depth : ℕ) → (suc depth == 0) ≡ false
below_root depth = ground arith

idle-play :
    (w : Setup) (st : TraverseState) → ◌≡◌ {A = Status × TraverseState} (ok, st) (ok, play w [] st)
unfolding play
idle-play w st = refl

pass-play :
    (w : Setup) (e : Event) (fs : List Event) (st : TraverseState) (out : Status × TraverseState)
    → is_stopped st ≡ false
    → out ≡ (ok, play w fs (after_event w e st))
    → out ≡ (ok, play w (e ∷ fs) st)
unfolding play
pass-play w e fs st out live h = rw live h

asked-play :
    (w : Setup) (es : List Event) (st : TraverseState)
    → is_stopped st ≡ false
    → w.has_cancel_check ≡ true
    → ◌≡◌ {A = Status × TraverseState}
        (ok, record st { cancelled = true })
        (ok, play w (cancellation ∷ es) st)
unfolding play
asked-play w es st live asked =
    simp (live, asked)
      (ap (λ s. (ok, s)) (sym (play-stopped w es (record st { cancelled = true }) refl)))

unasked-play :
    (w : Setup) (es : List Event) (st : TraverseState) (out : Status × TraverseState)
    → is_stopped st ≡ false
    → w.has_cancel_check ≡ false
    → out ≡ (ok, play w es st)
    → out ≡ (ok, play w (cancellation ∷ es) st)
unfolding play
unasked-play w es st out live unasked h = simp (live, unasked) h

-- What the walk does with an entry fits to what the entry shows.
data Shows (w : Setup) (st : TraverseState) (below : CString → List Event)
    : Disposition → List Event → Type 0 where
  nothing : Shows w st below (pass st) []
  one :
      (e : Event)
      → is_stopped (after_event w e st) ≡ is_stopped st
      → Shows w st below (pass (after_event w e st)) (e ∷ [])
  inside : (path : CString) → Shows w st below (descend path) (below path)

dispose-shown :
    (w : Setup) (dir : CString) (entry : DirEntry) (below : CString → List Event)
    (st : TraverseState)
    → Shows w st below (dispose w dir entry st) (shown w dir entry below)
unfolding dispose shown count_file
dispose-shown w dir entry below st = elim (Bool-cases entry.is_reparse_point) [
  | inl link ↦ simp (link) nothing
  | inr no_link ↦ elim (Option-cases (child_path w dir entry.name)) [
    | inl long ↦ simp (no_link, long) nothing
    | inr (path, joined) ↦ elim (Bool-cases entry.is_directory) [
      | inr plain ↦ simp (no_link, joined, plain) (one (file path entry) refl)
      | inl folder ↦ elim (Bool-cases (is_excluded w path)) [
        | inl out ↦ simp (no_link, joined, folder, out) (one exclusion refl)
        | inr kept ↦ simp (no_link, joined, folder, kept) (inside path)
      ]
    ]
  ]
]

lists-play :
    (w : Setup) (dir : CString) (depth : ℕ) (visit : Visit) (rest : Listing) (st : TraverseState)
    (below : CString → List Event) (d : Disposition) (es fs : List Event)
    → Shows w st below d es
    → is_stopped st ≡ false
    → ((path : CString) → walk_dir w path (suc depth) visit st ≡ (ok, play w (below path) st))
    → ((mid : TraverseState)
        → is_stopped mid ≡ false
        → list_dir w dir depth rest mid ≡ (ok, play w fs mid))
    → ◌≡◌ {A = Status × TraverseState}
        (elim d [
          | pass st' ↦ list_dir w dir depth rest st'
          | descend child ↦
              after_child
                (walk_dir w child (suc depth) visit st)
                (λ st'. list_dir w dir depth rest st')
        ])
        (ok, play w (es ++ fs) st)
lists-play w dir depth visit rest st below (pass st') es fs nothing live deeper more = more st' live
lists-play w dir depth visit rest st below (pass st') es fs (one e kept) live deeper more =
    pass-play w e fs st (list_dir w dir depth rest (after_event w e st)) live
      (more (after_event w e st) (kept ∙ live))
lists-play w dir depth visit rest st below (descend path) es fs (inside p) live deeper more =
    after_child-play w (below path) fs st (walk_dir w path (suc depth) visit st)
      (λ st'. list_dir w dir depth rest st') (deeper path) more

mutual
  unfolding walk_dir list_dir events_of events_in

  below-play :
      (w : Setup) (dir : CString) (depth : ℕ) (visit : Visit) (st : TraverseState)
      → is_stopped st ≡ false
      → walk_dir w dir (suc depth) visit st ≡ (ok, play w (events_of w dir (suc depth) visit) st)
  below-play w dir depth (refuses status reachable) st live =
      elim (Bool-cases (ltb 64 (suc depth))) [
        | inl deep ↦ simp (live, deep) (idle-play w st)
        | inr shallow ↦
            simp (live, shallow, below_root depth)
              (pass-play w (failure reachable) [] st (ok, classify_path_failure reachable st) live
                (idle-play w (classify_path_failure reachable st)))
      ]
  below-play w dir depth (opens listing) st live = elim (Bool-cases (ltb 64 (suc depth))) [
    | inl deep ↦ simp (live, deep) (idle-play w st)
    | inr shallow ↦ simp (live, shallow) (list-play w dir (suc depth) listing st live)
  ]

  list-play :
      (w : Setup) (dir : CString) (depth : ℕ) (listing : Listing) (st : TraverseState)
      → is_stopped st ≡ false
      → list_dir w dir depth listing st ≡ (ok, play w (events_in w dir depth listing) st)
  list-play w dir depth ends st live = idle-play w st
  list-play w dir depth (cancels rest) st live = elim (Bool-cases w.has_cancel_check) [
    | inl asked ↦ simp (asked) (asked-play w (events_in w dir depth rest) st live asked)
    | inr unasked ↦ simp (unasked) (
        unasked-play w (events_in w dir depth rest) st (list_dir w dir depth rest st) live unasked
          (list-play w dir depth rest st live))
  ]
  list-play w dir depth (fails status reachable) st live =
      pass-play w (failure reachable) [] st (ok, classify_path_failure reachable st) live
        (idle-play w (classify_path_failure reachable st))
  list-play w dir depth (lists entry visit rest) st live =
      let below : CString → List Event = λ child. events_of w child (suc depth) visit in
      lists-play w dir depth visit rest st below (dispose w dir entry st) (shown w dir entry below)
        (events_in w dir depth rest) (dispose-shown w dir entry below st) live
        (λ path. below-play w path depth visit st live)
        (λ mid live'. list-play w dir depth rest mid live')

-- What a walk of the root answers, from the events of the volume.
abbrev pub Played : Setup → TraverseState → Visit → Type 0
Played w st (refuses status reachable) =
    walk_dir w w.root_path 0 (refuses status reachable) st ≡ (status, st)
Played w st (opens listing) =
    walk_dir w w.root_path 0 (opens listing) st
    ≡ (ok, play w (events_in w w.root_path 0 listing) st)

-- From a state that is not stopped, a walk of a root that refuses to open answers the status of
-- the refusal and leaves the state alone; a walk of a root that opens answers OK, and its state
-- is what the events that the volume shows (a file, an excluded directory, a failure, a
-- cancellation), played one after the other until the state is cancelled or removed, make of the
-- first state.
pub walk_dir-play :
    (w : Setup) (st : TraverseState) (visit : Visit) → is_stopped st ≡ false → Played w st visit
unfolding walk_dir
walk_dir-play w st (refuses status reachable) live = rw (live, walk_dir) refl
walk_dir-play w st (opens listing) live =
    rw (live, walk_dir) (list-play w w.root_path 0 listing st live)
