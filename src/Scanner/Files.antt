-- ===== src/Scanner/Files.antt =====
-- What a traversal leaves in its state: the files that it has counted, and what became of them.
use usb_sentinel.Prelude.{
  ℕ, suc, ◌+◌, ◌%◌, ◌^◌, ◌<◌, ◌≡◌, refl, sym, ◌∙◌, ap, inl, inr, true, false, List, [], ◌∷◌, map,
  CString, length, length-append, All, arith, ◌++◌, Bool-cases,
}
use usb_sentinel.Platform.{DirEntry, Visit, refuses, opens}
use usb_sentinel.Scanner.Events.{
  Event, file, exclusion, failure, cancellation, after_event, play, events_of, events_in,
  walk_dir-play,
}
use usb_sentinel.Scanner.Shown.{files_in, AllSeen, events_in-AllSeen}
use usb_sentinel.Scanner.Steps.{Seen, root}
use usb_sentinel.Scanner.Walk.{
  Setup, Slot, TraverseState, add_u64, classify_path_failure, count_file, dispatch_slot, dispatch,
  is_stopped, walk_dir,
}

-- The calls of one slot's callback, one for each file in turn
unfoldable pub deliver : Setup → List (CString × DirEntry) → Slot → Slot
deliver w [] slot = slot
deliver w ((path, entry) ∷ files) slot =
    deliver w files (dispatch_slot w.detect_ctx path entry slot)

unfoldable pub total_bytes : List (CString × DirEntry) → ℕ
total_bytes [] = 0
total_bytes ((path, entry) ∷ files) = entry.size_bytes + total_bytes files

-- From one state to a later one, `files` were counted and handed to every slot, in this order.
pub record Counted (w : Setup) (st last : TraverseState) (files : List (CString × DirEntry))
    : Type 0 where
  pub seen : All (λ f. Seen w f.0 f.1) files
  pub slots : last.slots ≡ map (deliver w files) st.slots
  pub file_count :
      st.file_count < 2 ^ 64 → last.file_count ≡ (st.file_count + length files) % 2 ^ 64
  pub byte_count :
      st.byte_count < 2 ^ 64 → last.byte_count ≡ (st.byte_count + total_bytes files) % 2 ^ 64
  pub progress : w.has_progress ≡ true → length last.progress ≡ length st.progress + length files

map-deliver_nil : (w : Setup) (slots : List Slot) → map (deliver w []) slots ≡ slots
unfolding deliver
map-deliver_nil w [] = refl
map-deliver_nil w (s ∷ slots) = ap (◌∷◌ s) (map-deliver_nil w slots)

map-deliver_cons :
    (w : Setup) (path : CString) (entry : DirEntry) (files : List (CString × DirEntry))
    (slots : List Slot)
    → map (deliver w files) (dispatch w.detect_ctx path entry slots)
      ≡ map (deliver w ((path, entry) ∷ files)) slots
unfolding dispatch deliver
map-deliver_cons w path entry files [] = refl
map-deliver_cons w path entry files (s ∷ slots) =
    ap (◌∷◌ (deliver w files (dispatch_slot w.detect_ctx path entry s)))
      (map-deliver_cons w path entry files slots)

add_u64-suc : (a c : ℕ) → (add_u64 a 1 + c) % 2 ^ 64 ≡ (a + suc c) % 2 ^ 64
add_u64-suc a c = omega arith

add_u64_mod : (a b c : ℕ) → (add_u64 a b + c) % 2 ^ 64 ≡ (a + (b + c)) % 2 ^ 64
add_u64_mod a b c = omega arith

add_u64_bound : (a b : ℕ) → add_u64 a b < 2 ^ 64
add_u64_bound a b = omega arith

small_mod : (n : ℕ) → n < 2 ^ 64 → n ≡ (n + 0) % 2 ^ 64
small_mod n h = omega arith

Counted-nil : (w : Setup) (st : TraverseState) → Counted w st st []
unfolding total_bytes
Counted-nil w st = record {
  seen = tt;
  slots = sym (map-deliver_nil w st.slots);
  file_count = small_mod st.file_count;
  byte_count = small_mod st.byte_count;
  progress = λ h. omega arith;
}

length-progress :
    (w : Setup) (path : CString) (entry : DirEntry) (st : TraverseState)
    → w.has_progress ≡ true
    → length (count_file w path entry st).progress ≡ suc (length st.progress)
unfolding count_file
length-progress w path entry st h = simp (h, length-append) (omega arith)

Counted-cons :
    {w : Setup} {st last : TraverseState} {files : List (CString × DirEntry)} (path : CString)
    (entry : DirEntry)
    → Seen w path entry
    → Counted w (count_file w path entry st) last files
    → Counted w st last ((path, entry) ∷ files)
unfolding count_file total_bytes
Counted-cons {w} {st} {last} {files} path entry seen c = record {
  seen = (seen, c.seen);
  slots = c.slots ∙ map-deliver_cons w path entry files st.slots;
  file_count =
      λ h. c.file_count (add_u64_bound st.file_count 1) ∙ add_u64-suc st.file_count (length files);
  byte_count = λ h.
      c.byte_count (add_u64_bound st.byte_count entry.size_bytes)
      ∙ add_u64_mod st.byte_count entry.size_bytes (total_bytes files);
  progress = λ h. omega (arith, c.progress h, length-progress w path entry st h);
}

-- A step that counts no file
Counted-skip :
    {w : Setup} {st mid last : TraverseState} {files : List (CString × DirEntry)}
    → mid.slots ≡ st.slots
    → mid.file_count ≡ st.file_count
    → mid.byte_count ≡ st.byte_count
    → mid.progress ≡ st.progress
    → Counted w mid last files
    → Counted w st last files
Counted-skip {w} {st} {mid} {last} {files} e f g h c = record {
  seen = c.seen;
  slots = c.slots ∙ ap (map (deliver w files)) e;
  file_count = λ b. omega (arith, c.file_count, f);
  byte_count = λ b. omega (arith, c.byte_count, g);
  progress = λ p. omega (arith, c.progress p, ap length h);
}

-- The counted files are the first of those that there are, and all of them where nothing stops the walk.
pub record Accounts (w : Setup) (st last : TraverseState) (all : List (CString × DirEntry))
    : Type 0 where
  pub files : List (CString × DirEntry)
  pub missed : List (CString × DirEntry)
  pub counts : Counted w st last files
  pub in_order : all ≡ files ++ missed
  pub whole : is_stopped last ≡ false → missed ≡ []

Accounts-skip :
    {w : Setup} {st mid last : TraverseState} {all : List (CString × DirEntry)}
    → mid.slots ≡ st.slots
    → mid.file_count ≡ st.file_count
    → mid.byte_count ≡ st.byte_count
    → mid.progress ≡ st.progress
    → Accounts w mid last all
    → Accounts w st last all
Accounts-skip e f g h a = record {
  files = a.files;
  missed = a.missed;
  counts = Counted-skip e f g h a.counts;
  in_order = a.in_order;
  whole = a.whole;
}

Accounts-halted :
    (w : Setup) (st : TraverseState) (all : List (CString × DirEntry))
    → is_stopped st ≡ true
    → Accounts w st st all
Accounts-halted w st all halted = record {
  files = [];
  missed = all;
  counts = Counted-nil w st;
  in_order = refl;
  whole = λ live. absurd (cc (halted, live));
}

Accounts-cons :
    (w : Setup) (st last : TraverseState) (all : List (CString × DirEntry)) (path : CString)
    (entry : DirEntry)
    → Seen w path entry
    → Accounts w (count_file w path entry st) last all
    → Accounts w st last ((path, entry) ∷ all)
Accounts-cons w st last all path entry seen a = record {
  files = (path, entry) ∷ a.files;
  missed = a.missed;
  counts = Counted-cons path entry seen a.counts;
  in_order = ap (◌∷◌ (path, entry)) a.in_order;
  whole = a.whole;
}

play-Accounts :
    (w : Setup) (es : List Event) (st : TraverseState)
    → AllSeen w (files_in es)
    → Accounts w st (play w es st) (files_in es)
unfolding play files_in classify_path_failure
play-Accounts w [] st h = record {
  files = [];
  missed = [];
  counts = Counted-nil w st;
  in_order = refl;
  whole = λ _. refl;
}
play-Accounts w (file path entry ∷ es) st h =
    let rest = play-Accounts w es (count_file w path entry st) h.1 in
    elim (Bool-cases (is_stopped st)) [
      | inl halted ↦ rw halted (Accounts-halted w st (files_in (file path entry ∷ es)) halted)
      | inr live ↦ rw live (Accounts-cons w st _ (files_in es) path entry h.0 rest)
    ]
play-Accounts w (exclusion ∷ es) st h =
    let rest = play-Accounts w es (after_event w exclusion st) h in
    elim (Bool-cases (is_stopped st)) [
      | inl halted ↦ rw halted (Accounts-halted w st (files_in es) halted)
      | inr live ↦ rw live (Accounts-skip refl refl refl refl rest)
    ]
play-Accounts w (failure true ∷ es) st h =
    let rest = play-Accounts w es (after_event w (failure true) st) h in
    elim (Bool-cases (is_stopped st)) [
      | inl halted ↦ rw halted (Accounts-halted w st (files_in es) halted)
      | inr live ↦ rw live (Accounts-skip refl refl refl refl rest)
    ]
play-Accounts w (failure false ∷ es) st h =
    let rest = play-Accounts w es (after_event w (failure false) st) h in
    elim (Bool-cases (is_stopped st)) [
      | inl halted ↦ rw halted (Accounts-halted w st (files_in es) halted)
      | inr live ↦ rw live (Accounts-skip refl refl refl refl rest)
    ]
play-Accounts w (cancellation ∷ es) st h =
    let rest = play-Accounts w es (after_event w cancellation st) h in
    elim (Bool-cases (is_stopped st)) [
      | inl halted ↦ rw halted (Accounts-halted w st (files_in es) halted)
      | inr live ↦ elim (Bool-cases w.has_cancel_check) [
        | inl asked ↦ simp (live, asked) (Accounts-skip refl refl refl refl (simp (asked) at rest))
        | inr unasked ↦ simp (live, unasked) (simp (unasked) at rest)
      ]
    ]

-- From a state that is not stopped, the files that a walk of the root counts are, in order, the
-- first of those that the volume shows, and all of them where the walk ends neither cancelled nor
-- with the device removed: a file is shown where it is listed, as no directory and no reparse
-- point and under a path that fits, in a directory that is reached from the root by at most 64
-- descents, none into a reparse point, an excluded directory or a path that does not fit. Every
-- callback is called for exactly the counted files in this order, the two counters grow by their
-- number and their bytes modulo 2 ^ 64, and there is a progress report for each.
pub walk_dir-Counted :
    (w : Setup) (visit : Visit) (st : TraverseState)
    → is_stopped st ≡ false
    → Accounts w st
        (walk_dir w w.root_path 0 visit st).1
        (files_in (events_of w w.root_path 0 visit))
unfolding events_of files_in
walk_dir-Counted w (refuses status reachable) st live =
    rw (walk_dir-play w st (refuses status reachable) live) (record {
      files = [];
      missed = [];
      counts = Counted-nil w st;
      in_order = refl;
      whole = λ _. refl;
    })
walk_dir-Counted w (opens listing) st live =
    let es = events_in w w.root_path 0 listing in
    rw (walk_dir-play w st (opens listing) live)
      (play-Accounts w es st (events_in-AllSeen w w.root_path 0 listing root (omega arith)))
