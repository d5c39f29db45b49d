-- ===== src/Storage/Files/Atomic.antt =====
-- What a reader of the disk meets while a report is written.
use usb_sentinel.Prelude.{
  ℕ, zero, suc, ◌+◌, ◌≤◌, ◌<◌, ◌≡◌, ◌≢◌, refl, ap, ◌∙◌, ◌⊎◌, inl, inr, Bool, true, false, not, List,
  [], ◌∷◌, ◌++◌, Option, none, some, CString, codes, clip, arith, if◌then◌else◌, str_eq, str_eq_iff,
  All, length, length-append, take, Bool-cases,
}
use usb_sentinel.Core.Path.{Host}
use usb_sentinel.Status.{Status, ok, is_ok}
use usb_sentinel.Storage.Files.{
  Disk, set_file, Writing, wrote, failed, StoreAnswers, WriteResult, Report, stop, replaced,
  finish_write, write_and_replace, write_report_file, has_separator, final_path, print_clipped,
}
use usb_sentinel.Storage.Files.Written.{
  Sound, safe_id-Sound, device_dir-Sound, final_path-Sound, print_clipped-Sound, length-final_path,
}
use usb_sentinel.Storage.SafeId.{safe_id}
use usb_sentinel.Storage.{store_path_max, with_text, device_dir}

-- Each file but the temporary one holds what it held, or, the final one, the whole new content.
abbrev pub Untorn : Disk → CString → CString → CString → Disk → Type 0
Untorn before final temp content disk =
    (p : CString) → p ≢ temp → (disk p ≡ before p) ⊎ ((p ≡ final) × (disk p ≡ some content))

module _ (temp : CString) where
  set_file-other :
      (disk : Disk) (p : CString) (x : Option CString) → p ≢ temp → set_file temp x disk p ≡ disk p
  set_file-other disk p x ne = elim (Bool-cases (str_eq p temp)) [
    | inl e ↦ absurd (ne ((str_eq_iff p temp).0 e))
    | inr e ↦ rw e refl
  ]

  set_file_self : (disk : Disk) (x : Option CString) → set_file temp x disk temp ≡ x
  set_file_self disk x = rw ((str_eq_iff temp temp).1 refl) refl

  write_and_replace-Untorn :
      (before : Disk) (final content : CString) (a : StoreAnswers) (w : Writing)
      → final ≢ temp
      → All
          (Untorn before final temp content)
          (write_and_replace a w final temp content before).disks
  unfolding write_and_replace finish_write replaced
  write_and_replace-Untorn before final content a wrote apart =
      let written : Disk = set_file temp (some content) before in
      let first : Untorn before final temp content written =
        λ p ne. inl (set_file-other before p (some content) ne) in
      elim (Bool-cases (is_ok a.replace_file)) [
        | inl e ↦ rw e (
          first,
          (
            (λ p ne. elim (Bool-cases (str_eq p final)) [
              | inl same ↦
                  inr ((str_eq_iff p final).0 same, rw same (set_file_self before (some content)))
              | inr not_same ↦ inl (
                  rw not_same
                    (set_file-other written p none ne ∙ set_file-other before p (some content) ne))
            ]),
            tt,
          ),
        )
        | inr e ↦ rw e (
          first,
          (
            (λ p ne.
                inl (set_file-other written p none ne ∙ set_file-other before p (some content) ne)),
            tt,
          ),
        )
      ]
  write_and_replace-Untorn before final content a (failed status left) apart = (
    (λ p ne. inl (set_file-other before p left ne)),
    (
      (λ p ne.
          inl (
            set_file-other (set_file temp left before) p none ne
            ∙ set_file-other before p left ne)),
      tt,
    ),
  )

is_ok-eq : (s : Status) → is_ok s ≡ true → s ≡ ok
is_ok-eq ok e = refl
is_ok-eq _ e = cc

with_text-elim :
    (P : WriteResult → Type 0) (m : Status × Option CString) (next : CString → WriteResult)
    → Sound m
    → ((s : Status) → is_ok s ≡ false → P (stop s))
    → ((t : CString) → m ≡ (ok, some t) → P (next t))
    → P (with_text m stop next)
with_text-elim P (s, none) next sound no_text text = no_text s (sound refl)
with_text-elim P (s, some t) next sound no_text text = elim (Bool-cases (is_ok s)) [
  | inl e ↦ rw e (text t (rw (is_ok-eq s e) refl))
  | inr e ↦ rw e (no_text s e)
]

if-elim :
    (P : WriteResult → Type 0) (b : Bool) (x y : WriteResult)
    → (b ≡ true → P x)
    → (b ≡ false → P y)
    → P (if b then x else y)
if-elim P true x y h k = h refl
if-elim P false x y h k = k refl

-- A failed write has a status that is not OK.
abbrev pub Fails : Writing → Type 0
Fails wrote = Unit {0}
Fails (failed status left) = is_ok status ≡ false

abbrev pub last : Disk → List Disk → Disk
last disk [] = disk
last disk (d ∷ ds) = last d ds

abbrev pub temp_path : CString → CString
temp_path final = clip 512 (final ++ codes ".tmp")

-- `final` is the path that the store in `root` has for the report.
abbrev pub IsTarget : Host → CString → Report → CString → Type 0
IsTarget host root r final =
    (id : CString) × (dir : CString) × (has_separator r.scan_id ≡ false)
    × (safe_id (some r.identity) store_path_max ≡ (ok, some id))
    × (device_dir host root id ≡ (ok, some dir))
    × (final_path host r dir ≡ (ok, some final))

-- Nothing was written, or the report was, to its path in the store: while the name of the temporary
-- file fits as well, nothing is torn, and success means that the report is there.
abbrev pub Outcome : (CString → Type 0) → Disk → CString → WriteResult → Type 0
Outcome Target before content result =
    ((result.disks ≡ []) × (is_ok result.status ≡ false))
    ⊎ ((final : CString) × Target final
        × (length final < 512)
        × (length final + 1 < 512
            → All (Untorn before final (temp_path final) content) result.disks)
        × (result.status ≡ ok
            → (result.path ≡ some final) × (last before result.disks final ≡ some content)))

length-take-ge : (n k : ℕ) (xs : CString) → k ≤ n → k ≤ length xs → k ≤ length (take n xs)
length-take-ge zero k xs h l = omega arith
length-take-ge (suc n) k [] h l = l
length-take-ge (suc n) zero (x ∷ xs) h l = omega arith
length-take-ge (suc n) (suc k) (x ∷ xs) h l =
    omega (arith, length-take-ge n k xs (omega arith) (omega arith))

temp_path-ne : (final : CString) → length final + 1 < 512 → final ≢ temp_path final
temp_path-ne final h e =
    let longer =
      length-take-ge 511 (length final + 1) (final ++ codes ".tmp") (omega arith)
        (omega (arith, length-append final (codes ".tmp"))) in
    omega (arith, longer, ap length e)

write_and_replace-last :
    (a : StoreAnswers) (w : Writing) (final temp content : CString) (before : Disk)
    → Fails w
    → (write_and_replace a w final temp content before).status ≡ ok
    → ((write_and_replace a w final temp content before).path ≡ some final)
      × (last before (write_and_replace a w final temp content before).disks final ≡ some content)
unfolding write_and_replace finish_write replaced
write_and_replace-last a wrote final temp content before h e =
    elim (Bool-cases (is_ok a.replace_file)) [
      | inl r ↦
          rw r
            (refl, rw ((str_eq_iff final final).1 refl) (set_file_self temp before (some content)))
      | inr r ↦ absurd (cc (r, (simp (r) at e)))
    ]
write_and_replace-last a (failed status left) final temp content before h e = absurd (cc (h, e))

print_clipped-ok :
    (size : ℕ) (text t : CString) → print_clipped size text ≡ (ok, some t) → t ≡ clip size text
print_clipped-ok size text t e = ground (arith, e)

module _ (a : StoreAnswers) (content : CString) (before : Disk) (h : Fails a.write_file) where
  written :
      (Target : CString → Type 0) (final temp : CString)
      → Target final
      → length final < 512
      → temp ≡ temp_path final
      → Outcome Target before content (write_and_replace a a.write_file final temp content before)
  written Target final temp target small e = rw e (
      inr (
        final,
        target,
        small,
        (λ room.
            write_and_replace-Untorn (temp_path final) before final content a a.write_file
              (temp_path-ne final room)),
        write_and_replace-last a a.write_file final (temp_path final) content before h,
      ))

  made :
      (host : Host) (root : CString) (r : Report) (id dir : CString)
      → has_separator r.scan_id ≡ false
      → safe_id (some r.identity) store_path_max ≡ (ok, some id)
      → device_dir host root id ≡ (ok, some dir)
      → Outcome (IsTarget host root r) before content (
          if not (is_ok a.make_dirs)
          then stop a.make_dirs
          else with_text (final_path host r dir) stop (λ final.
            with_text
              (print_clipped store_path_max (final ++ codes ".tmp"))
              stop
              (λ temp. write_and_replace a a.write_file final temp content before)))
  made host root r id dir plain named placed =
      let P = Outcome (IsTarget host root r) before content in
      elim (Bool-cases (is_ok a.make_dirs)) [
        | inr e ↦ rw e (inl (refl, e))
        | inl e ↦ rw e (
            with_text-elim P (final_path host r dir) _ (final_path-Sound host r dir)
              (λ s n. inl (refl, n))
              (λ final is.
                with_text-elim P (print_clipped store_path_max (final ++ codes ".tmp")) _
                  (print_clipped-Sound store_path_max (final ++ codes ".tmp"))
                  (λ s n. inl (refl, n))
                  (λ temp clipped.
                    written (IsTarget host root r) final temp (id, dir, plain, named, placed, is)
                      (length-final_path host r dir final is)
                      (print_clipped-ok store_path_max (final ++ codes ".tmp") temp clipped))))
      ]

  -- If a failed write has a status that is not OK, a call of write_report_file either fails and
  -- changes no file, or the scan id has no separator, the directory name, the directory and the
  -- final path of the report are made, and this path fits its buffer. Where it leaves room for
  -- another byte, every file but the temporary one holds, at each step of the call, what it held
  -- before, or, the final one, the whole new content. Where the call succeeds, it hands out the
  -- final path, which then holds the new content.
  pub write_report_file-Outcome :
      (host : Host) (root : CString) (r : Report)
      → Outcome
          (IsTarget host root r)
          before
          content
          (write_report_file host root a r content before)
  unfolding write_report_file
  write_report_file-Outcome host root r =
      let P = Outcome (IsTarget host root r) before content in
      if-elim P (has_separator r.scan_id) _ _ (λ _. inl (refl, refl))
        (λ e.
          with_text-elim P (safe_id (some r.identity) store_path_max) _ (safe_id-Sound r.identity)
            (λ s n. inl (refl, n))
            (λ id named.
              with_text-elim P (device_dir host root id) _ (device_dir-Sound host root id)
                (λ s n. inl (refl, n)) (λ dir placed. made host root r id dir e named placed)))
