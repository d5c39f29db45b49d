-- ===== src/Scanner/Steps.antt =====
-- The walk as a machine: what can be seen of the volume, and the steps that a traversal makes.
use usb_sentinel.Prelude.{
  ℕ, suc, ◌≤◌, ◌≡◌, refl, inl, inr, Bool, true, false, some, CString, Bool-cases, Option-cases,
}
use usb_sentinel.Platform.{DirEntry}
use usb_sentinel.Scanner.Walk.{
  Setup, TraverseState, add_u64, classify_path_failure, count_file, is_excluded, child_path,
  Disposition, pass, descend, dispose, is_stopped,
}

-- A directory that the walk may enter: the root, or a directory listed in one, under its joined path, that
-- is no reparse point and is not excluded.
pub data Reaches (w : Setup) : ℕ → CString → Type 0 where
  root : Reaches w 0 w.root_path
  child :
      {depth : ℕ} {dir path : CString} (entry : DirEntry)
      → Reaches w depth dir
      → entry.is_reparse_point ≡ false
      → entry.is_directory ≡ true
      → child_path w dir entry.name ≡ some path
      → is_excluded w path ≡ false
      → Reaches w (suc depth) path

-- A file that the walk may count.
pub record Seen (w : Setup) (path : CString) (entry : DirEntry) : Type 0 where
  pub depth : ℕ
  pub dir : CString
  pub reached : Reaches w depth dir
  pub shallow : depth ≤ 64
  pub no_link : entry.is_reparse_point ≡ false
  pub no_directory : entry.is_directory ≡ false
  pub joined : child_path w dir entry.name ≡ some path

-- One change of the state.
pub data Step (w : Setup) (st : TraverseState) : TraverseState → Type 0 where
  counted :
      (path : CString) (entry : DirEntry)
      → Seen w path entry
      → Step w st (count_file w path entry st)
  excluded :
      (path : CString)
      → is_excluded w path ≡ true
      → Step w st (record st { paths_excluded = add_u64 st.paths_excluded 1 })
  failed : (reachable : Bool) → Step w st (classify_path_failure reachable st)
  stopped : w.has_cancel_check ≡ true → Step w st (record st { cancelled = true })

-- A run of steps, none from a state that is cancelled or removed.
pub data Steps (w : Setup) : TraverseState → TraverseState → Type 0 where
  done : {st : TraverseState} → Steps w st st
  step :
      {st mid last : TraverseState}
      → is_stopped st ≡ false
      → Step w st mid
      → Steps w mid last
      → Steps w st last

pub Steps-trans :
    {w : Setup} {st mid last : TraverseState} → Steps w st mid → Steps w mid last → Steps w st last
Steps-trans done more = more
Steps-trans (step h s rest) more = step h s (Steps-trans rest more)

-- What an entry does: it changes nothing, makes one step, or names a directory that may be entered.
pub data Disposed (w : Setup) (depth : ℕ) (st : TraverseState) : Disposition → Type 0 where
  same : Disposed w depth st (pass st)
  moved :
      {st' : TraverseState}
      → Step w st st'
      → is_stopped st' ≡ is_stopped st
      → Disposed w depth st (pass st')
  entered : {path : CString} → Reaches w (suc depth) path → Disposed w depth st (descend path)

pub dispose-Disposed :
    (w : Setup) (dir : CString) (depth : ℕ) (entry : DirEntry) (st : TraverseState)
    → Reaches w depth dir
    → depth ≤ 64
    → Disposed w depth st (dispose w dir entry st)
unfolding dispose count_file
dispose-Disposed w dir depth entry st r shallow = elim (Bool-cases entry.is_reparse_point) [
  | inl link ↦ simp (link) same
  | inr no_link ↦ elim (Option-cases (child_path w dir entry.name)) [
    | inl long ↦ simp (no_link, long) same
    | inr (path, joined) ↦ elim (Bool-cases entry.is_directory) [
      | inr file ↦
          simp (no_link, joined, file)
            (moved
              (counted path entry (record {
                depth = depth;
                dir = dir;
                reached = r;
                shallow = shallow;
                no_link = no_link;
                no_directory = file;
                joined = joined;
              }))
              refl)
      | inl folder ↦ elim (Bool-cases (is_excluded w path)) [
        | inl out ↦ simp (no_link, joined, folder, out) (moved (excluded path out) refl)
        | inr kept ↦
            simp (no_link, joined, folder, kept)
              (entered (child entry r no_link folder joined kept))
      ]
    ]
  ]
]
