-- ===== src/Core/Json/Pieces.antt =====
-- Runs of writer calls, what a run for a document has to do, and the scalars and containers.
use usb_sentinel.Prelude.{
  ℕ, suc, ◌+◌, ◌≤◌, ◌<◌, ◌≡◌, refl, ap, Bool, true, false, not, List, [], ◌∷◌, ◌++◌, append_assoc,
  arith, length, length-append, CString,
}
use usb_sentinel.Core.Json.Calls.{Call, call, run}
use usb_sentinel.Core.Json.Document.{
  Document, Items, Members, quoted, print, print_items, print_members, height, height_items,
  height_members, calls, calls_items, calls_members,
}
use usb_sentinel.Core.Json.Slots.{
  accepts, lead, noted, IsRunning, Emits, Wrote-Emits, Emits-trans, length-Emits, noted-depth,
  noted-text,
}
use usb_sentinel.Core.Json.Placing.{scalar-Wrote, begin_container-Emits}
use usb_sentinel.Core.Json.Writer
use usb_sentinel.Core.Json.Writer.{
  Writer, init, finish, max_depth, writer_raw, scalar, writer_escape_string,
}
use usb_sentinel.Core.Json.Writes.{Plenty, text_max, writer_raw-Wrote, writer_escape_string-Wrote}

pub run-append :
    (grants : ℕ → Bool) (a b : List Call) (w : Writer)
    → run grants (a ++ b) w ≡ run grants b (run grants a w)
unfolding run
run-append grants [] b w = refl
run-append grants (c ∷ a) b w = run-append grants a b (call grants c w)

-- The writer has room for a text behind its own.
abbrev pub Fits : Writer → CString → Type 0
Fits w s = length w.text + length s ≤ text_max

module _ (grants : ℕ → Bool) (mem : Plenty grants) where
  abbrev pub EmitsDocument : Document → Type 0
  EmitsDocument d =
      (w : Writer)
      → IsRunning w
      → accepts w ≡ true
      → w.depth + height d ≤ max_depth
      → Fits w (lead w ++ print d)
      → Emits w.depth w.depth (noted w) (lead w ++ print d) (run grants (calls d) w)

  abbrev pub EmitsItems : Items → Type 0
  EmitsItems xs =
      (first : Bool) (k : ℕ) (w : Writer)
      → IsRunning w
      → w.depth ≡ suc k
      → w.is_object k ≡ false
      → w.need_comma k ≡ not first
      → suc k + height_items xs ≤ max_depth
      → Fits w (print_items first xs)
      → Emits k k w (print_items first xs) (run grants (calls_items xs) w)

  abbrev pub EmitsMembers : Members → Type 0
  EmitsMembers ms =
      (first : Bool) (k : ℕ) (w : Writer)
      → IsRunning w
      → w.depth ≡ suc k
      → w.is_object k ≡ true
      → w.want_key k ≡ true
      → w.need_comma k ≡ not first
      → suc k + height_members ms ≤ max_depth
      → Fits w (print_members first ms)
      → Emits k k w (print_members first ms) (run grants (calls_members ms) w)

  -- A scalar that writes a fixed text.
  pub text-Emits :
      (s : CString) (w : Writer)
      → IsRunning w
      → accepts w ≡ true
      → Fits w (lead w ++ s)
      → Emits w.depth w.depth (noted w) (lead w ++ s) (scalar grants (λ v. writer_raw grants v s) w)
  text-Emits s w r a short = Wrote-Emits w.depth w.depth (lead w ++ s) (noted-depth w) (
      scalar-Wrote grants mem (λ v. writer_raw grants v s) s w r a short
        (λ v h e f. writer_raw-Wrote grants mem v s h e f))

  pub string-Emits :
      (s : CString) (w : Writer)
      → IsRunning w
      → accepts w ≡ true
      → Fits w (lead w ++ quoted s)
      → Emits w.depth w.depth
          (noted w)
          (lead w ++ quoted s)
          (scalar grants (λ v. writer_escape_string grants v s) w)
  string-Emits s w r a short = Wrote-Emits w.depth w.depth (lead w ++ quoted s) (noted-depth w) (
      scalar-Wrote grants mem (λ v. writer_escape_string grants v s) (quoted s) w r a short
        (λ v h e f. writer_escape_string-Wrote grants mem s v h e f))

  -- A container around what fills it.
  pub container-Emits :
      (o : Bool) (bracket inside : CString) (w : Writer) (cs : List Call)
      → IsRunning w
      → accepts w ≡ true
      → w.depth < max_depth
      → Fits w (lead w ++ (bracket ++ inside))
      → ((v : Writer)
          → IsRunning v
          → v.depth ≡ suc w.depth
          → v.is_object w.depth ≡ o
          → v.need_comma w.depth ≡ false
          → (o ≡ true → v.want_key w.depth ≡ true)
          → Fits v inside
          → Emits w.depth w.depth v inside (run grants cs v))
      → Emits w.depth w.depth
          (noted w)
          (lead w ++ (bracket ++ inside))
          (run grants cs (Writer.begin_container grants o bracket w))
  container-Emits o bracket inside w cs r a room short fill =
      let fits = append_assoc (lead w) bracket inside in
      let count = length-append (lead w ++ bracket) inside in
      let (e, is_o, no_comma, wants) =
        begin_container-Emits grants mem o bracket w r a room
          (omega (arith, ap length fits, count)) in
      let v = Writer.begin_container grants o bracket w in
      let filled = fill v e.live e.depth is_o no_comma wants (
        omega (
          arith,
          ap length fits,
          count,
          length-Emits (lead w ++ bracket) e,
          ap length (noted-text w),
        )) in
      rw (← fits) (Emits-trans w.depth w.depth (lead w ++ bracket) inside e filled (omega arith))
