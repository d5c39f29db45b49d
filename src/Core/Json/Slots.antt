-- ===== src/Core/Json/Slots.antt =====
-- Where the writer accepts a value, what it writes in front of one, and what it notes of it.
use usb_sentinel.Prelude.{
  ℕ, suc, ◌+◌, ◌-◌, ◌≤◌, ◌<◌, ◌≡◌, ap, ◌∙◌, Bool, true, not, ◌||◌, [], ◌++◌, append_assoc, arith,
  ◌==◌, if◌then◌else◌, length, length-append, CString,
}
use usb_sentinel.Status.{ok, is_ok}
use usb_sentinel.Core.Json.Document.{comma}
use usb_sentinel.Core.Json.Room.{IsSafe}
use usb_sentinel.Core.Json.Writer.{Writer, update}
use usb_sentinel.Core.Json.Writes.{Wrote}

-- At the top, in an array, or behind a key.
abbrev pub accepts : Writer → Bool
accepts w = w.depth == 0 || (not (w.is_object (w.depth - 1)) || not (w.want_key (w.depth - 1)))

-- The comma in front of a value: in an array, behind the first.
abbrev pub lead : Writer → CString
lead w =
    if w.depth == 0 || w.is_object (w.depth - 1)
    then []
    else comma (not (w.need_comma (w.depth - 1)))

-- The flags that a value leaves: a member wants a key next, an array a comma.
abbrev pub noted : Writer → Writer
noted w =
    if w.depth == 0
    then w
    else if w.is_object (w.depth - 1)
    then record w { want_key = update w.want_key (w.depth - 1) true }
    else record w { need_comma = update w.need_comma (w.depth - 1) true }

-- A writer that runs and is safe.
pub record IsRunning (w : Writer) : Type 0 where
  pub safe : IsSafe w
  pub running : w.error ≡ ok

-- `w'` has `s` behind the text of `w`, stands at level `d`, and agrees with `w` below level `k`.
pub record Emits (d k : ℕ) (w : Writer) (s : CString) (w' : Writer) : Type 0 where
  pub text : w'.text ≡ w.text ++ s
  pub live : IsRunning w'
  pub depth : w'.depth ≡ d
  pub is_object : (j : ℕ) → j < k → w'.is_object j ≡ w.is_object j
  pub need_comma : (j : ℕ) → j < k → w'.need_comma j ≡ w.need_comma j
  pub want_key : (j : ℕ) → j < k → w'.want_key j ≡ w.want_key j

pub Wrote-Emits :
    {w w' : Writer} (d k : ℕ) (s : CString) → w.depth ≡ d → Wrote w s w' → Emits d k w s w'
Wrote-Emits d k s e a = record {
  text = a.text;
  live = record { safe = a.safe; running = a.running };
  depth = a.depth ∙ e;
  is_object = λ j h. ap (λ f. f j) a.is_object;
  need_comma = λ j h. ap (λ f. f j) a.need_comma;
  want_key = λ j h. ap (λ f. f j) a.want_key;
}

pub Emits-trans :
    {u v w : Writer} {d n : ℕ} (e k : ℕ) (s t : CString)
    → Emits d n u s v
    → Emits e k v t w
    → k ≤ n
    → Emits e k u (s ++ t) w
Emits-trans {u} e k s t a b h = record {
  text = b.text ∙ ap (λ x. x ++ t) a.text ∙ append_assoc u.text s t;
  live = b.live;
  depth = b.depth;
  is_object = λ j g. b.is_object j g ∙ a.is_object j (omega arith);
  need_comma = λ j g. b.need_comma j g ∙ a.need_comma j (omega arith);
  want_key = λ j g. b.want_key j g ∙ a.want_key j (omega arith);
}

pub length-Emits :
    {w w' : Writer} {d k : ℕ} (s : CString)
    → Emits d k w s w'
    → length w'.text ≡ length w.text + length s
length-Emits {w} s a = ap length a.text ∙ length-append w.text s

pub noted-depth : (w : Writer) → (noted w).depth ≡ w.depth
noted-depth w = ground arith

pub noted-text : (w : Writer) → (noted w).text ≡ w.text
noted-text w = ground arith

-- Noting a value in a container changes nothing below its level.
pub noted-Emits :
    {w w' : Writer} {d : ℕ} (k : ℕ) (s : CString)
    → w.depth ≡ suc k
    → Emits d k (noted w) s w'
    → Emits d k w s w'
noted-Emits {w} k s e a = record {
  text = a.text ∙ ap (λ t. t ++ s) (noted-text w);
  live = a.live;
  depth = a.depth;
  is_object = λ j h. a.is_object j h ∙ ground arith;
  need_comma = λ j h. a.need_comma j h ∙ ground arith;
  want_key = λ j h. a.want_key j h ∙ ground arith;
}

pub alive : {w : Writer} → IsRunning w → is_ok w.error ≡ true
alive r = ap is_ok r.running

pub noted-IsRunning : (w : Writer) → IsRunning w → IsRunning (noted w)
noted-IsRunning w r = ground (arith, r.safe)
