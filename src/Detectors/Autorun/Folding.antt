-- ===== src/Detectors/Autorun/Folding.antt =====
-- The comparisons of autorun.c, against the folded texts.
use usb_sentinel.Prelude.{
  ◌≤◌, ◌<◌, ◌≡◌, refl, ap, ap₂, ◌↔◌, inl, inr, true, [], ◌∷◌, ◌++◌, map, CString, lower_ascii,
  arith, length, length-append, Bool-cases,
}
use usb_sentinel.Detectors.Autorun.{begins_ci, contains_from, contains_ci, equals_ci}

-- a text with its ASCII letters in lower case
abbrev pub fold : CString → CString
fold text = map lower_ascii text

-- `needle` stands somewhere in `haystack`.
pub record Within (haystack needle : CString) : Type 0 where
  pub before : CString
  pub after : CString
  pub splits : haystack ≡ before ++ (needle ++ after)

pub equals_ci_iff : (a b : CString) → (equals_ci a b ≡ true) ↔ (fold a ≡ fold b)
unfolding equals_ci
equals_ci_iff (x ∷ a) (y ∷ b) = ground (arith, equals_ci_iff a b)
equals_ci_iff _ _ = ground arith

-- `text` begins with `prefix`.
abbrev Begins : CString → CString → Type 0
Begins text prefix = (after : CString) × (text ≡ prefix ++ after)

begins_ci_to :
    (haystack needle : CString)
    → begins_ci haystack needle ≡ true
    → Begins (fold haystack) (fold needle)
unfolding begins_ci
begins_ci_to haystack [] h = (fold haystack, refl)
begins_ci_to [] (b ∷ needle) h = cc
begins_ci_to (a ∷ haystack) (b ∷ needle) h =
    let (after, e) = begins_ci_to haystack needle (ground (arith, h)) in
    let same : lower_ascii a ≡ lower_ascii b = ground (arith, h) in (after, ap₂ ◌∷◌ same e)

begins_ci_from :
    (haystack needle after : CString)
    → fold haystack ≡ fold needle ++ after
    → begins_ci haystack needle ≡ true
unfolding begins_ci
begins_ci_from haystack [] after e = refl
begins_ci_from [] (b ∷ needle) after e = cc
begins_ci_from (a ∷ haystack) (b ∷ needle) after e =
    let rest : fold haystack ≡ fold needle ++ after = cc in
    let same : lower_ascii a ≡ lower_ascii b = cc in
    ground (arith, begins_ci_from haystack needle after rest, same)

contains_from_to :
    (haystack needle : CString)
    → contains_from haystack needle ≡ true
    → Within (fold haystack) (fold needle)
unfolding contains_from
contains_from_to [] needle h =
    let (after, e) = begins_ci_to [] needle h in record { before = []; after = after; splits = e }
contains_from_to (a ∷ haystack) needle h = elim (Bool-cases (begins_ci (a ∷ haystack) needle)) [
  | inl here ↦
      let (after, e) = begins_ci_to (a ∷ haystack) needle here in
      record { before = []; after = after; splits = e }
  | inr later ↦
      let w = contains_from_to haystack needle (ground (arith, h, later)) in
      record {
        before = lower_ascii a ∷ w.before;
        after = w.after;
        splits = ap (◌∷◌ (lower_ascii a)) w.splits;
      }
]

contains_from_from :
    (haystack needle before after : CString)
    → fold haystack ≡ before ++ (fold needle ++ after)
    → contains_from haystack needle ≡ true
unfolding contains_from
contains_from_from [] needle [] after e = begins_ci_from [] needle after e
contains_from_from [] needle (x ∷ before) after e = cc
contains_from_from (a ∷ haystack) needle [] after e =
    ground (arith, begins_ci_from (a ∷ haystack) needle after e)
contains_from_from (a ∷ haystack) needle (x ∷ before) after e =
    let rest : fold haystack ≡ before ++ (fold needle ++ after) = cc in
    ground (arith, contains_from_from haystack needle before after rest)

pub length-fold : (text : CString) → length (fold text) ≡ length text
length-fold [] = refl
length-fold (c ∷ text) = ground (arith, length-fold text)

Within-length :
    (haystack needle before after : CString)
    → fold haystack ≡ before ++ (fold needle ++ after)
    → length needle ≤ length haystack
Within-length haystack needle before after e = omega (
  arith,
  ap length e,
  length-fold haystack,
  length-fold needle,
  length-append before (fold needle ++ after),
  length-append (fold needle) after,
)

-- For a needle that is not empty, contains_ci answers true exactly if the needle stands somewhere
-- in the haystack when the letters of both are in lower case.
pub contains_ci_iff :
    (haystack needle : CString)
    → 0 < length needle
    → (contains_ci haystack needle ≡ true) ↔ Within (fold haystack) (fold needle)
unfolding contains_ci
contains_ci_iff haystack needle some_text = (
  λ h. contains_from_to haystack needle (ground (arith, h)),
  λ w.
      let fits = Within-length haystack needle w.before w.after w.splits in
      ground (arith, contains_from_from haystack needle w.before w.after w.splits),
)
