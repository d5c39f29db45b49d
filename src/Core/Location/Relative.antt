-- ===== src/Core/Location/Relative.antt =====
-- What `usbs_location_relative` makes of a full path.
use usb_sentinel.Prelude.{
  ℕ, ◌<◌, ◌≡◌, refl, ap, ◌⊎◌, inl, inr, true, [], ◌∷◌, ◌++◌, some, arith, length, CString,
  strip_prefix, strip_prefix-append, strip_prefix-some, Option-cases, Bool-cases, ◌∙◌, ltb,
}
use usb_sentinel.Core.Path.{Host, ends_in_separator, path_join}
use usb_sentinel.Core.Path.Join.{Joins, closed, opened, path_join-Joins}
use usb_sentinel.Core.Location.Rules.{relative}
use usb_sentinel.Status.{ok}

relative-append : (v rest : CString) → 0 < length v → relative (some v) (some (v ++ rest)) ≡ rest
unfolding relative
relative-append v rest h = rw (strip_prefix-append v rest, relative) (ground arith)

-- The relative path is the full path itself, or what the full path has behind the volume path.
pub relative_suffix :
    (v full : CString)
    → (relative (some v) (some full) ≡ full) ⊎ (full ≡ v ++ relative (some v) (some full))
relative_suffix v full = elim (Option-cases (strip_prefix v full)) [
  | inl e ↦ inl (unfold relative in ground arith)
  | inr (rest, e) ↦ elim (Bool-cases (ltb 0 (length v))) [
    | inl long ↦
        inr (strip_prefix-some v full rest e ∙ ap (λ r. v ++ r) (unfold relative in ground arith))
    | inr short ↦ inl (unfold relative in ground arith)
  ]
]

ends_in_separator-length : (h : Host) (v : CString) → ends_in_separator h v ≡ true → 0 < length v
unfolding ends_in_separator
ends_in_separator-length h [] e = absurd (cc)
ends_in_separator-length h (c ∷ v) e = omega arith

Joins-closed :
    {h : Host} {v leaf out : CString}
    → ends_in_separator h v ≡ true
    → Joins h v leaf out
    → out ≡ v ++ leaf
Joins-closed sep (closed e) = refl
Joins-closed sep (opened f) = cc

-- A name joined to a volume path that ends in a separator comes back as the relative path,
-- whenever the join succeeds.
pub relative-path_join :
    (h : Host) (size : ℕ) (v leaf : CString) {out : CString}
    → ends_in_separator h v ≡ true
    → path_join h size (some v) (some leaf) ≡ (ok, some out)
    → relative (some v) (some out) ≡ leaf
relative-path_join h size v leaf sep e =
    rw (Joins-closed sep (path_join-Joins h size v leaf e).0)
      (relative-append v leaf (ends_in_separator-length h v sep))
