-- ===== src/Detectors/SuspiciousFilename/Rules.antt =====
-- The rules on a name, and the weight of a double extension by location.
use usb_sentinel.Prelude.{
  ℕ, suc, ◌-◌, Bool, true, false, not, ◌||◌, ◌&&◌, [], ◌∷◌, ◌++◌, Option, none, some, CString,
  codes, clip, leb, within, ◌==◌, if◌then◌else◌, take, length,
}
use usb_sentinel.Core.Location.Rules.{LocationKind, user_exposed, recent_items, dependency_tree}
use usb_sentinel.Core.Scan.{Severity, info, warning, high}
use usb_sentinel.Detectors.SuspiciousFilename.Extensions.{
  native_binary_extensions, document_extensions, str_ieq, in_set, nth_extension_from_end,
  is_executable_extension,
}

-- The reason of `has_double_extension_disguise`, where the rule holds, once both extensions are found.
unfoldable pub double_extension_reason : CString → CString → Option CString
double_extension_reason last_ext second =
    let len = length second - length last_ext - 1 in
    if len == 0 || leb 16 len
    then none
    else if not (in_set (take len second) document_extensions)
    then none
    else some (
        clip 128 (
          codes "double extension disguise (."
          ++ (take len second ++ (codes "." ++ (last_ext ++ codes ")")))))

unfoldable pub has_double_extension_disguise : CString → Option CString
has_double_extension_disguise name =
    if not (is_executable_extension (nth_extension_from_end name 1))
    then none
    else (elim (nth_extension_from_end name 1) [
      | none ↦ none
      | some last_ext ↦ elim (nth_extension_from_end name 2) [
        | none ↦ none
        | some second ↦ double_extension_reason last_ext second
      ]
    ])

-- U+202A to U+202E, in UTF-8.
unfoldable pub has_bidi_override : CString → Bool
has_bidi_override (a ∷ b ∷ c ∷ p) =
    if a == 0xE2 && (b == 0x80 && within 0xAA 0xAE c) then true else has_bidi_override (b ∷ c ∷ p)
has_bidi_override _ = false

-- The loop over the bytes in front of the last extension.
unfoldable pub four_spaces : ℕ → CString → Bool
four_spaces run [] = false
four_spaces run (c ∷ p) =
    let longer = four_spaces (suc run) p in
    let afresh = four_spaces 0 p in
    if c == b' ' then (if leb 4 (suc run) then true else longer) else afresh

unfoldable pub has_space_padding : CString → Bool
has_space_padding name =
    if not (is_executable_extension (nth_extension_from_end name 1))
    then false
    else (elim (nth_extension_from_end name 1) [
      | none ↦ false
      | some last_ext ↦ four_spaces 0 (take (length name - length last_ext) name)
    ])

-- `double_ext_verdict_t`, with the severity that is written
pub data Verdict : Type 0 where
  report_default report_lowered : Severity → Verdict
  suppress : Verdict

unfoldable pub weigh_double_extension : LocationKind → CString → Verdict
weigh_double_extension user_exposed last_ext = report_default high
weigh_double_extension recent_items last_ext =
    if str_ieq last_ext (codes "lnk") then suppress else report_lowered warning
weigh_double_extension dependency_tree last_ext =
    report_lowered (if in_set last_ext native_binary_extensions then warning else info)
weigh_double_extension _ last_ext = report_lowered warning
