-- ===== src/Storage/LastScan/Naming.antt =====
-- The name that a report is written under tells its time and its scan.
use usb_sentinel.Prelude.{
  ◌+◌, ◌-◌, ◌<◌, ◌≡◌, refl, sym, ap, ◌∙◌, true, false, [], ◌∷◌, ◌++◌, append_assoc, CString, codes,
  arith, ltb, leb, str_eq, str_eq_iff, length, length-append, take, drop, drop-append,
  take-append_eq, drop-append_eq,
}
use usb_sentinel.Storage.Files.{report_name}
use usb_sentinel.Storage.LastScan.{LastScan, ends_with, read_name}
use usb_sentinel.Storage.Stamp.RoundTrip.{
  Stamp, IsStamp, iso_text, compact_text, length-compact_text, expand-compact_timestamp,
}

pub ends_with-append : (p s : CString) → ends_with (p ++ s) s ≡ true
unfolding ends_with
ends_with-append p s =
    let size = length-append p s in
    let short : ltb (length (p ++ s)) (length s) ≡ false = ground (arith, size) in
    let cut : length (p ++ s) - length s ≡ length p = omega (arith, size) in
    rw (short, cut, drop-append p s) ((str_eq_iff s s).1 refl)

-- From the name that a report is written under, with a time stamp of digits in their places and a
-- scan id of at most 63 bytes, the lookup reads the time and the scan id back.
pub read_name-report_name :
    (t : Stamp) (scan_id : CString) (info : LastScan)
    → IsStamp t
    → length scan_id < 64
    → read_name (report_name (compact_text t) scan_id (codes "json")) info
      ≡ record info { scanned_at = iso_text t; scan_id = scan_id; found = true }
unfolding read_name report_name
read_name-report_name t scan_id info h short =
    let c : CString = compact_text t in
    let tail : CString = b'-' ∷ (scan_id ++ codes ".json") in
    let best : CString = c ++ tail in
    let sixteen = length-compact_text t h in
    let size : length best ≡ length scan_id + 22 =
      omega (arith, length-append c tail, length-append scan_id (codes ".json"), sixteen) in
    let long : leb 22 (length best) ≡ true = ground (arith, size) in
    let id_len : length best - 17 - 5 ≡ length scan_id = omega (arith, size) in
    let behind : drop 16 best ≡ tail = drop-append_eq 16 c tail sixteen in
    let front : take 16 best ≡ c = take-append_eq 16 c tail sixteen in
    let split : best ≡ (c ++ (b'-' ∷ [])) ++ (scan_id ++ codes ".json") =
      sym (append_assoc c (b'-' ∷ []) (scan_id ++ codes ".json")) in
    let rest : drop 17 best ≡ scan_id ++ codes ".json" =
      ap (drop 17) split
      ∙ drop-append_eq 17 (c ++ (b'-' ∷ [])) (scan_id ++ codes ".json")
          (omega (arith, length-append c (b'-' ∷ []), sixteen)) in
    let ending : ends_with best (codes ".json") ≡ true =
      ap (λ s. ends_with s (codes ".json"))
        (split ∙ sym (append_assoc (c ++ (b'-' ∷ [])) scan_id (codes ".json")))
      ∙ ends_with-append ((c ++ (b'-' ∷ [])) ++ scan_id) (codes ".json") in
    let stamp = (expand-compact_timestamp t h).1 in
    let fits : ltb (length scan_id) 64 ≡ true = ground arith in
    let id : take (length scan_id) (scan_id ++ codes ".json") ≡ scan_id =
      take-append_eq (length scan_id) scan_id (codes ".json") refl in
    rw (long, behind, ending, id_len, front, stamp, fits, rest, id) (unfold str_eq in refl)
