-- ===== src/Storage/Files/Written.antt =====
-- The calls that lead to the write hand out a path or fail.
use usb_sentinel.Prelude.{
  ℕ, ◌<◌, ◌≡◌, inl, inr, false, [], ◌∷◌, ◌++◌, Option, none, some, CString, arith, length,
  Bool-cases,
}
use usb_sentinel.Core.Path.{Host, print_bounded, path_join}
use usb_sentinel.Core.Path.Join.{path_join-Joins}
use usb_sentinel.Status.{Status, ok, is_ok}
use usb_sentinel.Storage.Files.{Report, print_clipped, report_name, final_path}
use usb_sentinel.Storage.SafeId.{encode_byte, encode_from, safe_id}
use usb_sentinel.Storage.Stamp.{compact_from, compact_timestamp}
use usb_sentinel.Storage.{store_path_max, with_text, fails, scans_root, device_dir}

-- A call that succeeds hands out a text.
abbrev pub Sound : Status × Option CString → Type 0
Sound m = m.1 ≡ none → is_ok m.0 ≡ false

with_text-Sound :
    (m : Status × Option CString) (next : CString → Status × Option CString)
    → Sound m
    → ((t : CString) → Sound (next t))
    → Sound (with_text m fails next)
with_text-Sound (s, none) next h k = h
with_text-Sound (s, some t) next h k = elim (Bool-cases (is_ok s)) [
  | inl e ↦ rw e (k t)
  | inr e ↦ rw e (λ _. e)
]

path_join-Sound :
    (host : Host) (base leaf : CString)
    → Sound (path_join host store_path_max (some base) (some leaf))
unfolding path_join print_bounded
path_join-Sound host base leaf e = ground (arith, e)

encode_from-Sound : (size : ℕ) (out s : CString) → Sound (encode_from size out s)
unfolding encode_from
encode_from-Sound size out [] e = ground (arith, e)
encode_from-Sound size out (c ∷ s) e =
    ground (arith, e, encode_from-Sound size (out ++ encode_byte c) s)

pub safe_id-Sound : (identity : CString) → Sound (safe_id (some identity) store_path_max)
unfolding safe_id
safe_id-Sound identity = encode_from-Sound store_path_max [] identity

pub device_dir-Sound : (host : Host) (root id : CString) → Sound (device_dir host root id)
unfolding device_dir scans_root
device_dir-Sound host root id =
    with_text-Sound (path_join host store_path_max (some root) _) _ (path_join-Sound host root _)
      (λ scans. path_join-Sound host scans id)

compact_from-Sound : (size : ℕ) (out s : CString) → Sound (compact_from size out s)
unfolding compact_from
compact_from-Sound size out [] e = ground (arith, e)
compact_from-Sound size out (c ∷ s) e =
    ground (arith, e, compact_from-Sound size out s, compact_from-Sound size (out ++ (c ∷ [])) s)

compact_timestamp-Sound : (iso : CString) → Sound (compact_timestamp (some iso) 17)
unfolding compact_timestamp
compact_timestamp-Sound iso = compact_from-Sound 17 [] iso

pub print_clipped-Sound : (size : ℕ) (text : CString) → Sound (print_clipped size text)
print_clipped-Sound size text e = ground (arith, e)

pub final_path-Sound : (host : Host) (r : Report) (dir : CString) → Sound (final_path host r dir)
unfolding final_path
final_path-Sound host r dir =
    with_text-Sound (compact_timestamp (some r.timestamp) 17) _
      (compact_timestamp-Sound r.timestamp)
      (λ compact.
        with_text-Sound (print_clipped 300 (report_name compact r.scan_id r.extension)) _
          (print_clipped-Sound 300 (report_name compact r.scan_id r.extension))
          (λ filename. path_join-Sound host dir filename))

with_text-ok :
    (m : Status × Option CString) (next : CString → Status × Option CString) (t : CString)
    → with_text m fails next ≡ (ok, some t)
    → (u : CString) × (next u ≡ (ok, some t))
with_text-ok (s, none) next t e = cc
with_text-ok (s, some u) next t e = elim (Bool-cases (is_ok s)) [
  | inl p ↦ (u, simp (p) at e)
  | inr p ↦ cc (p, e)
]

pub length-final_path :
    (host : Host) (r : Report) (dir : CString) (t : CString)
    → final_path host r dir ≡ (ok, some t)
    → length t < store_path_max
unfolding final_path
length-final_path host r dir t e =
    let (compact, e') = with_text-ok (compact_timestamp (some r.timestamp) 17) _ t e in
    let (filename, e'') =
      with_text-ok (print_clipped 300 (report_name compact r.scan_id r.extension)) _ t e' in
    (path_join-Joins host store_path_max dir filename e'').1
