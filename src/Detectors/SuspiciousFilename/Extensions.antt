-- ===== src/Detectors/SuspiciousFilename/Extensions.antt =====
-- The extensions of a name and the sets they are looked up in.
use usb_sentinel.Prelude.{
  ℕ, zero, suc, ◌-◌, Bool, true, false, not, List, [], ◌∷◌, Option, none, some, CString, codes,
  lower_ascii, ◌==◌, if◌then◌else◌, get_elem?, drop, length,
}

-- `k_executable_extensions`
abbrev pub executable_extensions : List CString
executable_extensions =
    codes "exe"
    ∷ codes "scr"
    ∷ codes "bat"
    ∷ codes "cmd"
    ∷ codes "com"
    ∷ codes "pif"
    ∷ codes "vbs"
    ∷ codes "vbe"
    ∷ codes "js"
    ∷ codes "jse"
    ∷ codes "wsf"
    ∷ codes "wsh"
    ∷ codes "msi"
    ∷ codes "ps1"
    ∷ codes "lnk"
    ∷ codes "hta"
    ∷ codes "jar"
    ∷ codes "cpl"
    ∷ codes "msc"
    ∷ codes "reg"
    ∷ []

-- `k_native_binary_extensions`
abbrev pub native_binary_extensions : List CString
native_binary_extensions =
    codes "exe" ∷ codes "scr" ∷ codes "com" ∷ codes "pif" ∷ codes "cpl" ∷ codes "msi" ∷ []

-- `k_document_extensions`
abbrev pub document_extensions : List CString
document_extensions =
    codes "pdf"
    ∷ codes "doc"
    ∷ codes "docx"
    ∷ codes "xls"
    ∷ codes "xlsx"
    ∷ codes "ppt"
    ∷ codes "pptx"
    ∷ codes "txt"
    ∷ codes "rtf"
    ∷ codes "csv"
    ∷ codes "jpg"
    ∷ codes "jpeg"
    ∷ codes "png"
    ∷ codes "gif"
    ∷ codes "bmp"
    ∷ codes "mp3"
    ∷ codes "mp4"
    ∷ codes "avi"
    ∷ codes "mov"
    ∷ codes "zip"
    ∷ codes "rar"
    ∷ codes "7z"
    ∷ []

unfoldable pub str_ieq : CString → CString → Bool
str_ieq [] [] = true
str_ieq [] (b ∷ q) = false
str_ieq (a ∷ p) [] = false
str_ieq (a ∷ p) (b ∷ q) = if not (lower_ascii a == lower_ascii b) then false else str_ieq p q

unfoldable pub in_set : CString → List CString → Bool
in_set value [] = false
in_set value (x ∷ set) = if str_ieq value x then true else in_set value set

-- `*(p - 1) == '.'` for `p` behind byte number `i`
unfoldable pub is_dot_at : CString → ℕ → Bool
is_dot_at name i = elim (get_elem? name i) [ none ↦ false | some c ↦ c == b'.' ]

-- The loop of `nth_extension_from_end`, with `p` at offset `at` and `n` less `seen` dots to go.
unfoldable pub extension_before : CString → ℕ → ℕ → Option CString
extension_before name zero n = none
extension_before name (suc i) n =
    let next = extension_before name i (n - 1) in
    let same = extension_before name i n in
    if is_dot_at name i then (if n == 1 then some (drop (suc i) name) else next) else same

unfoldable pub nth_extension_from_end : CString → ℕ → Option CString
nth_extension_from_end name n = extension_before name (length name) n

-- `last_ext != NULL && in_set(last_ext, k_executable_extensions, ...)`
unfoldable pub is_executable_extension : Option CString → Bool
is_executable_extension none = false
is_executable_extension (some ext) = in_set ext executable_extensions
