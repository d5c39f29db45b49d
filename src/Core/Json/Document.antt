-- ===== src/Core/Json/Document.antt =====
-- Documents, the text that stands for one, and the writer calls that a caller makes for it.
use usb_sentinel.Prelude.{
  ℕ, suc, Bool, true, false, List, [], ◌∷◌, ◌++◌, some, CString, codes, if◌then◌else◌,
}
use Prim.Native.Nat.{max}
use usb_sentinel.Core.Json.Calls.{Call}
use usb_sentinel.Core.Json.Decimal.{ℤ, print_uint, print_int}
use usb_sentinel.Core.Json.Writer.{escape_byte}

mutual
  pub data Document : Type 0 where
    null : Document
    boolean : Bool → Document
    int : ℤ → Document
    uint : ℕ → Document
    string : CString → Document
    array : Items → Document
    object : Members → Document

  pub data Items : Type 0 where
    no_items : Items
    item : Document → Items → Items

  pub data Members : Type 0 where
    no_members : Members
    member : CString → Document → Members → Members

abbrev pub escaped : CString → CString
escaped [] = b'"' ∷ []
escaped (c ∷ s) = escape_byte c ++ escaped s

-- A string in quotes.
abbrev pub quoted : CString → CString
quoted s = b'"' ∷ escaped s

abbrev pub comma : Bool → CString
comma first = if first then [] else b',' ∷ []

unfoldable mutual
  pub print : Document → CString
  print null = codes "null"
  print (boolean b) = if b then codes "true" else codes "false"
  print (int z) = print_int z
  print (uint n) = print_uint n
  print (string s) = quoted s
  print (array xs) = b'[' ∷ print_items true xs
  print (object ms) = b'{' ∷ print_members true ms

  pub print_items : Bool → Items → CString
  print_items first no_items = b']' ∷ []
  print_items first (item d xs) = comma first ++ (print d ++ print_items false xs)

  pub print_members : Bool → Members → CString
  print_members first no_members = b'}' ∷ []
  print_members first (member k d ms) =
      comma first ++ (quoted k ++ (b':' ∷ (print d ++ print_members false ms)))

-- The number of containers around the deepest value.
unfoldable mutual
  pub height : Document → ℕ
  height (array xs) = suc (height_items xs)
  height (object ms) = suc (height_members ms)
  height _ = 0

  pub height_items : Items → ℕ
  height_items no_items = 0
  height_items (item d xs) = max (height d) (height_items xs)

  pub height_members : Members → ℕ
  height_members no_members = 0
  height_members (member k d ms) = max (height d) (height_members ms)

unfoldable mutual
  pub calls : Document → List Call
  calls null = Call.null ∷ []
  calls (boolean b) = Call.bool_value b ∷ []
  calls (int z) = Call.int z ∷ []
  calls (uint n) = Call.uint n ∷ []
  calls (string s) = Call.string (some s) ∷ []
  calls (array xs) = Call.begin_array ∷ calls_items xs
  calls (object ms) = Call.begin_object ∷ calls_members ms

  pub calls_items : Items → List Call
  calls_items no_items = Call.end_array ∷ []
  calls_items (item d xs) = calls d ++ calls_items xs

  pub calls_members : Members → List Call
  calls_members no_members = Call.end_object ∷ []
  calls_members (member k d ms) = Call.key (some k) ∷ (calls d ++ calls_members ms)
