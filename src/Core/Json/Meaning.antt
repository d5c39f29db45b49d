-- ===== src/Core/Json/Meaning.antt =====
-- The value that a document stands for, and how the text of one begins.
use usb_sentinel.Prelude.{ℕ, ◌≡◌, refl, true, false, ◌∷◌, ◌++◌, arith, ◌==◌, CString}
use usb_sentinel.Core.Json.Decimal.{pos, print_int}
use usb_sentinel.Core.Json.Document.{
  Document, Items, Members, null, boolean, int, uint, string, array, object, no_items, item,
  no_members, member, print,
}
use usb_sentinel.Core.Json.Leaves.{IsText, print_int_head}
use usb_sentinel.Core.Json.Reader
use usb_sentinel.Core.Json.Reader.{Value, Elements}
use usb_sentinel.Core.Json.Strings.{is_ws, skip_ws}

module _ {D : Type 0} (strtod : CString → D × ℕ) where
  unfoldable mutual
    pub value_of : Document → Value D
    value_of null = Value.null
    value_of (boolean b) = Value.boolean b
    value_of (int z) = Value.number (strtod (print_int z)).0
    value_of (uint n) = Value.number (strtod (print_int (pos n))).0
    value_of (string s) = Value.string s
    value_of (array xs) = Value.array (elements_of xs)
    value_of (object ms) = Value.object (members_of ms)

    pub elements_of : Items → Elements D
    elements_of no_items = Elements.no_elements
    elements_of (item d xs) = Elements.element (value_of d) (elements_of xs)

    pub members_of : Members → Reader.Members D
    members_of no_members = Reader.Members.no_members
    members_of (member k d ms) = Reader.Members.member k (value_of d) (members_of ms)

-- Every key and string of the document is a C string.
unfoldable mutual
  pub IsTextual : Document → Type 0
  IsTextual (string s) = IsText s
  IsTextual (array xs) = IsTextualItems xs
  IsTextual (object ms) = IsTextualMembers ms
  IsTextual _ = Unit {0}

  pub IsTextualItems : Items → Type 0
  IsTextualItems no_items = Unit {0}
  IsTextualItems (item d xs) = IsTextual d × IsTextualItems xs

  pub IsTextualMembers : Members → Type 0
  IsTextualMembers no_members = Unit {0}
  IsTextualMembers (member k d ms) = IsText k × IsTextual d × IsTextualMembers ms

-- The first byte of a printed document is no white space and closes nothing.
pub record Begins (s : CString) : Type 0 where
  pub first : ℕ
  pub rest : CString
  pub splits : s ≡ first ∷ rest
  pub no_ws : is_ws first ≡ false
  pub no_bracket : (first == b']') ≡ false

pub print-Begins : (d : Document) → Begins (print d)
unfolding print
print-Begins null = record {
  first = b'n';
  rest = _;
  splits = refl;
  no_ws = refl;
  no_bracket = refl;
}
print-Begins (boolean true) = record {
  first = b't';
  rest = _;
  splits = refl;
  no_ws = refl;
  no_bracket = refl;
}
print-Begins (boolean false) = record {
  first = b'f';
  rest = _;
  splits = refl;
  no_ws = refl;
  no_bracket = refl;
}
print-Begins (int z) =
    let (c, ds, e, h) = print_int_head z in
    record { first = c; rest = ds; splits = e; no_ws = ground arith; no_bracket = ground arith }
print-Begins (uint n) =
    let (c, ds, e, h) = print_int_head (pos n) in
    record {
      first = c;
      rest = ds;
      splits = unfold print_int in e;
      no_ws = ground arith;
      no_bracket = ground arith;
    }
print-Begins (string s) = record {
  first = b'"';
  rest = _;
  splits = refl;
  no_ws = refl;
  no_bracket = refl;
}
print-Begins (array xs) = record {
  first = b'[';
  rest = _;
  splits = refl;
  no_ws = refl;
  no_bracket = refl;
}
print-Begins (object ms) = record {
  first = b'{';
  rest = _;
  splits = refl;
  no_ws = refl;
  no_bracket = refl;
}

pub skip_ws-Begins : (s t : CString) → Begins s → skip_ws (s ++ t) ≡ s ++ t
unfolding skip_ws
skip_ws-Begins s t b = rw b.splits (rw b.no_ws)
