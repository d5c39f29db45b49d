-- ===== src/Core/Json/Emit.antt =====
-- The calls for a document write the text that stands for it.
use usb_sentinel.Prelude.{
  ℕ, ◌≤◌, ◌<◌, ◌≡◌, refl, ap, ◌∙◌, Bool, true, false, [], ◌∷◌, some, arith, ◌==◌, if◌then◌else◌,
  length, CString, codes,
}
use usb_sentinel.Status.{ok, is_ok}
use usb_sentinel.Core.Json.Calls.{call, run}
use usb_sentinel.Core.Json.Digits.{length-print_uint_pos, length-print_int_pos}
use usb_sentinel.Core.Json.Decimal.{print_int, print_uint}
use usb_sentinel.Core.Json.Document.{
  Document, Items, Members, null, boolean, int, uint, string, array, object, no_items, item,
  no_members, member, print, print_items, print_members, height, calls, calls_items, calls_members,
}
use usb_sentinel.Core.Json.Slots.{IsRunning, Emits}
use usb_sentinel.Core.Json.Writer
use usb_sentinel.Core.Json.Writer.{
  Writer, init, finish, max_depth, writer_raw, scalar, writer_escape_string,
}
use usb_sentinel.Core.Json.Writes.{Plenty, text_max}
use usb_sentinel.Core.Json.Pieces.{
  text-Emits, string-Emits, container-Emits, EmitsDocument, EmitsItems, EmitsMembers,
}
use usb_sentinel.Core.Json.Filling.{no_items-Emits, no_members-Emits, item-Emits, member-Emits}

-- `usbs_json_writer_finish` on a closed writer that holds a text.
finish_ok :
    (w : Writer) {text : CString}
    → w.text ≡ text
    → w.error ≡ ok
    → (w.depth == 0) ≡ true
    → (w.capacity == 0) ≡ false
    → finish w ≡ (ok, some text)
unfolding finish
finish_ok w t e top room = simp (ap is_ok e, top, room) (λ i. (ok, some (t i)))

module _ (grants : ℕ → Bool) (mem : Plenty grants) where
  mutual
    unfolding print height calls run call Writer.null Writer.bool_value Writer.int Writer.uint
        Writer.string Writer.begin_array Writer.begin_object

    document-Emits : (d : Document) → EmitsDocument grants mem d
    document-Emits null w r a h short = text-Emits grants mem (codes "null") w r a short
    document-Emits (boolean b) w r a h short =
        text-Emits grants mem (if b then codes "true" else codes "false") w r a short
    document-Emits (int z) w r a h short = text-Emits grants mem (print_int z) w r a short
    document-Emits (uint n) w r a h short = text-Emits grants mem (print_uint n) w r a short
    document-Emits (string s) w r a h short = string-Emits grants mem s w r a short
    document-Emits (array xs) w r a h short =
        container-Emits grants mem false (b'[' ∷ []) (print_items true xs) w (calls_items xs) r a
          (omega arith) short
          (λ v r' level o n wants fits.
            items-Emits xs true w.depth v r' level o n (omega arith) fits)
    document-Emits (object ms) w r a h short =
        container-Emits grants mem true (b'{' ∷ []) (print_members true ms) w (calls_members ms) r a
          (omega arith) short
          (λ v r' level o n wants fits.
            members-Emits ms true w.depth v r' level o (wants refl) n (omega arith) fits)

    items-Emits : (xs : Items) → EmitsItems grants mem xs
    items-Emits no_items = no_items-Emits grants mem
    items-Emits (item d xs) = item-Emits grants mem d xs (document-Emits d) (items-Emits xs)

    members-Emits : (ms : Members) → EmitsMembers grants mem ms
    members-Emits no_members = no_members-Emits grants mem
    members-Emits (member k d ms) =
        member-Emits grants mem k d ms (document-Emits d) (members-Emits ms)

  length-print_pos : (d : Document) → 0 < length (print d)
  unfolding print
  length-print_pos null = omega arith
  length-print_pos (boolean b) = ground arith
  length-print_pos (int z) = length-print_int_pos z
  length-print_pos (uint n) = length-print_uint_pos n
  length-print_pos _ = omega arith

  init-IsRunning : IsRunning init
  unfolding init
  init-IsRunning = record {
    safe = record { fits = omega arith; bounded = omega arith; level = omega arith };
    running = refl;
  }

  -- With memory at hand, the writer calls for any document of at most 32 nested containers whose
  -- text has at most 2 ^ 60 bytes, made on a fresh writer, succeed, and finish hands out the
  -- print of the document.
  pub finish-print :
      (d : Document)
      → height d ≤ max_depth
      → length (print d) ≤ text_max
      → finish (run grants (calls d) init) ≡ (ok, some (print d))
  finish-print d h short =
      let w = run grants (calls d) init in
      let e : Emits 0 0 init (print d) w =
        unfold init in document-Emits d init init-IsRunning refl (omega arith) (omega arith) in
      let t : w.text ≡ print d = e.text ∙ (unfold init in refl) in
      let room : (w.capacity == 0) ≡ false =
        ground (arith, e.live.safe.fits, ap length t, length-print_pos d) in
      let top : (w.depth == 0) ≡ true = ground (arith, e.depth) in
      finish_ok w t e.live.running top room
