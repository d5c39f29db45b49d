-- ===== src/Core/Json/Filling.antt =====
-- What fills a container: items behind commas, and members behind keys.
use usb_sentinel.Prelude.{
  ℕ, suc, ◌+◌, ◌-◌, ◌≤◌, ◌≡◌, sym, ap, subst₂, ◌∙◌, Bool, true, false, not, [], ◌∷◌, ◌++◌,
  append_assoc, some, arith, ◌==◌, length, length-append, CString,
}
use usb_sentinel.Core.Json.Calls.{call, run}
use usb_sentinel.Core.Json.Document.{
  Document, Items, Members, no_items, item, no_members, member, comma, quoted, print, print_items,
  print_members, height, height_members, calls, calls_items, calls_members,
}
use usb_sentinel.Core.Json.Slots.{
  lead, noted, IsRunning, Emits, Emits-trans, length-Emits, noted-text, noted-Emits,
}
use usb_sentinel.Core.Json.Placing.{key-Emits, end_object-Emits, end_array-Emits}
use usb_sentinel.Core.Json.Writer
use usb_sentinel.Core.Json.Writer.{
  Writer, init, finish, max_depth, writer_raw, scalar, writer_escape_string,
}
use usb_sentinel.Core.Json.Writes.{Plenty}
use usb_sentinel.Core.Json.Pieces.{run-append, Fits, EmitsDocument, EmitsItems, EmitsMembers}

module _ (grants : ℕ → Bool) (mem : Plenty grants) where
  pub no_items-Emits : EmitsItems grants mem no_items
  unfolding print height calls run call
  no_items-Emits first k w r d o n h short = end_array-Emits grants mem w k r d o short

  pub no_members-Emits : EmitsMembers grants mem no_members
  unfolding print height calls run call
  no_members-Emits first k w r d o wk n h short = end_object-Emits grants mem w k r d o short

  pub item-Emits :
      (d : Document) (xs : Items)
      → EmitsDocument grants mem d
      → EmitsItems grants mem xs
      → EmitsItems grants mem (item d xs)
  unfolding print height calls
  item-Emits d xs value rest first k w r level o n h short =
      let deep : (w.depth == 0) ≡ false = ground arith in
      let front : lead w ≡ comma first = ground (arith, ap w.is_object level) in
      let c = comma first in
      let fits = length-append c (print d ++ print_items false xs) in
      let fits' = length-append (print d) (print_items false xs) in
      let head =
        value w r (ground arith) (omega arith)
          (rw front (omega (arith, fits, fits', length-append c (print d)))) in
      let head' : Emits w.depth w.depth (noted w) (c ++ print d) (run grants (calls d) w) =
        rw front at head in
      let w' = run grants (calls d) w in
      let tail = print_items false xs in
      let is_array : (noted w).is_object k ≡ false = ground (arith, o) in
      let commas : (noted w).need_comma k ≡ true = ground (arith, ap w.is_object level) in
      let next =
        rest false k w' head'.live (head'.depth ∙ level)
          (head'.is_object k (omega arith) ∙ is_array) (head'.need_comma k (omega arith) ∙ commas)
          (omega arith)
          (omega (
            arith,
            fits,
            fits',
            length-append c (print d),
            length-Emits (c ++ print d) head',
            ap length (noted-text w),
          )) in
      rw (run-append grants (calls d) (calls_items xs) w, ← append_assoc c (print d) tail)
        (noted-Emits k ((c ++ print d) ++ tail) level
          (Emits-trans k k (c ++ print d) tail head' next (omega arith)))

  -- A key inside the object at level `k`.
  pub key_at :
      (name : CString) (first : Bool) (k : ℕ) (w : Writer)
      → IsRunning w
      → w.depth ≡ suc k
      → w.is_object k ≡ true
      → w.want_key k ≡ true
      → w.need_comma k ≡ not first
      → Fits w (comma first ++ (quoted name ++ (b':' ∷ [])))
      → let v = Writer.key grants (some name) w in
        Emits (suc k) k w (comma first ++ (quoted name ++ (b':' ∷ []))) v
        × (v.is_object k ≡ true)
        × (v.want_key k ≡ false)
        × (v.need_comma k ≡ true)
  key_at name first k w r level o wk n short =
      let deep : (w.depth == 0) ≡ false = ground arith in
      let at : w.depth - 1 ≡ k = omega arith in
      let front : comma (not (w.need_comma (w.depth - 1))) ≡ comma first =
        ground (arith, ap w.need_comma at) in
      let (e, is_o, wants, commas) =
        key-Emits grants mem name w r deep (ap w.is_object at ∙ o) (ap w.want_key at ∙ wk)
          (rw front short) in
      let v = Writer.key grants (some name) w in
      (
        subst₂ (λ i c. Emits (suc k) i w (c ++ (quoted name ++ (b':' ∷ []))) v) at front
            (record {
              text = e.text;
              live = e.live;
              depth = e.depth ∙ level;
              is_object = e.is_object;
              need_comma = e.need_comma;
              want_key = e.want_key;
            }),
        sym (ap v.is_object at) ∙ is_o,
        sym (ap v.want_key at) ∙ wants,
        sym (ap v.need_comma at) ∙ commas,
      )

  -- The value behind the key of a member, and the members after it.
  pub behind_key-Emits :
      (d : Document) (ms : Members) (k : ℕ) (v : Writer)
      → EmitsDocument grants mem d
      → EmitsMembers grants mem ms
      → IsRunning v
      → v.depth ≡ suc k
      → v.is_object k ≡ true
      → v.want_key k ≡ false
      → v.need_comma k ≡ true
      → suc k + height_members (member [] d ms) ≤ max_depth
      → Fits v (print d ++ print_members false ms)
      → Emits k k v (print d ++ print_members false ms) (run grants (calls d ++ calls_members ms) v)
  unfolding height
  behind_key-Emits d ms k v value rest r level o wk n h short =
      let front : lead v ≡ [] = ground (arith, ap v.is_object level) in
      let fits = length-append (print d) (print_members false ms) in
      let w' = run grants (calls d) v in
      let head =
        value v r (ground (arith, ap v.want_key level)) (omega arith)
          (rw front (omega (arith, fits))) in
      let head' : Emits v.depth v.depth (noted v) (print d) w' = rw front at head in
      let same : (noted v).is_object k ≡ true = ground (arith, o) in
      let next_key : (noted v).want_key k ≡ true = ground (arith, ap v.is_object level) in
      let commas : (noted v).need_comma k ≡ true = ground (arith, ap v.is_object level) in
      let next =
        rest false k w' head'.live (head'.depth ∙ level) (head'.is_object k (omega arith) ∙ same)
          (head'.want_key k (omega arith) ∙ next_key) (head'.need_comma k (omega arith) ∙ commas)
          (omega arith)
          (omega (arith, fits, length-Emits (print d) head', ap length (noted-text v))) in
      rw (run-append grants (calls d) (calls_members ms) v) (
        noted-Emits k (print d ++ print_members false ms) level
          (Emits-trans k k (print d) (print_members false ms) head' next (omega arith)))

  pub member-Emits :
      (name : CString) (d : Document) (ms : Members)
      → EmitsDocument grants mem d
      → EmitsMembers grants mem ms
      → EmitsMembers grants mem (member name d ms)
  unfolding print height calls run call
  member-Emits name d ms value rest first k w r level o wk n h short =
      let c = comma first in
      let colon = print d ++ print_members false ms in
      let label = c ++ (quoted name ++ (b':' ∷ [])) in
      let whole : label ++ colon ≡ c ++ (quoted name ++ (b':' ∷ colon)) =
        append_assoc c (quoted name ++ (b':' ∷ [])) colon
        ∙ ap (λ t. c ++ t) (append_assoc (quoted name) (b':' ∷ []) colon) in
      let fits = length-append label colon in
      let (e, is_o, wants, commas) =
        key_at name first k w r level o wk n (omega (arith, fits, ap length whole)) in
      let v = Writer.key grants (some name) w in
      rw (← whole) (
        Emits-trans k k label colon e
          (behind_key-Emits d ms k v value rest e.live e.depth is_o wants commas (omega arith)
            (omega (arith, fits, ap length whole, length-Emits label e)))
          (omega arith))
