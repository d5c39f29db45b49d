-- ===== src/Storage/Stamp/RoundTrip.antt =====
-- A time stamp is compacted and expanded.
use usb_sentinel.Prelude.{
  ℕ, ◌+◌, ◌<◌, ◌≡◌, refl, ap, ◌∙◌, true, false, ◌||◌, [], ◌∷◌, ◌++◌, some, append-nil, append_assoc,
  CString, arith, leb, ◌==◌, All, length, length-append,
}
use usb_sentinel.Status.{ok}
use usb_sentinel.Storage.Stamp.{compact_from, compact_timestamp, expanded, expand_timestamp}

-- The six numbers of a time stamp, as they are printed.
pub record Stamp : Type 0 where
  pub year : CString
  pub month : CString
  pub day : CString
  pub hour : CString
  pub minute : CString
  pub second : CString

abbrev pub iso_text : Stamp → CString
iso_text t =
    t.year
    ++ (b'-'
        ∷ (t.month
            ++ (b'-'
                ∷ (t.day
                    ++ (b'T'
                        ∷ (t.hour ++ (b':' ∷ (t.minute ++ (b':' ∷ (t.second ++ (b'Z' ∷ [])))))))))))

abbrev pub compact_text : Stamp → CString
compact_text t =
    t.year ++ (t.month ++ (t.day ++ (b'T' ∷ (t.hour ++ (t.minute ++ (t.second ++ (b'Z' ∷ [])))))))

-- A number of `n` bytes without the two separators.
pub record IsNumber (n : ℕ) (s : CString) : Type 0 where
  pub size : length s ≡ n
  pub plain : All (λ (c : ℕ). (c == b'-' || c == b':') ≡ false) s

pub record IsStamp (t : Stamp) : Type 0 where
  pub year : IsNumber 4 t.year
  pub month : IsNumber 2 t.month
  pub day : IsNumber 2 t.day
  pub hour : IsNumber 2 t.hour
  pub minute : IsNumber 2 t.minute
  pub second : IsNumber 2 t.second

compact_from-number :
    (s out rest : CString)
    → All (λ (c : ℕ). (c == b'-' || c == b':') ≡ false) s
    → length out + length s < 17
    → compact_from 17 out (s ++ rest) ≡ compact_from 17 (out ++ s) rest
unfolding compact_from
compact_from-number [] out rest h fits = rw (append-nil out) refl
compact_from-number (c ∷ s) out rest (h, hs) fits =
    let room : leb 17 (length out + 1) ≡ false = ground arith in
    rw (h, room)
      (compact_from-number s (out ++ (c ∷ [])) rest hs (omega (arith, length-append out (c ∷ [])))
        ∙ rw (append_assoc out (c ∷ []) s) refl)

compact_from-separator :
    (out rest : CString) (c : ℕ)
    → (c == b'-' || c == b':') ≡ true
    → compact_from 17 out (c ∷ rest) ≡ compact_from 17 out rest
unfolding compact_from
compact_from-separator out rest c h = rw h refl

two_bytes : (s : CString) → length s ≡ 2 → (a : ℕ) × (b : ℕ) × (s ≡ a ∷ b ∷ [])
two_bytes [] e = absurd (omega (arith, e))
two_bytes (a ∷ []) e = absurd (omega (arith, e))
two_bytes (a ∷ b ∷ []) e = (a, b, refl)
two_bytes (a ∷ b ∷ c ∷ s) e = absurd (omega (arith, e))

four_bytes :
    (s : CString) → length s ≡ 4 → (a : ℕ) × (b : ℕ) × (c : ℕ) × (d : ℕ) × (s ≡ a ∷ b ∷ c ∷ d ∷ [])
four_bytes [] e = absurd (omega (arith, e))
four_bytes (a ∷ []) e = absurd (omega (arith, e))
four_bytes (a ∷ b ∷ s) e =
    let (c, d, r) = two_bytes s (omega (arith, e)) in (a, b, c, d, ap (λ x. a ∷ b ∷ x) r)

pub length-compact_text : (t : Stamp) → IsStamp t → length (compact_text t) ≡ 16
length-compact_text t h =
    let (_, _, _, _, year) = four_bytes t.year h.year.size in
    let (_, _, month) = two_bytes t.month h.month.size in
    let (_, _, day) = two_bytes t.day h.day.size in
    let (_, _, hour) = two_bytes t.hour h.hour.size in
    let (_, _, minute) = two_bytes t.minute h.minute.size in
    let (_, _, second) = two_bytes t.second h.second.size in
    simp (year, month, day, hour, minute, second) refl

pub expanded-compact_text : (t : Stamp) → IsStamp t → expanded (compact_text t) ≡ iso_text t
unfolding expanded
expanded-compact_text t h =
    let (_, _, _, _, year) = four_bytes t.year h.year.size in
    let (_, _, month) = two_bytes t.month h.month.size in
    let (_, _, day) = two_bytes t.day h.day.size in
    let (_, _, hour) = two_bytes t.hour h.hour.size in
    let (_, _, minute) = two_bytes t.minute h.minute.size in
    let (_, _, second) = two_bytes t.second h.second.size in
    simp (year, month, day, hour, minute, second) refl

pub compact_timestamp-iso :
    (t : Stamp) → IsStamp t → compact_timestamp (some (iso_text t)) 17 ≡ (ok, some (compact_text t))
unfolding compact_timestamp
compact_timestamp-iso t h =
    let o1 : CString = t.year in
    let o2 : CString = o1 ++ t.month in
    let o3 : CString = o2 ++ t.day in
    let o4 : CString = o3 ++ (b'T' ∷ []) in
    let o5 : CString = o4 ++ t.hour in
    let o6 : CString = o5 ++ t.minute in
    let o7 : CString = o6 ++ t.second in
    let n2 = length-append o1 t.month in
    let n3 = length-append o2 t.day in
    let n4 = length-append o3 (b'T' ∷ []) in
    let n5 = length-append o4 t.hour in
    let n6 = length-append o5 t.minute in
    let n7 = length-append o6 t.second in
    compact_from-number t.year [] _ h.year.plain (omega arith)
    ∙ compact_from-separator o1 _ b'-' refl
    ∙ compact_from-number t.month o1 _ h.month.plain (omega arith)
    ∙ compact_from-separator o2 _ b'-' refl
    ∙ compact_from-number t.day o2 _ h.day.plain (omega (arith, n2))
    ∙ compact_from-number (b'T' ∷ []) o3 _ (refl, tt) (omega (arith, n2, n3))
    ∙ compact_from-number t.hour o4 _ h.hour.plain (omega (arith, n2, n3, n4))
    ∙ compact_from-separator o5 _ b':' refl
    ∙ compact_from-number t.minute o5 _ h.minute.plain (omega (arith, n2, n3, n4, n5))
    ∙ compact_from-separator o6 _ b':' refl
    ∙ compact_from-number t.second o6 _ h.second.plain (omega (arith, n2, n3, n4, n5, n6))
    ∙ compact_from-number (b'Z' ∷ []) o7 [] (refl, tt) (omega (arith, n2, n3, n4, n5, n6, n7))
    ∙ simp (append_assoc) (unfold compact_from in rw (length-compact_text t h) refl)

-- A time stamp whose six numbers have their lengths and hold no hyphen and no colon is compacted
-- to 16 bytes, which expand to the time stamp.
pub expand-compact_timestamp :
    (t : Stamp)
    → IsStamp t
    → (compact_timestamp (some (iso_text t)) 17 ≡ (ok, some (compact_text t)))
      × (expand_timestamp (some (compact_text t)) 32 ≡ (ok, some (iso_text t)))
unfolding expand_timestamp
expand-compact_timestamp t h =
    (compact_timestamp-iso t h, rw (length-compact_text t h, expanded-compact_text t h) refl)
