-- ===== src/Detectors/LnkInspect/Safety.antt =====
-- No reader leaves the bytes of the file, whatever they are.
use usb_sentinel.Prelude.{
  ℕ, zero, suc, ◌+◌, ◌-◌, ◌*◌, ◌≤◌, ◌<◌, ◌≡◌, refl, inl, inr, Bool, true, false, ◌||◌, List, [],
  ◌∷◌, CString, ltb, ◌==◌, if◌then◌else◌, length, length-append, arith, Bool-cases,
}
use usb_sentinel.Detectors.LnkInspect.Bytes.{
  Parsed, malformed, parsed, and_then, check, byte_at, in_range, read_u16, read_u32, put_char,
  copy_cstring, read_cstring_ansi, copy_chars,
}

-- It is no fault, and what it parses to satisfies `P`.
pub data Ensures {A : Type 0} (P : A → Type 0) : Parsed A → Type 0 where
  refused : Ensures P malformed
  given : {a : A} → P a → Ensures P (parsed a)

-- Anything but a fault
abbrev pub NoFault : {A : Type 0} → Parsed A → Type 0
NoFault m = Ensures (λ a. Unit) m

pub and_then-Ensures :
    {A B : Type 0} {P : A → Type 0} {Q : B → Type 0} {m : Parsed A} {f : A → Parsed B}
    → Ensures P m
    → ((a : A) → P a → Ensures Q (f a))
    → Ensures Q (and_then m f)
unfolding and_then
and_then-Ensures refused next = refused
and_then-Ensures (given p) next = next _ p

pub check-Ensures :
    {A : Type 0} {P : A → Type 0} (b : Bool) {m : Parsed A}
    → (b ≡ true → Ensures P m)
    → Ensures P (check b m)
check-Ensures true next = next refl
check-Ensures false next = refused

pub byte_at-NoFault : (buf : List ℕ) (i : ℕ) → i < length buf → NoFault (byte_at buf i)
unfolding byte_at
byte_at-NoFault [] i h = absurd (omega arith)
byte_at-NoFault (b ∷ buf) zero h = given tt
byte_at-NoFault (b ∷ buf) (suc i) h = byte_at-NoFault buf i (omega arith)

pub in_range-le : (len offset count : ℕ) → in_range len offset count ≡ true → offset + count ≤ len
unfolding in_range
in_range-le len offset count h = ground (arith, h)

pub read_u16-NoFault :
    (buf : List ℕ) (offset : ℕ) → Ensures (λ n. offset + 2 ≤ length buf) (read_u16 buf offset)
unfolding read_u16
read_u16-NoFault buf offset = check-Ensures _ (λ ok.
    let fits = in_range-le (length buf) offset 2 ok in
    and_then-Ensures (byte_at-NoFault buf offset (omega (arith, fits))) (λ b₀ u.
      and_then-Ensures (byte_at-NoFault buf (offset + 1) (omega (arith, fits)))
        (λ b₁ v. given fits)))

pub read_u32-NoFault :
    (buf : List ℕ) (offset : ℕ) → Ensures (λ n. offset + 4 ≤ length buf) (read_u32 buf offset)
unfolding read_u32
read_u32-NoFault buf offset = check-Ensures _ (λ ok.
    let fits = in_range-le (length buf) offset 4 ok in
    and_then-Ensures (byte_at-NoFault buf offset (omega (arith, fits))) (λ b₀ u₀.
      and_then-Ensures (byte_at-NoFault buf (offset + 1) (omega (arith, fits))) (λ b₁ u₁.
        and_then-Ensures (byte_at-NoFault buf (offset + 2) (omega (arith, fits))) (λ b₂ u₂.
          and_then-Ensures (byte_at-NoFault buf (offset + 3) (omega (arith, fits)))
            (λ b₃ u₃. given fits)))))

length-put_char :
    (size : ℕ) (out : CString) (c : ℕ) → length out < size → length (put_char size out c) < size
unfolding put_char
length-put_char size out c h = ground (arith, h, length-append out (c ∷ []))

copy_cstring-NoFault :
    (left : ℕ) (buf : List ℕ) (i size : ℕ) (out : CString)
    → i + left ≤ length buf
    → length out < size
    → Ensures (λ text. length text < size) (copy_cstring left buf i size out)
unfolding copy_cstring
copy_cstring-NoFault zero buf i size out fits room = given room
copy_cstring-NoFault (suc left) buf i size out fits room =
    and_then-Ensures (byte_at-NoFault buf i (omega arith)) (λ b u. elim (Bool-cases (b == 0)) [
      | inl e ↦ simp (e) (given room)
      | inr e ↦ simp (e) (
          copy_cstring-NoFault left buf (i + 1) size (put_char size out b) (omega arith)
            (length-put_char size out b room))
    ])

pub read_cstring_ansi-NoFault :
    (buf : List ℕ) (bound offset size : ℕ)
    → bound ≤ length buf
    → Ensures (λ text. length text < size) (read_cstring_ansi buf bound offset size)
unfolding read_cstring_ansi
read_cstring_ansi-NoFault buf bound offset size fits =
    elim (Bool-cases (ltb bound offset || size == 0)) [
      | inl e ↦ simp (e) refused
      | inr e ↦ simp (e) (
          copy_cstring-NoFault (bound - offset) buf offset size [] (ground (arith, e))
            (ground (arith, e)))
    ]

pub copy_chars-NoFault :
    (count : ℕ) (buf : List ℕ) (is_unicode : Bool) (i size : ℕ) (out : CString)
    → i + count * (if is_unicode then 2 else 1) ≤ length buf
    → length out < size
    → Ensures (λ text. length text < size) (copy_chars count buf is_unicode i size out)
unfolding copy_chars
copy_chars-NoFault zero buf is_unicode i size out fits room = given room
copy_chars-NoFault (suc count) buf true i size out fits room =
    and_then-Ensures (byte_at-NoFault buf i (omega arith)) (λ low u.
      and_then-Ensures (byte_at-NoFault buf (i + 1) (omega arith)) (λ high v.
        copy_chars-NoFault count buf true (i + 2) size _ (omega arith)
          (length-put_char size out _ room)))
copy_chars-NoFault (suc count) buf false i size out fits room =
    and_then-Ensures (byte_at-NoFault buf i (omega arith)) (λ low u.
      and_then-Ensures {P = λ a. Unit} {m = parsed 0} (given tt) (λ high v.
        copy_chars-NoFault count buf false (i + 1) size _ (omega arith)
          (length-put_char size out _ room)))
