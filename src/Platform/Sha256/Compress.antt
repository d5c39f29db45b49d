-- ===== src/Platform/Sha256/Compress.antt =====
-- The compression function of src/platform/sha256.c.
use Prim.Native.Nat.{bit_and, bit_or, bit_xor}
use usb_sentinel.Prelude.{
  ℕ, zero, suc, ◌+◌, ◌-◌, ◌*◌, ◌/◌, ◌%◌, ◌^◌, List, [], ◌∷◌, ◌++◌, length, none, some, get_elem?,
  drop,
}

-- `k_round_constants`
abbrev pub round_constants : List ℕ
round_constants =
    0x428a2f98 ∷ 0x71374491 ∷ 0xb5c0fbcf ∷ 0xe9b5dba5 ∷ 0x3956c25b ∷ 0x59f111f1 ∷ 0x923f82a4
    ∷ 0xab1c5ed5 ∷ 0xd807aa98 ∷ 0x12835b01 ∷ 0x243185be ∷ 0x550c7dc3 ∷ 0x72be5d74 ∷ 0x80deb1fe
    ∷ 0x9bdc06a7 ∷ 0xc19bf174 ∷ 0xe49b69c1 ∷ 0xefbe4786 ∷ 0x0fc19dc6 ∷ 0x240ca1cc ∷ 0x2de92c6f
    ∷ 0x4a7484aa ∷ 0x5cb0a9dc ∷ 0x76f988da ∷ 0x983e5152 ∷ 0xa831c66d ∷ 0xb00327c8 ∷ 0xbf597fc7
    ∷ 0xc6e00bf3 ∷ 0xd5a79147 ∷ 0x06ca6351 ∷ 0x14292967 ∷ 0x27b70a85 ∷ 0x2e1b2138 ∷ 0x4d2c6dfc
    ∷ 0x53380d13 ∷ 0x650a7354 ∷ 0x766a0abb ∷ 0x81c2c92e ∷ 0x92722c85 ∷ 0xa2bfe8a1 ∷ 0xa81a664b
    ∷ 0xc24b8b70 ∷ 0xc76c51a3 ∷ 0xd192e819 ∷ 0xd6990624 ∷ 0xf40e3585 ∷ 0x106aa070 ∷ 0x19a4c116
    ∷ 0x1e376c08 ∷ 0x2748774c ∷ 0x34b0bcb5 ∷ 0x391c0cb3 ∷ 0x4ed8aa4a ∷ 0x5b9cca4f ∷ 0x682e6ff3
    ∷ 0x748f82ee ∷ 0x78a5636f ∷ 0x84c87814 ∷ 0x8cc70208 ∷ 0x90befffa ∷ 0xa4506ceb ∷ 0xbef9a3f7
    ∷ 0xc67178f2 ∷ []

abbrev pub word_at : List ℕ → ℕ → ℕ
word_at w i = elim (get_elem? w i) [ none ↦ 0 | some x ↦ x ]

unfoldable pub rotr32 : ℕ → ℕ → ℕ
rotr32 value bits = bit_or (value / 2 ^ bits) (value * 2 ^ (32 - bits) % 2 ^ 32)

-- a sum of words
abbrev pub wrap : ℕ → ℕ
wrap n = n % 2 ^ 32

-- The big-endian load of `words` words.
unfoldable pub load_words : ℕ → List ℕ → List ℕ
load_words zero block = []
load_words (suc words) block =
    bit_or (word_at block 0 * 2 ^ 24)
      (bit_or (word_at block 1 * 2 ^ 16) (bit_or (word_at block 2 * 2 ^ 8) (word_at block 3)))
    ∷ load_words words (drop 4 block)

-- `rounds` further words of the schedule; the next index is the length of `w`.
unfoldable pub extend : ℕ → List ℕ → List ℕ
extend zero w = w
extend (suc rounds) w =
    let i = length w in
    let s0 =
      bit_xor (bit_xor (rotr32 (word_at w (i - 15)) 7) (rotr32 (word_at w (i - 15)) 18))
        (word_at w (i - 15) / 2 ^ 3) in
    let s1 =
      bit_xor (bit_xor (rotr32 (word_at w (i - 2)) 17) (rotr32 (word_at w (i - 2)) 19))
        (word_at w (i - 2) / 2 ^ 10) in
    extend rounds (w ++ (wrap (word_at w (i - 16) + s0 + word_at w (i - 7) + s1) ∷ []))

-- The working variables
pub record Working : Type 0 where
  pub a : ℕ
  pub b : ℕ
  pub c : ℕ
  pub d : ℕ
  pub e : ℕ
  pub f : ℕ
  pub g : ℕ
  pub h : ℕ

-- `~x` on 32 bits
abbrev pub complement : ℕ → ℕ
complement x = 0xffffffff - x

-- One round, with its constant and its word.
unfoldable pub round : ℕ → ℕ → Working → Working
round constant word v =
    let s1 = bit_xor (bit_xor (rotr32 v.e 6) (rotr32 v.e 11)) (rotr32 v.e 25) in
    let ch = bit_xor (bit_and v.e v.f) (bit_and (complement v.e) v.g) in
    let temp1 = wrap (v.h + s1 + ch + constant + word) in
    let s0 = bit_xor (bit_xor (rotr32 v.a 2) (rotr32 v.a 13)) (rotr32 v.a 22) in
    let maj = bit_xor (bit_xor (bit_and v.a v.b) (bit_and v.a v.c)) (bit_and v.b v.c) in
    let temp2 = wrap (s0 + maj) in
    record {
      a = wrap (temp1 + temp2);
      b = v.a;
      c = v.b;
      d = v.c;
      e = wrap (v.d + temp1);
      f = v.e;
      g = v.f;
      h = v.g;
    }

unfoldable pub rounds : List ℕ → List ℕ → Working → Working
rounds (k ∷ constants) (w ∷ words) v = rounds constants words (round k w v)
rounds _ _ v = v

unfoldable pub working_of : List ℕ → Working
working_of state = record {
  a = word_at state 0;
  b = word_at state 1;
  c = word_at state 2;
  d = word_at state 3;
  e = word_at state 4;
  f = word_at state 5;
  g = word_at state 6;
  h = word_at state 7;
}

-- `sha256_compress`
unfoldable pub compress : List ℕ → List ℕ → List ℕ
compress state block =
    let v = rounds round_constants (extend 48 (load_words 16 block)) (working_of state) in
    wrap (word_at state 0 + v.a)
    ∷ wrap (word_at state 1 + v.b)
    ∷ wrap (word_at state 2 + v.c)
    ∷ wrap (word_at state 3 + v.d)
    ∷ wrap (word_at state 4 + v.e)
    ∷ wrap (word_at state 5 + v.f)
    ∷ wrap (word_at state 6 + v.g)
    ∷ wrap (word_at state 7 + v.h)
    ∷ []
