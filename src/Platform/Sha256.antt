-- ===== src/Platform/Sha256.antt =====
-- src/platform/sha256.h and src/platform/sha256.c: SHA-256 over pieces. A word is a number below 2 ^ 32.
pub mod Compress
pub mod Blocks
pub mod Streaming
pub mod Digest
mod Tests
use usb_sentinel.Prelude.{
  ℕ, zero, suc, ◌+◌, ◌-◌, ◌*◌, ◌/◌, ◌%◌, ◌^◌, List, [], ◌∷◌, ◌++◌, take, drop, ltb, leb, ◌==◌,
  if◌then◌else◌, length, Bool,
}
use usb_sentinel.Platform.Sha256.Compress.{compress, word_at}

-- `usbs_sha256_t`. `buffer` holds the bytes that count, and `buffered` is its length.
pub record Sha256 : Type 0 where
  pub state : List ℕ
  pub bit_count : ℕ
  pub buffer : List ℕ

-- `usbs_sha256_init`
unfoldable pub init : Sha256
init = record {
  state =
      0x6a09e667 ∷ 0xbb67ae85 ∷ 0x3c6ef372 ∷ 0xa54ff53a ∷ 0x510e527f ∷ 0x9b05688c ∷ 0x1f83d9ab
      ∷ 0x5be0cd19 ∷ [];
  bit_count = 0;
  buffer = [];
}

-- The loop over whole blocks: the state, and what is left of the data. The fuel bounds the rounds.
unfoldable pub whole_blocks : ℕ → List ℕ → List ℕ → List ℕ × List ℕ
whole_blocks zero state bytes = (state, bytes)
whole_blocks (suc f) state bytes =
    let more = whole_blocks f (compress state (take 64 bytes)) (drop 64 bytes) in
    if leb 64 (length bytes) then more else (state, bytes)

-- The end of the update: the whole blocks, and the remainder in the buffer, where there is one.
unfoldable pub run_blocks : List ℕ → List ℕ → List ℕ → List ℕ × List ℕ
run_blocks state buffer bytes =
    let (state', rest) = whole_blocks (length bytes) state bytes in
    (state', if ltb 0 (length rest) then rest else buffer)

-- The first step of the update, where the buffer holds bytes: it is topped up, and compressed where it is
-- full.
unfoldable pub top_up : List ℕ → List ℕ → List ℕ → List ℕ × List ℕ × List ℕ
top_up state buffer bytes =
    let need = 64 - length buffer in
    let filled = buffer ++ take need bytes in
    if length filled == 64
    then (compress state filled, [], drop need bytes)
    else (state, filled, drop need bytes)

-- `usbs_sha256_update`, of a context and data that are not NULL
unfoldable pub update : Sha256 → List ℕ → Sha256
update ctx bytes =
    let (state, buffer, rest) =
      if ltb 0 (length ctx.buffer)
      then top_up ctx.state ctx.buffer bytes
      else (ctx.state, ctx.buffer, bytes) in
    let (state', buffer') = run_blocks state buffer rest in
    record {
      state = state';
      bit_count = (ctx.bit_count + length bytes * 8) % 2 ^ 64;
      buffer = buffer';
    }

-- `memset(p, 0, n)`
unfoldable pub zeros : ℕ → List ℕ
zeros zero = []
zeros (suc n) = 0 ∷ zeros n

-- The count in eight bytes, the highest first
unfoldable pub be64 : ℕ → List ℕ
be64 n =
    (n / 2 ^ 56 % 256)
    ∷ (n / 2 ^ 48 % 256)
    ∷ (n / 2 ^ 40 % 256)
    ∷ (n / 2 ^ 32 % 256)
    ∷ (n / 2 ^ 24 % 256)
    ∷ (n / 2 ^ 16 % 256)
    ∷ (n / 2 ^ 8 % 256)
    ∷ (n % 256)
    ∷ []

unfoldable pub word_bytes : List ℕ → List ℕ
word_bytes [] = []
word_bytes (s ∷ state) =
    (s / 2 ^ 24 % 256) ∷ (s / 2 ^ 16 % 256) ∷ (s / 2 ^ 8 % 256) ∷ (s % 256) ∷ word_bytes state

-- The padding of `usbs_sha256_final`, and the state behind its last block.
unfoldable pub last_state : Sha256 → List ℕ
last_state ctx =
    let marked = ctx.buffer ++ (0x80 ∷ []) in
    let (state, buffer) =
      if ltb 56 (length marked)
      then (compress ctx.state (marked ++ zeros (64 - length marked)), [])
      else (ctx.state, marked) in
    compress state ((buffer ++ zeros (56 - length buffer)) ++ be64 ctx.bit_count)

-- `usbs_sha256_final`: the digest. The context is all zero behind it.
unfoldable pub final : Sha256 → List ℕ
final ctx = word_bytes (last_state ctx)
