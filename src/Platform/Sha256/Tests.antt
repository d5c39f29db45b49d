-- ===== src/Platform/Sha256/Tests.antt =====
-- The digest of a known text, in pieces.
use usb_sentinel.Prelude.{◌≡◌, refl, [], ◌∷◌, codes}
use usb_sentinel.Platform.Sha256.{
  init, update, final, whole_blocks, run_blocks, top_up, zeros, be64, word_bytes, last_state,
}
use usb_sentinel.Platform.Sha256.Digest.{update_all, sha256, final-sha256, concat}
use usb_sentinel.Platform.Sha256.Compress.{
  compress, rounds, round, extend, load_words, working_of, rotr32,
}

-- The example of FIPS 180-4 for the text abc.
known :
    final (update (update init (codes "a")) (codes "bc"))
    ≡ word_bytes (
        0xba7816bf ∷ 0x8f01cfea ∷ 0x414140de ∷ 0x5dae2223 ∷ 0xb00361a3 ∷ 0x96177a9c ∷ 0xb410ff61
        ∷ 0xf20015ad ∷ [])
unfolding init update final whole_blocks run_blocks top_up zeros be64 word_bytes last_state compress
    rounds round extend load_words working_of rotr32
known = refl

final-sha256_example : final (update_all init (codes "a" ∷ codes "bc" ∷ [])) ≡ sha256 (codes "abc")
unfolding concat
final-sha256_example = final-sha256 (codes "a" ∷ codes "bc" ∷ [])
