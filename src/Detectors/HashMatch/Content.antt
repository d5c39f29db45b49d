-- ===== src/Detectors/HashMatch/Content.antt =====
-- What is hashed of a file.
use usb_sentinel.Prelude.{
  ℕ, ◌≡◌, refl, ◌∙◌, ap, inl, inr, List, [], ◌∷◌, ◌==◌, if◌then◌else◌, length, take, Bool-cases,
}
use usb_sentinel.Detectors.HashMatch.OnFile.{read_chunk, hash_loop, hex_of}
use usb_sentinel.Platform.{Reads, finished, breaks, chunk}
use usb_sentinel.Platform.Sha256.{Sha256, init, update, final}
use usb_sentinel.Platform.Sha256.Digest.{update_all, sha256, concat, final-sha256}

-- What the reads give until the end of the file, or until one of them fails
unfoldable pub pieces : Reads → List (List ℕ)
pieces finished = []
pieces (breaks status) = []
pieces (chunk bytes rest) =
    let got = take read_chunk bytes in
    let more = pieces rest in if length got == 0 then [] else got ∷ more

abbrev pub content : Reads → List ℕ
content reads = concat (pieces reads)

hash_loop-update_all :
    (reads : Reads) (ctx : Sha256) → hash_loop reads ctx ≡ update_all ctx (pieces reads)
unfolding hash_loop pieces update_all
hash_loop-update_all finished ctx = refl
hash_loop-update_all (breaks status) ctx = refl
hash_loop-update_all (chunk bytes rest) ctx =
    elim (Bool-cases (length (take read_chunk bytes) == 0)) [
      | inl over ↦ simp (over) refl
      | inr some_bytes ↦
          simp (some_bytes) (hash_loop-update_all rest (update ctx (take read_chunk bytes)))
    ]

-- The hash in hexadecimal
pub hash_loop-content :
    (reads : Reads) → hex_of (final (hash_loop reads init)) ≡ hex_of (sha256 (content reads))
hash_loop-content reads =
    ap (λ c. hex_of (final c)) (hash_loop-update_all reads init)
    ∙ ap hex_of (final-sha256 (pieces reads))
