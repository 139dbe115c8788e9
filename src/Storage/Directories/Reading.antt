-- ===== src/Storage/Directories/Reading.antt =====
-- The chunks of a file are its bytes, so its hash is the hash of its bytes.
use hybrid_ftp_socket.Prelude.{
  ℕ, zero, suc, ◌≤◌, Bytes, true, [], ◌∷◌, ◌++◌, take, drop, length, length-drop, take-append-drop,
  ◌≡◌, refl, ap, ◌∙◌, arith, ◌⊎◌, inl, inr,
}
use hybrid_ftp_socket.Prelude.Text.{codes}
use hybrid_ftp_socket.Prelude.Numerals.{Text, text_eq}
use hybrid_ftp_socket.Storage.System.{System, done}
use hybrid_ftp_socket.Storage.Directories.{
  next_chunk, chunks_of, updated, read_file_chunks, compute_hash,
}

updated-chunks_of :
    (fuel size : ℕ) (bytes : Bytes)
    → length bytes ≤ fuel
    → updated (chunks_of fuel (suc size) bytes) ≡ bytes
unfolding chunks_of updated next_chunk
updated-chunks_of zero size [] h = refl
updated-chunks_of zero size (b ∷ bytes) h = absurd (omega arith)
updated-chunks_of (suc fuel) size [] h = refl
updated-chunks_of (suc fuel) size (b ∷ bytes) h =
    ap (λ t. b ∷ (take size bytes ++ t))
      (updated-chunks_of fuel size (drop size bytes) (omega (arith, length-drop size bytes)))
    ∙ ap (λ t. b ∷ t) (take-append-drop size bytes)

digest_eq :
    (system : System) (algorithm name : Text) (bytes : Bytes)
    → algorithm ≡ name
    → done (system.hexdigest algorithm (updated (chunks_of (length bytes) 1024 bytes)))
      ≡ done (system.hexdigest name bytes)
digest_eq system algorithm name bytes e =
    ap (λ a. done (system.hexdigest a (updated (chunks_of (length bytes) 1024 bytes)))) e
    ∙ ap (λ t. done (system.hexdigest name t))
        (updated-chunks_of (length bytes) 1023 bytes (omega arith))

-- The hash of a file that is there and can be read is the digest of its bytes, however large it is,
-- for both algorithms.
pub compute_hash_lem :
    (system : System) (disk : system.Disk) (path algorithm : Text) (bytes : Bytes)
    → (algorithm ≡ codes "md5") ⊎ (algorithm ≡ codes "sha256")
    → system.exists disk path ≡ true
    → system.contents disk path ≡ done bytes
    → compute_hash system disk path algorithm ≡ done (system.hexdigest algorithm bytes)
unfolding compute_hash read_file_chunks text_eq
compute_hash_lem system disk path algorithm bytes (inl md5) there read =
    rw (md5, there, read, compute_hash, read_file_chunks)
      (digest_eq system algorithm (codes "md5") bytes md5)
compute_hash_lem system disk path algorithm bytes (inr sha256) there read =
    rw (sha256, there, read, compute_hash, read_file_chunks)
      (digest_eq system algorithm (codes "sha256") bytes sha256)
