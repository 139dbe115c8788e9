-- ===== src/Rdt/Context/Metadata.antt =====
-- The metadata of START is read back as it was written, and wire ids have 32 bits.
use hybrid_ftp_socket.Prelude.{
  ℕ, ◌+◌, ◌*◌, ◌^◌, ◌<◌, ◌≤◌, Bytes, true, Option, some, ◌⊎◌, List, [], ◌∷◌, ◌++◌, ltb, ◌≡◌, refl,
  ltb→lt, arith, subst, take, All, zero, suc,
}
use native.Mathlib.Nat.{mul-le-mul_left, mul-le-mul_right, one-le-pow, pow-suc}
use hybrid_ftp_socket.Prelude.Text.{strip, upper}
use hybrid_ftp_socket.Prelude.Outcome.{ok, value_error, struct_error, guard, guard-ok, >>=-eq-ok}
use hybrid_ftp_socket.Rdt.Context.{
  is_mode, is_type, is_mode_text, is_type_text, u64, u64_at, size_or_zero, encode_start_metadata,
  decode_start_metadata, PublicId, text, number, hex_digit, hex_value, normalize_transfer_id,
}

-- A text that passes the test is one letter that does.
one_mode : (s : List ℕ) → is_mode_text s ≡ true → (c : ℕ) × (s ≡ c ∷ []) × (is_mode c ≡ true)
unfolding is_mode_text
one_mode [] h = cc
one_mode (c ∷ []) h = (c, refl, h)
one_mode (c ∷ d ∷ s) h = cc

one_type : (s : List ℕ) → is_type_text s ≡ true → (c : ℕ) × (s ≡ c ∷ []) × (is_type c ≡ true)
unfolding is_type_text
one_type [] h = cc
one_type (c ∷ []) h = (c, refl, h)
one_type (c ∷ d ∷ s) h = cc

join64 : (n : ℕ) (rest : Bytes) → n < 2 ^ 64 → u64_at (u64 n ++ rest) 0 ≡ n
unfolding u64 u64_at
join64 n rest h = omega arith

-- What decodes a size followed by two good letters.
decode_letters :
    (n m t : ℕ)
    → n < 2 ^ 64
    → is_mode m ≡ true
    → is_type t ≡ true
    → decode_start_metadata (u64 n ++ m ∷ t ∷ []) ≡ ok (n, some m, some t)
unfolding decode_start_metadata u64
decode_letters n m t h hm ht = ground (arith, join64 n (m ∷ t ∷ []) h)

-- Whatever `encode_start_metadata` returns is decoded to the size that was given (0 for none) and
-- the stripped upper-case letters of the mode and the type.
pub decode-encode_start_metadata :
    (total_bytes : Option ℕ) (transfer_mode transfer_type : List ℕ) {payload : Bytes}
    → encode_start_metadata total_bytes transfer_mode transfer_type ≡ ok payload
    → (m : ℕ) × (t : ℕ) × (upper (strip transfer_mode) ≡ m ∷ [])
      × (upper (strip transfer_type) ≡ t ∷ [])
      × (decode_start_metadata payload ≡ ok (size_or_zero total_bytes, some m, some t))
unfolding encode_start_metadata
decode-encode_start_metadata total_bytes transfer_mode transfer_type e =
    let (_, fm, e₁) =
      >>=-eq-ok (guard (is_mode_text (upper (strip transfer_mode))) value_error) _ e in
    let (_, ft, e₂) =
      >>=-eq-ok (guard (is_type_text (upper (strip transfer_type))) value_error) _ e₁ in
    let (_, fn, e₃) =
      >>=-eq-ok (guard (ltb (size_or_zero total_bytes) (2 ^ 64)) struct_error) _ e₂ in
    let (m, pm, hm) = one_mode (upper (strip transfer_mode)) (guard-ok _ _ fm) in
    let (t, pt, ht) = one_type (upper (strip transfer_type)) (guard-ok _ _ ft) in
    (
      m,
      t,
      pm,
      pt,
      subst (λ (b : Bytes). decode_start_metadata b ≡ ok (size_or_zero total_bytes, some m, some t))
          (cc (pm, pt, e₃)) (decode_letters _ m t (ltb→lt _ _ (guard-ok _ _ fn)) hm ht),
    )

-- Hexadecimal digits as `hexdigest` writes them.
abbrev pub IsHex : ℕ → Type 0
IsHex c = ((b'0' ≤ c) × (c ≤ b'9')) ⊎ ((b'a' ≤ c) × (c ≤ b'f'))

hex_digit-lt : (c : ℕ) → IsHex c → hex_digit c < 16
unfolding hex_digit
hex_digit-lt c h = ground arith

hex_value-lt :
    (k acc : ℕ) (digits : List ℕ)
    → All IsHex digits
    → hex_value acc (take k digits) < (acc + 1) * 16 ^ k
unfolding hex_value
hex_value-lt zero acc digits h = omega arith
hex_value-lt (suc k) acc [] h =
    let low : 1 ≤ 16 ^ suc k = one-le-pow (suc k) 16 (omega arith) in
    omega (arith, mul-le-mul_left (acc + 1) low)
hex_value-lt (suc k) acc (c ∷ digits) h =
    let step : (acc * 16 + hex_digit c + 1) * 16 ^ k ≤ (acc * 16 + 16) * 16 ^ k =
      mul-le-mul_right (16 ^ k) (omega (arith, hex_digit-lt c h.0)) in
    rw pow-suc (omega (arith, step, hex_value-lt k (acc * 16 + hex_digit c) digits h.1))

-- A wire id has 32 bits, whether it is the hash of a public text or a number, if the hash is
-- written in hexadecimal digits.
pub normalize_transfer_id-lt :
    (hexdigest : List ℕ → List ℕ)
    → ((s : List ℕ) → All IsHex (hexdigest s))
    → (value : PublicId) → normalize_transfer_id hexdigest value < 2 ^ 32
unfolding normalize_transfer_id
normalize_transfer_id-lt hexdigest hex (text value) =
    omega (arith, hex_value-lt 8 0 (hexdigest value) (hex value))
normalize_transfer_id-lt hexdigest hex (number value) = omega arith
