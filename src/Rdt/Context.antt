-- ===== src/Rdt/Context.antt =====
-- common/rdt_context.py: the metadata that START carries, and the transfer id on the wire.
-- `hashlib.sha256(...).hexdigest()` is not in the repository: it is the parameter `hexdigest`.
pub mod Metadata
use hybrid_ftp_socket.Prelude.{
  ℕ, ◌+◌, ◌*◌, ◌-◌, ◌/◌, ◌%◌, ◌^◌, ◌<◌, Bytes, Bool, true, false, ◌&&◌, ◌||◌, not, Option, none,
  some, List, [], ◌∷◌, ◌++◌, ltb, leb, ◌==◌, if◌then◌else◌, length, get_or, take,
}
use hybrid_ftp_socket.Prelude.Text.{strip, upper}
use hybrid_ftp_socket.Prelude.Outcome.{
  Result, ok, err, value_error, struct_error, guard, ◌>>=◌, ◌>>◌,
}
use hybrid_ftp_socket.Rdt.Header.{u32, u32_at}

-- `mode in ("S", "B", "C")` and `representation in ("A", "I")`
unfoldable pub is_mode : ℕ → Bool
is_mode c = c == b'S' || c == b'B' || c == b'C'

unfoldable pub is_type : ℕ → Bool
is_type c = c == b'A' || c == b'I'

unfoldable pub is_mode_text : List ℕ → Bool
is_mode_text [] = false
is_mode_text (c ∷ []) = is_mode c
is_mode_text (c ∷ d ∷ s) = false

unfoldable pub is_type_text : List ℕ → Bool
is_type_text [] = false
is_type_text (c ∷ []) = is_type c
is_type_text (c ∷ d ∷ s) = false

-- `Q` of `struct`, in network order.
unfoldable pub u64 : ℕ → Bytes
u64 n = u32 (n / 2 ^ 32) ++ u32 (n % 2 ^ 32)

unfoldable pub u64_at : Bytes → ℕ → ℕ
u64_at b i = u32_at b i * 2 ^ 32 + u32_at b (i + 4)

-- `total_bytes if total_bytes is not None else 0`
abbrev pub size_or_zero : Option ℕ → ℕ
size_or_zero none = 0
size_or_zero (some n) = n

unfoldable pub encode_start_metadata : Option ℕ → List ℕ → List ℕ → Result Bytes
encode_start_metadata total_bytes transfer_mode transfer_type = do
  let mode = upper (strip transfer_mode)
  let representation = upper (strip transfer_type)
  guard (is_mode_text mode) value_error
  guard (is_type_text representation) value_error
  guard (ltb (size_or_zero total_bytes) (2 ^ 64)) struct_error
  ok (u64 (size_or_zero total_bytes) ++ (mode ++ representation))

-- The size, and the letters of the mode and the type unless the metadata is of the older form.
unfoldable pub decode_start_metadata : Bytes → Result (ℕ × Option ℕ × Option ℕ)
decode_start_metadata payload =
    if length payload == 8
    then ok (u64_at payload 0, none, none)
    else if not (length payload == 10)
    then err value_error
    else if is_mode (get_or payload 8 0) && is_type (get_or payload 9 0)
    then ok (u64_at payload 0, some (get_or payload 8 0), some (get_or payload 9 0))
    else err value_error

-- A public transfer id is a text or a number.
pub data PublicId : Type 0 where
  text : List ℕ → PublicId
  number : ℕ → PublicId

-- The value of a lower-case hexadecimal digit.
unfoldable pub hex_digit : ℕ → ℕ
hex_digit c = if leb b'a' c then c - b'a' + 10 else c - b'0'

-- `int(digits, 16)`
unfoldable pub hex_value : ℕ → List ℕ → ℕ
hex_value acc [] = acc
hex_value acc (c ∷ digits) = hex_value (acc * 16 + hex_digit c) digits

unfoldable pub normalize_transfer_id : (List ℕ → List ℕ) → PublicId → ℕ
unfolding hex_value
normalize_transfer_id hexdigest (text value) = hex_value 0 (take 8 (hexdigest value))
normalize_transfer_id hexdigest (number value) = value % 2 ^ 32
