-- ===== src/Data/Crates.antt =====
-- The third-party crates that flip-flop-data calls, as interfaces: aead's `AeadInPlace`,
-- heapless's `Vec` and postcard. Each law states documented behaviour that the code relies on.
use flip_flop_protocol.Common.{
  ℕ, ◌+◌, ◌≤◌, ◌<◌, ◌≡◌, Option, none, some, List, ◌++◌, length, drop, All,
}
use flip_flop_protocol.Common.Words.{IsByte}
use flip_flop_protocol.Common.Result.{Result, ok}

-- `AeadInPlace`, over buffers of a given capacity: nonce, associated data, capacity, buffer.
-- `none` is the opaque `aead::Error`.
pub record Cipher : Type 0 where
  pub encrypt_in_place : List ℕ → List ℕ → ℕ → List ℕ → Option (List ℕ)
  pub decrypt_in_place : List ℕ → List ℕ → ℕ → List ℕ → Option (List ℕ)

-- A cipher whose tag is `tag` bytes long: encryption appends the tag if the buffer has room for
-- it and fails if it has not, and decryption under the same nonce and data gives the text back.
pub record IsAead (tag : ℕ) (c : Cipher) : Type 0 where
  pub sealed : List ℕ → List ℕ → List ℕ → List ℕ
  pub length-sealed : (nonce aad text : List ℕ) → length (sealed nonce aad text) ≡ length text + tag
  pub sealed-IsByte :
      (nonce aad text : List ℕ) → All IsByte text → All IsByte (sealed nonce aad text)
  pub encrypt-sealed :
      (nonce aad : List ℕ) (capacity : ℕ) (text : List ℕ)
      → length text + tag ≤ capacity
      → c.encrypt_in_place nonce aad capacity text ≡ some (sealed nonce aad text)
  pub encrypt_no_room :
      (nonce aad : List ℕ) (capacity : ℕ) (text : List ℕ)
      → capacity < length text + tag
      → c.encrypt_in_place nonce aad capacity text ≡ none
  pub decrypt-sealed :
      (nonce aad : List ℕ) (capacity : ℕ) (text : List ℕ)
      → length text + tag ≤ capacity
      → c.decrypt_in_place nonce aad capacity (sealed nonce aad text) ≡ some text

-- `heapless::Vec::extend_from_slice` on a vector of a given capacity: `none` is its error, which
-- leaves the vector as it was.
abbrev pub Extend : Type 0
Extend = ℕ → List ℕ → List ℕ → Option (List ℕ)

pub record IsExtend (extend : Extend) : Type 0 where
  pub extend_fits :
      (capacity : ℕ) (v s : List ℕ)
      → length v + length s ≤ capacity
      → extend capacity v s ≡ some (v ++ s)
  pub extend_full :
      (capacity : ℕ) (v s : List ℕ) → capacity < length v + length s → extend capacity v s ≡ none

-- postcard at one type: `to_slice` writes a prefix of the buffer that it is given, `to_vec`
-- makes a vector of a given capacity, and `from_bytes` does not look past the value.
pub record Codec (E A : Type 0) : Type 0 where
  pub to_slice : A → List ℕ → Option (List ℕ)
  pub to_vec : A → ℕ → Option (List ℕ)
  pub from_bytes : List ℕ → Result E A

pub record IsCodec {E A : Type 0} (c : Codec E A) (IsValue : A → Type 0) (bytes : A → List ℕ)
    : Type 0 where
  pub to_slice_fits :
      (a : A) (buf : List ℕ)
      → IsValue a
      → length (bytes a) ≤ length buf
      → c.to_slice a buf ≡ some (bytes a ++ drop (length (bytes a)) buf)
  pub to_slice_full :
      (a : A) (buf : List ℕ) → IsValue a → length buf < length (bytes a) → c.to_slice a buf ≡ none
  pub to_vec_fits :
      (a : A) (capacity : ℕ)
      → IsValue a
      → length (bytes a) ≤ capacity
      → c.to_vec a capacity ≡ some (bytes a)
  pub from_bytes-append :
      (a : A) (rest : List ℕ) → IsValue a → c.from_bytes (bytes a ++ rest) ≡ ok a
