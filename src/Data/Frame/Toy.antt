-- ===== src/Data/Frame/Toy.antt =====
-- Concrete stand-ins for the crates that the data frames use, for the examples. They meet the
-- laws of Data/Crates; the cipher appends an empty tag and hides nothing.
use flip_flop_protocol.Common.{
  ℕ, ◌+◌, ◌-◌, ◌%◌, ◌==◌, ◌≤◌, ◌≡◌, arith, Option, none, some, List, [], ◌∷◌, ◌++◌, length,
  length-append, length-take, take, take-append, drop, All-append, leb, if◌then◌else◌,
}
use flip_flop_protocol.Common.Words.{IsByte}
use flip_flop_protocol.Common.Result.{Result, ok, err}
use flip_flop_protocol.Data.Crates.{Cipher, IsAead, Extend, IsExtend, Codec, IsCodec}
use flip_flop_protocol.Data.Frame.{DataFrame, IsFrame, frame_bytes, mic_size}

abbrev pub toy_extend : Extend
toy_extend capacity v s = if leb (length v + length s) capacity then some (v ++ s) else none

pub toy_extend-IsExtend : IsExtend toy_extend
toy_extend-IsExtend = record {
  extend_fits = λ capacity v s h. ground arith;
  extend_full = λ capacity v s h. ground arith;
}

-- Four zero bytes.
abbrev toy_tag : List ℕ
toy_tag = 0 ∷ 0 ∷ 0 ∷ 0 ∷ []

abbrev pub toy_cipher : Cipher
toy_cipher = record {
  encrypt_in_place = λ nonce aad capacity text.
      if leb (length text + mic_size) capacity then some (text ++ toy_tag) else none;
  decrypt_in_place = λ nonce aad capacity text.
      if leb mic_size (length text) then some (take (length text - mic_size) text) else none;
}

toy_decrypt : (text : List ℕ) → take (length (text ++ toy_tag) - mic_size) (text ++ toy_tag) ≡ text
toy_decrypt text =
    let same : length (text ++ toy_tag) - mic_size ≡ length text =
      omega (arith, length-append text toy_tag) in
    rw same (take-append text toy_tag)

pub toy_cipher-IsAead : IsAead mic_size toy_cipher
toy_cipher-IsAead = record {
  sealed = λ nonce aad text. text ++ toy_tag;
  length-sealed = λ nonce aad text. length-append text toy_tag;
  sealed-IsByte = λ nonce aad text h. All-append IsByte text toy_tag h (omega arith);
  encrypt-sealed = λ nonce aad capacity text h. ground arith;
  encrypt_no_room = λ nonce aad capacity text h. ground arith;
  decrypt-sealed =
      λ nonce aad capacity text h. ground (arith, length-append text toy_tag, toy_decrypt text);
}

-- A cipher that opens only what was sealed under its own number.
abbrev open_tagged : ℕ → List ℕ → Option (List ℕ)
open_tagged n (t ∷ a ∷ b ∷ c ∷ text) = if t == n then some text else none
open_tagged n _ = none

abbrev tagged : ℕ → List ℕ → List ℕ
tagged n text = n ∷ 0 ∷ 0 ∷ 0 ∷ text

abbrev pub numbered_cipher : ℕ → Cipher
numbered_cipher n = record {
  encrypt_in_place = λ nonce aad capacity text.
      if leb (length text + mic_size) capacity then some (tagged n text) else none;
  decrypt_in_place = λ nonce aad capacity text. open_tagged n text;
}

pub numbered_cipher-IsAead : (n : ℕ) → IsByte n → IsAead mic_size (numbered_cipher n)
numbered_cipher-IsAead n small = record {
  sealed = λ nonce aad text. tagged n text;
  length-sealed = λ nonce aad text. omega arith;
  sealed-IsByte = λ nonce aad text h. (small, (omega arith, (omega arith, (omega arith, h))));
  encrypt-sealed = λ nonce aad capacity text h. ground arith;
  encrypt_no_room = λ nonce aad capacity text h. ground arith;
  decrypt-sealed = λ nonce aad capacity text h. ground arith;
}

-- The cipher of a key: of the number that its first byte gives.
abbrev pub keyed_cipher : List ℕ → Cipher
keyed_cipher [] = numbered_cipher 0
keyed_cipher (k ∷ key) = numbered_cipher (k % 256)

pub keyed_cipher-IsAead : (key : List ℕ) → IsAead mic_size (keyed_cipher key)
keyed_cipher-IsAead [] = numbered_cipher-IsAead 0 (omega arith)
keyed_cipher-IsAead (k ∷ key) = numbered_cipher-IsAead (k % 256) (omega arith)

-- A value is written if it fits.
abbrev pub write_prefix : List ℕ → List ℕ → Option (List ℕ)
write_prefix bytes buf =
    if leb (length bytes) (length buf) then some (bytes ++ drop (length bytes) buf) else none

abbrev pub read_frame : List ℕ → Result (Unit {0}) DataFrame
read_frame (a ∷ b ∷ c ∷ d ∷ n ∷ rest) =
    if leb n (length rest)
    then ok (record { header = (a, b, c, d); encrypted_payload = take n rest })
    else err tt
read_frame _ = err tt

abbrev pub toy_frames : Codec (Unit {0}) DataFrame
toy_frames = record {
  to_slice = λ f. write_prefix (frame_bytes f);
  to_vec =
      λ f capacity. if leb (length (frame_bytes f)) capacity then some (frame_bytes f) else none;
  from_bytes = read_frame;
}

pub toy_frames-IsCodec : IsCodec toy_frames IsFrame frame_bytes
toy_frames-IsCodec = record {
  to_slice_fits = λ f buf v h. ground arith;
  to_slice_full = λ f buf v h. ground arith;
  to_vec_fits = λ f capacity v h. ground arith;
  from_bytes-append = λ f rest v.
      ground (arith, length-append f.encrypted_payload rest, take-append f.encrypted_payload rest);
}

pub toy_frames-IsBorrowed :
    (buf : List ℕ) (f : DataFrame)
    → toy_frames.from_bytes buf ≡ ok f
    → length f.encrypted_payload ≤ length buf
toy_frames-IsBorrowed [] f e = absurd (ground arith)
toy_frames-IsBorrowed (a ∷ []) f e = absurd (ground arith)
toy_frames-IsBorrowed (a ∷ b ∷ []) f e = absurd (ground arith)
toy_frames-IsBorrowed (a ∷ b ∷ c ∷ []) f e = absurd (ground arith)
toy_frames-IsBorrowed (a ∷ b ∷ c ∷ d ∷ []) f e = absurd (ground arith)
toy_frames-IsBorrowed (a ∷ b ∷ c ∷ d ∷ n ∷ rest) f e = ground (arith, length-take n rest)
