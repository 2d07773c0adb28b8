-- ===== src/Data/Frame/Errors.antt =====
-- data/src/lib.rs: what `from_datagram` has checked when it returns, in which order it refuses,
-- and when `to_datagram` panics.
use flip_flop_protocol.Common.{
  ℕ, ◌+◌, ◌-◌, ◌≤◌, ◌<◌, ◌≡◌, ◌↔◌, ◌⊎◌, inl, inr, arith, Bool, true, false, some, List, [], max,
  length, All, Option-cases,
}
use flip_flop_protocol.Common.Words.{IsByte}
use flip_flop_protocol.Common.Result.{Result-cases, ok, err}
use flip_flop_protocol.Common.Outcome.{panics}
use flip_flop_protocol.Data.Crates.{Cipher, IsAead, Extend, IsExtend, Codec, IsCodec}
use flip_flop_protocol.Data.Header.{Header, to_packed, parse}
use flip_flop_protocol.Data.Frame.{
  DataFrame, IsFrame, filter_does_not_match, frame_bytes, header_bytes, new_nonce, mic_size,
}
use flip_flop_protocol.Data.Frame.Decode.{from_datagram, decrypt_payload}
use flip_flop_protocol.Data.Frame.Encode.{to_datagram}
use flip_flop_protocol.Data.Frame.RoundTrip.{sealed_frame, sealed_frame-IsFrame, to_datagram_fits}
use native.Mathlib.Decide.{dec_lt}

module _ {E : Type 0} (frames : Codec E DataFrame) (cipher : Cipher) where
  -- The checks of `from_datagram`, in order, on the frame that was read.
  pub record Accepts (buf : List ℕ) (filter : Header → Bool) (h : Header) (text : List ℕ)
      : Type 0 where
    pub frame : DataFrame
    pub reads : frames.from_bytes buf ≡ ok frame
    pub parses : parse frame.header ≡ some h
    pub passes : filter h ≡ true
    pub decrypts :
        cipher.decrypt_in_place
          (new_nonce frame.header (max (length frame.encrypted_payload) mic_size - mic_size))
          (header_bytes frame.header)
          (length buf)
          frame.encrypted_payload
        ≡ some text

module _ {E : Type 0} (frames : Codec E DataFrame) where
  -- A frame was read whose header parses and is not let through.
  pub record IsFiltered (buf : List ℕ) (filter : Header → Bool) : Type 0 where
    pub frame : DataFrame
    pub header : Header
    pub reads : frames.from_bytes buf ≡ ok frame
    pub parses : parse frame.header ≡ some header
    pub fails : filter header ≡ false

-- A deserialised slice is borrowed from the datagram, so it is no longer than that.
abbrev pub IsBorrowed : {E : Type 0} → Codec E DataFrame → Type 0
IsBorrowed frames =
    (buf : List ℕ) (f : DataFrame)
    → frames.from_bytes buf ≡ ok f
    → length f.encrypted_payload ≤ length buf

module _ {E : Type 0} (frames : Codec E DataFrame) (borrowed : IsBorrowed frames) {extend : Extend}
    (vectors : IsExtend extend) (cipher : Cipher) where
  decrypt_payload-eq_ok :
      (n : ℕ) (f : DataFrame) (text : List ℕ)
      → length f.encrypted_payload ≤ n
      → (decrypt_payload frames extend cipher n f ≡ ok text) ↔ (
          cipher.decrypt_in_place
            (new_nonce f.header (max (length f.encrypted_payload) mic_size - mic_size))
            (header_bytes f.header)
            n
            f.encrypted_payload
          ≡ some text)
  unfolding decrypt_payload
  decrypt_payload-eq_ok n f text fits =
      rw (vectors.extend_fits n [] f.encrypted_payload (omega arith)) (ground arith)

  read_cases :
      (buf : List ℕ)
      → ((f : DataFrame) × (frames.from_bytes buf ≡ ok f))
        ⊎ ((e : E) × (frames.from_bytes buf ≡ err e))
  read_cases buf = Result-cases (frames.from_bytes buf)

  -- `from_datagram` returns a header and a payload exactly when the four checks pass: a frame is
  -- read, its header parses, the filter lets that header through, and the payload decrypts to the
  -- returned one under the nonce and the data of the frame's own header.
  pub from_datagram-ok_iff :
      (buf : List ℕ) (filter : Header → Bool) (h : Header) (text : List ℕ)
      → (from_datagram frames extend cipher buf filter ≡ ok (h, text))
        ↔ Accepts frames cipher buf filter h text
  unfolding from_datagram
  from_datagram-ok_iff buf filter h text = (sound (read_cases buf), complete)
    where
      sound :
          ((f : DataFrame) × (frames.from_bytes buf ≡ ok f))
            ⊎ ((e : E) × (frames.from_bytes buf ≡ err e))
          → from_datagram frames extend cipher buf filter ≡ ok (h, text)
          → Accepts frames cipher buf filter h text
      sound (inl (f, r)) e = record {
        frame = f;
        reads = r;
        parses = ground arith;
        passes = ground arith;
        decrypts = (decrypt_payload-eq_ok (length buf) f text (borrowed buf f r)).0 (ground arith);
      }
      sound (inr (x, r)) e = absurd (ground arith)

      complete :
          Accepts frames cipher buf filter h text
          → from_datagram frames extend cipher buf filter ≡ ok (h, text)
      complete a = ground (
        arith,
        a.reads,
        a.parses,
        a.passes,
        (decrypt_payload-eq_ok (length buf) a.frame text (borrowed buf a.frame a.reads)).1
            a.decrypts,
      )

  -- `from_datagram` says that the filter does not match exactly when a frame was read whose header
  -- parses and is not let through.
  pub from_datagram-filter_iff :
      (buf : List ℕ) (filter : Header → Bool)
      → (from_datagram frames extend cipher buf filter ≡ err filter_does_not_match)
        ↔ IsFiltered frames buf filter
  unfolding from_datagram
  from_datagram-filter_iff buf filter = (
    λ e. elim (read_cases buf) [
      | inl (f, r) ↦ elim (Option-cases (parse f.header)) [
        | inl p ↦ absurd (ground arith)
        | inr (h, p) ↦ record { frame = f; header = h; reads = r; parses = p; fails = ground arith }
      ]
      | inr (x, r) ↦ absurd (ground arith)
    ],
    λ a. rw (a.reads, a.parses, a.fails),
  )

module _ {E : Type 0} {frames : Codec E DataFrame} (codec : IsCodec frames IsFrame frame_bytes)
    {extend : Extend} (vectors : IsExtend extend) {cipher : Cipher}
    (aead : IsAead mic_size cipher) where
  to_datagram_too_long :
      (h : Header) (text buf : List ℕ)
      → All IsByte text
      → length text + mic_size < 128
      → length buf < length text + 9
      → to_datagram frames extend cipher h text buf ≡ panics
  unfolding to_datagram
  to_datagram_too_long h text buf bytes short long = elim (dec_lt (length buf) (length text)) [
    | yes copy ↦ rw (vectors.extend_full (length buf) [] text (omega arith))
    | no copy ↦
        rw (vectors.extend_fits (length buf) [] text (omega arith))
          (elim (dec_lt (length buf) (length text + mic_size)) [
            | yes tag ↦ rw (aead.encrypt_no_room nonce aad (length buf) text tag)
            | no tag ↦ rw (aead.encrypt-sealed nonce aad (length buf) text (omega arith)) (
                ground (
                  arith,
                  codec.to_slice_full (sealed_frame codec vectors aead h text) buf
                      (sealed_frame-IsFrame codec vectors aead h text bytes short)
                      (omega (arith, aead.length-sealed nonce aad text)),
                ))
          ])
  ]
    where
      nonce : List ℕ
      nonce = new_nonce (to_packed h) (length text)

      aad : List ℕ
      aad = header_bytes (to_packed h)

  -- On a payload of bytes that leaves room for the tag in the one-byte length, `to_datagram`
  -- panics exactly when the buffer is shorter than the payload and nine bytes more: the header,
  -- the length and the tag.
  pub to_datagram-panics_iff :
      (h : Header) (text buf : List ℕ)
      → All IsByte text
      → length text + mic_size < 128
      → (to_datagram frames extend cipher h text buf ≡ panics) ↔ (length buf < length text + 9)
  to_datagram-panics_iff h text buf bytes short = (
    λ e. elim (dec_lt (length buf) (length text + 9)) [
      | yes long ↦ long
      | no fits ↦
          absurd (
            ground
              (arith, to_datagram_fits codec vectors aead h text buf bytes short (omega arith)))
    ],
    to_datagram_too_long h text buf bytes short,
  )
