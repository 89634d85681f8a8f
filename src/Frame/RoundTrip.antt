-- ===== src/Frame/RoundTrip.antt =====
-- Encoding and decoding a frame undo each other.
use relay_term.Prelude.{
  ℕ, ◌+◌, ◌≤◌, ◌<◌, ◌^◌, ◌≡◌, refl, ap, ◌∙◌, sym, true, some, List, [], ◌∷◌, ◌++◌, arith, length,
  length-append, take, drop, take-append_exact, drop-append_exact, drop-drop,
}
use relay_term.Frame.Bytes.{be_bytes, from_be_bytes, length-be_bytes, from_be_bytes-be_bytes}
use relay_term.Frame.{
  BinaryFrameKind, BinaryFrame, output, input, ok, magic_v1, header_len, max_payload_len, from_u8,
  as_u8, slice, byte_at, same_bytes, with_kind, encode_binary_frame, decode_binary_frame,
}

from_u8-as_u8 : (k : BinaryFrameKind) → from_u8 (as_u8 k) ≡ some k
unfolding from_u8 as_u8
from_u8-as_u8 output = refl
from_u8-as_u8 input = refl

-- A buffer that passes every test comes to the kind byte.
decode_passes :
    (buf : List ℕ)
    → header_len ≤ length buf
    → same_bytes (slice 0 4 buf) magic_v1 ≡ true
    → byte_at 5 buf ≡ 0
    → from_be_bytes (slice 6 8 buf) ≡ 0
    → from_be_bytes (slice 16 20 buf) ≤ max_payload_len
    → length buf ≡ header_len + from_be_bytes (slice 16 20 buf)
    → decode_binary_frame buf
      ≡ with_kind buf (from_be_bytes (slice 8 16 buf)) (from_u8 (byte_at 4 buf))
unfolding decode_binary_frame
decode_passes buf a b c d e f = ground arith

pub two_zeros : from_be_bytes (0 ∷ 0 ∷ []) ≡ 0
unfolding from_be_bytes
two_zeros = refl

-- A buffer with a good magic and zero reserved bytes, by its kind byte, sequence bytes, length bytes
-- and payload.
abbrev pub layout : ℕ → List ℕ → List ℕ → List ℕ → List ℕ
layout k s l p = magic_v1 ++ k ∷ 0 ∷ 0 ∷ 0 ∷ (s ++ (l ++ p))

module _ (k : ℕ) (s l p : List ℕ) (hs : length s ≡ 8) (hl : length l ≡ 4) where
  seq_slice : slice 8 16 (layout k s l p) ≡ s
  seq_slice = take-append_exact 8 s (l ++ p) hs

  past_seq : drop 16 (layout k s l p) ≡ l ++ p
  past_seq = drop-append_exact 8 s (l ++ p) hs

  pub len_slice : slice 16 20 (layout k s l p) ≡ l
  len_slice = ap (take 4) past_seq ∙ take-append_exact 4 l p hl

  past_len : drop 20 (layout k s l p) ≡ p
  past_len =
      sym (drop-drop 4 16 (layout k s l p)) ∙ ap (drop 4) past_seq ∙ drop-append_exact 4 l p hl

  pub length-layout : length (layout k s l p) ≡ 20 + length p
  length-layout = omega (arith, length-append s (l ++ p), length-append l p)

  pub magic_ok : same_bytes (slice 0 4 (layout k s l p)) magic_v1 ≡ true
  unfolding same_bytes
  magic_ok = refl

  decode-layout :
      from_be_bytes l ≡ length p
      → length p ≤ max_payload_len
      → decode_binary_frame (layout k s l p)
        ≡ with_kind (layout k s l p) (from_be_bytes s) (from_u8 k)
  decode-layout e h =
      decode_passes (layout k s l p) (omega (arith, length-layout)) magic_ok refl two_zeros
        (rw (len_slice, e) h) (rw (len_slice, e) length-layout)
      ∙ rw seq_slice

pub encode-layout :
    (kind : BinaryFrameKind) (seq : ℕ) (payload : List ℕ)
    → length payload ≤ max_payload_len
    → encode_binary_frame kind seq payload
      ≡ ok (layout (as_u8 kind) (be_bytes 8 seq) (be_bytes 4 (length payload)) payload)
unfolding encode_binary_frame
encode-layout kind seq payload h = ground arith

-- A payload within the cap and a 64-bit sequence number are encoded, and the decoder reads the same
-- frame back.
pub decode-encode :
    (f : BinaryFrame)
    → f.seq < 2 ^ 64
    → length f.payload ≤ max_payload_len
    → (buf : List ℕ) × (encode_binary_frame f.kind f.seq f.payload ≡ ok buf)
      × (decode_binary_frame buf ≡ ok f)
unfolding with_kind
decode-encode f h small =
    let s = be_bytes 8 f.seq in
    let l = be_bytes 4 (length f.payload) in
    let hs = length-be_bytes 8 f.seq in
    let hl = length-be_bytes 4 (length f.payload) in
    (
      layout (as_u8 f.kind) s l f.payload,
      encode-layout f.kind f.seq f.payload small,
      decode-layout (as_u8 f.kind) s l f.payload hs hl
            (from_be_bytes-be_bytes 4 (length f.payload) (omega arith)) small
          ∙ rw (
            from_u8-as_u8,
            from_be_bytes-be_bytes 8 f.seq h,
            past_len (as_u8 f.kind) s l f.payload hs hl,
          ),
    )

-- What a buffer that is decoded looks like.
pub record Decoded (buf : List ℕ) (f : BinaryFrame) : Type 0 where
  pub enough : header_len ≤ length buf
  pub magic : same_bytes (slice 0 4 buf) magic_v1 ≡ true
  pub flags : byte_at 5 buf ≡ 0
  pub reserved : from_be_bytes (slice 6 8 buf) ≡ 0
  pub capped : from_be_bytes (slice 16 20 buf) ≤ max_payload_len
  pub exact : length buf ≡ header_len + from_be_bytes (slice 16 20 buf)
  pub kind : from_u8 (byte_at 4 buf) ≡ some f.kind
  pub seq : f.seq ≡ from_be_bytes (slice 8 16 buf)
  pub payload : f.payload ≡ drop header_len buf

pub decode-Decoded :
    (buf : List ℕ) (f : BinaryFrame) → decode_binary_frame buf ≡ ok f → Decoded buf f
unfolding decode_binary_frame with_kind
decode-Decoded buf f e = ground arith
