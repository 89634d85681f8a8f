-- ===== src/Frame/Tests.antt =====
-- Frames on the wire, and the codec's theorems at them.
use relay_term.Prelude.{ℕ, ◌+◌, ◌≤◌, ◌<◌, ◌^◌, ◌≡◌, refl, List, [], ◌∷◌, ◌++◌, arith, length}
use relay_term.Frame.Bytes.{be_bytes, be_from, from_be_bytes}
use relay_term.Frame.{
  BinaryFrame, output, ok, err, non_zero_reserved, header_len, max_payload_len, from_u8, as_u8,
  same_bytes, with_kind, encode_binary_frame, decode_binary_frame,
}
use relay_term.Frame.RoundTrip.{decode-encode}
use relay_term.Frame.Canonical.{encode-decode, decode_bounds}

abbrev hello : BinaryFrame
hello = record { kind = output; seq = 258; payload = b'h' ∷ b'i' ∷ [] }

abbrev hello_bytes : List ℕ
hello_bytes =
    0x52 ∷ 0x54 ∷ 0x42 ∷ 0x31 ∷ 1 ∷ 0 ∷ 0 ∷ 0 ∷ 0 ∷ 0 ∷ 0 ∷ 0 ∷ 0 ∷ 0 ∷ 1 ∷ 2 ∷ 0 ∷ 0 ∷ 0 ∷ 2 ∷ b'h'
    ∷ b'i' ∷ []

encode_hello : encode_binary_frame output 258 hello.payload ≡ ok hello_bytes
unfolding encode_binary_frame be_bytes as_u8
encode_hello = refl

decode_hello : decode_binary_frame hello_bytes ≡ ok hello
unfolding decode_binary_frame be_from from_be_bytes from_u8 same_bytes with_kind
decode_hello = refl

-- The decoder refuses a frame whose flags byte or reserved bytes are not zero.
flags_refused :
    decode_binary_frame
      (0x52 ∷ 0x54 ∷ 0x42 ∷ 0x31 ∷ 1 ∷ 1 ∷ 0 ∷ 0 ∷ (be_bytes 8 1 ++ (be_bytes 4 0 ++ [])))
    ≡ err non_zero_reserved
unfolding decode_binary_frame be_bytes be_from from_be_bytes from_u8 same_bytes with_kind
flags_refused = refl

decode-encode_example :
    (buf : List ℕ) × (encode_binary_frame output 258 hello.payload ≡ ok buf)
    × (decode_binary_frame buf ≡ ok hello)
decode-encode_example = decode-encode hello (omega arith) (omega arith)

encode-decode_example : encode_binary_frame output 258 hello.payload ≡ ok hello_bytes
encode-decode_example = encode-decode hello_bytes hello (omega arith) decode_hello

decode_bounds_example :
    (258 < 2 ^ 64)
    × (length hello.payload ≤ max_payload_len)
    × (length hello_bytes ≡ header_len + length hello.payload)
decode_bounds_example = decode_bounds hello_bytes hello (omega arith) decode_hello
