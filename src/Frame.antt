-- ===== src/Frame.antt =====
-- The binary frame envelope of the terminal data plane, crates/relayterm-protocol/src/binary.rs.
-- A byte is a number below 256, and a buffer is a list of bytes.
pub mod Bytes
pub mod Canonical
pub mod RoundTrip
mod Tests
use relay_term.Prelude.{
  ℕ, ◌+◌, ◌-◌, ◌*◌, Bool, true, false, not, ◌&&◌, ◌||◌, Option, none, some, List, [], ◌∷◌, ◌++◌,
  ltb, ◌==◌, if◌then◌else◌, length, take, drop, get_or,
}
use Bytes.{be_bytes, from_be_bytes}

-- "RTB1".
abbrev pub magic_v1 : List ℕ
magic_v1 = 0x52 ∷ 0x54 ∷ 0x42 ∷ 0x31 ∷ []

abbrev pub header_len : ℕ
header_len = 20

abbrev pub max_payload_len : ℕ
max_payload_len = 1024 * 1024

pub data BinaryFrameKind : Type 0 where
  output input : BinaryFrameKind

unfoldable pub from_u8 : ℕ → Option BinaryFrameKind
from_u8 byte = if byte == 0x01 then some output else if byte == 0x02 then some input else none

unfoldable pub as_u8 : BinaryFrameKind → ℕ
as_u8 output = 0x01
as_u8 input = 0x02

pub record BinaryFrame : Type 0 where
  pub kind : BinaryFrameKind
  pub seq : ℕ
  pub payload : List ℕ

pub data DecodeError : Type 0 where
  truncated_header bad_magic non_zero_reserved payload_too_large length_mismatch unknown_kind :
      DecodeError

pub data Result {ℓ} (A : Type ℓ) : Type ℓ where
  ok : A → Result A
  err : DecodeError → Result A

unfoldable pub encode_binary_frame : BinaryFrameKind → ℕ → List ℕ → Result (List ℕ)
encode_binary_frame kind seq payload =
    if ltb max_payload_len (length payload)
    then err payload_too_large
    else ok (
        magic_v1
        ++ as_u8 kind ∷ 0 ∷ 0 ∷ 0 ∷ (be_bytes 8 seq ++ (be_bytes 4 (length payload) ++ payload)))

-- `buf[i..j]`; the decoder reads only what its length check has found to be there.
abbrev pub slice : ℕ → ℕ → List ℕ → List ℕ
slice i j buf = take (j - i) (drop i buf)

abbrev pub byte_at : ℕ → List ℕ → ℕ
byte_at i buf = get_or buf i 0

unfoldable pub same_bytes : List ℕ → List ℕ → Bool
same_bytes [] [] = true
same_bytes (x ∷ xs) (y ∷ ys) = x == y && same_bytes xs ys
same_bytes _ _ = false

-- The last step: the kind byte, and the payload behind the header.
unfoldable pub with_kind : List ℕ → ℕ → Option BinaryFrameKind → Result BinaryFrame
with_kind buf seq none = err unknown_kind
with_kind buf seq (some kind) =
    ok (record { kind = kind; seq = seq; payload = drop header_len buf })

unfoldable pub decode_binary_frame : List ℕ → Result BinaryFrame
unfolding with_kind
decode_binary_frame buf =
    let flags = byte_at 5 buf in
    let reserved = from_be_bytes (slice 6 8 buf) in
    let seq = from_be_bytes (slice 8 16 buf) in
    let payload_len = from_be_bytes (slice 16 20 buf) in
    if ltb (length buf) header_len
    then err truncated_header
    else if not (same_bytes (slice 0 4 buf) magic_v1)
    then err bad_magic
    else if not (flags == 0) || not (reserved == 0)
    then err non_zero_reserved
    else if ltb max_payload_len payload_len
    then err payload_too_large
    else if not (length buf == header_len + payload_len)
    then err length_mismatch
    else with_kind buf seq (from_u8 (byte_at 4 buf))
