-- ===== src/Frame/Canonical.antt =====
-- A buffer that is decoded is the one that the encoder writes: no two buffers stand for one frame.
use native.Mathlib.Nat.{pow-suc, add-zero, add-suc, suc-add, zero-add}
use relay_term.Prelude.{
  ℕ, suc, ◌+◌, ◌*◌, ◌≤◌, ◌<◌, ◌^◌, ◌≡◌, refl, ap, ◌∙◌, sym, true, some, List, [], ◌∷◌, ◌++◌, arith,
  length, take, drop, All, subst, take-append-drop, drop-eq-cons, drop-drop, length-take,
  length-drop, All-take, All-drop,
}
use relay_term.Frame.Bytes.{be_from, from_be_bytes, IsByte, be_bytes-from_be_bytes}
use relay_term.Frame.{
  BinaryFrameKind, BinaryFrame, ok, err, magic_v1, header_len, payload_too_large, max_payload_len,
  from_u8, as_u8, slice, byte_at, same_bytes, encode_binary_frame, decode_binary_frame,
}
use relay_term.Frame.RoundTrip.{
  layout, decode-Decoded, encode-layout, magic_ok, len_slice, length-layout, two_zeros,
}

as_u8-from_u8 : (byte : ℕ) (k : BinaryFrameKind) → from_u8 byte ≡ some k → as_u8 k ≡ byte
unfolding from_u8 as_u8
as_u8-from_u8 byte k h = ground arith

same_bytes-eq : (xs ys : List ℕ) → same_bytes xs ys ≡ true → xs ≡ ys
unfolding same_bytes
same_bytes-eq [] [] h = refl
same_bytes-eq (x ∷ xs) (y ∷ ys) h = ground (arith, same_bytes-eq xs ys)
same_bytes-eq [] (y ∷ ys) h = cc
same_bytes-eq (x ∷ xs) [] h = cc

both_zero : (a b : ℕ) → from_be_bytes (a ∷ b ∷ []) ≡ 0 → (a ≡ 0) × (b ≡ 0)
unfolding from_be_bytes
both_zero a b h = omega arith

module _ (buf : List ℕ) (enough : header_len ≤ length buf) where
  front : drop 4 buf ≡ byte_at 4 buf ∷ byte_at 5 buf ∷ byte_at 6 buf ∷ byte_at 7 buf ∷ drop 8 buf
  front =
      drop-eq-cons 4 buf 0 (omega arith)
      ∙ ap (λ r. byte_at 4 buf ∷ r)
          (drop-eq-cons 5 buf 0 (omega arith)
            ∙ ap (λ r. byte_at 5 buf ∷ r)
                (drop-eq-cons 6 buf 0 (omega arith)
                  ∙ ap (λ r. byte_at 6 buf ∷ r) (drop-eq-cons 7 buf 0 (omega arith))))

  back : drop 8 buf ≡ slice 8 16 buf ++ (slice 16 20 buf ++ drop 20 buf)
  back =
      sym (take-append-drop 8 (drop 8 buf))
      ∙ ap (λ r. slice 8 16 buf ++ r)
          (drop-drop 8 8 buf
            ∙ sym (take-append-drop 4 (drop 16 buf))
            ∙ ap (λ r. slice 16 20 buf ++ r) (drop-drop 4 16 buf))

  reserved_bytes : from_be_bytes (slice 6 8 buf) ≡ 0 → (byte_at 6 buf ≡ 0) × (byte_at 7 buf ≡ 0)
  reserved_bytes h = both_zero (byte_at 6 buf) (byte_at 7 buf) (
      subst (λ r. from_be_bytes (take 2 r) ≡ 0)
        (drop-eq-cons 6 buf 0 (omega arith)
          ∙ ap (λ r. byte_at 6 buf ∷ r) (drop-eq-cons 7 buf 0 (omega arith)))
        h)

  rebuild :
      same_bytes (slice 0 4 buf) magic_v1 ≡ true
      → byte_at 5 buf ≡ 0
      → from_be_bytes (slice 6 8 buf) ≡ 0
      → layout (byte_at 4 buf) (slice 8 16 buf) (slice 16 20 buf) (drop 20 buf) ≡ buf
  rebuild m f r =
      let magic = same_bytes-eq (take 4 buf) magic_v1 m in
      let (z, y) = reserved_bytes r in cc (take-append-drop 4 buf, magic, front, f, z, y, back)

-- Whatever is decoded is encoded to the very buffer that it came from.
pub encode-decode :
    (buf : List ℕ) (f : BinaryFrame)
    → All IsByte buf
    → decode_binary_frame buf ≡ ok f
    → encode_binary_frame f.kind f.seq f.payload ≡ ok buf
encode-decode buf f bytes e =
    let d = decode-Decoded buf f e in
    let seq_bytes =
      be_bytes-from_be_bytes 8 (slice 8 16 buf)
        (omega (arith, length-take 8 (drop 8 buf), length-drop 8 buf, d.enough))
        (All-take IsByte 8 (drop 8 buf) (All-drop IsByte 8 buf bytes)) in
    let len_bytes =
      be_bytes-from_be_bytes 4 (slice 16 20 buf)
        (omega (arith, length-take 4 (drop 16 buf), length-drop 16 buf, d.enough))
        (All-take IsByte 4 (drop 16 buf) (All-drop IsByte 16 buf bytes)) in
    let claimed : length (drop 20 buf) ≡ from_be_bytes (slice 16 20 buf) =
      omega (arith, length-drop 20 buf, d.exact) in
    let small : length f.payload ≤ max_payload_len =
      subst (λ p. length p ≤ max_payload_len) (sym d.payload) (omega (arith, d.capped)) in
    cc (
      encode-layout f.kind f.seq f.payload small,
      as_u8-from_u8 (byte_at 4 buf) f.kind d.kind,
      d.seq,
      d.payload,
      seq_bytes,
      len_bytes,
      claimed,
      rebuild buf d.enough d.magic d.flags d.reserved,
    )

be_from-lt :
    (acc k : ℕ) (bs : List ℕ)
    → All IsByte bs
    → acc < 256 ^ k
    → be_from acc bs < 256 ^ (k + length bs)
unfolding be_from
be_from-lt acc k [] h lt = rw add-zero lt
be_from-lt acc k (b ∷ bs) h lt =
    rw (add-suc, ← suc-add)
      (be_from-lt (acc * 256 + b) (suc k) bs h.1 (omega (arith, h.0, pow-suc)))

from_be_bytes-lt :
    (n : ℕ) (bs : List ℕ) → All IsByte bs → length bs ≡ n → from_be_bytes bs < 256 ^ n
unfolding from_be_bytes
from_be_bytes-lt n bs h e = rw (← e, ← zero-add (length bs)) (be_from-lt 0 0 bs h (omega arith))

-- A decoded frame has a 64-bit sequence number and a payload within the cap, which with the header
-- makes up the buffer.
pub decode_bounds :
    (buf : List ℕ) (f : BinaryFrame)
    → All IsByte buf
    → decode_binary_frame buf ≡ ok f
    → (f.seq < 2 ^ 64)
      × (length f.payload ≤ max_payload_len)
      × (length buf ≡ header_len + length f.payload)
decode_bounds buf f bytes e =
    let d = decode-Decoded buf f e in
    let word =
      from_be_bytes-lt 8 (slice 8 16 buf)
        (All-take IsByte 8 (drop 8 buf) (All-drop IsByte 8 buf bytes))
        (omega (arith, length-take 8 (drop 8 buf), length-drop 8 buf, d.enough)) in
    let size = ap length d.payload ∙ length-drop header_len buf in
    (
      omega (arith, word, d.seq),
      omega (arith, size, d.exact, d.capped),
      omega (arith, size, d.exact),
    )

-- A claimed length over the cap is refused before the payload is looked at, whatever follows the
-- header.
pub oversized_claim :
    (kind : ℕ) (seq_bytes len_bytes rest : List ℕ)
    → length seq_bytes ≡ 8
    → length len_bytes ≡ 4
    → max_payload_len < from_be_bytes len_bytes
    → decode_binary_frame (layout kind seq_bytes len_bytes rest) ≡ err payload_too_large
unfolding decode_binary_frame
oversized_claim k s l rest hs hl big = ground (
  arith,
  magic_ok k s l rest hs hl,
  len_slice k s l rest hs hl,
  length-layout k s l rest hs hl,
  two_zeros,
)
