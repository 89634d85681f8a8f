-- ===== src/Frame/Bytes.antt =====
-- Big-endian words: `to_be_bytes` and `from_be_bytes` at every width.
use relay_term.Prelude.{
  ℕ, zero, suc, ◌+◌, ◌*◌, ◌/◌, ◌%◌, ◌^◌, ◌<◌, ◌≡◌, refl, List, [], ◌∷◌, ◌++◌, arith, length,
  length-append, All, append-nil, append_assoc,
}
use native.Mathlib.Nat.{pow-suc, add-zero, zero-add, add-suc, suc-add}

-- `v.to_be_bytes()` of a word of `n` bytes.
unfoldable pub be_bytes : ℕ → ℕ → List ℕ
be_bytes zero v = []
be_bytes (suc n) v = be_bytes n (v / 256) ++ v % 256 ∷ []

unfoldable pub be_from : ℕ → List ℕ → ℕ
be_from acc [] = acc
be_from acc (b ∷ bs) = be_from (acc * 256 + b) bs

unfoldable pub from_be_bytes : List ℕ → ℕ
unfolding be_from
from_be_bytes bs = be_from 0 bs

abbrev pub IsByte : ℕ → Type 0
IsByte b = b < 256

pub length-be_bytes : (n v : ℕ) → length (be_bytes n v) ≡ n
unfolding be_bytes
length-be_bytes zero v = refl
length-be_bytes (suc n) v =
    omega (arith, length-append (be_bytes n (v / 256)) (v % 256 ∷ []), length-be_bytes n (v / 256))

be_from-snoc :
    (acc : ℕ) (bs : List ℕ) (b : ℕ) → be_from acc (bs ++ b ∷ []) ≡ be_from acc bs * 256 + b
unfolding be_from
be_from-snoc acc [] b = refl
be_from-snoc acc (x ∷ xs) b = be_from-snoc (acc * 256 + x) xs b

-- Reading the bytes of a word that fits gives the word.
pub from_be_bytes-be_bytes : (n v : ℕ) → v < 256 ^ n → from_be_bytes (be_bytes n v) ≡ v
unfolding be_bytes from_be_bytes
from_be_bytes-be_bytes zero v h = omega arith
from_be_bytes-be_bytes (suc n) v h =
    rw (be_from-snoc 0 (be_bytes n (v / 256)) (v % 256))
      (omega (arith, from_be_bytes-be_bytes n (v / 256), pow-suc))

be_bytes-snoc : (n v b : ℕ) → IsByte b → be_bytes (suc n) (v * 256 + b) ≡ be_bytes n v ++ b ∷ []
unfolding be_bytes
be_bytes-snoc n v b h =
    let quotient : (v * 256 + b) / 256 ≡ v = omega arith in
    let remainder : (v * 256 + b) % 256 ≡ b = omega arith in rw (quotient, remainder)

-- From the front: the accumulator holds the word read so far.
be_bytes-be_from :
    (k acc : ℕ) (bs : List ℕ)
    → All IsByte bs
    → be_bytes (k + length bs) (be_from acc bs) ≡ be_bytes k acc ++ bs
unfolding be_from
be_bytes-be_from k acc [] h = rw (add-zero, append-nil)
be_bytes-be_from k acc (b ∷ bs) h =
    rw (add-suc, ← suc-add, be_bytes-be_from (suc k) (acc * 256 + b) bs h.1)
      (rw (be_bytes-snoc k acc b h.0) (append_assoc (be_bytes k acc) (b ∷ []) bs))

-- A word of `n` bytes is written as the bytes that it was read from.
pub be_bytes-from_be_bytes :
    (n : ℕ) (bs : List ℕ) → length bs ≡ n → All IsByte bs → be_bytes n (from_be_bytes bs) ≡ bs
unfolding from_be_bytes be_bytes
be_bytes-from_be_bytes n bs e h = rw (← e, ← zero-add (length bs), be_bytes-be_from 0 0 bs h) refl
