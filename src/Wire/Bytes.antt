-- ===== src/Wire/Bytes.antt =====
-- What wire.ts uses of `Uint8Array` and `DataView`: big-endian reads and writes at an offset.
use connect_bidi_web.Common.{
  ℕ, zero, suc, ◌+◌, ◌*◌, ◌/◌, ◌%◌, ◌^◌, ◌<◌, ◌≡◌, refl, ap, List, [], ◌∷◌, ◌++◌, length, get_or,
  All, arith, append-nil,
}

abbrev pub IsByte : ℕ → Type 0
IsByte b = b < 256

-- `out.set(src, offset)`. Where JavaScript throws since `src` does not fit, what does not fit is
-- left out; the callers always make room for it.
unfoldable pub write_at : List ℕ → ℕ → List ℕ → List ℕ
write_at out zero [] = out
write_at [] zero (v ∷ vs) = []
write_at (x ∷ xs) zero (v ∷ vs) = v ∷ write_at xs zero vs
write_at [] (suc n) vs = []
write_at (x ∷ xs) (suc n) vs = x ∷ write_at xs n vs

-- The four bytes of `v` modulo 2 ^ 32, the highest first.
unfoldable pub be32 : ℕ → List ℕ
be32 v = (v / 2 ^ 24 % 256) ∷ (v / 2 ^ 16 % 256) ∷ (v / 2 ^ 8 % 256) ∷ (v % 256) ∷ []

-- `DataView.setUint32`: `v` modulo 2 ^ 32, as four bytes, the highest first.
unfoldable pub set_uint32 : List ℕ → ℕ → ℕ → List ℕ
unfolding write_at be32
set_uint32 buffer offset v = write_at buffer offset (be32 v)

-- `DataView.getUint8`; the callers read inside the message only.
unfoldable pub get_uint8 : List ℕ → ℕ → ℕ
get_uint8 buffer offset = get_or buffer offset 0

-- `DataView.getUint32`
unfoldable pub get_uint32 : List ℕ → ℕ → ℕ
unfolding get_uint8
get_uint32 buffer offset =
    get_uint8 buffer offset * 2 ^ 24
    + get_uint8 buffer (offset + 1) * 2 ^ 16
    + get_uint8 buffer (offset + 2) * 2 ^ 8
    + get_uint8 buffer (offset + 3)

-- Four bytes read back as the number that they were written for.
pub be32_value :
    (v : ℕ)
    → v < 2 ^ 32
    → v / 2 ^ 24 % 256 * 2 ^ 24 + v / 2 ^ 16 % 256 * 2 ^ 16 + v / 2 ^ 8 % 256 * 2 ^ 8 + v % 256 ≡ v
be32_value v h = omega arith

-- And four bytes are those of the number that they stand for.
pub be32-of_bytes :
    (a b c d : ℕ)
    → IsByte a
    → IsByte b
    → IsByte c
    → IsByte d
    → be32 (a * 2 ^ 24 + b * 2 ^ 16 + c * 2 ^ 8 + d) ≡ a ∷ b ∷ c ∷ d ∷ []
unfolding be32
be32-of_bytes a b c d ha hb hc hd = ground arith

pub be32-All : (v : ℕ) → All IsByte (be32 v)
unfolding be32
be32-All v = omega arith

pub length-be32 : (v : ℕ) → length (be32 v) ≡ 4
unfolding be32
length-be32 v = refl

pub write_at-nil : (out : List ℕ) (n : ℕ) → write_at out n [] ≡ out
unfolding write_at
write_at-nil out zero = refl
write_at-nil [] (suc n) = refl
write_at-nil (x ∷ xs) (suc n) = ap (◌∷◌ x) (write_at-nil xs n)

-- A write of `vs` where as many places are left.
pub write_at-append :
    (done vs rest : List ℕ) (blank : List ℕ)
    → length blank ≡ length vs
    → write_at (done ++ blank ++ rest) (length done) vs ≡ done ++ vs ++ rest
unfolding write_at
write_at-append [] [] rest [] h = refl
write_at-append [] [] rest (b ∷ blank) h = absurd (omega arith)
write_at-append [] (v ∷ vs) rest [] h = absurd (omega arith)
write_at-append [] (v ∷ vs) rest (b ∷ blank) h =
    ap (◌∷◌ v) (write_at-append [] vs rest blank (omega arith))
write_at-append (d ∷ done) vs rest blank h = ap (◌∷◌ d) (write_at-append done vs rest blank h)

pub write_at-append_end :
    (done vs blank : List ℕ)
    → length blank ≡ length vs
    → write_at (done ++ blank) (length done) vs ≡ done ++ vs
write_at-append_end done vs blank h =
    rw (← append-nil (done ++ blank), ← append-nil (done ++ vs))
      (write_at-append done vs [] blank h)
