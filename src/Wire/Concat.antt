-- ===== src/Wire/Concat.antt =====
-- `concatBytes` and the buffer that it copies its chunks into.
use connect_bidi_web.Common.{
  ℕ, ◌+◌, ◌≡◌, refl, sym, ◌∙◌, List, [], ◌∷◌, ◌++◌, length, replicate, concat, arith, append-nil,
  append_assoc, length-append, length-replicate, replicate-add,
}
use native.Mathlib.Nat.{zero-add}
use connect_bidi_web.Wire.Bytes.{write_at-append}
use connect_bidi_web.Wire.{total_length, copy_chunks, concat_bytes}

pub total_length-concat :
    (n : ℕ) (chunks : List (List ℕ)) → total_length n chunks ≡ n + length (concat chunks)
unfolding total_length
total_length-concat n [] = omega arith
total_length-concat n (c ∷ chunks) =
    omega (arith, total_length-concat (n + length c) chunks, length-append c (concat chunks))

pub copy_chunks-concat :
    (done : List ℕ) (chunks : List (List ℕ))
    → copy_chunks (done ++ replicate (length (concat chunks)) 0) (length done) chunks
      ≡ done ++ concat chunks
unfolding copy_chunks
copy_chunks-concat done [] = refl
copy_chunks-concat done (c ∷ chunks) =
    let blank : List ℕ = replicate (length c) 0 in
    let rest : List ℕ = replicate (length (concat chunks)) 0 in
    let size : length blank ≡ length c = length-replicate (length c) 0 in
    rw
      (length-append c (concat chunks), replicate-add {A = ℕ} (length c) (length (concat chunks)) 0)
      (rw (← append_assoc done blank rest) (
        rw (write_at-append done c rest blank size, ← length-append done c)
          (copy_chunks-concat (done ++ c) chunks ∙ append_assoc done c (concat chunks))))

-- The result is the concatenation of the chunks, whatever their number.
pub concat_bytes-concat : (chunks : List (List ℕ)) → concat_bytes chunks ≡ concat chunks
unfolding concat_bytes
concat_bytes-concat [] = refl
concat_bytes-concat (c ∷ []) = sym (append-nil c)
concat_bytes-concat (c ∷ d ∷ chunks) =
    rw (total_length-concat 0 (c ∷ d ∷ chunks))
      (rw (zero-add (length (concat (c ∷ d ∷ chunks)))) (copy_chunks-concat [] (c ∷ d ∷ chunks)))
