-- ===== src/Bidi/Disconnect.antt =====
-- Scripts of writes with a peer that goes away, beside the same scripts with a peer that takes all.
use connect_bidi_web.Common.{
  ℕ, zero, suc, ◌+◌, ◌-◌, ◌<◌, ◌≤◌, ◌≡◌, refl, sym, ap, ◌∙◌, inl, inr, none, some, List, [], ◌∷◌,
  ◌++◌, append-nil, append_assoc, length, length-append, take, take-append_short, take-append_long,
  lt_or_le, arith,
}
use connect_bidi_web.Web.{Thrown, write_failed, Result, ok, throws}
use connect_bidi_web.Bidi.Writing.{Writer, Script, write, lift, ◌>>=◌, bind-ok, bind-throws}

abbrev pub free_writer : List (List ℕ) → Writer
free_writer t = record { taken = t; room = none }

abbrev pub limited_writer : List (List ℕ) → ℕ → Writer
limited_writer t n = record { taken = t; room = some n }

-- `m` writes the chunks `fs` and then has the result `r`; where the peer takes `n` writes only,
-- those are the first `n` of `fs`, and a further one rejects.
pub record Runs {E A : Type 0} (m : Script E A) (fs : List (List ℕ)) (r : Result E A) : Type 0 where
  pub free : (t : List (List ℕ)) → m (free_writer t) ≡ (r, free_writer (t ++ fs))
  pub fits :
      (t : List (List ℕ)) (n : ℕ)
      → length fs ≤ n
      → m (limited_writer t n) ≡ (r, limited_writer (t ++ fs) (n - length fs))
  pub cut :
      (t : List (List ℕ)) (n : ℕ)
      → n < length fs
      → m (limited_writer t n) ≡ (throws write_failed, limited_writer (t ++ take n fs) 0)

module _ {E : Type 0} where
  pub Runs-lift : {A : Type 0} (r : Result E A) → Runs (lift r) [] r
  Runs-lift r = record {
    free = λ t. ap (λ (u : List (List ℕ)). (r, free_writer u)) (sym (append-nil t));
    fits = λ t n h.
        let e : n ≡ n - 0 = omega arith in
        ap (λ (u : List (List ℕ)). (r, limited_writer u n)) (sym (append-nil t))
        ∙ ap (λ (k : ℕ). (r, limited_writer (t ++ []) k)) e;
    cut = λ t n h. absurd (omega arith);
  }

  write-fits :
      (chunk : List ℕ) (t : List (List ℕ)) (n : ℕ)
      → 1 ≤ n
      → write {E = E} chunk (limited_writer t n) ≡ (ok tt, limited_writer (t ++ chunk ∷ []) (n - 1))
  unfolding write
  write-fits chunk t zero h = absurd (omega arith)
  write-fits chunk t (suc n) h =
      let e : n ≡ suc n - 1 = omega arith in
      ap (λ (k : ℕ). (ok tt, limited_writer (t ++ chunk ∷ []) k)) e

  write-cut :
      (chunk : List ℕ) (t : List (List ℕ)) (n : ℕ)
      → n < 1
      → write {E = E} chunk (limited_writer t n)
        ≡ (throws write_failed, limited_writer (t ++ take n (chunk ∷ [])) 0)
  unfolding write
  write-cut chunk t zero h =
      ap (λ (u : List (List ℕ)). (throws write_failed, limited_writer u 0)) (sym (append-nil t))
  write-cut chunk t (suc n) h = absurd (omega arith)

  pub Runs-write : (chunk : List ℕ) → Runs (write {E = E} chunk) (chunk ∷ []) (ok tt)
  unfolding write
  Runs-write chunk = record { free = λ t. refl; fits = write-fits chunk; cut = write-cut chunk }

  module _ {A B : Type 0} (m : Script E A) (f : A → Script E B) (fs : List (List ℕ)) where
    Runs-throws : (e : Thrown E) → Runs m fs (throws e) → Runs (m >>= f) fs (throws e)
    Runs-throws e h = record {
      free = λ t. bind-throws m f (h.free t);
      fits = λ t n k. bind-throws m f (h.fits t n k);
      cut = λ t n k. bind-throws m f (h.cut t n k);
    }

    module _ (gs : List (List ℕ)) (a : A) (s : Result E B) (h : Runs m fs (ok a))
        (k : Runs (f a) gs s) where
      bind-fits :
          (t : List (List ℕ)) (n : ℕ)
          → length (fs ++ gs) ≤ n
          → (m >>= f) (limited_writer t n)
            ≡ (s, limited_writer (t ++ (fs ++ gs)) (n - length (fs ++ gs)))
      bind-fits t n l =
          let both : length (fs ++ gs) ≡ length fs + length gs = length-append fs gs in
          let e : n - length fs - length gs ≡ n - length (fs ++ gs) = omega arith in
          bind-ok m f (h.fits t n (omega arith)) (
            k.fits (t ++ fs) (n - length fs) (omega arith)
            ∙ ap (λ (u : List (List ℕ)). (s, limited_writer u (n - length fs - length gs)))
                (append_assoc t fs gs)
            ∙ ap (λ (i : ℕ). (s, limited_writer (t ++ (fs ++ gs)) i)) e)

      bind-cut :
          (t : List (List ℕ)) (n : ℕ)
          → n < length (fs ++ gs)
          → (m >>= f) (limited_writer t n)
            ≡ (throws write_failed, limited_writer (t ++ take n (fs ++ gs)) 0)
      bind-cut t n l = elim (lt_or_le n (length fs)) [
        | inl short ↦
            bind-throws m f (h.cut t n short)
            ∙ ap (λ (u : List (List ℕ)). (throws write_failed, limited_writer (t ++ u) 0))
                (sym (take-append_short n fs gs (omega arith)))
        | inr long ↦
            let both : length (fs ++ gs) ≡ length fs + length gs = length-append fs gs in
            bind-ok m f (h.fits t n long) (
              k.cut (t ++ fs) (n - length fs) (omega arith)
              ∙ ap (λ (u : List (List ℕ)). (throws write_failed, limited_writer u 0))
                  (append_assoc t fs (take (n - length fs) gs)
                    ∙ ap (◌++◌ t) (sym (take-append_long n fs gs long))))
      ]

      Runs-ok : Runs (m >>= f) (fs ++ gs) s
      Runs-ok = record {
        free = λ t. bind-ok m f (h.free t) (
            k.free (t ++ fs)
            ∙ ap (λ (u : List (List ℕ)). (s, free_writer u)) (append_assoc t fs gs));
        fits = bind-fits;
        cut = bind-cut;
      }

  -- A script that only writes: for some chunks and some result it runs so.
  abbrev pub Writes : {A : Type 0} → Script E A → Type 0
  Writes {A} m = (fs : List (List ℕ)) × (r : Result E A) × Runs m fs r

  pub Writes-bind :
      {A B : Type 0} (m : Script E A) (f : A → Script E B)
      → Writes m
      → ((a : A) → Writes (f a))
      → Writes (m >>= f)
  Writes-bind m f (fs, throws e, h) k = (fs, throws e, Runs-throws m f fs e h)
  Writes-bind m f (fs, ok a, h) k = let (gs, s, l) = k a in (fs ++ gs, s, Runs-ok m f fs gs a s h l)

  pub Writes-lift : {A : Type 0} (r : Result E A) → Writes (lift r)
  Writes-lift r = ([], r, Runs-lift r)

  pub Writes-write : (chunk : List ℕ) → Writes (write {E = E} chunk)
  Writes-write chunk = (chunk ∷ [], ok tt, Runs-write chunk)
