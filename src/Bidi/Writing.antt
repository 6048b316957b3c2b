-- ===== src/Bidi/Writing.antt =====
-- Async code that writes to a `WritableStreamDefaultWriter` and may throw. The peer takes some
-- number of writes, or any number; a write after those rejects.
use connect_bidi_web.Common.{
  ℕ, zero, suc, ◌≡◌, refl, ap, ◌∙◌, Option, none, some, List, [], ◌∷◌, ◌++◌,
}
use connect_bidi_web.Web.{Thrown, write_failed, Result, ok, throws}

pub record Writer : Type 0 where
  -- The chunks that the peer took, oldest first.
  pub taken : List (List ℕ)
  -- How many more it takes; `none` is no limit.
  pub room : Option ℕ

abbrev pub Script : Type 0 → Type 0 → Type 0
Script E A = Writer → Result E A × Writer

module _ {E : Type 0} where
  write_in : Option ℕ → Writer → List ℕ → Result E (Unit {0}) × Writer
  write_in none w chunk = (ok tt, record w { taken = w.taken ++ chunk ∷ [] })
  write_in (some zero) w chunk = (throws write_failed, w)
  write_in (some (suc n)) w chunk =
      (ok tt, record w { taken = w.taken ++ chunk ∷ []; room = some n })

  -- `await writer.write(chunk)`
  unfoldable pub write : List ℕ → Script E (Unit {0})
  unfolding write_in
  write chunk w = write_in w.room w chunk

  close_in : Option ℕ → Writer → Result E (Unit {0}) × Writer
  close_in none w = (ok tt, w)
  close_in (some zero) w = (throws write_failed, w)
  close_in (some (suc n)) w = (ok tt, w)

  -- `await writer.close()`, which rejects where the peer takes nothing more.
  unfoldable pub close_writer : Script E (Unit {0})
  unfolding close_in
  close_writer w = close_in w.room w

  abbrev pub pure : {A : Type 0} → A → Script E A
  pure a w = (ok a, w)

  -- A computation that writes nothing.
  abbrev pub lift : {A : Type 0} → Result E A → Script E A
  lift r w = (r, w)

  abbrev pub continue : {A B : Type 0} → Result E A → (A → Script E B) → Script E B
  continue (ok a) f w = f a w
  continue (throws e) f w = (throws e, w)

  infixl 5 ◌>>=◌ ◌>>◌
  abbrev pub ◌>>=◌ : {A B : Type 0} → Script E A → (A → Script E B) → Script E B
  ◌>>=◌ m f w = let (r, w') = m w in continue r f w'

  abbrev pub ◌>>◌ : {B : Type 0} → Script E (Unit {0}) → Script E B → Script E B
  m >> k = m >>= λ _. k

  -- `ignoringPeerDisconnect`: whatever the operation throws is dropped.
  abbrev pub settled : Result E (Unit {0}) → Result E (Unit {0})
  settled (ok u) = ok u
  settled (throws e) = ok tt

  unfoldable pub ignoring_peer_disconnect : Script E (Unit {0}) → Script E (Unit {0})
  ignoring_peer_disconnect m w = let (r, w') = m w in (settled r, w')

  pub write-no_limit :
      (chunk : List ℕ) (fs : List (List ℕ))
      → write chunk (record { taken = fs; room = none })
        ≡ (ok tt, record { taken = fs ++ chunk ∷ []; room = none })
  unfolding write write_in
  write-no_limit chunk fs = refl

  module _ {A B : Type 0} (m : Script E A) (f : A → Script E B) {w v : Writer} where
    pub bind-ok : {a : A} {r : Result E B × Writer} → m w ≡ (ok a, v) → f a v ≡ r → (m >>= f) w ≡ r
    bind-ok e k = ap (λ (p : Result E A × Writer). continue p.0 f p.1) e ∙ k

    pub bind-throws : {t : Thrown E} → m w ≡ (throws t, v) → (m >>= f) w ≡ (throws t, v)
    bind-throws e = ap (λ (p : Result E A × Writer). continue p.0 f p.1) e

  pub ignoring_peer_disconnect-of :
      (m : Script E (Unit {0})) {w v : Writer} {r : Result E (Unit {0})}
      → m w ≡ (r, v)
      → ignoring_peer_disconnect m w ≡ (settled r, v)
  unfolding ignoring_peer_disconnect
  ignoring_peer_disconnect-of m e = ap (λ (p : Result E (Unit {0}) × Writer). (settled p.0, p.1)) e
