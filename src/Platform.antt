-- ===== src/Platform.antt =====
-- What the program uses of the web platform's streams and of the error type of
-- `@connectrpc/connect`.
use connect_bidi_web.Common.{
  ℕ, String, ◌≡◌, refl, sym, ap, ◌∙◌, subst, append_assoc, Option, none, some, List, [], ◌∷◌, ◌++◌,
}

-- The members of the enum `Code` that the program names.
pub data Code : Type 0 where
  canceled unavailable unimplemented internal : Code

-- A `ConnectError` that the program makes: its message and code.
pub record ConnectError : Type 0 where
  pub message : String
  pub code : Code

-- A stream is `closing` from `controller.close()` until its last chunk has been read.
pub data StreamState {ℓ} (R : Type ℓ) : Type ℓ where
  readable closing closed : StreamState R
  errored : R → StreamState R

-- A `ReadableStream` of byte chunks with its controller: what the consumer has read, what waits in
-- the queue, oldest first, and the state.
pub record Channel {ℓ} (R : Type ℓ) : Type ℓ where
  pub delivered : List (List ℕ)
  pub queue : List (List ℕ)
  pub state : StreamState R

module _ {ℓ} {R : Type ℓ} where
  abbrev pub opened : Channel R
  opened = record { delivered = []; queue = []; state = readable }

  -- `none` is the TypeError of `enqueue` and `close` on a stream that is not readable any more.
  enqueue_in : StreamState R → Channel R → List ℕ → Option (Channel R)
  enqueue_in readable c chunk = some (record c { queue = c.queue ++ chunk ∷ [] })
  enqueue_in closing c chunk = none
  enqueue_in closed c chunk = none
  enqueue_in (errored e) c chunk = none

  unfoldable pub enqueue : Channel R → List ℕ → Option (Channel R)
  unfolding enqueue_in
  enqueue c chunk = enqueue_in c.state c chunk

  close_in : StreamState R → List (List ℕ) → Channel R → Option (Channel R)
  close_in readable [] c = some (record c { state = closed })
  close_in readable (q ∷ queue) c = some (record c { state = closing })
  close_in closing queue c = none
  close_in closed queue c = none
  close_in (errored e) queue c = none

  unfoldable pub close : Channel R → Option (Channel R)
  unfolding close_in
  close c = close_in c.state c.queue c

  -- `controller.error(reason)` drops the queue; on a stream that has ended it does nothing.
  error_in : StreamState R → Channel R → R → Channel R
  error_in readable c reason = record c { queue = []; state = errored reason }
  error_in closing c reason = record c { queue = []; state = errored reason }
  error_in closed c reason = c
  error_in (errored e) c reason = c

  unfoldable pub error : Channel R → R → Channel R
  unfolding error_in
  error c reason = error_in c.state c reason

  cancel_in : StreamState R → Channel R → Channel R
  cancel_in readable c = record c { queue = []; state = closed }
  cancel_in closing c = record c { queue = []; state = closed }
  cancel_in closed c = c
  cancel_in (errored e) c = c

  -- The consumer cancels the stream.
  unfoldable pub cancel : Channel R → Channel R
  unfolding cancel_in
  cancel c = cancel_in c.state c

  read_in : StreamState R → List (List ℕ) → Channel R → Channel R
  read_in readable [] c = c
  read_in readable (q ∷ queue) c = record c { delivered = c.delivered ++ q ∷ []; queue = queue }
  read_in closing [] c = record c { state = closed }
  read_in closing (q ∷ []) c = record c {
    delivered = c.delivered ++ q ∷ [];
    queue = [];
    state = closed;
  }
  read_in closing (q ∷ r ∷ queue) c = record c {
    delivered = c.delivered ++ q ∷ [];
    queue = r ∷ queue;
  }
  read_in closed queue c = c
  read_in (errored e) queue c = c

  -- The consumer reads a chunk, if one is there.
  unfoldable pub read : Channel R → Channel R
  unfolding read_in
  read c = read_in c.state c.queue c

  -- All chunks that were ever put in and not dropped, oldest first.
  abbrev pub chunks : Channel R → List (List ℕ)
  chunks c = c.delivered ++ c.queue

  read_in-chunks :
      (c : Channel R) (queue : List (List ℕ))
      → c.queue ≡ queue
      → chunks (read_in readable queue c) ≡ chunks c
  unfolding read_in
  read_in-chunks c [] e = refl
  read_in-chunks c (q ∷ queue) e =
      append_assoc c.delivered (q ∷ []) queue ∙ ap (◌++◌ c.delivered) (sym e)

  -- Reading moves a chunk, and keeps them all.
  pub read-chunks : (c : Channel R) → c.state ≡ readable → chunks (read c) ≡ chunks c
  unfolding read
  read-chunks c h =
      subst (λ t. chunks (read_in t c.queue c) ≡ chunks c) (sym h) (read_in-chunks c c.queue refl)

  close_in-readable :
      (queue : List (List ℕ)) (c : Channel R)
      → (d : Channel R) × (close_in readable queue c ≡ some d)
  unfolding close_in
  close_in-readable [] c = (_, refl)
  close_in-readable (q ∷ queue) c = (_, refl)

  pub close-readable : (c : Channel R) → c.state ≡ readable → (d : Channel R) × (close c ≡ some d)
  unfolding close
  close-readable c h =
      subst (λ st. (d : Channel R) × (close_in st c.queue c ≡ some d)) (sym h)
        (close_in-readable c.queue c)

  -- A stream that was readable does not take a `close` any more after an error or a cancel.
  pub close-error : (c : Channel R) (e : R) → c.state ≡ readable → close (error c e) ≡ none
  unfolding close error
  close-error c e h =
      ap (λ (d : Channel R). close_in d.state d.queue d) (ap (λ st. error_in st c e) h)

  pub close-cancel : (c : Channel R) → c.state ≡ readable → close (cancel c) ≡ none
  unfolding close cancel
  close-cancel c h =
      ap (λ (d : Channel R). close_in d.state d.queue d) (ap (λ st. cancel_in st c) h)

  read_in-readable :
      (queue : List (List ℕ)) (c : Channel R)
      → c.state ≡ readable
      → (read_in readable queue c).state ≡ readable
  unfolding read_in
  read_in-readable [] c h = h
  read_in-readable (q ∷ queue) c h = h

  pub read-readable : (c : Channel R) → c.state ≡ readable → (read c).state ≡ readable
  unfolding read
  read-readable c h =
      subst (λ st. (read_in st c.queue c).state ≡ readable) (sym h) (read_in-readable c.queue c h)
