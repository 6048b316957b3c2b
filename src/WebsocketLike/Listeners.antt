-- ===== src/WebsocketLike/Listeners.antt =====
-- The listeners of a wrapped socket.
use connect_bidi_web.Common.{
  ℕ, String, ◌≡◌, refl, ap, true, false, Option, none, some, List, [], ◌∷◌, arith, if_rule,
}
use connect_bidi_web.Platform.{
  StreamState, readable, closing, closed, errored, enqueue, close, read, read-readable,
  close-readable,
}
use connect_bidi_web.WebsocketLike.{
  Failure, Wrapped, wrapped, close_quietly, fail_with, to_bytes, try_enqueue, on_message, close_now,
  on_close, on_error, cancel_in, consumer_cancels, Event, message, closes, failed, reads, cancels,
  step, run,
}

-- Until it has ended, the readable side is readable.
abbrev Inv : Wrapped → Type 0
Inv w = w.ended ≡ false → w.controller.state ≡ readable

module _ (encode : String → List ℕ) where
  try_enqueue-Inv : (w : Wrapped) (o : Option (List ℕ)) → Inv w → Inv (try_enqueue encode w o)
  unfolding try_enqueue fail_with enqueue
  try_enqueue-Inv w none v h = cc h
  try_enqueue-Inv w (some bytes) v h = ground arith

  close_now-Inv :
      (w : Wrapped)
      → w.controller.state ≡ readable
      → (t : Wrapped) × (close_now encode w (close w.controller) ≡ some t) × Inv t
  unfolding close_now
  close_now-Inv w h =
      let (c, e) = close-readable w.controller h in
      (
        record w { ended = true; controller = c },
        ap (close_now encode w) e,
        λ (never : true ≡ false). cc never,
      )

  cancel_in-Inv : (st : StreamState Failure) (w : Wrapped) → Inv w → Inv (cancel_in encode st w)
  unfolding cancel_in close_quietly
  cancel_in-Inv readable w v h = cc h
  cancel_in-Inv closing w v h = cc h
  cancel_in-Inv closed w v h = v h
  cancel_in-Inv (errored e) w v h = v h

  consumer_cancels-Inv : (w : Wrapped) → Inv w → Inv (consumer_cancels encode w)
  unfolding consumer_cancels
  consumer_cancels-Inv w v = cancel_in-Inv w.controller.state w v

  read-Inv : (w : Wrapped) → Inv w → Inv (record w { controller = read w.controller })
  read-Inv w v h = read-readable w.controller (v h)

  step-Inv :
      (w : Wrapped) (e : Event encode) → Inv w → (t : Wrapped) × (step encode w e ≡ some t) × Inv t
  unfolding step on_message on_close on_error fail_with
  step-Inv w (message data') v =
      (_, refl, if_rule Inv w.ended (λ e. v) (λ e. try_enqueue-Inv w (to_bytes encode data') v))
  step-Inv w closes v =
      if_rule (λ (o : Option Wrapped). (t : Wrapped) × (o ≡ some t) × Inv t) w.ended
        (λ e. (w, refl, v)) (λ e. close_now-Inv w (v e))
  step-Inv w failed v = (_, refl, if_rule Inv w.ended (λ e. v) (λ e h. cc h))
  step-Inv w reads v = (_, refl, read-Inv w v)
  step-Inv w cancels v = (_, refl, consumer_cancels-Inv w v)

  run-Inv :
      (w : Wrapped) (es : List (Event encode))
      → Inv w
      → (t : Wrapped) × (run encode w es ≡ some t) × Inv t
  unfolding run
  run-Inv w [] v = (w, refl, v)
  run-Inv w (e ∷ es) v = let (t, p, u) = step-Inv w e v in rw (p, run) (run-Inv t es u)

  -- No listener of a wrapped socket ever throws, whatever the socket and the consumer do in whatever
  -- order: also a close event after an error or after the consumer's cancel does nothing.
  pub run-wrapped :
      (es : List (Event encode))
      → (t : Wrapped) × (run encode wrapped es ≡ some t)
        × (t.ended ≡ false → t.controller.state ≡ readable)
  run-wrapped es = run-Inv wrapped es (λ h. refl)
