-- ===== src/WebsocketDuplex/Listeners.antt =====
-- The listeners of a socket of the package ws.
use connect_bidi_web.Common.{
  ℕ, ◌≡◌, sym, ap, ◌∙◌, subst, true, none, some, List, [], ◌∷◌, ◌++◌, append-nil, append_assoc, map,
  concat, length, arith,
}
use native.Mathlib.Nat.{zero-add}
use mathlib.Core.Option.{some-injective}
use connect_bidi_web.Platform.{readable, enqueue, close, error, close-error, close-cancel}
use connect_bidi_web.Wire.Concat.{total_length-concat, copy_chunks-concat}
use connect_bidi_web.WebsocketDuplex.{
  RawData, fragments, text_frame, socket_error, to_uint8_array, Duplex, with_controller, on_message,
  on_close, on_error, cancel_in, consumer_cancels, receive_all, Ends, by_error, by_text, by_cancel,
}

-- The fragments of a message become one chunk with all of their bytes in order.
pub to_uint8_array-fragments :
    (parts : List (List ℕ)) → to_uint8_array (fragments parts) ≡ concat parts
unfolding to_uint8_array
to_uint8_array-fragments parts =
    rw (total_length-concat 0 parts)
      (rw (zero-add (length (concat parts))) (copy_chunks-concat [] parts))

on_message-readable :
    (d : Duplex) (m : RawData)
    → d.controller.state ≡ readable
    → on_message d m true
      ≡ some (record d {
        controller = record d.controller { queue = d.controller.queue ++ to_uint8_array m ∷ [] };
      })
unfolding on_message with_controller enqueue
on_message-readable d m h = ground arith

-- Binary messages on an open connection become the chunks of the readable side, one each, in order.
pub receive_all-readable :
    (ms : List RawData) (d : Duplex)
    → d.controller.state ≡ readable
    → receive_all ms d
      ≡ some (record d {
        controller = record d.controller { queue = d.controller.queue ++ map to_uint8_array ms };
      })
unfolding receive_all
receive_all-readable [] d h =
    ap (λ (q : List (List ℕ)). some (record d { controller = record d.controller { queue = q } }))
      (sym (append-nil d.controller.queue))
receive_all-readable (m ∷ ms) d h =
    rw (on_message-readable d m h, receive_all)
      (receive_all-readable ms _ h
        ∙ ap
            (λ (q : List (List ℕ)).
              some (record d { controller = record d.controller { queue = q } }))
            (append_assoc d.controller.queue (to_uint8_array m ∷ []) (map to_uint8_array ms)))

close-over : (d : Duplex) → close d.controller ≡ none → on_close d ≡ none
unfolding on_close
close-over d e = rw (e, with_controller)

consumer_cancels-readable :
    (d : Duplex) → d.controller.state ≡ readable → close (consumer_cancels d).controller ≡ none
unfolding consumer_cancels cancel_in
consumer_cancels-readable d h =
    ap (λ st. close (cancel_in st d).controller) h ∙ close-cancel d.controller h

-- Once the readable side has been ended by an error of the socket, a text frame or the consumer's
-- cancel, the close event that the socket emits after that throws out of its listener.
pub on_close-Ends : (d t : Duplex) → d.controller.state ≡ readable → Ends d t → on_close t ≡ none
unfolding on_error on_message
on_close-Ends _ _ h (by_error d err t e) =
    subst (λ (u : Duplex). on_close u ≡ none) (some-injective _ _ e)
      (close-over (record d { controller = error d.controller (socket_error err) })
        (close-error d.controller _ h))
on_close-Ends _ _ h (by_text d m t e) =
    subst (λ (u : Duplex). on_close u ≡ none) (some-injective _ _ e)
      (close-over (record d { controller = error d.controller text_frame })
        (close-error d.controller _ h))
on_close-Ends _ _ h (by_cancel d) = close-over _ (consumer_cancels-readable d h)
