-- ===== src/Tests/Adapters.antt =====
-- The sockets of the two servers' platforms.
use connect_bidi_web.Common.{ℕ, String, ◌≡◌, refl, false, none, some, List, [], ◌∷◌}
use connect_bidi_web.Platform.{readable, opened}
use connect_bidi_web.WebsocketDuplex.{Duplex, on_close, consumer_cancels, by_cancel}
use connect_bidi_web.WebsocketDuplex.Listeners.{on_close-Ends}
use connect_bidi_web.WebsocketLike.{
  Wrapped, wrapped, Event, message, closes, failed, reads, cancels, view, unsupported, run,
}
use connect_bidi_web.WebsocketLike.Listeners.{run-wrapped}

abbrev fresh : Duplex
fresh = record { controller = opened; closes = [] }

on_close-Ends_example : on_close (consumer_cancels fresh) ≡ none
on_close-Ends_example = on_close-Ends fresh (consumer_cancels fresh) refl (by_cancel fresh)

abbrev no_text : String → List ℕ
no_text s = []

abbrev troubled : List (Event no_text)
troubled = message (view (1 ∷ [])) ∷ reads ∷ message unsupported ∷ failed ∷ cancels ∷ closes ∷ []

run-wrapped_example :
    (t : Wrapped) × (run no_text wrapped troubled ≡ some t)
    × (t.ended ≡ false → t.controller.state ≡ readable)
run-wrapped_example = run-wrapped no_text troubled
