-- ===== src/Tests/Connections.antt =====
-- The two ends of a connection at a concrete run.
use connect_bidi_web.Common.{ℕ, refl, false, none, some, List, [], ◌∷◌, ◌++◌, All, arith}
use connect_bidi_web.Common.IdMap
use connect_bidi_web.Platform.{opened}
use connect_bidi_web.Wire.Bytes.{IsByte}
use connect_bidi_web.Wire.RoundTrip.{envelope_of}
use connect_bidi_web.Mux
use connect_bidi_web.Mux.{started, message, writes, settles}
use connect_bidi_web.Mux.Outgoing.{writings}
use connect_bidi_web.Mux.Outgoing.Frames.{plain_message, plain_write, plain_settle}
use connect_bidi_web.WebSocketMux.{ready_open, MuxStreamEntry, WebSocketMux}
use connect_bidi_web.Connection.{Listens, route_all, run-route_all}

abbrev entry : MuxStreamEntry
entry = record { stream_id = 1; socket = 0; controller = opened; end_seen = false }

abbrev listening : WebSocketMux
listening = record {
  close_when_idle = false;
  sockets = (record { ready_state = ready_open; sent = []; closes = [] }) ∷ [];
  streams = entry ∷ [];
  socket = some 0;
  opening = none;
  next_stream_id = 2;
  entries = (1, 0) ∷ [];
}

Listens-listening : Listens envelope_of 2 listening 1 0 []
unfolding IdMap.get
Listens-listening = record {
  listed = refl;
  alone = λ j g. ground arith;
  entry = entry;
  held = refl;
  reads = refl;
  waits = refl;
}

-- The first message opens stream 1, whose task writes two envelopes and ends.
abbrev opening : List ℕ
opening = 0 ∷ 0 ∷ 0 ∷ 1 ∷ 6 ∷ 0 ∷ 0 ∷ 0 ∷ 0 ∷ []

abbrev events : List Mux.Event
events =
    message opening
    ∷ writes 0 (envelope_of 6 [])
    ∷ writes 0 (envelope_of 0 (42 ∷ []))
    ∷ settles 0
    ∷ []

bytes : All IsByte opening
bytes = ground arith

run-route_all_example :
    Listens envelope_of 2
      (route_all envelope_of 2 listening (Mux.run (started none) events).sent)
      1
      0
      ([] ++ writings 1 (started none) events)
run-route_all_example =
    run-route_all envelope_of 2 events listening 1 0 []
      (
        plain_message opening bytes,
        (
          plain_write 0 6 [] (omega arith) (λ e. absurd (omega arith)),
          (
            plain_write 0 0 (42 ∷ []) (omega arith) (λ e. absurd (omega arith)),
            (plain_settle 0, tt),
          ),
        ),
      )
      Listens-listening
