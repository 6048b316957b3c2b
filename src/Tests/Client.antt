-- ===== src/Tests/Client.antt =====
-- A client's connection with one stream.
use connect_bidi_web.Common.{
  ℕ, ◌≡◌, ◌≢◌, refl, false, true, none, some, List, [], ◌∷◌, get_elem?, arith,
}
use connect_bidi_web.Common.IdMap
use connect_bidi_web.Platform.{opened, error}
use connect_bidi_web.Wire.{encode_stream_frame}
use connect_bidi_web.Wire.RoundTrip.{envelope_of}
use connect_bidi_web.WebSocketMux.{
  ready_open, Socket, MuxStreamEntry, WebSocketMux, construct, prefix_stream_id, closed_error,
  on_close, open_stream, route, close_stream, Event, dials, opens, starts, writes, releases, run,
}
use connect_bidi_web.WebSocketMux.Ids.{run-construct}
use connect_bidi_web.WebSocketMux.Routing.{route-encode_stream_frame}
use connect_bidi_web.WebSocketMux.Closing.{on_close-other, close_stream-twice, close_stream-reset}

abbrev envelope : ℕ → List ℕ → List ℕ
envelope flag bytes = envelope_of flag bytes

abbrev session : List (Event envelope 2)
session = dials ∷ opens 0 ∷ starts 0 ∷ writes 0 (envelope_of 6 []) ∷ releases 1 ∷ starts 0 ∷ []

run-construct_example :
    let m = run envelope 2 (construct false) session in
    ((id r : ℕ)
      → IdMap.get m.entries id ≡ some r
      → (entry : MuxStreamEntry) × (get_elem? m.streams r ≡ some entry) × (entry.stream_id ≡ id))
    × (IdMap.get m.entries m.next_stream_id ≡ none)
    × ((k id : ℕ)
        → id ≢ m.next_stream_id
        → IdMap.get (open_stream m k).0.entries id ≡ IdMap.get m.entries id)
run-construct_example = run-construct envelope 2 false session

abbrev live_socket : Socket
live_socket = record { ready_state = ready_open; sent = []; closes = [] }

abbrev live_stream : MuxStreamEntry
live_stream = record { stream_id = 1; socket = 1; controller = opened; end_seen = false }

-- The second connection, with the first one's socket still closing.
abbrev connected : WebSocketMux
connected = record {
  close_when_idle = false;
  sockets = live_socket ∷ live_socket ∷ [];
  streams = live_stream ∷ [];
  socket = some 1;
  opening = none;
  next_stream_id = 2;
  entries = (1, 0) ∷ [];
}

get-connected : IdMap.get connected.entries 1 ≡ some 0
unfolding IdMap.get
get-connected = refl

route-encode_stream_frame_example :
    (get_elem? (route envelope 2 connected (encode_stream_frame 1 (envelope_of 2 []))).streams 0
      ≡ some (record live_stream {
        controller = record live_stream.controller { queue = envelope_of 2 [] ∷ [] };
        end_seen = true;
      }))
    × ((q : ℕ)
        → q ≢ 0
        → get_elem?
            (route envelope 2 connected (encode_stream_frame 1 (envelope_of 2 []))).streams
            q
          ≡ get_elem? connected.streams q)
    × ((route envelope 2 connected (encode_stream_frame 1 (envelope_of 2 []))).entries
        ≡ connected.entries)
    × ((route envelope 2 connected (encode_stream_frame 1 (envelope_of 2 []))).sockets
        ≡ connected.sockets)
route-encode_stream_frame_example =
    route-encode_stream_frame envelope 2 connected 1 0 2 [] live_stream (omega arith) (omega arith)
      get-connected refl refl

on_close-other_example :
    ((on_close connected 0 "idle timeout").entries ≡ [])
    × (get_elem? (on_close connected 0 "idle timeout").streams 0
        ≡ some (record live_stream {
          controller = error live_stream.controller (closed_error "idle timeout");
        }))
    × ((on_close connected 0 "idle timeout").socket ≡ some 1)
    × (get_elem? (on_close connected 0 "idle timeout").sockets 1 ≡ get_elem? connected.sockets 1)
on_close-other_example =
    on_close-other connected 1 0 1 0 "idle timeout" live_stream refl (omega arith) get-connected
      refl

close_stream-twice_example :
    (IdMap.get (close_stream envelope 2 connected 1).entries 1 ≡ none)
    × (close_stream envelope 2 (close_stream envelope 2 connected 1) 1
        ≡ close_stream envelope 2 connected 1)
close_stream-twice_example = close_stream-twice envelope 2 connected 1

close_stream-reset_example :
    get_elem? (close_stream envelope 2 connected 1).sockets 1
    ≡ some (record live_socket { sent = prefix_stream_id 1 (envelope 7 []) ∷ [] })
close_stream-reset_example =
    close_stream-reset envelope 2 connected 1 0 1 live_stream live_socket refl get-connected refl
      refl refl refl
