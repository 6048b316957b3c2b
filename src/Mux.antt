-- ===== src/Mux.antt =====
-- ts/packages/core/src/handle-muxed-bidi-socket.ts: the server's end of a multiplexed WebSocket.
-- The promises that run beside one another (the read loop, one `handleBidiSocket` per stream, the
-- idle timer, the caller's signal) are events; each runs to its next `await` in one step.
pub mod State
pub mod Invariant
pub mod Delivery
pub mod Feeding
pub mod Turns
pub mod Stopped
pub mod Reset
pub mod Teardown
pub mod Completion
pub mod Awaiting
pub mod Signal
pub mod Heap
pub mod Outgoing
pub mod Stale
use connect_bidi_web.Common.{
  ℕ, ◌+◌, true, Option, none, some, List, [], ◌∷◌, ◌++◌, get_elem?, modify, ◌==◌, if◌then◌else◌,
}
use connect_bidi_web.Common.IdMap
use connect_bidi_web.Platform.{Channel, enqueue, read}
use connect_bidi_web.Wire.{
  StreamFrame, ok, err, encode_stream_frame, decode_stream_frame, flag_envelope_headers,
  flag_envelope_reset,
}
pub use State.{
  Reason, StreamEntry, CloseCall, Phase, Server, init, abort_with, reset_error, closing_error,
  new_entry, connect_error, caller, close_plain, close_with, serving, draining, cancelling,
  closing_writer, finished,
}
unfoldable pub use State.{kill, kill_all, teardown, leave, start_stream, reset_stream}

-- `entry.controller.enqueue(frame.envelope)`; where it throws, the loop is left with
-- the exception.
deliver_to : Server → ℕ → Option (Channel Reason) → Server
deliver_to s r none = record (leave s) { thrown = true }
deliver_to s r (some c) = record s {
  entries = modify s.entries r (λ entry. record entry { controller = c });
}

deliver_in : Server → ℕ → List ℕ → Option StreamEntry → Server
unfolding deliver_to
deliver_in s r envelope none = s
deliver_in s r envelope (some entry) = deliver_to s r (enqueue entry.controller envelope)

unfoldable pub deliver : Server → ℕ → List ℕ → Server
unfolding deliver_in
deliver s r envelope = deliver_in s r envelope (get_elem? s.entries r)

-- The loop's body from `streams.get(frame.streamId)` on, by what that returns.
route_to : Server → StreamFrame → Option ℕ → Server
route_to s frame none =
    if frame.flag == flag_envelope_headers then start_stream s frame.stream_id frame.envelope else s
route_to s frame (some r) =
    if frame.flag == flag_envelope_reset
    then reset_stream s frame.stream_id r
    else deliver s r frame.envelope

unfoldable pub route : Server → StreamFrame → Server
unfolding route_to
route s frame = route_to s frame (IdMap.get s.streams frame.stream_id)

-- One turn of the loop on a message of the peer.
unfoldable pub receive : Server → List ℕ → Server
receive s message = elim (decode_stream_frame message) [
  | ok frame ↦ route s frame
  | err e ↦ leave s
]

-- The idle sentinel wins the race.
unfoldable pub idle_fires : Server → Server
idle_fires s =
    leave (record s { idled_out = true; closes = s.closes ++ close_with 1000 "idle timeout" ∷ [] })

-- `write` of the stream's writable: `none` is the rejection "stream reset by client".
write_in : Server → List ℕ → Option StreamEntry → Option Server
write_in s chunk none = none
write_in s chunk (some entry) =
    if entry.reset
    then none
    else some (record s { sent = s.sent ++ encode_stream_frame entry.stream_id chunk ∷ [] })

unfoldable pub task_writes : Server → ℕ → List ℕ → Option Server
unfolding write_in
task_writes s r chunk = write_in s chunk (get_elem? s.entries r)

abbrev pub or_same : Server → Option Server → Server
or_same s none = s
or_same s (some t) = t

-- The stream's handler reads an envelope.
unfoldable pub task_reads : Server → ℕ → Server
task_reads s r = record s {
  entries = modify s.entries r (λ entry. record entry { controller = read entry.controller });
}

-- `close: () => streams.delete(streamId)`, by the ID and whatever entry it has by now.
close_in : Server → Option StreamEntry → Server
close_in s none = s
close_in s (some entry) = record s { streams = IdMap.delete s.streams entry.stream_id }

unfoldable pub task_closes : Server → ℕ → Server
unfolding close_in
task_closes s r = close_in s (get_elem? s.entries r)

abbrev pub remove : ℕ → List ℕ → List ℕ
remove r [] = []
remove r (q ∷ running) = let rest = remove r running in if q == r then rest else q ∷ rest

-- The `finally` of the stream's promise.
unfoldable pub task_settles : Server → ℕ → Server
unfolding task_closes
task_settles s r = task_closes (record s { running = remove r s.running }) r

-- `Promise.allSettled(running)` resolves once every task has settled; `finally` calls
-- `reader.cancel()` then.
finish_with : Server → List ℕ → Server
finish_with s [] = record s { phase = cancelling }
finish_with s (r ∷ running) = s

unfoldable pub finish : Server → Server
unfolding finish_with
finish s = finish_with s s.running

-- The last line of `finally`.
unfoldable pub close_socket : Server → Server
close_socket s = record s { closes = s.closes ++ close_plain ∷ []; phase = finished }

-- `finishes`: what `finally` awaits settles.
pub data Event : Type 0 where
  message : List ℕ → Event
  read_ends read_fails idles : Event
  writes : ℕ → List ℕ → Event
  reads closes settles : ℕ → Event
  signal_aborts : ℕ → Event
  finishes : Event

-- The read loop acts while it runs, and `finally` after it.
loop_step : Phase → Server → Event → Server
loop_step serving s (message m) = receive s m
loop_step serving s read_ends = leave s
loop_step serving s read_fails = leave s
loop_step serving s idles = idle_fires s
loop_step draining s finishes = finish s
loop_step cancelling s finishes = record s { phase = closing_writer }
loop_step closing_writer s finishes = close_socket s
loop_step _ s _ = s

unfoldable pub step : Server → Event → Server
unfolding loop_step
step s (writes r chunk) = or_same s (task_writes s r chunk)
step s (reads r) = task_reads s r
step s (closes r) = task_closes s r
step s (settles r) = task_settles s r
step s (signal_aborts reason) = teardown s (caller reason)
step s (message m) = loop_step s.phase s (message m)
step s read_ends = loop_step s.phase s read_ends
step s read_fails = loop_step s.phase s read_fails
step s idles = loop_step s.phase s idles
step s finishes = loop_step s.phase s finishes

unfoldable pub run : Server → List Event → Server
run s [] = s
run s (e ∷ es) = run (step s e) es

-- The start of the function with `options.signal`: `some reason` where it is aborted already.
unfoldable pub started : Option ℕ → Server
started none = init
started (some reason) = teardown init (caller reason)
