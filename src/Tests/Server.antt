-- ===== src/Tests/Server.antt =====
-- A server's connection with one stream.
use connect_bidi_web.Common.{ℕ, ◌≡◌, refl, true, false, none, some, List, [], ◌∷◌, get_elem?, arith}
use connect_bidi_web.Common.IdMap
use connect_bidi_web.Platform.{canceled}
use connect_bidi_web.Wire.{StreamFrame, ok, decode_stream_frame}
use connect_bidi_web.Wire.Bytes.{get_uint32}
use connect_bidi_web.Mux.{
  connect_error, reset_error, kill, close_plain, StreamEntry, Server, init, started, new_entry,
  start_stream, receive, task_writes, draining, closing_writer, finished, read_ends, Event, message,
  reads, writes, settles, idles, finishes, step, run,
}
use connect_bidi_web.Mux.Invariant.{Inv, Owns, run-started-Inv}
use connect_bidi_web.Mux.Delivery.{Receives, arrivals}
use connect_bidi_web.Mux.Feeding.{run-start_stream}
use connect_bidi_web.Mux.Reset.{receive-reset}
use connect_bidi_web.Mux.Stopped.{Stopped}
use connect_bidi_web.Mux.Teardown.{Ended, step-EndsLoop}
use connect_bidi_web.Mux.Completion.{run-finishes}
use connect_bidi_web.Mux.Turns.{member}
use connect_bidi_web.Mux.Awaiting.{run-awaits}
use connect_bidi_web.Mux.Stale.{settles-reused_id}

abbrev headers_envelope : List ℕ
headers_envelope = 6 ∷ 0 ∷ 0 ∷ 0 ∷ 0 ∷ []

abbrev data_envelope : List ℕ
data_envelope = 0 ∷ 0 ∷ 0 ∷ 0 ∷ 1 ∷ 42 ∷ []

abbrev reset_envelope : List ℕ
reset_envelope = 7 ∷ 0 ∷ 0 ∷ 0 ∷ 0 ∷ []

abbrev prefixed : ℕ → List ℕ → List ℕ
prefixed id envelope = 0 ∷ 0 ∷ 0 ∷ id ∷ envelope

abbrev exchange : List Event
exchange =
    message (prefixed 1 headers_envelope)
    ∷ message (prefixed 1 data_envelope)
    ∷ writes 0 data_envelope
    ∷ message (prefixed 1 reset_envelope)
    ∷ settles 0
    ∷ []

run-started-Inv_example :
    ((id r : ℕ)
      → IdMap.get (run (started none) exchange).streams id ≡ some r
      → Owns (run (started none) exchange).entries id r)
    × ((i j r : ℕ)
        → IdMap.get (run (started none) exchange).streams i ≡ some r
        → IdMap.get (run (started none) exchange).streams j ≡ some r
        → i ≡ j)
run-started-Inv_example = run-started-Inv none exchange

Inv-init : Inv init
unfolding started run
Inv-init = (run-started-Inv none []).0

abbrev data_frame : StreamFrame
data_frame = record { stream_id = 1; flag = 0; envelope = data_envelope }

decode-data : decode_stream_frame (prefixed 1 data_envelope) ≡ ok data_frame
unfolding decode_stream_frame get_uint32
decode-data = refl

abbrev other_frame : StreamFrame
other_frame = record { stream_id = 2; flag = 0; envelope = data_envelope }

decode-other : decode_stream_frame (prefixed 2 data_envelope) ≡ ok other_frame
unfolding decode_stream_frame get_uint32
decode-other = refl

abbrev traffic : List Event
traffic =
    message (prefixed 1 data_envelope)
    ∷ reads 0
    ∷ message (prefixed 2 data_envelope)
    ∷ message (prefixed 1 data_envelope)
    ∷ []

run-start_stream_example :
    Receives
      (run (start_stream init 1 headers_envelope) traffic)
      1
      0
      (headers_envelope ∷ arrivals 1 traffic)
run-start_stream_example = run-start_stream init 1 headers_envelope traffic Inv-init refl (
  (data_frame, decode-data, λ e. omega arith),
  (
    tt,
    (
      (other_frame, decode-other, λ e. omega arith),
      ((data_frame, decode-data, λ e. omega arith), tt),
    ),
  ),
)

-- The state with stream 1 open.
abbrev serving_one : Server
serving_one = record init {
  entries = new_entry 1 headers_envelope ∷ [];
  streams = (1, 0) ∷ [];
  running = 0 ∷ [];
}

abbrev reset_frame : StreamFrame
reset_frame = record { stream_id = 1; flag = 7; envelope = reset_envelope }

decode-reset : decode_stream_frame (prefixed 1 reset_envelope) ≡ ok reset_frame
unfolding decode_stream_frame get_uint32
decode-reset = refl

get-one : IdMap.get serving_one.streams 1 ≡ some 0
unfolding IdMap.get
get-one = refl

receive-reset_example :
    (IdMap.get (receive serving_one (prefixed 1 reset_envelope)).streams 1 ≡ none)
    × ((stopped : StreamEntry) × (get_elem?
            (receive serving_one (prefixed 1 reset_envelope)).entries
            0
          ≡ some stopped)
        × Stopped (new_entry 1 headers_envelope) stopped "stream reset by client" canceled)
    × ((es : List Event) (chunk : List ℕ)
        → task_writes (run (receive serving_one (prefixed 1 reset_envelope)) es) 0 chunk ≡ none)
receive-reset_example =
    receive-reset serving_one (prefixed 1 reset_envelope) reset_frame 0
      (new_entry 1 headers_envelope) decode-reset refl get-one refl

step-EndsLoop_example :
    Ended serving_one (step serving_one idles) 0 (new_entry 1 headers_envelope) true
step-EndsLoop_example =
    step-EndsLoop serving_one idles true 1 0 (new_entry 1 headers_envelope) refl refl refl get-one
      refl

-- The state after the peer has gone while the stream's task runs.
abbrev draining_one : Server
draining_one = record init { running = 0 ∷ []; phase = draining }

run-finishes_example :
    ((step draining_one finishes).phase ≡ draining)
    × ((step draining_one finishes).closes ≡ [])
    × ((run draining_one (settles 0 ∷ finishes ∷ finishes ∷ [])).phase ≡ closing_writer)
    × ((run draining_one (settles 0 ∷ finishes ∷ finishes ∷ [])).closes ≡ [])
    × ((run draining_one (settles 0 ∷ finishes ∷ finishes ∷ finishes ∷ [])).phase ≡ finished)
    × ((run draining_one (settles 0 ∷ finishes ∷ finishes ∷ finishes ∷ [])).closes
        ≡ close_plain ∷ [])
    × ((run draining_one (settles 0 ∷ finishes ∷ finishes ∷ finishes ∷ [])).running ≡ [])
    × ((run draining_one (settles 0 ∷ finishes ∷ finishes ∷ finishes ∷ [])).thrown ≡ false)
run-finishes_example = run-finishes draining_one (0 ∷ []) refl (refl, tt)

run-awaits_example :
    ((run draining_one (finishes ∷ settles 3 ∷ read_ends ∷ finishes ∷ [])).phase ≡ draining)
    × (member 0 (run draining_one (finishes ∷ settles 3 ∷ read_ends ∷ finishes ∷ [])).running
        ≡ true)
    × ((run draining_one (finishes ∷ settles 3 ∷ read_ends ∷ finishes ∷ [])).closes ≡ [])
run-awaits_example =
    run-awaits draining_one 0 (finishes ∷ settles 3 ∷ read_ends ∷ finishes ∷ []) refl refl
      (tt, (refl, (tt, (tt, tt))))

-- Stream 1 again, while the task of the first stream 1 still runs.
abbrev reused : Server
reused = record init {
  entries =
      kill (connect_error reset_error) (new_entry 1 headers_envelope)
      ∷ new_entry 1 headers_envelope
      ∷ [];
  streams = (1, 1) ∷ [];
  running = 0 ∷ 1 ∷ [];
}

get-reused : IdMap.get reused.streams 1 ≡ some 1
unfolding IdMap.get
get-reused = refl

own-reused : (kill (connect_error reset_error) (new_entry 1 headers_envelope)).stream_id ≡ 1
unfolding kill
own-reused = refl

settles-reused_id_example :
    (IdMap.get (step reused (settles 0)).streams 1 ≡ none)
    × (get_elem? (step reused (settles 0)).entries 1 ≡ some (new_entry 1 headers_envelope))
    × (step (step reused (settles 0)) (message (prefixed 1 data_envelope))
        ≡ step reused (settles 0))
settles-reused_id_example =
    settles-reused_id reused 1 0 1 (kill (connect_error reset_error) (new_entry 1 headers_envelope))
      (new_entry 1 headers_envelope) (prefixed 1 data_envelope) data_frame refl (omega arith) refl
      own-reused get-reused refl decode-data refl (omega arith)
