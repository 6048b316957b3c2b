-- ===== src/Mux/Signal.antt =====
-- The caller's `options.signal`.
use connect_bidi_web.Common.{
  ℕ, ◌≡◌, refl, ◌∙◌, none, some, List, [], length, get_elem?, get_elem?-append_last, ==_refl,
}
use connect_bidi_web.Common.IdMap
use connect_bidi_web.Common.IdMap.{get-put, get-delete}
use connect_bidi_web.Wire.{StreamFrame, ok, decode_stream_frame, flag_envelope_headers}
use connect_bidi_web.Mux.{
  caller, Server, started, kill_all, teardown, new_entry, start_stream, serving, message,
  signal_aborts, step, Event, run,
}
use connect_bidi_web.Mux.Turns.{step-receive, receive-start_stream}

-- Where the signal is aborted before the call, the server does on every sequence of events what it
-- does without a signal: it serves streams, and their signals are not aborted.
pub run-aborted :
    (reason : ℕ) (es : List Event) → run (started (some reason)) es ≡ run (started none) es
unfolding started teardown kill_all IdMap.values
run-aborted reason es = refl

-- A signal that aborts later kills the streams that are in the table, and does not stop the loop: a
-- stream that the client opens next is served, alive.
pub signal-start_stream :
    (s : Server) (reason : ℕ) (m : List ℕ) (frame : StreamFrame)
    → s.phase ≡ serving
    → decode_stream_frame m ≡ ok frame
    → frame.flag ≡ flag_envelope_headers
    → let t = step (step s (signal_aborts reason)) (message m) in
      (t.phase ≡ serving)
      × (r : ℕ) × (IdMap.get t.streams frame.stream_id ≡ some r)
      × (get_elem? t.entries r ≡ some (new_entry frame.stream_id frame.envelope))
unfolding step teardown IdMap.get start_stream
signal-start_stream s reason m frame p d f =
    let t : Server = teardown s (caller reason) in
    let started_again : step t (message m) ≡ start_stream t frame.stream_id frame.envelope =
      step-receive t m p ∙ receive-start_stream t m frame d f refl in
    rw started_again (
      p,
      length t.entries,
      get-put [] frame.stream_id (length t.entries) frame.stream_id ∙ rw (==_refl frame.stream_id),
      get_elem?-append_last t.entries (new_entry frame.stream_id frame.envelope),
    )
