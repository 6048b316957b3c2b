-- ===== src/Tests/Handlers.antt =====
-- The servers' handlers, their sockets, and the demo.
use connect_bidi_web.Common.{
  All, String, ◌≡◌, refl, false, true, none, some, List, [], ◌∷◌, ◌++◌, length, arith, ltb,
}
use connect_bidi_web.Web.{type_error, Result, ok, throws}
use connect_bidi_web.Connect.{Handler, unary}
use connect_bidi_web.NodeHandler.{Listener, UpgradeRequest, get_pathname, handle_connection, emit}
use connect_bidi_web.NodeHandler.Upgrades.{emit-path}
use connect_bidi_web.CloudflareHandler.{FetchRequest, FetchResponse}
use connect_bidi_web.DemoStreams.{
  create_streams_view, start_all, stop_all, click, finishes, ends_well, ends_with_error, requests,
  Event, run, run_lane, run_lanes, set_toggle_running,
}
use connect_bidi_web.DemoStreams.Toggle.{Course, over, asks, ends, run-toggle}
use connect_bidi_web.DemoStreams.Stale.{GoesOn, run-stale}
use connect_bidi_web.Bidi.Signal
use connect_bidi_web.Bidi.Signal.{
  Cause, read_error, pending, follow, caller_aborts, connection_fails, finally_runs, outcome,
  run-follow,
}
use connect_bidi_web.DemoTransport
use connect_bidi_web.DemoTransport.{no_session, dial_session, rpc_starts, forgets}
use connect_bidi_web.DemoTransport.Sharing.{Usable, Spares, dial_session-shared}
use connect_bidi_web.Tests.Calls.{H}
use connect_bidi_web.Tests.Sockets.{U}

abbrev listener : String → Listener String H.Headers String
listener path = record {
  handlers = [];
  options = record { path = none; context_values = none; idle_timeout_ms = none };
  path = path;
}

abbrev upgrade_to : String → UpgradeRequest
upgrade_to url = record { url = some url; completes = true }

pathname : get_pathname {E = String} U (some "/websocket") ≡ ok "/websocket"
unfolding get_pathname
pathname = refl

emit-path_example :
    (emit U []
        (listener "/other" ∷ [] ++ listener "/websocket" ∷ listener "/third" ∷ [])
        (upgrade_to "/websocket")
      ≡ ok ([] ++ handle_connection (listener "/websocket") ∷ []))
    × (emit {Headers = H.Headers} {Context = String} U []
          (listener "/other" ∷ [] ++ listener "/third" ∷ [])
          (upgrade_to "/websocket")
        ≡ ok [])
    × (emit {Headers = H.Headers} {Context = String} U []
          (listener "/websocket" ∷ listener "/third" ∷ [])
          (upgrade_to "//")
        ≡ throws type_error)
emit-path_example =
    emit-path U [] (listener "/other" ∷ []) (listener "/third" ∷ []) (listener "/websocket")
      (upgrade_to "/websocket") (upgrade_to "//") "/websocket" pathname (refl, tt) (refl, tt) refl
      refl refl

abbrev handler : String → Handler String H.Headers
handler path = record {
  request_path = path;
  method_kind = unary;
  call = λ request. throws type_error;
}

abbrev answer_say :
    Handler String H.Headers → FetchRequest H.Headers → Result String (FetchResponse H.Headers)
answer_say h request = ok (record {
  status = 200;
  headers = [];
  body = some (1 ∷ []);
  has_web_socket = false;
  status_text = "";
})

abbrev get_say : FetchRequest H.Headers
get_say = record { method = "POST"; url = "https://host/a.B/C"; headers = [] }

abbrev same : String → String
same s = s

four : length (start_all create_streams_view).runs ≡ 4
unfolding start_all set_toggle_running run_lanes run_lane
four = refl

abbrev endings : List Event
endings =
    requests 2
    ∷ finishes 0 ends_well
    ∷ finishes 3 (ends_with_error false)
    ∷ finishes 1 ends_well
    ∷ finishes 2 ends_well
    ∷ []

all_end : Course 0 (length (start_all create_streams_view).runs) [] endings 4
all_end = asks 2 (
    ends 0 ends_well (omega arith) (omega (arith, four)) refl (
      ends 3 (ends_with_error false) (omega arith) (omega (arith, four)) refl (
        ends 1 ends_well (omega arith) (omega (arith, four)) refl
          (ends 2 ends_well (omega arith) (omega (arith, four)) refl over))))

run-toggle_example : (run (start_all create_streams_view) endings).running ≡ ltb 4 4
run-toggle_example = run-toggle create_streams_view endings 4 (omega arith) (omega arith) all_end

run-stale_example :
    let t = run (start_all (stop_all (start_all create_streams_view))) endings in
    (t.running ≡ false)
    × GoesOn t (length (start_all create_streams_view).runs)
    × (click t ≡ start_all t)
run-stale_example = run-stale create_streams_view endings (omega arith) all_end

run-follow_example :
    (outcome (Signal.run (follow pending) (connection_fails 7 ∷ caller_aborts 3 ∷ []))
      ≡ (some (read_error 7), read_error 7 ∷ []))
    × ((cause : Cause) × ((Signal.run
            (follow pending)
            ((connection_fails 7 ∷ caller_aborts 3 ∷ []) ++ finally_runs ∷ [])).aborted
          ≡ some cause))
run-follow_example = run-follow pending (connection_fails 7 ∷ caller_aborts 3 ∷ [])

-- Session 0 dies and its `forget` runs late, when session 1 is there, and once more after that.
abbrev deaths : List DemoTransport.Event
deaths = rpc_starts ∷ DemoTransport.ends 0 ∷ forgets 0 ∷ rpc_starts ∷ forgets 0 ∷ []

abbrev after_deaths : List DemoTransport.Event
after_deaths = forgets 0 ∷ DemoTransport.ends 1 ∷ rpc_starts ∷ []

spared : All (Spares (dial_session (DemoTransport.run no_session deaths)).1) after_deaths
unfolding dial_session DemoTransport.run DemoTransport.step DemoTransport.session_ends
    DemoTransport.forget
spared = (refl, (tt, (tt, tt)))

dial_session-shared_example :
    let (t, k) = dial_session (DemoTransport.run no_session deaths) in
    Usable t.dialed k
    × (dial_session (DemoTransport.run t after_deaths) ≡ (DemoTransport.run t after_deaths, k))
dial_session-shared_example = dial_session-shared deaths after_deaths spared
