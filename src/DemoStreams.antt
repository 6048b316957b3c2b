-- ===== src/DemoStreams.antt =====
-- demo/web/src/demo/streams-view.ts: the lanes that run concurrent streams, and their toggle. Each run
-- of a lane between two `await`s is one step; a run that writes or reads is given by its number.
pub mod Toggle
pub mod Stale
use connect_bidi_web.Common.{
  ℕ, zero, suc, ◌+◌, ℤ, pos, negsuc, Bool, true, false, not, ◌&&◌, Option, none, some, List, [],
  ◌∷◌, ◌++◌, length, get_elem?, modify, ltb, if◌then◌else◌,
}

abbrev pub messages_per_lane : ℕ
messages_per_lane = 20

-- The badge of a lane: IDLE, ACTIVE, COMPLETED or ERROR.
pub data Badge : Type 0 where
  idle active completed failed : Badge

-- A lane, with its badge. The abort controller is named by the run that made it.
pub record Lane : Type 0 where
  pub id : ℕ
  pub tx_count : ℕ
  pub rx_count : ℕ
  pub abort_controller : Option ℕ
  pub badge : Badge

-- A call of `runLane`: the number of its lane, its signal, how many requests it has made, and whether
-- it has returned.
pub record Run : Type 0 where
  pub lane : ℕ
  pub aborted : Bool
  pub requests : ℕ
  pub returned : Bool

pub record View : Type 0 where
  pub lanes : List Lane
  pub runs : List Run
  pub running : Bool
  pub active_lanes : ℤ
  pub hint_hidden : Bool

abbrev fresh_lane : ℕ → Lane
fresh_lane id = record {
  id = id;
  tx_count = 0;
  rx_count = 0;
  abort_controller = none;
  badge = idle;
}

abbrev pub create_streams_view : View
create_streams_view = record {
  lanes = fresh_lane 1 ∷ fresh_lane 2 ∷ fresh_lane 3 ∷ fresh_lane 4 ∷ [];
  runs = [];
  running = false;
  active_lanes = pos 0;
  hint_hidden = true;
}

abbrev pub pred : ℤ → ℤ
pred (pos zero) = negsuc 0
pred (pos (suc n)) = pos n
pred (negsuc n) = negsuc (suc n)

abbrev pub is_zero : ℤ → Bool
is_zero (pos zero) = true
is_zero _ = false

-- `runLane` of lane `i` up to its first `await`.
unfoldable pub run_lane : View → ℕ → View
run_lane v i = record v {
  lanes = modify v.lanes i (λ lane. record lane {
    tx_count = 0;
    rx_count = 0;
    abort_controller = some (length v.runs);
    badge = active;
  });
  runs = v.runs ++ (record { lane = i; aborted = false; requests = 0; returned = false }) ∷ [];
}

-- The loop of `startAll`, over the lanes from number `i` on.
unfoldable pub run_lanes : View → ℕ → List Lane → View
run_lanes v i [] = v
run_lanes v i (lane ∷ lanes) = run_lanes (run_lane v i) (suc i) lanes

unfoldable pub set_toggle_running : View → Bool → View
set_toggle_running v is_running = record v { running = is_running }

unfoldable pub start_all : View → View
start_all v =
    run_lanes
      (record (set_toggle_running v true) {
        hint_hidden = true;
        active_lanes = pos (length v.lanes);
      })
      0 v.lanes

-- `lane.abortController?.abort()`
abort_run : List Run → Option ℕ → List Run
abort_run runs none = runs
abort_run runs (some r) = modify runs r (λ run. record run { aborted = true })

unfoldable pub abort_lanes : List Run → List Lane → List Run
unfolding abort_run
abort_lanes runs [] = runs
abort_lanes runs (lane ∷ lanes) = abort_lanes (abort_run runs lane.abort_controller) lanes

unfoldable pub stop_all : View → View
stop_all v = record (set_toggle_running v false) { runs = abort_lanes v.runs v.lanes }

-- The listener of the toggle button.
unfoldable pub click : View → View
click v = if v.running then stop_all v else start_all v

unfoldable pub stop_streams : View → View
stop_streams v = if v.running then stop_all v else v

-- A turn of `generateRequests`.
make_request : View → ℕ → Option Run → View
make_request v r none = v
make_request v r (some run) =
    if ltb run.requests messages_per_lane && not run.aborted
    then record v {
      lanes = modify v.lanes run.lane (λ lane. record lane { tx_count = lane.tx_count + 1 });
      runs = modify v.runs r (λ u. record u { requests = u.requests + 1 });
    }
    else v

take_response : View → Option Run → View
take_response v none = v
take_response v (some run) = record v {
  lanes = modify v.lanes run.lane (λ lane. record lane { rx_count = lane.rx_count + 1 });
}

-- How a call of `converse` ends: well, or with an error, which may be one of a WebTransport connection.
pub data Ending : Type 0 where
  ends_well : Ending
  ends_with_error : Bool → Ending

has_failed : Run → Ending → Bool
has_failed run ends_well = false
has_failed run (ends_with_error is_connection_error) = not run.aborted

hint_after : Run → Ending → Bool → Bool
hint_after run ends_well hidden = hidden
hint_after run (ends_with_error is_connection_error) hidden =
    if not run.aborted && is_connection_error then false else hidden

-- The last lines of `finally`.
flip_back : View → View
flip_back v = if is_zero v.active_lanes && v.running then set_toggle_running v false else v

-- `catch` and `finally` of a run.
unfoldable pub finish_run : View → ℕ → Ending → Option Run → View
unfolding has_failed hint_after flip_back
finish_run v r ending none = v
finish_run v r ending (some run) = flip_back (record v {
  lanes =
      modify v.lanes run.lane
        (λ lane. record lane { badge = if has_failed run ending then failed else completed });
  runs = modify v.runs r (λ u. record u { returned = true });
  active_lanes = pred v.active_lanes;
  hint_hidden = hint_after run ending v.hint_hidden;
})

-- What happens to the runs, and what the visitor does.
pub data Event : Type 0 where
  requests responds : ℕ → Event
  finishes : ℕ → Ending → Event
  clicks switches : Event

unfoldable pub step : View → Event → View
unfolding make_request take_response
step v (requests r) = make_request v r (get_elem? v.runs r)
step v (responds r) = take_response v (get_elem? v.runs r)
step v (finishes r ending) = finish_run v r ending (get_elem? v.runs r)
step v clicks = click v
step v switches = stop_streams v

unfoldable pub run : View → List Event → View
run v [] = v
run v (e ∷ es) = run (step v e) es
