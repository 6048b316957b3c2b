-- ===== src/DemoStreams/Stale.antt =====
-- Lanes that are stopped and started again before their old runs have returned.
use connect_bidi_web.Common.{
  ℕ, suc, ◌+◌, ◌<◌, ◌≤◌, ◌≡◌, ◌≢◌, refl, sym, ap, ◌∙◌, subst, Bool, true, false, Option, none, some,
  List, [], ◌∷◌, length, length-append, length-modify, get_elem?, get_elem?-modify_ne,
  get_elem?-modify_self, get_elem?-append_old, get_elem?-append_last, modify, arith, ◌⊎◌, inl, inr,
  pos, ℤ, if_rule, if◌then◌else◌, ◌==◌, ==_iff, Bool-cases,
}
use mathlib.Core.Bool.{false≢true}
use connect_bidi_web.DemoStreams.{
  Lane, Run, View, set_toggle_running, run_lane, run_lanes, start_all, stop_all, click, abort_run,
  abort_lanes, pred, failed, completed, has_failed, hint_after, flip_back, finish_run, make_request,
  take_response, Ending, Event, step, run,
}
use connect_bidi_web.DemoStreams.Toggle.{
  Course, over, asks, gets, ends, start_all-ledger, start_all-toggle,
}

-- Run `q` goes on: it is not aborted and has not returned.
pub record GoesOn (v : View) (q : ℕ) : Type 0 where
  pub state : Run
  pub held : get_elem? v.runs q ≡ some state
  pub not_aborted : state.aborted ≡ false
  pub not_returned : state.returned ≡ false

GoesOn-runs : (v t : View) (q : ℕ) → t.runs ≡ v.runs → GoesOn v q → GoesOn t q
GoesOn-runs v t q e g = record {
  state = g.state;
  held = ap (λ (rs : List Run). get_elem? rs q) e ∙ g.held;
  not_aborted = g.not_aborted;
  not_returned = g.not_returned;
}

GoesOn-make_request :
    (v : View) (r q : ℕ) (o : Option Run) → GoesOn v q → GoesOn (make_request v r o) q
unfolding make_request
GoesOn-make_request v r q none g = g
GoesOn-make_request v r q (some u) g =
    if_rule (λ t. GoesOn t q) _ (λ h. moved (Bool-cases (r == q))) (λ h. g)
  where
    counted : Run → Run
    counted w = record w { requests = w.requests + 1 }

    moved :
        (((r == q) ≡ true) ⊎ ((r == q) ≡ false))
        → GoesOn
            (record v {
              lanes = modify v.lanes u.lane (λ lane. record lane { tx_count = lane.tx_count + 1 });
              runs = modify v.runs r counted;
            })
            q
    moved (inl same) = record {
      state = counted g.state;
      held =
          subst (λ (t : ℕ). get_elem? (modify v.runs t counted) q ≡ some (counted g.state))
            (sym ((==_iff r q).0 same)) (get_elem?-modify_self v.runs q counted g.held);
      not_aborted = g.not_aborted;
      not_returned = g.not_returned;
    }
    moved (inr other) = record {
      state = g.state;
      held =
          get_elem?-modify_ne v.runs counted (λ e. false≢true (sym other ∙ (==_iff r q).1 e))
          ∙ g.held;
      not_aborted = g.not_aborted;
      not_returned = g.not_returned;
    }

flip_back-runs : (v : View) → (flip_back v).runs ≡ v.runs
unfolding flip_back set_toggle_running
flip_back-runs v = if_rule (λ (t : View). t.runs ≡ v.runs) _ (λ h. refl) (λ h. refl)

flip_back-GoesOn : (v : View) (q : ℕ) → GoesOn v q → GoesOn (flip_back v) q
flip_back-GoesOn v q g = GoesOn-runs v (flip_back v) q (flip_back-runs v) g

GoesOn-finish_run :
    (v : View) (r q : ℕ) (ending : Ending) (o : Option Run)
    → r < q
    → GoesOn v q
    → GoesOn (finish_run v r ending o) q
unfolding finish_run
GoesOn-finish_run v r q ending none below g = g
GoesOn-finish_run v r q ending (some u) below g =
    let other : r ≢ q = λ e. absurd (omega arith) in
    let settled : View = record v {
      lanes =
          modify v.lanes u.lane
            (λ lane. record lane { badge = if has_failed u ending then failed else completed });
      runs = modify v.runs r (λ w. record w { returned = true });
      active_lanes = pred v.active_lanes;
      hint_hidden = hint_after u ending v.hint_hidden;
    } in
    flip_back-GoesOn settled q (record {
      state = g.state;
      held = get_elem?-modify_ne v.runs (λ w. record w { returned = true }) other ∙ g.held;
      not_aborted = g.not_aborted;
      not_returned = g.not_returned;
    })

GoesOn-take_response :
    (v : View) (q : ℕ) (o : Option Run) → GoesOn v q → GoesOn (take_response v o) q
unfolding take_response
GoesOn-take_response v q none g = g
GoesOn-take_response v q (some u) g = GoesOn-runs v _ q refl g

-- Runs below `q` may end; run `q` goes on.
GoesOn-run :
    (start q : ℕ) (v : View) (ended : List ℕ) (es : List Event) (k : ℕ)
    → Course start q ended es k
    → GoesOn v q
    → GoesOn (run v es) q
unfolding run step
GoesOn-run start q v _ _ _ over g = g
GoesOn-run start q v _ _ k (asks r {ended} {es} c) g =
    GoesOn-run start q (make_request v r (get_elem? v.runs r)) ended es k c
      (GoesOn-make_request v r q (get_elem? v.runs r) g)
GoesOn-run start q v _ _ k (gets r {ended} {es} c) g =
    GoesOn-run start q (take_response v (get_elem? v.runs r)) ended es k c
      (GoesOn-take_response v q (get_elem? v.runs r) g)
GoesOn-run start q v _ _ _ (ends r ending {ended} {es} {k} from below once c) g =
    GoesOn-run start q (finish_run v r ending (get_elem? v.runs r)) (r ∷ ended) es k c
      (GoesOn-finish_run v r q ending (get_elem? v.runs r) below g)

run_lanes-old :
    (v : View) (i : ℕ) (lanes : List Lane) (q : ℕ)
    → q < length v.runs
    → get_elem? (run_lanes v i lanes).runs q ≡ get_elem? v.runs q
unfolding run_lanes run_lane
run_lanes-old v i [] q below = refl
run_lanes-old v i (lane ∷ lanes) q below =
    let u : Run = record { lane = i; aborted = false; requests = 0; returned = false } in
    run_lanes-old (run_lane v i) (suc i) lanes q (omega (arith, length-append v.runs (u ∷ [])))
    ∙ get_elem?-append_old v.runs (u ∷ []) q below

GoesOn-run_lanes :
    (v : View) (i : ℕ) (lane : Lane) (lanes : List Lane)
    → GoesOn (run_lanes v i (lane ∷ lanes)) (length v.runs)
unfolding run_lanes run_lane
GoesOn-run_lanes v i lane lanes =
    let u : Run = record { lane = i; aborted = false; requests = 0; returned = false } in
    record {
      state = u;
      held =
          run_lanes-old (run_lane v i) (suc i) lanes (length v.runs)
            (omega (arith, length-append v.runs (u ∷ [])))
          ∙ get_elem?-append_last v.runs u;
      not_aborted = refl;
      not_returned = refl;
    }

GoesOn-start_all : (v : View) → 0 < length v.lanes → GoesOn (start_all v) (length v.runs)
unfolding start_all set_toggle_running
GoesOn-start_all v some_lane = first v.lanes some_lane
  where
    first :
        (lanes : List Lane)
        → 0 < length lanes
        → GoesOn
            (run_lanes
              (record v { running = true; hint_hidden = true; active_lanes = pos (length v.lanes) })
              0
              lanes)
            (length v.runs)
    first [] h = absurd (omega arith)
    first (lane ∷ lanes) h = GoesOn-run_lanes _ 0 lane lanes

length-abort_lanes :
    (runs : List Run) (lanes : List Lane) → length (abort_lanes runs lanes) ≡ length runs
unfolding abort_lanes
length-abort_lanes runs [] = refl
length-abort_lanes runs (lane ∷ lanes) =
    length-abort_lanes (abort_run runs lane.abort_controller) lanes
    ∙ length-abort_run runs lane.abort_controller
  where
    length-abort_run : (rs : List Run) (o : Option ℕ) → length (abort_run rs o) ≡ length rs
    length-abort_run rs none = refl
    length-abort_run rs (some r) = length-modify rs r (λ w. record w { aborted = true })

length-run_lanes :
    (v : View) (i : ℕ) (lanes : List Lane) → length (run_lanes v i lanes).lanes ≡ length v.lanes
unfolding run_lanes run_lane
length-run_lanes v i [] = refl
length-run_lanes v i (lane ∷ lanes) =
    length-run_lanes (run_lane v i) (suc i) lanes ∙ length-modify v.lanes i _

length-start_all : (v : View) → length (start_all v).lanes ≡ length v.lanes
unfolding start_all set_toggle_running
length-start_all v = length-run_lanes _ 0 v.lanes

runs-stop_all : (v : View) → length (stop_all v).runs ≡ length v.runs
unfolding stop_all set_toggle_running
runs-stop_all v = length-abort_lanes v.runs v.lanes

lanes-stop_all : (v : View) → (stop_all v).lanes ≡ v.lanes
unfolding stop_all set_toggle_running
lanes-stop_all v = refl

runs-start_all : (v : View) → length v.runs ≤ length (start_all v).runs
runs-start_all v = omega (arith, ap (λ (l : Bool × ℤ × ℕ). l.2) (start_all-ledger v))

-- Lanes that are stopped and started again, and no click after that: as soon as the runs of the first start have returned,
-- each once, the toggle goes off, while the new run of the first lane goes on; the next
-- click starts all lanes once more in place of stopping them.
pub run-stale :
    (v : View) (es : List Event)
    → 0 < length v.lanes
    → Course (length v.runs) (length (start_all v).runs) [] es (length v.lanes)
    → let t = run (start_all (stop_all (start_all v))) es in
      (t.running ≡ false) × GoesOn t (length (start_all v).runs) × (click t ≡ start_all t)
unfolding click
run-stale v es some_lane c =
    let stopped = stop_all (start_all v) in
    let lanes : length stopped.lanes ≡ length v.lanes =
      ap length (lanes-stop_all (start_all v)) ∙ length-start_all v in
    let runs = runs-stop_all (start_all v) in
    let off : (run (start_all stopped) es).running ≡ false =
      start_all-toggle stopped (length v.runs) (length (start_all v).runs) [] es (length v.lanes)
        (omega (arith, lanes)) (omega (arith, lanes)) (omega (arith, runs, runs-start_all stopped))
        c
      ∙ ground (arith, lanes) in
    (
      off,
      GoesOn-run (length v.runs) (length (start_all v).runs) (start_all stopped) [] es
          (length v.lanes) c
          (subst (λ (q : ℕ). GoesOn (start_all stopped) q) runs
            (GoesOn-start_all stopped (omega (arith, lanes)))),
      rw (off),
    )
