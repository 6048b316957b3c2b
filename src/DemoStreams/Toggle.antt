-- ===== src/DemoStreams/Toggle.antt =====
-- The toggle of the lanes.
use connect_bidi_web.Common.{
  ℕ, zero, suc, ◌+◌, ◌<◌, ◌≤◌, ℤ, pos, ◌≡◌, refl, sym, ap, ◌∙◌, subst, Bool, true, false, Option,
  none, some, List, [], ◌∷◌, length, length-append, length-modify, get_elem?, arith, ltb, ◌&&◌,
  ◌||◌, ◌==◌, if_rule, if◌then◌else◌,
}
use connect_bidi_web.DemoStreams.{
  Lane, Run, View, pred, is_zero, set_toggle_running, run_lane, run_lanes, start_all, flip_back,
  finish_run, make_request, take_response, Ending, Event, requests, responds, finishes, step, run,
}

-- Whether a run is among those that have ended.
abbrev pub ended_in : ℕ → List ℕ → Bool
ended_in r [] = false
ended_in r (q ∷ ended) = r == q || ended_in r ended

-- Events of the lanes' own runs: no click, `k` runs end, all of them with a number from `start` on and
-- below `n`, each at most once and none that is among `ended`.
pub data Course (start n : ℕ) : List ℕ → List Event → ℕ → Type 0 where
  over : {ended : List ℕ} → Course start n ended [] 0
  asks :
      (r : ℕ) {ended : List ℕ} {es : List Event} {k : ℕ}
      → Course start n ended es k
      → Course start n ended (requests r ∷ es) k
  gets :
      (r : ℕ) {ended : List ℕ} {es : List Event} {k : ℕ}
      → Course start n ended es k
      → Course start n ended (responds r ∷ es) k
  ends :
      (r : ℕ) (ending : Ending) {ended : List ℕ} {es : List Event} {k : ℕ}
      → start ≤ r
      → r < n
      → ended_in r ended ≡ false
      → Course start n (r ∷ ended) es k
      → Course start n ended (finishes r ending ∷ es) (suc k)

-- Whether the toggle is on, the count of active lanes, and the number of runs.
abbrev Ledger : Type 0
Ledger = Bool × ℤ × ℕ

abbrev ledger : View → Ledger
ledger v = (v.running, v.active_lanes, length v.runs)

-- What the end of one run does to it.
abbrev settle : Ledger → Ledger
settle (running, count, runs) =
    (if is_zero (pred count) && running then false else running, pred count, runs)

abbrev settles : ℕ → Ledger → Ledger
settles zero l = l
settles (suc k) l = settles k (settle l)

make_request-ledger : (v : View) (r : ℕ) (o : Option Run) → ledger (make_request v r o) ≡ ledger v
unfolding make_request
make_request-ledger v r none = refl
make_request-ledger v r (some u) =
    if_rule (λ t. ledger t ≡ ledger v) _
      (λ h. ap (λ (n : ℕ). (v.running, v.active_lanes, n)) (length-modify v.runs r _)) (λ h. refl)

take_response-ledger : (v : View) (o : Option Run) → ledger (take_response v o) ≡ ledger v
unfolding take_response
take_response-ledger v none = refl
take_response-ledger v (some u) = refl

flip_back-ledger :
    (v : View)
    → ledger (flip_back v) ≡ (
      if is_zero v.active_lanes && v.running then false else v.running,
      v.active_lanes,
      length v.runs,
    )
unfolding flip_back set_toggle_running
flip_back-ledger v = ground arith

finish_run-ledger :
    (v : View) (r : ℕ) (ending : Ending) (u : Run)
    → ledger (finish_run v r ending (some u)) ≡ settle (ledger v)
unfolding finish_run
finish_run-ledger v r ending u =
    flip_back-ledger _
    ∙ ap
        (λ (n : ℕ). (
          if is_zero (pred v.active_lanes) && v.running then false else v.running,
          pred v.active_lanes,
          n,
        ))
        (length-modify v.runs r _)

get_elem?-below :
    {A : Type 0} (xs : List A) (i : ℕ) → i < length xs → (a : A) × (get_elem? xs i ≡ some a)
get_elem?-below [] i h = absurd (omega arith)
get_elem?-below (x ∷ xs) zero h = (x, refl)
get_elem?-below (x ∷ xs) (suc i) h = get_elem?-below xs i (omega arith)

run-ledger :
    (start n : ℕ) (v : View) (ended : List ℕ) (es : List Event) (k : ℕ)
    → n ≤ length v.runs
    → Course start n ended es k
    → ledger (run v es) ≡ settles k (ledger v)
unfolding run step
run-ledger start n v _ _ _ le over = refl
run-ledger start n v _ _ k le (asks r {ended} {es} c) =
    let same = make_request-ledger v r (get_elem? v.runs r) in
    run-ledger start n (make_request v r (get_elem? v.runs r)) ended es k
      (subst (λ (l : Ledger). n ≤ l.2) (sym same) le) c
    ∙ ap (settles k) same
run-ledger start n v _ _ k le (gets r {ended} {es} c) =
    let same = take_response-ledger v (get_elem? v.runs r) in
    run-ledger start n (take_response v (get_elem? v.runs r)) ended es k
      (subst (λ (l : Ledger). n ≤ l.2) (sym same) le) c
    ∙ ap (settles k) same
run-ledger start n v _ _ _ le (ends r ending {ended} {es} {k} from below once c) =
    let (u, held) = get_elem?-below v.runs r (omega arith) in
    let same : ledger (finish_run v r ending (get_elem? v.runs r)) ≡ settle (ledger v) =
      ap (λ (o : Option Run). ledger (finish_run v r ending o)) held
      ∙ finish_run-ledger v r ending u in
    run-ledger start n (finish_run v r ending (get_elem? v.runs r)) (r ∷ ended) es k
      (subst (λ (l : Ledger). n ≤ l.2) (sym same) le) c
    ∙ ap (settles k) same

settles-on : (k n m : ℕ) → 0 < n → k ≤ n → (settles k (true, pos n, m)).0 ≡ ltb k n
settles-on zero n m some_lane le = ground arith
settles-on (suc k) zero m some_lane le = absurd (omega arith)
settles-on (suc zero) (suc zero) m some_lane le = refl
settles-on (suc (suc k)) (suc zero) m some_lane le = absurd (omega arith)
settles-on (suc k) (suc (suc n)) m some_lane le =
    settles-on k (suc n) m (omega arith) (omega arith) ∙ ground arith

run_lanes-ledger :
    (v : View) (i : ℕ) (lanes : List Lane)
    → ledger (run_lanes v i lanes) ≡ (v.running, v.active_lanes, length v.runs + length lanes)
unfolding run_lanes run_lane
run_lanes-ledger v i [] = ap (λ (n : ℕ). (v.running, v.active_lanes, n)) (omega arith)
run_lanes-ledger v i (lane ∷ lanes) =
    run_lanes-ledger (run_lane v i) (suc i) lanes
    ∙ ap (λ (n : ℕ). (v.running, v.active_lanes, n))
        (omega (
          arith,
          length-append v.runs
              ((record { lane = i; aborted = false; requests = 0; returned = false }) ∷ []),
        ))

pub start_all-ledger :
    (v : View) → ledger (start_all v) ≡ (true, pos (length v.lanes), length v.runs + length v.lanes)
unfolding start_all set_toggle_running
start_all-ledger v = run_lanes-ledger _ 0 v.lanes

-- The toggle after a start, whichever runs end.
pub start_all-toggle :
    (v : View) (start n : ℕ) (ended : List ℕ) (es : List Event) (k : ℕ)
    → 0 < length v.lanes
    → k ≤ length v.lanes
    → n ≤ length (start_all v).runs
    → Course start n ended es k
    → (run (start_all v) es).running ≡ ltb k (length v.lanes)
start_all-toggle v start n ended es k some_lane le below c =
    ap (λ (l : Ledger). l.0)
      (run-ledger start n (start_all v) ended es k below c ∙ ap (settles k) (start_all-ledger v))
    ∙ settles-on k (length v.lanes) (length v.runs + length v.lanes) some_lane le

-- After all lanes are started, while nobody clicks and of the runs only those of this start end, each
-- at most once: the toggle stays on while fewer runs than lanes have ended, and goes off with the end of the last,
-- whatever is requested and answered and however the runs end.
pub run-toggle :
    (v : View) (es : List Event) (k : ℕ)
    → 0 < length v.lanes
    → k ≤ length v.lanes
    → Course (length v.runs) (length (start_all v).runs) [] es k
    → (run (start_all v) es).running ≡ ltb k (length v.lanes)
run-toggle v es k some_lane le c =
    start_all-toggle v (length v.runs) (length (start_all v).runs) [] es k some_lane le
      (omega arith) c
