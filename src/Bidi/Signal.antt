-- ===== src/Bidi/Signal.antt =====
-- The signal of a request: the `AbortController` of `handleBidiSocket`, which follows the caller's
-- signal and the failures of the connection.
use connect_bidi_web.Common.{
  ℕ, ◌≡◌, refl, ap, ◌∙◌, Bool, true, false, Option, none, some, List, [], ◌∷◌, ◌++◌, if◌then◌else◌,
}

-- Why the request's signal is aborted: the reason of `options.signal`, the error of the readable
-- side, or the call without a reason at the end.
pub data Cause : Type 0 where
  caller_reason read_error : ℕ → Cause
  finished : Cause

-- `options.signal` when the call is made: none, or one that is aborted already, or one that may be.
pub data CallerSignal : Type 0 where
  no_signal pending : CallerSignal
  already_aborted : ℕ → CallerSignal

pub record Controller : Type 0 where
  -- Whether the listener of `options.signal` is there.
  pub listens : Bool
  pub aborted : Option Cause
  -- The reasons of the abort events that the handler's listeners get.
  pub fired : List Cause

abort_in : Controller → Cause → Option Cause → Controller
abort_in c cause none = record c { aborted = some cause; fired = c.fired ++ cause ∷ [] }
abort_in c cause (some first) = c

-- `controller.abort(reason)`: only the first call has an effect.
unfoldable pub abort : Controller → Cause → Controller
unfolding abort_in
abort c cause = abort_in c cause c.aborted

-- The lines before the `try`.
unfoldable pub follow : CallerSignal → Controller
follow no_signal = record { listens = false; aborted = none; fired = [] }
follow pending = record { listens = true; aborted = none; fired = [] }
follow (already_aborted reason) =
    abort (record { listens = false; aborted = none; fired = [] }) (caller_reason reason)

-- The caller aborts its signal, the readable side fails, or `finally` runs.
pub data Event : Type 0 where
  caller_aborts connection_fails : ℕ → Event
  finally_runs : Event

unfoldable pub step : Controller → Event → Controller
step c (caller_aborts reason) =
    if c.listens then abort (record c { listens = false }) (caller_reason reason) else c
step c (connection_fails error) = abort c (read_error error)
step c finally_runs = abort c finished

unfoldable pub run : Controller → List Event → Controller
run c [] = c
run c (e ∷ es) = run (step c e) es

-- The first cause, by the caller's signal and what happens.
abbrev pub first_cause : Bool → List Event → Option Cause
first_cause listens [] = none
first_cause true (caller_aborts reason ∷ es) = some (caller_reason reason)
first_cause false (caller_aborts reason ∷ es) = first_cause false es
first_cause listens (connection_fails error ∷ es) = some (read_error error)
first_cause listens (finally_runs ∷ es) = some finished

abbrev pub cause_of : CallerSignal → List Event → Option Cause
cause_of no_signal es = first_cause false es
cause_of pending es = first_cause true es
cause_of (already_aborted reason) es = some (caller_reason reason)

abbrev pub fires : Option Cause → List Cause
fires none = []
fires (some cause) = cause ∷ []

abbrev pub outcome : Controller → Option Cause × List Cause
outcome c = (c.aborted, c.fired)

-- Once aborted, always aborted for that reason.
run-aborted_before :
    (listens : Bool) (cause : Cause) (es : List Event)
    → outcome (run (record { listens = listens; aborted = some cause; fired = cause ∷ [] }) es)
      ≡ (some cause, cause ∷ [])
unfolding run step abort
run-aborted_before listens cause [] = refl
run-aborted_before true cause (caller_aborts reason ∷ es) = run-aborted_before false cause es
run-aborted_before false cause (caller_aborts reason ∷ es) = run-aborted_before false cause es
run-aborted_before listens cause (connection_fails error ∷ es) = run-aborted_before listens cause es
run-aborted_before listens cause (finally_runs ∷ es) = run-aborted_before listens cause es

run-fresh :
    (listens : Bool) (es : List Event)
    → outcome (run (record { listens = listens; aborted = none; fired = [] }) es)
      ≡ (first_cause listens es, fires (first_cause listens es))
unfolding run step abort
run-fresh listens [] = refl
run-fresh true (caller_aborts reason ∷ es) = run-aborted_before false (caller_reason reason) es
run-fresh false (caller_aborts reason ∷ es) = run-fresh false es
run-fresh listens (connection_fails error ∷ es) = run-aborted_before listens (read_error error) es
run-fresh listens (finally_runs ∷ es) = run-aborted_before listens finished es

first_cause-finally :
    (listens : Bool) (es : List Event)
    → (cause : Cause) × (first_cause listens (es ++ finally_runs ∷ []) ≡ some cause)
first_cause-finally listens [] = (finished, refl)
first_cause-finally true (caller_aborts reason ∷ es) = (caller_reason reason, refl)
first_cause-finally false (caller_aborts reason ∷ es) = first_cause-finally false es
first_cause-finally listens (connection_fails error ∷ es) = (read_error error, refl)
first_cause-finally listens (finally_runs ∷ es) = (finished, refl)

fresh-finally :
    (listens : Bool) (es : List Event)
    → (cause : Cause) × ((run
          (record { listens = listens; aborted = none; fired = [] })
          (es ++ finally_runs ∷ [])).aborted
        ≡ some cause)
fresh-finally listens es =
    let (cause, e) = first_cause-finally listens es in
    (
      cause,
      ap (λ (o : Option Cause × List Cause). o.0) (run-fresh listens (es ++ finally_runs ∷ [])) ∙ e,
    )

-- Whatever happens, the request's signal is aborted at most once, and for the first cause there is:
-- the caller's signal, where it was aborted before or is aborted in time, a failure of the readable
-- side, also while nothing reads it, or the end of the call, after which it is aborted for certain.
pub run-follow :
    (signal : CallerSignal) (es : List Event)
    → (outcome (run (follow signal) es) ≡ (cause_of signal es, fires (cause_of signal es)))
      × ((cause : Cause) × ((run (follow signal) (es ++ finally_runs ∷ [])).aborted ≡ some cause))
unfolding follow abort
run-follow no_signal es = (run-fresh false es, fresh-finally false es)
run-follow pending es = (run-fresh true es, fresh-finally true es)
run-follow (already_aborted reason) es = (
  run-aborted_before false (caller_reason reason) es,
  (
    caller_reason reason,
    ap (λ (o : Option Cause × List Cause). o.0)
        (run-aborted_before false (caller_reason reason) (es ++ finally_runs ∷ [])),
  ),
)
