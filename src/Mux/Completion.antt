-- ===== src/Mux/Completion.antt =====
-- When the promise of a connection settles.
use connect_bidi_web.Common.{
  ℕ, ◌≡◌, refl, sym, ap, ◌∙◌, subst, true, List, [], ◌∷◌, ◌++◌, map, All, arith, ◌==◌, if_rule,
}
use connect_bidi_web.Mux.{
  Server, task_closes, task_settles, remove, finish, finish_with, close_socket, CloseCall,
  close_plain, Phase, draining, cancelling, closing_writer, finished, Event, settles, finishes,
  loop_step, step, run,
}
use connect_bidi_web.Mux.Turns.{member}

-- Every task that runs is among `rs`.
abbrev pub Covers : List ℕ → List ℕ → Type 0
Covers rs running = All (λ r. member r rs ≡ true) running

remove-Covers :
    (r : ℕ) (rs running : List ℕ) → Covers (r ∷ rs) running → Covers rs (remove r running)
remove-Covers r rs [] h = tt
remove-Covers r rs (q ∷ running) (h, hs) =
    let rest = remove-Covers r rs running hs in
    if_rule (Covers rs) (q == r) (λ e. rest) (λ e. (ground arith, rest))

Covers-nil : (running : List ℕ) → Covers [] running → running ≡ []
Covers-nil [] h = refl
Covers-nil (q ∷ running) (h, hs) = cc

pub settles-running :
    (s : Server) (r : ℕ)
    → ((step s (settles r)).running ≡ remove r s.running)
      × ((step s (settles r)).closes ≡ s.closes)
      × ((step s (settles r)).phase ≡ s.phase)
      × ((step s (settles r)).thrown ≡ s.thrown)
unfolding step task_settles task_closes
settles-running s r = ground arith

-- Where `finally` is once `Promise.allSettled` is looked at: only without a running task is it through.
abbrev pub phase_of : List ℕ → Phase
phase_of [] = cancelling
phase_of (r ∷ running) = draining

finish_with-waits :
    (s : Server) (running : List ℕ)
    → s.phase ≡ draining
    → ((finish_with s running).phase ≡ phase_of running)
      × ((finish_with s running).closes ≡ s.closes)
unfolding finish_with
finish_with-waits s [] p = (refl, refl)
finish_with-waits s (r ∷ running) p = (p, refl)

step-waits :
    (s : Server)
    → s.phase ≡ draining
    → ((step s finishes).phase ≡ phase_of s.running) × ((step s finishes).closes ≡ s.closes)
unfolding step loop_step finish
step-waits s p =
    subst
      (λ q.
        ((loop_step q s finishes).phase ≡ phase_of s.running)
        × ((loop_step q s finishes).closes ≡ s.closes))
      (sym p) (finish_with-waits s s.running p)

-- `finally` from where no task runs any more.
run-closing :
    (s : Server)
    → s.phase ≡ draining
    → s.running ≡ []
    → run s (finishes ∷ finishes ∷ []) ≡ record s { phase = closing_writer }
unfolding run step loop_step finish
run-closing s p e =
    ap (λ q. run (loop_step q s finishes) (finishes ∷ [])) p
    ∙ ap (λ running. run (finish_with s running) (finishes ∷ [])) e

run-last :
    (s : Server)
    → s.phase ≡ draining
    → s.running ≡ []
    → run s (finishes ∷ finishes ∷ finishes ∷ [])
      ≡ record s { closes = s.closes ++ close_plain ∷ []; phase = finished }
unfolding run step loop_step finish close_socket
run-last s p e =
    ap (λ q. run (loop_step q s finishes) (finishes ∷ finishes ∷ [])) p
    ∙ ap (λ running. run (finish_with s running) (finishes ∷ finishes ∷ [])) e

run-settles :
    (s : Server) (rs : List ℕ) (es : List Event)
    → Covers rs s.running
    → (u : Server) × (run s (map settles rs ++ es) ≡ run u es)
      × (u.running ≡ [])
      × (u.phase ≡ s.phase)
      × (u.closes ≡ s.closes)
      × (u.thrown ≡ s.thrown)
unfolding run
run-settles s [] es h = (s, refl, Covers-nil s.running h, refl, refl, refl)
run-settles s (r ∷ rs) es h =
    let one = settles-running s r in
    let (u, same, none_left, phase, closes, thrown) =
      run-settles (step s (settles r)) rs es
        (subst (Covers rs) (sym one.0) (remove-Covers r rs s.running h)) in
    (u, same, none_left, phase ∙ one.2, closes ∙ one.1, thrown ∙ one.3)

-- Once the loop is left: while a task runs, `finally` waits and closes nothing; and when every task
-- that was running has settled, in any order, `finally` awaits the reader's `cancel` and then the
-- writer's `close` before anything is closed; after that the connection is closed with one more call
-- of `socket.close`, without a code, and the promise settles as the loop was left, with or without
-- an exception.
pub run-finishes :
    (s : Server) (rs : List ℕ)
    → s.phase ≡ draining
    → Covers rs s.running
    → let waited = step s finishes in
      let closing = run s (map settles rs ++ finishes ∷ finishes ∷ []) in
      let t = run s (map settles rs ++ finishes ∷ finishes ∷ finishes ∷ []) in
      (waited.phase ≡ phase_of s.running)
      × (waited.closes ≡ s.closes)
      × (closing.phase ≡ closing_writer)
      × (closing.closes ≡ s.closes)
      × (t.phase ≡ finished)
      × (t.closes ≡ s.closes ++ close_plain ∷ [])
      × (t.running ≡ [])
      × (t.thrown ≡ s.thrown)
run-finishes s rs p h =
    let (u, same, none_left, phase, closes, thrown) =
      run-settles s rs (finishes ∷ finishes ∷ finishes ∷ []) h in
    let whole = same ∙ run-last u (phase ∙ p) none_left in
    let (w, same', left', phase', closes', thrown') =
      run-settles s rs (finishes ∷ finishes ∷ []) h in
    let before_last = same' ∙ run-closing w (phase' ∙ p) left' in
    (
      (step-waits s p).0,
      (step-waits s p).1,
      ap (λ (t : Server). t.phase) before_last,
      ap (λ (t : Server). t.closes) before_last ∙ closes',
      ap (λ (t : Server). t.phase) whole,
      ap (λ (t : Server). t.closes) whole
          ∙ ap (λ (cs : List CloseCall). cs ++ close_plain ∷ []) closes,
      ap (λ (t : Server). t.running) whole ∙ none_left,
      ap (λ (t : Server). t.thrown) whole ∙ thrown,
    )
