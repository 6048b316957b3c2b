-- ===== src/Mux/Awaiting.antt =====
-- The promise of a connection while a task runs.
use connect_bidi_web.Common.{
  ℕ, ◌≡◌, refl, sym, ◌∙◌, subst, true, false, List, [], ◌∷◌, All, arith, ◌==◌,
}
use connect_bidi_web.Mux.{
  Server, or_same, task_writes, task_reads, task_closes, teardown, remove, finish, CloseCall,
  draining, Event, message, read_ends, read_fails, idles, writes, reads, closes, settles,
  signal_aborts, finishes, loop_step, step, run,
}
use connect_bidi_web.Mux.Turns.{member}
use connect_bidi_web.Mux.Completion.{settles-running}

-- An event that is not the end of task `q`.
abbrev pub IsOther : ℕ → Event → Type 0
IsOther q (settles r) = (r == q) ≡ false
IsOther q _ = Unit

-- `finally` waits for task `q`, and the calls of `socket.close` are `cs`.
abbrev pub Waits : ℕ → Server → List CloseCall → Type 0
Waits q s cs = (s.phase ≡ draining) × (member q s.running ≡ true) × (s.closes ≡ cs)

remove-member :
    (q r : ℕ) (running : List ℕ)
    → (r == q) ≡ false
    → member q running ≡ true
    → member q (remove r running) ≡ true
remove-member q r [] other h = h
remove-member q r (t ∷ running) other h =
    let rest = remove-member q r running other in ground (arith, rest)

module _ (q : ℕ) (cs : List CloseCall) where
  loop_step-Waits :
      (s : Server) (e : Event)
      → Waits q s cs
      → Waits q (loop_step draining s e) cs
      → Waits q (loop_step s.phase s e) cs
  loop_step-Waits s e w h = subst (λ p. Waits q (loop_step p s e) cs) (sym w.0) h

  finish-Waits : (s : Server) → Waits q s cs → Waits q (finish s) cs
  unfolding finish
  finish-Waits s w = ground arith

  writes-Waits :
      (s : Server) (r : ℕ) (chunk : List ℕ)
      → Waits q s cs
      → Waits q (or_same s (task_writes s r chunk)) cs
  unfolding task_writes
  writes-Waits s r chunk w = ground arith

  closes-Waits : (s : Server) (r : ℕ) → Waits q s cs → Waits q (task_closes s r) cs
  unfolding task_closes
  closes-Waits s r w = ground arith

  step-Waits : (s : Server) (e : Event) → IsOther q e → Waits q s cs → Waits q (step s e) cs
  unfolding step loop_step
  step-Waits s (settles r) other (p, m, c) =
      let one = settles-running s r in
      (
        one.2 ∙ p,
        subst (λ rs. member q rs ≡ true) (sym one.0) (remove-member q r s.running other m),
        one.1 ∙ c,
      )
  step-Waits s (writes r chunk) other w = writes-Waits s r chunk w
  step-Waits s (reads r) other w = unfold task_reads in w
  step-Waits s (closes r) other w = closes-Waits s r w
  step-Waits s (signal_aborts reason) other w = unfold teardown in w
  step-Waits s (message m) other w = loop_step-Waits s (message m) w w
  step-Waits s read_ends other w = loop_step-Waits s read_ends w w
  step-Waits s read_fails other w = loop_step-Waits s read_fails w w
  step-Waits s idles other w = loop_step-Waits s idles w w
  step-Waits s finishes other w = loop_step-Waits s finishes w (finish-Waits s w)

  run-Waits :
      (s : Server) (es : List Event) → All (IsOther q) es → Waits q s cs → Waits q (run s es) cs
  unfolding run
  run-Waits s [] others w = w
  run-Waits s (e ∷ es) (other, others) w = run-Waits (step s e) es others (step-Waits s e other w)

-- Once the loop is left, whatever else happens in whatever order: as long as a task that was running
-- then has not settled, the promise does not settle, `finally` awaits the tasks, and it makes no call
-- of `socket.close`.
pub run-awaits :
    (s : Server) (q : ℕ) (es : List Event)
    → s.phase ≡ draining
    → member q s.running ≡ true
    → All (IsOther q) es
    → let t = run s es in (t.phase ≡ draining) × (member q t.running ≡ true) × (t.closes ≡ s.closes)
run-awaits s q es p m others = run-Waits q s.closes s es others (p, m, refl)
