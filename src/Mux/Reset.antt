-- ===== src/Mux/Reset.antt =====
-- Streams that the client resets.
use connect_bidi_web.Common.{
  ℕ, ◌≡◌, refl, sym, ap, ◌∙◌, subst, inl, inr, true, Option, none, some, List, [], ◌∷◌, ◌++◌,
  get_elem?, modify, get_elem?-modify_self, get_elem?-modify_ne, get_elem?-append_old, get_elem?-lt,
  arith, ◌==◌, ==_iff, ==_refl, Bool-cases, Option-cases, if_rule,
}
use mathlib.Core.Bool.{false≢true}
use connect_bidi_web.Common.IdMap
use connect_bidi_web.Common.IdMap.{get-put, get-delete}
use connect_bidi_web.Platform.{canceled, Channel}
use connect_bidi_web.Wire.{
  StreamFrame, Decoded-cases, ok, decode_stream_frame, flag_envelope_headers, flag_envelope_reset,
}
use connect_bidi_web.Mux.{
  Reason, connect_error, caller, StreamEntry, Server, kill, kill_all, reset_error, teardown, leave,
  start_stream, reset_stream, deliver, deliver_in, deliver_to, route, route_to, receive, idle_fires,
  task_writes, write_in, task_reads, task_closes, task_settles, close_socket, Phase, serving,
  draining, cancelling, closing_writer, Event, message, read_ends, read_fails, idles, writes, reads,
  closes, settles, signal_aborts, finishes, loop_step, step, run,
}
use connect_bidi_web.Mux.Turns.{receive-reset_stream}
use connect_bidi_web.Mux.Stopped.{Stopped, kill-Stopped}
use connect_bidi_web.Mux.Invariant.{task_writes-same, finish-same}

-- Entry `r` is reset: its writable refuses every write.
abbrev pub IsReset : List StreamEntry → ℕ → Type 0
IsReset entries r =
    (entry : StreamEntry) × (get_elem? entries r ≡ some entry) × (entry.reset ≡ true)

IsReset-append :
    (entries more : List StreamEntry) (r : ℕ) → IsReset entries r → IsReset (entries ++ more) r
IsReset-append entries more r (a, p, h) =
    (a, get_elem?-append_old entries more r (get_elem?-lt entries r p) ∙ p, h)

-- A change that never clears `reset` keeps it.
IsReset-modify :
    (entries : List StreamEntry) (q r : ℕ) (f : StreamEntry → StreamEntry)
    → ((entry : StreamEntry)
        → get_elem? entries q ≡ some entry
        → entry.reset ≡ true
        → (f entry).reset ≡ true)
    → IsReset entries r
    → IsReset (modify entries q f) r
IsReset-modify entries q r f keep (a, p, h) = elim (Bool-cases (q == r)) [
  | inl same ↦
      let e : q ≡ r = (==_iff q r).0 same in
      (
        f a,
        ap (λ (t : ℕ). get_elem? (modify entries t f) r) e ∙ get_elem?-modify_self entries r f p,
        keep a (rw e p) h,
      )
  | inr other ↦
      (a, get_elem?-modify_ne entries f (λ e. false≢true (sym other ∙ (==_iff q r).1 e)) ∙ p, h)
]

kill_all-IsReset :
    (reason : Reason) (rs : List ℕ) (entries : List StreamEntry) (r : ℕ)
    → IsReset entries r
    → IsReset (kill_all reason rs entries) r
unfolding kill_all kill
kill_all-IsReset reason [] entries r h = h
kill_all-IsReset reason (q ∷ rs) entries r h =
    kill_all-IsReset reason rs (modify entries q (kill reason)) r
      (IsReset-modify entries q r (kill reason) (λ entry p x. refl) h)

teardown-IsReset :
    (s : Server) (reason : Reason) (r : ℕ)
    → IsReset s.entries r
    → IsReset (teardown s reason).entries r
unfolding teardown
teardown-IsReset s reason r h = kill_all-IsReset reason (IdMap.values s.streams) s.entries r h

leave-IsReset : (s : Server) (r : ℕ) → IsReset s.entries r → IsReset (leave s).entries r
unfolding leave
leave-IsReset s r h = teardown-IsReset s _ r h

deliver_to-IsReset :
    (s : Server) (q r : ℕ) (o : Option (Channel Reason))
    → IsReset s.entries r
    → IsReset (deliver_to s q o).entries r
unfolding deliver_to
deliver_to-IsReset s q r none h = leave-IsReset s r h
deliver_to-IsReset s q r (some c) h = IsReset-modify s.entries q r _ (λ entry p x. x) h

deliver-IsReset :
    (s : Server) (q r : ℕ) (envelope : List ℕ)
    → IsReset s.entries r
    → IsReset (deliver s q envelope).entries r
unfolding deliver
deliver-IsReset s q r envelope h = elim (Option-cases (get_elem? s.entries q)) [
  | inl e ↦ rw (e, deliver_in) h
  | inr (entry, e) ↦ rw (e, deliver_in) (deliver_to-IsReset s q r _ h)
]

route-IsReset :
    (s : Server) (frame : StreamFrame) (r : ℕ)
    → IsReset s.entries r
    → IsReset (route s frame).entries r
unfolding route start_stream reset_stream
route-IsReset s frame r h = elim (Option-cases (IdMap.get s.streams frame.stream_id)) [
  | inl e ↦
      rw (e, route_to)
        (if_rule (λ (t : Server). IsReset t.entries r) (frame.flag == flag_envelope_headers)
          (λ _. IsReset-append s.entries _ r h) (λ _. h))
  | inr (q, e) ↦
      rw (e, route_to)
        (if_rule (λ (t : Server). IsReset t.entries r) (frame.flag == flag_envelope_reset)
          (λ _. IsReset-modify s.entries q r _ (λ entry p x. unfold kill in refl) h)
          (λ _. deliver-IsReset s q r frame.envelope h))
]

receive-IsReset :
    (s : Server) (m : List ℕ) (r : ℕ) → IsReset s.entries r → IsReset (receive s m).entries r
unfolding receive
receive-IsReset s m r h = elim (Decoded-cases (decode_stream_frame m)) [
  | inl (frame, e) ↦ rw (e, receive) (route-IsReset s frame r h)
  | inr (refused, e) ↦ rw (e, receive) (leave-IsReset s r h)
]

loop_step-IsReset :
    (p : Phase) (s : Server) (e : Event) (r : ℕ)
    → IsReset s.entries r
    → IsReset (loop_step p s e).entries r
unfolding loop_step idle_fires
loop_step-IsReset serving s (message m) r h = receive-IsReset s m r h
loop_step-IsReset serving s read_ends r h = leave-IsReset s r h
loop_step-IsReset serving s read_fails r h = leave-IsReset s r h
loop_step-IsReset serving s idles r h = leave-IsReset _ r h
loop_step-IsReset draining s finishes r h =
    subst (λ entries. IsReset entries r) (sym (finish-same s).0) h
loop_step-IsReset cancelling s finishes r h = h
loop_step-IsReset closing_writer s finishes r h = unfold close_socket in h
loop_step-IsReset _ s _ r h = h

pub task_closes-entries : (s : Server) (q : ℕ) → (task_closes s q).entries ≡ s.entries
unfolding task_closes
task_closes-entries s q = ground arith

step-IsReset : (s : Server) (e : Event) (r : ℕ) → IsReset s.entries r → IsReset (step s e).entries r
unfolding step task_reads task_settles
step-IsReset s (writes q chunk) r h =
    subst (λ entries. IsReset entries r) (sym (task_writes-same s q chunk).0) h
step-IsReset s (reads q) r h = IsReset-modify s.entries q r _ (λ entry p x. x) h
step-IsReset s (closes q) r h =
    subst (λ entries. IsReset entries r) (sym (task_closes-entries s q)) h
step-IsReset s (settles q) r h =
    subst (λ entries. IsReset entries r) (sym (task_closes-entries _ q)) h
step-IsReset s (signal_aborts reason) r h = teardown-IsReset s (caller reason) r h
step-IsReset s (message m) r h = loop_step-IsReset s.phase s (message m) r h
step-IsReset s read_ends r h = loop_step-IsReset s.phase s read_ends r h
step-IsReset s read_fails r h = loop_step-IsReset s.phase s read_fails r h
step-IsReset s idles r h = loop_step-IsReset s.phase s idles r h
step-IsReset s finishes r h = loop_step-IsReset s.phase s finishes r h

pub run-IsReset :
    (s : Server) (es : List Event) (r : ℕ) → IsReset s.entries r → IsReset (run s es).entries r
unfolding run
run-IsReset s [] r h = h
run-IsReset s (e ∷ es) r h = run-IsReset (step s e) es r (step-IsReset s e r h)

pub task_writes-IsReset :
    (s : Server) (r : ℕ) (chunk : List ℕ) → IsReset s.entries r → task_writes s r chunk ≡ none
unfolding task_writes
task_writes-IsReset s r chunk (a, p, h) = rw (p, write_in) (rw h)

-- A reset frame for a stream in the table takes the stream out of it; the stream's signal is aborted
-- and its readable side errored, both with "stream reset by client", `Canceled` where nothing ended
-- them before; and from then on, whatever happens on the connection, every write of the stream's
-- handler is refused.
pub receive-reset :
    (s : Server) (m : List ℕ) (frame : StreamFrame) (r : ℕ) (entry : StreamEntry)
    → decode_stream_frame m ≡ ok frame
    → frame.flag ≡ flag_envelope_reset
    → IdMap.get s.streams frame.stream_id ≡ some r
    → get_elem? s.entries r ≡ some entry
    → let t = receive s m in
      (IdMap.get t.streams frame.stream_id ≡ none)
      × ((stopped : StreamEntry) × (get_elem? t.entries r ≡ some stopped)
          × Stopped entry stopped "stream reset by client" canceled)
      × ((es : List Event) (chunk : List ℕ) → task_writes (run t es) r chunk ≡ none)
unfolding reset_stream
receive-reset s m frame r entry d f g held = rw (receive-reset_stream s m frame d r f g) (
    let killed = get_elem?-modify_self s.entries r (kill (connect_error reset_error)) held in
    (
      get-delete s.streams frame.stream_id frame.stream_id ∙ rw (==_refl frame.stream_id),
      (
        kill (connect_error reset_error) entry,
        killed,
        kill-Stopped entry "stream reset by client" canceled,
      ),
      λ es chunk. task_writes-IsReset _ r chunk (
          run-IsReset (reset_stream s frame.stream_id r) es r
            (kill (connect_error reset_error) entry, killed, unfold kill in refl)),
    ))
