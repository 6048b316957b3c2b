-- ===== src/Mux/Invariant.antt =====
-- What the table of streams points at.
use connect_bidi_web.Common.{
  ℕ, ◌≡◌, refl, sym, ◌∙◌, subst, ◌≢◌, inl, inr, false, Option, none, some, List, [], ◌∷◌, ◌++◌,
  length, get_elem?, modify, get_elem?-modify_self, get_elem?-modify_ne, get_elem?-append_old,
  get_elem?-append_last, get_elem?-lt, arith, ◌==◌, ==_iff, Bool-cases, Option-cases, if_rule,
}
use mathlib.Core.Bool.{false≢true}
use connect_bidi_web.Common.IdMap
use connect_bidi_web.Common.IdMap.{get-put, get-delete}
use connect_bidi_web.Platform.{Channel, readable, enqueue, read-readable}
use connect_bidi_web.Wire.{
  StreamFrame, Decoded-cases, decode_stream_frame, flag_envelope_headers, flag_envelope_reset,
}
use connect_bidi_web.Mux.{
  Reason, StreamEntry, Server, init, teardown, leave, start_stream, reset_stream, deliver,
  deliver_in, deliver_to, route, route_to, receive, idle_fires, task_writes, or_same, task_reads,
  task_closes, close_in, task_settles, finish, close_socket, Phase, serving, draining, cancelling,
  closing_writer, Event, message, read_ends, read_fails, idles, writes, reads, closes, settles,
  signal_aborts, finishes, loop_step, step, run, started, caller, new_entry, remove,
}

-- Entry `r` belongs to the stream `id` and is neither reset, aborted, errored nor closed.
pub record IsLive (entry : StreamEntry) (id : ℕ) : Type 0 where
  pub own : entry.stream_id ≡ id
  pub kept : entry.reset ≡ false
  pub unaborted : entry.abort ≡ none
  pub open_controller : entry.controller.state ≡ readable

abbrev pub Owns : List StreamEntry → ℕ → ℕ → Type 0
Owns entries id r = (entry : StreamEntry) × (get_elem? entries r ≡ some entry) × IsLive entry id

abbrev pub Inv : Server → Type 0
Inv s = (id r : ℕ) → IdMap.get s.streams id ≡ some r → Owns s.entries id r

-- An entry belongs to one stream.
pub Owns-unique :
    (entries : List StreamEntry) (i j r : ℕ) → Owns entries i r → Owns entries j r → i ≡ j
Owns-unique entries i j r (a, p, u) (b, q, v) = cc (u.own, v.own)

pub Owns-modify_ne :
    (entries : List StreamEntry) (f : StreamEntry → StreamEntry) (id q r : ℕ)
    → q ≢ r
    → Owns entries id r
    → Owns (modify entries q f) id r
Owns-modify_ne entries f id q r h (a, p, u) = (a, get_elem?-modify_ne entries f h ∙ p, u)

pub Owns-modify_self :
    (entries : List StreamEntry) (f : StreamEntry → StreamEntry) (id r : ℕ)
    → ((entry : StreamEntry)
        → get_elem? entries r ≡ some entry
        → IsLive entry id
        → IsLive (f entry) id)
    → Owns entries id r
    → Owns (modify entries r f) id r
Owns-modify_self entries f id r keep (a, p, u) =
    (f a, get_elem?-modify_self entries r f p, keep a p u)

-- A change that keeps entries alive keeps what is owned.
pub Owns-modify :
    (entries : List StreamEntry) (f : StreamEntry → StreamEntry) (id q r : ℕ)
    → ((entry : StreamEntry)
        → get_elem? entries q ≡ some entry
        → IsLive entry id
        → IsLive (f entry) id)
    → Owns entries id r
    → Owns (modify entries q f) id r
Owns-modify entries f id q r keep o = elim (Bool-cases (q == r)) [
  | inl same ↦
      let e : q ≡ r = (==_iff q r).0 same in
      subst (λ t. Owns (modify entries t f) id r) (sym e)
        (Owns-modify_self entries f id r (λ entry h. keep entry (rw e h)) o)
  | inr other ↦ Owns-modify_ne entries f id q r (ground arith) o
]

Owns-append :
    (entries more : List StreamEntry) (id r : ℕ) → Owns entries id r → Owns (entries ++ more) id r
Owns-append entries more id r (a, p, u) =
    (a, get_elem?-append_old entries more r (get_elem?-lt entries r p) ∙ p, u)

pub enqueue-readable :
    {R : Type 0} (c d : Channel R) (chunk : List ℕ) → enqueue c chunk ≡ some d → d.state ≡ c.state
unfolding enqueue
enqueue-readable c d chunk h = ground arith

pub enqueue-some :
    {R : Type 0} (c : Channel R) (chunk : List ℕ)
    → c.state ≡ readable
    → enqueue c chunk ≡ some (record c { queue = c.queue ++ chunk ∷ [] })
unfolding enqueue
enqueue-some c chunk h = ground arith

init-Inv : Inv init
unfolding IdMap.get
init-Inv id r h = cc

pub teardown-Inv : (s : Server) (reason : Reason) → Inv (teardown s reason)
unfolding teardown IdMap.get
teardown-Inv s reason id r h = cc

pub leave-Inv : (s : Server) → Inv (leave s)
unfolding leave IdMap.get
leave-Inv s id r h = cc

pub start_stream-Inv :
    (s : Server) (id : ℕ) (envelope : List ℕ) → Inv s → Inv (start_stream s id envelope)
unfolding start_stream
start_stream-Inv s id envelope v j r h = elim (Bool-cases (id == j)) [
  | inl same ↦
      let at : length s.entries ≡ r = ground (arith, get-put s.streams id (length s.entries) j) in
      let entry : StreamEntry = new_entry id envelope in
      (
        entry,
        subst (λ t. get_elem? (s.entries ++ entry ∷ []) t ≡ some entry) at
            (get_elem?-append_last s.entries entry),
        record {
          own = (==_iff id j).0 same;
          kept = refl;
          unaborted = refl;
          open_controller = refl;
        },
      )
  | inr other ↦
      Owns-append s.entries _ j r
        (v j r (ground (arith, get-put s.streams id (length s.entries) j)))
]

pub reset_stream-Inv :
    (s : Server) (id r : ℕ) → Owns s.entries id r → Inv s → Inv (reset_stream s id r)
unfolding reset_stream
reset_stream-Inv s id r o v j q h = elim (Bool-cases (id == j)) [
  | inl same ↦ absurd (ground (arith, get-delete s.streams id j))
  | inr other ↦
      let old : Owns s.entries j q = v j q (ground (arith, get-delete s.streams id j)) in
      Owns-modify_ne s.entries _ j r q
        (λ same. false≢true (
          sym other
          ∙ (==_iff id j).1 (Owns-unique s.entries id j q (subst (Owns s.entries id) same o) old)))
        old
]

deliver_to-Inv :
    (s : Server) (r : ℕ) (entry : StreamEntry) (o : Option (Channel Reason)) (envelope : List ℕ)
    → get_elem? s.entries r ≡ some entry
    → enqueue entry.controller envelope ≡ o
    → Inv s
    → Inv (deliver_to s r o)
unfolding deliver_to
deliver_to-Inv s r entry none envelope p e v j q h = leave-Inv s j q h
deliver_to-Inv s r entry (some c) envelope p e v j q h =
    Owns-modify s.entries _ j r q
      (λ x g u. record {
        own = u.own;
        kept = u.kept;
        unaborted = u.unaborted;
        open_controller =
            enqueue-readable entry.controller c envelope e
            ∙ ground (arith, u.open_controller, p, g);
      })
      (v j q h)

pub deliver-Inv : (s : Server) (r : ℕ) (envelope : List ℕ) → Inv s → Inv (deliver s r envelope)
unfolding deliver
deliver-Inv s r envelope v = elim (Option-cases (get_elem? s.entries r)) [
  | inl e ↦ rw (e, deliver_in) v
  | inr (entry, e) ↦ rw (e, deliver_in) (deliver_to-Inv s r entry _ envelope e refl v)
]

pub route-Inv : (s : Server) (frame : StreamFrame) → Inv s → Inv (route s frame)
unfolding route
route-Inv s frame v = elim (Option-cases (IdMap.get s.streams frame.stream_id)) [
  | inl e ↦
      rw (e, route_to)
        (if_rule Inv (frame.flag == flag_envelope_headers)
          (λ _. start_stream-Inv s frame.stream_id frame.envelope v) (λ _. v))
  | inr (r, e) ↦
      rw (e, route_to)
        (if_rule Inv (frame.flag == flag_envelope_reset)
          (λ _. reset_stream-Inv s frame.stream_id r (v frame.stream_id r e) v)
          (λ _. deliver-Inv s r frame.envelope v))
]

-- Only what the table does not point at any more may end.
task_closes-Inv : (s : Server) (r : ℕ) → Inv s → Inv (task_closes s r)
unfolding task_closes
task_closes-Inv s r v = elim (Option-cases (get_elem? s.entries r)) [
  | inl e ↦ rw (e, close_in) v
  | inr (entry, e) ↦
      rw (e, close_in) λ j q h. v j q (ground (arith, get-delete s.streams entry.stream_id j))
]

task_settles-Inv : (s : Server) (r : ℕ) → Inv s → Inv (task_settles s r)
unfolding task_settles
task_settles-Inv s r v = task_closes-Inv (record s { running = remove r s.running }) r v

task_reads-Inv : (s : Server) (r : ℕ) → Inv s → Inv (task_reads s r)
unfolding task_reads
task_reads-Inv s r v j q h =
    Owns-modify s.entries _ j r q
      (λ x g u. record {
        own = u.own;
        kept = u.kept;
        unaborted = u.unaborted;
        open_controller = read-readable x.controller u.open_controller;
      })
      (v j q h)

receive-Inv : (s : Server) (m : List ℕ) → Inv s → Inv (receive s m)
unfolding receive
receive-Inv s m v = elim (Decoded-cases (decode_stream_frame m)) [
  | inl (frame, e) ↦ rw (e, receive) (route-Inv s frame v)
  | inr (refused, e) ↦ rw (e, receive) (leave-Inv s)
]

-- A write of a task touches neither the heap, the table nor the phase.
pub task_writes-same :
    (s : Server) (r : ℕ) (chunk : List ℕ)
    → ((or_same s (task_writes s r chunk)).entries ≡ s.entries)
      × ((or_same s (task_writes s r chunk)).streams ≡ s.streams)
      × ((or_same s (task_writes s r chunk)).phase ≡ s.phase)
unfolding task_writes
task_writes-same s r chunk = ground arith

-- Settling touches neither the heap nor the table.
pub finish-same : (s : Server) → ((finish s).entries ≡ s.entries) × ((finish s).streams ≡ s.streams)
unfolding finish
finish-same s = ground arith

-- The invariant reads the heap and the table only.
Inv-of_same : (s t : Server) → (t.entries ≡ s.entries) × (t.streams ≡ s.streams) → Inv s → Inv t
Inv-of_same s t h v id r g =
    subst (λ entries. Owns entries id r) (sym h.0) (v id r (ground (arith, h.1)))

loop_step-Inv : (p : Phase) (s : Server) (e : Event) → Inv s → Inv (loop_step p s e)
unfolding loop_step idle_fires
loop_step-Inv serving s (message m) v = receive-Inv s m v
loop_step-Inv serving s read_ends v = leave-Inv s
loop_step-Inv serving s read_fails v = leave-Inv s
loop_step-Inv serving s idles v = leave-Inv _
loop_step-Inv draining s finishes v = Inv-of_same s (finish s) (finish-same s) v
loop_step-Inv cancelling s finishes v = v
loop_step-Inv closing_writer s finishes v = unfold close_socket in v
loop_step-Inv _ s _ v = v

-- Every event keeps the invariant.
pub step-Inv : (s : Server) (e : Event) → Inv s → Inv (step s e)
unfolding step
step-Inv s (writes r chunk) v =
    Inv-of_same s (or_same s (task_writes s r chunk))
      ((task_writes-same s r chunk).0, (task_writes-same s r chunk).1) v
step-Inv s (reads r) v = task_reads-Inv s r v
step-Inv s (closes r) v = task_closes-Inv s r v
step-Inv s (settles r) v = task_settles-Inv s r v
step-Inv s (signal_aborts reason) v = teardown-Inv s (caller reason)
step-Inv s (message m) v = loop_step-Inv s.phase s (message m) v
step-Inv s read_ends v = loop_step-Inv s.phase s read_ends v
step-Inv s read_fails v = loop_step-Inv s.phase s read_fails v
step-Inv s idles v = loop_step-Inv s.phase s idles v
step-Inv s finishes v = loop_step-Inv s.phase s finishes v

pub run-Inv : (s : Server) (es : List Event) → Inv s → Inv (run s es)
unfolding run
run-Inv s [] v = v
run-Inv s (e ∷ es) v = run-Inv (step s e) es (step-Inv s e v)

started-Inv : (reason : Option ℕ) → Inv (started reason)
unfolding started
started-Inv none = init-Inv
started-Inv (some reason) = teardown-Inv init (caller reason)

-- From the start of a connection, after any events: an ID in the table of streams points at an
-- entry of its own stream, which is neither reset nor aborted and whose controller is readable, and
-- no two IDs point at the same entry.
pub run-started-Inv :
    (reason : Option ℕ) (es : List Event)
    → let s = run (started reason) es in
      ((id r : ℕ) → IdMap.get s.streams id ≡ some r → Owns s.entries id r)
      × ((i j r : ℕ) → IdMap.get s.streams i ≡ some r → IdMap.get s.streams j ≡ some r → i ≡ j)
run-started-Inv reason es =
    let s = run (started reason) es in
    let v : Inv s = run-Inv (started reason) es (started-Inv reason) in
    (v, λ i j r p q. Owns-unique s.entries i j r (v i r p) (v j r q))
