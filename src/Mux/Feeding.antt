-- ===== src/Mux/Feeding.antt =====
-- Every event, and whole runs, seen from one stream.
use connect_bidi_web.Common.{
  ℕ, ◌≡◌, refl, sym, ap, ◌∙◌, subst, inl, inr, List, [], ◌∷◌, ◌++◌, append-nil, append_assoc,
  length, get_elem?, modify, get_elem?-modify_self, get_elem?-modify_ne, get_elem?-append_last,
  arith, ◌==◌, ==_iff, ==_refl, Bool-cases, Option-cases,
}
use mathlib.Core.Bool.{false≢true}
use connect_bidi_web.Common.IdMap
use connect_bidi_web.Common.IdMap.{get-put, get-delete}
use connect_bidi_web.Platform.{read, read-chunks, read-readable}
use connect_bidi_web.Mux.{
  StreamEntry, Server, new_entry, start_stream, or_same, task_writes, task_reads, task_closes,
  close_in, task_settles, serving, Event, message, read_ends, read_fails, idles, writes, reads,
  closes, settles, signal_aborts, finishes, loop_step, step, run,
}
use connect_bidi_web.Mux.Invariant.{Inv, step-Inv, task_writes-same, start_stream-Inv}
use connect_bidi_web.Mux.Delivery.{Receives, arrives, arrivals, Calm, AllCalm, receive-Receives}

abbrev after_read : StreamEntry → StreamEntry
after_read entry = record entry { controller = read entry.controller }

module _ (s : Server) (id r : ℕ) (cs : List (List ℕ)) (v : Inv s) (h : Receives s id r cs) where
  task_writes-Receives :
      (q : ℕ) (chunk : List ℕ) → Receives (or_same s (task_writes s q chunk)) id r cs
  unfolding task_writes
  task_writes-Receives q chunk =
      let same = task_writes-same s q chunk in
      record {
        in_loop = same.2 ∙ h.in_loop;
        mapped = ap (λ m. IdMap.get m id) same.1 ∙ h.mapped;
        entry = h.entry;
        held = ap (λ (m : List StreamEntry). get_elem? m r) same.0 ∙ h.held;
        live = h.live;
        given = h.given;
      }

  task_reads-Receives : (q : ℕ) → Receives (task_reads s q) id r cs
  unfolding task_reads
  task_reads-Receives q = elim (Bool-cases (q == r)) [
    | inl own ↦
        let e : q ≡ r = (==_iff q r).0 own in
        record {
          in_loop = h.in_loop;
          mapped = h.mapped;
          entry = after_read h.entry;
          held =
              ap (λ (t : ℕ). get_elem? (modify s.entries t after_read) r) e
              ∙ get_elem?-modify_self s.entries r after_read h.held;
          live = record {
            own = h.live.own;
            kept = h.live.kept;
            unaborted = h.live.unaborted;
            open_controller = read-readable h.entry.controller h.live.open_controller;
          };
          given = read-chunks h.entry.controller h.live.open_controller ∙ h.given;
        }
    | inr other ↦ record {
      in_loop = h.in_loop;
      mapped = h.mapped;
      entry = h.entry;
      held =
          get_elem?-modify_ne s.entries after_read (λ e. false≢true (sym other ∙ (==_iff q r).1 e))
          ∙ h.held;
      live = h.live;
      given = h.given;
    }
  ]

  task_closes-Receives : (q : ℕ) → Calm id s (closes q) → Receives (task_closes s q) id r cs
  unfolding task_closes
  task_closes-Receives q n = elim (Option-cases (get_elem? s.entries q)) [
    | inl e ↦ rw (e, close_in) h
    | inr (entry, e) ↦
        rw (e, close_in)
          (record {
            in_loop = h.in_loop;
            mapped = ground (arith, get-delete s.streams entry.stream_id id, n entry e, h.mapped);
            entry = h.entry;
            held = h.held;
            live = h.live;
            given = h.given;
          })
  ]

  task_settles-Receives : (q : ℕ) → Calm id s (settles q) → Receives (task_settles s q) id r cs
  unfolding task_settles task_closes
  task_settles-Receives q n = elim (Option-cases (get_elem? s.entries q)) [
    | inl e ↦
        rw (e, close_in)
          (record {
            in_loop = h.in_loop;
            mapped = h.mapped;
            entry = h.entry;
            held = h.held;
            live = h.live;
            given = h.given;
          })
    | inr (entry, e) ↦
        rw (e, close_in)
          (record {
            in_loop = h.in_loop;
            mapped = ground (arith, get-delete s.streams entry.stream_id id, n entry e, h.mapped);
            entry = h.entry;
            held = h.held;
            live = h.live;
            given = h.given;
          })
  ]

  same_chunks : {t : Server} → Receives t id r cs → Receives t id r (cs ++ [])
  same_chunks {t} g = subst (Receives t id r) (sym (append-nil cs)) g

  -- One event.
  step-Receives : (e : Event) → Calm id s e → Receives (step s e) id r (cs ++ arrives id e)
  unfolding step loop_step
  step-Receives (message m) n =
      subst (λ p. Receives (loop_step p s (message m)) id r (cs ++ arrives id (message m)))
        (sym h.in_loop) (receive-Receives s id r cs v h m n)
  step-Receives (writes q chunk) n = same_chunks (task_writes-Receives q chunk)
  step-Receives (reads q) n = same_chunks (task_reads-Receives q)
  step-Receives (closes q) n = same_chunks (task_closes-Receives q n)
  step-Receives (settles q) n = same_chunks (task_settles-Receives q n)
  step-Receives finishes n =
      subst (λ p. Receives (loop_step p s finishes) id r (cs ++ [])) (sym h.in_loop) (same_chunks h)
  step-Receives read_ends n = absurd n
  step-Receives read_fails n = absurd n
  step-Receives idles n = absurd n
  step-Receives (signal_aborts reason) n = absurd n

started_stream :
    (s : Server) (id : ℕ) (headers : List ℕ)
    → s.phase ≡ serving
    → Receives (start_stream s id headers) id (length s.entries) (headers ∷ [])
unfolding start_stream
started_stream s id headers p = record {
  in_loop = p;
  mapped = ground (arith, get-put s.streams id (length s.entries) id, ==_refl id);
  entry = new_entry id headers;
  held = get_elem?-append_last s.entries (new_entry id headers);
  live = record { own = refl; kept = refl; unaborted = refl; open_controller = refl };
  given = refl;
}

run-Receives :
    (s : Server) (id r : ℕ) (cs : List (List ℕ)) (es : List Event)
    → Inv s
    → Receives s id r cs
    → AllCalm id s es
    → Receives (run s es) id r (cs ++ arrivals id es)
unfolding run
run-Receives s id r cs [] v h n = subst (Receives s id r) (sym (append-nil cs)) h
run-Receives s id r cs (e ∷ es) v h (n, ns) =
    subst (Receives (run (step s e) es) id r) (append_assoc cs (arrives id e) (arrivals id es)) (
      run-Receives (step s e) id r (cs ++ arrives id e) es (step-Inv s e v)
        (step-Receives s id r cs v h e n) ns)

-- From the headers envelope that opens a stream on, over any interleaving of messages for any
-- streams, handlers' reads and writes and the ends of other streams' tasks, the stream stays in the
-- table, alive, and what its `handleBidiSocket` was given is the headers envelope and then the
-- envelopes of the messages with its stream ID, each once and in order, as long as no event ends the
-- connection, resets the stream or settles a task of the same ID.
pub run-start_stream :
    (s : Server) (id : ℕ) (headers : List ℕ) (es : List Event)
    → Inv s
    → s.phase ≡ serving
    → AllCalm id (start_stream s id headers) es
    → Receives (run (start_stream s id headers) es) id (length s.entries) (headers ∷ arrivals id es)
run-start_stream s id headers es v p n =
    run-Receives (start_stream s id headers) id (length s.entries) (headers ∷ []) es
      (start_stream-Inv s id headers v) (started_stream s id headers p) n
