-- ===== src/Mux/Heap.antt =====
-- What every entry of the heap keeps: a property that new entries have and that neither a reset nor
-- traffic on the entry's controller takes away.
use connect_bidi_web.Common.{
  ℕ, ◌≡◌, sym, subst, inl, inr, Option, none, some, List, [], ◌∷◌, get_elem?, All, ◌==◌,
  Option-cases, if_rule,
}
use connect_bidi_web.Common.IdMap
use connect_bidi_web.Common.IdMap.{get-put, get-delete}
use connect_bidi_web.Platform.{Channel, read}
use connect_bidi_web.Wire.{
  StreamFrame, Decoded-cases, ok, decode_stream_frame, flag_envelope_headers, flag_envelope_reset,
}
use connect_bidi_web.Mux.{
  Reason, StreamEntry, Server, kill, kill_all, teardown, leave, new_entry, start_stream,
  reset_stream, deliver, deliver_in, deliver_to, route, route_to, receive, idle_fires, task_reads,
  task_settles, close_socket, Phase, serving, draining, cancelling, closing_writer, Event, message,
  read_ends, read_fails, idles, writes, reads, closes, settles, signal_aborts, finishes, loop_step,
  step,
}
use connect_bidi_web.Common.{All-append, All-modify}
use connect_bidi_web.Mux.Invariant.{task_writes-same, finish-same}
use connect_bidi_web.Mux.Reset.{task_closes-entries}

module _ (P : StreamEntry → Type 0)
    (after_kill : (reason : Reason) (entry : StreamEntry) → P entry → P (kill reason entry))
    (after_traffic : (c : Channel Reason) (entry : StreamEntry)
      → P entry
      → P (record entry { controller = c })) where
  kill_all-All :
      (reason : Reason) (rs : List ℕ) (entries : List StreamEntry)
      → All P entries
      → All P (kill_all reason rs entries)
  unfolding kill_all
  kill_all-All reason [] entries h = h
  kill_all-All reason (r ∷ rs) entries h =
      kill_all-All reason rs _ (All-modify P entries r (kill reason) (after_kill reason) h)

  leave-All : (s : Server) → All P s.entries → All P (leave s).entries
  unfolding leave teardown
  leave-All s h = kill_all-All _ (IdMap.values s.streams) s.entries h

  deliver_to-All :
      (s : Server) (r : ℕ) (o : Option (Channel Reason))
      → All P s.entries
      → All P (deliver_to s r o).entries
  unfolding deliver_to
  deliver_to-All s r none h = leave-All s h
  deliver_to-All s r (some c) h = All-modify P s.entries r _ (after_traffic c) h

  deliver-All :
      (s : Server) (r : ℕ) (envelope : List ℕ)
      → All P s.entries
      → All P (deliver s r envelope).entries
  unfolding deliver
  deliver-All s r envelope h = elim (Option-cases (get_elem? s.entries r)) [
    | inl e ↦ rw (e, deliver_in) h
    | inr (entry, e) ↦ rw (e, deliver_in) (deliver_to-All s r _ h)
  ]

  route-All :
      (s : Server) (frame : StreamFrame)
      → P (new_entry frame.stream_id frame.envelope)
      → All P s.entries
      → All P (route s frame).entries
  unfolding route start_stream reset_stream
  route-All s frame n h = elim (Option-cases (IdMap.get s.streams frame.stream_id)) [
    | inl e ↦
        rw (e, route_to)
          (if_rule (λ (t : Server). All P t.entries) (frame.flag == flag_envelope_headers)
            (λ _. All-append P s.entries _ h (n, tt)) (λ _. h))
    | inr (r, e) ↦
        rw (e, route_to)
          (if_rule (λ (t : Server). All P t.entries) (frame.flag == flag_envelope_reset)
            (λ _. All-modify P s.entries r _ (after_kill _) h)
            (λ _. deliver-All s r frame.envelope h))
  ]

  -- The stream that an event may open has the property.
  abbrev pub Opens : Event → Type 0
  Opens (message m) =
      (frame : StreamFrame)
      → decode_stream_frame m ≡ ok frame
      → P (new_entry frame.stream_id frame.envelope)
  Opens _ = Unit

  receive-All :
      (s : Server) (m : List ℕ) → Opens (message m) → All P s.entries → All P (receive s m).entries
  unfolding receive
  receive-All s m n h = elim (Decoded-cases (decode_stream_frame m)) [
    | inl (frame, e) ↦ rw (e, receive) (route-All s frame (n frame e) h)
    | inr (refused, e) ↦ rw (e, receive) (leave-All s h)
  ]

  loop_step-All :
      (p : Phase) (s : Server) (e : Event)
      → Opens e
      → All P s.entries
      → All P (loop_step p s e).entries
  unfolding loop_step idle_fires
  loop_step-All serving s (message m) n h = receive-All s m n h
  loop_step-All serving s read_ends n h = leave-All s h
  loop_step-All serving s read_fails n h = leave-All s h
  loop_step-All serving s idles n h = leave-All _ h
  loop_step-All draining s finishes n h = subst (All P) (sym (finish-same s).0) h
  loop_step-All cancelling s finishes n h = h
  loop_step-All closing_writer s finishes n h = unfold close_socket in h
  loop_step-All _ s _ n h = h

  pub step-All : (s : Server) (e : Event) → Opens e → All P s.entries → All P (step s e).entries
  unfolding step task_reads task_settles teardown
  step-All s (writes r chunk) n h = subst (All P) (sym (task_writes-same s r chunk).0) h
  step-All s (reads r) n h =
      All-modify P s.entries r _ (λ entry x. after_traffic (read entry.controller) entry x) h
  step-All s (closes r) n h = subst (All P) (sym (task_closes-entries s r)) h
  step-All s (settles r) n h = subst (All P) (sym (task_closes-entries _ r)) h
  step-All s (signal_aborts reason) n h = kill_all-All _ (IdMap.values s.streams) s.entries h
  step-All s (message m) n h = loop_step-All s.phase s (message m) n h
  step-All s read_ends n h = loop_step-All s.phase s read_ends n h
  step-All s read_fails n h = loop_step-All s.phase s read_fails n h
  step-All s idles n h = loop_step-All s.phase s idles n h
  step-All s finishes n h = loop_step-All s.phase s finishes n h
