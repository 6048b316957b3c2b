-- ===== src/Mux/Stale.antt =====
-- A stream ID that is used again while the old stream's task still runs.
use connect_bidi_web.Common.{ℕ, ◌≡◌, ap, ◌∙◌, ◌≢◌, none, some, List, get_elem?, ==_refl}
use connect_bidi_web.Common.IdMap
use connect_bidi_web.Common.IdMap.{get-put, get-delete}
use connect_bidi_web.Wire.{StreamFrame, ok, decode_stream_frame, flag_envelope_headers}
use connect_bidi_web.Mux.{
  StreamEntry, Server, task_closes, close_in, task_settles, remove, serving, message, settles, step,
}
use connect_bidi_web.Mux.Turns.{step-receive, receive-drop}

task_settles-held :
    (s : Server) (r : ℕ) (entry : StreamEntry)
    → get_elem? s.entries r ≡ some entry
    → task_settles s r
      ≡ record s { running = remove r s.running; streams = IdMap.delete s.streams entry.stream_id }
unfolding task_settles task_closes
task_settles-held s r entry h = rw (h, close_in)

-- When a task ends, its stream's ID leaves the table, also where the ID has been given to a newer
-- stream meanwhile: that stream's entry stays as it was, but from then on the
-- server drops every frame for it but a headers envelope.
pub settles-reused_id :
    (s : Server) (id old new : ℕ) (before after : StreamEntry) (m : List ℕ) (frame : StreamFrame)
    → s.phase ≡ serving
    → old ≢ new
    → get_elem? s.entries old ≡ some before
    → before.stream_id ≡ id
    → IdMap.get s.streams id ≡ some new
    → get_elem? s.entries new ≡ some after
    → decode_stream_frame m ≡ ok frame
    → frame.stream_id ≡ id
    → frame.flag ≢ flag_envelope_headers
    → let t = step s (settles old) in
      (IdMap.get t.streams id ≡ none)
      × (get_elem? t.entries new ≡ some after)
      × (step t (message m) ≡ t)
unfolding step
settles-reused_id s id old new before after m frame p n held own at live d e f =
    let t : Server = task_settles s old in
    let gone : IdMap.get t.streams id ≡ none =
      ap (λ (u : Server). IdMap.get u.streams id) (task_settles-held s old before held)
      ∙ rw own (get-delete s.streams id id ∙ rw (==_refl id)) in
    (
      gone,
      ap (λ (u : Server). get_elem? u.entries new) (task_settles-held s old before held) ∙ live,
      step-receive t m (ap (λ (u : Server). u.phase) (task_settles-held s old before held) ∙ p)
          ∙ receive-drop t m frame d f (rw e gone),
    )
