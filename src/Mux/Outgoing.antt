-- ===== src/Mux/Outgoing.antt =====
-- What the tasks write, as the client's end of the connection takes it apart.
pub mod Frames
use connect_bidi_web.Common.{
  ℕ, ◌<◌, ◌^◌, ◌≡◌, refl, sym, ap, ◌∙◌, inl, inr, Option, none, some, List, [], ◌∷◌, ◌++◌,
  append-nil, append_assoc, length, get_elem?, All, arith, ◌==◌, Bool-cases, Option-cases,
  if◌then◌else◌,
}
use connect_bidi_web.Wire.{Decoded, decode_stream_frame, encode_stream_frame}
use connect_bidi_web.Mux.{
  Reason, StreamEntry, Server, kill, teardown, leave, start_stream, reset_stream, deliver,
  deliver_to, route, receive, idle_fires, or_same, task_writes, write_in, task_reads, task_closes,
  task_settles, finish, close_socket, Phase, serving, draining, cancelling, closing_writer, Event,
  message, read_ends, read_fails, idles, writes, reads, closes, settles, signal_aborts, finishes,
  loop_step, step, run,
}
use connect_bidi_web.Common.{All-get_elem?}
use connect_bidi_web.Wire.Bytes.{IsByte}
use connect_bidi_web.Wire.RoundTrip.{envelope_of, decode-encode, encode-decode}
use connect_bidi_web.Mux.Delivery.{arriving}
use connect_bidi_web.Mux.Heap.{Opens, step-All}

-- The envelopes of the messages that decode to stream `id`.
abbrev pub outgoing : ℕ → List (List ℕ) → List (List ℕ)
outgoing id [] = []
outgoing id (m ∷ sent) = arriving id (decode_stream_frame m) ++ outgoing id sent

-- The envelope that an event's write puts on stream `id`: the chunk, if the writing task's entry
-- has that ID and is not reset.
abbrev pub written_by : ℕ → List ℕ → Option StreamEntry → List (List ℕ)
written_by id chunk none = []
written_by id chunk (some entry) =
    if entry.reset then [] else if entry.stream_id == id then chunk ∷ [] else []

abbrev pub written : ℕ → Server → Event → List (List ℕ)
written id s (writes r chunk) = written_by id chunk (get_elem? s.entries r)
written id s _ = []

abbrev pub writings : ℕ → Server → List Event → List (List ℕ)
writings id s [] = []
writings id s (e ∷ es) = written id s e ++ writings id (step s e) es

-- Messages are bytes, and the tasks write one envelope at a time.
abbrev pub IsWellFormed : Event → Type 0
IsWellFormed (message m) = All IsByte m
IsWellFormed (writes r chunk) =
    (flag : ℕ) × (payload : List ℕ) × (chunk ≡ envelope_of flag payload) × (length payload < 2 ^ 32)
IsWellFormed _ = Unit

-- An ID that four bytes hold.
abbrev pub Fits : StreamEntry → Type 0
Fits entry = entry.stream_id < 2 ^ 32

outgoing-append :
    (id : ℕ) (sent more : List (List ℕ))
    → outgoing id (sent ++ more) ≡ outgoing id sent ++ outgoing id more
outgoing-append id [] more = refl
outgoing-append id (m ∷ sent) more =
    ap (◌++◌ (arriving id (decode_stream_frame m))) (outgoing-append id sent more)
    ∙ sym (append_assoc (arriving id (decode_stream_frame m)) (outgoing id sent) (outgoing id more))

receive-sent : (s : Server) (m : List ℕ) → (receive s m).sent ≡ s.sent
unfolding receive route start_stream reset_stream deliver deliver_to leave teardown
receive-sent s m = ground arith

loop_step-sent : (p : Phase) (s : Server) (e : Event) → (loop_step p s e).sent ≡ s.sent
unfolding loop_step idle_fires leave teardown finish close_socket
loop_step-sent serving s (message m) = receive-sent s m
loop_step-sent serving s read_ends = refl
loop_step-sent serving s read_fails = refl
loop_step-sent serving s idles = refl
loop_step-sent draining s finishes = ground arith
loop_step-sent cancelling s finishes = refl
loop_step-sent closing_writer s finishes = refl
loop_step-sent _ s _ = refl

task_closes-sent : (s : Server) (r : ℕ) → (task_closes s r).sent ≡ s.sent
unfolding task_closes
task_closes-sent s r = ground arith

write-outgoing :
    (s : Server) (id r flag : ℕ) (payload : List ℕ)
    → All Fits s.entries
    → length payload < 2 ^ 32
    → outgoing id (or_same s (task_writes s r (envelope_of flag payload))).sent
      ≡ outgoing id s.sent ++ written id s (writes r (envelope_of flag payload))
unfolding task_writes
write-outgoing s id r flag payload fits short = elim (Option-cases (get_elem? s.entries r)) [
  | inl e ↦ rw (e, write_in) (sym (append-nil _))
  | inr (entry, e) ↦ elim (Bool-cases entry.reset) [
    | inl dead ↦ rw (e, write_in) (rw dead (sym (append-nil _)))
    | inr alive ↦
        rw (e, write_in)
          (rw alive (
            outgoing-append id s.sent
              (encode_stream_frame entry.stream_id (envelope_of flag payload) ∷ [])
            ∙ ap (λ (d : Decoded). outgoing id s.sent ++ (arriving id d ++ []))
                (decode-encode entry.stream_id flag payload (All-get_elem? Fits s.entries r fits e)
                  short)
            ∙ ap (◌++◌ (outgoing id s.sent)) (append-nil _)))
  ]
]

step-outgoing :
    (s : Server) (id : ℕ) (e : Event)
    → All Fits s.entries
    → IsWellFormed e
    → outgoing id (step s e).sent ≡ outgoing id s.sent ++ written id s e
unfolding step task_reads task_settles teardown
step-outgoing s id (writes r chunk) fits (flag, payload, e, short) =
    rw e (write-outgoing s id r flag payload fits short)
step-outgoing s id (reads r) fits w = sym (append-nil _)
step-outgoing s id (closes r) fits w = ap (outgoing id) (task_closes-sent s r) ∙ sym (append-nil _)
step-outgoing s id (settles r) fits w = ap (outgoing id) (task_closes-sent _ r) ∙ sym (append-nil _)
step-outgoing s id (signal_aborts reason) fits w = sym (append-nil _)
step-outgoing s id (message m) fits w =
    ap (outgoing id) (loop_step-sent s.phase s (message m)) ∙ sym (append-nil _)
step-outgoing s id read_ends fits w =
    ap (outgoing id) (loop_step-sent s.phase s read_ends) ∙ sym (append-nil _)
step-outgoing s id read_fails fits w =
    ap (outgoing id) (loop_step-sent s.phase s read_fails) ∙ sym (append-nil _)
step-outgoing s id idles fits w =
    ap (outgoing id) (loop_step-sent s.phase s idles) ∙ sym (append-nil _)
step-outgoing s id finishes fits w =
    ap (outgoing id) (loop_step-sent s.phase s finishes) ∙ sym (append-nil _)

Fits-kill : (reason : Reason) (entry : StreamEntry) → Fits entry → Fits (kill reason entry)
unfolding kill
Fits-kill reason entry h = h

Opens-Fits : (e : Event) → IsWellFormed e → Opens Fits Fits-kill (λ c entry h. h) e
Opens-Fits (message m) w = λ frame d. (encode-decode m frame w d).1
Opens-Fits _ w = tt

pub step-Fits :
    (s : Server) (e : Event) → All Fits s.entries → IsWellFormed e → All Fits (step s e).entries
step-Fits s e fits w = step-All Fits Fits-kill (λ c entry h. h) s e (Opens-Fits e w) fits

-- Over any run in which the messages are bytes and each task writes one envelope at a time, what a
-- client reads on stream `id` is what the tasks of that stream's entries wrote before they were
-- reset: each envelope once, whole and in the order of the writes, however the tasks interleave.
pub run-outgoing :
    (s : Server) (id : ℕ) (es : List Event)
    → All Fits s.entries
    → All IsWellFormed es
    → outgoing id (run s es).sent ≡ outgoing id s.sent ++ writings id s es
unfolding run
run-outgoing s id [] fits w = sym (append-nil _)
run-outgoing s id (e ∷ es) fits (w, ws) =
    run-outgoing (step s e) id es (step-Fits s e fits w) ws
    ∙ ap (λ (t : List (List ℕ)). t ++ writings id (step s e) es) (step-outgoing s id e fits w)
    ∙ append_assoc (outgoing id s.sent) (written id s e) (writings id (step s e) es)
