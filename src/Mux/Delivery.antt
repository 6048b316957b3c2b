-- ===== src/Mux/Delivery.antt =====
-- What a stream's `handleBidiSocket` is fed: the envelopes of the peer's messages with its stream ID.
use connect_bidi_web.Common.{
  ℕ, ◌≡◌, sym, ap, ◌∙◌, subst, ◌≢◌, inl, inr, false, none, some, List, [], ◌∷◌, ◌++◌, append-nil,
  append_assoc, length, get_elem?, get_elem?-modify_self, get_elem?-modify_ne, get_elem?-append_old,
  get_elem?-lt, arith, ◌==◌, ==_iff, Bool-cases, Option-cases, if_rule, if◌then◌else◌,
}
use connect_bidi_web.Common.IdMap
use connect_bidi_web.Common.IdMap.{get-put, get-delete}
use connect_bidi_web.Platform.{Channel, chunks}
use connect_bidi_web.Wire.{
  StreamFrame, Decoded, ok, err, decode_stream_frame, flag_envelope_headers, flag_envelope_reset,
}
use connect_bidi_web.Mux.{
  Reason, StreamEntry, Server, start_stream, reset_stream, deliver, deliver_in, deliver_to, route,
  route_to, receive, serving, Event, message, read_ends, read_fails, idles, writes, reads, closes,
  settles, signal_aborts, finishes, step,
}
use connect_bidi_web.Mux.Invariant.{IsLive, Owns, Inv, Owns-unique, enqueue-some}

-- Stream `id` is served by entry `r`, which is alive and was given the chunks `cs` so far.
pub record Receives (s : Server) (id r : ℕ) (cs : List (List ℕ)) : Type 0 where
  pub in_loop : s.phase ≡ serving
  pub mapped : IdMap.get s.streams id ≡ some r
  pub entry : StreamEntry
  pub held : get_elem? s.entries r ≡ some entry
  pub live : IsLive entry id
  pub given : chunks entry.controller ≡ cs

-- The envelope that a message brings to stream `id`.
abbrev pub arriving : ℕ → Decoded → List (List ℕ)
arriving id (ok frame) = if frame.stream_id == id then frame.envelope ∷ [] else []
arriving id (err e) = []

abbrev pub arrives : ℕ → Event → List (List ℕ)
arrives id (message m) = arriving id (decode_stream_frame m)
arrives id _ = []

abbrev pub arrivals : ℕ → List Event → List (List ℕ)
arrivals id [] = []
arrivals id (e ∷ es) = arrives id e ++ arrivals id es

-- The event neither ends the connection nor ends stream `id`.
abbrev pub Calm : ℕ → Server → Event → Type 0
Calm id s (message m) =
    (frame : StreamFrame) × (decode_stream_frame m ≡ ok frame)
    × (frame.stream_id ≡ id → frame.flag ≢ flag_envelope_reset)
Calm id s (closes q) =
    (entry : StreamEntry) → get_elem? s.entries q ≡ some entry → entry.stream_id ≢ id
Calm id s (settles q) =
    (entry : StreamEntry) → get_elem? s.entries q ≡ some entry → entry.stream_id ≢ id
Calm id s (writes q chunk) = Unit
Calm id s (reads q) = Unit
Calm id s finishes = Unit
Calm id s read_ends = ⊥
Calm id s read_fails = ⊥
Calm id s idles = ⊥
Calm id s (signal_aborts reason) = ⊥

abbrev pub AllCalm : ℕ → Server → List Event → Type 0
AllCalm id s [] = Unit
AllCalm id s (e ∷ es) = Calm id s e × AllCalm id (step s e) es

module _ (s : Server) (id r : ℕ) (cs : List (List ℕ)) (v : Inv s) (h : Receives s id r cs) where
  -- Another stream's entry is another entry.
  other_entry : (j q : ℕ) → IdMap.get s.streams j ≡ some q → j ≢ id → q ≢ r
  other_entry j q g n e =
      n (Owns-unique s.entries j id r (subst (Owns s.entries j) e (v j q g)) (v id r h.mapped))

  start_stream-Receives :
      (j : ℕ) (envelope : List ℕ)
      → IdMap.get s.streams j ≡ none
      → Receives (start_stream s j envelope) id r cs
  unfolding start_stream
  start_stream-Receives j envelope g = record {
    in_loop = h.in_loop;
    mapped = ground (arith, get-put s.streams j (length s.entries) id, h.mapped);
    entry = h.entry;
    held = get_elem?-append_old s.entries _ r (get_elem?-lt s.entries r h.held) ∙ h.held;
    live = h.live;
    given = h.given;
  }

  reset_stream-Receives :
      (j q : ℕ) → IdMap.get s.streams j ≡ some q → j ≢ id → Receives (reset_stream s j q) id r cs
  unfolding reset_stream
  reset_stream-Receives j q g n = record {
    in_loop = h.in_loop;
    mapped = ground (arith, get-delete s.streams j id, h.mapped);
    entry = h.entry;
    held = get_elem?-modify_ne s.entries _ (other_entry j q g n) ∙ h.held;
    live = h.live;
    given = h.given;
  }

  deliver_other-Receives :
      (j q : ℕ) (envelope : List ℕ)
      → IdMap.get s.streams j ≡ some q
      → j ≢ id
      → Receives (deliver s q envelope) id r cs
  unfolding deliver
  deliver_other-Receives j q envelope g n =
      let o : Owns s.entries j q = v j q g in
      rw (o.1, deliver_in)
        (rw (enqueue-some o.0.controller envelope o.2.open_controller, deliver_to)
          (record {
            in_loop = h.in_loop;
            mapped = h.mapped;
            entry = h.entry;
            held = get_elem?-modify_ne s.entries _ (other_entry j q g n) ∙ h.held;
            live = h.live;
            given = h.given;
          }))

  deliver-Receives :
      (envelope : List ℕ) → Receives (deliver s r envelope) id r (cs ++ envelope ∷ [])
  unfolding deliver
  deliver-Receives envelope =
      rw (h.held, deliver_in)
        (rw (enqueue-some h.entry.controller envelope h.live.open_controller, deliver_to)
          (record {
            in_loop = h.in_loop;
            mapped = h.mapped;
            entry = record entry {
              controller = record controller { queue = controller.queue ++ envelope ∷ [] };
            };
            held = get_elem?-modify_self s.entries r _ h.held;
            live = record {
              own = h.live.own;
              kept = h.live.kept;
              unaborted = h.live.unaborted;
              open_controller = h.live.open_controller;
            };
            given =
                sym (append_assoc controller.delivered controller.queue (envelope ∷ []))
                ∙ ap (λ (t : List (List ℕ)). t ++ envelope ∷ []) h.given;
          }))
    where
      open h use {entry}

      controller : Channel Reason
      controller = entry.controller

  route_other-Receives :
      (frame : StreamFrame) → frame.stream_id ≢ id → Receives (route s frame) id r cs
  unfolding route
  route_other-Receives frame n = elim (Option-cases (IdMap.get s.streams frame.stream_id)) [
    | inl e ↦
        rw (e, route_to)
          (if_rule (λ t. Receives t id r cs) (frame.flag == flag_envelope_headers)
            (λ _. start_stream-Receives frame.stream_id frame.envelope e) (λ _. h))
    | inr (q, e) ↦
        rw (e, route_to)
          (if_rule (λ t. Receives t id r cs) (frame.flag == flag_envelope_reset)
            (λ _. reset_stream-Receives frame.stream_id q e n)
            (λ _. deliver_other-Receives frame.stream_id q frame.envelope e n))
  ]

  route_own-Receives :
      (frame : StreamFrame)
      → frame.stream_id ≡ id
      → frame.flag ≢ flag_envelope_reset
      → Receives (route s frame) id r (cs ++ frame.envelope ∷ [])
  unfolding route
  route_own-Receives frame e n =
      let at : IdMap.get s.streams frame.stream_id ≡ some r = rw e h.mapped in
      let kept : (frame.flag == flag_envelope_reset) ≡ false = ground arith in
      rw (at, route_to) (rw kept (deliver-Receives frame.envelope))

  -- One message of the peer.
  pub receive-Receives :
      (m : List ℕ)
      → Calm id s (message m)
      → Receives (receive s m) id r (cs ++ arrives id (message m))
  unfolding receive
  receive-Receives m (frame, e, n) = elim (Bool-cases (frame.stream_id == id)) [
    | inl own ↦
        rw (e, receive)
          (rw own (route_own-Receives frame ((==_iff _ _).0 own) (n ((==_iff _ _).0 own))))
    | inr other ↦
        rw (e, receive) (rw (other, append-nil cs) (route_other-Receives frame (ground arith)))
  ]
