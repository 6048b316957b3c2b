-- ===== src/Connection.antt =====
-- The two ends of a connection together: what the tasks of the server write to a stream and what the
-- client's reader of that stream gets.
use connect_bidi_web.Common.{
  ℕ, ◌<◌, ◌^◌, ◌≡◌, ◌≢◌, sym, ap, ◌∙◌, subst, inl, inr, none, some, List, [], ◌∷◌, ◌++◌, append-nil,
  append_assoc, get_elem?, All, ◌==◌, ==_iff, Bool-cases,
}
use mathlib.Core.Bool.{false≢true}
use connect_bidi_web.Common.IdMap
use connect_bidi_web.Platform.{readable}
use connect_bidi_web.Wire.{
  encode_stream_frame, decode_stream_frame, Decoded, ok, flag_envelope_reset,
}
use connect_bidi_web.Wire.RoundTrip.{envelope_of, decode-encode}
use connect_bidi_web.Mux.Delivery.{arriving}
use connect_bidi_web.Mux.{Server, started}
use connect_bidi_web.Mux
use connect_bidi_web.Mux.Outgoing.{outgoing, writings, run-outgoing}
use connect_bidi_web.Mux.Outgoing.Frames.{IsFrame, IsPlain, All-IsWellFormed, run-IsFrame}
use connect_bidi_web.WebSocketMux.{MuxStreamEntry, WebSocketMux, route}
use connect_bidi_web.WebSocketMux.Routing.{route-encode_stream_frame, route-frame}

module _ (encode_envelope : ℕ → List ℕ → List ℕ) (end_stream_flag : ℕ) where
  -- The messages that arrive, one after the other.
  unfoldable pub route_all : WebSocketMux → List (List ℕ) → WebSocketMux
  route_all m [] = m
  route_all m (bytes ∷ messages) =
      route_all (route encode_envelope end_stream_flag m bytes) messages

  -- Stream `id` is that of entry `r`, and of no other stream, and its reader has not ended.
  pub record Listens (m : WebSocketMux) (id r : ℕ) (queue : List (List ℕ)) : Type 0 where
    pub listed : IdMap.get m.entries id ≡ some r
    pub alone : (j : ℕ) → IdMap.get m.entries j ≡ some r → j ≡ id
    pub entry : MuxStreamEntry
    pub held : get_elem? m.streams r ≡ some entry
    pub reads : entry.controller.state ≡ readable
    pub waits : entry.controller.queue ≡ queue

  abbrev after : WebSocketMux → ℕ → ℕ → List ℕ → WebSocketMux
  after m j flag payload =
      route encode_envelope end_stream_flag m (encode_stream_frame j (envelope_of flag payload))

  -- A frame for the stream itself is queued.
  own-Listens :
      (m : WebSocketMux) (id r flag : ℕ) (payload : List ℕ) (queue : List (List ℕ))
      → id < 2 ^ 32
      → flag ≢ flag_envelope_reset
      → Listens m id r queue
      → Listens (after m id flag payload) id r (queue ++ envelope_of flag payload ∷ [])
  own-Listens m id r flag payload queue small no_reset l =
      let (held, others, table, sockets) =
        route-encode_stream_frame encode_envelope end_stream_flag m id r flag payload l.entry small
          no_reset l.listed l.held l.reads in
      record {
        listed = ap (λ (es : List (ℕ × ℕ)). IdMap.get es id) table ∙ l.listed;
        alone = λ j g. l.alone j (ap (λ (es : List (ℕ × ℕ)). IdMap.get es j) (sym table) ∙ g);
        entry = _;
        held = held;
        reads = l.reads;
        waits = ap (λ (q : List (List ℕ)). q ++ envelope_of flag payload ∷ []) l.waits;
      }

  -- A frame for another stream changes nothing here.
  other-Listens :
      (m : WebSocketMux) (id r j flag : ℕ) (payload : List ℕ) (queue : List (List ℕ))
      → j < 2 ^ 32
      → flag ≢ flag_envelope_reset
      → j ≢ id
      → Listens m id r queue
      → Listens (after m j flag payload) id r queue
  other-Listens m id r j flag payload queue small no_reset other l =
      let (same, table) =
        route-frame encode_envelope end_stream_flag m j r flag payload small no_reset
          (λ g. other (l.alone j g)) in
      record {
        listed = ap (λ (es : List (ℕ × ℕ)). IdMap.get es id) table ∙ l.listed;
        alone = λ i g. l.alone i (ap (λ (es : List (ℕ × ℕ)). IdMap.get es i) (sym table) ∙ g);
        entry = l.entry;
        held = same ∙ l.held;
        reads = l.reads;
        waits = l.waits;
      }

  frame-Listens :
      (m : WebSocketMux) (id r j flag : ℕ) (payload : List ℕ) (queue : List (List ℕ))
      → j < 2 ^ 32
      → flag ≢ flag_envelope_reset
      → Listens m id r queue
      → Listens (after m j flag payload) id r (
          queue
          ++ arriving id
              (ok (record { stream_id = j; flag = flag; envelope = envelope_of flag payload })))
  frame-Listens m id r j flag payload queue small no_reset l = elim (Bool-cases (j == id)) [
    | inl same ↦ rw same (
        subst
          (λ (t : ℕ).
            Listens (after m t flag payload) id r (queue ++ envelope_of flag payload ∷ []))
          (sym ((==_iff j id).0 same))
          (own-Listens m id r flag payload queue
            (subst (λ (t : ℕ). t < 2 ^ 32) ((==_iff j id).0 same) small) no_reset l))
    | inr other ↦ rw other (
        subst (Listens (after m j flag payload) id r) (sym (append-nil queue)) (
          other-Listens m id r j flag payload queue small no_reset
            (λ e. false≢true (sym other ∙ (==_iff j id).1 e)) l))
  ]

  route-Listens :
      (m : WebSocketMux) (id r : ℕ) (queue : List (List ℕ)) (bytes : List ℕ)
      → IsFrame bytes
      → Listens m id r queue
      → Listens
          (route encode_envelope end_stream_flag m bytes)
          id
          r
          (queue ++ arriving id (decode_stream_frame bytes))
  route-Listens m id r queue bytes f l =
      subst
        (λ (b : List ℕ).
          Listens (route encode_envelope end_stream_flag m b) id r
            (queue ++ arriving id (decode_stream_frame b)))
        (sym f.encoded)
        (subst
          (λ (d : Decoded). Listens (after m f.id f.flag f.payload) id r (queue ++ arriving id d))
          (sym (decode-encode f.id f.flag f.payload f.small_id f.short))
          (frame-Listens m id r f.id f.flag f.payload queue f.small_id f.no_reset l))

  route_all-Listens :
      (m : WebSocketMux) (id r : ℕ) (queue : List (List ℕ)) (messages : List (List ℕ))
      → All IsFrame messages
      → Listens m id r queue
      → Listens (route_all m messages) id r (queue ++ outgoing id messages)
  unfolding route_all
  route_all-Listens m id r queue [] fs l = subst (Listens m id r) (sym (append-nil queue)) l
  route_all-Listens m id r queue (bytes ∷ messages) (f, fs) l =
      subst (Listens (route_all (route encode_envelope end_stream_flag m bytes) messages) id r)
        (append_assoc queue (arriving id (decode_stream_frame bytes)) (outgoing id messages))
        (route_all-Listens (route encode_envelope end_stream_flag m bytes) id r
          (queue ++ arriving id (decode_stream_frame bytes)) messages fs
          (route-Listens m id r queue bytes f l))

  -- Over any run of the server from its start, with any interleaving of its streams, in which the
  -- messages are bytes and the tasks write envelopes that are no resets: once all that the server sent
  -- has arrived, the client's reader of stream `id` has, after what was queued before, exactly what
  -- the tasks of that stream wrote before they were reset, each envelope as one chunk and in order.
  pub run-route_all :
      (es : List Mux.Event) (m : WebSocketMux) (id r : ℕ) (queue : List (List ℕ))
      → All IsPlain es
      → Listens m id r queue
      → Listens
          (route_all m (Mux.run (started none) es).sent)
          id
          r
          (queue ++ writings id (started none) es)
  unfolding started
  run-route_all es m id r queue ps l =
      subst
        (λ (chunks : List (List ℕ)).
          Listens (route_all m (Mux.run (started none) es).sent) id r (queue ++ chunks))
        (run-outgoing (started none) id es tt (All-IsWellFormed es ps))
        (route_all-Listens m id r queue (Mux.run (started none) es).sent
          (run-IsFrame (started none) es tt ps tt) l)
