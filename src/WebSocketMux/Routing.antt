-- ===== src/WebSocketMux/Routing.antt =====
-- What a client's stream gets of the messages of the server.
use connect_bidi_web.Common.{
  ℕ, ◌+◌, ◌<◌, ◌^◌, ◌≡◌, ◌≢◌, refl, sym, ap, ◌∙◌, subst, true, false, some, List, [], ◌∷◌, ◌++◌,
  length, drop, get_elem?, modify, get_elem?-modify_self, get_elem?-modify_ne, arith, ltb, ◌==◌,
  inl, inr, Option-cases, if◌then◌else◌,
}
use connect_bidi_web.Common.IdMap
use connect_bidi_web.Platform.{readable, enqueue}
use connect_bidi_web.Wire.{
  encode_stream_frame, decode_stream_frame, ok, flag_envelope_reset, stream_id_length,
}
use connect_bidi_web.Wire.Bytes.{be32, get_uint32, get_uint8}
use connect_bidi_web.Wire.RoundTrip.{envelope_of, encode_stream_frame-append, decode-encode}
use connect_bidi_web.WebSocketMux.{
  MuxStreamEntry, WebSocketMux, enqueue_frame, take_frame, route, route_to, prefix_stream_id,
}

-- What `prefixStreamId` puts before an envelope is what the server takes off again.
pub decode-prefix_stream_id :
    (id flag : ℕ) (payload : List ℕ)
    → id < 2 ^ 32
    → length payload < 2 ^ 32
    → decode_stream_frame (prefix_stream_id id (envelope_of flag payload))
      ≡ ok (record { stream_id = id; flag = flag; envelope = envelope_of flag payload })
unfolding prefix_stream_id encode_stream_frame
decode-prefix_stream_id id flag payload hi hp = decode-encode id flag payload hi hp

-- What `route` reads off a message.
record Parts (message : List ℕ) (id flag : ℕ) (envelope : List ℕ) : Type 0 where
  long : ltb (length message) (stream_id_length + 1) ≡ false
  same_id : get_uint32 message 0 ≡ id
  same_flag : get_uint8 message stream_id_length ≡ flag
  rest : drop stream_id_length message ≡ envelope

append-Parts :
    (id flag : ℕ) (payload : List ℕ)
    → id < 2 ^ 32
    → Parts (be32 id ++ envelope_of flag payload) id flag (envelope_of flag payload)
unfolding be32 get_uint32 get_uint8
append-Parts id flag payload hi = record {
  long = ground arith;
  same_id = ground arith;
  same_flag = refl;
  rest = refl;
}

encode_stream_frame-Parts :
    (id flag : ℕ) (payload : List ℕ)
    → id < 2 ^ 32
    → Parts (encode_stream_frame id (envelope_of flag payload)) id flag (envelope_of flag payload)
encode_stream_frame-Parts id flag payload hi =
    subst (λ (m : List ℕ). Parts m id flag (envelope_of flag payload))
      (sym (encode_stream_frame-append id (envelope_of flag payload)))
      (append-Parts id flag payload hi)

module _ (encode_envelope : ℕ → List ℕ → List ℕ) (end_stream_flag : ℕ) where
  take_frame-readable :
      (flag : ℕ) (envelope : List ℕ) (entry : MuxStreamEntry)
      → entry.controller.state ≡ readable
      → take_frame encode_envelope end_stream_flag flag envelope entry ≡ record entry {
        controller = record entry.controller { queue = entry.controller.queue ++ envelope ∷ [] };
        end_seen = if flag == end_stream_flag then true else entry.end_seen;
      }
  unfolding take_frame enqueue_frame enqueue
  take_frame-readable flag envelope entry h = ground arith

  route-Parts :
      (m : WebSocketMux) (message : List ℕ) (id r flag : ℕ) (envelope : List ℕ)
      → Parts message id flag envelope
      → flag ≢ flag_envelope_reset
      → IdMap.get m.entries id ≡ some r
      → route encode_envelope end_stream_flag m message ≡ record m {
        streams = modify m.streams r (take_frame encode_envelope end_stream_flag flag envelope);
      }
  unfolding route
  route-Parts m bytes id r flag envelope p n g =
      let no_reset : (flag == flag_envelope_reset) ≡ false = ground arith in
      rw (p.long, p.same_id, g, route_to) (rw (p.same_flag, no_reset, p.rest))

  -- A frame for another stream leaves the entry and the table.
  pub route-frame :
      (m : WebSocketMux) (id r flag : ℕ) (payload : List ℕ)
      → id < 2 ^ 32
      → flag ≢ flag_envelope_reset
      → IdMap.get m.entries id ≢ some r
      → let t =
          route encode_envelope end_stream_flag m
            (encode_stream_frame id (envelope_of flag payload)) in
        (get_elem? t.streams r ≡ get_elem? m.streams r) × (t.entries ≡ m.entries)
  unfolding route
  route-frame m id r flag payload hi hf other =
      let p = encode_stream_frame-Parts id flag payload hi in
      elim (Option-cases (IdMap.get m.entries id)) [
        | inl g ↦ rw (p.long, p.same_id, g, route_to) (refl, refl)
        | inr (q, g) ↦
            rw
              (route-Parts m (encode_stream_frame id (envelope_of flag payload)) id q flag
                (envelope_of flag payload) p hf g)
              (get_elem?-modify_ne m.streams _ (λ e. other (g ∙ ap some e)), refl)
      ]

  -- A message that the server sends for a stream with an entry whose reader has not ended, and that
  -- is no reset, puts exactly its envelope at the end of that stream's queue, marks the stream as
  -- finished if it is the end of the stream, and touches no other stream.
  pub route-encode_stream_frame :
      (m : WebSocketMux) (id r flag : ℕ) (payload : List ℕ) (entry : MuxStreamEntry)
      → id < 2 ^ 32
      → flag ≢ flag_envelope_reset
      → IdMap.get m.entries id ≡ some r
      → get_elem? m.streams r ≡ some entry
      → entry.controller.state ≡ readable
      → let t =
          route encode_envelope end_stream_flag m
            (encode_stream_frame id (envelope_of flag payload)) in
        (get_elem? t.streams r
          ≡ some (record entry {
            controller = record entry.controller {
              queue = entry.controller.queue ++ envelope_of flag payload ∷ [];
            };
            end_seen = if flag == end_stream_flag then true else entry.end_seen;
          }))
        × ((q : ℕ) → q ≢ r → get_elem? t.streams q ≡ get_elem? m.streams q)
        × (t.entries ≡ m.entries)
        × (t.sockets ≡ m.sockets)
  route-encode_stream_frame m id r flag payload entry hi hf g held h =
      rw
        (route-Parts m (encode_stream_frame id (envelope_of flag payload)) id r flag
          (envelope_of flag payload) (encode_stream_frame-Parts id flag payload hi) hf g)
        (
          get_elem?-modify_self m.streams r _ held
              ∙ ap some (take_frame-readable flag (envelope_of flag payload) entry h),
          λ q n. get_elem?-modify_ne m.streams _ (λ e. n (sym e)),
          refl,
          refl,
        )
