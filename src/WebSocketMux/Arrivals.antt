-- ===== src/WebSocketMux/Arrivals.antt =====
-- A client's connection on which messages arrive and streams are read.
use connect_bidi_web.Common.{
  ℕ, ◌+◌, ◌≡◌, refl, ◌∙◌, false, Option, none, some, List, [], ◌∷◌, All, length, arith, ltb, ◌==◌,
  if_rule, ◌&&◌,
}
use connect_bidi_web.Common.IdMap
use connect_bidi_web.Common.IdMap.{get-delete}
use connect_bidi_web.Wire.{flag_envelope_reset, stream_id_length}
use connect_bidi_web.Wire.Bytes.{get_uint32, get_uint8}
use connect_bidi_web.WebSocketMux.{
  WebSocketMux, Event, dials, opens, fails, is_closed, message, starts, writes, half_closes, reads,
  cancels, releases, closes_all, route, route_to, step, run,
}

module _ (encode_envelope : ℕ → List ℕ → List ℕ) (end_stream_flag : ℕ) (id : ℕ) where
  -- The arrival of a message that does not reset stream `id`, or the read of a stream.
  abbrev pub Arrives : Event encode_envelope end_stream_flag → Type 0
  Arrives (message bytes) =
      ((get_uint32 bytes 0 == id) && (get_uint8 bytes stream_id_length == flag_envelope_reset))
      ≡ false
  Arrives (reads r) = Unit
  Arrives _ = ⊥

  -- Stream `id` still has entry `r`, and the sockets are those of `m`.
  abbrev Keeps : ℕ → WebSocketMux → WebSocketMux → Type 0
  Keeps r m t = (IdMap.get t.entries id ≡ some r) × (t.sockets ≡ m.sockets) × (t.socket ≡ m.socket)

  route-Keeps :
      (r : ℕ) (m : WebSocketMux) (bytes : List ℕ)
      → Arrives (message bytes)
      → IdMap.get m.entries id ≡ some r
      → Keeps r m (route encode_envelope end_stream_flag m bytes)
  unfolding route route_to
  route-Keeps r m bytes a h =
      if_rule (Keeps r m) (ltb (length bytes) (stream_id_length + 1)) (λ short. (h, refl, refl))
        (λ long. to (IdMap.get m.entries (get_uint32 bytes 0)))
    where
      to : (o : Option ℕ) → Keeps r m (route_to encode_envelope end_stream_flag m bytes o)
      to none = (h, refl, refl)
      to (some q) =
          if_rule (Keeps r m) (get_uint8 bytes stream_id_length == flag_envelope_reset)
            (λ reset. (
              get-delete m.entries (get_uint32 bytes 0) id ∙ ground (arith, a, reset, h),
              refl,
              refl,
            ))
            (λ other. (h, refl, refl))

  step-Keeps :
      (r : ℕ) (m : WebSocketMux) (e : Event encode_envelope end_stream_flag)
      → Arrives e
      → IdMap.get m.entries id ≡ some r
      → Keeps r m (step encode_envelope end_stream_flag m e)
  unfolding step
  step-Keeps r m (message bytes) a h = route-Keeps r m bytes a h
  step-Keeps r m (reads q) a h = (h, refl, refl)
  step-Keeps r m dials a h = absurd a
  step-Keeps r m (opens k) a h = absurd a
  step-Keeps r m fails a h = absurd a
  step-Keeps r m (is_closed k reason) a h = absurd a
  step-Keeps r m (starts k) a h = absurd a
  step-Keeps r m (writes q chunk) a h = absurd a
  step-Keeps r m (half_closes q) a h = absurd a
  step-Keeps r m (cancels q) a h = absurd a
  step-Keeps r m (releases j) a h = absurd a
  step-Keeps r m closes_all a h = absurd a

  pub run-Keeps :
      (r : ℕ) (m : WebSocketMux) (es : List (Event encode_envelope end_stream_flag))
      → All Arrives es
      → IdMap.get m.entries id ≡ some r
      → Keeps r m (run encode_envelope end_stream_flag m es)
  unfolding run
  run-Keeps r m [] arrives h = (h, refl, refl)
  run-Keeps r m (e ∷ es) (a, arrives) h =
      let one = step-Keeps r m e a h in
      let rest = run-Keeps r (step encode_envelope end_stream_flag m e) es arrives one.0 in
      (rest.0, rest.1 ∙ one.1, rest.2 ∙ one.2)
