-- ===== src/Mux/Turns.antt =====
-- One turn of the read loop, by what it finds.
use connect_bidi_web.Common.{
  ℕ, ◌≡◌, ap, ◌≢◌, Bool, true, false, none, some, List, [], ◌∷◌, arith, ◌==◌,
}
use connect_bidi_web.Common.IdMap
use connect_bidi_web.Common.IdMap.{get-put, get-delete}
use connect_bidi_web.Wire.{
  StreamFrame, FrameError, ok, err, decode_stream_frame, flag_envelope_headers, flag_envelope_reset,
}
use connect_bidi_web.Mux.{
  Server, leave, start_stream, reset_stream, route, route_to, receive, Phase, serving, message,
  loop_step, step,
}
use mathlib.Core.Bool.{◌||◌}

abbrev pub member : ℕ → List ℕ → Bool
member r [] = false
member r (q ∷ rs) = q == r || member r rs

-- What the table returns is among the values that `teardown` goes through.
pub member-values :
    (m : List (ℕ × ℕ)) (id r : ℕ) → IdMap.get m id ≡ some r → member r (IdMap.values m) ≡ true
unfolding IdMap.get IdMap.values
member-values [] id r h = cc
member-values ((j, q) ∷ m) id r h = ground (arith, member-values m id r)

module _ (s : Server) (m : List ℕ) where
  pub step-receive : s.phase ≡ serving → step s (message m) ≡ receive s m
  unfolding step loop_step
  step-receive p = ap (λ (t : Phase). loop_step t s (message m)) p

  pub receive-leave : {e : FrameError} → decode_stream_frame m ≡ err e → receive s m ≡ leave s
  unfolding receive
  receive-leave d = rw (d, receive)

  module _ (frame : StreamFrame) (d : decode_stream_frame m ≡ ok frame) where
    pub receive-start_stream :
        frame.flag ≡ flag_envelope_headers
        → IdMap.get s.streams frame.stream_id ≡ none
        → receive s m ≡ start_stream s frame.stream_id frame.envelope
    unfolding receive route
    receive-start_stream f g =
        let hit : (frame.flag == flag_envelope_headers) ≡ true = ground arith in
        rw (d, receive) (rw (g, route_to) (rw hit))

    pub receive-drop :
        frame.flag ≢ flag_envelope_headers
        → IdMap.get s.streams frame.stream_id ≡ none
        → receive s m ≡ s
    unfolding receive route
    receive-drop f g =
        let miss : (frame.flag == flag_envelope_headers) ≡ false = ground arith in
        rw (d, receive) (rw (g, route_to) (rw miss))

    pub receive-reset_stream :
        (r : ℕ)
        → frame.flag ≡ flag_envelope_reset
        → IdMap.get s.streams frame.stream_id ≡ some r
        → receive s m ≡ reset_stream s frame.stream_id r
    unfolding receive route
    receive-reset_stream r f g =
        let hit : (frame.flag == flag_envelope_reset) ≡ true = ground arith in
        rw (d, receive) (rw (g, route_to) (rw hit))
