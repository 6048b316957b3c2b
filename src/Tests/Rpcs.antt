-- ===== src/Tests/Rpcs.antt =====
-- A unary RPC with both ends, with the stand-ins of Tests.Calls and Tests.Transports.
use connect_bidi_web.Common.{String, ◌≡◌, refl, ap, false, none, some, [], ◌∷◌}
use connect_bidi_web.Web.{ok}
use connect_bidi_web.Connect.{done, next, ServerResponse}
use connect_bidi_web.Bidi.Normalize.{mirror_unary_response_encoding, mirror_to}
use connect_bidi_web.Bidi.Request.{collect_chunks, concat_async_iterable}
use connect_bidi_web.Bidi.Response.{body_bytes}
use connect_bidi_web.Wire.{concat_bytes}
use connect_bidi_web.ClientCall.Session.{WebTransportSession}
use connect_bidi_web.WebTransport.Transport.{
  ConnectWebTransportTransportOptions, session_value, unary,
}
use connect_bidi_web.Rpc.{Splits, Fits, request_frames, served, frames_of, unary-exchange}
use connect_bidi_web.Tests.Sockets.{split}
use connect_bidi_web.Tests.Calls.{
  H, J, T, C, resolve, echo, found, path_only, decoded, no_headers as no_header_bytes,
}
use connect_bidi_web.Tests.Exchanges.{
  describe, keep_error, sound_end, Closes-half_close, path_payload,
}
use connect_bidi_web.Tests.Transports.{A, M, call_of, direct, no_headers}

splits : Splits H J T C split
splits [] = refl
splits (env ∷ envs) = ap (next env) (splits envs)

abbrev session : WebTransportSession String
session = record {
  create_bidirectional_stream = ok (record {
    writable = record { taken = []; room = none };
    readable =
        split (frames_of (served H J T C split resolve (echo ∷ []) false (4 ∷ 5 ∷ []) (7 ∷ [])).1);
  });
  ready = ok tt;
}

abbrev options : ConnectWebTransportTransportOptions A
options = record {
  base_url = "https://host";
  session = session_value session;
  use_binary_format = none;
  interceptors = [];
  default_timeout_ms = none;
}

abbrev response : ServerResponse String H.Headers
response = record { status = 200; header = none; body = some (next (7 ∷ []) done) }

fits :
    Fits H J T C A describe keep_error sound_end options M none direct direct resolve
      (echo ∷ [])
      false
      split
      (call_of (7 ∷ []))
      (4 ∷ 5 ∷ [])
      (7 ∷ [])
      echo
      response
      []
      []
      []
      (7 ∷ [])
      []
      (("x-id", "7") ∷ [])
      (7 ∷ [])
unfolding mirror_unary_response_encoding mirror_to body_bytes concat_async_iterable collect_chunks
    concat_bytes
fits = record {
  direct = refl;
  head = path_payload;
  serializes = refl;
  session = session;
  resolved = refl;
  is_ready = refl;
  opens = refl;
  headers = [];
  pseudo = path_only;
  decodes = decoded;
  found = found echo refl;
  url = "/a.B/C";
  located = refl;
  is_unary = refl;
  no_end = refl;
  calls = refl;
  succeeds = refl;
  demuxes = refl;
  encodes = no_header_bytes;
  body = refl;
  answer_pseudo = [];
  answer_decodes = no_headers;
  closes = Closes-half_close;
  parses = refl;
}

unary-exchange_example :
    (unary H J C A describe keep_error sound_end options M none direct direct (call_of (7 ∷ [])) ≡ (
      ok (record { header = []; message = 7 ∷ []; trailer = ("x-id", "7") ∷ [] }),
      request_frames H J T C (4 ∷ 5 ∷ []) (7 ∷ []),
    ))
    × ((served H J T C split resolve (echo ∷ []) false (4 ∷ 5 ∷ []) (7 ∷ [])).0 ≡ ok tt)
unary-exchange_example =
    unary-exchange H J T C A describe keep_error sound_end options M none direct direct resolve
      (echo ∷ []) false split splits (call_of (7 ∷ [])) (4 ∷ 5 ∷ []) (7 ∷ []) echo response [] [] []
      (7 ∷ []) [] (("x-id", "7") ∷ []) (7 ∷ []) fits
