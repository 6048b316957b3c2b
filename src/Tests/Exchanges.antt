-- ===== src/Tests/Exchanges.antt =====
-- Requests and responses of the client, with the stand-in of Tests.Calls.
use connect_bidi_web.Common.{ℕ, String, ◌≡◌, refl, Option, none, some, List, [], ◌∷◌}
use connect_bidi_web.Common.Props
use connect_bidi_web.Web.{connect, Result, ok, throws}
use connect_bidi_web.Connect.{done, next}
use connect_bidi_web.HeadersFrame.Browser.{encode_headers_frame, collect_headers, assign_pseudo}
use connect_bidi_web.Bidi.Bodies.{prepend}
use connect_bidi_web.ClientCall.{iterate, append_trailers}
use connect_bidi_web.ClientCall.Responses.{Carries, no_message, message, iterate-end_stream}
use connect_bidi_web.WebTransport.{set_trailers, end_stream}
use connect_bidi_web.WebTransport.Loops.{Closes}
use connect_bidi_web.Tests.Calls.{H, J, C, data_of, half_close}

pub path_payload :
    encode_headers_frame H J {E = String} [] ((":path", "/a.B/C") ∷ []) ≡ ok (4 ∷ 5 ∷ [])
unfolding encode_headers_frame collect_headers assign_pseudo Props.contains Props.put
path_payload = refl

abbrev pub describe : ℕ → String
describe flag = "unexpected flag"

abbrev parse : List ℕ → Result String (List ℕ)
parse bytes = ok bytes

abbrev end_of_json : List ℕ → Result String (Option String × List (String × String))
end_of_json bytes = ok (some "failed", ("x-id", "7") ∷ [])

Carries-one : Carries H J C describe parse end_of_json (data_of 7 ∷ []) ((7 ∷ []) ∷ [])
Carries-one = message (data_of 7) (7 ∷ []) [] [] refl refl refl no_message

trailers :
    append_trailers H J C describe parse end_of_json [] (("x-id", "7") ∷ [])
    ≡ (ok tt, ("x-id", "7") ∷ [])
unfolding append_trailers
trailers = refl

iterate-end_stream_example :
    iterate H J C describe parse end_of_json [] [] (prepend (data_of 7 ∷ []) (next half_close done))
    ≡ record {
      messages = (7 ∷ []) ∷ [];
      trailers = ("x-id", "7") ∷ [];
      result = throws (connect "failed");
    }
iterate-end_stream_example =
    iterate-end_stream H J C describe parse end_of_json (data_of 7 ∷ []) ((7 ∷ []) ∷ []) half_close
      done (some "failed") (("x-id", "7") ∷ []) (("x-id", "7") ∷ []) Carries-one refl refl trailers

abbrev pub sound_end : List ℕ → Result String (Option String × List (String × String))
sound_end bytes = ok (none, ("x-id", "7") ∷ [])

abbrev pub keep_error : String → List (String × String) → String
keep_error error metadata = error

pub Closes-half_close :
    Closes H C describe keep_error sound_end [] half_close [] (("x-id", "7") ∷ [])
unfolding end_stream set_trailers
Closes-half_close = record { no_message = refl; ending = refl; trailers = refl }
