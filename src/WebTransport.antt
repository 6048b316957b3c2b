-- ===== src/WebTransport.antt =====
-- The response loops of ts/packages/web/src/connect-webtransport-transport.ts: the one of `unary` and
-- the generator `parseResponseBody` of `stream`.
pub mod Loops
pub mod Transport
use connect_bidi_web.Common.{
  ℕ, String, Bool, true, false, ◌||◌, Option, none, some, List, [], ◌∷◌, ◌++◌, ◌==◌, if◌then◌else◌,
}
use connect_bidi_web.Platform.{internal, unimplemented}
use connect_bidi_web.Web.{Thrown, connect, Result, ok, throws, HeadersApi}
use connect_bidi_web.Connect.{Source, done, fails, next, EnvelopedMessage, ConnectApi}
use connect_bidi_web.Wire.{flag_envelope_data}
use connect_bidi_web.ClientCall.{Outcome}

module _ (H : HeadersApi) (C : ConnectApi H.Headers) where
  open H use {Headers, set, entries}
  open C use {Error, connect_error, compressed_flag, end_stream_flag}

  -- `trailer.set` for each entry of the metadata
  unfoldable pub set_trailers : Headers → List (String × String) → Headers
  set_trailers trailer [] = trailer
  set_trailers trailer ((key, value) ∷ metadata) = set_trailers (set trailer key value) metadata

  abbrev pub is_message : EnvelopedMessage → Bool
  is_message env = (env.flags == flag_envelope_data) || (env.flags == compressed_flag)

  abbrev pub missing_end : Thrown Error
  missing_end = connect (connect_error "missing EndStreamResponse" internal)

  module _
      -- The text "protocol error: unexpected envelope flag" with the flag
      (describe : ℕ → String)
      -- An error with entries appended to its metadata
      (add_metadata : Error → List (String × String) → Error)
      -- `endStreamFromJson`
      (end_stream_from_json : List ℕ → Result Error (Option Error × List (String × String)))
      (response_headers : Headers) where
    abbrev pub unexpected : EnvelopedMessage → Thrown Error
    unexpected env = connect (connect_error (describe env.flags) internal)

    -- The trailers after an end of the stream, or the error that it carries.
    trailers_of : Headers → Option Error × List (String × String) → Result Error Headers
    trailers_of trailer (none, metadata) = ok (set_trailers trailer metadata)
    trailers_of trailer (some error, metadata) =
        throws (connect (add_metadata error (entries response_headers)))

    unfoldable pub end_stream : Headers → List ℕ → Result Error Headers
    unfolding trailers_of
    end_stream trailer content = elim (end_stream_from_json content) [
      | throws e ↦ throws e
      | ok end ↦ trailers_of trailer end
    ]

    -- What follows the loop of `unary`, up to `parse`.
    finish_unary : Option (List ℕ) → Bool → Headers → Result Error (List ℕ × Headers)
    finish_unary response_message false trailer = throws missing_end
    finish_unary none true trailer =
        throws (connect (connect_error "unary stream has no message" unimplemented))
    finish_unary (some content) true trailer = ok (content, trailer)

    -- The loop of `unary`.
    unfoldable pub read_unary :
        Option (List ℕ)
        → Bool
        → Headers
        → Source Error EnvelopedMessage
        → Result Error (List ℕ × Headers)
    unfolding finish_unary
    read_unary response_message end_received trailer done =
        finish_unary response_message end_received trailer
    read_unary response_message end_received trailer (fails e) = throws e
    read_unary response_message end_received trailer (next env rest) = elim (is_message env) [
      | true ↦ elim response_message [
        | none ↦ read_unary (some env.content) end_received trailer rest
        | some first ↦
            throws (connect (connect_error "unary stream has multiple messages" unimplemented))
      ]
      | false ↦ elim (env.flags == end_stream_flag) [
        | false ↦ throws (unexpected env)
        | true ↦ elim (end_stream trailer env.content) [
          | throws e ↦ throws e
          | ok trailer' ↦ read_unary response_message true trailer' rest
        ]
      ]
    ]

    module _ {O : Type 0} (parse : List ℕ → Result Error O) where
      -- `parseResponseBody`
      unfoldable pub parse_response_body :
          List O → Bool → Headers → Source Error EnvelopedMessage → Outcome Error Headers O
      parse_response_body messages end_received trailer done = record {
        messages = messages;
        trailers = trailer;
        result = if end_received then ok tt else throws missing_end;
      }
      parse_response_body messages end_received trailer (fails e) = record {
        messages = messages;
        trailers = trailer;
        result = throws e;
      }
      parse_response_body messages end_received trailer (next env rest) = elim (is_message env) [
        | true ↦ elim (parse env.content) [
          | throws e ↦ record { messages = messages; trailers = trailer; result = throws e }
          | ok message ↦ parse_response_body (messages ++ message ∷ []) end_received trailer rest
        ]
        | false ↦ elim (env.flags == end_stream_flag) [
          | false ↦ record {
            messages = messages;
            trailers = trailer;
            result = throws (unexpected env);
          }
          | true ↦ elim (end_stream trailer env.content) [
            | throws e ↦ record { messages = messages; trailers = trailer; result = throws e }
            | ok trailer' ↦ parse_response_body messages true trailer' rest
          ]
        ]
      ]
