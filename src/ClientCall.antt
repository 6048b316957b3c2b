-- ===== src/ClientCall.antt =====
-- A streaming RPC of the client: `runWebTransportCall` of ts/packages/web/src/webtransport-helper.ts
-- and the generator `iterate` of ts/packages/web/src/connect-websocket-transport.ts.
pub mod Responses
pub mod Requests
pub mod Session
use connect_bidi_web.Common.{
  ℕ, String, Bool, true, false, not, ◌&&◌, Option, none, some, List, [], ◌∷◌, ◌++◌, ◌==◌,
  if◌then◌else◌,
}
use connect_bidi_web.Platform.{internal}
use connect_bidi_web.Web.{
  Thrown, connect, type_error, Result, ok, throws, ◌>>=◌, HeadersApi, JsonApi,
}
use connect_bidi_web.Connect.{Source, done, fails, next, EnvelopedMessage, ConnectApi}
use connect_bidi_web.HeadersFrame.Browser.{encode_headers_frame, decode_headers_frame}
use connect_bidi_web.Wire.{flag_envelope_data}
use connect_bidi_web.Bidi.Writing.{Script, write, close_writer, lift, ◌>>=◌ as sequel}

-- What the consumer of the generator `iterate` has got: the messages, oldest first, the trailers,
-- and how the generator ended.
pub record Outcome (E Headers O : Type 0) : Type 0 where
  pub messages : List O
  pub trailers : Headers
  pub result : Result E (Unit {0})

module _ (H : HeadersApi) (J : JsonApi) (C : ConnectApi H.Headers) where
  open H use {Headers, empty, append}
  open C use {Error, connect_error, encode_envelope, compressed_flag, end_stream_flag}

  -- The body of the `try` of `writePromise`. Where it returns the writer is closed, and where it
  -- throws the writer is aborted.
  unfoldable pub write_messages : ℕ → Source Error (List ℕ) → Script Error (Unit {0})
  write_messages write_data_flag done = close_writer
  write_messages write_data_flag (fails e) = lift (throws e)
  write_messages write_data_flag (next msg rest) =
      sequel (write (encode_envelope write_data_flag msg))
        (λ u. write_messages write_data_flag rest)

  -- The request's headers.
  unfoldable pub write_head : Headers → ℕ → String → Script Error (Unit {0})
  write_head request_headers write_header_flag path =
      sequel (lift (encode_headers_frame H J request_headers ((":path", path) ∷ [])))
        (λ headers_bytes. write (encode_envelope write_header_flag headers_bytes))

  -- `runWebTransportCall`: all of its writes.
  unfoldable pub write_request :
      Headers → Source Error (List ℕ) → ℕ → ℕ → String → Script Error (Unit {0})
  write_request request_headers messages write_header_flag write_data_flag path =
      sequel (write_head request_headers write_header_flag path)
        (λ u. write_messages write_data_flag messages)

  -- The error of the first envelope is described by a text that shows its flag.
  module _ (describe : ℕ → String) where
    -- `runWebTransportCall` from its first read on: the response's headers, and the reader.
    unfoldable pub read_headers :
        ℕ → Source Error EnvelopedMessage → Result Error (Headers × Source Error EnvelopedMessage)
    read_headers write_header_flag done =
        throws (connect (connect_error "protocol error: missing response headers" internal))
    read_headers write_header_flag (fails e) = throws e
    read_headers write_header_flag (next first rest) =
        if first.flags == write_header_flag
        then (decode_headers_frame H J first.content >>= λ decoded. ok (decoded.0, rest))
        else throws (connect (connect_error (describe first.flags) internal))

    module _ {O : Type 0}
        -- `parse`
        (parse : List ℕ → Result Error O)
        -- `endStreamFromJson`: the error, if any, and the entries of the metadata
        (end_stream_from_json : List ℕ → Result Error (Option Error × List (String × String))) where
      -- `metadata.forEach((val, key) => responseTrailers.append(key, val))`
      unfoldable pub append_trailers :
          Headers → List (String × String) → Result Error (Unit {0}) × Headers
      append_trailers trailers [] = (ok tt, trailers)
      append_trailers trailers ((key, val) ∷ metadata) = elim (append trailers key val) [
        | none ↦ (throws type_error, trailers)
        | some trailers' ↦ append_trailers trailers' metadata
      ]

      error_result : Option Error → Result Error (Unit {0})
      error_result none = ok tt
      error_result (some error) = throws (connect error)

      ended : List O → Option Error → Result Error (Unit {0}) × Headers → Outcome Error Headers O
      ended messages error (throws e, trailers) = record {
        messages = messages;
        trailers = trailers;
        result = throws e;
      }
      ended messages error (ok u, trailers) = record {
        messages = messages;
        trailers = trailers;
        result = error_result error;
      }

      -- The branch of the end of the stream.
      unfoldable pub end_stream : List O → Headers → List ℕ → Outcome Error Headers O
      unfolding ended error_result
      end_stream messages trailers content = elim (end_stream_from_json content) [
        | throws e ↦ record { messages = messages; trailers = trailers; result = throws e }
        | ok (error, metadata) ↦ ended messages error (append_trailers trailers metadata)
      ]

      -- The loop of `iterate`.
      unfoldable pub iterate :
          List O → Headers → Source Error EnvelopedMessage → Outcome Error Headers O
      iterate messages trailers done = record {
        messages = messages;
        trailers = trailers;
        result = ok tt;
      }
      iterate messages trailers (fails e) = record {
        messages = messages;
        trailers = trailers;
        result = throws e;
      }
      iterate messages trailers (next env rest) = elim (env.flags == end_stream_flag) [
        | true ↦ end_stream messages trailers env.content
        | false ↦
            elim (not (env.flags == flag_envelope_data) && not (env.flags == compressed_flag)) [
              | true ↦ record {
                messages = messages;
                trailers = trailers;
                result = throws (connect (connect_error (describe env.flags) internal));
              }
              | false ↦ elim (parse env.content) [
                | throws e ↦ record { messages = messages; trailers = trailers; result = throws e }
                | ok message ↦ iterate (messages ++ message ∷ []) trailers rest
              ]
            ]
      ]
