-- ===== src/Bidi/Response.antt =====
-- `writeResponse` and `writeErrorResponse` of handle-bidi-socket.ts.
use connect_bidi_web.Common.{
  ℕ, String, Bool, true, false, not, Option, none, some, List, [], ◌==◌, if◌then◌else◌,
}
use text.Mathlib.Text.{◌==◌ as str_eq}
use connect_bidi_web.Web.{connect, Result, ok, throws, HeadersApi, JsonApi}
use connect_bidi_web.Connect.{
  Source, done, fails, next, MethodKind, unary, Validated, unary_error, not_unary_error,
  ServerResponse, ConnectApi,
}
use connect_bidi_web.Wire.{flag_envelope_data, flag_envelope_headers}
use connect_bidi_web.HeadersFrame.{encode_headers_frame}
use connect_bidi_web.Bidi.Writing.{Script, write, lift, ◌>>=◌, ◌>>◌}
use connect_bidi_web.Bidi.Normalize.{mirror_unary_response_encoding}
use connect_bidi_web.Bidi.Request.{concat_async_iterable}

-- The strings of the platform: `toLowerCase`, and `HTTP ${status}`.
pub record TextApi : Type 0 where
  pub to_lower_case : String → String
  pub http_status : ℕ → String

abbrev pub or_else : {A : Type 0} → Option A → A → A
or_else none d = d
or_else (some a) d = a

abbrev pub is_unary : MethodKind → Bool
is_unary unary = true
is_unary _ = false

module _ (H : HeadersApi) (J : JsonApi) (T : TextApi) (C : ConnectApi H.Headers) where
  open H use {Headers, empty, get}
  open C use {
    Error, connect_error, encode_envelope, compressed_flag, end_stream_flag, serialize_end_stream,
    header_unary_encoding, trailer_demux, validate_response, code_from_http_status,
    error_from_json_bytes,
  }

  -- `encoding !== null && encoding.toLowerCase() !== "identity"`
  is_compressed : Option String → Bool
  is_compressed none = false
  is_compressed (some encoding) = not (str_eq (T.to_lower_case encoding) "identity")

  unfoldable pub data_flag : Option String → ℕ
  unfolding is_compressed
  data_flag encoding = if is_compressed encoding then compressed_flag else flag_envelope_data

  -- `response.body ? await concatAsyncIterable(response.body) : new Uint8Array()`
  unfoldable pub body_bytes : Option (Source Error (List ℕ)) → Result Error (List ℕ)
  body_bytes none = ok []
  body_bytes (some body) = concat_async_iterable body

  unfoldable pub write_headers : Headers → Script Error (Unit {0})
  write_headers header = do
    payload ← lift (encode_headers_frame H J header [])
    write (encode_envelope flag_envelope_headers payload)

  unfoldable pub write_end : Headers → Option Error → Script Error (Unit {0})
  write_end metadata error =
      write (encode_envelope end_stream_flag (serialize_end_stream metadata error))

  -- The unary branch.
  unfoldable pub write_unary : ServerResponse Error Headers → Script Error (Unit {0})
  write_unary response =
      let (demuxed, trailer) = trailer_demux (or_else response.header empty) in
      let header = mirror_unary_response_encoding H C demuxed in
      do
        write_headers header
        bytes ← lift (body_bytes response.body)
        write (encode_envelope (data_flag (get header header_unary_encoding)) bytes)
        write_end trailer none

  -- `for await (const chunk of response.body) await writer.write(chunk)`
  unfoldable pub forward : Source Error (List ℕ) → Script Error (Unit {0})
  forward done = lift (ok tt)
  forward (fails e) = lift (throws e)
  forward (next chunk rest) = write chunk >>= λ _. forward rest

  unfoldable pub forward_or_end : Option (Source Error (List ℕ)) → Script Error (Unit {0})
  forward_or_end none = write_end empty none
  forward_or_end (some body) = forward body

  -- The streaming branch.
  unfoldable pub write_streaming : ServerResponse Error Headers → Script Error (Unit {0})
  unfolding forward_or_end
  write_streaming response = do
    write_headers (or_else response.header empty)
    forward_or_end response.body

  unfoldable pub write_error_response :
      Error → Option Headers → Option Headers → Script Error (Unit {0})
  write_error_response error header trailer = do
    write_headers (or_else header empty)
    write_end (or_else trailer empty) (some error)

  http_error : ℕ → Error
  http_error status = connect_error (T.http_status status) (code_from_http_status status)

  -- The body of the `try` for a status other than 200.
  try_error :
      ServerResponse Error Headers → Headers → Result Error (Validated Error) → Result Error Error
  try_error response header (throws e) = throws e
  try_error response header (ok not_unary_error) = throws (connect (http_error response.status))
  try_error response header (ok (unary_error e)) = elim (body_bytes response.body) [
    | throws t ↦ throws t
    | ok bytes ↦ error_from_json_bytes bytes header e
  ]

  -- `e instanceof ConnectError ? e : new ConnectError(…)`
  catch_error : ℕ → Result Error Error → Error
  catch_error status (ok error) = error
  catch_error status (throws (connect error)) = error
  catch_error status (throws _) = http_error status

  unfoldable pub response_error : MethodKind → ServerResponse Error Headers → Error
  unfolding try_error catch_error http_error
  response_error kind response =
      let header = or_else response.header empty in
      catch_error response.status
        (try_error response header (validate_response kind response.status header))

  unfoldable pub write_failure : MethodKind → ServerResponse Error Headers → Script Error (Unit {0})
  write_failure kind response =
      let (demuxed, trailer) = trailer_demux (or_else response.header empty) in
      write_error_response (response_error kind response)
        (some (mirror_unary_response_encoding H C demuxed)) (some trailer)

  unfoldable pub write_response :
      MethodKind → ServerResponse Error Headers → Script Error (Unit {0})
  write_response kind response =
      if response.status == 200
      then (if is_unary kind then write_unary response else write_streaming response)
      else write_failure kind response
