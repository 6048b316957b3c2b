-- ===== src/Rpc.antt =====
-- A unary RPC with both of its ends: the client of ts/packages/web/src/connect-webtransport-transport.ts
-- and the server of ts/packages/core/src/handle-bidi-socket.ts.
use connect_bidi_web.Common.{
  ℕ, ◌≡◌, refl, ap, ◌∙◌, String, Bool, true, false, ◌||◌, Option, none, some, List, [], ◌∷◌,
  append-nil, map, ◌==◌, ==_refl, if◌then◌else◌,
}
use connect_bidi_web.Web.{Result, ok, Json, HeadersApi, JsonApi}
use connect_bidi_web.Connect.{
  Source, done, next, unary as unary_kind, EnvelopedMessage, ServerResponse, Handler, ConnectApi,
}
use connect_bidi_web.Connect.Client.{Request, MethodApi, ClientApi, CallArguments, RunOptions}
use connect_bidi_web.Wire.{flag_envelope_headers, flag_envelope_data}
use connect_bidi_web.HeadersFrame
use connect_bidi_web.HeadersFrame.Browser
use connect_bidi_web.Bidi.{Effect, wrote, path_of, find_handler, handle_bidi_socket}
use connect_bidi_web.Bidi.Normalize.{mirror_unary_response_encoding}
use connect_bidi_web.Bidi.Request.{read_unary_request_body}
use connect_bidi_web.Bidi.Response.{TextApi, or_else, data_flag, body_bytes}
use connect_bidi_web.Bidi.Bodies.{prepend, ended, read_unary_request_body-prepend}
use connect_bidi_web.Bidi.Calls.{request_of, handle-unary}
use connect_bidi_web.ClientCall.Requests.{open_writer}
use connect_bidi_web.ClientCall.Session.{WebTransportSession, Call}
use connect_bidi_web.WebTransport.{is_message}
use connect_bidi_web.WebTransport.Loops.{Closes}
use connect_bidi_web.WebTransport.Transport.{
  ConnectWebTransportTransportOptions, resolve, UnaryResponse, StreamResponse, unary,
}
use connect_bidi_web.WebTransport.Transport.Calls.{
  request, run_options, is_binary, unary_step, IsHead, Answers, unary-answered,
}

-- The chunks that the server's writer took.
unfoldable pub frames_of : List Effect → List (List ℕ)
frames_of [] = []
frames_of (wrote frame ∷ effects) = frame ∷ frames_of effects
frames_of (_ ∷ effects) = frames_of effects

module _ (H : HeadersApi) (J : JsonApi) (T : TextApi) (C : ConnectApi H.Headers) where
  open H use {Headers, empty, get}
  open C use {
    Error, encode_envelope, end_stream_flag, serialize_end_stream, header_unary_encoding,
    trailer_demux, compressed_flag,
  }

  -- The envelope of the server's reply.
  abbrev pub reply_envelope : Headers → List ℕ → EnvelopedMessage
  reply_envelope demuxed reply = record {
    flags =
        data_flag H J T C (get (mirror_unary_response_encoding H C demuxed) header_unary_encoding);
    content = reply;
  }

  -- The envelope that ends the server's stream.
  abbrev pub end_envelope : Headers → EnvelopedMessage
  end_envelope trailer = record {
    flags = end_stream_flag;
    content = serialize_end_stream trailer none;
  }

  or_true : (b : Bool) → (b || true) ≡ true
  or_true true = refl
  or_true false = refl

  flagged-is_message :
      (b : Bool) (content : List ℕ)
      → is_message H C
          (record { flags = if b then compressed_flag else flag_envelope_data; content = content })
        ≡ true
  flagged-is_message true content = rw (==_refl compressed_flag) (or_true _)
  flagged-is_message false content = refl

  reply-is_message :
      (demuxed : Headers) (reply : List ℕ) → is_message H C (reply_envelope demuxed reply) ≡ true
  unfolding data_flag
  reply-is_message demuxed reply = flagged-is_message _ reply

  -- What the client sends: the headers with the path, and the message.
  abbrev pub request_frames : List ℕ → List ℕ → List (List ℕ)
  request_frames payload bytes =
      encode_envelope flag_envelope_headers payload ∷ encode_envelope flag_envelope_data bytes ∷ []

  module _  -- `createEnvelopeReadableStream` on the chunks of a stream that ends
      (split : List (List ℕ) → Source C.Error EnvelopedMessage) where
    -- Envelopes that are encoded one per chunk come out as they were.
    abbrev pub Splits : Type 0
    Splits =
        (envs : List EnvelopedMessage)
        → split (map (λ (env : EnvelopedMessage). encode_envelope env.flags env.content) envs)
          ≡ prepend envs done

    -- The server on what the client sends.
    abbrev pub served :
        (String → Result Error String)
        → List (Handler Error Headers)
        → Bool
        → List ℕ
        → List ℕ
        → Result Error (Unit {0}) × List Effect
    served resolve_url handlers aborted payload bytes =
        handle_bidi_socket H J T C resolve_url handlers aborted
          (split (request_frames payload bytes)) none

  module _ (A : ClientApi H.Headers C.Error) (describe : ℕ → String)
      (add_metadata : C.Error → List (String × String) → C.Error)
      (end_stream_from_json : List ℕ → Result C.Error (Option C.Error × List (String × String)))
      (options : ConnectWebTransportTransportOptions A) (M : MethodApi C.Error)
      (overtaken : Option ℕ)
      (run_unary_call : RunOptions A
        → Request H.Headers A.Context M.Message
        → (Request H.Headers A.Context M.Message
            → Call H J C describe (UnaryResponse H.Headers M.Answer))
        → Call H J C describe (UnaryResponse H.Headers M.Answer))
      (run_streaming_call : RunOptions A
        → Request H.Headers A.Context (Source C.Error M.Message)
        → (Request H.Headers A.Context (Source C.Error M.Message)
            → Call H J C describe (StreamResponse C.Error H.Headers M.Answer))
        → Call H J C describe (StreamResponse C.Error H.Headers M.Answer))
      (resolve_url : String → Result C.Error String) (handlers : List (Handler C.Error H.Headers))
      (aborted : Bool)
      -- `createEnvelopeReadableStream` on the chunks of a stream that ends
      (split : List (List ℕ) → Source C.Error EnvelopedMessage) where
    -- A client's call and a server's handler that fit together.
    pub record Fits (arguments : CallArguments A M.Message) (payload bytes : List ℕ)
        (handler : Handler Error Headers) (response : ServerResponse Error Headers)
        (demuxed trailer : Headers) (answer_payload reply : List ℕ) (answered after : Headers)
        (answer : M.Answer) : Type 0 where
      -- The client's request.
      pub direct :
          run_unary_call
            (run_options H J C A describe add_metadata end_stream_from_json options M overtaken
              run_unary_call run_streaming_call arguments)
            (request H J C A describe add_metadata end_stream_from_json options M overtaken
              run_unary_call run_streaming_call false arguments)
            (unary_step H J C A describe add_metadata end_stream_from_json options M overtaken
              run_unary_call run_streaming_call)
          ≡ unary_step H J C A describe add_metadata end_stream_from_json options M overtaken
              run_unary_call run_streaming_call
              (request H J C A describe add_metadata end_stream_from_json options M overtaken
                run_unary_call run_streaming_call false arguments)
      pub head :
          IsHead H J C A describe add_metadata end_stream_from_json options M overtaken
            run_unary_call run_streaming_call false arguments payload
      pub serializes :
          M.serialize
            (is_binary H J C A describe add_metadata end_stream_from_json options M overtaken
              run_unary_call run_streaming_call)
            arguments.body
          ≡ ok bytes
      pub session : WebTransportSession Error
      pub resolved : resolve options.session ≡ ok session
      pub is_ready : session.ready ≡ ok tt
      -- What the client reads is what the server writes.
      pub opens :
          session.create_bidirectional_stream
          ≡ ok (record {
            writable = open_writer [];
            readable =
                split (frames_of (served split resolve_url handlers aborted payload bytes).1);
          })
      -- The server's handler.
      pub headers : Headers
      pub pseudo : List (String × Json)
      pub decodes : HeadersFrame.decode_headers_frame H J {E = Error} payload ≡ ok (headers, pseudo)
      pub found : find_handler handlers (path_of pseudo) ≡ some handler
      pub url : String
      pub located : resolve_url handler.request_path ≡ ok url
      pub is_unary : handler.method_kind ≡ unary_kind
      pub no_end : (flag_envelope_data == end_stream_flag) ≡ false
      pub calls :
          handler.call (
            request_of H J T C resolve_url handlers aborted
              (record { flags = flag_envelope_headers; content = payload })
              (next (record { flags = flag_envelope_data; content = bytes }) done)
              headers
              pseudo
              refl
              decodes
              handler
              url
              found
              located
              (next bytes done))
          ≡ ok response
      pub succeeds : response.status ≡ 200
      pub demuxes : trailer_demux (or_else response.header empty) ≡ (demuxed, trailer)
      pub encodes :
          HeadersFrame.encode_headers_frame H J {E = Error}
            (mirror_unary_response_encoding H C demuxed)
            []
          ≡ ok answer_payload
      pub body : body_bytes H J T C response.body ≡ ok reply
      -- The client's view of the reply.
      pub answer_pseudo : List (String × Json)
      pub answer_decodes :
          Browser.decode_headers_frame H J {E = Error} answer_payload ≡ ok (answered, answer_pseudo)
      pub closes :
          Closes H C describe add_metadata end_stream_from_json answered
            (end_envelope trailer)
            empty
            after
      pub parses :
          M.parse
            (is_binary H J C A describe add_metadata end_stream_from_json options M overtaken
              run_unary_call run_streaming_call)
            reply
          ≡ ok answer

    module _ (splits : Splits split) (arguments : CallArguments A M.Message)
        (payload bytes : List ℕ) (handler : Handler Error Headers)
        (response : ServerResponse Error Headers) (demuxed trailer : Headers)
        (answer_payload reply : List ℕ) (answered after : Headers) (answer : M.Answer)
        (f : Fits arguments payload bytes handler response demuxed trailer answer_payload reply
          answered after answer) where
      -- The two envelopes of the request, and the three of the reply.
      abbrev first_envelope : EnvelopedMessage
      first_envelope = record { flags = flag_envelope_headers; content = payload }

      abbrev data_envelope : EnvelopedMessage
      data_envelope = record { flags = flag_envelope_data; content = bytes }

      abbrev replies : List EnvelopedMessage
      replies =
          (record { flags = flag_envelope_headers; content = answer_payload })
          ∷ reply_envelope demuxed reply
          ∷ end_envelope trailer
          ∷ []

      body-read : read_unary_request_body C (next data_envelope done) ≡ ok bytes
      body-read =
          read_unary_request_body-prepend C (data_envelope ∷ []) done done ((f.no_end, refl), tt)
            ended
          ∙ ap ok (append-nil bytes)

      served-frames :
          ((served split resolve_url handlers aborted payload bytes).0 ≡ ok tt)
          × (frames_of (served split resolve_url handlers aborted payload bytes).1
              ≡ map (λ (env : EnvelopedMessage). encode_envelope env.flags env.content) replies)
      unfolding frames_of
      served-frames =
          let whole =
            ap
              (λ (src : Source Error EnvelopedMessage).
                handle_bidi_socket H J T C resolve_url handlers aborted src none)
              (splits (first_envelope ∷ data_envelope ∷ []))
            ∙ handle-unary H J T C resolve_url handlers aborted first_envelope
                (next data_envelope done) f.headers f.pseudo refl f.decodes handler f.url f.found
                f.located bytes response demuxed trailer answer_payload reply f.is_unary body-read
                f.calls f.succeeds f.demuxes f.encodes f.body in
          (
            ap (λ (p : Result Error (Unit {0}) × List Effect). p.0) whole,
            ap (λ (p : Result Error (Unit {0}) × List Effect). frames_of p.1) whole,
          )

      client-Answers :
          Answers H J C A describe add_metadata end_stream_from_json options M overtaken
            run_unary_call run_streaming_call answered
            (next (reply_envelope demuxed reply) (next (end_envelope trailer) done))
      client-Answers = record {
        session = f.session;
        resolved = f.resolved;
        is_ready = f.is_ready;
        content = answer_payload;
        opens =
            f.opens
            ∙ ap
                (λ (src : Source Error EnvelopedMessage).
                  ok (record { writable = open_writer []; readable = src }))
                (ap split served-frames.1 ∙ splits replies);
        pseudo = f.answer_pseudo;
        decodes = f.answer_decodes;
      }

      -- A unary RPC between this client and this server, whose handler answers with success: what the
      -- client writes is what the server reads and the other way round; then the server's promise
      -- resolves, the handler got the client's message, and the client gets the response's headers,
      -- the message that the handler answered with, and the trailers.
      pub unary-exchange :
          (unary H J C A describe add_metadata end_stream_from_json options M overtaken
              run_unary_call run_streaming_call arguments
            ≡ (
              ok (record { header = answered; message = answer; trailer = after }),
              request_frames payload bytes,
            ))
          × ((served split resolve_url handlers aborted payload bytes).0 ≡ ok tt)
      unary-exchange = (
        unary-answered H J C A describe add_metadata end_stream_from_json options M overtaken
            run_unary_call run_streaming_call arguments answered after
            (reply_envelope demuxed reply) (end_envelope trailer) bytes payload answer f.direct
            client-Answers f.head f.serializes (reply-is_message demuxed reply) f.closes f.parses,
        served-frames.0,
      )
