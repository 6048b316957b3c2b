-- ===== src/WebTransport/Transport/Calls.antt =====
-- Calls over WebTransport, from their arguments to what the caller gets.
use connect_bidi_web.Common.{ℕ, ◌≡◌, ◌∙◌, String, Bool, true, false, Option, List, [], ◌∷◌, map}
use connect_bidi_web.Web.{Result, ok, Json, HeadersApi, JsonApi}
use connect_bidi_web.Connect.{Source, done, next, EnvelopedMessage, ConnectApi}
use connect_bidi_web.Connect.Client.{Request, MethodApi, ClientApi, CallArguments, RunOptions}
use connect_bidi_web.Wire.{flag_envelope_headers, flag_envelope_data}
use connect_bidi_web.HeadersFrame.Browser.{encode_headers_frame, decode_headers_frame}
use connect_bidi_web.Bidi.Bodies.{prepend}
use connect_bidi_web.ClientCall.Requests.{open_writer}
use connect_bidi_web.ClientCall.Session.{WebTransportSession, Call}
use connect_bidi_web.ClientCall.Session.Reading.{run_web_transport_call-answered}
use connect_bidi_web.WebTransport.{is_message, parse_response_body}
use connect_bidi_web.WebTransport.Loops.{
  Closes, Yields, read_unary-reply, parse_response_body-prepend,
}
use connect_bidi_web.WebTransport.Transport.{
  ConnectWebTransportTransportOptions, resolve, UnaryResponse, StreamResponse, serialize_all,
  path_of, binary, request_of, run_options_of, ready_session, unary_answer, unary_on, unary_next,
  stream_answer, stream_on, stream_next, unary, stream,
}

module _ (H : HeadersApi) (J : JsonApi) (C : ConnectApi H.Headers) (A : ClientApi H.Headers C.Error)
    (describe : ℕ → String) (add_metadata : C.Error → List (String × String) → C.Error)
    (end_stream_from_json : List ℕ → Result C.Error (Option C.Error × List (String × String)))
    (options : ConnectWebTransportTransportOptions A) (M : MethodApi C.Error) (overtaken : Option ℕ)
    (run_unary_call : RunOptions A
      → Request H.Headers A.Context M.Message
      → (Request H.Headers A.Context M.Message
          → Call H J C describe (UnaryResponse H.Headers M.Answer))
      → Call H J C describe (UnaryResponse H.Headers M.Answer))
    (run_streaming_call : RunOptions A
      → Request H.Headers A.Context (Source C.Error M.Message)
      → (Request H.Headers A.Context (Source C.Error M.Message)
          → Call H J C describe (StreamResponse C.Error H.Headers M.Answer))
      → Call H J C describe (StreamResponse C.Error H.Headers M.Answer)) where
  open H use {Headers, empty}
  open C use {Error, encode_envelope}
  open M use {Message, Answer}

  abbrev pub request :
      {Body : Type 0} → Bool → CallArguments A Body → Request Headers A.Context Body
  request = request_of H J C A describe add_metadata end_stream_from_json options M overtaken

  abbrev pub run_options : {Body : Type 0} → CallArguments A Body → RunOptions A
  run_options =
      run_options_of H J C A describe add_metadata end_stream_from_json options M overtaken

  abbrev pub is_binary : Bool
  is_binary = binary H J C A describe add_metadata end_stream_from_json options M overtaken

  abbrev pub unary_step :
      Request Headers A.Context Message → Call H J C describe (UnaryResponse Headers Answer)
  unary_step = unary_next H J C A describe add_metadata end_stream_from_json options M overtaken

  abbrev pub stream_step :
      Request Headers A.Context (Source Error Message)
      → Call H J C describe (StreamResponse Error Headers Answer)
  stream_step = stream_next H J C A describe add_metadata end_stream_from_json options M overtaken

  -- The options lead to a session that is ready, whose stream takes all writes and gives a frame of
  -- headers that decodes to `answered`, and then `rest`.
  pub record Answers (answered : Headers) (rest : Source Error EnvelopedMessage) : Type 0 where
    pub session : WebTransportSession Error
    pub resolved : resolve options.session ≡ ok session
    pub is_ready : session.ready ≡ ok tt
    pub content : List ℕ
    pub opens :
        session.create_bidirectional_stream
        ≡ ok (record {
          writable = open_writer [];
          readable = next (record { flags = flag_envelope_headers; content = content }) rest;
        })
    pub pseudo : List (String × Json)
    pub decodes : decode_headers_frame H J {E = Error} content ≡ ok (answered, pseudo)

  -- The request's headers have this frame.
  abbrev pub IsHead : {Body : Type 0} → Bool → CallArguments A Body → List ℕ → Type 0
  IsHead is_stream arguments payload =
      encode_headers_frame H J {E = Error} ((request is_stream arguments).header)
        ((":path", path_of M) ∷ [])
      ≡ ok payload

  ready_session-ok :
      {answered : Headers} {rest : Source Error EnvelopedMessage} (a : Answers answered rest)
      → ready_session H J C A describe add_metadata end_stream_from_json options M overtaken
        ≡ ok a.session
  unfolding ready_session
  ready_session-ok a = rw (a.resolved, a.is_ready)

  -- A unary call without interceptors whose server answers with headers, one message and one end of
  -- the stream: the server gets the headers with the path and the message, and the caller gets the
  -- response's headers, the message and the trailers.
  pub unary-answered :
      (arguments : CallArguments A Message) (answered after : Headers) (env last : EnvelopedMessage)
      (bytes payload : List ℕ) (answer : Answer)
      → run_unary_call (run_options arguments) (request false arguments) (unary_step)
        ≡ unary_step (request false arguments)
      → Answers answered (next env (next last done))
      → IsHead false arguments payload
      → M.serialize (is_binary) arguments.body ≡ ok bytes
      → is_message H C env ≡ true
      → Closes H C describe add_metadata end_stream_from_json answered last empty after
      → M.parse (is_binary) env.content ≡ ok answer
      → unary H J C A describe add_metadata end_stream_from_json options M overtaken run_unary_call
          run_streaming_call arguments
        ≡ (
          ok (record { header = answered; message = answer; trailer = after }),
          encode_envelope flag_envelope_headers payload
              ∷ encode_envelope flag_envelope_data bytes
              ∷ [],
        )
  unfolding unary unary_next unary_on unary_answer
  unary-answered arguments answered after env last bytes payload answer direct a head s m c p =
      direct
      ∙ rw (
        ready_session-ok a,
        s,
        run_web_transport_call-answered H J C describe a.session _ answered (bytes ∷ [])
            flag_envelope_headers flag_envelope_data (path_of M) overtaken payload a.content _
            a.pseudo a.opens head a.decodes,
        (read_unary-reply H C describe add_metadata end_stream_from_json answered env last after m
            c).0,
        p,
      )

  stream_next-answered :
      (arguments : CallArguments A (Source Error Message)) (messages : List (List ℕ))
      (answered : Headers) (rest : Source Error EnvelopedMessage) (payload : List ℕ)
      → Answers answered rest
      → IsHead true arguments payload
      → serialize_all (M.serialize is_binary) arguments.body ≡ prepend messages done
      → stream_step (request true arguments) ≡ (
        ok (record {
          header = answered;
          body =
              parse_response_body H C describe add_metadata end_stream_from_json answered
                (M.parse is_binary)
                []
                false
                empty
                rest;
        }),
        encode_envelope flag_envelope_headers payload
            ∷ map (encode_envelope flag_envelope_data) messages,
      )
  unfolding stream_next stream_on stream_answer
  stream_next-answered arguments messages answered rest payload a head s = rw (
    ready_session-ok a,
    s,
    run_web_transport_call-answered H J C describe a.session _ answered messages
        flag_envelope_headers flag_envelope_data (path_of M) overtaken payload a.content rest
        a.pseudo a.opens head a.decodes,
  )

  -- A streaming call without interceptors whose server answers with headers, messages and one end of
  -- the stream without an error: the server gets the headers with the path and all messages in order,
  -- and the caller the response's headers, all its messages in order and the trailers.
  pub stream-answered :
      (arguments : CallArguments A (Source Error Message)) (messages : List (List ℕ))
      (answered after : Headers) (envs : List EnvelopedMessage) (answers : List Answer)
      (last : EnvelopedMessage) (payload : List ℕ)
      → run_streaming_call (run_options arguments) (request true arguments) stream_step
        ≡ stream_step (request true arguments)
      → Answers answered (prepend envs (next last done))
      → IsHead true arguments payload
      → serialize_all (M.serialize is_binary) arguments.body ≡ prepend messages done
      → Yields H C describe add_metadata end_stream_from_json answered
          (M.parse is_binary)
          envs
          answers
      → Closes H C describe add_metadata end_stream_from_json answered last empty after
      → stream H J C A describe add_metadata end_stream_from_json options M overtaken run_unary_call
          run_streaming_call arguments
        ≡ (
          ok (record {
            header = answered;
            body = record { messages = answers; trailers = after; result = ok tt };
          }),
          encode_envelope flag_envelope_headers payload
              ∷ map (encode_envelope flag_envelope_data) messages,
        )
  unfolding stream
  stream-answered arguments messages answered after envs answers last payload direct a head s y c =
      direct
      ∙ stream_next-answered arguments messages answered (prepend envs (next last done)) payload a
          head s
      ∙ rw (
          (parse_response_body-prepend H C describe add_metadata end_stream_from_json answered
            (M.parse is_binary) envs answers last after y c).0)
