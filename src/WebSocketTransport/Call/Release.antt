-- ===== src/WebSocketTransport/Call/Release.antt =====
-- What a call leaves on its connection.
use connect_bidi_web.Common.{
  ℕ, String, ◌≡◌, ap, ◌∙◌, Option, none, some, List, [], ◌++◌, All, map, length, get_elem?,
}
use connect_bidi_web.Common.IdMap
use connect_bidi_web.Common.IdMap.{get-put}
use connect_bidi_web.Web.{Thrown, Result, ok, throws, HeadersApi, JsonApi, UrlApi}
use connect_bidi_web.Connect.{Source, EnvelopedMessage, ConnectApi}
use connect_bidi_web.Connect.Client.{Request, MethodApi, ClientApi}
use connect_bidi_web.Platform.{ConnectError, Channel}
use connect_bidi_web.Wire.{flag_envelope_headers}
use connect_bidi_web.ClientCall.{read_headers, iterate}
use connect_bidi_web.ClientCall.Session.Reading.{read_response_body-written}
use connect_bidi_web.WebSocketMux.{
  ready_open, Socket, WebSocketMux, Event, prefix_stream_id, open_stream, close_stream, run,
}
use connect_bidi_web.WebSocketMux.Arrivals.{Arrives, run-Keeps}
use connect_bidi_web.WebSocketMux.Closing.{close_stream-twice}
use connect_bidi_web.WebTransport.Transport.{StreamResponse}
use connect_bidi_web.WebSocketTransport.{ConnectWebSocketTransportOptions}
use connect_bidi_web.WebSocketTransport.Call.{binary, read_answer, arrived, stream_next}
use connect_bidi_web.WebSocketTransport.Call.Sending.{
  Sends, Sound, written_to, request_frames, write_frames-Sends, open_stream-Writes, open_stream-get,
  stream_next-written,
}

module _ (H : HeadersApi) (J : JsonApi) (U : UrlApi) (C : ConnectApi H.Headers)
    (A : ClientApi H.Headers C.Error) (describe : ℕ → String)
    (end_stream_from_json : List ℕ → Result C.Error (Option C.Error × List (String × String)))
    (options : ConnectWebSocketTransportOptions A) (M : MethodApi C.Error) (m : WebSocketMux)
    (k : ℕ) (s : Socket) (req : Request H.Headers A.Context (Source C.Error M.Message))
    (envelopes : Channel ConnectError → Source C.Error EnvelopedMessage) (overtaken : Option ℕ)
    (url : U.Url) (payload : List ℕ) (messages : List (List ℕ)) where
  open H use {Headers, empty}
  open C use {Error, encode_envelope, end_stream_flag}

  -- The connection once the request is sent, and the response that then comes on it.
  abbrev pub written : WebSocketMux
  written = written_to H J U C A describe end_stream_from_json options M m k payload messages

  abbrev pub response : List (Event encode_envelope end_stream_flag) → Source Error EnvelopedMessage
  response later =
      arrived H J U C A describe end_stream_from_json options M envelopes written (length m.streams)
        later

  -- The state of the connection after the call has sent its request, on an open socket.
  abbrev pub IsSent : WebSocketMux → Type 0
  IsSent = Sends (open_stream m k).0 k s (
      map (prefix_stream_id m.next_stream_id)
        (request_frames H J U C A describe end_stream_from_json options M payload messages))

  written-IsSent : get_elem? m.sockets k ≡ some s → s.ready_state ≡ ready_open → IsSent written
  written-IsSent target live =
      write_frames-Sends H J U C A describe end_stream_from_json options M (open_stream m k).0
        (length m.streams) k m.next_stream_id s
        (request_frames H J U C A describe end_stream_from_json options M payload messages)
        (open_stream-Writes H J U C A describe end_stream_from_json options M m k s target live)

  -- A call on an open socket whose server answers with headers: it opens a stream under the next ID
  -- and sends under that ID the headers with the path, its messages in order and the half-close; its
  -- caller gets the response's headers and what the generator makes of the rest; and after all that
  -- happens meanwhile, the stream is closed and its ID is out of the table.
  pub stream_next-answered :
      (later : List (Event encode_envelope end_stream_flag)) (answered : Headers)
      (rest : Source Error EnvelopedMessage)
      → get_elem? m.sockets k ≡ some s
      → s.ready_state ≡ ready_open
      → Sound H J U C A describe end_stream_from_json options M m k req envelopes overtaken later
          url payload messages
      → read_headers H J C describe flag_envelope_headers (response later) ≡ ok (answered, rest)
      → (t : WebSocketMux) × IsSent t
        × (stream_next H J U C A describe end_stream_from_json options M m k req envelopes overtaken
              later
            ≡ (
              ok (record {
                header = answered;
                body =
                    iterate H J C describe
                      (M.parse (binary H J U C A describe end_stream_from_json options M))
                      end_stream_from_json
                      []
                      empty
                      rest;
              }),
              close_stream encode_envelope end_stream_flag
                  (run encode_envelope end_stream_flag t later)
                  m.next_stream_id,
            ))
        × (IdMap.get
              ((stream_next H J U C A describe end_stream_from_json options M m k req envelopes
                overtaken later).1.entries)
              m.next_stream_id
            ≡ none)
  unfolding read_answer
  stream_next-answered later answered rest target live sound h = (
    written,
    written-IsSent target live,
    whole,
    ap
          (λ (p : Result Error (StreamResponse Error Headers M.Answer) × WebSocketMux).
            IdMap.get p.1.entries m.next_stream_id)
          whole
        ∙ (close_stream-twice encode_envelope end_stream_flag
            (run encode_envelope end_stream_flag written later) m.next_stream_id).0,
  )
    where
      whole :
          stream_next H J U C A describe end_stream_from_json options M m k req envelopes overtaken
            later
          ≡ (
            ok (record {
              header = answered;
              body =
                  iterate H J C describe
                    (M.parse (binary H J U C A describe end_stream_from_json options M))
                    end_stream_from_json
                    []
                    empty
                    rest;
            }),
            close_stream encode_envelope end_stream_flag
                (run encode_envelope end_stream_flag written later)
                m.next_stream_id,
          )
      whole =
          stream_next-written H J U C A describe end_stream_from_json options M m k req envelopes
            overtaken later url payload messages sound
          ∙ ap
              (λ r.
                read_answer H J U C A describe end_stream_from_json options M (written, ok tt)
                  m.next_stream_id overtaken later r)
              h
          ∙ rw (read_response_body-written overtaken rest)

  -- A call on an open socket whose server answers otherwise than with headers, where until then only
  -- messages arrive, none of which resets the stream, and streams are read: it throws once its
  -- request is sent, but the stream stays in the table, the socket is sent the request's frames only
  -- and so no reset, and it stays the connection's socket and is not closed, also where the
  -- connection was made for this call alone.
  pub stream_next-leaks :
      (later : List (Event encode_envelope end_stream_flag)) (e : Thrown Error)
      → get_elem? m.sockets k ≡ some s
      → s.ready_state ≡ ready_open
      → Sound H J U C A describe end_stream_from_json options M m k req envelopes overtaken later
          url payload messages
      → All (Arrives encode_envelope end_stream_flag m.next_stream_id) later
      → read_headers H J C describe flag_envelope_headers (response later) ≡ throws e
      → let (result, t) =
          stream_next H J U C A describe end_stream_from_json options M m k req envelopes overtaken
            later in
        (result ≡ throws e)
        × (IdMap.get t.entries m.next_stream_id ≡ some (length m.streams))
        × (get_elem? t.sockets k
            ≡ some (record s {
              sent =
                  s.sent
                  ++ map (prefix_stream_id m.next_stream_id) (
                      request_frames H J U C A describe end_stream_from_json options M payload
                        messages);
            }))
        × (t.socket ≡ m.socket)
  unfolding read_answer open_stream
  stream_next-leaks later e target live sound arrives h =
      let sent = written-IsSent target live in
      let whole : stream_next H J U C A describe end_stream_from_json options M m k req envelopes
            overtaken later
          ≡ (throws e, run encode_envelope end_stream_flag written later) =
        stream_next-written H J U C A describe end_stream_from_json options M m k req envelopes
          overtaken later url payload messages sound
        ∙ ap
            (λ r.
              read_answer H J U C A describe end_stream_from_json options M (written, ok tt)
                m.next_stream_id overtaken later r)
            h in
      let kept =
        run-Keeps encode_envelope end_stream_flag m.next_stream_id (length m.streams) written later
          arrives
          (ap (λ (es : List (ℕ × ℕ)). IdMap.get es m.next_stream_id) sent.same_entries
            ∙ open_stream-get H J U C A describe end_stream_from_json options M m k) in
      (
        ap (λ (p : Result Error (StreamResponse Error Headers M.Answer) × WebSocketMux). p.0) whole,
        ap
              (λ (p : Result Error (StreamResponse Error Headers M.Answer) × WebSocketMux).
                IdMap.get p.1.entries m.next_stream_id)
              whole
            ∙ kept.0,
        ap
              (λ (p : Result Error (StreamResponse Error Headers M.Answer) × WebSocketMux).
                get_elem? p.1.sockets k)
              whole
            ∙ ap (λ (ss : List Socket). get_elem? ss k) kept.1
            ∙ sent.sent,
        ap (λ (p : Result Error (StreamResponse Error Headers M.Answer) × WebSocketMux). p.1.socket)
              whole
            ∙ kept.2
            ∙ sent.same_socket,
      )
