-- ===== src/WebSocketTransport/Call/Sending.antt =====
-- What a call sends on its connection.
use connect_bidi_web.Common.{
  ℕ, String, ◌≡◌, refl, sym, ap, ◌∙◌, subst, Option, none, some, List, [], ◌∷◌, ◌++◌, append-nil,
  append_assoc, map, length, get_elem?, modify, get_elem?-modify_self, get_elem?-append_last,
  ==_refl,
}
use connect_bidi_web.Common.IdMap
use connect_bidi_web.Common.IdMap.{get-put}
use connect_bidi_web.Web.{Result, ok, HeadersApi, JsonApi, UrlApi}
use connect_bidi_web.Connect.{Source, done, EnvelopedMessage, ConnectApi}
use connect_bidi_web.Connect.Client.{Request, MethodApi, ClientApi}
use connect_bidi_web.Platform.{ConnectError, Channel}
use connect_bidi_web.Wire.{flag_envelope_headers, flag_envelope_data}
use connect_bidi_web.Bidi.Writing.{Writer}
use connect_bidi_web.Bidi.Bodies.{prepend}
use connect_bidi_web.HeadersFrame.Browser.{encode_headers_frame}
use connect_bidi_web.ClientCall.{write_messages, read_headers}
use connect_bidi_web.ClientCall.Requests.{open_writer, write_head-ok, write_messages-done}
use connect_bidi_web.WebSocketMux.{
  ready_open, Socket, MuxStreamEntry, WebSocketMux, Event, prefix_stream_id, send, open_stream,
  send_from, write_chunk, half_close,
}
use connect_bidi_web.WebSocketMux.Closing.{send-open}
use connect_bidi_web.WebTransport.Transport.{StreamResponse, serialize_all}
use connect_bidi_web.WebSocketTransport.{ConnectWebSocketTransportOptions}
use connect_bidi_web.WebSocketTransport.Call.{
  binary, write_frames, end_writing, write_request_in, write_body, read_answer, arrived, after_head,
  path_of, call_on, stream_next,
}

-- Entry `r` of `m` writes to the open socket `k`, which was given `before` so far.
pub record Writes (m : WebSocketMux) (r k id : ℕ) (s : Socket) : Type 0 where
  pub entry : MuxStreamEntry
  pub held : get_elem? m.streams r ≡ some entry
  pub owner : entry.stream_id ≡ id
  pub peer : entry.socket ≡ k
  pub target : get_elem? m.sockets k ≡ some s
  pub live : s.ready_state ≡ ready_open

-- `t` differs from `m` in that socket `k` was sent these messages.
pub record Sends (m : WebSocketMux) (k : ℕ) (s : Socket) (messages : List (List ℕ))
    (t : WebSocketMux) : Type 0 where
  pub sent : get_elem? t.sockets k ≡ some (record s { sent = s.sent ++ messages })
  pub same_streams : t.streams ≡ m.streams
  pub same_entries : t.entries ≡ m.entries
  pub same_socket : t.socket ≡ m.socket

module _ (H : HeadersApi) (J : JsonApi) (U : UrlApi) (C : ConnectApi H.Headers)
    (A : ClientApi H.Headers C.Error) (describe : ℕ → String)
    (end_stream_from_json : List ℕ → Result C.Error (Option C.Error × List (String × String)))
    (options : ConnectWebSocketTransportOptions A) (M : MethodApi C.Error) where
  open H use {Headers, empty}
  open C use {Error, encode_envelope, end_stream_flag}
  open M use {Message, Answer}

  abbrev pub frames_to : WebSocketMux → ℕ → List (List ℕ) → WebSocketMux
  frames_to = write_frames H J U C A describe end_stream_from_json options M

  write_chunk-Writes :
      (m : WebSocketMux) (r k id : ℕ) (s : Socket) (frame : List ℕ) (w : Writes m r k id s)
      → write_chunk encode_envelope end_stream_flag m r frame
        ≡ record m { sockets = modify m.sockets k (send (prefix_stream_id id frame)) }
  unfolding write_chunk send_from
  write_chunk-Writes m r k id s frame w = rw (w.held, send_from) (rw (w.owner, w.peer))

  pub write_frames-Sends :
      (m : WebSocketMux) (r k id : ℕ) (s : Socket) (frames : List (List ℕ))
      → Writes m r k id s
      → Sends m k s (map (prefix_stream_id id) frames) (frames_to m r frames)
  unfolding write_frames
  write_frames-Sends m r k id s [] w = record {
    sent =
        w.target
        ∙ ap (λ (l : List (List ℕ)). some (record s { sent = l })) (sym (append-nil s.sent));
    same_streams = refl;
    same_entries = refl;
    same_socket = refl;
  }
  write_frames-Sends m r k id s (frame ∷ frames) w =
      let bytes = prefix_stream_id id frame in
      let m' = record m { sockets = modify m.sockets k (send bytes) } in
      let s' = record s { sent = s.sent ++ bytes ∷ [] } in
      let later = write_frames-Sends m' r k id s' frames (record {
        entry = w.entry;
        held = w.held;
        owner = w.owner;
        peer = w.peer;
        target =
            get_elem?-modify_self m.sockets k (send bytes) w.target
            ∙ ap some (send-open encode_envelope end_stream_flag bytes s w.live);
        live = w.live;
      }) in
      subst
        (λ (t : WebSocketMux).
          Sends m k s (map (prefix_stream_id id) (frame ∷ frames)) (frames_to t r frames))
        (sym (write_chunk-Writes m r k id s frame w))
        (record {
          sent =
              later.sent
              ∙ ap (λ (l : List (List ℕ)). some (record s { sent = l }))
                  (append_assoc s.sent (bytes ∷ []) (map (prefix_stream_id id) frames));
          same_streams = later.same_streams;
          same_entries = later.same_entries;
          same_socket = later.same_socket;
        })

  write_frames-append :
      (m : WebSocketMux) (r : ℕ) (fs gs : List (List ℕ))
      → frames_to m r (fs ++ gs) ≡ frames_to (frames_to m r fs) r gs
  unfolding write_frames
  write_frames-append m r [] gs = refl
  write_frames-append m r (f ∷ fs) gs =
      write_frames-append (write_chunk encode_envelope end_stream_flag m r f) r fs gs

  -- All that a call sends: the headers, the messages and the half-close.
  abbrev pub request_frames : List ℕ → List (List ℕ) → List (List ℕ)
  request_frames payload messages =
      encode_envelope flag_envelope_headers payload
        ∷ map (encode_envelope flag_envelope_data) messages
      ++ encode_envelope end_stream_flag [] ∷ []

  pub open_stream-Writes :
      (m : WebSocketMux) (k : ℕ) (s : Socket)
      → get_elem? m.sockets k ≡ some s
      → s.ready_state ≡ ready_open
      → Writes (open_stream m k).0 (length m.streams) k m.next_stream_id s
  unfolding open_stream
  open_stream-Writes m k s target live = record {
    entry = _;
    held = get_elem?-append_last m.streams _;
    owner = refl;
    peer = refl;
    target = target;
    live = live;
  }

  pub open_stream-get :
      (m : WebSocketMux) (k : ℕ)
      → IdMap.get (open_stream m k).0.entries m.next_stream_id ≡ some (length m.streams)
  unfolding open_stream
  open_stream-get m k =
      get-put m.entries m.next_stream_id (length m.streams) m.next_stream_id
      ∙ rw (==_refl m.next_stream_id)

  -- The connection once the whole request is written.
  abbrev pub written_to : WebSocketMux → ℕ → List ℕ → List (List ℕ) → WebSocketMux
  written_to m k payload messages =
      frames_to (open_stream m k).0 (length m.streams) (request_frames payload messages)

  module _ (m : WebSocketMux) (k : ℕ) (req : Request Headers A.Context (Source Error Message))
      (envelopes : Channel ConnectError → Source Error EnvelopedMessage) (overtaken : Option ℕ)
      (later : List (Event encode_envelope end_stream_flag)) (url : U.Url) (payload : List ℕ)
      (messages : List (List ℕ)) where
    -- A call of a client without faults: the URL is valid, the request's headers have this frame,
    -- and its messages are these.
    pub record Sound : Type 0 where
      pub parses : U.parse req.url none ≡ some url
      pub encodes :
          encode_headers_frame H J {E = Error} req.header ((":path", U.pathname url) ∷ [])
          ≡ ok payload
      pub serializes :
          serialize_all
            (M.serialize (binary H J U C A describe end_stream_from_json options M))
            req.message
          ≡ prepend messages done

    -- The response, on the connection as the request has left it.
    abbrev pub response_of : WebSocketMux → Source Error EnvelopedMessage
    response_of t =
        arrived H J U C A describe end_stream_from_json options M envelopes t (length m.streams)
          later

    abbrev pub call : Result Error (StreamResponse Error Headers Answer) × WebSocketMux
    call =
        stream_next H J U C A describe end_stream_from_json options M m k req envelopes overtaken
          later

    path_of-parsed :
        Sound
        → path_of H J U C A describe end_stream_from_json options M req.url ≡ ok (U.pathname url)
    unfolding path_of
    path_of-parsed sound = rw (sound.parses, path_of)

    messages-written :
        Sound
        → write_messages H J C flag_envelope_data
            (serialize_all
              (M.serialize (binary H J U C A describe end_stream_from_json options M))
              req.message)
            (open_writer [])
          ≡ (ok tt, open_writer (map (encode_envelope flag_envelope_data) messages))
    messages-written sound =
        ap (λ src. write_messages H J C flag_envelope_data src (open_writer [])) sound.serializes
        ∙ write_messages-done H J C flag_envelope_data messages []

    write_body-written :
        (m' : WebSocketMux) (r id : ℕ)
        → Sound
        → write_body H J U C A describe end_stream_from_json options M m' r id req.message ≡ (
          frames_to m' r (
              map (encode_envelope flag_envelope_data) messages
              ++ encode_envelope end_stream_flag [] ∷ []),
          ok tt,
        )
    unfolding write_body write_request_in end_writing half_close write_frames
    write_body-written m' r id sound =
        ap
          (λ (p : Result Error (Unit {0}) × Writer).
            (write_request_in H J U C A describe end_stream_from_json options M m' r id p, p.0))
          (messages-written sound)
        ∙ ap (λ (t : WebSocketMux). (t, ok tt))
            (sym (
              write_frames-append m' r (map (encode_envelope flag_envelope_data) messages)
                (encode_envelope end_stream_flag [] ∷ [])))

    pub stream_next-written :
        Sound
        → call
          ≡ read_answer H J U C A describe end_stream_from_json options M
              (written_to m k payload messages, ok tt)
              m.next_stream_id
              overtaken
              later
              (read_headers H J C describe flag_envelope_headers
                (response_of (written_to m k payload messages)))
    unfolding stream_next call_on after_head open_stream write_frames
    stream_next-written sound =
        ap
          (λ p.
            call_on H J U C A describe end_stream_from_json options M (open_stream m k).0
              (length m.streams) m.next_stream_id req envelopes overtaken later p)
          (path_of-parsed sound)
        ∙ ap
            (λ p.
              after_head H J U C A describe end_stream_from_json options M (open_stream m k).0
                (length m.streams) m.next_stream_id req.message envelopes overtaken later p)
            (write_head-ok H J C req.header flag_envelope_headers (U.pathname url) payload
              sound.encodes)
        ∙ ap
            (λ p.
              read_answer H J U C A describe end_stream_from_json options M p m.next_stream_id
                overtaken later
                (read_headers H J C describe flag_envelope_headers (response_of p.0)))
            (write_body-written _ (length m.streams) m.next_stream_id sound)
