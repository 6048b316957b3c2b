-- ===== src/ClientCall/Session/Reading.antt =====
-- What is read of a response while the request is written.
use connect_bidi_web.Common.{
  ℕ, zero, suc, ◌≤◌, ◌≡◌, refl, ap, String, Option, none, some, List, [], ◌∷◌, map, length, take,
  arith, ==_refl,
}
use connect_bidi_web.Web.{Thrown, ok, throws, HeadersApi, JsonApi}
use connect_bidi_web.Connect.{Source, done, fails, next, EnvelopedMessage, ConnectApi}
use connect_bidi_web.HeadersFrame.Browser.{encode_headers_frame, decode_headers_frame}
use connect_bidi_web.Bidi.Bodies.{prepend}
use connect_bidi_web.ClientCall.{read_headers}
use connect_bidi_web.ClientCall.Requests.{open_writer, write_head-ok, write_messages-done}
use connect_bidi_web.ClientCall.Session.{
  WebTransportSession, overtaking, one_less, read_response_body, respond, after_head,
  run_web_transport_call,
}

module _ {E : Type 0} where
  -- A request that was written leaves the response as it is.
  pub read_response_body-written :
      (overtaken : Option ℕ) (src : Source E EnvelopedMessage)
      → read_response_body (ok tt) overtaken src ≡ src
  unfolding read_response_body overtaking
  read_response_body-written overtaken done = refl
  read_response_body-written overtaken (fails t) = refl
  read_response_body-written overtaken (next env rest) =
      ap (next env) (read_response_body-written (one_less overtaken) rest)

  -- What stops a response: its end, or a read that fails.
  pub data Stops : Source E EnvelopedMessage → Type 0 where
    ends : Stops done
    breaks : (t : Thrown E) → Stops (fails t)

  -- The error that the reader gets: the write's, or the one of its own read.
  pub data Blames (e : Thrown E) : Source E EnvelopedMessage → Thrown E → Type 0 where
    write_error : (stop : Source E EnvelopedMessage) → Blames e stop e
    read_error : (t : Thrown E) → Blames e (fails t) t

  -- A request whose writing fails with `e` never has a response that ends well, whenever the failure
  -- comes: the reader gets the first envelopes of the response, perhaps all, and then that error, or
  -- the error of its own read where the response breaks.
  pub read_response_body-throws :
      (e : Thrown E) (overtaken : Option ℕ) (envs : List EnvelopedMessage)
      (stop : Source E EnvelopedMessage)
      → Stops stop
      → (n : ℕ) × (n ≤ length envs)
        × (t : Thrown E) × Blames e stop t
        × (read_response_body (throws e) overtaken (prepend envs stop)
            ≡ prepend (take n envs) (fails t))
  unfolding read_response_body overtaking
  read_response_body-throws e none [] _ ends = (0, omega arith, e, write_error done, refl)
  read_response_body-throws e none [] _ (breaks t) = (0, omega arith, t, read_error t, refl)
  read_response_body-throws e (some zero) [] _ ends = (0, omega arith, e, write_error done, refl)
  read_response_body-throws e (some zero) [] _ (breaks t) =
      (0, omega arith, e, write_error (fails t), refl)
  read_response_body-throws e (some (suc k)) [] _ ends = (0, omega arith, e, write_error done, refl)
  read_response_body-throws e (some (suc k)) [] _ (breaks t) =
      (0, omega arith, t, read_error t, refl)
  read_response_body-throws e none (env ∷ envs) stop s =
      let (n, le, t, b, q) = read_response_body-throws e none envs stop s in
      (suc n, omega arith, t, b, ap (next env) q)
  read_response_body-throws e (some zero) (env ∷ envs) stop s =
      (0, omega arith, e, write_error stop, refl)
  read_response_body-throws e (some (suc k)) (env ∷ envs) stop s =
      let (n, le, t, b, q) = read_response_body-throws e (some k) envs stop s in
      (suc n, omega arith, t, b, ap (next env) q)

module _ (H : HeadersApi) (J : JsonApi) (C : ConnectApi H.Headers) (describe : ℕ → String) where
  open H use {Headers}
  open C use {Error, encode_envelope}

  -- A call on a session whose stream takes all writes, answered with a frame of headers: the peer
  -- gets the headers with the path and one envelope for each message, in order, and the caller the
  -- response's headers and all that follows them.
  pub run_web_transport_call-answered :
      (session : WebTransportSession Error) (headers answered : Headers) (messages : List (List ℕ))
      (header_flag data_flag : ℕ) (path : String) (overtaken : Option ℕ) (payload content : List ℕ)
      (rest : Source Error EnvelopedMessage) (pseudo : _)
      → session.create_bidirectional_stream
        ≡ ok (record {
          writable = open_writer [];
          readable = next (record { flags = header_flag; content = content }) rest;
        })
      → encode_headers_frame H J {E = Error} headers ((":path", path) ∷ []) ≡ ok payload
      → decode_headers_frame H J {E = Error} content ≡ ok (answered, pseudo)
      → run_web_transport_call H J C describe session headers
          (prepend messages done)
          header_flag
          data_flag
          path
          overtaken
        ≡ (
          ok (answered, rest),
          encode_envelope header_flag payload ∷ map (encode_envelope data_flag) messages,
        )
  unfolding run_web_transport_call after_head respond read_headers
  run_web_transport_call-answered session headers answered messages header_flag data_flag path
        overtaken payload content rest pseudo s e d =
      rw (
        s,
        write_head-ok H J C headers header_flag path payload e,
        write_messages-done H J C data_flag messages (encode_envelope header_flag payload ∷ []),
        ==_refl header_flag,
        d,
        read_response_body-written overtaken rest,
        run_web_transport_call,
      )
