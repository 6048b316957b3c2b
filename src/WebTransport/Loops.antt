-- ===== src/WebTransport/Loops.antt =====
-- What the loops over a response make of it.
use connect_bidi_web.Common.{
  ℕ, String, ◌≡◌, sym, ap, ◌∙◌, true, false, Option, none, List, [], ◌∷◌, ◌++◌, append-nil,
  append_assoc, ◌==◌,
}
use connect_bidi_web.Web.{Result, ok, throws, HeadersApi}
use connect_bidi_web.Connect.{Source, done, next, EnvelopedMessage, ConnectApi}
use connect_bidi_web.Bidi.Bodies.{prepend}
use connect_bidi_web.ClientCall.{Outcome}
use connect_bidi_web.WebTransport.{
  is_message, missing_end, end_stream, finish_unary, read_unary, parse_response_body,
}

module _ (H : HeadersApi) (C : ConnectApi H.Headers) (describe : ℕ → String)
    (add_metadata : C.Error → List (String × String) → C.Error)
    (end_stream_from_json : List ℕ → Result C.Error (Option C.Error × List (String × String)))
    (response_headers : H.Headers) where
  open H use {Headers, empty}
  open C use {Error, end_stream_flag}

  -- `last` is an end of the stream that turns the trailers `trailer` into `after`.
  pub record Closes (last : EnvelopedMessage) (trailer after : Headers) : Type 0 where
    pub no_message : is_message H C last ≡ false
    pub ending : (last.flags == end_stream_flag) ≡ true
    pub trailers :
        end_stream H C describe add_metadata end_stream_from_json response_headers trailer
          last.content
        ≡ ok after

  abbrev unary_of : Source Error EnvelopedMessage → Result Error (List ℕ × Headers)
  unary_of =
      read_unary H C describe add_metadata end_stream_from_json response_headers none false empty

  -- A unary response with one message and one end of the stream without an error is that message with
  -- the trailers, whichever of the two comes first; without the end of the stream it is an error.
  pub read_unary-reply :
      (env last : EnvelopedMessage) (after : Headers)
      → is_message H C env ≡ true
      → Closes last empty after
      → (unary_of (next env (next last done)) ≡ ok (env.content, after))
        × (unary_of (next last (next env done)) ≡ ok (env.content, after))
        × (unary_of (next env done) ≡ throws (missing_end H C))
  unfolding read_unary finish_unary
  read_unary-reply env last after m c = (
    rw (m, read_unary) (rw (c.no_message, c.ending, c.trailers, read_unary)),
    rw (c.no_message, c.ending, c.trailers, read_unary) (rw (m, read_unary)),
    rw (m, read_unary),
  )

  module _ {O : Type 0} (parse : List ℕ → Result Error O) where
    pub data Yields : List EnvelopedMessage → List O → Type 0 where
      nothing : Yields [] []
      yield :
          (env : EnvelopedMessage) (o : O) (envs : List EnvelopedMessage) (os : List O)
          → is_message H C env ≡ true
          → parse env.content ≡ ok o
          → Yields envs os
          → Yields (env ∷ envs) (o ∷ os)

    abbrev body_of : List O → Headers → Source Error EnvelopedMessage → Outcome Error Headers O
    body_of got trailer =
        parse_response_body H C describe add_metadata end_stream_from_json response_headers parse
          got false trailer

    body-prepend :
        (envs : List EnvelopedMessage) (os got : List O) (trailer : Headers)
        (rest : Source Error EnvelopedMessage)
        → Yields envs os
        → body_of got trailer (prepend envs rest) ≡ body_of (got ++ os) trailer rest
    unfolding parse_response_body
    body-prepend _ _ got trailer rest nothing =
        ap (λ (t : List O). body_of t trailer rest) (sym (append-nil got))
    body-prepend _ _ got trailer rest (yield env o envs os m p y) =
        rw (m, p, parse_response_body)
          (body-prepend envs os (got ++ o ∷ []) trailer rest y
            ∙ ap (λ (t : List O). body_of t trailer rest) (append_assoc got (o ∷ []) os))

    -- A streaming response yields its messages in order; it ends well, with the trailers, where an end
    -- of the stream without an error follows them, and with an error where none follows.
    pub parse_response_body-prepend :
        (envs : List EnvelopedMessage) (os : List O) (last : EnvelopedMessage) (after : Headers)
        → Yields envs os
        → Closes last empty after
        → (body_of [] empty (prepend envs (next last done))
            ≡ record { messages = os; trailers = after; result = ok tt })
          × (body_of [] empty (prepend envs done)
              ≡ record { messages = os; trailers = empty; result = throws (missing_end H C) })
    unfolding parse_response_body
    parse_response_body-prepend envs os last after y c = (
      body-prepend envs os [] empty (next last done) y
          ∙ rw (c.no_message, c.ending, c.trailers, parse_response_body),
      body-prepend envs os [] empty done y,
    )
