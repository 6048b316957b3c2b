-- ===== src/ClientCall/Responses.antt =====
-- What a client gets of a response.
use connect_bidi_web.Common.{
  ℕ, String, ◌≡◌, sym, ap, ◌∙◌, true, false, not, ◌&&◌, Option, none, some, List, [], ◌∷◌, ◌++◌,
  append-nil, append_assoc, ◌==◌,
}
use connect_bidi_web.Web.{connect, Result, ok, throws, HeadersApi, JsonApi}
use connect_bidi_web.Connect.{Source, next, EnvelopedMessage, ConnectApi}
use connect_bidi_web.Wire.{flag_envelope_data}
use connect_bidi_web.Bidi.Bodies.{prepend}
use connect_bidi_web.ClientCall.{Outcome, iterate, end_stream, append_trailers, ended, error_result}

module _ (H : HeadersApi) (J : JsonApi) (C : ConnectApi H.Headers) (describe : ℕ → String)
    {O : Type 0} (parse : List ℕ → Result C.Error O)
    (end_stream_from_json : List ℕ → Result C.Error (Option C.Error × List (String × String))) where
  open H use {Headers, empty}
  open C use {Error, compressed_flag, end_stream_flag}

  -- The envelopes carry these messages.
  pub data Carries : List EnvelopedMessage → List O → Type 0 where
    no_message : Carries [] []
    message :
        (env : EnvelopedMessage) (o : O) (envs : List EnvelopedMessage) (os : List O)
        → (env.flags == end_stream_flag) ≡ false
        → (not (env.flags == flag_envelope_data) && not (env.flags == compressed_flag)) ≡ false
        → parse env.content ≡ ok o
        → Carries envs os
        → Carries (env ∷ envs) (o ∷ os)

  abbrev reading : List O → Headers → Source Error EnvelopedMessage → Outcome Error Headers O
  reading = iterate H J C describe parse end_stream_from_json

  iterate-prepend :
      (envs : List EnvelopedMessage) (os got : List O) (trailers : Headers)
      (rest : Source Error EnvelopedMessage)
      → Carries envs os
      → reading got trailers (prepend envs rest) ≡ reading (got ++ os) trailers rest
  unfolding iterate
  iterate-prepend _ _ got trailers rest no_message =
      ap (λ (t : List O). reading t trailers rest) (sym (append-nil got))
  iterate-prepend _ _ got trailers rest (message env o envs os e d p c) =
      rw (e, d, p, iterate)
        (iterate-prepend envs os (got ++ o ∷ []) trailers rest c
          ∙ ap (λ (t : List O). reading t trailers rest) (append_assoc got (o ∷ []) os))

  -- A response whose end of the stream carries an error or none: the consumer gets all messages in
  -- order, then the trailers, and then the generator throws that error or ends.
  pub iterate-end_stream :
      (envs : List EnvelopedMessage) (os : List O) (last : EnvelopedMessage)
      (rest : Source Error EnvelopedMessage) (error : Option Error)
      (metadata : List (String × String)) (trailers : Headers)
      → Carries envs os
      → (last.flags == end_stream_flag) ≡ true
      → end_stream_from_json last.content ≡ ok (error, metadata)
      → append_trailers H J C describe parse end_stream_from_json empty metadata ≡ (ok tt, trailers)
      → reading [] empty (prepend envs (next last rest)) ≡ record {
        messages = os;
        trailers = trailers;
        result = elim error [ none ↦ ok tt | some e ↦ throws (connect e) ];
      }
  unfolding iterate end_stream ended error_result
  iterate-end_stream envs os last rest error metadata trailers c l j a =
      iterate-prepend envs os [] empty (next last rest) c
      ∙ rw (l, iterate) (rw (j, end_stream) (rw (a, ended)))
