-- ===== src/Bidi/Cutoff.antt =====
-- One RPC with a peer that goes away.
use connect_bidi_web.Common.{
  ℕ, zero, suc, ◌-◌, ◌≤◌, String, ◌≡◌, refl, sym, ap, ◌∙◌, inl, inr, Bool, Option, none, some, List,
  [], ◌∷◌, ◌++◌, map, length, take, lt_or_le, arith, ◌==◌, Bool-cases,
}
use connect_bidi_web.Web.{Result, ok, throws, Json, HeadersApi, JsonApi}
use connect_bidi_web.Connect.{
  Source, done, fails, next, MethodKind, EnvelopedMessage, ServerResponse, Handler, ConnectApi,
}
use connect_bidi_web.Wire.{flag_envelope_headers}
use connect_bidi_web.HeadersFrame.{encode_headers_frame, decode_headers_frame}
use connect_bidi_web.Bidi.{
  wrote, aborts_request, cancels_reader, closes_writer, closes_socket, path_of, find_handler,
  finally, call, request_body, answer, dispatch, serve, attempt, handle_bidi_socket,
}
use connect_bidi_web.Bidi.Writing.{
  Script, lift, ◌>>=◌, settled, ignoring_peer_disconnect, ignoring_peer_disconnect-of,
}
use connect_bidi_web.Bidi.Response.{
  TextApi, is_unary, body_bytes, write_headers, write_end, write_unary, forward, forward_or_end,
  write_streaming, write_error_response, write_failure, write_response,
}
use connect_bidi_web.Bidi.Disconnect.{
  Runs, free_writer, limited_writer, Writes, Writes-bind, Writes-lift, Writes-write,
}

take_all : (n : ℕ) (fs : List (List ℕ)) → length fs ≤ n → take n fs ≡ fs
take_all zero [] h = refl
take_all zero (f ∷ fs) h = absurd (omega arith)
take_all (suc n) [] h = refl
take_all (suc n) (f ∷ fs) h = ap (◌∷◌ f) (take_all n fs (omega arith))

take_nil : (n : ℕ) → [] ≡ take {A = List ℕ} n []
take_nil zero = refl
take_nil (suc n) = refl

-- `m` writes `fs` and has the result `r`, which does not depend on how many of them the peer takes.
record Settles {E : Type 0} (m : Script E (Unit {0})) (fs : List (List ℕ)) (r : Result E (Unit {0}))
    : Type 0 where
  free : m (free_writer []) ≡ (r, free_writer fs)
  limited : (n : ℕ) → (room : ℕ) × (m (limited_writer [] n) ≡ (r, limited_writer (take n fs) room))

abbrev Settling : {E : Type 0} → Script E (Unit {0}) → Type 0
Settling {E} m = (fs : List (List ℕ)) × (r : Result E (Unit {0})) × Settles m fs r

module _ {E : Type 0} where
  Settling-lift : (r : Result E (Unit {0})) → Settling (lift r)
  Settling-lift r = (
    [],
    r,
    record {
      free = refl;
      limited = λ n. (n, ap (λ (u : List (List ℕ)). (r, limited_writer u n)) (take_nil n));
    },
  )

  settled-throws : (r : Result E (Unit {0})) → settled r ≡ ok tt
  settled-throws (ok tt) = refl
  settled-throws (throws e) = refl

  limited-ignoring :
      (m : Script E (Unit {0})) (fs : List (List ℕ)) (r : Result E (Unit {0}))
      → Runs m fs r
      → (n : ℕ)
      → (room : ℕ) × (ignoring_peer_disconnect m (limited_writer [] n)
          ≡ (ok tt, limited_writer (take n fs) room))
  limited-ignoring m fs r h n = elim (lt_or_le n (length fs)) [
    | inl short ↦ (0, ignoring_peer_disconnect-of m (h.cut [] n short))
    | inr long ↦ (
      n - length fs,
      ignoring_peer_disconnect-of m (h.fits [] n long)
          ∙ ap (λ (q : Result E (Unit {0})). (q, limited_writer fs (n - length fs)))
              (settled-throws r)
          ∙ ap (λ (u : List (List ℕ)). (ok tt, limited_writer u (n - length fs)))
              (sym (take_all n fs long)),
    )
  ]

  Settling-ignoring : (m : Script E (Unit {0})) → Writes m → Settling (ignoring_peer_disconnect m)
  Settling-ignoring m (fs, r, h) = (
    fs,
    ok tt,
    record {
      free =
          ignoring_peer_disconnect-of m (h.free [])
          ∙ ap (λ (q : Result E (Unit {0})). (q, free_writer fs)) (settled-throws r);
      limited = limited-ignoring m fs r h;
    },
  )

  -- After a step that writes nothing.
  Settling-after :
      {A : Type 0} (r : Result E A) (f : A → Script E (Unit {0}))
      → ((a : A) → Settling (f a))
      → Settling (lift r >>= f)
  Settling-after (ok a) f h = h a
  Settling-after (throws e) f h = Settling-lift (throws e)

module _ (H : HeadersApi) (J : JsonApi) (T : TextApi) (C : ConnectApi H.Headers) where
  open H use {Headers, empty, get}
  open C use {Error, encode_envelope, header_unary_encoding, trailer_demux}

  write_headers-Writes : (headers : Headers) → Writes (write_headers H J T C headers)
  unfolding write_headers
  write_headers-Writes headers =
      Writes-bind _ _ (Writes-lift (encode_headers_frame H J headers []))
        (λ payload. Writes-write _)

  write_end-Writes :
      (headers : Headers) (error : Option Error) → Writes (write_end H J T C headers error)
  unfolding write_end
  write_end-Writes headers error = Writes-write _

  write_error_response-Writes :
      (error : Error) (header trailer : Option Headers)
      → Writes (write_error_response H J T C error header trailer)
  unfolding write_error_response
  write_error_response-Writes error header trailer =
      Writes-bind _ _ (write_headers-Writes _) (λ u. write_end-Writes _ (some error))

  write_unary-Writes :
      (response : ServerResponse Error Headers) → Writes (write_unary H J T C response)
  unfolding write_unary
  write_unary-Writes response = Writes-bind _ _ (write_headers-Writes _) (λ u.
      Writes-bind _ _ (Writes-lift (body_bytes H J T C response.body))
        (λ bytes. Writes-bind _ _ (Writes-write _) (λ v. write_end-Writes _ none)))

  forward-Writes : (body : Source Error (List ℕ)) → Writes (forward H J T C body)
  unfolding forward
  forward-Writes done = Writes-lift (ok tt)
  forward-Writes (fails e) = Writes-lift (throws e)
  forward-Writes (next chunk rest) = Writes-bind _ _ (Writes-write chunk) (λ u. forward-Writes rest)

  forward_or_end-Writes :
      (body : Option (Source Error (List ℕ))) → Writes (forward_or_end H J T C body)
  unfolding forward_or_end
  forward_or_end-Writes none = write_end-Writes empty none
  forward_or_end-Writes (some body) = forward-Writes body

  write_streaming-Writes :
      (response : ServerResponse Error Headers) → Writes (write_streaming H J T C response)
  unfolding write_streaming
  write_streaming-Writes response =
      Writes-bind _ _ (write_headers-Writes _) (λ u. forward_or_end-Writes response.body)

  write_failure-Writes :
      (kind : MethodKind) (response : ServerResponse Error Headers)
      → Writes (write_failure H J T C kind response)
  unfolding write_failure
  write_failure-Writes kind response = write_error_response-Writes _ _ _

  write_response-Writes :
      (kind : MethodKind) (response : ServerResponse Error Headers)
      → Writes (write_response H J T C kind response)
  unfolding write_response
  write_response-Writes kind response = elim (Bool-cases (response.status == 200)) [
    | inl good ↦ elim (Bool-cases (is_unary kind)) [
      | inl u ↦ rw (good, u) (write_unary-Writes response)
      | inr s ↦ rw (good, s) (write_streaming-Writes response)
    ]
    | inr bad ↦ rw bad (write_failure-Writes kind response)
  ]

  module _ (resolve_url : String → Result Error String) (handlers : List (Handler Error Headers))
      (aborted : Bool) where
    answer-Settling :
        (kind : MethodKind) (r : Result Error (ServerResponse Error Headers))
        → Settling (answer H J T C resolve_url handlers aborted kind r)
    unfolding answer
    answer-Settling kind (throws e) = Settling-ignoring _ (write_error_response-Writes _ none none)
    answer-Settling kind (ok response) = Settling-ignoring _ (write_response-Writes kind response)

    dispatch-Settling :
        (headers : Headers) (path : Json) (rest : Source Error EnvelopedMessage)
        (o : Option (Handler Error Headers))
        → Settling (dispatch H J T C resolve_url handlers aborted headers path rest o)
    unfolding dispatch call
    dispatch-Settling headers path rest none =
        Settling-ignoring _ (write_error_response-Writes _ none none)
    dispatch-Settling headers path rest (some handler) =
        Settling-after (resolve_url handler.request_path) _ (λ url.
          Settling-after
            (request_body H J T C resolve_url handlers aborted handler.method_kind rest) _
            (λ body. answer-Settling handler.method_kind _))

    attempt-Settling :
        (source : Source Error EnvelopedMessage)
        → Settling (attempt H J T C resolve_url handlers aborted source)
    unfolding attempt serve
    attempt-Settling done = Settling-lift (ok tt)
    attempt-Settling (fails e) = Settling-lift (ok tt)
    attempt-Settling (next first rest) = elim (Bool-cases (first.flags == flag_envelope_headers)) [
      | inl opens ↦ rw opens (
          Settling-after (decode_headers_frame H J first.content) _ (λ decoded.
            dispatch-Settling decoded.0 (path_of decoded.1) rest
              (find_handler handlers (path_of decoded.1))))
      | inr other ↦ rw other (Settling-lift (ok tt))
    ]

    -- Whatever the client sends and the handlers do, a peer that takes only `n` writes gets the first
    -- `n` of those that a peer gets that takes them all; the outcome of the promise is the same, and
    -- so is the release of everything after the writes.
    pub handle_bidi_socket-cutoff :
        (source : Source Error EnvelopedMessage)
        → (fs : List (List ℕ)) × (r : Result Error (Unit {0})) × (handle_bidi_socket H J T C
              resolve_url handlers aborted source none
            ≡ (
              r,
              map wrote fs
                  ++ (aborts_request ∷ cancels_reader ∷ closes_writer ∷ closes_socket ∷ []),
            ))
          × ((n : ℕ)
              → handle_bidi_socket H J T C resolve_url handlers aborted source (some n) ≡ (
                r,
                map wrote (take n fs)
                    ++ (aborts_request ∷ cancels_reader ∷ closes_writer ∷ closes_socket ∷ []),
              ))
    unfolding handle_bidi_socket finally
    handle_bidi_socket-cutoff source =
        let (fs, r, h) = attempt-Settling source in
        (fs, r, ap finally h.free, λ n. ap finally (h.limited n).1)
