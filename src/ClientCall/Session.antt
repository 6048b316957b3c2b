-- ===== src/ClientCall/Session.antt =====
-- The whole of `runWebTransportCall` of ts/packages/web/src/webtransport-helper.ts, on a session.
pub mod Reading
use connect_bidi_web.Common.{ℕ, zero, suc, String, Option, none, some, List, []}
use connect_bidi_web.Web.{Thrown, Result, ok, throws, ◌>>=◌, HeadersApi, JsonApi}
use connect_bidi_web.Connect.{Source, done, fails, next, EnvelopedMessage, ConnectApi}
use connect_bidi_web.Bidi.Writing.{Writer}
use connect_bidi_web.ClientCall.{write_head, write_messages, read_headers}

-- `WebTransportBidirectionalStream`: the writer of its writable side, and what
-- `createEnvelopeReadableStream` makes of its readable side.
pub record BidirectionalStream (E : Type 0) : Type 0 where
  pub writable : Writer
  pub readable : Source E EnvelopedMessage

-- `WebTransportSession`, by what its two promises settle with.
pub record WebTransportSession (E : Type 0) : Type 0 where
  pub create_bidirectional_stream : Result E (BidirectionalStream E)
  pub ready : Result E (Unit {0})

abbrev pub one_less : Option ℕ → Option ℕ
one_less none = none
one_less (some zero) = some zero
one_less (some (suc n)) = some n

module _ {E : Type 0} where
  -- The rejection of `writePromise` that wins a race, where its turn has come.
  unfoldable pub overtaking : Result E (Unit {0}) → Option ℕ → Option (Thrown E)
  overtaking (ok u) overtaken = none
  overtaking (throws e) none = none
  overtaking (throws e) (some zero) = some e
  overtaking (throws e) (some (suc n)) = none

  -- `await writePromise`, after the last envelope.
  abbrev pub after_end : Result E (Unit {0}) → Source E EnvelopedMessage
  after_end (ok u) = done
  after_end (throws e) = fails e

  -- `readResponseBody`. `written` is what `writePromise` settles with, and `overtaken` how many reads
  -- settle before it where it rejects early enough to win a race.
  unfoldable pub read_response_body :
      Result E (Unit {0}) → Option ℕ → Source E EnvelopedMessage → Source E EnvelopedMessage
  read_response_body written overtaken done = elim (overtaking written overtaken) [
    | some e ↦ fails e
    | none ↦ after_end written
  ]
  read_response_body written overtaken (fails t) = elim (overtaking written overtaken) [
    | some e ↦ fails e
    | none ↦ fails t
  ]
  read_response_body written overtaken (next env rest) = elim (overtaking written overtaken) [
    | some e ↦ fails e
    | none ↦ next env (read_response_body written (one_less overtaken) rest)
  ]

module _ (H : HeadersApi) (J : JsonApi) (C : ConnectApi H.Headers) (describe : ℕ → String) where
  open H use {Headers}
  open C use {Error}

  -- What a call gives back, and the frames that the peer takes of it.
  abbrev pub Call : Type 0 → Type 0
  Call A = Result Error A × List (List ℕ)

  -- From the first read on; `written` is what becomes of `writePromise`.
  unfoldable pub respond :
      ℕ
      → Option ℕ
      → Source Error EnvelopedMessage
      → Result Error (Unit {0}) × Writer
      → Call (Headers × Source Error EnvelopedMessage)
  respond write_header_flag overtaken readable (written, w) = (
    read_headers H J C describe write_header_flag readable >>= λ response.
        ok (response.0, read_response_body written overtaken response.1),
    w.taken,
  )

  after_head :
      Source Error (List ℕ)
      → ℕ
      → ℕ
      → Option ℕ
      → Source Error EnvelopedMessage
      → Result Error (Unit {0}) × Writer
      → Call (Headers × Source Error EnvelopedMessage)
  after_head messages write_header_flag write_data_flag overtaken readable (throws e, w) =
      (throws e, w.taken)
  after_head messages write_header_flag write_data_flag overtaken readable (ok u, w) =
      respond write_header_flag overtaken readable (write_messages H J C write_data_flag messages w)

  -- `overtaken` is as for `read_response_body`.
  unfoldable pub run_web_transport_call :
      WebTransportSession Error
      → Headers
      → Source Error (List ℕ)
      → ℕ
      → ℕ
      → String
      → Option ℕ
      → Call (Headers × Source Error EnvelopedMessage)
  unfolding after_head
  run_web_transport_call session headers messages write_header_flag write_data_flag path overtaken =
      elim session.create_bidirectional_stream [
        | throws e ↦ (throws e, [])
        | ok stream ↦
            after_head messages write_header_flag write_data_flag overtaken stream.readable
              (write_head H J C headers write_header_flag path stream.writable)
      ]
