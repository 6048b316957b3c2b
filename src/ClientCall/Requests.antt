-- ===== src/ClientCall/Requests.antt =====
-- What a client writes of a request.
use connect_bidi_web.Common.{
  ℕ, String, ◌≡◌, sym, ap, ◌∙◌, none, List, [], ◌∷◌, ◌++◌, append-nil, append_assoc, map,
}
use connect_bidi_web.Web.{ok, HeadersApi, JsonApi}
use connect_bidi_web.Connect.{Source, done, ConnectApi}
use connect_bidi_web.HeadersFrame.Browser.{encode_headers_frame}
use connect_bidi_web.Bidi.Writing.{Writer, lift, write, close_writer, write-no_limit, bind-ok}
use connect_bidi_web.Bidi.Bodies.{prepend}
use connect_bidi_web.ClientCall.{write_head, write_messages, write_request}

abbrev pub open_writer : List (List ℕ) → Writer
open_writer fs = record { taken = fs; room = none }

module _ (H : HeadersApi) (J : JsonApi) (C : ConnectApi H.Headers) where
  open H use {Headers}
  open C use {Error, encode_envelope}

  write_messages-prepend :
      (flag : ℕ) (messages : List (List ℕ)) (stop : Source Error (List ℕ)) (fs : List (List ℕ))
      → write_messages H J C flag (prepend messages stop) (open_writer fs)
        ≡ write_messages H J C flag stop (open_writer (fs ++ map (encode_envelope flag) messages))
  unfolding write_messages
  write_messages-prepend flag [] stop fs =
      ap (λ (t : List (List ℕ)). write_messages H J C flag stop (open_writer t))
        (sym (append-nil fs))
  write_messages-prepend flag (m ∷ messages) stop fs =
      bind-ok (write (encode_envelope flag m)) _ (write-no_limit (encode_envelope flag m) fs) (
        write_messages-prepend flag messages stop (fs ++ encode_envelope flag m ∷ [])
        ∙ ap (λ (t : List (List ℕ)). write_messages H J C flag stop (open_writer t))
            (append_assoc fs (encode_envelope flag m ∷ []) (map (encode_envelope flag) messages)))

  pub write_head-ok :
      (headers : Headers) (flag : ℕ) (path : String) (payload : List ℕ)
      → encode_headers_frame H J {E = Error} headers ((":path", path) ∷ []) ≡ ok payload
      → write_head H J C headers flag path (open_writer [])
        ≡ (ok tt, open_writer (encode_envelope flag payload ∷ []))
  unfolding write_head
  write_head-ok headers flag path payload e =
      bind-ok (lift (encode_headers_frame H J headers ((":path", path) ∷ []))) _
        {v = open_writer []} (ap (λ r. (r, open_writer [])) e)
        (write-no_limit (encode_envelope flag payload) [])

  pub write_messages-done :
      (flag : ℕ) (messages : List (List ℕ)) (fs : List (List ℕ))
      → write_messages H J C flag (prepend messages done) (open_writer fs)
        ≡ (ok tt, open_writer (fs ++ map (encode_envelope flag) messages))
  unfolding write_messages close_writer
  write_messages-done flag messages fs = write_messages-prepend flag messages done fs

  -- A request whose messages all come: the peer gets the headers with the path, then one envelope
  -- for each message in order, and the writer ends without an exception.
  pub write_request-prepend :
      (headers : Headers) (messages : List (List ℕ)) (header_flag data_flag : ℕ) (path : String)
      (payload : List ℕ)
      → encode_headers_frame H J {E = Error} headers ((":path", path) ∷ []) ≡ ok payload
      → write_request H J C headers
          (prepend messages done)
          header_flag
          data_flag
          path
          (record { taken = []; room = none })
        ≡ (
          ok tt,
          record {
            taken = encode_envelope header_flag payload ∷ map (encode_envelope data_flag) messages;
            room = none;
          },
        )
  unfolding write_request
  write_request-prepend headers messages header_flag data_flag path payload e =
      bind-ok (write_head H J C headers header_flag path) _
        (write_head-ok headers header_flag path payload e)
        (write_messages-done data_flag messages (encode_envelope header_flag payload ∷ []))
