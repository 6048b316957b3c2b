-- ===== src/Bidi/Normalize.antt =====
-- The header rewriting of handle-bidi-socket.ts.
use connect_bidi_web.Common.{String, Option, none, some, if◌then◌else◌}
use connect_bidi_web.Web.{HeadersApi}
use connect_bidi_web.Connect.{ContentType, ConnectApi}

module _ (H : HeadersApi) (C : ConnectApi H.Headers) where
  open H use {Headers, get, set, delete}
  open C use {
    parse_content_type, content_type_unary_json, content_type_unary_proto, header_content_type,
    header_stream_accept_encoding, header_stream_encoding, header_unary_accept_encoding,
    header_unary_encoding,
  }

  set_content_type : Headers → Option ContentType → Headers
  set_content_type headers none = headers
  set_content_type headers (some parsed) =
      if parsed.stream
      then set headers header_content_type
          (if parsed.binary then content_type_unary_proto else content_type_unary_json)
      else headers

  -- `const value = headers.get(from); if (value !== null) { … }`, for the value that is found.
  rename_to : Headers → String → String → Option String → Headers
  rename_to headers from to none = headers
  rename_to headers from to (some value) = delete (set headers to value) from

  unfoldable pub rename : Headers → String → String → Headers
  unfolding rename_to
  rename headers from to = rename_to headers from to (get headers from)

  unfoldable pub normalize_unary_request_headers : Headers → Headers
  unfolding set_content_type
  normalize_unary_request_headers headers =
      let typed = set_content_type headers (parse_content_type (get headers header_content_type)) in
      let encoded = rename typed header_stream_encoding header_unary_encoding in
      rename encoded header_stream_accept_encoding header_unary_accept_encoding

  unfoldable pub mirror_to : Headers → Option String → Headers
  mirror_to headers none = headers
  mirror_to headers (some encoding) = set headers header_stream_encoding encoding

  unfoldable pub mirror_unary_response_encoding : Headers → Headers
  unfolding mirror_to
  mirror_unary_response_encoding headers = mirror_to headers (get headers header_unary_encoding)
