-- ===== src/WebsocketLike/Writable.antt =====
-- The writable side of the adapter for the sockets of Workers, and its `close`. A socket throws on a
-- `send` after its close and on a second `close`.
use connect_bidi_web.Common.{
  ℕ, String, ◌≡◌, refl, sym, ap, ◌∙◌, Option, none, some, List, [], ◌∷◌, ◌++◌, append-nil,
  append_assoc, map,
}

-- A Workers `WebSocket`: what it was given to send, and the first call of its `close`.
pub record Socket : Type 0 where
  pub sent : List (List ℕ)
  pub closed : Option (ℕ × Option String)

-- `none` is the exception of the platform.
send_in : Socket → List ℕ → Option (ℕ × Option String) → Option Socket
send_in s chunk none = some (record s { sent = s.sent ++ chunk ∷ [] })
send_in s chunk (some c) = none

unfoldable pub send : Socket → List ℕ → Option Socket
unfolding send_in
send s chunk = send_in s chunk s.closed

close_in : Socket → ℕ → Option String → Option (ℕ × Option String) → Option Socket
close_in s code reason none = some (record s { closed = some (code, reason) })
close_in s code reason (some c) = none

unfoldable pub close : Socket → ℕ → Option String → Option Socket
unfolding close_in
close s code reason = close_in s code reason s.closed

code_or_normal : Option ℕ → ℕ
code_or_normal none = 1000
code_or_normal (some code) = code

-- `closeQuietly`
unfoldable pub close_quietly : Socket → Option ℕ → Option String → Socket
unfolding code_or_normal
close_quietly s code reason = elim (close s (code_or_normal code) reason) [ none ↦ s | some t ↦ t ]

-- The calls of the writable's sink, and of `close`.
pub data Use : Type 0 where
  writes : List ℕ → Use
  closes aborts : Use
  closes_stream : Option ℕ → Option String → Use

-- One call, with `none` where it throws.
unfoldable pub apply : Socket → Use → Option Socket
apply s (writes chunk) = send s chunk
apply s closes = some (close_quietly s none none)
apply s aborts = some (close_quietly s none none)
apply s (closes_stream code reason) = some (close_quietly s code reason)

-- All calls; one that throws leaves the socket as it is.
unfoldable pub apply_all : Socket → List Use → Socket
apply_all s [] = s
apply_all s (u ∷ us) = apply_all (elim (apply s u) [ none ↦ s | some t ↦ t ]) us

abbrev pub open_socket : List (List ℕ) → Socket
open_socket fs = record { sent = fs; closed = none }

abbrev pub closed_socket : List (List ℕ) → ℕ × Option String → Socket
closed_socket fs c = record { sent = fs; closed = some c }

-- Once the socket is closed nothing changes it.
apply_all-closed :
    (fs : List (List ℕ)) (c : ℕ × Option String) (us : List Use)
    → apply_all (closed_socket fs c) us ≡ closed_socket fs c
unfolding apply_all apply send send_in close_quietly close close_in
apply_all-closed fs c [] = refl
apply_all-closed fs c (writes chunk ∷ us) = apply_all-closed fs c us
apply_all-closed fs c (closes ∷ us) = apply_all-closed fs c us
apply_all-closed fs c (aborts ∷ us) = apply_all-closed fs c us
apply_all-closed fs c (closes_stream code reason ∷ us) = apply_all-closed fs c us

-- Chunks written to an open socket are sent as one message each, in order; its close has the code,
-- 1000 where none is given, and the reason; and whatever is called after that, writes and further
-- closes included, changes nothing.
pub apply_all-close :
    (fs chunks : List (List ℕ)) (code : Option ℕ) (reason : Option String) (us : List Use)
    → apply_all (open_socket fs) (map writes chunks ++ closes_stream code reason ∷ us)
      ≡ closed_socket (fs ++ chunks) (elim code [ none ↦ 1000 | some c ↦ c ], reason)
unfolding apply_all apply send send_in close_quietly close close_in code_or_normal
apply_all-close fs [] none reason us =
    apply_all-closed fs (1000, reason) us
    ∙ ap (λ (l : List (List ℕ)). closed_socket l (1000, reason)) (sym (append-nil fs))
apply_all-close fs [] (some code) reason us =
    apply_all-closed fs (code, reason) us
    ∙ ap (λ (l : List (List ℕ)). closed_socket l (code, reason)) (sym (append-nil fs))
apply_all-close fs (chunk ∷ chunks) code reason us =
    apply_all-close (fs ++ chunk ∷ []) chunks code reason us
    ∙ ap (λ (l : List (List ℕ)). closed_socket l (elim code [ none ↦ 1000 | some c ↦ c ], reason))
        (append_assoc fs (chunk ∷ []) chunks)
