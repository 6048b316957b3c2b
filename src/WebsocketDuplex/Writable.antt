-- ===== src/WebsocketDuplex/Writable.antt =====
-- The writable side of the adapter for the package ws, and its `close`.
use connect_bidi_web.Common.{
  ℕ, String, ◌≡◌, refl, sym, ap, ◌∙◌, Option, none, some, List, [], ◌∷◌, ◌++◌, append-nil,
  append_assoc, map,
}
use connect_bidi_web.Web.{Thrown, Result, ok, throws}
use connect_bidi_web.Platform.{readable}
use connect_bidi_web.WebsocketDuplex.{buffer, to_uint8_array, Duplex, receive_all}
use connect_bidi_web.WebsocketDuplex.Listeners.{receive_all-readable}

-- What the socket was called with: the binary messages, and the arguments of `ws.close`.
pub record Calls : Type 0 where
  pub sent : List (List ℕ)
  pub closes : List (ℕ × Option String)

module _ {E : Type 0} where
  -- `write`, by the error, if any, that the callback of `ws.send` is given.
  unfoldable pub write : Calls → List ℕ → Option (Thrown E) → Result E (Unit {0}) × Calls
  write c chunk none = (ok tt, record c { sent = c.sent ++ chunk ∷ [] })
  write c chunk (some err) = (throws err, record c { sent = c.sent ++ chunk ∷ [] })

  -- Chunks written one after the other; the first failure ends the run.
  unfoldable pub write_all : Calls → List (List ℕ × Option (Thrown E)) → Result E (Unit {0}) × Calls
  write_all c [] = (ok tt, c)
  write_all c ((chunk, err) ∷ chunks) =
      let (r, c') = write c chunk err in
      elim r [ throws e ↦ (throws e, c') | ok u ↦ write_all c' chunks ]

unfoldable pub abort : Calls → Calls
abort c = record c { closes = c.closes ++ (1000, none) ∷ [] }

code_or_normal : Option ℕ → ℕ
code_or_normal none = 1000
code_or_normal (some code) = code

-- The stream's own `close(code, reason)`.
unfoldable pub close_stream : Calls → Option ℕ → Option String → Calls
unfolding code_or_normal
close_stream c code reason = record c { closes = c.closes ++ (code_or_normal code, reason) ∷ [] }

same-buffer : (chunks : List (List ℕ)) → map to_uint8_array (map buffer chunks) ≡ chunks
unfolding to_uint8_array
same-buffer [] = refl
same-buffer (chunk ∷ chunks) = ap (◌∷◌ chunk) (same-buffer chunks)

-- A chunk that is written without an error.
abbrev pub fine : {E : Type 0} → List ℕ → List ℕ × Option (Thrown E)
fine chunk = (chunk, none)

module _ {E : Type 0} where
  write_all-fine :
      (c : Calls) (chunks : List (List ℕ))
      → write_all {E = E} c (map fine chunks) ≡ (ok tt, record c { sent = c.sent ++ chunks })
  unfolding write_all write
  write_all-fine c [] =
      ap (λ (l : List (List ℕ)). (ok tt, record c { sent = l })) (sym (append-nil c.sent))
  write_all-fine c (chunk ∷ chunks) =
      write_all-fine (record c { sent = c.sent ++ chunk ∷ [] }) chunks
      ∙ ap (λ (l : List (List ℕ)). (ok tt, record c { sent = l }))
          (append_assoc c.sent (chunk ∷ []) chunks)

  -- Chunks written to one adapter are sent as one binary message each, and an open adapter that
  -- receives these messages gives the same chunks, in order: the boundaries of the messages stay.
  pub write_all-receive_all :
      (c : Calls) (chunks : List (List ℕ)) (d : Duplex)
      → d.controller.state ≡ readable
      → (write_all {E = E} c (map fine chunks) ≡ (ok tt, record c { sent = c.sent ++ chunks }))
        × (receive_all (map buffer chunks) d
            ≡ some (record d {
              controller = record d.controller { queue = d.controller.queue ++ chunks };
            }))
  write_all-receive_all c chunks d h = (
    write_all-fine c chunks,
    receive_all-readable (map buffer chunks) d h
        ∙ ap
            (λ (q : List (List ℕ)).
              some
                (record d { controller = record d.controller { queue = d.controller.queue ++ q } }))
            (same-buffer chunks),
  )
