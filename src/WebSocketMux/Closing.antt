-- ===== src/WebSocketMux/Closing.antt =====
-- The end of streams and connections on the client.
use connect_bidi_web.Common.{
  ℕ, String, ◌≡◌, ◌≢◌, refl, sym, ap, ◌∙◌, subst, inl, inr, Bool, true, false, Option, none, some,
  List, [], ◌∷◌, ◌++◌, get_elem?, modify, get_elem?-modify_self, get_elem?-modify_ne, arith, ◌==◌,
  ==_iff, ==_refl, Bool-cases, if_rule, if◌then◌else◌,
}
use mathlib.Core.Bool.{false≢true}
use connect_bidi_web.Common.IdMap
use connect_bidi_web.Common.IdMap.{get-delete}
use connect_bidi_web.Platform.{ConnectError, Channel, error}
use connect_bidi_web.Wire.{flag_envelope_reset}
use connect_bidi_web.WebSocketMux.Ledgers.{Ledger, close_entry-ledger}
use connect_bidi_web.WebSocketMux.{
  ready_open, Socket, MuxStreamEntry, WebSocketMux, prefix_stream_id, send, fail_entries, fail_all,
  closed_error, on_close, current, current_in, open_in, send_on, send_reset, close_quietly,
  close_if_idle, close_entry, close_found, close_stream,
}
use connect_bidi_web.Mux.Turns.{member, member-values}

-- An entry as `failAll` leaves it.
abbrev failed_if : Bool → ConnectError → MuxStreamEntry → MuxStreamEntry
failed_if true reason entry = record entry { controller = error entry.controller reason }
failed_if false reason entry = entry

error_twice : {R : Type 0} (c : Channel R) (a : R) → error (error c a) a ≡ error c a
unfolding error
error_twice c a = ground arith

failed_again :
    (b : Bool) (reason : ConnectError) (entry : MuxStreamEntry)
    → failed_if b reason (failed_if true reason entry) ≡ failed_if true reason entry
failed_again true reason entry =
    ap (λ (c : Channel ConnectError). record entry { controller = c })
      (error_twice entry.controller reason)
failed_again false reason entry = refl

fail_entries-get :
    (reason : ConnectError) (rs : List ℕ) (streams : List MuxStreamEntry) (r : ℕ)
    (entry : MuxStreamEntry)
    → get_elem? streams r ≡ some entry
    → get_elem? (fail_entries reason rs streams) r ≡ some (failed_if (member r rs) reason entry)
unfolding fail_entries
fail_entries-get reason [] streams r entry h = h
fail_entries-get reason (q ∷ rs) streams r entry h = elim (Bool-cases (q == r)) [
  | inl same ↦ rw same (
      fail_entries-get reason rs _ r (failed_if true reason entry) (
        subst
          (λ (t : ℕ).
            get_elem? (modify streams t (failed_if true reason)) r
            ≡ some (failed_if true reason entry))
          (sym ((==_iff q r).0 same)) (get_elem?-modify_self streams r (failed_if true reason) h))
      ∙ ap some (failed_again (member r rs) reason entry))
  | inr other ↦ rw other (
      fail_entries-get reason rs _ r entry (
        get_elem?-modify_ne streams (failed_if true reason)
          (λ e. false≢true (sym other ∙ (==_iff q r).1 e))
        ∙ h))
]

-- The close event of any socket, also of one that is not the current socket any more, takes every
-- stream out of the table and errors it with "WebSocket closed", while the current socket stays.
pub on_close-other :
    (m : WebSocketMux) (j k id r : ℕ) (reason : String) (entry : MuxStreamEntry)
    → m.socket ≡ some j
    → j ≢ k
    → IdMap.get m.entries id ≡ some r
    → get_elem? m.streams r ≡ some entry
    → let t = on_close m k reason in
      (t.entries ≡ [])
      × (get_elem? t.streams r
          ≡ some (record entry { controller = error entry.controller (closed_error reason) }))
      × (t.socket ≡ some j)
      × (get_elem? t.sockets j ≡ get_elem? m.sockets j)
unfolding on_close fail_all
on_close-other m j k id r reason entry c n g held =
    let other : (j == k) ≡ false = ground arith in
    (
      refl,
      fail_entries-get (closed_error reason) (IdMap.values m.entries) m.streams r entry held
          ∙ ap (λ (b : Bool). some (failed_if b (closed_error reason) entry))
              (member-values m.entries id r g),
      rw c (rw other),
      get_elem?-modify_ne m.sockets _ (λ e. n (sym e)),
    )

module _ (encode_envelope : ℕ → List ℕ → List ℕ) (end_stream_flag : ℕ) where
  -- A stream ID that is not in the table is closed already.
  close_stream-absent :
      (m : WebSocketMux) (id : ℕ)
      → IdMap.get m.entries id ≡ none
      → close_stream encode_envelope end_stream_flag m id ≡ m
  unfolding close_stream close_found
  close_stream-absent m id g = rw (g, close_found)

  close_entry-entries :
      (m : WebSocketMux) (id r : ℕ) (o : Option MuxStreamEntry)
      → (close_entry encode_envelope end_stream_flag m id r o).entries ≡ m.entries
  unfolding close_entry
  close_entry-entries m id r none = refl
  close_entry-entries m id r (some entry) =
      ap (λ (l : Ledger). l.0) (close_entry-ledger encode_envelope end_stream_flag m id r entry)

  close_found-get :
      (m : WebSocketMux) (id : ℕ) (o : Option ℕ)
      → IdMap.get m.entries id ≡ o
      → IdMap.get (close_found encode_envelope end_stream_flag m id o).entries id ≡ none
  unfolding close_found
  close_found-get m id none g = g
  close_found-get m id (some r) g =
      ap (λ (es : List (ℕ × ℕ)). IdMap.get es id)
        (close_entry-entries _ id r (get_elem? m.streams r))
      ∙ get-delete m.entries id id
      ∙ rw (==_refl id)

  -- Closing a stream takes its ID out of the table, and closing it again changes nothing: no second
  -- reset is sent.
  pub close_stream-twice :
      (m : WebSocketMux) (id : ℕ)
      → let t = close_stream encode_envelope end_stream_flag m id in
        (IdMap.get t.entries id ≡ none) × (close_stream encode_envelope end_stream_flag t id ≡ t)
  unfolding close_stream
  close_stream-twice m id =
      let gone = close_found-get m id (IdMap.get m.entries id) refl in
      (gone, close_stream-absent (close_stream encode_envelope end_stream_flag m id) id gone)

  current-open :
      (m : WebSocketMux) (k : ℕ) (s : Socket)
      → m.socket ≡ some k
      → get_elem? m.sockets k ≡ some s
      → s.ready_state ≡ ready_open
      → current m ≡ some k
  unfolding current
  current-open m k s c sock live = rw (c, current_in) (rw (sock, open_in) (rw live))

  pub send-open :
      (message : List ℕ) (s : Socket)
      → s.ready_state ≡ ready_open
      → send message s ≡ record s { sent = s.sent ++ message ∷ [] }
  unfolding send
  send-open bytes s live = rw live

  send_reset-open :
      (m : WebSocketMux) (id k : ℕ) (entry : MuxStreamEntry) (s : Socket)
      → m.socket ≡ some k
      → get_elem? m.sockets k ≡ some s
      → s.ready_state ≡ ready_open
      → get_elem? (send_reset encode_envelope end_stream_flag m id entry).sockets k
        ≡ some (record s {
          sent =
              if entry.end_seen
              then s.sent
              else s.sent ++ prefix_stream_id id (encode_envelope flag_envelope_reset []) ∷ [];
        })
  unfolding send_reset
  send_reset-open m id k entry s c sock live = elim (Bool-cases entry.end_seen) [
    | inl seen ↦ rw seen sock
    | inr unseen ↦
        rw (unseen, current-open m k s c sock live, send_on)
          (get_elem?-modify_self m.sockets k _ sock ∙ ap some (send-open _ s live))
  ]

  send_on-close_when_idle :
      (m : WebSocketMux) (o : Option ℕ) (bytes : List ℕ)
      → (send_on encode_envelope end_stream_flag m o bytes).close_when_idle ≡ m.close_when_idle
  unfolding send_on
  send_on-close_when_idle m none bytes = refl
  send_on-close_when_idle m (some k) bytes = refl

  send_reset-close_when_idle :
      (m : WebSocketMux) (id : ℕ) (entry : MuxStreamEntry)
      → (send_reset encode_envelope end_stream_flag m id entry).close_when_idle ≡ m.close_when_idle
  unfolding send_reset
  send_reset-close_when_idle m id entry =
      if_rule (λ (t : WebSocketMux). t.close_when_idle ≡ m.close_when_idle) entry.end_seen
        (λ e. refl) (λ e. send_on-close_when_idle m _ _)

  close_if_idle-shared :
      (m : WebSocketMux)
      → m.close_when_idle ≡ false
      → close_if_idle encode_envelope end_stream_flag m ≡ m
  unfolding close_if_idle
  close_if_idle-shared m w = rw w

  -- Closing a stream of a shared connection that is open: the server is sent a reset frame for it,
  -- unless it has finished the stream, and nothing else is sent.
  pub close_stream-reset :
      (m : WebSocketMux) (id r k : ℕ) (entry : MuxStreamEntry) (s : Socket)
      → m.close_when_idle ≡ false
      → IdMap.get m.entries id ≡ some r
      → get_elem? m.streams r ≡ some entry
      → m.socket ≡ some k
      → get_elem? m.sockets k ≡ some s
      → s.ready_state ≡ ready_open
      → get_elem? (close_stream encode_envelope end_stream_flag m id).sockets k
        ≡ some (record s {
          sent =
              if entry.end_seen
              then s.sent
              else s.sent ++ prefix_stream_id id (encode_envelope flag_envelope_reset []) ∷ [];
        })
  unfolding close_stream
  close_stream-reset m id r k entry s w g held c sock live =
      rw (g, close_found)
        (rw (held, close_entry)
          (ap (λ (t : WebSocketMux). get_elem? t.sockets k)
              (close_if_idle-shared
                (record sent {
                  streams = modify sent.streams r (close_quietly encode_envelope end_stream_flag);
                })
                (send_reset-close_when_idle cut id entry ∙ w))
            ∙ send_reset-open cut id k entry s c sock live))
    where
      cut : WebSocketMux
      cut = record m { entries = IdMap.delete m.entries id }

      sent : WebSocketMux
      sent = send_reset encode_envelope end_stream_flag cut id entry
