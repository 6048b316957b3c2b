-- ===== src/WebSocketMux/Ledgers.antt =====
-- What the functions of the class leave of the table, the entries and the next stream ID.
use connect_bidi_web.Common.{
  ℕ, ◌≡◌, refl, sym, ap, ◌∙◌, subst, Option, none, some, List, modify, if_rule, ◌&&◌,
}
use connect_bidi_web.WebSocketMux.{
  MuxStreamEntry, WebSocketMux, dial_in, open_with, send_on, close_quietly, close_if_idle,
  idle_close_of, send_reset, close_entry, close_taken, is_empty, send_from,
}
use connect_bidi_web.WebSocketMux.Tables.{Table}

abbrev pub Inv : WebSocketMux → Type 0
Inv m = Table m.entries m.streams m.next_stream_id

-- What the invariant is about.
abbrev pub Ledger : Type 0
Ledger = List (ℕ × ℕ) × List MuxStreamEntry × ℕ

abbrev pub ledger : WebSocketMux → Ledger
ledger m = (m.entries, m.streams, m.next_stream_id)

pub Inv-ledger : (m t : WebSocketMux) → ledger t ≡ ledger m → Inv m → Inv t
Inv-ledger m t e v = subst (λ (l : Ledger). Table l.0 l.1 l.2) (sym e) v

module _ (m : WebSocketMux) where
  dial_in-ledger : (o : Option ℕ) → ledger (dial_in m o).0 ≡ ledger m
  unfolding dial_in
  dial_in-ledger none = refl
  dial_in-ledger (some k) = refl

  pub open_with-ledger : (o : Option ℕ) → ledger (open_with m o).0 ≡ ledger m
  unfolding open_with
  open_with-ledger none = dial_in-ledger m.opening
  open_with-ledger (some k) = refl

module _ (encode_envelope : ℕ → List ℕ → List ℕ) (end_stream_flag : ℕ) (m : WebSocketMux) where
  send_on-ledger :
      (o : Option ℕ) (bytes : List ℕ)
      → ledger (send_on encode_envelope end_stream_flag m o bytes) ≡ ledger m
  unfolding send_on
  send_on-ledger none bytes = refl
  send_on-ledger (some k) bytes = refl

  send_reset-ledger :
      (id : ℕ) (entry : MuxStreamEntry)
      → ledger (send_reset encode_envelope end_stream_flag m id entry) ≡ ledger m
  unfolding send_reset
  send_reset-ledger id entry =
      if_rule (λ (t : WebSocketMux). ledger t ≡ ledger m) entry.end_seen (λ e. refl)
        (λ e. send_on-ledger _ _)

  idle_close_of-ledger :
      (o : Option ℕ) → ledger (idle_close_of encode_envelope end_stream_flag m o) ≡ ledger m
  unfolding idle_close_of
  idle_close_of-ledger none = refl
  idle_close_of-ledger (some k) = refl

  close_if_idle-ledger : ledger (close_if_idle encode_envelope end_stream_flag m) ≡ ledger m
  unfolding close_if_idle
  close_if_idle-ledger =
      if_rule (λ (t : WebSocketMux). ledger t ≡ ledger m) (m.close_when_idle && is_empty m.entries)
        (λ e. idle_close_of-ledger m.socket) (λ e. refl)

  pub close_taken-ledger :
      (o : Option ℕ) → ledger (close_taken encode_envelope end_stream_flag m o) ≡ ledger m
  unfolding close_taken
  close_taken-ledger none = refl
  close_taken-ledger (some k) = refl

  pub send_from-ledger :
      (o : Option MuxStreamEntry) (chunk : List ℕ)
      → ledger (send_from encode_envelope end_stream_flag m o chunk) ≡ ledger m
  unfolding send_from
  send_from-ledger none chunk = refl
  send_from-ledger (some entry) chunk = refl

-- What `closeStream` leaves in the ledger.
pub close_entry-ledger :
    (encode_envelope : ℕ → List ℕ → List ℕ) (end_stream_flag : ℕ) (m : WebSocketMux) (id r : ℕ)
    (entry : MuxStreamEntry)
    → ledger (close_entry encode_envelope end_stream_flag m id r (some entry)) ≡ (
      m.entries,
      modify m.streams r (close_quietly encode_envelope end_stream_flag),
      m.next_stream_id,
    )
unfolding close_entry
close_entry-ledger encode_envelope end_stream_flag m id r entry =
    close_if_idle-ledger encode_envelope end_stream_flag _
    ∙ ap (λ (l : Ledger). (l.0, modify l.1 r (close_quietly encode_envelope end_stream_flag), l.2))
        (send_reset-ledger encode_envelope end_stream_flag m id entry)
