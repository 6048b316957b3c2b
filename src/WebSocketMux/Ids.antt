-- ===== src/WebSocketMux/Ids.antt =====
-- The stream IDs of a client's connection.
use connect_bidi_web.Common.{
  ℕ, ◌+◌, ◌≢◌, ◌≡◌, refl, ◌∙◌, inl, inr, Bool, false, Option, none, some, List, [], ◌∷◌, length,
  get_elem?, modify, if_rule, arith, ltb, ◌==◌, Option-cases,
}
use connect_bidi_web.Common.IdMap
use connect_bidi_web.Common.IdMap.{get-put, get-delete}
use connect_bidi_web.Platform.{ConnectError, unavailable}
use connect_bidi_web.Wire.{flag_envelope_reset, stream_id_length}
use connect_bidi_web.Wire.Bytes.{get_uint32, get_uint8}
use connect_bidi_web.WebSocketMux.{
  MuxStreamEntry, WebSocketMux, construct, dial, open_with, fail_all, on_open, on_error, on_close,
  open_stream, route, route_to, close_quietly, close_entry, close_found, close_stream, close,
  close_taken, current, write_chunk, send_from, half_close, Event, dials, opens, fails, is_closed,
  message, starts, writes, half_closes, reads, cancels, releases, closes_all, step, run,
}
use connect_bidi_web.WebSocketMux.Tables.{
  Table-modify, Table-delete, Table-put, Table-nil, take_frame-stream_id, close_quietly-stream_id,
}
use connect_bidi_web.WebSocketMux.Ledgers.{
  Inv, Inv-ledger, open_with-ledger, close_taken-ledger, send_from-ledger, close_entry-ledger,
}

module _ (encode_envelope : ℕ → List ℕ → List ℕ) (end_stream_flag : ℕ) (m : WebSocketMux)
    (v : Inv m) where
  open_stream-Inv : (k : ℕ) → Inv (open_stream m k).0
  unfolding open_stream
  open_stream-Inv k = Table-put m.entries m.streams m.next_stream_id v _ refl

  fail_all-Inv : (reason : ConnectError) → Inv (fail_all m reason)
  unfolding fail_all
  fail_all-Inv reason = Table-nil _ m.next_stream_id

  route_to-Inv :
      (bytes : List ℕ) (o : Option ℕ) → Inv (route_to encode_envelope end_stream_flag m bytes o)
  unfolding route_to
  route_to-Inv bytes none = v
  route_to-Inv bytes (some r) =
      if_rule Inv (get_uint8 bytes stream_id_length == flag_envelope_reset)
        (λ e.
          Table-delete m.entries _ m.next_stream_id
            (Table-modify m.entries m.streams m.next_stream_id v r _ (λ entry. refl))
            (get_uint32 bytes 0))
        (λ e.
          Table-modify m.entries m.streams m.next_stream_id v r _
            (take_frame-stream_id encode_envelope end_stream_flag _ _))

  close_entry-Inv :
      (id r : ℕ) (o : Option MuxStreamEntry)
      → Inv (
          close_entry encode_envelope end_stream_flag
            (record m { entries = IdMap.delete m.entries id })
            id
            r
            o)
  unfolding close_entry
  close_entry-Inv id r none = Table-delete m.entries m.streams m.next_stream_id v id
  close_entry-Inv id r (some entry) =
      let cut : WebSocketMux = record m { entries = IdMap.delete m.entries id } in
      Inv-ledger
        (record cut {
          streams = modify m.streams r (close_quietly encode_envelope end_stream_flag);
        })
        (close_entry encode_envelope end_stream_flag cut id r (some entry))
        (close_entry-ledger encode_envelope end_stream_flag cut id r entry)
        (Table-delete m.entries _ m.next_stream_id
          (Table-modify m.entries m.streams m.next_stream_id v r _
            (close_quietly-stream_id encode_envelope end_stream_flag))
          id)

  close_found-Inv :
      (id : ℕ) (o : Option ℕ) → Inv (close_found encode_envelope end_stream_flag m id o)
  unfolding close_found
  close_found-Inv id none = v
  close_found-Inv id (some r) = close_entry-Inv id r (get_elem? m.streams r)

  write_chunk-Inv :
      (r : ℕ) (chunk : List ℕ) → Inv (write_chunk encode_envelope end_stream_flag m r chunk)
  unfolding write_chunk
  write_chunk-Inv r chunk =
      Inv-ledger m (send_from encode_envelope end_stream_flag m (get_elem? m.streams r) chunk)
        (send_from-ledger encode_envelope end_stream_flag m (get_elem? m.streams r) chunk) v

  close-Inv : Inv (close encode_envelope end_stream_flag m)
  unfolding close fail_all
  close-Inv =
      let t : WebSocketMux =
        fail_all (record m { socket = none })
          (record { message = "WebSocket closed"; code = unavailable }) in
      Inv-ledger t (close_taken encode_envelope end_stream_flag t m.socket)
        (close_taken-ledger encode_envelope end_stream_flag t m.socket)
        (Table-nil t.streams m.next_stream_id)

  step-Inv :
      (e : Event encode_envelope end_stream_flag) → Inv (step encode_envelope end_stream_flag m e)
  unfolding step dial on_open on_error on_close route half_close close_stream
  step-Inv dials = Inv-ledger m (open_with m (current m)).0 (open_with-ledger m (current m)) v
  step-Inv (opens k) = v
  step-Inv fails = v
  step-Inv (is_closed k reason) = unfold fail_all in Table-nil _ m.next_stream_id
  step-Inv (message bytes) =
      if_rule Inv (ltb (length bytes) (stream_id_length + 1)) (λ e. v) (λ e. route_to-Inv bytes _)
  step-Inv (starts k) = open_stream-Inv k
  step-Inv (writes r chunk) = write_chunk-Inv r chunk
  step-Inv (half_closes r) = write_chunk-Inv r _
  step-Inv (reads r) = Table-modify m.entries m.streams m.next_stream_id v r _ (λ entry. refl)
  step-Inv (cancels r) = Table-modify m.entries m.streams m.next_stream_id v r _ (λ entry. refl)
  step-Inv (releases id) = close_found-Inv id _
  step-Inv closes_all = close-Inv

module _ (encode_envelope : ℕ → List ℕ → List ℕ) (end_stream_flag : ℕ) where
  run-Inv :
      (m : WebSocketMux) (es : List (Event encode_envelope end_stream_flag))
      → Inv m
      → Inv (run encode_envelope end_stream_flag m es)
  unfolding run
  run-Inv m [] v = v
  run-Inv m (e ∷ es) v =
      run-Inv (step encode_envelope end_stream_flag m e) es
        (step-Inv encode_envelope end_stream_flag m v e)

  -- After any events on a new connection, every stream ID in the table belongs to the entry that was
  -- made for it, and the ID that the next stream gets is not in the table, so that opening a stream
  -- takes no other stream's place.
  pub run-construct :
      (close_when_idle : Bool) (es : List (Event encode_envelope end_stream_flag))
      → let m = run encode_envelope end_stream_flag (construct close_when_idle) es in
        ((id r : ℕ)
          → IdMap.get m.entries id ≡ some r
          → (entry : MuxStreamEntry) × (get_elem? m.streams r ≡ some entry)
            × (entry.stream_id ≡ id))
        × (IdMap.get m.entries m.next_stream_id ≡ none)
        × ((k id : ℕ)
            → id ≢ m.next_stream_id
            → IdMap.get (open_stream m k).0.entries id ≡ IdMap.get m.entries id)
  unfolding open_stream
  run-construct close_when_idle es =
      let m = run encode_envelope end_stream_flag (construct close_when_idle) es in
      let v : Inv m = run-Inv (construct close_when_idle) es (Table-nil [] 1) in
      (
        λ id r g. let (below, entry, held, own) = v id r g in (entry, held, own),
        elim (Option-cases (IdMap.get m.entries m.next_stream_id)) [
          | inl e ↦ e
          | inr (r, e) ↦ absurd (omega (arith, (v m.next_stream_id r e).0))
        ],
        λ k id n.
            let miss : (m.next_stream_id == id) ≡ false = ground arith in
            get-put m.entries m.next_stream_id (length m.streams) id ∙ rw miss,
      )
