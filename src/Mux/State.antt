-- ===== src/Mux/State.antt =====
-- The state of `handleMuxedBidiSocket` of ts/packages/core/src/handle-muxed-bidi-socket.ts, and
-- what starts, resets and tears down its streams.
use connect_bidi_web.Common.{
  ℕ, String, Bool, true, false, Option, none, some, List, [], ◌∷◌, ◌++◌, length, modify,
}
use connect_bidi_web.Common.IdMap
use connect_bidi_web.Platform.{canceled, unavailable, ConnectError, Channel, opened, error}

-- What an abort signal or a stream error carries: an error of this file, or whatever the owner of
-- `options.signal` aborts with (told apart by a number).
pub data Reason : Type 0 where
  connect_error : ConnectError → Reason
  caller : ℕ → Reason

pub record StreamEntry : Type 0 where
  -- The ID that the entry's writable puts before each envelope (a variable of `startStream`).
  pub stream_id : ℕ
  pub controller : Channel Reason
  -- The signal of `abort`: its reason once it is aborted.
  pub abort : Option Reason
  pub reset : Bool

-- A call `socket.close?.(code, reason)`.
pub data CloseCall : Type 0 where
  close_plain : CloseCall
  close_with : ℕ → String → CloseCall

-- The read loop runs; or it has ended and `finally` awaits the streams, then `reader.cancel()`, then
-- `writer.close()`; or the promise has settled.
pub data Phase : Type 0 where
  serving draining cancelling closing_writer finished : Phase

pub record Server : Type 0 where
  -- Every entry ever made, at the number of its stream's task: the heap.
  pub entries : List StreamEntry
  -- `streams`: the entry of each stream ID.
  pub streams : List (ℕ × ℕ)
  -- `running`: the tasks that have not settled.
  pub running : List ℕ
  -- The messages handed to `writer`, oldest first.
  pub sent : List (List ℕ)
  pub closes : List CloseCall
  pub idled_out : Bool
  -- Whether the loop was left by an exception, with which the promise rejects in the end.
  pub thrown : Bool
  pub phase : Phase

abbrev pub init : Server
init = record {
  entries = [];
  streams = [];
  running = [];
  sent = [];
  closes = [];
  idled_out = false;
  thrown = false;
  phase = serving;
}

-- `AbortController.abort`: the first reason stays.
abbrev pub abort_with : Option Reason → Reason → Option Reason
abort_with none reason = some reason
abort_with (some first) reason = some first

abbrev pub reset_error : ConnectError
reset_error = record { message = "stream reset by client"; code = canceled }

-- What a client's reset and `teardown` do to an entry.
unfoldable pub kill : Reason → StreamEntry → StreamEntry
kill reason entry = record entry {
  controller = error entry.controller reason;
  abort = abort_with entry.abort reason;
  reset = true;
}

-- The loop of `teardown`.
unfoldable pub kill_all : Reason → List ℕ → List StreamEntry → List StreamEntry
kill_all reason [] entries = entries
kill_all reason (r ∷ rs) entries = kill_all reason rs (modify entries r (kill reason))

unfoldable pub teardown : Server → Reason → Server
unfolding kill_all
teardown s reason = record s {
  entries = kill_all reason (IdMap.values s.streams) s.entries;
  streams = [];
}

-- The reason that `finally` gives.
abbrev pub closing_error : Bool → ConnectError
closing_error true = record { message = "connection closed after idle timeout"; code = unavailable }
closing_error false = record { message = "websocket connection closed"; code = unavailable }

-- The loop returns or throws: `finally` up to its first `await`.
unfoldable pub leave : Server → Server
unfolding teardown
leave s = record (teardown s (connect_error (closing_error s.idled_out))) { phase = draining }

abbrev pub new_entry : ℕ → List ℕ → StreamEntry
new_entry stream_id headers_envelope = record {
  stream_id = stream_id;
  controller = record opened { queue = headers_envelope ∷ [] };
  abort = none;
  reset = false;
}

unfoldable pub start_stream : Server → ℕ → List ℕ → Server
start_stream s stream_id headers_envelope = record s {
  entries = s.entries ++ new_entry stream_id headers_envelope ∷ [];
  streams = IdMap.put s.streams stream_id (length s.entries);
  running = s.running ++ length s.entries ∷ [];
}

unfoldable pub reset_stream : Server → ℕ → ℕ → Server
unfolding kill
reset_stream s stream_id r = record s {
  entries = modify s.entries r (kill (connect_error reset_error));
  streams = IdMap.delete s.streams stream_id;
}
