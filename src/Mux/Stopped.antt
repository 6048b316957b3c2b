-- ===== src/Mux/Stopped.antt =====
-- What a reset and the end of the connection do to an entry.
use connect_bidi_web.Common.{String, ◌≡◌, refl, true, Option, none, some}
use connect_bidi_web.Platform.{Code, error}
use connect_bidi_web.Mux.{Reason, connect_error, StreamEntry, abort_with, kill}

-- The reason that an aborted signal keeps.
abbrev pub first_reason : Option Reason → Reason → Reason
first_reason none reason = reason
first_reason (some first) reason = first

-- The signal of `after` is aborted and its readable errored, with a `ConnectError` of this text and
-- code where nothing has ended them before, and its writable refuses what is written.
pub record Stopped (before after : StreamEntry) (text : String) (code : Code) : Type 0 where
  pub aborted :
      after.abort
      ≡ some (first_reason before.abort (connect_error (record { message = text; code = code })))
  pub errored :
      after.controller
      ≡ error before.controller (connect_error (record { message = text; code = code }))
  pub refuses : after.reset ≡ true
  pub same_stream : after.stream_id ≡ before.stream_id

abort_with-first :
    (a : Option Reason) (reason : Reason) → abort_with a reason ≡ some (first_reason a reason)
abort_with-first none reason = refl
abort_with-first (some first) reason = refl

pub kill-Stopped :
    (entry : StreamEntry) (text : String) (code : Code)
    → Stopped entry (kill (connect_error (record { message = text; code = code })) entry) text code
unfolding kill
kill-Stopped entry text code = record {
  aborted = abort_with-first entry.abort (connect_error (record { message = text; code = code }));
  errored = refl;
  refuses = refl;
  same_stream = refl;
}
