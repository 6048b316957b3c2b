-- ===== src/Mux/Teardown.antt =====
-- The end of a connection: `teardown` and `finally`.
use connect_bidi_web.Common.{
  ℕ, ◌≡◌, refl, sym, ap, ◌∙◌, subst, inl, inr, Bool, true, false, Option, none, some, List, [], ◌∷◌,
  ◌++◌, get_elem?, modify, get_elem?-modify_self, get_elem?-modify_ne, arith, ◌==◌, ==_iff,
  Bool-cases, if◌then◌else◌,
}
use mathlib.Core.Bool.{false≢true}
use connect_bidi_web.Common.IdMap
use connect_bidi_web.Common.IdMap.{get-put, get-delete}
use connect_bidi_web.Platform.{unavailable, Channel, error}
use connect_bidi_web.Wire.{FrameError, err, decode_stream_frame}
use connect_bidi_web.Mux.{
  Reason, connect_error, StreamEntry, Server, kill, kill_all, abort_with, closing_error, teardown,
  leave, idle_fires, CloseCall, close_with, serving, draining, Event, message, read_ends,
  read_fails, idles, writes, reads, closes, settles, signal_aborts, finishes, loop_step, step,
}
use connect_bidi_web.Mux.Stopped.{Stopped, kill-Stopped}
use connect_bidi_web.Mux.Turns.{member, member-values, step-receive, receive-leave}

-- An entry as `teardown` leaves it.
abbrev pub kill_if : Bool → Reason → StreamEntry → StreamEntry
kill_if true reason entry = kill reason entry
kill_if false reason entry = entry

error_twice : {R : Type 0} (c : Channel R) (a : R) → error (error c a) a ≡ error c a
unfolding error
error_twice c a = ground arith

abort_twice :
    (a : Option Reason) (reason : Reason)
    → abort_with (abort_with a reason) reason ≡ abort_with a reason
abort_twice none reason = refl
abort_twice (some first) reason = refl

kill_twice :
    (reason : Reason) (entry : StreamEntry) → kill reason (kill reason entry) ≡ kill reason entry
unfolding kill
kill_twice reason entry = λ i. record {
  stream_id = entry.stream_id;
  controller = error_twice entry.controller reason i;
  abort = abort_twice entry.abort reason i;
  reset = true;
}

kill_again :
    (b : Bool) (reason : Reason) (entry : StreamEntry)
    → kill_if b reason (kill reason entry) ≡ kill reason entry
kill_again true reason entry = kill_twice reason entry
kill_again false reason entry = refl

kill_all-get :
    (reason : Reason) (rs : List ℕ) (entries : List StreamEntry) (r : ℕ) (entry : StreamEntry)
    → get_elem? entries r ≡ some entry
    → get_elem? (kill_all reason rs entries) r ≡ some (kill_if (member r rs) reason entry)
unfolding kill_all
kill_all-get reason [] entries r entry h = h
kill_all-get reason (q ∷ rs) entries r entry h = elim (Bool-cases (q == r)) [
  | inl same ↦ rw same (
      kill_all-get reason rs _ r (kill reason entry) (
        subst (λ (t : ℕ). get_elem? (modify entries t (kill reason)) r ≡ some (kill reason entry))
          (sym ((==_iff q r).0 same)) (get_elem?-modify_self entries r (kill reason) h))
      ∙ ap some (kill_again (member r rs) reason entry))
  | inr other ↦ rw other (
      kill_all-get reason rs _ r entry (
        get_elem?-modify_ne entries (kill reason) (λ e. false≢true (sym other ∙ (==_iff q r).1 e))
        ∙ h))
]

-- `teardown` empties the table; it resets every entry that the table held, aborts it and errors its
-- controller, and leaves every other entry as it was.
pub teardown-get :
    (s : Server) (reason : Reason) (r : ℕ) (entry : StreamEntry)
    → get_elem? s.entries r ≡ some entry
    → ((teardown s reason).streams ≡ [])
      × (get_elem? (teardown s reason).entries r
          ≡ some (kill_if (member r (IdMap.values s.streams)) reason entry))
      × ((teardown s reason).sent ≡ s.sent)
      × ((teardown s reason).phase ≡ s.phase)
unfolding teardown
teardown-get s reason r entry h =
    (refl, kill_all-get reason (IdMap.values s.streams) s.entries r entry h, refl, refl)

-- The events after which the read loop is left, and the error that the streams then see.
abbrev EndsLoop : Event → Bool → Type 0
EndsLoop (message m) idled = (idled ≡ false) × (e : FrameError) × (decode_stream_frame m ≡ err e)
EndsLoop read_ends idled = idled ≡ false
EndsLoop read_fails idled = idled ≡ false
EndsLoop idles idled = idled ≡ true
EndsLoop _ idled = ⊥

-- Entry `r` of `s` and its connection once the loop has been left for `t`.
pub record Ended (s t : Server) (r : ℕ) (entry : StreamEntry) (idled : Bool) : Type 0 where
  pub left : t.phase ≡ draining
  pub emptied : t.streams ≡ []
  pub stopped : StreamEntry
  pub held : get_elem? t.entries r ≡ some stopped
  pub told_stream :
      Stopped entry stopped
        (if idled then "connection closed after idle timeout" else "websocket connection closed")
        unavailable
  pub told :
      t.closes ≡ (if idled then s.closes ++ close_with 1000 "idle timeout" ∷ [] else s.closes)

module _ (s : Server) (id r : ℕ) (entry : StreamEntry) where
  module _ (g : IdMap.get s.streams id ≡ some r) (held : get_elem? s.entries r ≡ some entry) where
    leave-killed :
        (idled : Bool)
        → s.idled_out ≡ idled
        → get_elem? (leave s).entries r ≡ some (kill (connect_error (closing_error idled)) entry)
    unfolding leave
    leave-killed idled i =
        (teardown-get s (connect_error (closing_error s.idled_out)) r entry held).1
        ∙ ap (λ (b : Bool). some (kill_if b (connect_error (closing_error s.idled_out)) entry))
            (member-values s.streams id r g)
        ∙ ap (λ (b : Bool). some (kill (connect_error (closing_error b)) entry)) i

    leave-Ended : s.idled_out ≡ false → Ended s (leave s) r entry false
    unfolding leave
    leave-Ended i = record {
      left = refl;
      emptied = refl;
      stopped = kill (connect_error (closing_error false)) entry;
      held = leave-killed false i;
      told_stream = kill-Stopped entry "websocket connection closed" unavailable;
      told = refl;
    }

idle_fires-Ended :
    (s : Server) (id r : ℕ) (entry : StreamEntry)
    → IdMap.get s.streams id ≡ some r
    → get_elem? s.entries r ≡ some entry
    → Ended s (idle_fires s) r entry true
unfolding idle_fires leave
idle_fires-Ended s id r entry g held = record {
  left = refl;
  emptied = refl;
  stopped = kill (connect_error (closing_error true)) entry;
  told_stream = kill-Stopped entry "connection closed after idle timeout" unavailable;
  held =
      leave-killed (record s { idled_out = true; closes = told_peer }) id r entry g held true refl;
  told = refl;
}
  where
    told_peer : List CloseCall
    told_peer = s.closes ++ close_with 1000 "idle timeout" ∷ []

-- However the loop ends (a malformed message, the end or failure of the read side, the idle
-- timeout), a stream in the table is aborted, reset and errored with `Unavailable` and the message
-- that tells an idle timeout from a closed connection, and the table is empty.
pub step-EndsLoop :
    (s : Server) (e : Event) (idled : Bool) (id r : ℕ) (entry : StreamEntry)
    → s.phase ≡ serving
    → s.idled_out ≡ false
    → EndsLoop e idled
    → IdMap.get s.streams id ≡ some r
    → get_elem? s.entries r ≡ some entry
    → Ended s (step s e) r entry idled
unfolding step loop_step
step-EndsLoop s (message m) idled id r entry p i (h, e, d) g held =
    subst (Ended s (step s (message m)) r entry) (sym h) (
      subst (λ t. Ended s t r entry false) (sym (step-receive s m p ∙ receive-leave s m d))
        (leave-Ended s id r entry g held i))
step-EndsLoop s read_ends idled id r entry p i h g held =
    subst (Ended s (loop_step s.phase s read_ends) r entry) (sym h) (
      subst (λ q. Ended s (loop_step q s read_ends) r entry false) (sym p)
        (leave-Ended s id r entry g held i))
step-EndsLoop s read_fails idled id r entry p i h g held =
    subst (Ended s (loop_step s.phase s read_fails) r entry) (sym h) (
      subst (λ q. Ended s (loop_step q s read_fails) r entry false) (sym p)
        (leave-Ended s id r entry g held i))
step-EndsLoop s idles idled id r entry p i h g held =
    subst (Ended s (loop_step s.phase s idles) r entry) (sym h) (
      subst (λ q. Ended s (loop_step q s idles) r entry true) (sym p)
        (idle_fires-Ended s id r entry g held))
step-EndsLoop s (writes q chunk) idled id r entry p i h g held = absurd h
step-EndsLoop s (reads q) idled id r entry p i h g held = absurd h
step-EndsLoop s (closes q) idled id r entry p i h g held = absurd h
step-EndsLoop s (settles q) idled id r entry p i h g held = absurd h
step-EndsLoop s (signal_aborts reason) idled id r entry p i h g held = absurd h
step-EndsLoop s finishes idled id r entry p i h g held = absurd h
