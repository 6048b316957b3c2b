-- ===== src/Mux/Outgoing/Frames.antt =====
-- The messages that the server's end of a connection sends.
use connect_bidi_web.Common.{
  ℕ, ◌<◌, ◌^◌, ◌≡◌, ◌≢◌, refl, sym, subst, inl, inr, List, [], ◌∷◌, length, get_elem?, All,
  All-append, All-get_elem?, Bool-cases, Option-cases,
}
use connect_bidi_web.Wire.{encode_stream_frame, flag_envelope_reset}
use connect_bidi_web.Wire.RoundTrip.{envelope_of}
use connect_bidi_web.Mux.{
  Server, or_same, task_writes, write_in, task_reads, task_settles, teardown, Event, message,
  read_ends, read_fails, idles, writes, reads, closes, settles, signal_aborts, finishes, step, run,
}
use connect_bidi_web.Mux.Outgoing.{Fits, IsWellFormed, loop_step-sent, task_closes-sent, step-Fits}

-- A frame of an envelope that is no reset.
pub record IsFrame (m : List ℕ) : Type 0 where
  pub id : ℕ
  pub flag : ℕ
  pub payload : List ℕ
  pub encoded : m ≡ encode_stream_frame id (envelope_of flag payload)
  pub small_id : id < 2 ^ 32
  pub short : length payload < 2 ^ 32
  pub no_reset : flag ≢ flag_envelope_reset

-- As `IsWellFormed`, where no task writes an envelope with the flag of a reset.
pub data IsPlain : Event → Type 0 where
  plain_write :
      (r flag : ℕ) (payload : List ℕ)
      → length payload < 2 ^ 32
      → flag ≢ flag_envelope_reset
      → IsPlain (writes r (envelope_of flag payload))
  plain_message : (m : List ℕ) → IsWellFormed (message m) → IsPlain (message m)
  plain_end : IsPlain read_ends
  plain_failure : IsPlain read_fails
  plain_idle : IsPlain idles
  plain_read : (r : ℕ) → IsPlain (reads r)
  plain_close : (r : ℕ) → IsPlain (closes r)
  plain_settle : (r : ℕ) → IsPlain (settles r)
  plain_abort : (reason : ℕ) → IsPlain (signal_aborts reason)
  plain_finish : IsPlain finishes

pub IsPlain-IsWellFormed : (e : Event) → IsPlain e → IsWellFormed e
IsPlain-IsWellFormed _ (plain_write r flag payload short no_reset) = (flag, payload, refl, short)
IsPlain-IsWellFormed _ (plain_message m w) = w
IsPlain-IsWellFormed _ plain_end = tt
IsPlain-IsWellFormed _ plain_failure = tt
IsPlain-IsWellFormed _ plain_idle = tt
IsPlain-IsWellFormed _ (plain_read r) = tt
IsPlain-IsWellFormed _ (plain_close r) = tt
IsPlain-IsWellFormed _ (plain_settle r) = tt
IsPlain-IsWellFormed _ (plain_abort reason) = tt
IsPlain-IsWellFormed _ plain_finish = tt

pub All-IsWellFormed : (es : List Event) → All IsPlain es → All IsWellFormed es
All-IsWellFormed [] ps = tt
All-IsWellFormed (e ∷ es) (p, ps) = (IsPlain-IsWellFormed e p, All-IsWellFormed es ps)

write-IsFrame :
    (s : Server) (r flag : ℕ) (payload : List ℕ)
    → All Fits s.entries
    → length payload < 2 ^ 32
    → flag ≢ flag_envelope_reset
    → All IsFrame s.sent
    → All IsFrame (or_same s (task_writes s r (envelope_of flag payload))).sent
unfolding task_writes
write-IsFrame s r flag payload fits short no_reset fs =
    elim (Option-cases (get_elem? s.entries r)) [
      | inl e ↦ rw (e, write_in) fs
      | inr (entry, e) ↦ elim (Bool-cases entry.reset) [
        | inl dead ↦ rw (e, write_in) (rw dead fs)
        | inr alive ↦
            rw (e, write_in)
              (rw alive (
                All-append IsFrame s.sent
                  (encode_stream_frame entry.stream_id (envelope_of flag payload) ∷ []) fs
                  (
                    record {
                      id = entry.stream_id;
                      flag = flag;
                      payload = payload;
                      encoded = refl;
                      small_id = All-get_elem? Fits s.entries r fits e;
                      short = short;
                      no_reset = no_reset;
                    },
                    tt,
                  )))
      ]
    ]

step-IsFrame :
    (s : Server) (e : Event)
    → All Fits s.entries
    → IsPlain e
    → All IsFrame s.sent
    → All IsFrame (step s e).sent
unfolding step task_reads task_settles teardown
step-IsFrame s _ fits (plain_write r flag payload short no_reset) fs =
    write-IsFrame s r flag payload fits short no_reset fs
step-IsFrame s _ fits (plain_message m w) fs =
    subst (All IsFrame) (sym (loop_step-sent s.phase s (message m))) fs
step-IsFrame s _ fits plain_end fs =
    subst (All IsFrame) (sym (loop_step-sent s.phase s read_ends)) fs
step-IsFrame s _ fits plain_failure fs =
    subst (All IsFrame) (sym (loop_step-sent s.phase s read_fails)) fs
step-IsFrame s _ fits plain_idle fs = subst (All IsFrame) (sym (loop_step-sent s.phase s idles)) fs
step-IsFrame s _ fits (plain_read r) fs = fs
step-IsFrame s _ fits (plain_close r) fs = subst (All IsFrame) (sym (task_closes-sent s r)) fs
step-IsFrame s _ fits (plain_settle r) fs = subst (All IsFrame) (sym (task_closes-sent _ r)) fs
step-IsFrame s _ fits (plain_abort reason) fs = fs
step-IsFrame s _ fits plain_finish fs =
    subst (All IsFrame) (sym (loop_step-sent s.phase s finishes)) fs

pub run-IsFrame :
    (s : Server) (es : List Event)
    → All Fits s.entries
    → All IsPlain es
    → All IsFrame s.sent
    → All IsFrame (run s es).sent
unfolding run
run-IsFrame s [] fits ps fs = fs
run-IsFrame s (e ∷ es) fits (p, ps) fs =
    run-IsFrame (step s e) es (step-Fits s e fits (IsPlain-IsWellFormed e p)) ps
      (step-IsFrame s e fits p fs)
