-- ===== src/DemoTransport/Sharing.antt =====
-- The session that an RPC gets.
use connect_bidi_web.Common.{
  ℕ, ◌≡◌, refl, sym, ap, ◌∙◌, subst, inl, inr, Bool, true, false, Option, none, some, List, [], ◌∷◌,
  All, get_elem?, get_elem?-append_last, get_elem?-modify_self, get_elem?-modify_ne, modify, ◌==◌,
  ==_iff, Bool-cases,
}
use mathlib.Core.Bool.{false≢true}
use connect_bidi_web.DemoTransport.{
  SessionState, working, ended, noticed, end_session, Sessions, no_session, dial_in, dial_session,
  forget_in, session_ends, forget, Event, rpc_starts, ends, forgets, step, run,
}

-- The state of a session before its `forget` has run.
abbrev pub is_usable : SessionState → Bool
is_usable noticed = false
is_usable _ = true

-- Session `k` was dialed, and its `forget` has not run.
abbrev pub Usable : List SessionState → ℕ → Type 0
Usable dialed k =
    (state : SessionState) × (get_elem? dialed k ≡ some state) × (is_usable state ≡ true)

abbrev IsSound : List SessionState → Option ℕ → Type 0
IsSound dialed none = Unit
IsSound dialed (some k) = Usable dialed k

dial_in-IsSound :
    (s : Sessions) (o : Option ℕ)
    → s.session ≡ o
    → IsSound s.dialed o
    → let (t, k) = dial_in s o in Usable t.dialed k × (t.session ≡ some k)
unfolding dial_in
dial_in-IsSound s none e h = ((working, get_elem?-append_last s.dialed working, refl), refl)
dial_in-IsSound s (some k) e h = (h, e)

end_session-usable :
    (state : SessionState) → is_usable state ≡ true → is_usable (end_session state) ≡ true
end_session-usable working h = refl
end_session-usable ended h = refl
end_session-usable noticed h = h

ends-Usable :
    (dialed : List SessionState) (j k : ℕ)
    → Usable dialed j
    → Usable (modify dialed k end_session) j
ends-Usable dialed j k (state, held, usable) = elim (Bool-cases (k == j)) [
  | inl same ↦ (
    end_session state,
    subst (λ (i : ℕ). get_elem? (modify dialed i end_session) j ≡ some (end_session state))
        (sym ((==_iff k j).0 same)) (get_elem?-modify_self dialed j end_session held),
    end_session-usable state usable,
  )
  | inr other ↦ (
    state,
    get_elem?-modify_ne dialed end_session (λ e. false≢true (sym other ∙ (==_iff k j).1 e)) ∙ held,
    usable,
  )
]

forgets-Usable :
    (dialed : List SessionState) (j k : ℕ)
    → (j == k) ≡ false
    → Usable dialed j
    → Usable (modify dialed k (λ state. noticed)) j
forgets-Usable dialed j k other (state, held, usable) = (
  state,
  get_elem?-modify_ne dialed (λ state. noticed)
        (λ e. false≢true (sym other ∙ (==_iff j k).1 (sym e)))
      ∙ held,
  usable,
)

ends-IsSound :
    (dialed : List SessionState) (o : Option ℕ) (k : ℕ)
    → IsSound dialed o
    → IsSound (modify dialed k end_session) o
ends-IsSound dialed none k h = tt
ends-IsSound dialed (some j) k h = ends-Usable dialed j k h

forgets-IsSound :
    (dialed : List SessionState) (o : Option ℕ) (k : ℕ)
    → IsSound dialed o
    → IsSound (modify dialed k (λ state. noticed)) (forget_in o k)
unfolding forget_in
forgets-IsSound dialed none k h = tt
forgets-IsSound dialed (some j) k h = elim (Bool-cases (j == k)) [
  | inl same ↦ rw same tt
  | inr other ↦ rw other (forgets-Usable dialed j k other h)
]

step-IsSound :
    (s : Sessions) (e : Event)
    → IsSound s.dialed s.session
    → IsSound (step s e).dialed (step s e).session
unfolding step dial_session session_ends forget
step-IsSound s rpc_starts h =
    let (usable, current) = dial_in-IsSound s s.session refl h in
    subst (IsSound (dial_in s s.session).0.dialed) (sym current) usable
step-IsSound s (ends k) h = ends-IsSound s.dialed s.session k h
step-IsSound s (forgets k) h = forgets-IsSound s.dialed s.session k h

run-IsSound :
    (s : Sessions) (es : List Event)
    → IsSound s.dialed s.session
    → IsSound (run s es).dialed (run s es).session
unfolding run
run-IsSound s [] h = h
run-IsSound s (e ∷ es) h = run-IsSound (step s e) es (step-IsSound s e h)

-- An event other than the `forget` of session `k`.
abbrev pub Spares : ℕ → Event → Type 0
Spares k (forgets j) = (k == j) ≡ false
Spares k _ = Unit

step-session :
    (s : Sessions) (k : ℕ) (e : Event)
    → Spares k e
    → s.session ≡ some k
    → (step s e).session ≡ some k
unfolding step dial_session dial_in session_ends forget forget_in
step-session s k rpc_starts spared h = ap (λ (o : Option ℕ). (dial_in s o).0.session) h ∙ h
step-session s k (ends j) spared h = h
step-session s k (forgets j) spared h = ap (λ (o : Option ℕ). forget_in o j) h ∙ rw spared

run-session :
    (s : Sessions) (k : ℕ) (es : List Event)
    → All (Spares k) es
    → s.session ≡ some k
    → (run s es).session ≡ some k
unfolding run
run-session s k [] spared h = h
run-session s k (e ∷ es) (spared, rest) h =
    run-session (step s e) k es rest (step-session s k e spared h)

-- After any RPCs, deaths of sessions and late runs of `forget`, the next RPC gets a session whose
-- `forget` has not run; and until it runs, whatever happens to that session and the others, late
-- runs of the `forget` of old sessions included, the RPCs get that same session and dial none.
pub dial_session-shared :
    (es later : List Event)
    → All (Spares (dial_session (run no_session es)).1) later
    → let (t, k) = dial_session (run no_session es) in
      Usable t.dialed k × (dial_session (run t later) ≡ (run t later, k))
unfolding dial_session dial_in
dial_session-shared es later spared =
    let s = run no_session es in
    let (usable, current) = dial_in-IsSound s s.session refl (run-IsSound no_session es tt) in
    (
      usable,
      ap (dial_in (run (dial_in s s.session).0 later))
          (run-session (dial_in s s.session).0 (dial_in s s.session).1 later spared current),
    )
