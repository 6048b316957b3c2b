-- ===== src/WebSocketMux/Tables.antt =====
-- The table of a client's connection and its entries.
use connect_bidi_web.Common.{
  ℕ, ◌+◌, ◌<◌, ◌≡◌, sym, ◌∙◌, subst, inl, inr, none, some, List, [], ◌∷◌, ◌++◌, length, get_elem?,
  modify, get_elem?-modify_self, get_elem?-modify_ne, get_elem?-append_old, get_elem?-append_last,
  get_elem?-lt, arith, ◌==◌, ==_iff, Bool-cases,
}
use mathlib.Core.Bool.{false≢true}
use mathlib.Core.Option.{some-injective}
use connect_bidi_web.Common.IdMap
use connect_bidi_web.Common.IdMap.{get-put, get-delete}
use connect_bidi_web.WebSocketMux.{MuxStreamEntry, enqueue_frame, take_frame, close_quietly}

-- Each ID of the table was given out, and its entry is there and has it.
abbrev pub Table : List (ℕ × ℕ) → List MuxStreamEntry → ℕ → Type 0
Table entries streams next =
    (id r : ℕ)
    → IdMap.get entries id ≡ some r
    → (id < next)
      × (entry : MuxStreamEntry) × (get_elem? streams r ≡ some entry)
      × (entry.stream_id ≡ id)

module _ (entries : List (ℕ × ℕ)) (streams : List MuxStreamEntry) (next : ℕ)
    (v : Table entries streams next) where
  pub Table-modify :
      (q : ℕ) (f : MuxStreamEntry → MuxStreamEntry)
      → ((entry : MuxStreamEntry) → (f entry).stream_id ≡ entry.stream_id)
      → Table entries (modify streams q f) next
  Table-modify q f same id r g =
      let (below, entry, held, own) = v id r g in
      elim (Bool-cases (q == r)) [
        | inl hit ↦ (
          below,
          f entry,
          subst (λ (t : ℕ). get_elem? (modify streams t f) r ≡ some (f entry))
              (sym ((==_iff q r).0 hit)) (get_elem?-modify_self streams r f held),
          same entry ∙ own,
        )
        | inr miss ↦ (
          below,
          entry,
          get_elem?-modify_ne streams f (λ e. false≢true (sym miss ∙ (==_iff q r).1 e)) ∙ held,
          own,
        )
      ]

  pub Table-delete : (i : ℕ) → Table (IdMap.delete entries i) streams next
  Table-delete i id r g = elim (Bool-cases (i == id)) [
    | inl hit ↦ let never : none ≡ some r = sym (get-delete entries i id ∙ rw hit) ∙ g in cc never
    | inr miss ↦ v id r (sym (get-delete entries i id ∙ rw miss) ∙ g)
  ]

  pub Table-put :
      (entry : MuxStreamEntry)
      → entry.stream_id ≡ next
      → Table (IdMap.put entries next (length streams)) (streams ++ entry ∷ []) (next + 1)
  Table-put entry own id r g = elim (Bool-cases (next == id)) [
    | inl hit ↦
        let same : next ≡ id = (==_iff next id).0 hit in
        let here : length streams ≡ r =
          some-injective _ _ (sym (get-put entries next (length streams) id ∙ rw hit) ∙ g) in
        (
          omega arith,
          entry,
          subst (λ (t : ℕ). get_elem? (streams ++ entry ∷ []) t ≡ some entry) here
              (get_elem?-append_last streams entry),
          own ∙ same,
        )
    | inr miss ↦
        let (below, old, held, kept) =
          v id r (sym (get-put entries next (length streams) id ∙ rw miss) ∙ g) in
        (
          omega arith,
          old,
          get_elem?-append_old streams (entry ∷ []) r (get_elem?-lt streams r held) ∙ held,
          kept,
        )
  ]

pub Table-nil : (streams : List MuxStreamEntry) (next : ℕ) → Table [] streams next
unfolding IdMap.get
Table-nil streams next id r g = cc g

pub take_frame-stream_id :
    (encode_envelope : ℕ → List ℕ → List ℕ) (end_stream_flag flag : ℕ) (envelope : List ℕ)
    (entry : MuxStreamEntry)
    → (take_frame encode_envelope end_stream_flag flag envelope entry).stream_id ≡ entry.stream_id
unfolding take_frame enqueue_frame
take_frame-stream_id encode_envelope end_stream_flag flag envelope entry = ground arith

pub close_quietly-stream_id :
    (encode_envelope : ℕ → List ℕ → List ℕ) (end_stream_flag : ℕ) (entry : MuxStreamEntry)
    → (close_quietly encode_envelope end_stream_flag entry).stream_id ≡ entry.stream_id
unfolding close_quietly
close_quietly-stream_id encode_envelope end_stream_flag entry = ground arith
