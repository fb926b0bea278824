-- ===== src/Emit/Retry.antt =====
-- waitbus/_emit.py: a batch that is emitted again.
use waitbus.Prelude.{
  ℕ, ◌+◌, String, ◌≡◌, refl, ap, ◌∙◌, subst, inl, inr, true, false, ◌||◌, Option, none, some, List,
  [], ◌∷◌, ◌++◌, arith, str_eq, eq_refl, Bool-cases,
}
use waitbus.Emit.{
  is_too_early, has_delivery_id, has_event_id, insert_or_ignore, insert_row, insert_event,
  open_conn, insert_each, batch_end, emit_batch, EventInsert, Stored, Table, Connection, Outcome,
  done, raised,
}

has_delivery_id-append :
    (id : String) (xs ys : List Stored)
    → has_delivery_id id (xs ++ ys) ≡ (has_delivery_id id xs || has_delivery_id id ys)
unfolding has_delivery_id
has_delivery_id-append id [] ys = refl
has_delivery_id-append id (x ∷ xs) ys = ground (arith, has_delivery_id-append id xs ys)

has_event_id-append :
    (id : String) (xs ys : List Stored)
    → has_event_id id (xs ++ ys) ≡ (has_event_id id xs || has_event_id id ys)
unfolding has_event_id
has_event_id-append id [] ys = refl
has_event_id-append id (x ∷ xs) ys = ground (arith, has_event_id-append id xs ys)

-- The ids of a batch are new: none is in the table or behind it in the batch.
abbrev Apart : String → List (Option (EventInsert × String)) → Type 0
Apart i [] = Unit
Apart i (none ∷ es) = Apart i es
Apart i (some (e, j) ∷ es) = (str_eq i j ≡ false) × Apart i es

abbrev pub NewIds : List Stored → List (Option (EventInsert × String)) → Type 0
NewIds rows [] = Unit
NewIds rows (none ∷ es) = NewIds rows es
NewIds rows (some (e, i) ∷ es) = ((has_event_id i rows ≡ false) × Apart i es) × NewIds rows es

-- The same events, whatever the ids
abbrev pub SameEvents :
    List (Option (EventInsert × String)) → List (Option (EventInsert × String)) → Type 0
SameEvents [] [] = Unit
SameEvents (some (e, i) ∷ es) (some (e', i') ∷ es') = (e ≡ e') × SameEvents es es'
SameEvents _ _ = ⊥

-- Every event is in the table, and none is refused.
abbrev AllKnown : List Stored → List (Option (EventInsert × String)) → Type 0
AllKnown rows [] = Unit
AllKnown rows (none ∷ es) = ⊥
AllKnown rows (some (e, i) ∷ es) =
    ((has_delivery_id e.delivery_id rows ≡ true) × (is_too_early e.received_at ≡ false))
    × AllKnown rows es

AllKnown-same :
    (rows : List Stored) (es es' : List (Option (EventInsert × String)))
    → SameEvents es es'
    → AllKnown rows es
    → AllKnown rows es'
AllKnown-same rows [] [] s a = tt
AllKnown-same rows (some (e, i) ∷ es) (some (e', i') ∷ es') s a = (
  subst
      (λ (x : EventInsert).
        (has_delivery_id x.delivery_id rows ≡ true) × (is_too_early x.received_at ≡ false))
      s.0 a.0,
  AllKnown-same rows es es' s.1 a.1,
)
AllKnown-same rows [] (x ∷ es') s a = absurd s
AllKnown-same rows (none ∷ es) es' s a = absurd a
AllKnown-same rows (some (e, i) ∷ es) [] s a = absurd s
AllKnown-same rows (some (e, i) ∷ es) (none ∷ es') s a = absurd s

-- A batch whose events are all in the table changes nothing.
insert_each-AllKnown :
    (es : List (Option (EventInsert × String))) (n : ℕ) (conn : Connection)
    → AllKnown conn.current.rows es
    → insert_each es n conn ≡ done (n, conn)
unfolding insert_each insert_event insert_row insert_or_ignore
insert_each-AllKnown [] n conn a = refl
insert_each-AllKnown (none ∷ es) n conn a = absurd a
insert_each-AllKnown (some (e, i) ∷ es) n conn a =
    rw (a.0.1, a.0.0, insert_each) (insert_each-AllKnown es n conn a.1)

NewIds-snoc :
    (rows : List Stored) (r : Stored) (es : List (Option (EventInsert × String)))
    → Apart r.event.event_id es
    → NewIds rows es
    → NewIds (rows ++ r ∷ []) es
unfolding has_event_id
NewIds-snoc rows r [] p a = tt
NewIds-snoc rows r (none ∷ es) p a = NewIds-snoc rows r es p a
NewIds-snoc rows r (some (e, i) ∷ es) p a = (
  (has_event_id-append i rows (r ∷ []) ∙ rw (a.0.0, p.0) refl, a.0.1),
  NewIds-snoc rows r es p.1 a.1,
)

-- A loop that comes to its end has every event in the table.
abbrev LoopKnows :
    List Stored → List (Option (EventInsert × String)) → Outcome (ℕ × Connection) → Type 0
LoopKnows rows es (raised x) = Unit
LoopKnows rows es (done (n, conn)) =
    ((d : String) → has_delivery_id d rows ≡ true → has_delivery_id d conn.current.rows ≡ true)
    × AllKnown conn.current.rows es

LoopKnows-step :
    (rows rows' : List Stored) (e : EventInsert) (i : String)
    (es : List (Option (EventInsert × String))) (o : Outcome (ℕ × Connection))
    → ((d : String) → has_delivery_id d rows ≡ true → has_delivery_id d rows' ≡ true)
    → has_delivery_id e.delivery_id rows' ≡ true
    → is_too_early e.received_at ≡ false
    → LoopKnows rows' es o
    → LoopKnows rows (some (e, i) ∷ es) o
LoopKnows-step rows rows' e i es (raised x) keeps here late l = tt
LoopKnows-step rows rows' e i es (done (n, conn)) keeps here late l =
    (λ d h. l.0 d (keeps d h), ((l.0 e.delivery_id here, late), l.1))

insert_each-LoopKnows :
    (es : List (Option (EventInsert × String))) (n : ℕ) (conn : Connection)
    → NewIds conn.current.rows es
    → LoopKnows conn.current.rows es (insert_each es n conn)
unfolding insert_each insert_event insert_row insert_or_ignore
insert_each-LoopKnows [] n conn a = (λ d h. h, tt)
insert_each-LoopKnows (none ∷ es) n conn a = tt
insert_each-LoopKnows (some (e, i) ∷ es) n conn a = elim (Bool-cases (is_too_early e.received_at)) [
  | inl early ↦ rw (early, LoopKnows, insert_each) tt
  | inr late ↦ elim (Bool-cases (has_delivery_id e.delivery_id conn.current.rows)) [
    | inl known ↦
        rw (late, known, insert_each)
          (LoopKnows-step conn.current.rows conn.current.rows e i es _ (λ d h. h) known late
            (insert_each-LoopKnows es n conn a.1))
    | inr unknown ↦
        let new : Stored = record {
          seq = conn.current.last_seq + 1;
          event = record { event_id = i; columns = e };
        } in
        let grown : Connection = record {
          committed = conn.committed;
          current = record {
            rows = conn.current.rows ++ new ∷ [];
            last_seq = conn.current.last_seq + 1;
          };
        } in
        rw (late, unknown, a.0.0, insert_each)
          (LoopKnows-step conn.current.rows grown.current.rows e i es _
            (λ d h. has_delivery_id-append d conn.current.rows (new ∷ []) ∙ rw h refl)
            (has_delivery_id-append e.delivery_id conn.current.rows (new ∷ [])
              ∙ rw (unknown, eq_refl e.delivery_id) refl)
            late
            (insert_each-LoopKnows es (n + 1) grown
              (NewIds-snoc conn.current.rows new es a.0.1 a.1)))
  ]
]

-- A batch whose ids are new and which has come to its end, emitted again with whatever ids: nothing is
-- inserted, the table stays as it is, and the doorbell is not rung.
pub emit_batch-retry :
    (es es' : List (Option (EventInsert × String))) (t : Table) (n : ℕ)
    → NewIds t.rows es
    → SameEvents es es'
    → (emit_batch es t).0 ≡ done n
    → emit_batch es' (emit_batch es t).1.table
      ≡ (done 0, record { table = (emit_batch es t).1.table; rung = false })
unfolding emit_batch batch_end
emit_batch-retry es es' t n new same e =
    go (insert_each es 0 (open_conn t)) (insert_each-LoopKnows es 0 (open_conn t) new) e
  where
    go :
        (o : Outcome (ℕ × Connection))
        → LoopKnows t.rows es o
        → (batch_end t o).0 ≡ done n
        → emit_batch es' (batch_end t o).1.table
          ≡ (done 0, record { table = (batch_end t o).1.table; rung = false })
    go (raised x) l q = cc
    go (done (m, conn)) l q =
        ap (λ o. batch_end conn.current o)
          (insert_each-AllKnown es' 0 (open_conn conn.current)
            (AllKnown-same conn.current.rows es es' same l.1))
