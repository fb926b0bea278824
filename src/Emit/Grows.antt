-- ===== src/Emit/Grows.antt =====
-- waitbus/_emit.py: how writes change the events table that waitbus/broadcast.py sweeps.
use waitbus.Prelude.{
  ℕ, ◌+◌, ◌≤◌, String, ◌≡◌, refl, sym, ap, ◌∙◌, subst, inl, inr, Bool, true, false, ◌||◌, Option,
  none, some, List, [], ◌∷◌, ◌++◌, map, append-nil, append_assoc, arith, if◌then◌else◌, Bool-cases,
}
use waitbus.Frame.{Bytes}
use waitbus.Emit.{
  is_too_early, has_delivery_id, has_event_id, insert_or_ignore, insert_row, insert_event,
  open_conn, emitted, emit, insert_each, batch_end, emit_batch, EventInsert, Event, Stored, Table,
  Connection, Outcome, done, raised,
}
use waitbus.Broadcast.{Row}
use waitbus.Broadcast.Feed.{AllAbove, Ascending}
use waitbus.Broadcast.Table.{HasIds}

-- Rows whose `seq` counts on from one number to another
abbrev CountsOn : ℕ → List Stored → ℕ → Type 0
CountsOn a [] b = a ≡ b
CountsOn a (r ∷ rs) b = (r.seq ≡ a + 1) × CountsOn (a + 1) rs b

CountsOn-append :
    (a b c : ℕ) (xs ys : List Stored) → CountsOn a xs b → CountsOn b ys c → CountsOn a (xs ++ ys) c
CountsOn-append a b c [] ys h h' = subst (λ (n : ℕ). CountsOn n ys c) (sym h) h'
CountsOn-append a b c (x ∷ xs) ys h h' = (h.0, CountsOn-append (a + 1) b c xs ys h.1 h')

-- Rows are only appended, each with the next `seq`.
record Grows (t t' : Table) : Type 0 where
  pub later : List Stored
  pub rows_eq : t'.rows ≡ t.rows ++ later
  pub counts : CountsOn t.last_seq later t'.last_seq

Grows-refl : (t : Table) → Grows t t
Grows-refl t = record { later = []; rows_eq = sym (append-nil t.rows); counts = refl }

Grows-trans : (s t u : Table) → Grows s t → Grows t u → Grows s u
Grows-trans s t u g h = record {
  later = g.later ++ h.later;
  rows_eq = h.rows_eq ∙ ap (λ rs. rs ++ h.later) g.rows_eq ∙ append_assoc s.rows g.later h.later;
  counts = CountsOn-append s.last_seq t.last_seq u.last_seq g.later h.later g.counts h.counts;
}

insert_or_ignore-Grows : (e : Event) (t : Table) → Grows t (insert_or_ignore e t).1
unfolding insert_or_ignore
insert_or_ignore-Grows e t =
    go (has_delivery_id e.columns.delivery_id t.rows || has_event_id e.event_id t.rows)
  where
    new : Table
    new = record {
      rows = t.rows ++ record { seq = t.last_seq + 1; event = e } ∷ [];
      last_seq = t.last_seq + 1;
    }

    go : (b : Bool) → Grows t (if◌then◌else◌ {A = Bool × Table} b (false, t) (true, new)).1
    go true = Grows-refl t
    go false = record {
      later = record { seq = t.last_seq + 1; event = e } ∷ [];
      rows_eq = refl;
      counts = (refl, refl);
    }

emit-Grows : (event : EventInsert) (id : String) (t : Table) → Grows t (emit event id t).1.table
unfolding emit emitted insert_event insert_row
emit-Grows event id t = elim (Bool-cases (is_too_early event.received_at)) [
  | inl early ↦ rw early (Grows-refl t)
  | inr late ↦ rw late (insert_or_ignore-Grows (record { event_id = id; columns = event }) t)
]

-- What the loop of a batch leaves, if it comes to its end
abbrev LoopGrows : Table → Outcome (ℕ × Connection) → Type 0
LoopGrows t (raised x) = Unit
LoopGrows t (done (n, conn)) = Grows t conn.current

insert_each-LoopGrows :
    (t : Table) (events : List (Option (EventInsert × String))) (n : ℕ) (conn : Connection)
    → Grows t conn.current
    → LoopGrows t (insert_each events n conn)
unfolding insert_each insert_event insert_row
insert_each-LoopGrows t [] n conn g = g
insert_each-LoopGrows t (none ∷ events) n conn g = tt
insert_each-LoopGrows t (some (event, id) ∷ events) n conn g =
    elim (Bool-cases (is_too_early event.received_at)) [
      | inl early ↦ rw (early, LoopGrows, insert_each) tt
      | inr late ↦
          rw (late, LoopGrows, insert_each)
            (insert_each-LoopGrows t events _ _ (
              Grows-trans t conn.current _ g
                (insert_or_ignore-Grows (record { event_id = id; columns = event }) conn.current)))
    ]

emit_batch-Grows :
    (events : List (Option (EventInsert × String))) (t : Table)
    → Grows t (emit_batch events t).1.table
unfolding emit_batch batch_end
emit_batch-Grows events t =
    go (insert_each events 0 (open_conn t))
      (insert_each-LoopGrows t events 0 (open_conn t) (Grows-refl t))
  where
    go : (o : Outcome (ℕ × Connection)) → LoopGrows t o → Grows t (batch_end t o).1.table
    go (raised x) g = Grows-refl t
    go (done (n, conn)) g = g

-- Calls of the two, one after the other, by whatever processes
pub data Writes : Table → Table → Type 0 where
  none_yet : (t : Table) → Writes t t
  emits :
      (s t : Table) (event : EventInsert) (id : String)
      → Writes s t
      → Writes s (emit event id t).1.table
  emits_batch :
      (s t : Table) (events : List (Option (EventInsert × String)))
      → Writes s t
      → Writes s (emit_batch events t).1.table

Writes-Grows : {s t : Table} → Writes s t → Grows s t
Writes-Grows (none_yet t) = Grows-refl t
Writes-Grows (emits s t event id w) = Grows-trans s t _ (Writes-Grows w) (emit-Grows event id t)
Writes-Grows (emits_batch s t events w) =
    Grows-trans s t _ (Writes-Grows w) (emit_batch-Grows events t)

abbrev pub empty : Table
empty = record { rows = []; last_seq = 0 }

module _ (encode stub : Event → Bytes) where
  -- A row as the daemon reads it, with the JSON texts that msgspec makes of it
  abbrev pub daemon_row : Stored → Row
  daemon_row r = record {
    seq = r.seq;
    event_id = some r.event.event_id;
    owner = r.event.columns.owner;
    repo = r.event.columns.repo;
    event_type = r.event.columns.event_type;
    event_json = encode r.event;
    stub_json = stub r.event;
  }

  abbrev pub daemon_rows : List Stored → List Row
  daemon_rows rs = map (λ r. daemon_row r) rs

  CountsOn-AllAbove :
      (w a b : ℕ) (rs : List Stored) → w ≤ a → CountsOn a rs b → AllAbove w (daemon_rows rs)
  CountsOn-AllAbove w a b [] h c = tt
  CountsOn-AllAbove w a b (r ∷ rs) h c =
      (omega (arith, c.0), CountsOn-AllAbove w (a + 1) b rs (omega arith) c.1)

  CountsOn-Ascending : (a b : ℕ) (rs : List Stored) → CountsOn a rs b → Ascending (daemon_rows rs)
  CountsOn-Ascending a b [] c = tt
  CountsOn-Ascending a b (r ∷ rs) c = (
    CountsOn-AllAbove r.seq (a + 1) b rs (omega (arith, c.0)) c.1,
    CountsOn-Ascending (a + 1) b rs c.1,
  )

  pub daemon_rows-HasIds : (rs : List Stored) → HasIds (daemon_rows rs)
  daemon_rows-HasIds [] = tt
  daemon_rows-HasIds (r ∷ rs) = ((r.event.event_id, refl), daemon_rows-HasIds rs)

  daemon_rows-append :
      (xs ys : List Stored) → daemon_rows (xs ++ ys) ≡ daemon_rows xs ++ daemon_rows ys
  daemon_rows-append [] ys = refl
  daemon_rows-append (x ∷ xs) ys = ap (λ rs. daemon_row x ∷ rs) (daemon_rows-append xs ys)

  -- From the empty table, after any writes, and after any more: the rows that the daemon has read are
  -- the first of those there are later, all have ids, and they stand in the order of `seq`, from 1.
  pub Writes-Ascending :
      {t t' : Table}
      → Writes empty t
      → Writes t t'
      → (later : List Row) × (daemon_rows t'.rows ≡ daemon_rows t.rows ++ later)
        × HasIds (daemon_rows t.rows)
        × AllAbove 0 (daemon_rows t.rows ++ later)
        × Ascending (daemon_rows t.rows ++ later)
  Writes-Ascending {t} {t'} w w' =
      let g = Writes-Grows w in
      let h = Writes-Grows w' in
      let all = CountsOn-append 0 t.last_seq t'.last_seq g.later h.later g.counts h.counts in
      let rows : daemon_rows (g.later ++ h.later) ≡ daemon_rows t.rows ++ daemon_rows h.later =
        daemon_rows-append g.later h.later
        ∙ ap (λ rs. daemon_rows rs ++ daemon_rows h.later) (sym g.rows_eq) in
      (
        daemon_rows h.later,
        ap (λ rs. daemon_rows rs) h.rows_eq ∙ daemon_rows-append t.rows h.later,
        daemon_rows-HasIds t.rows,
        subst (λ rs. AllAbove 0 rs) rows
            (CountsOn-AllAbove 0 0 t'.last_seq (g.later ++ h.later) (omega arith) all),
        subst (λ rs. Ascending rs) rows (CountsOn-Ascending 0 t'.last_seq (g.later ++ h.later) all),
      )

  -- After any writes, the rows as the daemon reads them
  pub Writes-Ordered :
      {t : Table}
      → Writes empty t
      → AllAbove 0 (daemon_rows t.rows) × Ascending (daemon_rows t.rows)
  Writes-Ordered {t} w =
      let g = Writes-Grows w in
      subst (λ rs. AllAbove 0 (daemon_rows rs) × Ascending (daemon_rows rs)) (sym g.rows_eq)
        (
          CountsOn-AllAbove 0 0 t.last_seq g.later (omega arith) g.counts,
          CountsOn-Ascending 0 t.last_seq g.later g.counts,
        )

pub Writes-trans : {s t u : Table} → Writes s t → Writes t u → Writes s u
Writes-trans w (none_yet t) = w
Writes-trans w (emits s t event id w') = emits _ t event id (Writes-trans w w')
Writes-trans w (emits_batch s t events w') = emits_batch _ t events (Writes-trans w w')
