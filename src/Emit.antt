-- ===== src/Emit.antt =====
-- waitbus/_types.py, the insert of waitbus/_db.py, and waitbus/_emit.py.
-- The events table is its rows in the order of their `seq`, with the last `seq` ever given, as SQLite's
-- AUTOINCREMENT keeps it. A connection is the table as committed, and as the connection sees it. The id
-- that `_ulid.new` returns comes with each event. Metrics are left out.
pub mod Delivered
pub mod Grows
pub mod Retry
pub mod Tests
use waitbus.Prelude.{
  ℕ, ◌+◌, String, Bool, true, false, ◌&&◌, ◌||◌, Option, none, some, List, [], ◌∷◌, ◌++◌, str_eq,
  ltb, if◌then◌else◌,
}
use waitbus.Json.{ℤ, pos, negsuc}

pub record EventInsert : Type 0 where
  pub delivery_id : String
  pub source : String
  pub event_type : String
  pub owner : String
  pub repo : String
  pub received_at : ℤ
  pub payload_json : String
  pub ingest_method : String
  pub run_id : Option ℤ
  pub workflow_name : Option String
  pub head_branch : Option String
  pub head_sha : Option String
  pub status : Option String
  pub conclusion : Option String
  pub job_id : Option ℤ
  pub job_name : Option String
  pub parent_run_id : Option ℤ
  pub alert_name : Option String
  pub alert_severity : Option String
  pub alert_fingerprint : Option String
  pub msg_to : Option String
  pub msg_from : Option String
  pub msg_correlation_id : Option String
  pub msg_reply_to : Option String
  pub msg_thread : Option String
  pub msg_body : Option String

-- `Event`: what is stored of an insert, with its id
pub record Event : Type 0 where
  pub event_id : String
  pub columns : EventInsert

pub record Stored : Type 0 where
  pub seq : ℕ
  pub event : Event

pub record Table : Type 0 where
  pub rows : List Stored
  pub last_seq : ℕ

pub record Connection : Type 0 where
  pub committed : Table
  pub current : Table

-- `ValueError` of the insert, `RuntimeError` of the read-back, and whatever the iterable raises
pub data EmitError : Type 0 where
  value_error runtime_error iteration_error : EmitError

pub data Outcome {ℓ} (A : Type ℓ) : Type ℓ where
  done : A → Outcome A
  raised : EmitError → Outcome A

abbrev pub ns_received_at_min : ℕ
ns_received_at_min = 1000000000000000

-- `received_at <= 0` and `received_at < NS_RECEIVED_AT_MIN`
unfoldable pub is_too_early : ℤ → Bool
is_too_early (pos n) = ltb n ns_received_at_min
is_too_early (negsuc n) = true

-- The UNIQUE constraints on `delivery_id` and `event_id`
unfoldable pub has_delivery_id : String → List Stored → Bool
has_delivery_id id [] = false
has_delivery_id id (r ∷ rs) = str_eq r.event.columns.delivery_id id || has_delivery_id id rs

unfoldable pub has_event_id : String → List Stored → Bool
has_event_id id [] = false
has_event_id id (r ∷ rs) = str_eq r.event.event_id id || has_event_id id rs

-- INSERT OR IGNORE
unfoldable pub insert_or_ignore : Event → Table → Bool × Table
unfolding has_delivery_id has_event_id
insert_or_ignore e t =
    if has_delivery_id e.columns.delivery_id t.rows || has_event_id e.event_id t.rows
    then (false, t)
    else (
      true,
      record {
        rows = t.rows ++ record { seq = t.last_seq + 1; event = e } ∷ [];
        last_seq = t.last_seq + 1;
      },
    )

-- What `insert_event` returns, the connection after it, and whether it has rung the doorbell
pub record Inserted : Type 0 where
  pub inserted : Bool
  pub conn : Connection
  pub rung : Bool

unfoldable pub insert_row : Event → Bool → Connection → Inserted
unfolding insert_or_ignore
insert_row e commit conn =
    let (inserted, t) = insert_or_ignore e conn.current in
    record {
      inserted = inserted;
      conn = record { committed = if commit then t else conn.committed; current = t };
      rung = commit && inserted;
    }

unfoldable pub insert_event : EventInsert → String → Bool → Connection → Outcome Inserted
unfolding insert_row is_too_early
insert_event event event_id commit conn =
    let row = insert_row (record { event_id = event_id; columns = event }) commit conn in
    if is_too_early event.received_at then raised value_error else done row

-- `_read_back`
unfoldable pub read_back : String → List Stored → Option Event
read_back id [] = none
read_back id (r ∷ rs) =
    let later = read_back id rs in
    if str_eq r.event.columns.delivery_id id then some r.event else later

-- `EmitResult`
pub record EmitResult : Type 0 where
  pub inserted : Bool
  pub event : Event

-- What a call leaves: the committed table, and whether the doorbell was rung
pub record After : Type 0 where
  pub table : Table
  pub rung : Bool

abbrev pub open_conn : Table → Connection
open_conn t = record { committed = t; current = t }

unfoldable pub emitted : EventInsert → Table → Outcome Inserted → Outcome EmitResult × After
unfolding read_back
emitted event t (raised x) = (raised x, record { table = t; rung = false })
emitted event t (done r) = (
  elim (read_back event.delivery_id r.conn.current.rows) [
    | none ↦ raised runtime_error
    | some stored ↦ done (record { inserted = r.inserted; event = stored })
  ],
  record { table = r.conn.committed; rung = r.rung },
)

-- `emit`, over a connection of its own
unfoldable pub emit : EventInsert → String → Table → Outcome EmitResult × After
unfolding emitted insert_event
emit event event_id t = emitted event t (insert_event event event_id true (open_conn t))

-- The loop of `emit_batch`; `none` for the place where the iterable raises
unfoldable pub insert_each :
    List (Option (EventInsert × String)) → ℕ → Connection → Outcome (ℕ × Connection)
unfolding insert_event
insert_each [] n conn = done (n, conn)
insert_each (none ∷ events) n conn = raised iteration_error
insert_each (some (event, event_id) ∷ events) n conn =
    elim (insert_event event event_id false conn) [
      | raised x ↦ raised x
      | done r ↦ insert_each events (if r.inserted then n + 1 else n) r.conn
    ]

-- The commit, and the ring behind it
unfoldable pub batch_end : Table → Outcome (ℕ × Connection) → Outcome ℕ × After
batch_end t (raised x) = (raised x, record { table = t; rung = false })
batch_end t (done (n, conn)) = (done n, record { table = conn.current; rung = ltb 0 n })

-- `emit_batch`
unfoldable pub emit_batch : List (Option (EventInsert × String)) → Table → Outcome ℕ × After
unfolding batch_end insert_each
emit_batch events t = batch_end t (insert_each events 0 (open_conn t))
