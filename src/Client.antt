-- ===== src/Client.antt =====
-- waitbus/_broadcast_sub.py: the engine that reads frames for a client, its outcomes, the handshake
-- barrier, and what is kept of a bookmark.
-- `loads` stands for `json.loads(data.decode("utf-8"))`, with `none` for its decode errors. One turn of
-- the loop is given by the clock at its head, what `select` and `sync_read_frame` then answer, whether
-- the bookmark file can be written, and the clock at its end. An interrupt comes while the loop waits.
pub mod Await
pub mod Alike
pub mod Logged
pub mod Ends
pub mod Deadline
pub mod Barrier
pub mod Tests
use waitbus.Prelude.{
  ℕ, ◌+◌, ◌-◌, String, Bool, true, false, ◌||◌, Option, none, some, List, [], ◌∷◌, str_eq, leb,
  ◌==◌, if◌then◌else◌,
}
use waitbus.Frame.{Bytes, sync_read_frame, FrameError, timeout_error, Result, ok, err, Sock}
use waitbus.Json.{get, as_str, as_nonempty, Json, str, arr, obj, Fields}

-- `WaitOutcome`
pub record WaitOutcome : Type 0 where
  pub matched : Bool
  pub timed_out : Bool
  pub cancelled : Bool
  pub peer_closed : Bool
  pub framing_error : Bool

abbrev pub outcome_timed_out : WaitOutcome
outcome_timed_out = record {
  matched = false;
  timed_out = true;
  cancelled = false;
  peer_closed = false;
  framing_error = false;
}

abbrev pub outcome_cancelled : WaitOutcome
outcome_cancelled = record {
  matched = false;
  timed_out = false;
  cancelled = true;
  peer_closed = false;
  framing_error = false;
}

abbrev pub outcome_matched : WaitOutcome
outcome_matched = record {
  matched = true;
  timed_out = false;
  cancelled = false;
  peer_closed = false;
  framing_error = false;
}

abbrev pub outcome_clean_eof : WaitOutcome
outcome_clean_eof = record {
  matched = false;
  timed_out = false;
  cancelled = false;
  peer_closed = true;
  framing_error = false;
}

abbrev pub outcome_framing_eof : WaitOutcome
outcome_framing_eof = record {
  matched = false;
  timed_out = false;
  cancelled = false;
  peer_closed = true;
  framing_error = true;
}

-- `ProtocolVersionError`, `SubscriberLaggedError`, and their base `BroadcastConnectionError`
pub data Rejected : Type 0 where
  protocol_version subscriber_lagged broadcast_connection : Rejected

-- `_raise_for_reject`
unfoldable pub raise_for_reject : Fields → Rejected
unfolding get
raise_for_reject frame = elim (as_str (get "reason" frame)) [
  | none ↦ broadcast_connection
  | some reason ↦
      if str_eq reason "version"
      then protocol_version
      else if str_eq reason "lag_limit_exceeded"
      then subscriber_lagged
      else broadcast_connection
]

-- `kind == "..."`
unfoldable pub is_text : String → Json → Bool
is_text s (str t) = str_eq t s
is_text s _ = false

-- What a decoded frame is to the engine. `kind in DRAINABLE_CONTROL_KINDS` raises for a list or an
-- object, and `frame.get` for a value that is no object.
pub data Kind : Type 0 where
  drained handed unusable : Kind
  refused : Rejected → Kind

unfoldable pub kind_of : Json → Fields → Kind
unfolding is_text raise_for_reject
kind_of (arr xs) frame = unusable
kind_of (obj fs) frame = unusable
kind_of kind frame =
    if is_text "daemon_heartbeat" kind || is_text "subscribe_ack" kind
    then drained
    else if is_text "subscribe_rejected" kind
    then refused (raise_for_reject frame)
    else handed

-- What the bookmark file holds after `BookmarkCursor.advance`; `none` when the write fails.
unfoldable pub write_bookmark : Bool → Option String → Option String → Option (Option String)
write_bookmark writable last none = some last
write_bookmark writable last (some e) = if writable then some (some e) else none

unfoldable pub advance : Bool → Fields → Option String → Option (Option String)
unfolding get is_text write_bookmark as_nonempty
advance writable frame last =
    if is_text "daemon_heartbeat" (get "kind" frame)
    then some last
    else write_bookmark writable last (as_nonempty (get "event_id" frame))

-- `if cursor is not None: cursor.advance(frame)`
unfoldable pub advance_cursor :
    Bool → Fields → Option (Option String) → Option (Option (Option String))
unfolding advance
advance_cursor writable frame none = some none
advance_cursor writable frame (some last) = elim (advance writable frame last) [
  | none ↦ none
  | some last' ↦ some (some last')
]

-- What the socket does in one turn.
pub data Answer : Type 0 where
  silent interrupted framing_fault at_end : Answer
  frame_bytes : Bytes → Answer

pub record Turn : Type 0 where
  pub now : ℕ
  pub answer : Answer
  pub writable : Bool
  pub after : ℕ

-- How a call ends: with an outcome, with a reject exception, with another exception, or the turns
-- given are used up while it still waits.
pub data Ended : Type 0 where
  returns : WaitOutcome → Ended
  rejects : Rejected → Ended
  crashes still_waiting : Ended

-- The arguments of the call: the deadline, where 0 stands for any that is not positive.
pub record Options : Type 0 where
  pub deadline : Option ℕ
  pub idle_reset : Bool

pub record Engine {ℓ} (D : Type ℓ) : Type ℓ where
  pub anchor : ℕ
  pub cursor : Option (Option String)
  pub state : D

module _ {ℓ} {D : Type ℓ} (loads : Bytes → Option Json) (decide : Fields → D → D × Bool)
    (o : Options) where
  -- The engine after one frame, and how the call ends if it does.
  unfoldable pub take_frame :
      Turn → Fields → Engine D → Option (Option (Option String)) → Engine D × Option Ended
  take_frame t frame e none = (e, some crashes)
  take_frame t frame e (some cursor) =
      let (state', matched) = decide frame e.state in
      (
        record {
          anchor = if o.idle_reset then t.after else e.anchor;
          cursor = cursor;
          state = state';
        },
        if matched then some (returns outcome_matched) else none,
      )

  unfoldable pub by_kind : Turn → Fields → Engine D → Kind → Engine D × Option Ended
  unfolding take_frame advance_cursor
  by_kind t frame e drained = (e, none)
  by_kind t frame e unusable = (e, some crashes)
  by_kind t frame e (refused r) = (e, some (rejects r))
  by_kind t frame e handed = take_frame t frame e (advance_cursor t.writable frame e.cursor)

  unfoldable pub read_json : Turn → Engine D → Option Json → Engine D × Option Ended
  unfolding by_kind kind_of get
  read_json t e none = (e, none)
  read_json t e (some (obj frame)) = by_kind t frame e (kind_of (get "kind" frame) frame)
  read_json t e (some _) = (e, some crashes)

  unfoldable pub read_answer : Turn → Engine D → Answer → Engine D × Option Ended
  unfolding read_json
  read_answer t e silent = (e, some (returns outcome_timed_out))
  read_answer t e interrupted = (e, some (returns outcome_cancelled))
  read_answer t e framing_fault = (e, some (returns outcome_framing_eof))
  read_answer t e at_end = (e, some (returns outcome_clean_eof))
  read_answer t e (frame_bytes bytes) = read_json t e (loads bytes)

  -- `select_budget <= 0`
  unfoldable pub is_spent : Option ℕ → ℕ → ℕ → Bool
  is_spent none now anchor = false
  is_spent (some d) now anchor = leb d (now - anchor)

  unfoldable pub turn : Turn → Engine D → Engine D × Option Ended
  unfolding is_spent read_answer
  turn t e =
      if is_spent o.deadline t.now e.anchor
      then (e, some (returns outcome_timed_out))
      else read_answer t e t.answer

  unfoldable pub go_on : Engine D × Option Ended → (Engine D → Engine D × Ended) → Engine D × Ended
  go_on (e, some ended) rest = (e, ended)
  go_on (e, none) rest = rest e

  -- `while True`
  unfoldable pub await_loop : List Turn → Engine D → Engine D × Ended
  unfolding turn go_on
  await_loop [] e = (e, still_waiting)
  await_loop (t ∷ ts) e = go_on (turn t e) (λ e'. await_loop ts e')

  -- `if deadline_seconds is not None and deadline_seconds <= 0`, then the loop
  unfoldable pub at_entry : Option ℕ → List Turn → Engine D → Engine D × Ended
  unfolding await_loop
  at_entry none ts e = await_loop ts e
  at_entry (some d) ts e =
      let later = await_loop ts e in if d == 0 then (e, returns outcome_timed_out) else later

  -- `await_predicate`, entered at the clock `start`
  unfoldable pub await_predicate : ℕ → List Turn → Option (Option String) → D → Engine D × Ended
  unfolding at_entry
  await_predicate start ts cursor state =
      at_entry o.deadline ts (record { anchor = start; cursor = cursor; state = state })

-- `_emit_predicate`: run `on_frame`, count, and match at `count` frames.
unfoldable pub emit_predicate {ℓ} :
    {D : Type ℓ} → (Fields → D → D) → Option ℕ → Fields → D × ℕ → (D × ℕ) × Bool
emit_predicate on_frame count frame (d, seen) =
    ((on_frame frame d, seen + 1), elim count [ none ↦ false | some n ↦ leb n (seen + 1) ])

-- `read_subscribe_ack`: the acknowledgement has come, a typed exception, or another exception.
pub data Ack : Type 0 where
  acknowledged : Ack
  raises : Rejected → Ack
  escapes : FrameError → Ack

unfoldable pub ack_verdict : Option Json → Ack
unfolding get is_text raise_for_reject
ack_verdict (some (obj frame)) =
    if is_text "subscribe_ack" (get "kind" frame)
    then acknowledged
    else if is_text "subscribe_rejected" (get "kind" frame)
    then raises (raise_for_reject frame)
    else raises broadcast_connection
ack_verdict _ = raises broadcast_connection

unfoldable pub ack_read : (Bytes → Option Json) → Result (Option Bytes) → Ack
unfolding ack_verdict
ack_read loads (err timeout_error) = raises broadcast_connection
ack_read loads (err e) = escapes e
ack_read loads (ok none) = raises broadcast_connection
ack_read loads (ok (some bytes)) = ack_verdict (loads bytes)

unfoldable pub read_subscribe_ack : (Bytes → Option Json) → Sock → Ack × Sock
unfolding ack_read
read_subscribe_ack loads s = let (r, s') = sync_read_frame s in (ack_read loads r, s')
