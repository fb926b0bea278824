-- ===== src/Emit/Delivered.antt =====
-- From waitbus/_emit.py to a subscriber of waitbus/broadcast.py: what is emitted is what is delivered.
use waitbus.Prelude.{
  ℕ, String, ◌≡◌, sym, ap, ◌∙◌, subst, Bool, false, none, some, List, ◌++◌, append_assoc, take,
}
use waitbus.Frame.{Bytes}
use waitbus.Subscriber.{Send, Subscriber}
use waitbus.Subscriber.Sound.{FaultsStay}
use waitbus.Subscriber.Runs.{fresh}
use waitbus.Broadcast.{replay_limit, rows_above, seq_for_event_id, Row}
use waitbus.Broadcast.Handshake.{registered, replay, open_gate, Request, alive}
use waitbus.Broadcast.Feed.{select, wants, AllAbove, Ascending}
use waitbus.Broadcast.Table.{AtMost, AtMost-rest, Ascending-rest, snapshot_seq, snapshot-bounds}
use waitbus.Broadcast.Acks.{sends_ack, all_rows}
use waitbus.Broadcast.Turns.{rows_of, lives, Happening}
use waitbus.Broadcast.Session.{subscription_exactly_once, HandedOver}
use waitbus.Emit.Grows.{
  Writes, empty, daemon_rows, daemon_rows-HasIds, Writes-Ordered, Writes-trans,
}
use waitbus.Emit.{Event, Table}

module _ (encode stub : Event → Bytes) (l : List Send) (registers : Bool) (uid : ℕ) (q : Request)
    (cursor : String) (ack : Bytes) (t t' t'' : Table) (past swept seen unseen : List Row)
    (rounds : List (List Row)) (turns : List Happening) (s1 s2 s3 s4 : Subscriber) where
  -- The events table is filled from empty by calls of `emit` and `emit_batch`: `t` when the subscriber
  -- is registered, `t'` when its replay is read, `t''` at the end, behind further calls. The daemon has
  -- swept the rows `past` of `t`; its passes go on with the rest `swept` and the rows inserted later,
  -- those of `rounds` while the acknowledgement goes out, in one `send` or several, and until the
  -- replay is read, with no heartbeat, those of `turns` after the handshake, among heartbeats and calls of the writability
  -- callback. Over a connection that stays down once it is down, for a request with a `since` cursor:
  -- if the subscriber is nowhere dropped, then it is handed the acknowledgement and then, of the first
  -- `replay_limit` rows of `t` behind its cursor and of all rows of `t''` that are not in `t`, each one
  -- that its filters and event types ask for, once, in the order of `seq`, and among them the heartbeats
  -- and nothing else; its kernel has accepted the first bytes of that.
  pub emitted_exactly_once :
      Writes empty t
      → Writes t t'
      → Writes t' t''
      → daemon_rows encode stub t.rows ≡ past ++ swept
      → daemon_rows encode stub t'.rows ≡ daemon_rows encode stub t.rows ++ seen
      → daemon_rows encode stub t''.rows ≡ daemon_rows encode stub t.rows ++ (seen ++ unseen)
      → all_rows rounds ++ rows_of turns ≡ swept ++ (seen ++ unseen)
      → FaultsStay l
      → q.since ≡ some cursor
      → sends_ack rounds ack (registered (fresh l) registers uid (daemon_rows encode stub t.rows) q)
        ≡ some s1
      → replay
          (daemon_rows encode stub t'.rows)
          cursor
          (some (snapshot_seq (daemon_rows encode stub t.rows)))
          s1
        ≡ alive s2
      → open_gate s2 ≡ (s3, false)
      → lives turns s3 ≡ some s4
      → HandedOver ack
          (select (wants q.filters q.event_types) (
            take replay_limit (
              rows_above
                (seq_for_event_id (daemon_rows encode stub t'.rows) cursor)
                none
                (daemon_rows encode stub t.rows))
            ++ (seen ++ unseen)))
          turns
          s4
  emitted_exactly_once w w' w'' now read end_ split f since out replayed opened lived =
      let table = daemon_rows encode stub t.rows in
      let later = seen ++ unseen in
      let ids = daemon_rows-HasIds encode stub t.rows in
      let (pos, asc) =
        subst (λ rs. AllAbove 0 rs × Ascending rs) end_
          (Writes-Ordered encode stub (Writes-trans (Writes-trans w w') w'')) in
      let (most, above) = snapshot-bounds later table ids pos asc in
      let rest : Ascending (swept ++ later) = Ascending-rest past (swept ++ later) (
        subst (λ rs. Ascending rs) (ap (λ rs. rs ++ later) now ∙ append_assoc past swept later)
          asc) in
      subst
        (λ all.
          HandedOver ack
            (select (wants q.filters q.event_types)
              (take replay_limit (rows_above (seq_for_event_id all cursor) none table) ++ later))
            turns s4)
        (sym read)
        (subscription_exactly_once l registers uid q cursor ack table seen unseen swept rounds turns
          s1 s2 s3 s4 f since ids pos asc
          (AtMost-rest (snapshot_seq table) past swept
            (subst (λ rs. AtMost (snapshot_seq table) rs) now most))
          split (subst (λ rs. Ascending rs) (sym split) rest) out
          (subst (λ all. replay all cursor (some (snapshot_seq table)) s1 ≡ alive s2) read replayed)
          opened lived)
