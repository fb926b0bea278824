-- ===== src/Broadcast/Session.antt =====
-- A whole subscription of waitbus/broadcast.py, from `register` to the live stream.
use waitbus.Prelude.{
  ℕ, String, ◌≡◌, refl, sym, ap, ◌∙◌, subst, inl, Bool, true, false, Option, none, some, List, [],
  ◌∷◌, ◌++◌, append_assoc, arith, take,
}
use waitbus.Frame.{Bytes}
use waitbus.Subscriber.{new, Send, Subscriber}
use waitbus.Subscriber.Sound.{FaultsStay, History, IsSound, IsLive}
use waitbus.Subscriber.Runs.{fresh}
use waitbus.Broadcast.{replay_limit, rows_above, iter_events_above, seq_for_event_id, Row}
use waitbus.Broadcast.Handshake.{registered, replay, open_gate, Request, alive}
use waitbus.Broadcast.Feed.{wire_of, frames, select, wants, due, AllAbove, Watch, Ascending, Terms}
use waitbus.Broadcast.Live.{IsOpen}
use waitbus.Broadcast.Gate.{wires, IsGated}
use waitbus.Broadcast.Acks.{sends_ack, all_rows, sends_ack-IsAcking}
use waitbus.Broadcast.Turns.{
  rows_of, heartbeats_of, lives, handed_by, only_by, only_by-append, only_by-frames,
  only_others-frames, only_by-handed_by, only_others-handed_by, lives-open, Happening,
}
use waitbus.Broadcast.Resume.{replay_rows-alive, counted_frames, open_gate-done}
use waitbus.Broadcast.Table.{
  HasIds, AtMost, Ascending-rest, snapshot_seq, snapshot-bounds, rows_above-append, select-due-old,
  select-due-new, select-append, frames-append,
}

counted_frames-wires : (rows : List Row) → counted_frames (wires rows) ≡ frames rows
counted_frames-wires [] = refl
counted_frames-wires (r ∷ rs) = ap (λ l. (wire_of r, true) ∷ l) (counted_frames-wires rs)

-- A subscriber that `register` has put in the dict, over a fresh connection.
registered-IsGated :
    (l : List Send) (registers : Bool) (uid : ℕ) (table rest : List Row) (q : Request)
    (cursor : String)
    → FaultsStay l
    → q.since ≡ some cursor
    → IsGated q.filters q.event_types
        (snapshot_seq table)
        (([], false) ∷ [])
        []
        rest
        (registered (fresh l) registers uid table q)
unfolding registered new
registered-IsGated l registers uid table rest q cursor f e = record {
  sound = (record { armed = λ e. cc; bounded = omega arith }, inl live0);
  live = live0;
  idle = refl;
  filters_eq = refl;
  types_eq = refl;
  buffer_eq = refl;
  watch = rw e refl;
}
  where
    live0 : IsLive (([], false) ∷ []) (registered (fresh l) registers uid table q)
    live0 = record { faults = f; stream = refl; count = refl }

AllAbove-first : (w : ℕ) (xs ys : List Row) → AllAbove w (xs ++ ys) → AllAbove w xs
AllAbove-first w [] ys a = tt
AllAbove-first w (x ∷ xs) ys a = (a.0, AllAbove-first w xs ys a.1)

module _ (filters types : List String) (w since : ℕ) (table seen later : List Row) where
  -- The live rows that are due are the later ones.
  live_rows :
      (swept before after : List Row)
      → AtMost w swept
      → AllAbove w later
      → before ++ after ≡ swept ++ later
      → frames (select (due filters types w) before) ++ frames (select (due filters types w) after)
        ≡ frames (select (wants filters types) later)
  live_rows swept before after old above sweep =
      let p = due filters types w in
      sym (frames-append (select p before) (select p after))
      ∙ ap (λ l. frames l)
          (sym (select-append p before after)
            ∙ ap (λ l. select p l) sweep
            ∙ select-append p swept later
            ∙ rw (select-due-old filters types w swept old)
                (select-due-new filters types w later above))

  -- The replayed rows are those of the table behind the cursor.
  replayed_rows :
      AtMost w table
      → AllAbove w seen
      → iter_events_above (table ++ seen) since (some w) replay_limit
        ≡ take replay_limit (rows_above since none table)
  unfolding iter_events_above
  replayed_rows most above = rw (rows_above-append since w table seen most above)

-- What is handed over behind the acknowledgement
abbrev handed_over : (Row → Bool) → (Row → Bool) → List Row → List Row → List Happening → History
handed_over wanted due_ replayed before turns =
    (frames (select wanted replayed) ++ counted_frames (wires (select due_ before)))
    ++ handed_by due_ turns

module _ (wanted due_ : Row → Bool) (replayed before : List Row) (turns : List Happening) where
  counted-handed_over :
      only_by true (handed_over wanted due_ replayed before turns)
      ≡ frames (select wanted replayed)
        ++ (frames (select due_ before) ++ frames (select due_ (rows_of turns)))
  counted-handed_over =
      ap (λ x. only_by true ((frames (select wanted replayed) ++ x) ++ handed_by due_ turns))
        (counted_frames-wires (select due_ before))
      ∙ only_by-append true (frames (select wanted replayed) ++ frames (select due_ before)) _
      ∙ rw
          (
            only_by-append true (frames (select wanted replayed)) (frames (select due_ before)),
            only_by-frames (select wanted replayed),
            only_by-frames (select due_ before),
            only_by-handed_by due_ turns,
          )
          (append_assoc (frames (select wanted replayed)) (frames (select due_ before)) _)

  others-handed_over :
      only_by false (handed_over wanted due_ replayed before turns) ≡ heartbeats_of turns
  others-handed_over =
      ap (λ x. only_by false ((frames (select wanted replayed) ++ x) ++ handed_by due_ turns))
        (counted_frames-wires (select due_ before))
      ∙ only_by-append false (frames (select wanted replayed) ++ frames (select due_ before)) _
      ∙ rw
          (
            only_by-append false (frames (select wanted replayed)) (frames (select due_ before)),
            only_others-frames (select wanted replayed),
            only_others-frames (select due_ before),
          )
          (only_others-handed_by due_ turns)

-- The rows `want` are handed over behind the acknowledgement, each once and in order, with the heartbeats
-- of `turns` and nothing else between them.
pub record HandedOver (ack : Bytes) (want : List Row) (turns : List Happening) (s : Subscriber)
    : Type 0 where
  pub history : History
  pub sound : IsSound ((ack, false) ∷ history) s
  pub rows_eq : only_by true history ≡ frames want
  pub others_eq : only_by false history ≡ heartbeats_of turns

module _ (l : List Send) (registers : Bool) (uid : ℕ) (q : Request) (cursor : String) (ack : Bytes)
    (table seen unseen swept : List Row) (rounds : List (List Row)) (turns : List Happening)
    (s1 s2 s3 s4 : Subscriber) where
  -- A subscription with a `since` cursor, over a connection that stays down once it is down. `table`
  -- is the events table when the subscriber is registered; the rows `seen` are committed after it and
  -- before the replay is read, the rows `unseen` after that. The passes fan out `swept` (rows of
  -- `table` not yet swept) and then those: the rows of `rounds` while the acknowledgement goes out, in
  -- one `send` or several, and until the replay is read, with no heartbeat, the rows of `turns` after
  -- the handshake, among heartbeats and calls of the writability callback. If the subscriber is nowhere dropped, then what
  -- it is handed is the acknowledgement, then of the first `replay_limit` rows of `table` behind its
  -- cursor and of all rows of `seen` and `unseen` each one that its filters and event types ask for,
  -- once, in the order of `seq`, and among them the heartbeats of `turns` and nothing else. What its
  -- kernel has accepted are the first bytes of that, all of them but what is queued while the
  -- connection lives.
  pub subscription_exactly_once :
      FaultsStay l
      → q.since ≡ some cursor
      → HasIds table
      → AllAbove 0 (table ++ (seen ++ unseen))
      → Ascending (table ++ (seen ++ unseen))
      → AtMost (snapshot_seq table) swept
      → all_rows rounds ++ rows_of turns ≡ swept ++ (seen ++ unseen)
      → Ascending (all_rows rounds ++ rows_of turns)
      → sends_ack rounds ack (registered (fresh l) registers uid table q) ≡ some s1
      → replay (table ++ seen) cursor (some (snapshot_seq table)) s1 ≡ alive s2
      → open_gate s2 ≡ (s3, false)
      → lives turns s3 ≡ some s4
      → HandedOver ack
          (select (wants q.filters q.event_types) (
            take replay_limit (rows_above (seq_for_event_id (table ++ seen) cursor) none table)
            ++ (seen ++ unseen)))
          turns
          s4
  unfolding replay
  subscription_exactly_once f e ids pos asc old sweep asc' out replayed opened lived =
      let w = snapshot_seq table in
      let fs = q.filters in
      let ts = q.event_types in
      let before = all_rows rounds in
      let later = seen ++ unseen in
      let since = seq_for_event_id (table ++ seen) cursor in
      let rows = iter_events_above (table ++ seen) since (some w) replay_limit in
      let (most, above) = snapshot-bounds later table ids pos asc in
      let g =
        sends_ack-IsAcking fs ts w rounds ack [] ack [] (rows_of turns) _ s1 refl
          (registered-IsGated l registers uid table (before ++ rows_of turns) q cursor f e) asc'
          out in
      let (sound2, t2) =
        replay_rows-alive fs ts ((ack, false) ∷ []) rows s1 s2 g.sound g.filters_eq g.types_eq
          replayed in
      let (sound3, t3) =
        open_gate-done _ (wires (select (due fs ts w) before)) s2 s3 sound2
          (ap (λ (x : Terms). x.buffer) t2 ∙ g.buffer_eq) opened in
      let opened3 : IsOpen fs ts s3 = record {
        filters_eq =
            ap (λ (x : Terms). x.filters) t3 ∙ ap (λ (x : Terms). x.filters) t2 ∙ g.filters_eq;
        types_eq =
            ap (λ (x : Terms). x.event_types) t3
            ∙ ap (λ (x : Terms). x.event_types) t2
            ∙ g.types_eq;
        buffer_eq = ap (λ (x : Terms). x.buffer) t3;
      } in
      let sound4 =
        lives-open fs ts w _ turns s3 s4 sound3 opened3
          (subst (λ (o : Option ℕ). Watch w o (rows_of turns))
            (sym (ap (λ (x : Terms). x.watermark) t3 ∙ ap (λ (x : Terms). x.watermark) t2)) g.watch)
          (Ascending-rest before (rows_of turns) asc') lived in
      record {
        history = handed_over (wants fs ts) (due fs ts w) rows before turns;
        sound = sound4;
        rows_eq =
            counted-handed_over (wants fs ts) (due fs ts w) rows before turns
            ∙ rw
                (
                  live_rows fs ts w since table seen later swept before (rows_of turns) old above
                      sweep,
                  replayed_rows fs ts w since table seen later most
                      (AllAbove-first w seen unseen above),
                  select-append (wants fs ts) (take replay_limit (rows_above since none table))
                      later,
                )
                (sym (frames-append _ _));
        others_eq = others-handed_over (wants fs ts) (due fs ts w) rows before turns;
      }
