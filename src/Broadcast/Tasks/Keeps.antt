-- ===== src/Broadcast/Tasks/Keeps.antt =====
-- The tasks of waitbus/broadcast.py keep all clients on whole frames.
use waitbus.Prelude.{
  ℕ, String, ◌≡◌, refl, ap, subst, inl, inr, Bool, true, false, Option, none, some, List, [], ◌∷◌,
  ◌++◌, arith, if◌then◌else◌,
}
use waitbus.Frame.{Bytes, Result, ok, err}
use waitbus.Subscriber.{new, on_writable, Send, Subscriber}
use waitbus.Subscriber.Sound.{FaultsStay}
use waitbus.Subscriber.Runs.{fresh}
use waitbus.Broadcast.{
  sweep_limit, serialize, iter_events_above, fan_out_one, find, remove, closing, close_subscriber,
  close_all, step_each, step_all, fan_out, beat_one, heartbeat, pass_row, pass_rows, broadcast_pass,
  Row, Reason, lag_limit_exceeded, heartbeat_lag, replay_lag_limit_exceeded,
  subscribe_ack_send_failed, replay_db_error, shutdown, Daemon,
}
use waitbus.Broadcast.Handshake.{
  registered, put, register, replay, open_gate, ack_round, update, after_gate, after_replay, resume,
  after_ack, send_ack, finish_subscribe, ack_timed_out, Request, Replay, alive, lagging, raised,
  AckRound, acked, unsent, lost,
}
use waitbus.Broadcast.Tasks.{
  AckFits, IsFrame, AllTexts, StepFits, AcksFit, AllSubs, Pending, EventLoop, Step, accept,
  acknowledge, finish, gives_up, sweep, beat, becomes_writable, shut, Reach, here, next,
}
use waitbus.Broadcast.Tasks.Whole.{
  on_writable-IsWhole, fan_out_one-IsWhole, beat_one-IsWhole, serialize-IsFrame, IsWhole,
}
use waitbus.Broadcast.Tasks.Ended.{closing-IsEnded, IsEnded}
use waitbus.Broadcast.Tasks.Handed.{
  IsWholeReplay, iter_events_above-AllTexts, replay-IsWhole, open_gate-IsWhole, IsWholeRound,
  ack_round-IsWhole,
}
use waitbus.Broadcast.Tasks.Unsent.{
  IsUnsent, rest_of, AllPending, assign-AllPending, still_pending-AllPending, pending-IsFrame,
}
use waitbus.Broadcast.Tasks.Dict.{
  AllSubs-find, AllSubs-remove, AllSubs-put, AllSubs-snoc, AllSubs-step_each,
}

module _ (P : Bytes → Type 0) where
  -- Every client in the dict is handed whole frames, and every one that was closed has been sent the
  -- first part of whole frames.
  pub record IsSafe (d : Daemon) : Type 0 where
    pub clients : AllSubs (λ s. IsWhole P s) d.subscribers
    pub ended : AllSubs (λ s. IsEnded P s.sock.sent) d.closed
    pub reject : IsFrame P d.reject_frame

  update-IsSafe :
      (fd : ℕ) (s : Subscriber) (d : Daemon) → IsWhole P s → IsSafe d → IsSafe (update fd s d)
  unfolding update
  update-IsSafe fd s d w v = record {
    clients = AllSubs-put (λ x. IsWhole P x) fd s d.subscribers w v.clients;
    ended = v.ended;
    reject = v.reject;
  }

  close_subscriber-IsSafe :
      (fd : ℕ) (reason : Reason) (d : Daemon) → IsSafe d → IsSafe (close_subscriber fd reason d)
  unfolding close_subscriber
  close_subscriber-IsSafe fd reason d v = go (find fd d.subscribers) refl
    where
      go :
          (o : Option Subscriber)
          → find fd d.subscribers ≡ o
          → IsSafe (elim o as (λ _. Daemon) [
            | none ↦ d
            | some s ↦ record d {
              subscribers = remove fd d.subscribers;
              closed = (fd, closing d.reject_frame reason s) ∷ d.closed;
            }
          ])
      go none e = v
      go (some s) e = record {
        clients = AllSubs-remove (λ x. IsWhole P x) fd d.subscribers v.clients;
        ended = (
          closing-IsEnded P d.reject_frame reason s v.reject
              (AllSubs-find (λ x. IsWhole P x) fd d.subscribers s v.clients e),
          v.ended,
        );
        reject = v.reject;
      }

  close_all-IsSafe :
      (fds : List ℕ) (reason : Reason) (d : Daemon) → IsSafe d → IsSafe (close_all fds reason d)
  unfolding close_all
  close_all-IsSafe [] reason d v = v
  close_all-IsSafe (fd ∷ fds) reason d v =
      close_all-IsSafe fds reason (close_subscriber fd reason d)
        (close_subscriber-IsSafe fd reason d v)

  step_all-IsSafe :
      (f : Subscriber → Subscriber × Bool) (reason : Reason) (d : Daemon)
      → ((s : Subscriber) → IsWhole P s → IsWhole P (f s).0)
      → IsSafe d
      → IsSafe (step_all f reason d)
  unfolding step_all
  step_all-IsSafe f reason d h v =
      close_all-IsSafe (step_each f d.subscribers).1 reason
        (record d { subscribers = (step_each f d.subscribers).0 })
        (record {
          clients = AllSubs-step_each (λ x. IsWhole P x) f d.subscribers h v.clients;
          ended = v.ended;
          reject = v.reject;
        })

  fan_out-IsSafe :
      (r : Row) (blob : Bytes) (d : Daemon)
      → IsFrame P blob
      → IsSafe d
      → IsSafe (record (fan_out r blob d) { cursor = r.seq })
  unfolding fan_out
  fan_out-IsSafe r blob d f v =
      let v' =
        step_all-IsSafe (fan_out_one r blob) lag_limit_exceeded d
          (λ s w. fan_out_one-IsWhole P r blob s f w) v in
      record { clients = v'.clients; ended = v'.ended; reject = v'.reject }

  pass_row-IsSafe :
      (o : Result Bytes) (r : Row) (d : Daemon) (go_on : Daemon → Daemon × Result (Unit {0}))
      → ((blob : Bytes) → o ≡ ok blob → IsFrame P blob)
      → ((d' : Daemon) → IsSafe d' → IsSafe (go_on d').0)
      → IsSafe d
      → IsSafe (pass_row o r d go_on).0
  unfolding pass_row
  pass_row-IsSafe (err e) r d go_on f ih v = v
  pass_row-IsSafe (ok blob) r d go_on f ih v = ih _ (fan_out-IsSafe r blob d (f blob refl) v)

  pass_rows-IsSafe :
      (rows : List Row) (d : Daemon) → AllTexts P rows → IsSafe d → IsSafe (pass_rows rows d).0
  unfolding pass_rows
  pass_rows-IsSafe [] d t v = v
  pass_rows-IsSafe (r ∷ rs) d t v =
      pass_row-IsSafe (serialize r) r d (λ d'. pass_rows rs d')
        (λ blob e. serialize-IsFrame P r blob (t.0, tt) e) (λ d' v'. pass_rows-IsSafe rs d' t.1 v')
        v

  after_gate-IsSafe :
      (fd : ℕ) (d : Daemon) (r : Subscriber × Bool)
      → IsWhole P r.0
      → IsSafe d
      → IsSafe (after_gate fd d r)
  unfolding after_gate
  after_gate-IsSafe fd d (s, false) w v = update-IsSafe fd s d w v
  after_gate-IsSafe fd d (s, true) w v =
      close_subscriber-IsSafe fd lag_limit_exceeded (update fd s d) (update-IsSafe fd s d w v)

  after_replay-IsSafe :
      (fd : ℕ) (d : Daemon) (r : Replay)
      → IsWholeReplay P r
      → IsSafe d
      → IsSafe (after_replay fd d r)
  unfolding after_replay
  after_replay-IsSafe fd d (alive s) w v =
      after_gate-IsSafe fd d (open_gate s) (open_gate-IsWhole P s w) v
  after_replay-IsSafe fd d (lagging s) w v =
      close_subscriber-IsSafe fd replay_lag_limit_exceeded (update fd s d)
        (update-IsSafe fd s d w v)
  after_replay-IsSafe fd d (raised s) w v = update-IsSafe fd s d w v

  resume-IsSafe :
      (fd : ℕ) (table : List Row) (fault : Bool) (q : Request) (u : Option ℕ) (d : Daemon)
      (s : Subscriber)
      → AllTexts P table
      → IsWhole P s
      → IsSafe d
      → IsSafe (resume fd table fault q u d s)
  unfolding resume
  resume-IsSafe fd table fault q u d s t w v = go q.since fault
    where
      go :
          (o : Option String) (b : Bool)
          → IsSafe (elim o as (λ _. Daemon) [
            | none ↦ after_replay fd d (alive s)
            | some e ↦
                if b
                then close_subscriber fd replay_db_error d
                else after_replay fd d (replay table e u s)
          ])
      go none b = after_replay-IsSafe fd d (alive s) w v
      go (some e) true = close_subscriber-IsSafe fd replay_db_error d v
      go (some e) false =
          after_replay-IsSafe fd d (replay table e u s) (replay-IsWhole P table e u s t w) v

  after_ack-IsSafe :
      (fd : ℕ) (rest : Bytes) (d : Daemon) (r : AckRound)
      → IsSafe d
      → IsWholeRound P rest r
      → IsSafe (after_ack fd d r).0 × IsUnsent rest (after_ack fd d r).1
  unfolding after_ack
  after_ack-IsSafe fd rest d (acked s) v w = (update-IsSafe fd s d w v, inl refl)
  after_ack-IsSafe fd rest d (unsent r s) v (e, w) = (update-IsSafe fd s d w v, inr e)
  after_ack-IsSafe fd rest d (lost s) v w = (
    close_subscriber-IsSafe fd subscribe_ack_send_failed (update fd s d) (update-IsSafe fd s d w v),
    tt,
  )

  send_ack-IsSafe :
      (fd : ℕ) (rest : Bytes) (d : Daemon)
      → IsFrame P rest
      → AckFits rest (find fd d.subscribers)
      → IsSafe d
      → IsSafe (send_ack fd rest d).0 × IsUnsent rest (send_ack fd rest d).1
  unfolding send_ack
  send_ack-IsSafe fd rest d f fits v = go (find fd d.subscribers) refl fits
    where
      go :
          (o : Option Subscriber)
          → find fd d.subscribers ≡ o
          → AckFits rest o
          → (let r = elim o as (λ _. Daemon × Option Bytes) [
            | none ↦ (d, none)
            | some s ↦ after_ack fd d (ack_round rest s)
          ] in
              IsSafe r.0 × IsUnsent rest r.1)
      go none e h = (v, tt)
      go (some s) e h = after_ack-IsSafe fd rest d (ack_round rest s) v (
          ack_round-IsWhole P rest s f h
            (AllSubs-find (λ x. IsWhole P x) fd d.subscribers s v.clients e))

  finish_subscribe-IsSafe :
      (fd : ℕ) (table : List Row) (fault : Bool) (q : Request) (u : Option ℕ) (d : Daemon)
      → AllTexts P table
      → IsSafe d
      → IsSafe (finish_subscribe fd table fault q u d)
  unfolding finish_subscribe
  finish_subscribe-IsSafe fd table fault q u d t v = go (find fd d.subscribers) refl
    where
      go :
          (o : Option Subscriber)
          → find fd d.subscribers ≡ o
          → IsSafe (elim o as (λ _. Daemon) [ none ↦ d | some s ↦ resume fd table fault q u d s ])
      go none e = v
      go (some s) e =
          resume-IsSafe fd table fault q u d s t
            (AllSubs-find (λ x. IsWhole P x) fd d.subscribers s v.clients e) v

  registered-IsWhole :
      (l : List Send) (registers : Bool) (uid : ℕ) (table : List Row) (q : Request)
      → FaultsStay l
      → IsWhole P (registered (fresh l) registers uid table q)
  unfolding registered new
  registered-IsWhole l registers uid table q f = record {
    history = [];
    framed = tt;
    sound = (
      record { armed = λ e. cc; bounded = omega arith },
      inl (record { faults = f; stream = refl; count = refl }),
    );
    buffered = tt;
  }

  register-IsSafe :
      (fd : ℕ) (s : Subscriber) (d : Daemon) → IsWhole P s → IsSafe d → IsSafe (register fd s d)
  unfolding register
  register-IsSafe fd s d w v = record {
    clients = go (find fd d.subscribers);
    ended = v.ended;
    reject = v.reject;
  }
    where
      go :
          (o : Option Subscriber)
          → AllSubs
              (λ x. IsWhole P x)
              (elim o as (λ _. List (ℕ × Subscriber)) [
                | none ↦ d.subscribers ++ (fd, s) ∷ []
                | some old ↦ put fd s d.subscribers
              ])
      go none = AllSubs-snoc (λ x. IsWhole P x) fd s d.subscribers w v.clients
      go (some old) = AllSubs-put (λ x. IsWhole P x) fd s d.subscribers w v.clients

  abbrev pub IsSafeLoop : EventLoop → Type 0
  IsSafeLoop w = IsSafe w.daemon × AllPending P w.pending

  -- Every part of every task keeps it.
  pub Step-IsSafe :
      {w w' : EventLoop} (st : Step P w w') → StepFits P st → IsSafeLoop w → IsSafeLoop w'
  unfolding broadcast_pass heartbeat ack_timed_out
  Step-IsSafe (accept w fd l registers uid table q ack f a) fits (v, pend) = (
    register-IsSafe fd _ w.daemon (registered-IsWhole l registers uid table q f) v,
    assign-AllPending P fd _ w.pending
        (λ p e.
          inr (subst (λ (b : Bytes). IsFrame P b) (ap (λ (o : Option Pending). rest_of ack o) e) a))
        pend,
  )
  Step-IsSafe (acknowledge w fd p e more) fits (v, pend) =
      let f = pending-IsFrame P p.rest more (pend fd p e) in
      let (v', u) = send_ack-IsSafe fd p.rest w.daemon f fits v in
      (
        v',
        assign-AllPending P fd _ w.pending (λ p' e'. still_pending-AllPending P p _ p' f u e') pend,
      )
  Step-IsSafe (finish w fd p table fault e over t) fits (v, pend) = (
    finish_subscribe-IsSafe fd table fault p.request p.until_seq w.daemon t v,
    assign-AllPending P fd none w.pending (λ p' e'. cc) pend,
  )
  Step-IsSafe (gives_up w fd p e) fits (v, pend) = (
    close_subscriber-IsSafe fd subscribe_ack_send_failed w.daemon v,
    assign-AllPending P fd none w.pending (λ p' e'. cc) pend,
  )
  Step-IsSafe (sweep w table t) fits (v, pend) = (
    pass_rows-IsSafe (iter_events_above table w.daemon.cursor none sweep_limit) w.daemon
        (iter_events_above-AllTexts P table w.daemon.cursor none sweep_limit t) v,
    pend,
  )
  Step-IsSafe (beat w blob f) fits (v, pend) = (
    step_all-IsSafe (beat_one blob) heartbeat_lag w.daemon (λ s x. beat_one-IsWhole P blob s f x) v,
    pend,
  )
  Step-IsSafe (becomes_writable w fd s e) fits (v, pend) = (
    update-IsSafe fd (on_writable s) w.daemon
        (on_writable-IsWhole P s
          (AllSubs-find (λ x. IsWhole P x) fd w.daemon.subscribers s v.clients e))
        v,
    pend,
  )
  Step-IsSafe (shut w fds) fits (v, pend) = (close_all-IsSafe fds shutdown w.daemon v, pend)

  pub Reach-IsSafe :
      {start w : EventLoop} → IsSafeLoop start → (r : Reach P start w) → AcksFit P r → IsSafeLoop w
  Reach-IsSafe v here fits = v
  Reach-IsSafe v (next r st) fits = Step-IsSafe st fits.1 (Reach-IsSafe v r fits.0)
