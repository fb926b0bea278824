-- ===== src/Broadcast/Tasks/Handed.antt =====
-- What the handshake of waitbus/broadcast.py hands to a client.
use waitbus.Prelude.{
  ℕ, zero, suc, String, ◌≡◌, refl, sym, ap, ◌∙◌, ◌⊎◌, inl, inr, Bool, true, false, Option, none,
  some, List, [], ◌∷◌, ◌++◌, append-nil, arith, leb, ◌==◌, if◌then◌else◌, ==_iff, Bool-cases,
  length, take, take_all,
}
use waitbus.Frame.{Bytes, Result, ok, err}
use waitbus.Subscriber.{
  lag_limit, send, queued_bytes, enqueue, Send, accepts, would_block, broken, Socket, Sent, took,
  blocked, failed, Queued, Subscriber,
}
use waitbus.Subscriber.Sound.{
  Closed, FaultsStay, History, bytes_of, SendLaw, send_law, GoneLaw, gone_law, bytes_of-snoc,
  counted-snoc, IsLive, IsGone,
}
use waitbus.Broadcast.{
  replay_limit, serialize, is_above, rows_above, iter_events_above, seq_for_event_id, matches, Row,
}
use waitbus.Broadcast.Handshake.{
  replay_next, replay_rows, replay, flush_buffer, open_gate, ack_sent, ack_round, Replay, alive,
  lagging, raised, AckRound, acked, unsent, lost,
}
use waitbus.Broadcast.Tasks.{TakenWhole, IsFrame, AllTexts}
use waitbus.Broadcast.Tasks.Whole.{
  AllBlobs, AllBuffered, AllFrames-snoc, enqueue-IsWhole, regated-IsWhole, serialize-IsFrame,
  IsWhole,
}

Closed-FaultsStay : (l : List Send) → Closed l → FaultsStay l
Closed-FaultsStay [] c = tt
Closed-FaultsStay (accepts n ∷ l) c = absurd c
Closed-FaultsStay (would_block ∷ l) c = Closed-FaultsStay l c
Closed-FaultsStay (broken ∷ l) c = c

module _ (P : Bytes → Type 0) where
  abbrev pub IsWholeReplay : Replay → Type 0
  IsWholeReplay (alive s) = IsWhole P s
  IsWholeReplay (lagging s) = IsWhole P s
  IsWholeReplay (raised s) = IsWhole P s

  replay_next-IsWhole :
      (r : Row) (s : Subscriber) (go_on : Subscriber → Replay)
      → AllTexts P (r ∷ [])
      → IsWhole P s
      → ((x : Subscriber) → IsWhole P x → IsWholeReplay (go_on x))
      → IsWholeReplay (replay_next r s go_on)
  unfolding replay_next
  replay_next-IsWhole r s go_on t w ih = elim (Bool-cases (matches s r)) [
    | inl hit ↦ rw hit (go (serialize r) refl)
    | inr miss ↦ rw miss (ih s w)
  ]
    where
      go :
          (o : Result Bytes)
          → serialize r ≡ o
          → IsWholeReplay (elim o as (λ _. Replay) [
            | err e ↦ raised s
            | ok blob ↦
                if leb lag_limit (enqueue blob true s).0.lag_count
                then lagging (enqueue blob true s).0
                else go_on (enqueue blob true s).0
          ])
      go (err e) q = w
      go (ok blob) q =
          let w' = enqueue-IsWhole P blob true s (serialize-IsFrame P r blob t q) w in
          elim (Bool-cases (leb lag_limit (enqueue blob true s).0.lag_count)) [
            | inl lag ↦ rw lag w'
            | inr keep ↦ rw keep (ih (enqueue blob true s).0 w')
          ]

  replay_rows-IsWhole :
      (rows : List Row) (s : Subscriber)
      → AllTexts P rows
      → IsWhole P s
      → IsWholeReplay (replay_rows rows s)
  unfolding replay_rows
  replay_rows-IsWhole [] s t w = w
  replay_rows-IsWhole (r ∷ rs) s t w =
      replay_next-IsWhole r s (λ x. replay_rows rs x) (t.0, tt) w
        (λ x w'. replay_rows-IsWhole rs x t.1 w')

  rows_above-AllTexts :
      (n : ℕ) (u : Option ℕ) (rows : List Row) → AllTexts P rows → AllTexts P (rows_above n u rows)
  unfolding rows_above
  rows_above-AllTexts n u [] t = tt
  rows_above-AllTexts n u (r ∷ rs) t = elim (Bool-cases (is_above n u r)) [
    | inl hit ↦ rw hit (t.0, rows_above-AllTexts n u rs t.1)
    | inr miss ↦ rw miss (rows_above-AllTexts n u rs t.1)
  ]

  take-AllTexts : (n : ℕ) (rows : List Row) → AllTexts P rows → AllTexts P (take n rows)
  take-AllTexts zero rows t = tt
  take-AllTexts (suc n) [] t = tt
  take-AllTexts (suc n) (r ∷ rs) t = (t.0, take-AllTexts n rs t.1)

  pub iter_events_above-AllTexts :
      (rows : List Row) (n : ℕ) (u : Option ℕ) (limit : ℕ)
      → AllTexts P rows
      → AllTexts P (iter_events_above rows n u limit)
  unfolding iter_events_above
  iter_events_above-AllTexts rows n u limit t =
      take-AllTexts limit _ (rows_above-AllTexts n u rows t)

  pub replay-IsWhole :
      (table : List Row) (since : String) (u : Option ℕ) (s : Subscriber)
      → AllTexts P table
      → IsWhole P s
      → IsWholeReplay (replay table since u s)
  unfolding replay
  replay-IsWhole table since u s t w =
      replay_rows-IsWhole (iter_events_above table (seq_for_event_id table since) u replay_limit) s
        (iter_events_above-AllTexts table (seq_for_event_id table since) u replay_limit t) w

  flush_buffer-IsWhole :
      (blobs : List Bytes) (s : Subscriber)
      → AllBlobs P blobs
      → IsWhole P s
      → IsWhole P (flush_buffer blobs s).0
  unfolding flush_buffer
  flush_buffer-IsWhole [] s a w = w
  flush_buffer-IsWhole (b ∷ bs) s a w =
      let w' = enqueue-IsWhole P b true s a.0 w in
      elim (Bool-cases (leb lag_limit (enqueue b true s).0.lag_count)) [
        | inl lag ↦ rw lag w'
        | inr keep ↦ rw keep (flush_buffer-IsWhole bs (enqueue b true s).0 a.1 w')
      ]

  pub open_gate-IsWhole : (s : Subscriber) → IsWhole P s → IsWhole P (open_gate s).0
  unfolding open_gate
  open_gate-IsWhole s w = go s.pre_ack_buffer w.buffered
    where
      go :
          (o : Option (List Bytes))
          → AllBuffered P o
          → IsWhole P
              (elim o as (λ _. Subscriber × Bool) [
                | none ↦ (s, false)
                | some buffered ↦
                    flush_buffer buffered
                      (record s { pre_ack_buffer = none; pre_ack_buffered_bytes = 0 })
              ]).0
      go none a = w
      go (some blobs) a =
          flush_buffer-IsWhole blobs _ a (regated-IsWhole P s s.replay_watermark none 0 w tt)

  -- With nothing in the queue, all was sent.
  pub all_sent :
      (h : History) (s : Subscriber) → IsLive h s → s.tx_queue ≡ [] → s.sock.sent ≡ bytes_of h
  all_sent h s v idle =
      sym (append-nil s.sock.sent)
      ∙ ap (λ (q : List Queued). s.sock.sent ++ queued_bytes q) (sym idle)
      ∙ v.stream

  -- With the answers of the kernel that are left, on a connection that may be live or is gone
  left_IsWhole :
      (s : Subscriber) (k : Socket) (w : IsWhole P s)
      → (IsLive w.history s × FaultsStay k.answers) ⊎ (IsGone w.history s × Closed k.answers)
      → k.sent ≡ s.sock.sent
      → IsWhole P (record s { sock = k })
  left_IsWhole s k w st e = record {
    history = w.history;
    framed = w.framed;
    sound = (record { armed = w.sound.0.armed; bounded = w.sound.0.bounded }, go st);
    buffered = w.buffered;
  }
    where
      go :
          ((IsLive w.history s × FaultsStay k.answers) ⊎ (IsGone w.history s × Closed k.answers))
          → IsLive w.history (record s { sock = k }) ⊎ IsGone w.history (record s { sock = k })
      go (inl (v, fs)) = inl (record {
        faults = fs;
        stream = ap (λ (b : Bytes). b ++ queued_bytes s.tx_queue) e ∙ v.stream;
        count = v.count;
      })
      go (inr (v, c)) = inr (record {
        closed = c;
        lost = v.lost;
        stream = ap (λ (b : Bytes). b ++ v.lost) e ∙ v.stream;
        count = v.count;
        lagged = v.lagged;
      })

  abbrev pub IsWholeRound : Bytes → AckRound → Type 0
  IsWholeRound ack (acked s) = IsWhole P s
  IsWholeRound ack (unsent rest s) = (rest ≡ ack) × IsWhole P s
  IsWholeRound ack (lost s) = IsWhole P s

  -- Taken whole behind an empty queue, the acknowledgement is one more frame.
  taken_IsWhole :
      (ack : Bytes) (s : Subscriber) (k : Socket)
      → IsFrame P ack
      → s.tx_queue ≡ []
      → FaultsStay k.answers
      → k.sent ≡ s.sock.sent ++ ack
      → (w : IsWhole P s) → IsLive w.history s
      → IsWhole P (record s { sock = k })
  taken_IsWhole ack s k f idle faults e w v = record {
    history = w.history ++ (ack, false) ∷ [];
    framed = AllFrames-snoc P w.history ack false w.framed f;
    sound = (
      record { armed = w.sound.0.armed; bounded = w.sound.0.bounded },
      inl (record {
        faults = faults;
        stream =
            rw (idle, append-nil, bytes_of-snoc ack false w.history)
              (e ∙ ap (λ (b : Bytes). b ++ ack) (all_sent w.history s v idle));
        count = v.count ∙ sym (counted-snoc ack false w.history);
      }),
    );
    buffered = w.buffered;
  }

  pub ack_round-IsWhole :
      (ack : Bytes) (s : Subscriber)
      → IsFrame P ack
      → TakenWhole ack s (send ack s.sock)
      → IsWhole P s
      → IsWholeRound ack (ack_round ack s)
  unfolding ack_round ack_sent
  ack_round-IsWhole ack s f fits w = go w.sound.1
    where
      live :
          (r : Sent × Socket)
          → TakenWhole ack s r
          → IsLive w.history s
          → SendLaw ack s.sock r
          → IsWholeRound ack (ack_sent ack s r)
      live (blocked, k) t v (fs, e) = (refl, left_IsWhole s k w (inl (v, fs)) e)
      live (failed, k) t v (c, e) = left_IsWhole s k w (inl (v, Closed-FaultsStay k.answers c)) e
      live (took n, k) (all, idle) v (fs, _, e) =
          let whole : (n == length ack) ≡ true = (==_iff n (length ack)).1 all in
          rw whole (
            taken_IsWhole ack s k f idle fs
              (e ∙ ap (λ (b : Bytes). s.sock.sent ++ b) (take_all n ack (omega (arith, all)))) w v)

      gone :
          (r : Sent × Socket)
          → IsGone w.history s
          → GoneLaw s.sock r
          → IsWholeRound ack (ack_sent ack s r)
      gone (blocked, k) v (c, e) = (refl, left_IsWhole s k w (inr (v, c)) e)
      gone (failed, k) v (c, e) = left_IsWhole s k w (inr (v, c)) e
      gone (took n, k) v l = absurd l

      go :
          (IsLive w.history s ⊎ IsGone w.history s)
          → IsWholeRound ack (ack_sent ack s (send ack s.sock))
      go (inl v) = live (send ack s.sock) fits v (send_law ack s.sock v.faults)
      go (inr v) = gone (send ack s.sock) v (gone_law ack s.sock v.closed)
