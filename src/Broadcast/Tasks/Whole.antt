-- ===== src/Broadcast/Tasks/Whole.antt =====
-- What a subscriber of waitbus/broadcast.py is handed, in whole frames.
use waitbus.Prelude.{
  ℕ, ◌+◌, ◌≡◌, refl, sym, ap, ◌∙◌, subst, inl, inr, Bool, true, false, ◌||◌, Option, none, some,
  List, [], ◌∷◌, ◌++◌, arith, ltb, leb, if◌then◌else◌, Bool-cases, length,
}
use waitbus.Frame.{Bytes, encode_frame, Result, ok, err}
use waitbus.Subscriber.{
  lag_limit, pre_ack_buffer_frames, pre_ack_buffer_bytes, enqueue, drain_queue, finish_drain, drain,
  on_writable, Subscriber, DrainEnd, emptied, waiting, gone,
}
use waitbus.Subscriber.Sound.{History, IsSound}
use waitbus.Subscriber.Keeps.{enqueue-IsSound}
use waitbus.Subscriber.Drain.{on_writable-IsSound}
use waitbus.Broadcast.{serialize, matches, deliver, past_watermark, fan_out_one, beat_one, Row}
use waitbus.Broadcast.Feed.{terms, enqueue-terms, Terms}
use waitbus.Broadcast.Live.{regated-IsSound}
use waitbus.Broadcast.Tasks.{IsFrame, AllTexts}

finish_drain-terms : (s : Subscriber) (e : DrainEnd) → terms (finish_drain s e) ≡ terms s
unfolding finish_drain
finish_drain-terms s emptied = ground arith
finish_drain-terms s waiting = refl
finish_drain-terms s gone = ground arith

drain-terms : (s : Subscriber) → terms (drain s) ≡ terms s
unfolding drain
drain-terms s =
    let d = drain_queue s.tx_queue s.sock in
    finish_drain-terms
      (record s { tx_queue = d.queue; sock = d.sock; delivered = s.delivered + d.counted }) d.ended

pub on_writable-terms : (s : Subscriber) → terms (on_writable s) ≡ terms s
unfolding on_writable
on_writable-terms s = go s.draining
  where
    go : (b : Bool) → terms (if b then drain s else s) ≡ terms s
    go true = drain-terms s
    go false = refl

module _ (P : Bytes → Type 0) where
  abbrev pub AllFrames : History → Type 0
  AllFrames [] = Unit
  AllFrames ((blob, counts) ∷ h) = IsFrame P blob × AllFrames h

  abbrev pub AllBlobs : List Bytes → Type 0
  AllBlobs [] = Unit
  AllBlobs (blob ∷ blobs) = IsFrame P blob × AllBlobs blobs

  abbrev pub AllBuffered : Option (List Bytes) → Type 0
  AllBuffered none = Unit
  AllBuffered (some blobs) = AllBlobs blobs

  -- All that it has been handed, and all that it buffers, is frames.
  pub record IsWhole (s : Subscriber) : Type 0 where
    pub history : History
    pub framed : AllFrames history
    pub sound : IsSound history s
    pub buffered : AllBuffered s.pre_ack_buffer

  pub AllFrames-snoc :
      (h : History) (blob : Bytes) (counts : Bool)
      → AllFrames h
      → IsFrame P blob
      → AllFrames (h ++ (blob, counts) ∷ [])
  AllFrames-snoc [] blob counts a f = (f, tt)
  AllFrames-snoc ((b, c) ∷ h) blob counts a f = (a.0, AllFrames-snoc h blob counts a.1 f)

  AllBlobs-snoc :
      (blobs : List Bytes) (blob : Bytes)
      → AllBlobs blobs
      → IsFrame P blob
      → AllBlobs (blobs ++ blob ∷ [])
  AllBlobs-snoc [] blob a f = (f, tt)
  AllBlobs-snoc (b ∷ blobs) blob a f = (a.0, AllBlobs-snoc blobs blob a.1 f)

  pub enqueue-IsWhole :
      (blob : Bytes) (counts : Bool) (s : Subscriber)
      → IsFrame P blob
      → IsWhole s
      → IsWhole (enqueue blob counts s).0
  enqueue-IsWhole blob counts s f w = record {
    history = w.history ++ (blob, counts) ∷ [];
    framed = AllFrames-snoc w.history blob counts w.framed f;
    sound = enqueue-IsSound blob counts w.history s w.sound;
    buffered =
        subst (λ (b : Option (List Bytes)). AllBuffered b)
          (ap (λ (t : Terms). t.buffer) (sym (enqueue-terms blob counts s))) w.buffered;
  }

  pub on_writable-IsWhole : (s : Subscriber) → IsWhole s → IsWhole (on_writable s)
  on_writable-IsWhole s w = record {
    history = w.history;
    framed = w.framed;
    sound = on_writable-IsSound w.history s w.sound;
    buffered =
        subst (λ (b : Option (List Bytes)). AllBuffered b)
          (ap (λ (t : Terms). t.buffer) (sym (on_writable-terms s))) w.buffered;
  }

  -- With another watermark and another buffer of frames
  pub regated-IsWhole :
      (s : Subscriber) (w : Option ℕ) (b : Option (List Bytes)) (n : ℕ)
      → IsWhole s
      → AllBuffered b
      → IsWhole (record s { replay_watermark = w; pre_ack_buffer = b; pre_ack_buffered_bytes = n })
  regated-IsWhole s w b n whole a = record {
    history = whole.history;
    framed = whole.framed;
    sound = regated-IsSound whole.history s w b n whole.sound;
    buffered = a;
  }

  pub deliver-IsWhole :
      (blob : Bytes) (s : Subscriber) → IsFrame P blob → IsWhole s → IsWhole (deliver blob s).0
  unfolding deliver
  deliver-IsWhole blob s f w = go s.pre_ack_buffer w.buffered
    where
      go :
          (o : Option (List Bytes))
          → AllBuffered o
          → IsWhole
              (elim o as (λ _. Subscriber × Bool) [
                | some buffer ↦
                    if leb pre_ack_buffer_frames (length buffer)
                      || ltb pre_ack_buffer_bytes (s.pre_ack_buffered_bytes + length blob)
                    then (s, true)
                    else (
                      record s {
                        pre_ack_buffer = some (buffer ++ blob ∷ []);
                        pre_ack_buffered_bytes = s.pre_ack_buffered_bytes + length blob;
                      },
                      false,
                    )
                | none ↦ ((enqueue blob true s).0, leb lag_limit (enqueue blob true s).0.lag_count)
              ]).0
      go none a = enqueue-IsWhole blob true s f w
      go (some buffer) a =
          elim (Bool-cases (
            leb pre_ack_buffer_frames (length buffer)
            || ltb pre_ack_buffer_bytes (s.pre_ack_buffered_bytes + length blob))) [
              | inl full ↦ rw full w
              | inr room ↦ rw room (
                  regated-IsWhole s s.replay_watermark (some (buffer ++ blob ∷ []))
                    (s.pre_ack_buffered_bytes + length blob) w (AllBlobs-snoc buffer blob a f))
            ]

  past_watermark-IsWhole :
      (o : Option ℕ) (seq : ℕ) (blob : Bytes) (s : Subscriber)
      → IsFrame P blob
      → IsWhole s
      → IsWhole (past_watermark o seq blob s).0
  unfolding past_watermark
  past_watermark-IsWhole none seq blob s f w = deliver-IsWhole blob s f w
  past_watermark-IsWhole (some v) seq blob s f w = elim (Bool-cases (leb seq v)) [
    | inl old ↦ rw old w
    | inr fresh_ ↦ rw fresh_ (
        deliver-IsWhole blob (record s { replay_watermark = none }) f
          (regated-IsWhole s none s.pre_ack_buffer s.pre_ack_buffered_bytes w w.buffered))
  ]

  pub fan_out_one-IsWhole :
      (r : Row) (blob : Bytes) (s : Subscriber)
      → IsFrame P blob
      → IsWhole s
      → IsWhole (fan_out_one r blob s).0
  unfolding fan_out_one
  fan_out_one-IsWhole r blob s f w = elim (Bool-cases (matches s r)) [
    | inl hit ↦ rw hit (past_watermark-IsWhole s.replay_watermark r.seq blob s f w)
    | inr miss ↦ rw miss w
  ]

  pub beat_one-IsWhole :
      (blob : Bytes) (s : Subscriber) → IsFrame P blob → IsWhole s → IsWhole (beat_one blob s).0
  unfolding beat_one
  beat_one-IsWhole blob s f w = enqueue-IsWhole blob false s f w

  -- What `_serialize` makes of a row is a frame.
  pub serialize-IsFrame :
      (r : Row) (blob : Bytes) → AllTexts P (r ∷ []) → serialize r ≡ ok blob → IsFrame P blob
  unfolding serialize
  serialize-IsFrame r blob t e = go (encode_frame r.event_json) refl e
    where
      go :
          (o : Result Bytes)
          → encode_frame r.event_json ≡ o
          → elim o as (λ _. Result Bytes) [ ok wire ↦ ok wire | err x ↦ encode_frame r.stub_json ]
            ≡ ok blob
          → IsFrame P blob
      go (ok wire) q e = (r.event_json, t.0.0.0, t.0.0.1, q ∙ e)
      go (err x) q e = (r.stub_json, t.0.1.0, t.0.1.1, e)
