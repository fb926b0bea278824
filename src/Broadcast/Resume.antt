-- ===== src/Broadcast/Resume.antt =====
-- `_replay` and the buffer after it (waitbus/broadcast.py): each row or frame is handed over once.
use waitbus.Prelude.{
  String, ◌≡◌, refl, sym, ap, ◌∙◌, subst, ◌⊎◌, inl, inr, Bool, true, false, none, some, List, [],
  ◌∷◌, ◌++◌, append-nil, append_assoc, arith, leb, if◌then◌else◌,
}
use waitbus.Frame.{Bytes, Result, ok, err}
use waitbus.Subscriber.{lag_limit, enqueue, Subscriber}
use waitbus.Subscriber.Sound.{History, IsSound}
use waitbus.Subscriber.Keeps.{enqueue-IsSound}
use waitbus.Broadcast.{serialize, matches, Row}
use waitbus.Broadcast.Handshake.{
  replay_next, replay_rows, flush_buffer, open_gate, Replay, alive, lagging, raised,
}
use waitbus.Broadcast.Feed.{
  terms, enqueue-terms, wire_of, frames, select, wants, matches-wants, Terms,
}
use waitbus.Broadcast.Live.{regated-IsSound}

-- One step of a replay that the subscriber survives.
replay_next-alive :
    (r : Row) (s s' : Subscriber) (go_on : Subscriber → Replay)
    → replay_next r s go_on ≡ alive s'
    → ((matches s r ≡ true) × (go_on (enqueue (wire_of r) true s).0 ≡ alive s'))
      ⊎ ((matches s r ≡ false) × (go_on s ≡ alive s'))
unfolding replay_next
replay_next-alive r s s' go_on h = split (matches s r) (serialize r) h
  where
    split :
        (m : Bool) (o : Result Bytes)
        → (if m
            then elim o [
              | err e ↦ raised s
              | ok blob ↦
                  if leb lag_limit (enqueue blob true s).0.lag_count
                  then lagging (enqueue blob true s).0
                  else go_on (enqueue blob true s).0
            ]
            else go_on s)
          ≡ alive s'
        → ((m ≡ true)
            × (go_on (enqueue (elim o [ err e ↦ [] | ok blob ↦ blob ]) true s).0 ≡ alive s'))
          ⊎ ((m ≡ false) × (go_on s ≡ alive s'))
    split false o h = inr (refl, h)
    split true (err e) h = cc
    split true (ok blob) h = inl (refl, ground arith)

module _ (filters types : List String) where
  pub replay_rows-alive :
      (h : History) (rows : List Row) (s s' : Subscriber)
      → IsSound h s
      → s.filters ≡ filters
      → s.event_types ≡ types
      → replay_rows rows s ≡ alive s'
      → IsSound (h ++ frames (select (wants filters types) rows)) s' × (terms s' ≡ terms s)
  unfolding replay_rows select
  replay_rows-alive h [] s s' sound f t e =
      let same : s ≡ s' = cc in
      (
        rw append-nil (subst (λ (x : Subscriber). IsSound h x) same sound),
        ap (λ (x : Subscriber). terms x) (sym same),
      )
  replay_rows-alive h (r ∷ rs) s s' sound f t e =
      elim (replay_next-alive r s s' (λ x. replay_rows rs x) e) [
        | inl (m, e') ↦
            let k = enqueue-terms (wire_of r) true s in
            let wanted : wants filters types r ≡ true =
              rw (← f, ← t) (sym (matches-wants s r) ∙ m) in
            let (later, kept) =
              replay_rows-alive (h ++ (wire_of r, true) ∷ []) rs (enqueue (wire_of r) true s).0 s'
                (enqueue-IsSound (wire_of r) true h s sound) (ap (λ (x : Terms). x.filters) k ∙ f)
                (ap (λ (x : Terms). x.event_types) k ∙ t) e' in
            (rw wanted (rw append_assoc at later), kept ∙ k)
        | inr (m, e') ↦
            let unwanted : wants filters types r ≡ false =
              rw (← f, ← t) (sym (matches-wants s r) ∙ m) in
            rw unwanted (replay_rows-alive h rs s s' sound f t e')
      ]

abbrev pub counted_frames : List Bytes → History
counted_frames [] = []
counted_frames (b ∷ bs) = (b, true) ∷ counted_frames bs

flush_buffer-done :
    (h : History) (blobs : List Bytes) (s s' : Subscriber)
    → IsSound h s
    → flush_buffer blobs s ≡ (s', false)
    → IsSound (h ++ counted_frames blobs) s' × (terms s' ≡ terms s)
unfolding flush_buffer
flush_buffer-done h [] s s' sound e =
    let same : s ≡ s' = ap (λ (p : Subscriber × Bool). p.0) e in
    (
      rw append-nil (subst (λ (x : Subscriber). IsSound h x) same sound),
      ap (λ (x : Subscriber). terms x) (sym same),
    )
flush_buffer-done h (b ∷ bs) s s' sound e =
    let rest : flush_buffer bs (enqueue b true s).0 ≡ (s', false) = ground arith in
    let (later, kept) =
      flush_buffer-done (h ++ (b, true) ∷ []) bs (enqueue b true s).0 s'
        (enqueue-IsSound b true h s sound) rest in
    (rw append_assoc at later, kept ∙ enqueue-terms b true s)

pub open_gate-done :
    (h : History) (blobs : List Bytes) (s s' : Subscriber)
    → IsSound h s
    → s.pre_ack_buffer ≡ some blobs
    → open_gate s ≡ (s', false)
    → IsSound (h ++ counted_frames blobs) s'
      × (terms s' ≡ record {
        filters = s.filters;
        event_types = s.event_types;
        watermark = s.replay_watermark;
        buffer = none;
      })
unfolding open_gate
open_gate-done h blobs s s' sound e o =
    flush_buffer-done h blobs (record s { pre_ack_buffer = none; pre_ack_buffered_bytes = 0 }) s'
      (regated-IsSound h s s.replay_watermark none 0 sound) (rw e at o)
