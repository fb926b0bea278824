-- ===== src/Broadcast/Turns.antt =====
-- What reaches a subscriber of waitbus/broadcast.py after its handshake: rows, heartbeats and the
-- writability of its socket, in any order.
use waitbus.Prelude.{
  ℕ, String, ◌≡◌, refl, sym, ap, ◌∙◌, subst, inl, inr, Bool, true, false, Option, none, some, List,
  [], ◌∷◌, ◌++◌, append-nil, append_assoc, leb, if◌then◌else◌, Bool-cases,
}
use waitbus.Frame.{Bytes}
use waitbus.Subscriber.{lag_limit, enqueue, on_writable, Subscriber}
use waitbus.Subscriber.Sound.{History, IsSound}
use waitbus.Subscriber.Keeps.{enqueue-IsSound}
use waitbus.Subscriber.Drain.{on_writable-IsSound}
use waitbus.Broadcast.{fan_out_one, beat_one, Row}
use waitbus.Broadcast.Feed.{
  feed, terms, enqueue-terms, wire_of, frames, select, due, Watch, Ascending, feed-cons, feed-nil,
  Terms,
}
use waitbus.Broadcast.Live.{step, after_row, IsOpen, Stepped}
use waitbus.Broadcast.Tasks.Whole.{on_writable-terms}

pub data Happening : Type 0 where
  row_swept : Row → Happening
  beaten : Bytes → Happening
  made_writable : Happening

abbrev pub rows_of : List Happening → List Row
rows_of [] = []
rows_of (row_swept r ∷ ts) = r ∷ rows_of ts
rows_of (beaten blob ∷ ts) = rows_of ts
rows_of (made_writable ∷ ts) = rows_of ts

abbrev pub heartbeats_of : List Happening → History
heartbeats_of [] = []
heartbeats_of (row_swept r ∷ ts) = heartbeats_of ts
heartbeats_of (beaten blob ∷ ts) = (blob, false) ∷ heartbeats_of ts
heartbeats_of (made_writable ∷ ts) = heartbeats_of ts

-- The turns of one subscriber; `none` when it is dropped, or a pass ends by an exception.
unfoldable pub lives : List Happening → Subscriber → Option Subscriber
unfolding feed beat_one on_writable
lives [] s = some s
lives (row_swept r ∷ ts) s = elim (feed (r ∷ []) s) [ none ↦ none | some t ↦ lives ts t ]
lives (beaten blob ∷ ts) s =
    let (t, dropped) = beat_one blob s in let later = lives ts t in if dropped then none else later
lives (made_writable ∷ ts) s = lives ts (on_writable s)

-- The frames handed over, of rows and of heartbeats
abbrev pub handed_by : (Row → Bool) → List Happening → History
handed_by p [] = []
handed_by p (row_swept r ∷ ts) = after_row (p r) r ++ handed_by p ts
handed_by p (beaten blob ∷ ts) = (blob, false) ∷ handed_by p ts
handed_by p (made_writable ∷ ts) = handed_by p ts

-- Of the frames handed over, those that count as delivered, or those that do not
abbrev pub only_by : Bool → History → History
only_by b [] = []
only_by true ((blob, true) ∷ h) = (blob, true) ∷ only_by true h
only_by true ((blob, false) ∷ h) = only_by true h
only_by false ((blob, true) ∷ h) = only_by false h
only_by false ((blob, false) ∷ h) = (blob, false) ∷ only_by false h

pub only_by-append : (b : Bool) (h h' : History) → only_by b (h ++ h') ≡ only_by b h ++ only_by b h'
only_by-append true [] h' = refl
only_by-append false [] h' = refl
only_by-append true ((blob, true) ∷ h) h' = ap (λ l. (blob, true) ∷ l) (only_by-append true h h')
only_by-append true ((blob, false) ∷ h) h' = only_by-append true h h'
only_by-append false ((blob, true) ∷ h) h' = only_by-append false h h'
only_by-append false ((blob, false) ∷ h) h' =
    ap (λ l. (blob, false) ∷ l) (only_by-append false h h')

pub only_by-frames : (rows : List Row) → only_by true (frames rows) ≡ frames rows
only_by-frames [] = refl
only_by-frames (r ∷ rs) = ap (λ l. (wire_of r, true) ∷ l) (only_by-frames rs)

pub only_others-frames : (rows : List Row) → only_by false (frames rows) ≡ []
only_others-frames [] = refl
only_others-frames (r ∷ rs) = only_others-frames rs

module _ (p : Row → Bool) where
  pub only_by-handed_by :
      (ts : List Happening) → only_by true (handed_by p ts) ≡ frames (select p (rows_of ts))
  unfolding select
  only_by-handed_by [] = refl
  only_by-handed_by (row_swept r ∷ ts) = elim (Bool-cases (p r)) [
    | inl hit ↦ rw hit (ap (λ l. (wire_of r, true) ∷ l) (only_by-handed_by ts))
    | inr miss ↦ rw miss (only_by-handed_by ts)
  ]
  only_by-handed_by (beaten blob ∷ ts) = only_by-handed_by ts
  only_by-handed_by (made_writable ∷ ts) = only_by-handed_by ts

  pub only_others-handed_by :
      (ts : List Happening) → only_by false (handed_by p ts) ≡ heartbeats_of ts
  only_others-handed_by [] = refl
  only_others-handed_by (row_swept r ∷ ts) = elim (Bool-cases (p r)) [
    | inl hit ↦ rw hit (only_others-handed_by ts)
    | inr miss ↦ rw miss (only_others-handed_by ts)
  ]
  only_others-handed_by (beaten blob ∷ ts) = ap (λ l. (blob, false) ∷ l) (only_others-handed_by ts)
  only_others-handed_by (made_writable ∷ ts) = only_others-handed_by ts

module _ (filters types : List String) (w : ℕ) where
  -- With the same terms, a subscriber stays open.
  same_terms-IsOpen :
      (s t : Subscriber) → terms t ≡ terms s → IsOpen filters types s → IsOpen filters types t
  same_terms-IsOpen s t e o = record {
    filters_eq = ap (λ (x : Terms). x.filters) e ∙ o.filters_eq;
    types_eq = ap (λ (x : Terms). x.event_types) e ∙ o.types_eq;
    buffer_eq = ap (λ (x : Terms). x.buffer) e ∙ o.buffer_eq;
  }

  same_terms-Watch :
      (s t : Subscriber) (rows : List Row)
      → terms t ≡ terms s
      → Watch w s.replay_watermark rows
      → Watch w t.replay_watermark rows
  same_terms-Watch s t rows e a =
      subst (λ (o : Option ℕ). Watch w o rows) (sym (ap (λ (x : Terms). x.watermark) e)) a

  -- All turns of a subscriber that is past its handshake.
  pub lives-open :
      (h : History) (ts : List Happening) (s s' : Subscriber)
      → IsSound h s
      → IsOpen filters types s
      → Watch w s.replay_watermark (rows_of ts)
      → Ascending (rows_of ts)
      → lives ts s ≡ some s'
      → IsSound (h ++ handed_by (due filters types w) ts) s'
  unfolding lives beat_one
  lives-open h [] s s' sound o a asc e =
      let same : s ≡ s' = cc in rw append-nil (subst (λ (x : Subscriber). IsSound h x) same sound)
  lives-open h (row_swept r ∷ ts) s s' sound o a asc e =
      go (λ h' t. lives-open h' ts t s') (feed (r ∷ []) s) refl e
    where
      IsNext : Type 0
      IsNext =
          (h' : History) (t : Subscriber)
          → IsSound h' t
          → IsOpen filters types t
          → Watch w t.replay_watermark (rows_of ts)
          → Ascending (rows_of ts)
          → lives ts t ≡ some s'
          → IsSound (h' ++ handed_by (due filters types w) ts) s'

      go :
          IsNext
          → (u : Option Subscriber) → feed (r ∷ []) s ≡ u
          → elim u as (λ _. Option Subscriber) [ none ↦ none | some t ↦ lives ts t ] ≡ some s'
          → IsSound
              (h ++ (after_row (due filters types w r) r ++ handed_by (due filters types w) ts))
              s'
      go ih none f e' = cc
      go ih (some t) f e' =
          let same : (fan_out_one r (wire_of r) s).0 ≡ t = feed-nil _ t (feed-cons r [] s t f).1 in
          let st =
            subst (λ (x : Subscriber). Stepped filters types w h r (rows_of ts) x) same
              (step filters types w h r (rows_of ts) s sound o a asc.0) in
          subst (λ (x : History). IsSound x s')
            (append_assoc h (after_row (due filters types w r) r)
              (handed_by (due filters types w) ts))
            (ih (h ++ after_row (due filters types w r) r) t st.sound st.opened st.watch asc.1 e')
  lives-open h (beaten blob ∷ ts) s s' sound o a asc e =
      let t = (enqueue blob false s).0 in
      let same = enqueue-terms blob false s in
      elim (Bool-cases (leb lag_limit t.lag_count)) [
        | inl full ↦ let e' = (rw full at e) in cc
        | inr kept ↦
            subst (λ (x : History). IsSound x s')
              (append_assoc h ((blob, false) ∷ []) (handed_by (due filters types w) ts))
              (lives-open (h ++ (blob, false) ∷ []) ts t s' (enqueue-IsSound blob false h s sound)
                (same_terms-IsOpen s t same o) (same_terms-Watch s t (rows_of ts) same a) asc
                (rw kept at e))
      ]
  lives-open h (made_writable ∷ ts) s s' sound o a asc e =
      lives-open h ts (on_writable s) s' (on_writable-IsSound h s sound)
        (same_terms-IsOpen s (on_writable s) (on_writable-terms s) o)
        (same_terms-Watch s (on_writable s) (rows_of ts) (on_writable-terms s) a) asc e
