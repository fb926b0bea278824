-- ===== src/Messaging/Passed.antt =====
-- waitbus/_messaging.py: what a waiting request passes by on the wire, the acknowledgement of its
-- subscription first.
use waitbus.Prelude.{
  ℕ, String, ◌≡◌, refl, ap, inl, inr, Bool, true, false, not, Option, none, some, List, [], ◌∷◌,
  ◌++◌, Bool-cases,
}
use waitbus.Frame.{Bytes}
use waitbus.Json.{get, Json, obj, Fields}
use waitbus.Client.{
  kind_of, advance_cursor, take_frame, by_kind, read_json, read_answer, turn, go_on, await_loop,
  at_entry, await_predicate, Kind, drained, handed, unusable, refused, Answer, silent, interrupted,
  framing_fault, at_end, frame_bytes, Turn, Ended, Options, Engine,
}
use waitbus.Emit.{Event, Table}
use waitbus.Messaging.{reply_decide, reply_of, await_reply}
use waitbus.Messaging.Captured.{answers}

module _ (correlation_id sender : String) (loads : Bytes → Option Json) where
  abbrev by_frame : Fields → Kind → Bool
  by_frame frame drained = true
  by_frame frame handed = not (answers correlation_id sender frame)
  by_frame frame _ = false

  abbrev by_json : Option Json → Bool
  by_json none = true
  by_json (some (obj frame)) = by_frame frame (kind_of (get "kind" frame) frame)
  by_json (some _) = false

  abbrev passed : Answer → Bool
  passed (frame_bytes bytes) = by_json (loads bytes)
  passed _ = false

  -- Control frames, frames that cannot be decoded, and data frames that do not answer the request
  abbrev pub AllPassed : List Turn → Type 0
  AllPassed [] = Unit
  AllPassed (t ∷ ts) = (passed t.answer ≡ true) × AllPassed ts

  abbrev forever : Options
  forever = record { deadline = none; idle_reset = false }

  abbrev waiting : ℕ → Engine (List Fields)
  waiting start = record { anchor = start; cursor = none; state = [] }

  by_kind-passed :
      (t : Turn) (start : ℕ) (frame : Fields) (k : Kind)
      → by_frame frame k ≡ true
      → by_kind loads (reply_decide correlation_id sender) forever t frame (waiting start) k
        ≡ (waiting start, none)
  unfolding by_kind take_frame advance_cursor reply_decide
  by_kind-passed t start frame drained h = refl
  by_kind-passed t start frame handed h = elim (Bool-cases (answers correlation_id sender frame)) [
    | inl reply ↦ let h' = (rw reply at h) in cc
    | inr other ↦ rw other refl
  ]
  by_kind-passed t start frame unusable h = cc
  by_kind-passed t start frame (refused r) h = cc

  turn-passed :
      (t : Turn) (start : ℕ)
      → passed t.answer ≡ true
      → turn loads (reply_decide correlation_id sender) forever t (waiting start)
        ≡ (waiting start, none)
  unfolding turn read_answer read_json
  turn-passed t start h = go t.answer h
    where
      by_loaded :
          (o : Option Json)
          → by_json o ≡ true
          → read_json loads (reply_decide correlation_id sender) forever t (waiting start) o
            ≡ (waiting start, none)
      by_loaded none h = refl
      by_loaded (some (obj frame)) h =
          by_kind-passed t start frame (kind_of (get "kind" frame) frame) h
      by_loaded (some _) h = cc

      go :
          (a : Answer)
          → passed a ≡ true
          → read_answer loads (reply_decide correlation_id sender) forever t (waiting start) a
            ≡ (waiting start, none)
      go (frame_bytes bytes) h = by_loaded (loads bytes) h
      go silent h = cc
      go interrupted h = cc
      go framing_fault h = cc
      go at_end h = cc

  await_loop-passed :
      (pre ts : List Turn) (start : ℕ)
      → AllPassed pre
      → await_loop loads (reply_decide correlation_id sender) forever (pre ++ ts) (waiting start)
        ≡ await_loop loads (reply_decide correlation_id sender) forever ts (waiting start)
  unfolding await_loop go_on
  await_loop-passed [] ts start h = refl
  await_loop-passed (t ∷ pre) ts start h =
      rw (turn-passed t start h.0) (await_loop-passed pre ts start h.1)

  pub await_reply-passed :
      (convert : Fields → Option Fields) (summary : Event → String) (pre ts : List Turn) (start : ℕ)
      (t : Table)
      → AllPassed pre
      → await_reply loads convert summary correlation_id sender none start (pre ++ ts) t
        ≡ await_reply loads convert summary correlation_id sender none start ts t
  unfolding await_reply await_predicate at_entry
  await_reply-passed convert summary pre ts start t h =
      ap (λ (r : Engine (List Fields) × Ended). reply_of loads convert summary t r.0.state r.1)
        (await_loop-passed pre ts start h)
