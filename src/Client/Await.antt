-- ===== src/Client/Await.antt =====
-- The engine of waitbus/_broadcast_sub.py: what it hands to the caller.
use waitbus.Prelude.{
  ℕ, suc, String, ◌≡◌, refl, sym, ap, ◌∙◌, ◌⊎◌, inl, inr, Bool, true, false, ◌||◌, Option, none,
  some, List, [], ◌∷◌, Bool-cases, take,
}
use waitbus.Frame.{Bytes}
use waitbus.Json.{get, as_nonempty, Json, obj, Fields}
use waitbus.Client.{
  outcome_timed_out, outcome_cancelled, outcome_matched, outcome_clean_eof, outcome_framing_eof,
  is_text, kind_of, write_bookmark, advance, advance_cursor, take_frame, by_kind, read_json,
  read_answer, is_spent, turn, go_on, await_loop, Kind, drained, handed, unusable, refused, Answer,
  silent, interrupted, framing_fault, at_end, frame_bytes, Turn, Ended, returns, rejects, crashes,
  still_waiting, Options, Engine,
}

-- The frame that a turn has for the caller.
abbrev pub for_caller : Kind → Fields → Option Fields
for_caller handed frame = some frame
for_caller _ frame = none

abbrev pub frame_in : Option Json → Option Fields
frame_in (some (obj frame)) = for_caller (kind_of (get "kind" frame) frame) frame
frame_in _ = none

abbrev pub and_then : Option Fields → List Fields → List Fields
and_then none fs = fs
and_then (some f) fs = f ∷ fs

module _ (loads : Bytes → Option Json) where
  abbrev pub in_answer : Answer → Option Fields
  in_answer (frame_bytes bytes) = frame_in (loads bytes)
  in_answer _ = none

  -- The data frames of the turns, in the order of the wire.
  abbrev pub data_frames : List Turn → List Fields
  data_frames [] = []
  data_frames (t ∷ ts) = and_then (in_answer t.answer) (data_frames ts)

-- Whether a call ended by a match, or waits still.
abbrev pub is_match : Ended → Bool
is_match (returns w) = w.matched
is_match _ = false

abbrev pub is_waiting : Ended → Bool
is_waiting still_waiting = true
is_waiting _ = false

-- The cursor after frames that were all written.
abbrev pub marks : List Fields → Option (Option String) → Option (Option String)
marks [] c = c
marks (f ∷ fs) c = marks fs (elim (advance_cursor true f c) [ none ↦ c | some c' ↦ c' ])

module _ {ℓ} {D : Type ℓ} (decide : Fields → D → D × Bool) where
  -- The caller's state after it was told of frames, and whether it has matched one.
  abbrev pub told : List Fields → D → D
  told [] d = d
  told (f ∷ fs) d = told fs (decide f d).0

  abbrev pub any_match : List Fields → D → Bool
  any_match [] d = false
  any_match (f ∷ fs) d = (decide f d).1 || any_match fs (decide f d).0

  -- What one turn does: the call ends and the caller is told nothing, the turn has nothing for it, or
  -- it is told of the frame, after which the call goes on or ends by a match.
  pub data Did (e : Engine D) : Option Fields → Engine D × Option Ended → Type ℓ where
    stops :
        (o : Option Fields) (x : Ended)
        → is_match x ≡ false
        → is_waiting x ≡ false
        → Did e o (e, some x)
    passes : Did e none (e, none)
    tells :
        (f : Fields) (a : ℕ) (c : Option (Option String))
        → advance_cursor true f e.cursor ≡ some c
        → (decide f e.state).1 ≡ false
        → Did e (some f) (record { anchor = a; cursor = c; state = (decide f e.state).0 }, none)
    matches_now :
        (f : Fields) (a : ℕ) (c : Option (Option String))
        → advance_cursor true f e.cursor ≡ some c
        → (decide f e.state).1 ≡ true
        → Did e (some f) (
          record { anchor = a; cursor = c; state = (decide f e.state).0 },
          some (returns outcome_matched),
        )

write_bookmark-cases :
    (b : Bool) (last e : Option String)
    → (write_bookmark b last e ≡ write_bookmark true last e) ⊎ (write_bookmark b last e ≡ none)
unfolding write_bookmark
write_bookmark-cases b last none = inl refl
write_bookmark-cases true last (some x) = inl refl
write_bookmark-cases false last (some x) = inr refl

-- A write that fails leaves no new cursor; one that does not is the write of a writable file.
advance-cases :
    (b : Bool) (f : Fields) (last : Option String)
    → (advance b f last ≡ advance true f last) ⊎ (advance b f last ≡ none)
unfolding advance
advance-cases b f last = elim (Bool-cases (is_text "daemon_heartbeat" (get "kind" f))) [
  | inl beat ↦ inl (rw beat refl)
  | inr miss ↦ rw miss (write_bookmark-cases b last (as_nonempty (get "event_id" f)))
]

abbrev as_cursor : Option (Option String) → Option (Option (Option String))
as_cursor none = none
as_cursor (some last) = some (some last)

advance_cursor-writable :
    (b : Bool) (f : Fields) (cur : Option (Option String)) (c : Option (Option String))
    → advance_cursor b f cur ≡ some c
    → advance_cursor true f cur ≡ some c
unfolding advance_cursor
advance_cursor-writable b f none c e = e
advance_cursor-writable b f (some last) c e = elim (advance-cases b f last) [
  | inl same ↦ ap (λ o. as_cursor o) (sym same) ∙ e
  | inr failed ↦ let no : none ≡ some c = ap (λ o. as_cursor o) (sym failed) ∙ e in cc
]

marks-cons :
    (f : Fields) (fs : List Fields) (cur c : Option (Option String))
    → advance_cursor true f cur ≡ some c
    → marks (f ∷ fs) cur ≡ marks fs c
marks-cons f fs cur c q = ap (λ o. marks fs (elim o [ none ↦ cur | some c' ↦ c' ])) q

module _ {ℓ} {D : Type ℓ} (loads : Bytes → Option Json) (decide : Fields → D → D × Bool)
    (o : Options) where
  take_frame-Did :
      (t : Turn) (f : Fields) (e : Engine D) (c : Option (Option (Option String)))
      → advance_cursor t.writable f e.cursor ≡ c
      → Did decide e (some f) (take_frame loads decide o t f e c)
  unfolding take_frame
  take_frame-Did t f e none q = stops (some f) crashes refl refl
  take_frame-Did t f e (some c) q =
      let q' = advance_cursor-writable t.writable f e.cursor c q in
      elim (Bool-cases (decide f e.state).1) [
        | inl hit ↦ rw hit (matches_now f _ c q' hit)
        | inr miss ↦ rw miss (tells f _ c q' miss)
      ]

  by_kind-Did :
      (t : Turn) (f : Fields) (e : Engine D) (k : Kind)
      → Did decide e (for_caller k f) (by_kind loads decide o t f e k)
  unfolding by_kind
  by_kind-Did t f e drained = passes
  by_kind-Did t f e unusable = stops none crashes refl refl
  by_kind-Did t f e (refused r) = stops none (rejects r) refl refl
  by_kind-Did t f e handed = take_frame-Did t f e (advance_cursor t.writable f e.cursor) refl

  read_json-Did :
      (t : Turn) (e : Engine D) (j : Option Json)
      → Did decide e (frame_in j) (read_json loads decide o t e j)
  unfolding read_json
  read_json-Did t e none = passes
  read_json-Did t e (some (obj f)) = by_kind-Did t f e (kind_of (get "kind" f) f)
  read_json-Did t e (some _) = stops none crashes refl refl

  read_answer-Did :
      (t : Turn) (e : Engine D) (a : Answer)
      → Did decide e (in_answer loads a) (read_answer loads decide o t e a)
  unfolding read_answer
  read_answer-Did t e silent = stops none (returns outcome_timed_out) refl refl
  read_answer-Did t e interrupted = stops none (returns outcome_cancelled) refl refl
  read_answer-Did t e framing_fault = stops none (returns outcome_framing_eof) refl refl
  read_answer-Did t e at_end = stops none (returns outcome_clean_eof) refl refl
  read_answer-Did t e (frame_bytes bytes) = read_json-Did t e (loads bytes)

  pub turn-Did :
      (t : Turn) (e : Engine D) → Did decide e (in_answer loads t.answer) (turn loads decide o t e)
  unfolding turn
  turn-Did t e = elim (Bool-cases (is_spent loads decide o o.deadline t.now e.anchor)) [
    | inl spent ↦ rw spent (stops _ (returns outcome_timed_out) refl refl)
    | inr left ↦ rw left (read_answer-Did t e t.answer)
  ]

  -- The caller was told of the first `count` frames of `frames`, one after the other.
  pub record IsTold (frames : List Fields) (e : Engine D) (r : Engine D × Ended) : Type ℓ where
    pub count : ℕ
    pub state_eq : r.0.state ≡ told decide (take count frames) e.state
    pub cursor_eq : r.0.cursor ≡ marks (take count frames) e.cursor
    pub match_eq : is_match r.1 ≡ any_match decide (take count frames) e.state
    pub complete : is_waiting r.1 ≡ true → take count frames ≡ frames

  go_on-IsTold :
      (fs : List Fields) (e : Engine D) (f? : Option Fields) (p : Engine D × Option Ended)
      (rest : Engine D → Engine D × Ended)
      → Did decide e f? p
      → ((e' : Engine D) → IsTold fs e' (rest e'))
      → IsTold (and_then f? fs) e (go_on loads decide o p rest)
  unfolding go_on
  go_on-IsTold fs e f? p rest (stops _ x miss busy) ih = record {
    count = 0;
    state_eq = refl;
    cursor_eq = refl;
    match_eq = miss;
    complete = λ w. cc;
  }
  go_on-IsTold fs e f? p rest passes ih = ih e
  go_on-IsTold fs e f? p rest (tells f a c q miss) ih =
      let r = ih (record { anchor = a; cursor = c; state = (decide f e.state).0 }) in
      record {
        count = suc r.count;
        state_eq = r.state_eq;
        cursor_eq = r.cursor_eq ∙ sym (marks-cons f (take r.count fs) e.cursor c q);
        match_eq = rw miss r.match_eq;
        complete = λ w. ap (λ l. f ∷ l) (r.complete w);
      }
  go_on-IsTold fs e f? p rest (matches_now f a c q hit) ih = record {
    count = 1;
    state_eq = refl;
    cursor_eq = sym (marks-cons f [] e.cursor c q);
    match_eq = rw hit refl;
    complete = λ w. cc;
  }

  -- Whatever comes off the wire and however the call ends: the caller is told of the first data frames
  -- of the wire, each once and in order; the cursor stands at the last of them that has an id; the call
  -- ends by a match exactly when the caller has matched one of them; and as long as the call waits, it
  -- has been told of all.
  pub await_loop-IsTold :
      (ts : List Turn) (e : Engine D)
      → IsTold (data_frames loads ts) e (await_loop loads decide o ts e)
  unfolding await_loop
  await_loop-IsTold [] e = record {
    count = 0;
    state_eq = refl;
    cursor_eq = refl;
    match_eq = refl;
    complete = λ w. refl;
  }
  await_loop-IsTold (t ∷ ts) e =
      go_on-IsTold (data_frames loads ts) e (in_answer loads t.answer) (turn loads decide o t e)
        (λ e'. await_loop loads decide o ts e') (turn-Did t e) (λ e'. await_loop-IsTold ts e')
