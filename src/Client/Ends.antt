-- ===== src/Client/Ends.antt =====
-- What the engine of waitbus/_broadcast_sub.py returns.
use waitbus.Prelude.{
  ℕ, ◌+◌, String, ◌≡◌, refl, inl, inr, Bool, true, Option, none, some, List, [], ◌∷◌, ◌==◌,
  if◌then◌else◌, Bool-cases,
}
use waitbus.Frame.{Bytes}
use waitbus.Json.{get, Json, obj, Fields}
use waitbus.Client.{
  kind_of, advance_cursor, take_frame, by_kind, read_json, read_answer, is_spent, turn, go_on,
  await_loop, at_entry, await_predicate, WaitOutcome, Kind, drained, handed, unusable, refused,
  Answer, silent, interrupted, framing_fault, at_end, frame_bytes, Turn, Ended, returns, Options,
  Engine,
}

abbrev pub flag : Bool → ℕ
flag b = if b then 1 else 0

-- Exactly one of the four, and a framing error only with a closed peer.
abbrev pub IsTerminal : WaitOutcome → Type 0
IsTerminal w =
    (flag w.matched + flag w.timed_out + flag w.cancelled + flag w.peer_closed ≡ 1)
    × (w.framing_error ≡ true → w.peer_closed ≡ true)

abbrev pub IsTerminalEnd : Ended → Type 0
IsTerminalEnd (returns w) = IsTerminal w
IsTerminalEnd _ = Unit

abbrev IsTerminalStep : Option Ended → Type 0
IsTerminalStep none = Unit
IsTerminalStep (some x) = IsTerminalEnd x

module _ {ℓ} {D : Type ℓ} (loads : Bytes → Option Json) (decide : Fields → D → D × Bool) where
  module _ (o : Options) where
    take_frame-terminal :
        (t : Turn) (f : Fields) (e : Engine D) (c : Option (Option (Option String)))
        → IsTerminalStep (take_frame loads decide o t f e c).1
    unfolding take_frame
    take_frame-terminal t f e none = tt
    take_frame-terminal t f e (some c) = elim (Bool-cases (decide f e.state).1) [
      | inl hit ↦ rw hit (refl, λ q. cc)
      | inr miss ↦ rw miss tt
    ]

    by_kind-terminal :
        (t : Turn) (f : Fields) (e : Engine D) (k : Kind)
        → IsTerminalStep (by_kind loads decide o t f e k).1
    unfolding by_kind
    by_kind-terminal t f e drained = tt
    by_kind-terminal t f e unusable = tt
    by_kind-terminal t f e (refused r) = tt
    by_kind-terminal t f e handed = take_frame-terminal t f e (advance_cursor t.writable f e.cursor)

    read_json-terminal :
        (t : Turn) (e : Engine D) (j : Option Json)
        → IsTerminalStep (read_json loads decide o t e j).1
    unfolding read_json
    read_json-terminal t e none = tt
    read_json-terminal t e (some (obj f)) = by_kind-terminal t f e (kind_of (get "kind" f) f)
    read_json-terminal t e (some _) = tt

    read_answer-terminal :
        (t : Turn) (e : Engine D) (a : Answer) → IsTerminalStep (read_answer loads decide o t e a).1
    unfolding read_answer
    read_answer-terminal t e silent = (refl, λ q. cc)
    read_answer-terminal t e interrupted = (refl, λ q. cc)
    read_answer-terminal t e framing_fault = (refl, λ q. refl)
    read_answer-terminal t e at_end = (refl, λ q. refl)
    read_answer-terminal t e (frame_bytes bytes) = read_json-terminal t e (loads bytes)

    turn-terminal : (t : Turn) (e : Engine D) → IsTerminalStep (turn loads decide o t e).1
    unfolding turn
    turn-terminal t e = elim (Bool-cases (is_spent loads decide o o.deadline t.now e.anchor)) [
      | inl spent ↦ rw spent (refl, λ q. cc)
      | inr left ↦ rw left (read_answer-terminal t e t.answer)
    ]

    go_on-terminal :
        (p : Engine D × Option Ended) (rest : Engine D → Engine D × Ended)
        → IsTerminalStep p.1
        → ((e : Engine D) → IsTerminalEnd (rest e).1)
        → IsTerminalEnd (go_on loads decide o p rest).1
    unfolding go_on
    go_on-terminal (e, none) rest h ih = ih e
    go_on-terminal (e, some x) rest h ih = h

    await_loop-terminal :
        (ts : List Turn) (e : Engine D) → IsTerminalEnd (await_loop loads decide o ts e).1
    unfolding await_loop
    await_loop-terminal [] e = tt
    await_loop-terminal (t ∷ ts) e =
        go_on-terminal (turn loads decide o t e) (λ e'. await_loop loads decide o ts e')
          (turn-terminal t e) (λ e'. await_loop-terminal ts e')

    at_entry-terminal :
        (d : Option ℕ) (ts : List Turn) (e : Engine D)
        → IsTerminalEnd (at_entry loads decide o d ts e).1
    unfolding at_entry
    at_entry-terminal none ts e = await_loop-terminal ts e
    at_entry-terminal (some d) ts e = elim (Bool-cases (d == 0)) [
      | inl zero_ ↦ rw zero_ (refl, λ q. cc)
      | inr pos_ ↦ rw pos_ (await_loop-terminal ts e)
    ]

    -- Whenever the engine returns, exactly one of matched, timed_out, cancelled and peer_closed holds, and
    -- a framing error only together with peer_closed.
    pub await_predicate-IsTerminalEnd :
        (start : ℕ) (ts : List Turn) (cursor : Option (Option String)) (state : D)
        → IsTerminalEnd (await_predicate loads decide o start ts cursor state).1
    unfolding await_predicate
    await_predicate-IsTerminalEnd start ts cursor state = at_entry-terminal o.deadline ts _
