-- ===== src/Client/Tests.antt =====
-- Runs of the model of waitbus/_broadcast_sub.py.
use waitbus.Prelude.{
  ℕ, ◌+◌, String, ◌≡◌, refl, inl, inr, Bool, true, false, Option, none, some, List, [], ◌∷◌, ◌++◌,
  arith, ◌==◌, if◌then◌else◌, take,
}
use waitbus.Frame.{
  Bytes, pack, unpack, encode_frame, read_exactly, sync_read_frame, connection_error, ok, gives,
}
use waitbus.Frame.Loop.{sock}
use waitbus.Json.{Json, str, obj, Fields, end, field}
use waitbus.Client.{
  outcome_timed_out, outcome_matched, kind_of, await_loop, await_predicate, emit_predicate,
  ack_verdict, ack_read, read_subscribe_ack, frame_bytes, Turn, returns, Options, Engine, escapes,
}
use waitbus.Client.Await.{data_frames, is_waiting, await_loop-IsTold, IsTold}
use waitbus.Client.Ends.{IsTerminalEnd, await_predicate-IsTerminalEnd}
use waitbus.Client.Deadline.{IsDrained, await_loop-quiet, await_predicate-ends}
use waitbus.Client.Barrier.{read_subscribe_ack-cut}

abbrev heartbeat : Fields
heartbeat = field "kind" (str "daemon_heartbeat") end

abbrev ack : Fields
ack = field "kind" (str "subscribe_ack") end

abbrev event : String → Fields
event id = field "kind" (str "event") (field "event_id" (str id) end)

-- Bytes as a decoder may read them
unfoldable some_loads : Bytes → Option Json
some_loads (b ∷ []) =
    if b == 1
    then some (obj heartbeat)
    else if b == 2
    then some (obj (event "a"))
    else if b == 3
    then some (obj (event "b"))
    else if b == 4
    then some (obj ack)
    else none
some_loads _ = none

-- Count the frames, and match at the second.
unfoldable second : Fields → ℕ × ℕ → (ℕ × ℕ) × Bool
second = emit_predicate (λ f n. n + 1) (some 2)

abbrev at_clock : ℕ → ℕ → Turn
at_clock n byte = record { now = n; answer = frame_bytes (byte ∷ []); writable = true; after = n }

abbrev wire : List Turn
wire = at_clock 1 4 ∷ at_clock 2 2 ∷ at_clock 3 1 ∷ at_clock 4 9 ∷ at_clock 5 3 ∷ at_clock 6 2 ∷ []

abbrev forever : Options
forever = record { deadline = none; idle_reset = false }

abbrev start : Engine (ℕ × ℕ)
start = record { anchor = 0; cursor = some none; state = (0, 0) }

-- The second event ends the call, and the cursor stands there.
second_matches :
    await_loop some_loads second forever wire start
    ≡ (record { anchor = 0; cursor = some (some "b"); state = (2, 2) }, returns outcome_matched)
unfolding await_loop second some_loads emit_predicate
second_matches = refl

await_loop-IsTold_example :
    IsTold some_loads second forever
      (data_frames some_loads wire)
      start
      (await_loop some_loads second forever wire start)
await_loop-IsTold_example = await_loop-IsTold some_loads second forever wire start

await_predicate-IsTerminalEnd_example :
    IsTerminalEnd (await_predicate some_loads second forever 0 wire (some none) (0, 0)).1
await_predicate-IsTerminalEnd_example =
    await_predicate-IsTerminalEnd some_loads second forever 0 wire (some none) (0, 0)

abbrev beats : List Turn
beats = at_clock 1 1 ∷ at_clock 4 9 ∷ at_clock 7 1 ∷ []

beat-IsDrained : IsDrained some_loads (at_clock 1 1)
unfolding some_loads kind_of
beat-IsDrained = (1 ∷ [], refl, refl)

noise-IsDrained : IsDrained some_loads (at_clock 4 9)
unfolding some_loads
noise-IsDrained = (9 ∷ [], refl, tt)

await_loop-quiet_example :
    await_loop some_loads second (record { deadline = some 5; idle_reset = true }) beats start
    ≡ (start, returns outcome_timed_out)
await_loop-quiet_example =
    await_loop-quiet some_loads second 5 true beats start
      (inr (beat-IsDrained, inr (noise-IsDrained, inl (omega arith))))

await_predicate-ends_example :
    is_waiting
      (await_predicate some_loads second
        (record { deadline = some 3; idle_reset = false })
        0
        wire
        (some none)
        (0, 0)).1
    ≡ false
await_predicate-ends_example =
    await_predicate-ends some_loads second 3 0 wire (some none) (0, 0)
      (inr (inr (inl (omega arith))))

abbrev ack_wire : Bytes
ack_wire = 0 ∷ 0 ∷ 0 ∷ 1 ∷ 4 ∷ []

encode_ack : encode_frame (4 ∷ []) ≡ ok ack_wire
unfolding encode_frame pack
encode_ack = refl

-- The barrier reads the acknowledgement, in chunks, and nothing behind it.
ack_is_read :
    (read_subscribe_ack some_loads (sock (ack_wire ++ 7 ∷ []) (gives 2 ∷ []))).0
    ≡ ack_verdict (some_loads (4 ∷ []))
unfolding read_subscribe_ack ack_read ack_verdict sync_read_frame some_loads read_exactly unpack
ack_is_read = refl

read_subscribe_ack-cut_example :
    (read_subscribe_ack some_loads (sock (take 3 ack_wire) [])).0 ≡ escapes connection_error
read_subscribe_ack-cut_example =
    read_subscribe_ack-cut some_loads (4 ∷ []) ack_wire 2 [] tt encode_ack (omega arith)
      (omega arith)
