-- ===== src/Broadcast/Tasks/Tests.antt =====
-- A run of the tasks of waitbus/broadcast.py's `Broadcast`.
use waitbus.Prelude.{ℕ, ◌<◌, String, ◌≡◌, refl, true, false, some, List, [], ◌∷◌, arith}
use waitbus.Frame.{Bytes, pack, encode_frame}
use waitbus.Subscriber.{Send, accepts, would_block}
use waitbus.Broadcast.{
  current_max_snapshot, find, close_all, heartbeat, broadcast_pass, Row, shutdown,
}
use waitbus.Broadcast.Handshake.{registered, register, send_ack, Request}
use waitbus.Broadcast.Tasks.{
  on_daemon, accepted_world, acknowledged_world, finished_world, IsFrame, AllTexts, AcksFit,
  AllSubs, Pending, EventLoop, accept, acknowledge, finish, sweep, beat, shut, Reach, here, next,
}
use waitbus.Broadcast.Tasks.Reads.{idle_world, Reach-ReadsFrames, ReadsFrames}

abbrev Sent : Bytes → Type 0
Sent payload = Unit

abbrev refusal : Bytes
refusal = 0 ∷ 0 ∷ 0 ∷ 1 ∷ 82 ∷ []

abbrev ack : Bytes
ack = 0 ∷ 0 ∷ 0 ∷ 1 ∷ 65 ∷ []

abbrev row : ℕ → String → ℕ → Row
row seq id byte = record {
  seq = seq;
  event_id = some id;
  owner = "octo";
  repo = "hello";
  event_type = "push";
  event_json = byte ∷ [];
  stub_json = 0 ∷ [];
}

abbrev table : List Row
table = row 1 "a" 11 ∷ row 2 "b" 12 ∷ []

abbrev request : Request
request = record { filters = "octo/*" ∷ []; event_types = "push" ∷ []; since = some "a" }

abbrev kernel : List Send
kernel = would_block ∷ accepts 9 ∷ accepts 3 ∷ accepts 100 ∷ []

abbrev start : EventLoop
start = idle_world refusal 2

abbrev accepted_client : EventLoop
accepted_client = accepted_world 5 kernel true 1000 table request ack start

abbrev waiting : Pending
waiting = record { rest = ack; request = request; until_seq = some 2 }

-- The kernel takes nothing of the acknowledgement, and then all of it.
abbrev blocked_client : EventLoop
blocked_client = acknowledged_world 5 waiting accepted_client

abbrev acked_client : EventLoop
acked_client = acknowledged_world 5 waiting blocked_client

-- A heartbeat comes before the handshake goes on.
abbrev beaten_client : EventLoop
beaten_client = on_daemon (λ d. heartbeat (0 ∷ 0 ∷ 0 ∷ 1 ∷ 72 ∷ []) d) acked_client

abbrev acknowledged : Pending
acknowledged = record { rest = []; request = request; until_seq = some 2 }

abbrev finished_client : EventLoop
finished_client = finished_world 5 acknowledged table false beaten_client

abbrev swept_client : EventLoop
swept_client = on_daemon (λ d. (broadcast_pass table d).0) finished_client

abbrev last_world : EventLoop
last_world = on_daemon (λ d. close_all (5 ∷ []) shutdown d) swept_client

texts : AllTexts Sent table
texts =
    let some_byte : 0 < 1 = omega arith in
    (((tt, some_byte), (tt, some_byte)), (((tt, some_byte), (tt, some_byte)), tt))

sent-IsFrame : (byte : ℕ) → IsFrame Sent (0 ∷ 0 ∷ 0 ∷ 1 ∷ byte ∷ [])
unfolding pack encode_frame
sent-IsFrame byte = (byte ∷ [], tt, omega arith, refl)

pending_first : accepted_client.pending 5 ≡ some waiting
unfolding registered current_max_snapshot
pending_first = refl

pending_again : blocked_client.pending 5 ≡ some waiting
unfolding registered register find send_ack
pending_again = refl

pending_last : beaten_client.pending 5 ≡ some acknowledged
unfolding registered register find send_ack
pending_last = refl

-- Accepted, acknowledged at the second attempt, beaten, served a replay, swept and closed.
abbrev run : Reach Sent start last_world
run =
    let one = next here (accept start 5 kernel true 1000 table request ack tt (sent-IsFrame 65)) in
    let two = next one (acknowledge accepted_client 5 waiting pending_first (omega arith)) in
    let three = next two (acknowledge blocked_client 5 waiting pending_again (omega arith)) in
    let four = next three (beat acked_client (0 ∷ 0 ∷ 0 ∷ 1 ∷ 72 ∷ []) (sent-IsFrame 72)) in
    let five =
      next four (finish beaten_client 5 acknowledged table false pending_last refl texts) in
    let six = next five (sweep finished_client table texts) in next six (shut swept_client (5 ∷ []))

run_fits : AcksFit Sent run
unfolding registered register find send_ack
run_fits = ((((((((tt, tt), tt), (refl, refl)), tt), tt), tt), tt))

Reach-ReadsFrames_example :
    AllSubs (λ s. ReadsFrames Sent s.sock.sent) last_world.daemon.subscribers
    × AllSubs (λ s. ReadsFrames Sent s.sock.sent) last_world.daemon.closed
Reach-ReadsFrames_example = Reach-ReadsFrames Sent refusal 2 (sent-IsFrame 82) run run_fits
