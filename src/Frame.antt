-- ===== src/Frame.antt =====
-- waitbus/_frame.py: 4-byte big-endian length-prefix framing over a byte stream.
-- A byte is a number below 256. A socket is the bytes that the peer has sent and not yet been read
-- (then end of file), with what the kernel answers to the calls of `recv` to come.
pub mod Loop
pub mod RoundTrip
pub mod Cut
pub mod Tests
use waitbus.Prelude.{
  ℕ, zero, suc, ◌+◌, ◌-◌, ◌*◌, ◌/◌, ◌%◌, ◌^◌, min, max, ◌⊎◌, inl, inr, Bool, true, ◌||◌, Option,
  none, some, List, [], ◌∷◌, ◌++◌, ltb, ◌==◌, if◌then◌else◌, length, take, drop,
}

abbrev pub Bytes : Type 0
Bytes = List ℕ

abbrev pub max_frame_bytes : ℕ
max_frame_bytes = 65536

abbrev pub length_prefix_bytes : ℕ
length_prefix_bytes = 4

-- `ConnectionError`, the socket's `TimeoutError`, and `FrameTooLargeError`. `out_of_fuel` is the
-- model's own.
pub data FrameError : Type 0 where
  connection_error timeout_error frame_too_large out_of_fuel : FrameError

pub data Result {ℓ} (A : Type ℓ) : Type ℓ where
  ok : A → Result A
  err : FrameError → Result A

-- `struct.Struct(">I")`
unfoldable pub pack : ℕ → Bytes
pack n = (n / 2 ^ 24) % 256 ∷ (n / 2 ^ 16) % 256 ∷ (n / 2 ^ 8) % 256 ∷ n % 256 ∷ []

unfoldable pub unpack : Bytes → ℕ
unpack (a ∷ b ∷ c ∷ d ∷ []) = a * 2 ^ 24 + b * 2 ^ 16 + c * 2 ^ 8 + d
unpack _ = 0

unfoldable pub encode_frame : Bytes → Result Bytes
encode_frame payload =
    if ltb max_frame_bytes (length payload)
    then err frame_too_large
    else ok (pack (length payload) ++ payload)

-- What the kernel answers to one `recv(n)` when bytes are there: it gives at most so many of them
-- (at least one), the receive timeout elapses first, or the connection is reset.
pub data Recv : Type 0 where
  gives : ℕ → Recv
  times_out resets : Recv

pub record Sock : Type 0 where
  pub stream : Bytes
  pub answers : List Recv

-- `b""` is end of file. After the listed answers the kernel gives all that is asked for and there.
unfoldable pub recv : ℕ → Sock → Result Bytes × Sock
recv n s = elim s.answers [
  | [] ↦ (ok (take n s.stream), record s { stream = drop n s.stream })
  | a ∷ rest ↦ elim a [
    | gives k ↦
        let m = min n (max 1 k) in
        (ok (take m s.stream), record { stream = drop m s.stream; answers = rest })
    | times_out ↦ (err timeout_error, record s { answers = rest })
    | resets ↦ (err connection_error, record s { answers = rest })
  ]
]

-- The end of the stream: `None` before the first byte of a frame, an error after it.
pub at_eof : Bytes → Result (Option Bytes)
at_eof [] = ok none
at_eof (b ∷ buf) = err connection_error

-- One round of the loop: what `recv` answered, then the rest of the loop `k`.
unfoldable pub one_round :
    Bytes
    → Result Bytes × Sock
    → (Bytes → Sock → Result (Option Bytes) × Sock)
    → Result (Option Bytes) × Sock
unfolding at_eof
one_round buf (err e, s) k = (err e, s)
one_round buf (ok [], s) k = (at_eof buf, s)
one_round buf (ok (b ∷ chunk), s) k = k (buf ++ b ∷ chunk) s

-- `while len(buf) < n`, with fuel.
unfoldable pub read_loop : ℕ → ℕ → Bytes → Sock → Result (Option Bytes) × Sock
unfolding one_round recv
read_loop zero n buf s = (err out_of_fuel, s)
read_loop (suc fuel) n buf s =
    let go_on = one_round buf (recv (n - length buf) s) (λ b t. read_loop fuel n b t) in
    if ltb (length buf) n then go_on else (ok (some buf), s)

-- `_read_exactly`: each round reads a byte or more, so `n` rounds and the last test are enough.
unfoldable pub read_exactly : ℕ → Sock → Result (Option Bytes) × Sock
unfolding read_loop
read_exactly n s = read_loop (suc n) n [] s

-- The part of `sync_read_frame` after the payload was read: end of file there is an error.
unfoldable pub with_payload : Result (Option Bytes) × Sock → Result (Option Bytes) × Sock
with_payload (ok none, s) = (err connection_error, s)
with_payload (ok (some payload), s) = (ok (some payload), s)
with_payload (err e, s) = (err e, s)

-- The part after the prefix was read.
unfoldable pub with_prefix : Result (Option Bytes) × Sock → Result (Option Bytes) × Sock
unfolding with_payload
with_prefix (err e, s) = (err e, s)
with_prefix (ok none, s) = (ok none, s)
with_prefix (ok (some prefix), s) =
    let n = unpack prefix in
    if n == 0 || ltb max_frame_bytes n
    then (err connection_error, s)
    else with_payload (read_exactly n s)

unfoldable pub sync_read_frame : Sock → Result (Option Bytes) × Sock
unfolding with_prefix
sync_read_frame s = with_prefix (read_exactly length_prefix_bytes s)

-- `StreamReader.readexactly(n)` of asyncio, over the whole stream that is still to come: the first
-- `n` bytes, or `IncompleteReadError` with the part that came before end of file.
unfoldable pub stream_readexactly : ℕ → Bytes → (Bytes × Bytes) ⊎ Bytes
stream_readexactly n stream =
    if ltb (length stream) n then inr stream else inl (take n stream, drop n stream)

-- `read_frame`: the frame and the stream after it.
pub read_payload : (Bytes × Bytes) ⊎ Bytes → Result (Option Bytes) × Bytes
read_payload (inr partial) = (err connection_error, [])
read_payload (inl (payload, rest)) = (ok (some payload), rest)

pub read_prefix : (Bytes × Bytes) ⊎ Bytes → Result (Option Bytes) × Bytes
unfolding stream_readexactly read_payload
read_prefix (inr []) = (ok none, [])
read_prefix (inr (b ∷ partial)) = (err connection_error, [])
read_prefix (inl (prefix, rest)) =
    let n = unpack prefix in
    if n == 0 || ltb max_frame_bytes n
    then (err connection_error, rest)
    else read_payload (stream_readexactly n rest)

unfoldable pub read_frame : Bytes → Result (Option Bytes) × Bytes
unfolding read_prefix
read_frame stream = read_prefix (stream_readexactly length_prefix_bytes stream)

-- `_sock_recv_exactly` and `read_frame_sock`: the same loop over `loop.sock_recv`.
unfoldable pub sock_recv_exactly : ℕ → Sock → Result (Option Bytes) × Sock
unfolding read_loop
sock_recv_exactly n s = read_loop (suc n) n [] s

unfoldable pub with_prefix_sock : Result (Option Bytes) × Sock → Result (Option Bytes) × Sock
unfolding with_payload
with_prefix_sock (err e, s) = (err e, s)
with_prefix_sock (ok none, s) = (ok none, s)
with_prefix_sock (ok (some prefix), s) =
    let n = unpack prefix in
    if n == 0 || ltb max_frame_bytes n
    then (err connection_error, s)
    else with_payload (sock_recv_exactly n s)

unfoldable pub read_frame_sock : Sock → Result (Option Bytes) × Sock
unfolding with_prefix_sock
read_frame_sock s = with_prefix_sock (sock_recv_exactly length_prefix_bytes s)

-- Every frame up to the end of the stream, and how it ended; each frame takes a byte or more.
next_frames :
    Result (Option Bytes) × Bytes → (Bytes → List Bytes × Result Bool) → List Bytes × Result Bool
next_frames (err e, rest) k = ([], err e)
next_frames (ok none, rest) k = ([], ok true)
next_frames (ok (some payload), rest) k = let r = k rest in (payload ∷ r.0, r.1)

unfoldable pub read_frames : ℕ → Bytes → List Bytes × Result Bool
unfolding next_frames
read_frames zero stream = ([], err out_of_fuel)
read_frames (suc fuel) stream = next_frames (read_frame stream) (λ rest. read_frames fuel rest)
