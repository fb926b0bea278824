-- ===== src/Frame/RoundTrip.antt =====
-- The readers of waitbus/_frame.py against the encoder.
use waitbus.Prelude.{
  ℕ, suc, ◌-◌, ◌^◌, ◌≤◌, ◌<◌, ◌≡◌, refl, ◌∙◌, ◌⊎◌, inl, inr, false, ◌||◌, Option, none, some, List,
  [], ◌∷◌, ◌++◌, arith, ltb, ◌==◌, ltb→lt, lt→ltb, le→not_ltb, Bool-cases, length, take, drop,
  length-append, take-append_self, drop-append_self,
}
use waitbus.Frame.{
  Bytes, max_frame_bytes, length_prefix_bytes, pack, unpack, encode_frame, at_eof, read_exactly,
  with_payload, with_prefix, sync_read_frame, read_prefix, read_frame, sock_recv_exactly,
  with_prefix_sock, read_frame_sock, connection_error, Result, ok, err, Recv, Sock,
}
use waitbus.Frame.Loop.{NoFault, sock, read_loop_enough, read_loop_short}

pub unpack-pack : (n : ℕ) → n < 2 ^ 32 → unpack (pack n) ≡ n
unfolding unpack pack
unpack-pack n h = omega arith

minus_none : (n : ℕ) → n - length {A = ℕ} [] ≡ n
minus_none n = omega arith

-- `_read_exactly` is `readexactly` of asyncio, with a short read told apart.
pub read_exactly_lem :
    (n : ℕ) (st : Bytes) (l : List Recv)
    → NoFault l
    → ((l' : List Recv) × NoFault l'
        × (n ≤ length st)
        × (read_exactly n (sock st l) ≡ (ok (some (take n st)), sock (drop n st) l')))
      ⊎ ((l' : List Recv) × (length st < n)
          × (read_exactly n (sock st l) ≡ (at_eof st, sock [] l')))
unfolding read_exactly
read_exactly_lem n st l h = elim (Bool-cases (ltb (length st) n)) [
  | inl short ↦
      let (l', e) = read_loop_short (suc n) n [] st l h (omega arith) (ground (arith, short)) in
      inr (l', ltb→lt (length st) n short, e)
  | inr enough ↦
      let (l', h', e) =
        read_loop_enough (suc n) n [] st l h (omega arith) (omega arith) (ground (arith, enough)) in
      inl (l', h', ground (arith, enough), (rw (minus_none n) at e))
]

at_prefix_eof :
    (st : Bytes) (l : List Recv)
    → with_prefix (at_eof st, sock [] l)
      ≡ ((read_prefix (inr st)).0, sock (read_prefix (inr st)).1 l)
unfolding with_prefix at_eof read_prefix
at_prefix_eof [] l = refl
at_prefix_eof (b ∷ st) l = refl

with_payload_eof : (st : Bytes) (s : Sock) → with_payload (at_eof st, s) ≡ (err connection_error, s)
unfolding with_payload at_eof
with_payload_eof [] s = refl
with_payload_eof (b ∷ st) s = refl

-- From the same prefix on, the two readers agree.
after_prefix :
    (prefix rest : Bytes) (l : List Recv)
    → NoFault l
    → (l' : List Recv) × (with_prefix (ok (some prefix), sock rest l)
        ≡ ((read_prefix (inl (prefix, rest))).0, sock (read_prefix (inl (prefix, rest))).1 l'))
unfolding with_prefix read_prefix
after_prefix prefix rest l h =
    let n = unpack prefix in
    elim (Bool-cases (n == 0 || ltb max_frame_bytes n)) [
      | inl bad ↦ (l, rw bad)
      | inr good ↦ elim (read_exactly_lem n rest l h) [
        | inl (l', _, long, e) ↦ (l', rw (good, e, le→not_ltb (length rest) n long))
        | inr (l', short, e) ↦
            (l', rw (good, e, lt→ltb (length rest) n short) (with_payload_eof rest (sock [] l')))
      ]
    ]

-- Over a connection that neither fails nor times out, the blocking reader returns what the asyncio
-- reader returns and leaves the same bytes unread, however the kernel cuts the stream into chunks.
pub sync_read_frame-read_frame :
    (st : Bytes) (l : List Recv)
    → NoFault l
    → (l' : List Recv) × (sync_read_frame (sock st l)
        ≡ ((read_frame st).0, sock (read_frame st).1 l'))
unfolding sync_read_frame read_frame
sync_read_frame-read_frame st l h = elim (read_exactly_lem 4 st l h) [
  | inr (l', short, e) ↦ (l', rw (e, lt→ltb _ _ short) (at_prefix_eof st l'))
  | inl (l', h', long, e) ↦
      let (l'', e') = after_prefix (take 4 st) (drop 4 st) l' h' in
      (l'', rw (e, le→not_ltb (length st) 4 long) e')
]

with_prefix_sock-with_prefix :
    (r : Result (Option Bytes) × Sock) → with_prefix_sock r ≡ with_prefix r
unfolding with_prefix_sock with_prefix sock_recv_exactly read_exactly
with_prefix_sock-with_prefix (err e, s) = refl
with_prefix_sock-with_prefix (ok none, s) = refl
with_prefix_sock-with_prefix (ok (some prefix), s) = refl

-- Over a connection that does not fail, the reader of the daemon, on a non-blocking socket, returns
-- what the asyncio reader returns and leaves the same bytes unread, however the stream is cut.
pub read_frame_sock-read_frame :
    (st : Bytes) (l : List Recv)
    → NoFault l
    → (l' : List Recv) × (read_frame_sock (sock st l)
        ≡ ((read_frame st).0, sock (read_frame st).1 l'))
unfolding read_frame_sock sync_read_frame sock_recv_exactly read_exactly
read_frame_sock-read_frame st l h =
    let (l', e) = sync_read_frame-read_frame st l h in
    (l', with_prefix_sock-with_prefix (read_exactly length_prefix_bytes (sock st l)) ∙ e)

pub encode_frame_inv :
    (payload wire : Bytes)
    → encode_frame payload ≡ ok wire
    → (length payload ≤ max_frame_bytes) × (wire ≡ pack (length payload) ++ payload)
unfolding encode_frame
encode_frame_inv payload wire e = ground arith

read_prefix_ok :
    (n : ℕ) (prefix payload rest : Bytes)
    → n ≡ length payload
    → 0 < n
    → n ≤ max_frame_bytes
    → unpack prefix ≡ n
    → read_prefix (inl (prefix, payload ++ rest)) ≡ (ok (some payload), rest)
unfolding read_prefix
read_prefix_ok n prefix payload rest e pos fits u =
    let good : (n == 0 || ltb max_frame_bytes n) ≡ false = ground arith in
    let long : ltb (length (payload ++ rest)) (length payload) ≡ false =
      le→not_ltb _ _ (omega (arith, length-append payload rest)) in
    rw (u, good, e, long, take-append_self payload rest, drop-append_self payload rest)

-- A frame that the encoder accepts is read back whole, and what follows it is left unread.
pub read_frame-encode_frame :
    (payload rest wire : Bytes)
    → encode_frame payload ≡ ok wire
    → 0 < length payload
    → read_frame (wire ++ rest) ≡ (ok (some payload), rest)
unfolding read_frame pack
read_frame-encode_frame payload rest wire e h =
    let (fits, w) = encode_frame_inv payload wire e in
    let long : ltb (length ((pack (length payload) ++ payload) ++ rest)) 4 ≡ false =
      le→not_ltb _ _ (omega arith) in
    rw (w, long)
      (read_prefix_ok (length payload) (pack (length payload)) payload rest refl h fits
        (unpack-pack (length payload) (omega arith)))
