-- ===== src/Client/Barrier.antt =====
-- `read_subscribe_ack` of waitbus/_broadcast_sub.py over the wire.
use waitbus.Prelude.{ℕ, suc, ◌<◌, ◌≡◌, refl, Option, List, length, take}
use waitbus.Frame.{Bytes, encode_frame, connection_error, ok, Recv}
use waitbus.Frame.Loop.{NoFault, sock}
use waitbus.Frame.RoundTrip.{sync_read_frame-read_frame, encode_frame_inv}
use waitbus.Frame.Cut.{read_frame_cut, cut_length}
use waitbus.Json.{Json}
use waitbus.Client.{ack_read, read_subscribe_ack, escapes}

-- A connection that ends inside the first frame makes the barrier raise `ConnectionError`, which is not
-- one of the typed exceptions.
pub read_subscribe_ack-cut :
    (loads : Bytes → Option Json) (payload wire : Bytes) (k : ℕ) (l : List Recv)
    → NoFault l
    → encode_frame payload ≡ ok wire
    → 0 < length payload
    → suc k < length wire
    → (read_subscribe_ack loads (sock (take (suc k) wire) l)).0 ≡ escapes connection_error
unfolding read_subscribe_ack ack_read
read_subscribe_ack-cut loads payload wire k l h e some_byte inside =
    let (l', q) = sync_read_frame-read_frame (take (suc k) wire) l h in
    let (fits, shape) = encode_frame_inv payload wire e in
    rw
      (
        q,
        shape,
        read_frame_cut (suc k) payload some_byte fits
            (cut_length payload wire (suc k) shape inside),
      )
      refl
