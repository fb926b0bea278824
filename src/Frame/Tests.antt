-- ===== src/Frame/Tests.antt =====
-- Runs of waitbus/_frame.py's model on concrete bytes.
use waitbus.Prelude.{ℕ, ◌≡◌, refl, some, List, [], ◌∷◌, ◌++◌, arith, take}
use waitbus.Frame.{
  Bytes, pack, unpack, encode_frame, read_exactly, sync_read_frame, read_prefix, read_frame,
  read_frame_sock, read_frames, connection_error, timeout_error, ok, err, Recv, gives, times_out,
}
use waitbus.Frame.Loop.{sock}
use waitbus.Frame.RoundTrip.{
  sync_read_frame-read_frame, read_frame_sock-read_frame, read_frame-encode_frame,
}
use waitbus.Frame.Cut.{
  ends_at, read_frames-Encoded, read_frames-prefix, Encoded, none_left, one_more,
}

abbrev hello : Bytes
hello = 104 ∷ 105 ∷ []

abbrev hello_wire : Bytes
hello_wire = 0 ∷ 0 ∷ 0 ∷ 2 ∷ 104 ∷ 105 ∷ []

-- One byte, then three, then all that is there.
abbrev chunks : List Recv
chunks = gives 1 ∷ gives 3 ∷ []

encode_hello : encode_frame hello ≡ ok hello_wire
unfolding encode_frame pack
encode_hello = refl

-- A timeout in the middle of a frame is passed on.
timeout_inside :
    (sync_read_frame (sock hello_wire (gives 1 ∷ times_out ∷ []))).0 ≡ err timeout_error
unfolding sync_read_frame read_exactly
timeout_inside = refl

empty_frame_refused : (read_frame (0 ∷ 0 ∷ 0 ∷ 0 ∷ [])).0 ≡ err connection_error
unfolding read_frame read_prefix unpack
empty_frame_refused = refl

hello-Encoded : Encoded (hello ∷ []) hello_wire
hello-Encoded = one_more hello hello_wire encode_hello (omega arith) none_left

read_frame-encode_frame_example : read_frame (hello_wire ++ 7 ∷ []) ≡ (ok (some hello), 7 ∷ [])
read_frame-encode_frame_example =
    read_frame-encode_frame hello (7 ∷ []) hello_wire encode_hello (omega arith)

sync_read_frame-read_frame_example :
    (l' : List Recv) × (sync_read_frame (sock hello_wire chunks)
      ≡ ((read_frame hello_wire).0, sock (read_frame hello_wire).1 l'))
sync_read_frame-read_frame_example = sync_read_frame-read_frame hello_wire chunks tt

read_frame_sock-read_frame_example :
    (l' : List Recv) × (read_frame_sock (sock hello_wire chunks)
      ≡ ((read_frame hello_wire).0, sock (read_frame hello_wire).1 l'))
read_frame_sock-read_frame_example = read_frame_sock-read_frame hello_wire chunks tt

read_frames-Encoded_example :
    read_frames 2 (hello_wire ++ take 5 hello_wire) ≡ (hello ∷ [], ends_at 5)
read_frames-Encoded_example =
    read_frames-Encoded 2 5 hello hello_wire hello-Encoded encode_hello (omega arith) (omega arith)
      (omega arith)

read_frames-prefix_example :
    (n k : ℕ) × (read_frames 2 (0 ∷ 0 ∷ 0 ∷ []) ≡ (take n (hello ∷ []), ends_at k))
read_frames-prefix_example =
    read_frames-prefix 2 (0 ∷ 0 ∷ 0 ∷ []) (2 ∷ 104 ∷ 105 ∷ []) hello-Encoded refl (omega arith)
