-- ===== src/Frame/Cut.antt =====
-- waitbus/_frame.py's frames on a stream that ends anywhere.
use waitbus.Prelude.{
  ℕ, zero, suc, ◌+◌, ◌≤◌, ◌<◌, ◌≡◌, refl, sym, ap, ◌∙◌, inl, inr, Bool, true, false, ◌||◌, Option,
  none, List, [], ◌∷◌, ◌++◌, append_assoc, arith, ltb, ◌==◌, ltb→lt, lt→ltb, le→not_ltb, Bool-cases,
  length, take, drop, take-append-drop, length-take, take-append, drop-append, take-append_self,
  drop-append_self,
}
use waitbus.Frame.RoundTrip.{unpack-pack, encode_frame_inv, read_frame-encode_frame}
use waitbus.Frame.{
  Bytes, max_frame_bytes, pack, unpack, encode_frame, read_prefix, read_frame, read_frames,
  connection_error, Result, ok, err,
}

read_prefix_short :
    (n : ℕ) (prefix partial : Bytes)
    → 0 < n
    → n ≤ max_frame_bytes
    → length partial < n
    → unpack prefix ≡ n
    → read_prefix (inl (prefix, partial)) ≡ (err connection_error, [])
unfolding read_prefix
read_prefix_short n prefix partial pos fits short u =
    let good : (n == 0 || ltb max_frame_bytes n) ≡ false = ground arith in
    rw (u, good, lt→ltb (length partial) n short)

abbrev pub cut_short : ℕ → Result (Option Bytes)
cut_short zero = ok none
cut_short (suc k) = err connection_error

-- One frame, cut after its first `k` bytes.
pub read_frame_cut :
    (k : ℕ) (payload : Bytes)
    → 0 < length payload
    → length payload ≤ max_frame_bytes
    → k < 4 + length payload
    → read_frame (take k (pack (length payload) ++ payload)) ≡ (cut_short k, [])
unfolding read_frame read_prefix pack
read_frame_cut zero payload pos fits h = refl
read_frame_cut (suc zero) payload pos fits h = refl
read_frame_cut (suc (suc zero)) payload pos fits h = refl
read_frame_cut (suc (suc (suc zero))) payload pos fits h = refl
read_frame_cut (suc (suc (suc (suc k)))) payload pos fits h =
    let size : length (take k payload) ≡ k = omega (arith, length-take k payload) in
    let long : ltb (length (take (suc (suc (suc (suc k)))) (pack (length payload) ++ payload))) 4
        ≡ false =
      le→not_ltb _ _ (omega arith) in
    rw long (
      read_prefix_short (length payload) (pack (length payload)) (take k payload) pos fits
        (omega arith) (unpack-pack (length payload) (omega arith)))

-- `wire` is the payloads, each encoded, one behind the other.
pub data Encoded : List Bytes → Bytes → Type 0 where
  none_left : Encoded [] []
  one_more :
      (payload : Bytes) {payloads : List Bytes} (wire : Bytes) {rest : Bytes}
      → encode_frame payload ≡ ok wire
      → 0 < length payload
      → Encoded payloads rest
      → Encoded (payload ∷ payloads) (wire ++ rest)

-- How reading ends at a stream cut `k` bytes into a frame.
abbrev pub ends_at : ℕ → Result Bool
ends_at zero = ok true
ends_at (suc k) = err connection_error

read_frames_cut :
    (fuel k : ℕ) (payload : Bytes)
    → 0 < length payload
    → length payload ≤ max_frame_bytes
    → k < 4 + length payload
    → read_frames (suc fuel) (take k (pack (length payload) ++ payload)) ≡ ([], ends_at k)
unfolding read_frames
read_frames_cut fuel zero payload pos fits h = rw (read_frame_cut 0 payload pos fits h)
read_frames_cut fuel (suc k) payload pos fits h = rw (read_frame_cut (suc k) payload pos fits h)

pub cut_length :
    (next wire : Bytes) (k : ℕ)
    → wire ≡ pack (length next) ++ next
    → k < length wire
    → k < 4 + length next
unfolding pack
cut_length next wire k w h = let l = ap (λ (b : Bytes). length b) w in omega (arith, l)

-- A stream of encoded frames, cut `k` bytes into one more frame: every whole frame is read, in
-- order and unchanged; at `k = 0` reading ends cleanly, and after a part of a frame by an error.
pub read_frames-Encoded :
    {payloads : List Bytes} {stream : Bytes} (fuel k : ℕ) (next wire : Bytes)
    → Encoded payloads stream
    → encode_frame next ≡ ok wire
    → 0 < length next
    → k < length wire
    → length payloads < fuel
    → read_frames fuel (stream ++ take k wire) ≡ (payloads, ends_at k)
unfolding read_frames
read_frames-Encoded zero k next wire d e pos h f = absurd (omega arith)
read_frames-Encoded (suc fuel) k next wire none_left e pos h f =
    let (fits, w) = encode_frame_inv next wire e in
    rw w (read_frames_cut fuel k next pos fits (cut_length next wire k w h))
read_frames-Encoded (suc fuel) k next wire (one_more payload w {rest = rest} e' pos' d) e pos h f =
    rw (
      append_assoc,
      read_frame-encode_frame payload (rest ++ take k wire) w e' pos',
      read_frames-Encoded fuel k next wire d e pos h (omega arith),
    )

-- Two ways to cut one list.
prefix_short :
    (p rest w v : Bytes) → p ++ rest ≡ w ++ v → length p ≤ length w → p ≡ take (length p) w
prefix_short p rest w v e h =
    sym (take-append_self p rest)
    ∙ ap (λ (b : Bytes). take (length p) b) e
    ∙ take-append (length p) w v h

prefix_long :
    (p rest w v : Bytes)
    → p ++ rest ≡ w ++ v
    → length w ≤ length p
    → (p ≡ w ++ drop (length w) p) × (drop (length w) p ++ rest ≡ v)
prefix_long p rest w v e h = (
  sym (take-append-drop (length w) p)
      ∙ ap (λ (b : Bytes). b ++ drop (length w) p) (sym (prefix_short w v p rest (sym e) h)),
  sym (drop-append (length w) p rest h)
      ∙ ap (λ (b : Bytes). drop (length w) b) e
      ∙ drop-append_self w v,
)

read_frame-nil : read_frame [] ≡ (ok none, [])
unfolding read_frame
read_frame-nil = refl

-- Whoever has received a part of a stream of encoded frames reads the first of those frames, in
-- order and unchanged, and then ends cleanly or with an error, never with another frame.
pub read_frames-prefix :
    {payloads : List Bytes} {stream : Bytes} (fuel : ℕ) (received missing : Bytes)
    → Encoded payloads stream
    → received ++ missing ≡ stream
    → length payloads < fuel
    → (n k : ℕ) × (read_frames fuel received ≡ (take n payloads, ends_at k))
unfolding read_frames
read_frames-prefix zero p rest d e f = absurd (omega arith)
read_frames-prefix (suc fuel) [] rest d e f = (0, 0, rw read_frame-nil)
read_frames-prefix (suc fuel) (b ∷ p) rest none_left e f = cc
read_frames-prefix (suc fuel) (b ∷ p) rest (one_more payload w {rest = v} e' pos d) e f =
    let (fits, shape) = encode_frame_inv payload w e' in
    elim (Bool-cases (ltb (length (b ∷ p)) (length w))) [
      | inl short ↦
          let h = ltb→lt (length (b ∷ p)) (length w) short in
          (
            0,
            length (b ∷ p),
            ap (λ (l : Bytes). read_frames (suc fuel) l)
                  (prefix_short (b ∷ p) rest w v e (omega arith)
                    ∙ ap (λ (l : Bytes). take (length (b ∷ p)) l) shape)
                ∙ read_frames_cut fuel (length (b ∷ p)) payload pos fits
                    (cut_length payload w (length (b ∷ p)) shape h),
          )
      | inr long ↦
          let (eq, eq') = prefix_long (b ∷ p) rest w v e (ground (arith, long)) in
          let (n, k, e'') =
            read_frames-prefix fuel (drop (length w) (b ∷ p)) rest d eq' (omega arith) in
          (
            suc n,
            k,
            ap (λ (l : Bytes). read_frames (suc fuel) l) eq
                ∙ rw (read_frame-encode_frame payload (drop (length w) (b ∷ p)) w e' pos, e''),
          )
    ]
