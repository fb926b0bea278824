-- ===== src/Broadcast/Sweep.antt =====
-- The cursor of waitbus/broadcast.py's `_broadcast_pass`.
use waitbus.Prelude.{
  ℕ, zero, suc, ◌≤◌, ◌<◌, String, ◌≡◌, refl, sym, ap, ◌∙◌, inl, inr, true, none, some, List, [],
  ◌∷◌, ◌++◌, arith, lt→ltb, Bool-cases, length, take, drop,
}
use waitbus.Frame.{Bytes, max_frame_bytes, encode_frame, frame_too_large, Result, ok, err}
use waitbus.Broadcast.{
  sweep_limit, serialize, is_above, rows_above, fan_out, pass_rows, broadcast_pass, Row, Daemon,
}
use waitbus.Broadcast.Feed.{AllAbove, Ascending}
use waitbus.Broadcast.Isolation.{pass_row-ok}
use waitbus.Broadcast.Table.{HasIds}

-- The `seq` of the last row, or `c`.
abbrev last_seq : ℕ → List Row → ℕ
last_seq c [] = c
last_seq c (r ∷ rs) = last_seq r.seq rs

cursor-pass_rows :
    (rows : List Row) (d : Daemon)
    → (pass_rows rows d).1 ≡ ok tt
    → (pass_rows rows d).0.cursor ≡ last_seq d.cursor rows
unfolding pass_rows
cursor-pass_rows [] d e = refl
cursor-pass_rows (r ∷ rs) d e =
    let (blob, s, e') = pass_row-ok (serialize r) r d (λ d'. pass_rows rs d') e in
    rw s (cursor-pass_rows rs (record (fan_out r blob d) { cursor = r.seq }) e')

last_seq-le : (c : ℕ) (rows : List Row) → AllAbove c rows → Ascending rows → c ≤ last_seq c rows
last_seq-le c [] a asc = omega arith
last_seq-le c (r ∷ rs) a asc = omega (arith, last_seq-le r.seq rs asc.0 asc.1, a.0)

take-AllAbove : (n c : ℕ) (rows : List Row) → AllAbove c rows → AllAbove c (take n rows)
take-AllAbove zero c rows a = tt
take-AllAbove (suc n) c [] a = tt
take-AllAbove (suc n) c (r ∷ rs) a = (a.0, take-AllAbove n c rs a.1)

take-Ascending : (n : ℕ) (rows : List Row) → Ascending rows → Ascending (take n rows)
take-Ascending zero rows a = tt
take-Ascending (suc n) [] a = tt
take-Ascending (suc n) (r ∷ rs) a = (take-AllAbove n r.seq rs a.0, take-Ascending n rs a.1)

rows_above_all :
    (c : ℕ) (rows : List Row) → HasIds rows → AllAbove c rows → rows_above c none rows ≡ rows
unfolding rows_above
rows_above_all c [] ids a = refl
rows_above_all c (r ∷ rs) ids a = ground (arith, rows_above_all c rs ids.1 a.1, ids.0.1)

-- Past the first `n` rows, the rest is above the last of them.
rows_above-last_seq :
    (n c : ℕ) (rows : List Row)
    → HasIds rows
    → AllAbove c rows
    → Ascending rows
    → rows_above (last_seq c (take n rows)) none rows ≡ drop n rows
unfolding rows_above
rows_above-last_seq zero c rows ids a asc = rows_above_all c rows ids a
rows_above-last_seq (suc n) c [] ids a asc = refl
rows_above-last_seq (suc n) c (r ∷ rs) ids a asc = ground (
  arith,
  rows_above-last_seq n r.seq rs ids.1 asc.0 asc.1,
  last_seq-le r.seq (take n rs) (take-AllAbove n r.seq rs asc.0) (take-Ascending n rs asc.1),
)

-- A higher cursor selects from what a lower one selects.
rows_above-rows_above :
    (c c' : ℕ) (rows : List Row)
    → c ≤ c'
    → rows_above c' none (rows_above c none rows) ≡ rows_above c' none rows
unfolding rows_above
rows_above-rows_above c c' [] h = refl
rows_above-rows_above c c' (r ∷ rs) h = ground (arith, rows_above-rows_above c c' rs h)

rows_above-AllAbove :
    (c c' : ℕ) (rows : List Row) → AllAbove c rows → AllAbove c (rows_above c' none rows)
unfolding rows_above
rows_above-AllAbove c c' [] a = tt
rows_above-AllAbove c c' (r ∷ rs) a = elim (Bool-cases (is_above c' none r)) [
  | inl e ↦ rw e (a.0, rows_above-AllAbove c c' rs a.1)
  | inr e ↦ rw e (rows_above-AllAbove c c' rs a.1)
]

is_above-true :
    (c : ℕ) (r : Row)
    → is_above c none r ≡ true
    → ((e : String) × (r.event_id ≡ some e)) × (c < r.seq)
unfolding is_above
is_above-true c r h = (ground arith, ground arith)

-- The selected rows have ids, are above the cursor, and stay in order.
rows_above-selected :
    (c : ℕ) (rows : List Row)
    → Ascending rows
    → HasIds (rows_above c none rows)
      × AllAbove c (rows_above c none rows)
      × Ascending (rows_above c none rows)
unfolding rows_above
rows_above-selected c [] asc = (tt, tt, tt)
rows_above-selected c (r ∷ rs) asc =
    let (ids, above, asc') = rows_above-selected c rs asc.1 in
    elim (Bool-cases (is_above c none r)) [
      | inl e ↦
          let (id, ab) = is_above-true c r e in
          rw e ((id, ids), (ab, above), (rows_above-AllAbove r.seq c rs asc.0, asc'))
      | inr e ↦ rw e (ids, above, asc')
    ]

-- Over a table in the order of `seq`, a pass that ends well leaves to the next pass exactly the rows
-- behind the first `sweep_limit` of those that it found: no row is skipped or fanned out again.
pub broadcast_pass-sweeps :
    (table : List Row) (d : Daemon)
    → Ascending table
    → (broadcast_pass table d).1 ≡ ok tt
    → rows_above (broadcast_pass table d).0.cursor none table
      ≡ drop sweep_limit (rows_above d.cursor none table)
unfolding broadcast_pass
broadcast_pass-sweeps table d asc e =
    let rows = rows_above d.cursor none table in
    let (ids, above, asc') = rows_above-selected d.cursor table asc in
    let first = take sweep_limit rows in
    rw (cursor-pass_rows first d e) (
      sym (
        rows_above-rows_above d.cursor (last_seq d.cursor first) table (
          last_seq-le d.cursor first (take-AllAbove sweep_limit d.cursor rows above)
            (take-Ascending sweep_limit rows asc')))
      ∙ rows_above-last_seq sweep_limit d.cursor rows ids above asc')

rows_above-append_all :
    (c : ℕ) (xs ys : List Row)
    → rows_above c none (xs ++ ys) ≡ rows_above c none xs ++ rows_above c none ys
unfolding rows_above
rows_above-append_all c [] ys = refl
rows_above-append_all c (x ∷ xs) ys = ground (arith, rows_above-append_all c xs ys)

encode_frame-oversize :
    (payload : Bytes)
    → max_frame_bytes < length payload
    → encode_frame payload ≡ err frame_too_large
unfolding encode_frame
encode_frame-oversize payload big = rw (lt→ltb max_frame_bytes (length payload) big)

serialize-oversize :
    (r : Row)
    → max_frame_bytes < length r.event_json
    → max_frame_bytes < length r.stub_json
    → serialize r ≡ err frame_too_large
unfolding serialize
serialize-oversize r big stub =
    ap (λ (o : Result Bytes). elim o [ ok wire ↦ ok wire | err e ↦ encode_frame r.stub_json ])
      (encode_frame-oversize r.event_json big)
    ∙ encode_frame-oversize r.stub_json stub

pass_rows-stuck :
    (n : ℕ) (r : Row) (rows : List Row) (d : Daemon)
    → serialize r ≡ err frame_too_large
    → pass_rows (take (suc n) (r ∷ rows)) d ≡ (d, err frame_too_large)
unfolding pass_rows
pass_rows-stuck n r rows d e = rw e

-- A row that cannot be encoded, not even as a stub, stops the daemon for good: as long as it is the
-- first row behind the cursor, every pass fails, whatever is committed later, and changes nothing.
pub broadcast_pass-stuck :
    (table later : List Row) (d : Daemon) (r : Row) (rs : List Row)
    → rows_above d.cursor none table ≡ r ∷ rs
    → max_frame_bytes < length r.event_json
    → max_frame_bytes < length r.stub_json
    → broadcast_pass (table ++ later) d ≡ (d, err frame_too_large)
unfolding broadcast_pass
broadcast_pass-stuck table later d r rs e big stub =
    ap (λ rows. pass_rows (take sweep_limit rows) d)
      (rows_above-append_all d.cursor table later
        ∙ ap (λ rows. rows ++ rows_above d.cursor none later) e)
    ∙ pass_rows-stuck 499 r (rs ++ rows_above d.cursor none later) d (serialize-oversize r big stub)
