-- ===== src/Broadcast/Table.antt =====
-- Facts about the rows that the queries of waitbus/_db.py select.
use waitbus.Prelude.{
  ℕ, ◌≤◌, String, ◌≡◌, refl, sym, ap, ◌∙◌, subst, inl, inr, Bool, true, Option, none, some, List,
  [], ◌∷◌, ◌++◌, arith, Bool-cases,
}
use waitbus.Broadcast.{is_above, rows_above, latest, current_max_snapshot, Row}
use waitbus.Broadcast.Feed.{wire_of, frames, select, wants, due, AllAbove, Ascending}

abbrev pub HasIds : List Row → Type 0
HasIds [] = Unit
HasIds (r ∷ rs) = ((e : String) × (r.event_id ≡ some e)) × HasIds rs

abbrev pub AtMost : ℕ → List Row → Type 0
AtMost w [] = Unit
AtMost w (r ∷ rs) = (r.seq ≤ w) × AtMost w rs

pub AtMost-rest : (w : ℕ) (xs ys : List Row) → AtMost w (xs ++ ys) → AtMost w ys
AtMost-rest w [] ys m = m
AtMost-rest w (x ∷ xs) ys m = AtMost-rest w xs ys m.1

pub Ascending-rest : (xs ys : List Row) → Ascending (xs ++ ys) → Ascending ys
Ascending-rest [] ys a = a
Ascending-rest (x ∷ xs) ys a = Ascending-rest xs ys a.1

abbrev pub snapshot_seq : List Row → ℕ
snapshot_seq t = (current_max_snapshot t).0

module _ (later : List Row) where
  snapshot_cons :
      (r : Row) (rs : List Row)
      → HasIds (r ∷ rs)
      → Ascending ((r ∷ rs) ++ later)
      → (e : String) × ((current_max_snapshot (r ∷ rs)).1 ≡ some e)
        × AtMost (snapshot_seq (r ∷ rs)) (r ∷ rs)
        × AllAbove (snapshot_seq (r ∷ rs)) later
  unfolding current_max_snapshot
  snapshot_cons r [] ids asc =
      let (e, id) = ids.0 in (e, rw id, rw id (omega arith, tt), rw id asc.0)
  snapshot_cons r (r' ∷ rs) ids asc =
      let (e, id, most, above) = snapshot_cons r' rs ids.1 asc.1 in
      let same = ap (λ (o : Option String). latest o (current_max_snapshot (r' ∷ rs)) r) id in
      let back = ap (λ (x : ℕ × Option String). x.0) (sym same) in
      (
        e,
        ap (λ (x : ℕ × Option String). x.1) same ∙ id,
        subst (λ (n : ℕ). AtMost n (r ∷ r' ∷ rs)) back (omega (arith, most.0, asc.0.0), most),
        subst (λ (n : ℕ). AllAbove n later) back above,
      )

  -- The snapshot bounds the rows of the table, and the rows that come later are above it.
  pub snapshot-bounds :
      (t : List Row)
      → HasIds t
      → AllAbove 0 (t ++ later)
      → Ascending (t ++ later)
      → AtMost (snapshot_seq t) t × AllAbove (snapshot_seq t) later
  snapshot-bounds [] ids pos asc = (tt, unfold current_max_snapshot in pos)
  snapshot-bounds (r ∷ rs) ids pos asc = let (e, id, m, a) = snapshot_cons r rs ids asc in (m, a)

module _ (since w : ℕ) where
  pub rows_above-later :
      (later : List Row) → AllAbove w later → rows_above since (some w) later ≡ []
  unfolding rows_above
  rows_above-later [] a = refl
  rows_above-later (r ∷ rs) a = ground (arith, rows_above-later rs a.1)

  pub rows_above-append :
      (t later : List Row)
      → AtMost w t
      → AllAbove w later
      → rows_above since (some w) (t ++ later) ≡ rows_above since none t
  unfolding rows_above
  rows_above-append [] later m a = rows_above-later later a
  rows_above-append (r ∷ rs) later m a = ground (arith, rows_above-append rs later m.1 a)

  pub rows_above-AtMost : (t : List Row) → AtMost w t → AtMost w (rows_above since none t)
  unfolding rows_above
  rows_above-AtMost [] m = tt
  rows_above-AtMost (r ∷ rs) m = elim (Bool-cases (is_above since none r)) [
    | inl e ↦ rw e (m.0, rows_above-AtMost rs m.1)
    | inr e ↦ rw e (rows_above-AtMost rs m.1)
  ]

module _ (filters types : List String) (w : ℕ) where
  pub select-due-old : (rows : List Row) → AtMost w rows → select (due filters types w) rows ≡ []
  unfolding select due
  select-due-old [] m = refl
  select-due-old (r ∷ rs) m = ground (arith, select-due-old rs m.1)

  pub select-due-new :
      (rows : List Row)
      → AllAbove w rows
      → select (due filters types w) rows ≡ select (wants filters types) rows
  unfolding select due
  select-due-new [] a = refl
  select-due-new (r ∷ rs) a = ground (arith, select-due-new rs a.1)

module _ (p : Row → Bool) where
  pub select-append : (xs ys : List Row) → select p (xs ++ ys) ≡ select p xs ++ select p ys
  unfolding select
  select-append [] ys = refl
  select-append (x ∷ xs) ys = ground (arith, select-append xs ys)

pub frames-append : (xs ys : List Row) → frames (xs ++ ys) ≡ frames xs ++ frames ys
frames-append [] ys = refl
frames-append (x ∷ xs) ys = ap (λ l. (wire_of x, true) ∷ l) (frames-append xs ys)
