-- ===== src/Broadcast/Isolation.antt =====
-- A subscriber of waitbus/broadcast.py under a pass, whatever other subscribers there are.
use waitbus.Prelude.{
  ℕ, ◌≤◌, ◌<◌, ◌≡◌, refl, ap, ◌∙◌, subst, inl, inr, Bool, true, false, Option, none, some, List, [],
  ◌∷◌, arith, leb, ◌==◌, if◌then◌else◌, ==_iff, Bool-cases,
}
use waitbus.Frame.{Bytes, Result, ok, err}
use waitbus.Subscriber.{lag_limit, enqueue, Subscriber}
use waitbus.Broadcast.{
  serialize, fan_out_one, find, remove, closing, close_subscriber, close_all, step_each, step_all,
  fan_out, beat_one, heartbeat, pass_row, pass_rows, Row, Reason, lag_limit_exceeded, heartbeat_lag,
  Daemon,
}
use waitbus.Broadcast.Feed.{feed}

-- One entry for each descriptor, as in a dict.
abbrev pub Distinct : List (ℕ × Subscriber) → Type 0
Distinct [] = Unit
Distinct ((k, s) ∷ subs) = (find k subs ≡ none) × Distinct subs

abbrev is_in : ℕ → List ℕ → Bool
is_in fd [] = false
is_in fd (k ∷ ks) = if k == fd then true else is_in fd ks

find-remove :
    (fd k : ℕ) (subs : List (ℕ × Subscriber))
    → find fd (remove k subs) ≡ (if k == fd then none else find fd subs)
unfolding find remove
find-remove fd k [] = ground arith
find-remove fd k ((j, s) ∷ subs) = ground (arith, find-remove fd k subs)

remove-Distinct : (k : ℕ) (subs : List (ℕ × Subscriber)) → Distinct subs → Distinct (remove k subs)
unfolding remove
remove-Distinct k [] d = tt
remove-Distinct k ((j, s) ∷ subs) d = elim (Bool-cases (j == k)) [
  | inl e ↦ rw e (remove-Distinct k subs d.1)
  | inr e ↦ rw e (ground (arith, find-remove j k subs, d.0), remove-Distinct k subs d.1)
]

find-close :
    (fd k : ℕ) (reason : Reason) (d : Daemon)
    → find fd (close_subscriber k reason d).subscribers
      ≡ (if k == fd then none else find fd d.subscribers)
unfolding close_subscriber
find-close fd k reason d = ground (arith, find-remove fd k d.subscribers)

close-Distinct :
    (k : ℕ) (reason : Reason) (d : Daemon)
    → Distinct d.subscribers
    → Distinct (close_subscriber k reason d).subscribers
unfolding close_subscriber
close-Distinct k reason d h = go (find k d.subscribers)
  where
    go :
        (o : Option Subscriber)
        → Distinct (
            Daemon.subscribers (elim o [
              | none ↦ d
              | some s ↦ record d {
                subscribers = remove k d.subscribers;
                closed = (k, closing d.reject_frame reason s) ∷ d.closed;
              }
            ]))
    go none = h
    go (some s) = remove-Distinct k d.subscribers h

find-close_all :
    (fd : ℕ) (ks : List ℕ) (reason : Reason) (d : Daemon)
    → find fd (close_all ks reason d).subscribers
      ≡ (if is_in fd ks then none else find fd d.subscribers)
unfolding close_all
find-close_all fd [] reason d = refl
find-close_all fd (k ∷ ks) reason d =
    ground
      (arith, find-close_all fd ks reason (close_subscriber k reason d), find-close fd k reason d)

close_all-Distinct :
    (ks : List ℕ) (reason : Reason) (d : Daemon)
    → Distinct d.subscribers
    → Distinct (close_all ks reason d).subscribers
unfolding close_all
close_all-Distinct [] reason d h = h
close_all-Distinct (k ∷ ks) reason d h =
    close_all-Distinct ks reason (close_subscriber k reason d) (close-Distinct k reason d h)

module _ (f : Subscriber → Subscriber × Bool) where
  abbrev stepped : Option Subscriber → Option Subscriber
  stepped none = none
  stepped (some s) = some (f s).0

  abbrev is_dropped : Option Subscriber → Bool
  is_dropped none = false
  is_dropped (some s) = (f s).1

  -- What a step leaves of one subscriber.
  abbrev pub outcome : Option Subscriber → Option Subscriber
  outcome none = none
  outcome (some s) = if (f s).1 then none else some (f s).0

  find-step_each :
      (fd : ℕ) (subs : List (ℕ × Subscriber))
      → find fd (step_each f subs).0 ≡ stepped (find fd subs)
  unfolding find step_each
  find-step_each fd [] = refl
  find-step_each fd ((k, s) ∷ subs) = ground (arith, find-step_each fd subs)

  is_in-step_each :
      (fd : ℕ) (subs : List (ℕ × Subscriber))
      → Distinct subs
      → is_in fd (step_each f subs).1 ≡ is_dropped (find fd subs)
  unfolding find step_each
  is_in-step_each fd [] d = refl
  is_in-step_each fd ((k, s) ∷ subs) d = elim (Bool-cases (k == fd)) [
    | inl e ↦
        let same : k ≡ fd = (==_iff k fd).0 e in
        let absent : find fd subs ≡ none = subst (λ (n : ℕ). find n subs ≡ none) same d.0 in
        ground (arith, is_in-step_each fd subs d.1, absent)
    | inr e ↦ ground (arith, is_in-step_each fd subs d.1)
  ]

  step_each-Distinct :
      (subs : List (ℕ × Subscriber)) → Distinct subs → Distinct (step_each f subs).0
  unfolding step_each
  step_each-Distinct [] d = tt
  step_each-Distinct ((k, s) ∷ subs) d =
      (find-step_each k subs ∙ ap stepped d.0, step_each-Distinct subs d.1)

  find-step_all :
      (fd : ℕ) (reason : Reason) (d : Daemon)
      → Distinct d.subscribers
      → find fd (step_all f reason d).subscribers ≡ outcome (find fd d.subscribers)
  unfolding step_all
  find-step_all fd reason d h =
      find-close_all fd (step_each f d.subscribers).1 reason
        (record d { subscribers = (step_each f d.subscribers).0 })
      ∙ rw (is_in-step_each fd d.subscribers h, find-step_each fd d.subscribers)
          (cases (find fd d.subscribers))
    where
      cases : (o : Option Subscriber) → (if is_dropped o then none else stepped o) ≡ outcome o
      cases none = refl
      cases (some s) = refl

  step_all-Distinct :
      (reason : Reason) (d : Daemon)
      → Distinct d.subscribers
      → Distinct (step_all f reason d).subscribers
  unfolding step_all
  step_all-Distinct reason d h =
      close_all-Distinct (step_each f d.subscribers).1 reason
        (record d { subscribers = (step_each f d.subscribers).0 })
        (step_each-Distinct d.subscribers h)

-- What a list of rows does to one subscriber, or to none.
abbrev pub feed_found : List Row → Option Subscriber → Option Subscriber
feed_found rows none = none
feed_found rows (some s) = feed rows s

feed_found-cons :
    (r : Row) (rs : List Row) (blob : Bytes) (o : Option Subscriber)
    → serialize r ≡ ok blob
    → feed_found rs (outcome (fan_out_one r blob) o) ≡ feed_found (r ∷ rs) o
unfolding feed
feed_found-cons r rs blob none e = refl
feed_found-cons r rs blob (some s) e = rw e (ground arith)

feed_none : (s : Subscriber) → some s ≡ feed [] s
unfolding feed
feed_none s = refl

pub pass_row-ok :
    (o : Result Bytes) (r : Row) (d : Daemon) (go_on : Daemon → Daemon × Result (Unit {0}))
    → (pass_row o r d go_on).1 ≡ ok tt
    → (blob : Bytes) × (o ≡ ok blob)
      × ((go_on (record (fan_out r blob d) { cursor = r.seq })).1 ≡ ok tt)
unfolding pass_row
pass_row-ok (err e) r d go_on h = cc
pass_row-ok (ok blob) r d go_on h = (blob, refl, h)

-- In a pass that ends well, what becomes of the subscriber at a descriptor is what the rows of the
-- pass do to it alone: its queue, its lag and its drop depend on no other subscriber.
pub find-pass_rows :
    (fd : ℕ) (rows : List Row) (d : Daemon)
    → Distinct d.subscribers
    → (pass_rows rows d).1 ≡ ok tt
    → find fd (pass_rows rows d).0.subscribers ≡ feed_found rows (find fd d.subscribers)
unfolding pass_rows fan_out
find-pass_rows fd [] d h e = found (find fd d.subscribers)
  where
    found : (o : Option Subscriber) → o ≡ feed_found [] o
    found none = refl
    found (some s) = feed_none s
find-pass_rows fd (r ∷ rs) d h e =
    let (blob, s, e') = pass_row-ok (serialize r) r d (λ d'. pass_rows rs d') e in
    rw s (
      find-pass_rows fd rs (record (fan_out r blob d) { cursor = r.seq })
        (step_all-Distinct (fan_out_one r blob) lag_limit_exceeded d h) e'
      ∙ ap (λ o. feed_found rs o) (find-step_all (fan_out_one r blob) fd lag_limit_exceeded d h)
      ∙ feed_found-cons r rs blob (find fd d.subscribers) s)

-- In a heartbeat tick too, what becomes of the subscriber at a descriptor is its own.
pub find-heartbeat :
    (fd : ℕ) (blob : Bytes) (d : Daemon)
    → Distinct d.subscribers
    → find fd (heartbeat blob d).subscribers ≡ outcome (beat_one blob) (find fd d.subscribers)
unfolding heartbeat
find-heartbeat fd blob d h = find-step_all (beat_one blob) fd heartbeat_lag d h

-- In a tick over a dict with distinct descriptors: a subscriber whose lag counter reaches the limit when
-- the heartbeat is enqueued is no longer in the dict, every other one is in it with the heartbeat
-- enqueued, and a descriptor that had no subscriber has none, whatever becomes of the others.
pub heartbeat-enqueue :
    (fd : ℕ) (blob : Bytes) (d : Daemon)
    → Distinct d.subscribers
    → ((s : Subscriber)
        → find fd d.subscribers ≡ some s
        → (lag_limit ≤ (enqueue blob false s).0.lag_count
            → find fd (heartbeat blob d).subscribers ≡ none)
          × ((enqueue blob false s).0.lag_count < lag_limit
              → find fd (heartbeat blob d).subscribers ≡ some (enqueue blob false s).0))
      × (find fd d.subscribers ≡ none → find fd (heartbeat blob d).subscribers ≡ none)
unfolding beat_one
heartbeat-enqueue fd blob d h =
    let found = find-heartbeat fd blob d h in
    (
      λ s e.
          let same = found ∙ ap (λ o. outcome (beat_one blob) o) e in
          (
            λ full.
                let q : leb lag_limit (enqueue blob false s).0.lag_count ≡ true = ground arith in
                same ∙ rw q refl,
            λ room.
                let q : leb lag_limit (enqueue blob false s).0.lag_count ≡ false = ground arith in
                same ∙ rw q refl,
          ),
      λ e. found ∙ ap (λ o. outcome (beat_one blob) o) e,
    )
