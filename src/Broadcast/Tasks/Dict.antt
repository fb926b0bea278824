-- ===== src/Broadcast/Tasks/Dict.antt =====
-- The dict of subscribers of waitbus/broadcast.py: a property of all of them.
use waitbus.Prelude.{ℕ, ◌≡◌, subst, inl, inr, Bool, some, List, [], ◌∷◌, ◌++◌, ◌==◌, Bool-cases}
use waitbus.Subscriber.{Subscriber}
use waitbus.Broadcast.{find, remove, step_each}
use waitbus.Broadcast.Handshake.{put}
use waitbus.Broadcast.Tasks.{AllSubs}

pub AllSubs-find :
    (Q : Subscriber → Type 0) (fd : ℕ) (subs : List (ℕ × Subscriber)) (s : Subscriber)
    → AllSubs Q subs
    → find fd subs ≡ some s
    → Q s
unfolding find
AllSubs-find Q fd [] s a e = cc
AllSubs-find Q fd ((k, t) ∷ subs) s a e = elim (Bool-cases (k == fd)) [
  | inl hit ↦
      let e' = (rw hit at e) in let same : t ≡ s = cc in subst (λ (x : Subscriber). Q x) same a.0
  | inr miss ↦ AllSubs-find Q fd subs s a.1 (rw miss at e)
]

pub AllSubs-remove :
    (Q : Subscriber → Type 0) (fd : ℕ) (subs : List (ℕ × Subscriber))
    → AllSubs Q subs
    → AllSubs Q (remove fd subs)
unfolding remove
AllSubs-remove Q fd [] a = tt
AllSubs-remove Q fd ((k, t) ∷ subs) a = elim (Bool-cases (k == fd)) [
  | inl hit ↦ rw hit (AllSubs-remove Q fd subs a.1)
  | inr miss ↦ rw miss (a.0, AllSubs-remove Q fd subs a.1)
]

pub AllSubs-put :
    (Q : Subscriber → Type 0) (fd : ℕ) (s : Subscriber) (subs : List (ℕ × Subscriber))
    → Q s
    → AllSubs Q subs
    → AllSubs Q (put fd s subs)
unfolding put
AllSubs-put Q fd s [] h a = tt
AllSubs-put Q fd s ((k, t) ∷ subs) h a = elim (Bool-cases (k == fd)) [
  | inl hit ↦ rw hit (h, AllSubs-put Q fd s subs h a.1)
  | inr miss ↦ rw miss (a.0, AllSubs-put Q fd s subs h a.1)
]

pub AllSubs-snoc :
    (Q : Subscriber → Type 0) (fd : ℕ) (s : Subscriber) (subs : List (ℕ × Subscriber))
    → Q s
    → AllSubs Q subs
    → AllSubs Q (subs ++ (fd, s) ∷ [])
AllSubs-snoc Q fd s [] h a = (h, tt)
AllSubs-snoc Q fd s ((k, t) ∷ subs) h a = (a.0, AllSubs-snoc Q fd s subs h a.1)

pub AllSubs-step_each :
    (Q : Subscriber → Type 0) (f : Subscriber → Subscriber × Bool) (subs : List (ℕ × Subscriber))
    → ((s : Subscriber) → Q s → Q (f s).0)
    → AllSubs Q subs
    → AllSubs Q (step_each f subs).0
unfolding step_each
AllSubs-step_each Q f [] h a = tt
AllSubs-step_each Q f ((fd, s) ∷ subs) h a = (h s a.0, AllSubs-step_each Q f subs h a.1)
