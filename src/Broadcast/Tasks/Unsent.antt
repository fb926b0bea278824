-- ===== src/Broadcast/Tasks/Unsent.antt =====
-- What the handshakes of waitbus/broadcast.py have still to send of their acknowledgements.
use waitbus.Prelude.{
  ℕ, ◌<◌, ◌≡◌, sym, ap, ◌∙◌, subst, ◌⊎◌, inl, inr, Option, none, some, [], arith, ◌==◌, Bool-cases,
  length,
}
use waitbus.Frame.{Bytes}
use waitbus.Broadcast.Tasks.{assign, still_pending, IsFrame, Pending}

-- What is still to be sent of an acknowledgement is all of it, or nothing.
abbrev pub IsUnsent : Bytes → Option Bytes → Type 0
IsUnsent ack none = Unit
IsUnsent ack (some rest) = (rest ≡ []) ⊎ (rest ≡ ack)

abbrev pub rest_of : Bytes → Option Pending → Bytes
rest_of b none = b
rest_of b (some p) = p.rest

module _ (P : Bytes → Type 0) where
  -- What is pending is whole acknowledgements, or nothing is left of them.
  abbrev pub AllPending : (ℕ → Option Pending) → Type 0
  AllPending pending =
      (fd : ℕ) (p : Pending) → pending fd ≡ some p → (p.rest ≡ []) ⊎ IsFrame P p.rest

  pub assign-AllPending :
      (fd : ℕ) (o : Option Pending) (pending : ℕ → Option Pending)
      → ((p : Pending) → o ≡ some p → (p.rest ≡ []) ⊎ IsFrame P p.rest)
      → AllPending pending
      → AllPending (assign fd o pending)
  assign-AllPending fd o pending f a k p e = elim (Bool-cases (k == fd)) [
    | inl hit ↦ f p (rw hit at e)
    | inr miss ↦ a k p (rw miss at e)
  ]

  pub still_pending-AllPending :
      (p : Pending) (o : Option Bytes) (p' : Pending)
      → IsFrame P p.rest
      → IsUnsent p.rest o
      → still_pending p o ≡ some p'
      → (p'.rest ≡ []) ⊎ IsFrame P p'.rest
  still_pending-AllPending p none p' f u e = cc
  still_pending-AllPending p (some rest) p' f u e =
      let same : rest ≡ p'.rest = ap (λ (o : Option Pending). rest_of rest o) e in
      elim u [
        | inl over ↦ inl (sym same ∙ over)
        | inr all ↦ inr (subst (λ (b : Bytes). IsFrame P b) (sym all ∙ same) f)
      ]

  pub pending-IsFrame : (b : Bytes) → 0 < length b → ((b ≡ []) ⊎ IsFrame P b) → IsFrame P b
  pending-IsFrame b more (inl over) =
      let none_left : length b ≡ 0 = ap (λ (x : Bytes). length x) over in
      absurd (omega (arith, more, none_left))
  pending-IsFrame b more (inr f) = f
