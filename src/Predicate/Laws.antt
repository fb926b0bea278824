-- ===== src/Predicate/Laws.antt =====
-- What the predicates of waitbus/_predicate.py mean.
use waitbus.Prelude.{◌≡◌, refl, ◌&&◌, ◌||◌, List, [], ◌∷◌, ◌++◌, arith}
use waitbus.Json.{Json}
use waitbus.Predicate.{all_hold, any_holds, compose, compose_any, Predicate}

compose-all_hold :
    (ps : List Predicate) (frame : Json) → (compose ps).evaluate frame ≡ all_hold ps frame
unfolding compose
compose-all_hold [] frame = refl
compose-all_hold (p ∷ []) frame = ground arith
compose-all_hold (p ∷ q ∷ ps) frame = refl

compose_any-any_holds :
    (ps : List Predicate) (frame : Json) → (compose_any ps).evaluate frame ≡ any_holds ps frame
unfolding compose_any
compose_any-any_holds [] frame = refl
compose_any-any_holds (p ∷ []) frame = ground arith
compose_any-any_holds (p ∷ q ∷ ps) frame = refl

all_hold-append :
    (ps qs : List Predicate) (frame : Json)
    → all_hold (ps ++ qs) frame ≡ (all_hold ps frame && all_hold qs frame)
unfolding all_hold
all_hold-append [] qs frame = refl
all_hold-append (p ∷ ps) qs frame = ground (arith, all_hold-append ps qs frame)

any_holds-append :
    (ps qs : List Predicate) (frame : Json)
    → any_holds (ps ++ qs) frame ≡ (any_holds ps frame || any_holds qs frame)
unfolding any_holds
any_holds-append [] qs frame = refl
any_holds-append (p ∷ ps) qs frame = ground (arith, any_holds-append ps qs frame)

-- Composition may be nested at will: `compose` of two lists end to end holds exactly where both composed
-- lists hold, and `compose_any` exactly where one of them does, for lists of any lengths, empty or single.
pub compose-append :
    (ps qs : List Predicate) (frame : Json)
    → ((compose (ps ++ qs)).evaluate frame
        ≡ ((compose ps).evaluate frame && (compose qs).evaluate frame))
      × ((compose_any (ps ++ qs)).evaluate frame
          ≡ ((compose_any ps).evaluate frame || (compose_any qs).evaluate frame))
compose-append ps qs frame = (
  rw (compose-all_hold (ps ++ qs) frame, compose-all_hold ps frame, compose-all_hold qs frame)
      (all_hold-append ps qs frame),
  rw
      (
        compose_any-any_holds (ps ++ qs) frame,
        compose_any-any_holds ps frame,
        compose_any-any_holds qs frame,
      )
      (any_holds-append ps qs frame),
)
