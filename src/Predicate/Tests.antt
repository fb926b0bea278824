-- ===== src/Predicate/Tests.antt =====
-- Runs of the model of waitbus/_predicate.py.
use waitbus.Prelude.{
  String, ◌≡◌, refl, true, ◌&&◌, ◌||◌, Option, none, some, List, [], ◌∷◌, ◌++◌, str_eq,
  if◌then◌else◌,
}
use waitbus.Json.{json_eq, pos, negsuc, Json, null, bool, int, str, arr, obj, nil, cons, end, field}
use waitbus.Predicate.{to_int, Groups, evaluate_groups, compose, compose_any, Predicate}
use waitbus.Predicate.Laws.{compose-append}

unfoldable some_loads : String → Option Json
some_loads s =
    if str_eq s "1" then some (int (pos 1)) else if str_eq s "null" then some null else none

abbrev specs : List String
specs = "a.-1=1" ∷ " b =null" ∷ "a.-1=null" ∷ []

abbrev gathered : Groups
gathered = ("a.-1", int (pos 1) ∷ null ∷ []) ∷ ("b", null ∷ []) ∷ []

abbrev either : Predicate
either = record { evaluate = evaluate_groups gathered; source = "a.-1=1  b =null a.-1=null" }

abbrev a_frame : Json
a_frame = obj (field "b" null (field "a" (arr (cons (str "x") (cons (bool true) nil))) end))

-- `true` is equal to 1, and the index -1 is the last.
holds : either.evaluate a_frame ≡ true
unfolding evaluate_groups json_eq
holds = refl

underscores : to_int " -1_0 " ≡ some (negsuc 9)
unfolding to_int
underscores = refl

not_an_int : to_int "1__0" ≡ none
unfolding to_int
not_an_int = refl

compose-append_example :
    ((compose ((either ∷ []) ++ either ∷ either ∷ [])).evaluate a_frame ≡ (
      (compose (either ∷ [])).evaluate a_frame
      && (compose (either ∷ either ∷ [])).evaluate a_frame))
    × ((compose_any ((either ∷ []) ++ either ∷ either ∷ [])).evaluate a_frame ≡ (
        (compose_any (either ∷ [])).evaluate a_frame
        || (compose_any (either ∷ either ∷ [])).evaluate a_frame))
compose-append_example = compose-append (either ∷ []) (either ∷ either ∷ []) a_frame
