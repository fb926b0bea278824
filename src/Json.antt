-- ===== src/Json.antt =====
-- Values of `json.loads`, as waitbus handles them, and Python's `==` on them.
-- A finite float is an integer divided by a power of two, which every double is; an object is its
-- entries in order, with distinct keys, as a `dict` is.
use waitbus.Prelude.{
  ℕ, suc, ◌+◌, ◌-◌, ◌*◌, ◌^◌, String, ◌≡◌, refl, Bool, true, false, not, ◌&&◌, Option, none, some,
  str_eq, ◌==◌, if◌then◌else◌,
}

-- `negsuc n` is -(n + 1).
pub data ℤ : Type 0 where
  pos : ℕ → ℤ
  negsuc : ℕ → ℤ

mutual
  pub data Json : Type 0 where
    null nan : Json
    bool : Bool → Json
    int : ℤ → Json
    real : ℤ → ℕ → Json
    infinity : Bool → Json
    str : String → Json
    arr : Items → Json
    obj : Fields → Json

  pub data Items : Type 0 where
    nil : Items
    cons : Json → Items → Items

  pub data Fields : Type 0 where
    end : Fields
    field : String → Json → Fields → Fields

-- `d.get(key)` and `key in d`
unfoldable pub get? : String → Fields → Option Json
get? k end = none
get? k (field j v fs) = if str_eq j k then some v else get? k fs

-- `d.get(key)`, with `None` for a missing key
unfoldable pub get : String → Fields → Json
unfolding get?
get k fs = elim (get? k fs) [ none ↦ null | some v ↦ v ]

unfoldable pub size : Fields → ℕ
size end = 0
size (field k v fs) = suc (size fs)

unfoldable pub times : ℤ → ℕ → ℤ
times (pos n) k = pos (n * k)
times (negsuc n) k = if k == 0 then pos 0 else negsuc ((n + 1) * k - 1)

unfoldable pub int_eq : ℤ → ℤ → Bool
int_eq (pos m) (pos n) = m == n
int_eq (negsuc m) (negsuc n) = m == n
int_eq _ _ = false

-- A number m / 2 ^ k; `True` is 1 and `False` is 0.
pub record Number : Type 0 where
  pub mantissa : ℤ
  pub scale : ℕ

unfoldable pub number : Json → Option Number
number (bool b) = some (record { mantissa = pos (if b then 1 else 0); scale = 0 })
number (int z) = some (record { mantissa = z; scale = 0 })
number (real m k) = some (record { mantissa = m; scale = k })
number _ = none

unfoldable pub number_eq : Option Number → Option Number → Bool
unfolding int_eq times
number_eq (some a) (some b) =
    int_eq (times a.mantissa (2 ^ b.scale)) (times b.mantissa (2 ^ a.scale))
number_eq _ _ = false

-- `a == b`. Objects are compared without regard to the order of their entries.
unfoldable mutual
  unfolding get? size number number_eq

  pub json_eq : Json → Json → Bool
  json_eq null null = true
  json_eq (infinity s) (infinity t) = if s then t else not t
  json_eq (str s) (str t) = str_eq s t
  json_eq (arr xs) (arr ys) = items_eq xs ys
  json_eq (obj fs) (obj gs) = size fs == size gs && fields_within fs gs
  json_eq a b = number_eq (number a) (number b)

  pub items_eq : Items → Items → Bool
  items_eq nil nil = true
  items_eq (cons x xs) (cons y ys) = json_eq x y && items_eq xs ys
  items_eq _ _ = false

  pub fields_within : Fields → Fields → Bool
  fields_within end gs = true
  fields_within (field k v fs) gs =
      elim (get? k gs) [ none ↦ false | some w ↦ json_eq v w ] && fields_within fs gs

-- `isinstance(v, str)`, and a non-empty one
unfoldable pub as_str : Json → Option String
as_str (str s) = some s
as_str _ = none

unfoldable pub as_nonempty : Json → Option String
as_nonempty (str s) = if str_eq s "" then none else some s
as_nonempty _ = none

-- The integer 1 is `true`, and not the text "1".
one_eq_true : json_eq (int (pos 1)) (bool true) ≡ true
unfolding json_eq
one_eq_true = refl

one_ne_text : json_eq (int (pos 1)) (str "1") ≡ false
unfolding json_eq
one_ne_text = refl

half_eq_two_quarters : json_eq (real (pos 1) 1) (real (pos 2) 2) ≡ true
unfolding json_eq
half_eq_two_quarters = refl
