-- ===== src/Json/Laws.antt =====
-- Reads after writes.
use pincerbell.Base.{
  ◌≡◌, refl, Option, none, some, String, ◌==◌, string_eq, if◌then◌else◌, arith, eq_iff,
}
use pincerbell.Json.Defs.{Value, Fields, end, field, get, put, put_opt}

pub get-put :
    (fs : Fields) (k j : String) (v : Value)
    → get (put fs k v) j ≡ (if k == j then some v else get fs j)
unfolding get put
get-put end k j v = refl
get-put (field i w fs) k j v = ground (arith, eq_iff k j, eq_iff i k, eq_iff i j, get-put fs k j v)

-- What `put_opt` leaves of the old value.
abbrev pub or_else {ℓ} : {A : Type ℓ} → Option A → Option A → Option A
or_else none b = b
or_else (some a) b = some a

pub get-end : (k : String) → get end k ≡ none
unfolding get
get-end k = refl

pub or_else-none {ℓ} : {A : Type ℓ} (o : Option A) → or_else o none ≡ o
or_else-none none = refl
or_else-none (some a) = refl

pub get-put_opt :
    (fs : Fields) (k j : String) (o : Option Value)
    → get (put_opt fs k o) j ≡ (if k == j then or_else o (get fs j) else get fs j)
unfolding put_opt
get-put_opt fs k j none = ground arith
get-put_opt fs k j (some v) = get-put fs k j v

pub ruleset json_laws = (get-put, get-put_opt, get-end, or_else-none)
