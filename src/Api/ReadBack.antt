-- ===== src/Api/ReadBack.antt =====
-- Fields that are read back as they were written.
use pincerbell.Base.{
  List, [], ◌∷◌, All, ◌^◌, ◌<◌, ◌≡◌, ◌∙◌, refl, ap, Option, none, some, String, Result, ok,
  string_eq, arith,
}
use mathlib.Core.Option
use pincerbell.Json
use pincerbell.Json.{
  ℤ, pos, negsuc, Value, null, bool, num, real, str, arr, obj, Items, nil, cons, Fields, end, field,
  get-put, get-put_opt, json_laws,
}
use pincerbell.Api.{items_of, Prio, Counts, prio_value, counts_value, nat_value}
use pincerbell.Api.Read.{
  read_each, read_option, optional, required, read_string, read_u64, read_i64, read_map, read_prio,
  read_counts, fields_of, prio_of, read_bool,
}

unfoldable pub IsI64 : ℤ → Type 0
IsI64 (pos n) = n < 2 ^ 63
IsI64 (negsuc n) = n < 2 ^ 63

-- A predicate of the value, if there is one.
unfoldable pub Within {ℓ} : {A : Type ℓ} → (A → Type 0) → Option A → Type 0
Within P none = Unit
Within P (some a) = P a

pub record IsCounts (c : Counts) : Type 0 where
  pub unread_range : Within (λ n. n < 2 ^ 64) c.unread
  pub missed_range : Within (λ n. n < 2 ^ 64) c.missed_calls

-- `read` reads back what `write` writes of the values of `P`.
abbrev pub ReadsBack {ℓ} :
    {A : Type ℓ} → (A → Type 0) → (Value → Result A String) → (A → Value) → Type ℓ
ReadsBack P read write = (a : _) → P a → read_option read (some (write a)) ≡ ok (some a)

abbrev pub Anything {ℓ} : {A : Type ℓ} → A → Type 0
Anything a = Unit

pub Within-Anything {ℓ} : {A : Type ℓ} (o : Option A) → Within Anything o
unfolding Within
Within-Anything none = tt
Within-Anything (some a) = tt

pub optional-map {ℓ} :
    {A : Type ℓ} (P : A → Type 0) (read : Value → Result A String) (write : A → Value) (fs : Fields)
    (k : String) (o : Option A)
    → ReadsBack P read write
    → Json.get fs k ≡ Option.map write o
    → Within P o
    → optional read fs k ≡ ok o
unfolding Within optional read_option
optional-map P read write fs k none law there v = ap (read_option read) there
optional-map P read write fs k (some a) law there v = ap (read_option read) there ∙ law a v

pub required-some {ℓ} :
    {A : Type ℓ} (read : Value → Result A String) (fs : Fields) (k : String) (v : Value) (a : A)
    → Json.get fs k ≡ some v
    → read v ≡ ok a
    → required read fs k ≡ ok a
unfolding required
required-some read fs k v a there good = rw (there, required) good

pub read_string-str : ReadsBack Anything read_string str
unfolding read_option read_string
read_string-str s v = refl

read_u64-nat_value : ReadsBack (λ n. n < 2 ^ 64) read_u64 nat_value
unfolding read_option read_u64
read_u64-nat_value n v = ground (arith, v)

pub read_i64-num : ReadsBack IsI64 read_i64 num
unfolding read_option read_i64 IsI64
read_i64-num (pos n) v = ground (arith, v)
read_i64-num (negsuc n) v = ground (arith, v)

pub read_map-obj : ReadsBack Anything read_map obj
unfolding read_option read_map
read_map-obj fs v = refl

pub read_bool-bool : ReadsBack Anything read_bool bool
unfolding read_option read_bool
read_bool-bool b v = refl

pub read_prio-prio_value : ReadsBack Anything read_prio prio_value
unfolding read_option read_prio prio_of prio_value
read_prio-prio_value Prio.high v = refl
read_prio-prio_value Prio.low v = refl

pub read_counts-counts_value : ReadsBack IsCounts read_counts counts_value
unfolding read_option read_counts counts_value fields_of
read_counts-counts_value c v =
    let fs =
      Json.put_opt (Json.put_opt end "unread" (Option.map nat_value c.unread)) "missed_calls"
        (Option.map nat_value c.missed_calls) in
    let e1 : optional read_u64 fs "unread" ≡ ok c.unread =
      optional-map _ read_u64 nat_value fs "unread" c.unread read_u64-nat_value (simp (json_laws))
        v.unread_range in
    let e2 : optional read_u64 fs "missed_calls" ≡ ok c.missed_calls =
      optional-map _ read_u64 nat_value fs "missed_calls" c.missed_calls read_u64-nat_value
        (simp (json_laws)) v.missed_range in
    simp (e1, e2)

-- The items of a list are read back one by one.
pub read_each-items_of {ℓ} :
    {A : Type ℓ} (P : A → Type 0) (read : Value → Result A String) (write : A → Value) (xs : List A)
    → ((a : A) → P a → read (write a) ≡ ok a)
    → All P xs
    → read_each read (items_of write xs) ≡ ok xs
unfolding read_each items_of
read_each-items_of P read write [] law vs = refl
read_each-items_of P read write (x ∷ xs) law (v, vs) =
    simp (law x v, read_each-items_of P read write xs law vs)
