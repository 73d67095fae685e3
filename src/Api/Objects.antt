-- ===== src/Api/Objects.antt =====
-- The entries of a flattened field beside another field.
use pincerbell.Base.{
  ◌≡◌, ◌⊎◌, ◌∙◌, refl, ap, Option, none, some, String, ◌==◌, string_eq, arith, inl, inr, eq_iff,
  Bool-cases,
}
use mathlib.Core.Option
use pincerbell.Json
use pincerbell.Json.{
  ℤ, pos, negsuc, Value, null, bool, num, real, str, arr, obj, Items, nil, cons, Fields, end, field,
  get-put, get-put_opt, json_laws,
}
use pincerbell.Api.{flatten}
use pincerbell.Api.Read.{without}

-- A map has each key once.
unfoldable pub IsMap : Fields → Type 0
IsMap end = Unit
IsMap (field k v fs) = (Json.get fs k ≡ none) × IsMap fs

-- The fields of one object behind those of another.
chain : Fields → Fields → Fields
chain end gs = gs
chain (field k v fs) gs = field k v (chain fs gs)

chain-put :
    (into : Fields) (k : String) (v : Value) (fs : Fields)
    → Json.get into k ≡ none
    → chain (Json.put into k v) fs ≡ chain into (field k v fs)
unfolding chain Json.put Json.get
chain-put end k v fs new = refl
chain-put (field j w into) k v fs new = ground (arith, eq_iff j k, chain-put into k v fs)

chain-end : (into : Fields) → into ≡ chain into end
unfolding chain
chain-end end = refl
chain-end (field j w into) = ap (field j w) (chain-end into)

flatten-chain :
    (into fs : Fields)
    → IsMap fs
    → ((k : String) → (Json.get into k ≡ none) ⊎ (Json.get fs k ≡ none))
    → flatten into fs ≡ chain into fs
unfolding flatten IsMap Json.get
flatten-chain into end v apart = chain-end into
flatten-chain into (field k w fs) (new, v) apart =
    flatten-chain (Json.put into k w) fs v apart' ∙ chain-put into k w fs fresh
  where
    fresh : Json.get into k ≡ none
    fresh = elim (apart k) [ inl a ↦ a | inr b ↦ absurd (ground (arith, b, eq_iff k k)) ]

    apart' : (j : String) → (Json.get (Json.put into k w) j ≡ none) ⊎ (Json.get fs j ≡ none)
    apart' j = elim (Bool-cases (k == j)) [
      | inl hit ↦ inr (ground (arith, eq_iff k j, hit, new))
      | inr miss ↦ elim (apart j) [
        | inl a ↦ inl (ground (arith, get-put into k j w, miss, a))
        | inr b ↦ inr (ground (arith, miss, b))
      ]
    ]

without-absent : (k : String) (fs : Fields) → Json.get fs k ≡ none → without k fs ≡ fs
unfolding without Json.get
without-absent k end new = refl
without-absent k (field j w fs) new = ground (arith, without-absent k fs)

-- An optional field, and others behind it.
pub flatten-format :
    (f : Option String) (fs : Fields)
    → IsMap fs
    → Json.get fs "format" ≡ none
    → (Json.get (flatten (Json.put_opt end "format" (Option.map str f)) fs) "format"
        ≡ Option.map str f)
      × (without "format" (flatten (Json.put_opt end "format" (Option.map str f)) fs) ≡ fs)
unfolding chain without Json.get Json.put_opt Json.put
flatten-format none fs v new =
    rw (flatten-chain end fs v (λ j. inl refl)) (new, without-absent "format" fs new)
flatten-format (some f) fs v new =
    let e : flatten (field "format" (str f) end) fs ≡ field "format" (str f) fs =
      flatten-chain (field "format" (str f) end) fs v (λ j. elim (Bool-cases ("format" == j)) [
        | inl hit ↦ inr (ground (arith, eq_iff "format" j, hit, new))
        | inr miss ↦ inl (ground (arith, miss))
      ]) in
    (ap (λ x. Json.get x "format") e, ap (without "format") e ∙ without-absent "format" fs new)
