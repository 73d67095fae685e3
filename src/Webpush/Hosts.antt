-- ===== src/Webpush/Hosts.antt =====
-- Which hosts the allowlist of the Web Push backend covers.
use pincerbell.Base.{
  ℕ, zero, suc, ◌+◌, ◌-◌, ◌<◌, ◌≡◌, ◌≢◌, ◌↔◌, ◌⊎◌, ◌∙◌, ap, refl, subst, true, none, some, List, [],
  ◌∷◌, ◌++◌, String, string_eq, ok, length, drop, any, Any, arith, Bool-cases, Option-cases, inl,
  inr, length-append, eq_iff, nat_beq_iff,
}
use pincerbell.QueueSide.Laws.{bytes_beq_iff}
use pincerbell.Webpush.{
  Bytes, Url, is_loopback, byte_at, ends_with, dot, is_dot, is_subdomain, wildcard, is_covered,
  scheme_allowed, endpoint_allowed,
}

-- A byte cuts a text in two.
cut :
    (k : ℕ) (l : Bytes) (b : ℕ)
    → byte_at l k ≡ some b
    → (front : Bytes) × (l ≡ front ++ b ∷ drop (suc k) l) × (length front ≡ k)
unfolding byte_at
cut k [] b h = cc
cut zero (x ∷ l) b h = ([], ground (arith, h), omega arith)
cut (suc k) (x ∷ l) b h =
    let (front, whole, size) = cut k l b h in
    (x ∷ front, ground (arith, whole), omega (arith, size))

byte_at-append :
    (front : Bytes) (b : ℕ) (rest : Bytes) → byte_at (front ++ b ∷ rest) (length front) ≡ some b
unfolding byte_at
byte_at-append [] b rest = refl
byte_at-append (x ∷ front) b rest = byte_at-append front b rest

drop-append :
    (front : Bytes) (b : ℕ) (rest : Bytes) → drop (suc (length front)) (front ++ b ∷ rest) ≡ rest
drop-append [] b rest = refl
drop-append (x ∷ front) b rest = drop-append front b rest

is_subdomain-label :
    (host suffix : Bytes)
    → is_subdomain host suffix ≡ true
    → (label : Bytes) × (label ≢ []) × (host ≡ label ++ dot ∷ suffix)
unfolding is_subdomain ends_with is_dot
is_subdomain-label host suffix h =
    let k : ℕ = length host - length suffix - 1 in
    let long : length suffix + 1 < length host = ground (arith, h) in
    let next : suc k ≡ length host - length suffix = omega (arith, long) in
    let tail : drop (length host - length suffix) host ≡ suffix =
      ground (arith, h, bytes_beq_iff (drop (length host - length suffix) host) suffix) in
    elim (Option-cases (byte_at host k)) [
      | inl absent ↦ absurd (ground (arith, h, absent))
      | inr (b, found) ↦
          let is_a_dot : b ≡ dot = ground (arith, h, found, nat_beq_iff b dot) in
          let (front, whole, size) = cut k host b found in
          (
            front,
            λ empty. absurd (omega (arith, long, size, ap (λ (l : Bytes). length l) empty)),
            subst (λ (t : Bytes). host ≡ front ++ t)
                (ap (λ (x : ℕ). x ∷ drop (suc k) host) is_a_dot
                  ∙ ap (λ (t : Bytes). dot ∷ t) (ap (λ (j : ℕ). drop j host) next ∙ tail))
                whole,
          )
    ]

is_subdomain-of_label :
    (label suffix : Bytes) → label ≢ [] → is_subdomain (label ++ dot ∷ suffix) suffix ≡ true
unfolding is_subdomain ends_with is_dot
is_subdomain-of_label [] suffix some_label = absurd (some_label refl)
is_subdomain-of_label (x ∷ label) suffix some_label =
    let front : Bytes = x ∷ label in
    let host : Bytes = front ++ dot ∷ suffix in
    let size = length-append front (dot ∷ suffix) in
    let next : length host - length suffix ≡ suc (length front) = omega (arith, size) in
    let k : length host - length suffix - 1 ≡ length front = omega (arith, size) in
    let tail : drop (length host - length suffix) host ≡ suffix =
      ap (λ (j : ℕ). drop j host) next ∙ drop-append front dot suffix in
    let found : byte_at host (length host - length suffix - 1) ≡ some dot =
      ap (λ (j : ℕ). byte_at host j) k ∙ byte_at-append front dot suffix in
    ground
      (arith, size, tail, found, bytes_beq_iff (drop (length host - length suffix) host) suffix)

wildcard-eq-some : (entry suffix : Bytes) → wildcard entry ≡ some suffix → entry ≡ 42 ∷ dot ∷ suffix
unfolding wildcard
wildcard-eq-some [] suffix h = cc
wildcard-eq-some (a ∷ []) suffix h = cc
wildcard-eq-some (a ∷ b ∷ rest) suffix h = ground (arith, h, nat_beq_iff a 42, nat_beq_iff b dot)

wildcard-of_star : (suffix : Bytes) → wildcard (42 ∷ dot ∷ suffix) ≡ some suffix
unfolding wildcard
wildcard-of_star suffix = refl

-- An entry "*.suffix" covers every host with a label of at least one byte in front of ".suffix",
-- and any other entry covers itself.
pub data Covers (host : Bytes) : Bytes → Type 0 where
  exact : {entry : Bytes} → wildcard entry ≡ none → host ≡ entry → Covers host entry
  subdomain :
      {entry : Bytes} (label suffix : Bytes)
      → entry ≡ 42 ∷ dot ∷ suffix
      → label ≢ []
      → host ≡ label ++ dot ∷ suffix
      → Covers host entry

is_covered-Covers : (host entry : Bytes) → is_covered host entry ≡ true → Covers host entry
unfolding is_covered
is_covered-Covers host entry h = elim (Option-cases (wildcard entry)) [
  | inl plain ↦ exact plain (ground (arith, h, plain, bytes_beq_iff host entry))
  | inr (suffix, star) ↦
      let (label, some_label, whole) = is_subdomain-label host suffix (ground (arith, h, star)) in
      subdomain label suffix (wildcard-eq-some entry suffix star) some_label whole
]

Covers-is_covered : (host entry : Bytes) → Covers host entry → is_covered host entry ≡ true
unfolding is_covered
Covers-is_covered host entry (exact plain same) =
    ground (arith, plain, same, bytes_beq_iff host entry)
Covers-is_covered host entry (subdomain label suffix star some_label whole) =
    let starred : wildcard entry ≡ some suffix = ap wildcard star ∙ wildcard-of_star suffix in
    let matches : is_subdomain host suffix ≡ true =
      ap (λ (x : Bytes). is_subdomain x suffix) whole
      ∙ is_subdomain-of_label label suffix some_label in
    ground (arith, starred, matches)

any-Covers :
    (host : Bytes) (allowlist : List Bytes)
    → (any (is_covered host) allowlist ≡ true) ↔ Any (Covers host) allowlist
any-Covers host [] = (λ h. absurd (ground (arith, h)), λ h. absurd h)
any-Covers host (entry ∷ rest) = elim (Bool-cases (is_covered host entry)) [
  | inl here ↦ (λ h. inl (is_covered-Covers host entry here), λ h. ground (arith, here))
  | inr not_here ↦ (
    λ h. inr ((any-Covers host rest).0 (ground (arith, h, not_here))),
    λ h. elim h [
      | inl x ↦ absurd (ground (arith, not_here, Covers-is_covered host entry x))
      | inr x ↦ ground (arith, (any-Covers host rest).1 x)
    ],
  )
]

scheme_allowed_iff :
    (scheme : String) (host : Bytes)
    → (scheme_allowed scheme host ≡ true)
      ↔ ((scheme ≡ "https") ⊎ ((scheme ≡ "http") × (is_loopback host ≡ true)))
unfolding scheme_allowed
scheme_allowed_iff scheme host = (
  λ h. ground (arith, h, eq_iff scheme "https", eq_iff scheme "http"),
  λ h. ground (arith, h, eq_iff scheme "https", eq_iff scheme "http"),
)

-- The backend may contact an endpoint exactly if its URL has a host, the scheme is https, or http
-- with a loopback host, and an entry of the allowlist covers the host: the host itself, or
-- "*.suffix" for a host that is a label of at least one byte, a dot and the suffix.
pub endpoint_allowed-eq-ok :
    (url : Url) (allowlist : List Bytes)
    → (endpoint_allowed url allowlist ≡ ok tt) ↔ (
        (host : Bytes) × (url.host ≡ some host)
        × ((url.scheme ≡ "https") ⊎ ((url.scheme ≡ "http") × (is_loopback host ≡ true)))
        × Any (Covers host) allowlist)
unfolding endpoint_allowed
endpoint_allowed-eq-ok url allowlist = elim (Option-cases url.host) [
  | inl absent ↦ (
    λ h. absurd (ground (arith, h, absent)),
    λ (host, there, _, _). absurd (ground (arith, there, absent)),
  )
  | inr (host, there) ↦ (
    λ h. (
      host,
      there,
      (scheme_allowed_iff url.scheme host).0 (ground (arith, h, there)),
      (any-Covers host allowlist).0 (ground (arith, h, there)),
    ),
    λ (host', there', good, covered).
        let schemed = (scheme_allowed_iff url.scheme host').1 good in
        let listed = (any-Covers host' allowlist).1 covered in
        rw (there', schemed, listed, endpoint_allowed) refl,
  )
]
