-- ===== src/Queue/Reclaim.antt =====
-- The loop over the leases that have run out.
use pincerbell.Base.{
  ℕ, ◌≡◌, ◌≢◌, ◌∙◌, true, some, List, [], ◌∷◌, nat_eq, nat_beq_iff, arith, Option-cases, inl, inr,
}
use pincerbell.Time.{Duration, Instant}
use pincerbell.HashMap
use pincerbell.HashMap.{HashMap}
use pincerbell.Queue.{count_key_eq, Entry, Inner, is_live, requeue, reclaim}
use pincerbell.Queue.Index.{is_live-forget_ne, is_live-forget}
use pincerbell.Queue.Held.{held, IsValid, held-id, held-remove, held-requeue, held-lent}
use pincerbell.Queue.Steps.{remove_forget-IsValid, remove_superseded-IsValid, requeue-IsValid}
use pincerbell.Queue.Fates.{Fresh, fate-cases}

-- The state behind one round, for an entry that is leased under `id`.
abbrev pub round : Duration → Instant → ℕ → Entry → Inner → Inner
round ttl now id e i = requeue ttl now e (record i { leased = HashMap.remove i.leased id })

module _ (ttl : Duration) (now : Instant) (i : Inner) (id : ℕ) (d : Instant) (e : Entry)
    (lent : HashMap.get i.leased id ≡ some (d, e)) (v : IsValid i) where
  round-IsValid : IsValid (round ttl now id e i)
  unfolding requeue
  round-IsValid = elim (fate-cases ttl now i.count_index e) [
    | inl (f, stale) ↦ rw (f, requeue) (remove_superseded-IsValid i e id d lent stale v)
    | inr (inl (f, old)) ↦ rw (f, requeue) (remove_forget-IsValid i e id d lent v)
    | inr (inr (f, fresh)) ↦ rw (f, requeue) (requeue-IsValid i e id d lent v)
  ]

  -- An entry that is not the one of the lease stays held.
  held-remove_ne :
      (j : ℕ) (x : Entry)
      → held i.pending i.leased j ≡ some x
      → x ≢ e
      → (held i.pending (HashMap.remove i.leased id) j ≡ some x) × (e.id ≢ x.id)
  held-remove_ne j x here ne = (
    ground (
      arith,
      here,
      ne,
      held-remove i.pending i.leased id d e j lent v.parts,
      held-lent i.pending i.leased id d e lent v.parts,
      nat_beq_iff id j,
    ),
    ground (
      arith,
      here,
      ne,
      held-lent i.pending i.leased id d e lent v.parts,
      held-id j x v.parts here,
      v.parts.keyed id d e lent,
    ),
  )

  -- A fresh entry, this one or another, stays held and fresh.
  round-Fresh :
      (j : ℕ) (x : Entry)
      → held i.pending i.leased j ≡ some x
      → Fresh ttl now i.count_index x
      → (held (round ttl now id e i).pending (round ttl now id e i).leased j ≡ some x)
        × Fresh ttl now (round ttl now id e i).count_index x
  unfolding requeue
  round-Fresh j x here fr = elim (fate-cases ttl now i.count_index e) [
    | inl (f, stale) ↦
        rw (f, requeue)
          ((held-remove_ne j x here (λ same. ground (arith, same, stale, fr.live))).0, fr)
    | inr (inl (f, old)) ↦
        let (still, ne) = held-remove_ne j x here (λ same. ground (arith, same, old, fr.young)) in
        rw (f, requeue)
          (
            still,
            record { live = is_live-forget_ne i.count_index e x ne ∙ fr.live; young = fr.young },
          )
    | inr (inr (f, fresh)) ↦
        rw (f, requeue) (held-requeue i.pending i.leased id d e j lent v.parts ∙ here, fr)
  ]

  -- Nothing is made up.
  round-held :
      (j : ℕ) (x : Entry)
      → held (round ttl now id e i).pending (round ttl now id e i).leased j ≡ some x
      → held i.pending i.leased j ≡ some x
  unfolding requeue
  round-held j x here = elim (fate-cases ttl now i.count_index e) [
    | inl (f, stale) ↦ ground (arith, here, f, held-remove i.pending i.leased id d e j lent v.parts)
    | inr (inl (f, old)) ↦
        ground (arith, here, f, held-remove i.pending i.leased id d e j lent v.parts)
    | inr (inr (f, fresh)) ↦
        ground (arith, here, f, held-requeue i.pending i.leased id d e j lent v.parts)
  ]

-- A round only removes its own lease.
pub leased-round :
    (ttl : Duration) (now : Instant) (i : Inner) (id : ℕ) (e : Entry)
    → (round ttl now id e i).leased ≡ HashMap.remove i.leased id
unfolding requeue
leased-round ttl now i id e = ground arith

abbrev Kept : Duration → Instant → List ℕ → Inner → Type 0
Kept ttl now ids i =
    (j : ℕ) (x : Entry)
    → held i.pending i.leased j ≡ some x
    → Fresh ttl now i.count_index x
    → (held (reclaim ttl now ids i).pending (reclaim ttl now ids i).leased j ≡ some x)
      × Fresh ttl now (reclaim ttl now ids i).count_index x

pub reclaim-IsValid :
    (ttl : Duration) (now : Instant) (ids : List ℕ) (i : Inner)
    → IsValid i
    → IsValid (reclaim ttl now ids i)
unfolding reclaim
reclaim-IsValid ttl now [] i v = v
reclaim-IsValid ttl now (id ∷ ids) i v = elim (Option-cases (HashMap.get i.leased id)) [
  | inl absent ↦ rw (absent, reclaim) (reclaim-IsValid ttl now ids i v)
  | inr ((d, e), lent) ↦
      rw (lent, reclaim)
        (reclaim-IsValid ttl now ids (round ttl now id e i) (round-IsValid ttl now i id d e lent v))
]

pub reclaim-Fresh :
    (ttl : Duration) (now : Instant) (ids : List ℕ) (i : Inner) → IsValid i → Kept ttl now ids i
unfolding reclaim
reclaim-Fresh ttl now [] i v j x here fr = (here, fr)
reclaim-Fresh ttl now (id ∷ ids) i v j x here fr = elim (Option-cases (HashMap.get i.leased id)) [
  | inl absent ↦ rw (absent, reclaim) (reclaim-Fresh ttl now ids i v j x here fr)
  | inr ((d, e), lent) ↦
      let (here', fr') = round-Fresh ttl now i id d e lent v j x here fr in
      rw (lent, reclaim)
        (reclaim-Fresh ttl now ids (round ttl now id e i) (round-IsValid ttl now i id d e lent v) j
          x here' fr')
]

pub reclaim-held :
    (ttl : Duration) (now : Instant) (ids : List ℕ) (i : Inner) (j : ℕ) (x : Entry)
    → IsValid i
    → held (reclaim ttl now ids i).pending (reclaim ttl now ids i).leased j ≡ some x
    → held i.pending i.leased j ≡ some x
unfolding reclaim
reclaim-held ttl now [] i j x v here = here
reclaim-held ttl now (id ∷ ids) i j x v here = elim (Option-cases (HashMap.get i.leased id)) [
  | inl absent ↦ reclaim-held ttl now ids i j x v (rw (absent, reclaim) at here)
  | inr ((d, e), lent) ↦ round-held ttl now i id d e lent v j x (
      reclaim-held ttl now ids (round ttl now id e i) j x (round-IsValid ttl now i id d e lent v)
        (rw (lent, reclaim) at here))
]

is_live-round :
    (ttl : Duration) (now : Instant) (i : Inner) (id : ℕ) (e x : Entry)
    → is_live (round ttl now id e i).count_index x ≡ true
    → is_live i.count_index x ≡ true
unfolding requeue
is_live-round ttl now i id e x h = ground (arith, is_live-forget i.count_index e x)

-- The loop makes no entry live.
pub is_live-reclaim :
    (ttl : Duration) (now : Instant) (ids : List ℕ) (i : Inner) (x : Entry)
    → is_live (reclaim ttl now ids i).count_index x ≡ true
    → is_live i.count_index x ≡ true
unfolding reclaim
is_live-reclaim ttl now [] i x h = h
is_live-reclaim ttl now (id ∷ ids) i x h = elim (Option-cases (HashMap.get i.leased id)) [
  | inl absent ↦ is_live-reclaim ttl now ids i x (rw (absent, reclaim) at h)
  | inr ((d, e), lent) ↦
      is_live-round ttl now i id e x
        (is_live-reclaim ttl now ids (round ttl now id e i) x (rw (lent, reclaim) at h))
]
