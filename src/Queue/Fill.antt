-- ===== src/Queue/Fill.antt =====
-- The loop that fills the batch.
use pincerbell.Base.{
  ℕ, zero, suc, ◌+◌, ◌-◌, ◌<◌, ◌≤◌, ◌≡◌, ◌≢◌, ◌∙◌, sym, refl, false, some, List, [], ◌∷◌, nat_eq,
  nat_beq_iff, arith, inl, inr, length,
}
use pincerbell.Time.{Duration, Instant}
use pincerbell.HashMap
use pincerbell.HashMap.{HashMap}
use pincerbell.Queue.Wire.{PollEntry}
use pincerbell.Queue.{count_key_eq, Entry, Inner, is_live, forget_count_key, fill}
use pincerbell.Queue.Index.{is_live-forget_ne}
use pincerbell.Queue.Held.{Leases, held, Apart, IsValid, held-id, held-pop, held-front, held-lend}
use pincerbell.Queue.Steps.{pop_forget-IsValid, pop_superseded-IsValid, pop_lease-IsValid}
use pincerbell.Queue.Fates.{Fresh, fate-cases}

-- The state that the loop works on, with its buffer.
abbrev pub with_pending : List Entry → Inner → Inner
with_pending l i = record i { pending = l }

abbrev pub forgotten : Entry → Inner → Inner
forgotten e i = record i { count_index = forget_count_key i.count_index e }

abbrev pub lent_to : Instant → Entry → Inner → Inner
lent_to d e i = record i { leased = HashMap.insert i.leased e.id (d, e) }

abbrev pub poll_entry : Entry → PollEntry
poll_entry e = record { id = e.id; notification = e.payload }

module _ (ttl lease : Duration) (now : Instant) where
  -- One round of the loop: what holds of the result in each of the three cases.
  pub fill_cases {ℓ} :
      (P : List PollEntry × Inner → Type ℓ) (room : ℕ) (e : Entry) (rest : List Entry) (i : Inner)
      → (is_live i.count_index e ≡ false → P (fill ttl lease now (suc room) rest i))
      → (ttl ≤ now - e.enqueued → P (fill ttl lease now (suc room) rest (forgotten e i)))
      → (Fresh ttl now i.count_index e
          → let (batch, i') = fill ttl lease now room rest (lent_to (now + lease) e i) in
            P (poll_entry e ∷ batch, i'))
      → P (fill ttl lease now (suc room) (e ∷ rest) i)
  unfolding fill
  fill_cases P room e rest i stale old fresh = elim (fate-cases ttl now i.count_index e) [
    | inl (f, h) ↦ rw (f, fill) (stale h)
    | inr (inl (f, h)) ↦ rw (f, fill) (old h)
    | inr (inr (f, h)) ↦ rw (f, fill) (fresh h)
  ]

  pub fill-IsValid :
      (room : ℕ) (l : List Entry) (i : Inner)
      → IsValid (with_pending l i)
      → IsValid (fill ttl lease now room l i).1
  unfolding fill
  fill-IsValid room [] i v = v
  fill-IsValid zero (e ∷ rest) i v = v
  fill-IsValid (suc room) (e ∷ rest) i v =
      let here = with_pending (e ∷ rest) i in
      fill_cases (λ r. IsValid r.1) room e rest i
        (λ stale. fill-IsValid (suc room) rest i (pop_superseded-IsValid here e rest refl stale v))
        (λ _. fill-IsValid (suc room) rest (forgotten e i) (pop_forget-IsValid here e rest refl v))
        (λ _.
          fill-IsValid room rest (lent_to (now + lease) e i)
            (pop_lease-IsValid here e rest (now + lease) refl v))

  -- What is behind the front entry, once that is gone.
  held-pop_ne :
      (e : Entry) (rest : List Entry) (leased : Leases) (j : ℕ) (x : Entry)
      → Apart (e ∷ rest) leased
      → held (e ∷ rest) leased j ≡ some x
      → x ≢ e
      → (held rest leased j ≡ some x) × (e.id ≢ x.id)
  held-pop_ne e rest leased j x v here ne = (
    ground
        (arith, here, ne, held-pop e rest leased j v, held-front e rest leased, nat_beq_iff e.id j),
    ground (arith, here, ne, held-front e rest leased, held-id j x v here),
  )

  -- A fresh entry stays held and fresh.
  pub fill-Fresh :
      (room : ℕ) (l : List Entry) (i : Inner) (j : ℕ) (x : Entry)
      → IsValid (with_pending l i)
      → held l i.leased j ≡ some x
      → Fresh ttl now i.count_index x
      → (held (fill ttl lease now room l i).1.pending (fill ttl lease now room l i).1.leased j
          ≡ some x)
        × Fresh ttl now (fill ttl lease now room l i).1.count_index x
  unfolding fill
  fill-Fresh room [] i j x v here fr = (here, fr)
  fill-Fresh zero (e ∷ rest) i j x v here fr = (here, fr)
  fill-Fresh (suc room) (e ∷ rest) i j x v here fr =
      let all = with_pending (e ∷ rest) i in
      fill_cases (λ r. (held r.1.pending r.1.leased j ≡ some x) × Fresh ttl now r.1.count_index x)
        room e rest i
        (λ stale.
          fill-Fresh (suc room) rest i j x (pop_superseded-IsValid all e rest refl stale v)
            ((held-pop_ne e rest i.leased j x v.parts here
              (λ same. ground (arith, same, stale, fr.live))).0)
            fr)
        (λ old.
          let (still, ne) =
            held-pop_ne e rest i.leased j x v.parts here
              (λ same. ground (arith, same, old, fr.young)) in
          fill-Fresh (suc room) rest (forgotten e i) j x (pop_forget-IsValid all e rest refl v)
            still
            (record { live = is_live-forget_ne i.count_index e x ne ∙ fr.live; young = fr.young }))
        (λ _.
          fill-Fresh room rest (lent_to (now + lease) e i) j x
            (pop_lease-IsValid all e rest (now + lease) refl v)
            (held-lend e rest i.leased (now + lease) j v.parts ∙ here) fr)

  -- Nothing is made up.
  pub fill-held :
      (room : ℕ) (l : List Entry) (i : Inner) (j : ℕ) (x : Entry)
      → IsValid (with_pending l i)
      → held (fill ttl lease now room l i).1.pending (fill ttl lease now room l i).1.leased j
        ≡ some x
      → held l i.leased j ≡ some x
  unfolding fill
  fill-held room [] i j x v = λ h. h
  fill-held zero (e ∷ rest) i j x v = λ h. h
  fill-held (suc room) (e ∷ rest) i j x v =
      let all = with_pending (e ∷ rest) i in
      fill_cases (λ r. held r.1.pending r.1.leased j ≡ some x → held (e ∷ rest) i.leased j ≡ some x)
        room e rest i
        (λ stale h. ground (
          arith,
          held-pop e rest i.leased j v.parts,
          fill-held (suc room) rest i j x (pop_superseded-IsValid all e rest refl stale v) h,
        ))
        (λ _ h. ground (
          arith,
          held-pop e rest i.leased j v.parts,
          fill-held (suc room) rest (forgotten e i) j x (pop_forget-IsValid all e rest refl v) h,
        ))
        (λ _ h.
          sym (held-lend e rest i.leased (now + lease) j v.parts)
          ∙ fill-held room rest (lent_to (now + lease) e i) j x
              (pop_lease-IsValid all e rest (now + lease) refl v) h)

  -- The batch is no longer than what was asked for.
  pub length-fill-le :
      (room : ℕ) (l : List Entry) (i : Inner) → length (fill ttl lease now room l i).0 ≤ room
  unfolding fill
  length-fill-le room [] i = omega arith
  length-fill-le zero (e ∷ rest) i = omega arith
  length-fill-le (suc room) (e ∷ rest) i =
      fill_cases (λ r. length r.0 ≤ suc room) room e rest i (λ _. length-fill-le (suc room) rest i)
        (λ _. length-fill-le (suc room) rest (forgotten e i))
        (λ _. omega (arith, length-fill-le room rest (lent_to (now + lease) e i)))

  -- A batch that is not full has emptied the buffer.
  pub fill-empties :
      (room : ℕ) (l : List Entry) (i : Inner)
      → length (fill ttl lease now room l i).0 < room
      → (fill ttl lease now room l i).1.pending ≡ []
  unfolding fill
  fill-empties room [] i = λ _. refl
  fill-empties zero (e ∷ rest) i = λ short. absurd (omega arith)
  fill-empties (suc room) (e ∷ rest) i =
      fill_cases (λ r. length r.0 < suc room → r.1.pending ≡ []) room e rest i
        (λ _. fill-empties (suc room) rest i) (λ _. fill-empties (suc room) rest (forgotten e i))
        (λ _ short. fill-empties room rest (lent_to (now + lease) e i) (omega arith))
