-- ===== src/Queue/Steps.antt =====
-- What the loops do with one entry keeps the invariant of the queue.
use pincerbell.Base.{
  ℕ, ◌∙◌, sym, subst, ◌≡◌, refl, false, some, List, ◌∷◌, nat_eq, nat_beq_iff, arith,
}
use pincerbell.Time.{Instant}
use pincerbell.HashMap
use pincerbell.HashMap.{HashMap}
use pincerbell.Queue.{CountKey, count_key_eq, Entry, Inner, is_live, forget_count_key}
use pincerbell.Queue.Index.{get-forget, forget-not_live}
use pincerbell.Queue.Held.{
  held, Apart, IsValid, held-pop, Apart-pop, Apart-push, held-remove, Apart-remove, Apart-insert,
  held-lend, held-requeue, held-front, held-lent,
}

-- A step that holds no more than before, and still holds what its index names.
pub transfer :
    (i i' : Inner)
    → IsValid i
    → Apart i'.pending i'.leased
    → i'.next_id ≡ i.next_id
    → ((id : ℕ) (e : Entry)
        → held i'.pending i'.leased id ≡ some e
        → held i.pending i.leased id ≡ some e)
    → ((k : CountKey) (id : ℕ)
        → HashMap.get i'.count_index k ≡ some id
        → (HashMap.get i.count_index k ≡ some id)
          × ((e : Entry)
              → held i.pending i.leased id ≡ some e
              → e.count_key ≡ some k
              → held i'.pending i'.leased id ≡ some e))
    → IsValid i'
transfer i i' v parts same less named = record {
  parts = parts;
  below = λ id e h. omega (arith, same, v.below id e (less id e h));
  indexed = λ k id h.
      let (old, still) = named k id h in
      let (e, here, counted) = v.indexed k id old in (e, still e here counted, counted);
}

module _ (i : Inner) (e : Entry) where
  -- The front entry leaves the buffer, and its count key the index.
  pub pop_forget-IsValid :
      (rest : List Entry)
      → i.pending ≡ e ∷ rest
      → IsValid i
      → IsValid (record i { pending = rest; count_index = forget_count_key i.count_index e })
  pop_forget-IsValid rest front v =
      let parts : Apart (e ∷ rest) i.leased =
        subst (λ (l : List Entry). Apart l i.leased) front v.parts in
      transfer i _ v (Apart-pop e rest i.leased parts) refl
        (λ id x h. ground (arith, front, held-pop e rest i.leased id parts, h))
        (λ k id h.
          let (old, other) = get-forget i.count_index e k id h in
          (
            old,
            λ x here counted. ground (
              arith,
              front,
              held-pop e rest i.leased id parts,
              held-front e rest i.leased,
              here,
              counted,
              other,
              nat_beq_iff e.id id,
            ),
          ))

  -- A superseded front entry leaves the buffer.
  pub pop_superseded-IsValid :
      (rest : List Entry)
      → i.pending ≡ e ∷ rest
      → is_live i.count_index e ≡ false
      → IsValid i
      → IsValid (record i { pending = rest })
  pop_superseded-IsValid rest front stale v =
      subst (λ (ix : HashMap CountKey ℕ). IsValid (record i { pending = rest; count_index = ix }))
        (forget-not_live i.count_index e stale) (pop_forget-IsValid rest front v)

  -- The front entry is leased.
  pub pop_lease-IsValid :
      (rest : List Entry) (d : Instant)
      → i.pending ≡ e ∷ rest
      → IsValid i
      → IsValid (record i { pending = rest; leased = HashMap.insert i.leased e.id (d, e) })
  pop_lease-IsValid rest d front v =
      let parts : Apart (e ∷ rest) i.leased =
        subst (λ (l : List Entry). Apart l i.leased) front v.parts in
      transfer i _ v
        (Apart-insert rest i.leased d e parts.distinct.0 (Apart-pop e rest i.leased parts)) refl
        (λ id x h. ground (arith, front, held-lend e rest i.leased d id parts, h))
        (λ k id h.
          (h, λ x here counted. ground (arith, front, held-lend e rest i.leased d id parts, here)))

  module _ (id : ℕ) (d : Instant) (lent : HashMap.get i.leased id ≡ some (d, e)) where
    -- A leased entry is settled, or found expired.
    pub remove_forget-IsValid :
        IsValid i
        → IsValid (record i {
          leased = HashMap.remove i.leased id;
          count_index = forget_count_key i.count_index e;
        })
    remove_forget-IsValid v =
        transfer i _ v (Apart-remove i.pending i.leased id v.parts) refl
          (λ j x h. ground (arith, held-remove i.pending i.leased id d e j lent v.parts, h))
          (λ k j h.
            let (old, other) = get-forget i.count_index e k j h in
            (
              old,
              λ x here counted. ground (
                arith,
                held-remove i.pending i.leased id d e j lent v.parts,
                held-lent i.pending i.leased id d e lent v.parts,
                v.parts.keyed id d e lent,
                here,
                counted,
                other,
                nat_beq_iff id j,
              ),
            ))

    pub remove_superseded-IsValid :
        is_live i.count_index e ≡ false
        → IsValid i
        → IsValid (record i { leased = HashMap.remove i.leased id })
    remove_superseded-IsValid stale v =
        subst
          (λ (ix : HashMap CountKey ℕ).
            IsValid (record i { leased = HashMap.remove i.leased id; count_index = ix }))
          (forget-not_live i.count_index e stale) (remove_forget-IsValid v)

    -- An entry goes from its lease to the front of the buffer.
    pub requeue-IsValid :
        IsValid i
        → IsValid (record i { pending = e ∷ i.pending; leased = HashMap.remove i.leased id })
    requeue-IsValid v =
        transfer i _ v
          (Apart-push e i.pending (HashMap.remove i.leased id)
            (ground (
              arith,
              held-remove i.pending i.leased id d e e.id lent v.parts,
              v.parts.keyed id d e lent,
              nat_beq_iff id e.id,
            ))
            (Apart-remove i.pending i.leased id v.parts))
          refl (λ j x h. sym (held-requeue i.pending i.leased id d e j lent v.parts) ∙ h)
          (λ k j h.
            (h, λ x here counted. held-requeue i.pending i.leased id d e j lent v.parts ∙ here))
