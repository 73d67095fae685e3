-- ===== src/Queue/Ack.antt =====
-- Acknowledging: `ack` ends leases, and nothing else.
use pincerbell.Base.{
  ℕ, ◌≡◌, ◌∙◌, refl, false, none, List, [], ◌∷◌, nat_eq, if◌then◌else◌, nat_beq, nat_beq_iff, arith,
  Option-cases, inl, inr, any,
}
use pincerbell.HashMap
use pincerbell.HashMap.{HashMap}
use pincerbell.Queue.{
  count_key_eq, Entry, Inner, NotificationQueue, is_live, forget_count_key, settle, ack,
}
use pincerbell.Queue.Index.{is_live-forget_ne}
use pincerbell.Queue.Held.{IsValid}
use pincerbell.Queue.Steps.{remove_forget-IsValid}

-- The state behind one round for a leased entry.
abbrev pub settled : ℕ → Entry → Inner → Inner
settled id e i = record i {
  leased = HashMap.remove i.leased id;
  count_index = forget_count_key i.count_index e;
}

settle-IsValid : (ids : List ℕ) (i : Inner) → IsValid i → IsValid (settle ids i)
unfolding settle
settle-IsValid [] i v = v
settle-IsValid (id ∷ ids) i v = elim (Option-cases (HashMap.get i.leased id)) [
  | inl absent ↦ rw (absent, settle) (settle-IsValid ids i v)
  | inr ((d, e), lent) ↦
      rw (lent, settle)
        (settle-IsValid ids (settled id e i) (remove_forget-IsValid i e id d lent v))
]

pub ack-IsValid :
    (q : NotificationQueue) (ids : List ℕ) → IsValid q.inner → IsValid (ack q ids).inner
unfolding ack
ack-IsValid q ids v = settle-IsValid ids q.inner v

settle-parts :
    (ids : List ℕ) (i : Inner) (j : ℕ)
    → ((settle ids i).pending ≡ i.pending)
      × (HashMap.get (settle ids i).leased j
          ≡ (if any (λ id. nat_beq id j) ids then none else HashMap.get i.leased j))
unfolding settle
settle-parts [] i j = (refl, refl)
settle-parts (id ∷ ids) i j = elim (Option-cases (HashMap.get i.leased id)) [
  | inl absent ↦
      let (same, leases) = settle-parts ids i j in
      rw (absent, settle) (same, ground (arith, absent, leases, nat_beq_iff id j))
  | inr ((d, e), lent) ↦
      let (same, leases) = settle-parts ids (settled id e i) j in
      rw (lent, settle) (same, ground (arith, leases, HashMap.get-remove i.leased id j))
]

-- An ack ends exactly the leases of its ids; an id that is not leased is ignored, also where its
-- entry is back in the buffer, which stays as it is.
pub leased-ack :
    (q : NotificationQueue) (ids : List ℕ) (id : ℕ)
    → ((ack q ids).pending ≡ q.pending)
      × (HashMap.get (ack q ids).leased id
          ≡ (if any (λ acked. nat_beq acked id) ids then none else HashMap.get q.leased id))
unfolding ack
leased-ack q ids id = settle-parts ids q.inner id

settle-live :
    (ids : List ℕ) (i : Inner) (j : ℕ) (x : Entry)
    → IsValid i
    → x.id ≡ j
    → any (λ id. nat_beq id j) ids ≡ false
    → is_live (settle ids i).count_index x ≡ is_live i.count_index x
unfolding settle
settle-live [] i j x v named other = refl
settle-live (id ∷ ids) i j x v named other = elim (Option-cases (HashMap.get i.leased id)) [
  | inl absent ↦ rw (absent, settle) (settle-live ids i j x v named (ground (arith, other)))
  | inr ((d, e), lent) ↦
      rw (lent, settle)
        (settle-live ids (settled id e i) j x (remove_forget-IsValid i e id d lent v) named
            (ground (arith, other))
          ∙ is_live-forget_ne i.count_index e x
              (ground (arith, other, named, v.parts.keyed id d e lent, nat_beq_iff id j)))
]

-- In a consistent queue, an ack of other entries makes no entry superseded, and none that was
-- superseded live.
is_live-ack :
    (q : NotificationQueue) (ids : List ℕ) (e : Entry)
    → IsValid q.inner
    → any (λ id. nat_beq id e.id) ids ≡ false
    → is_live (ack q ids).count_index e ≡ is_live q.count_index e
unfolding ack
is_live-ack q ids e v other = settle-live ids q.inner e.id e v refl other
