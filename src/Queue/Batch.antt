-- ===== src/Queue/Batch.antt =====
-- What stands in a batch, and which leases it leaves.
use pincerbell.Base.{
  ℕ, zero, suc, ◌+◌, ◌≡◌, ◌≢◌, ◌∙◌, sym, subst, refl, true, none, some, List, [], ◌∷◌, nat_eq,
  nat_beq_iff, arith, inl, inr, ◌⊎◌, Any,
}
use pincerbell.Time.{Duration, Instant}
use pincerbell.HashMap
use pincerbell.HashMap.{HashMap}
use pincerbell.Queue.Wire.{PollEntry}
use pincerbell.Queue.{CountKey, count_key_eq, Entry, Inner, is_live, fill}
use pincerbell.Queue.Index.{is_live-forget_ne}
use pincerbell.Queue.Held.{Leases, find, find-id, Ids}
use pincerbell.Queue.Fates.{Fresh}
use pincerbell.Queue.Fill.{poll_entry, forgotten, lent_to, fill_cases}

module _ (ttl lease : Duration) (now : Instant) where
  -- The loop leases nothing that is not in the buffer.
  pub get-fill_ne :
      (room : ℕ) (l : List Entry) (i : Inner) (j : ℕ)
      → find j l ≡ none
      → HashMap.get (fill ttl lease now room l i).1.leased j ≡ HashMap.get i.leased j
  unfolding fill find
  get-fill_ne room [] i j h = refl
  get-fill_ne zero (e ∷ rest) i j h = refl
  get-fill_ne (suc room) (e ∷ rest) i j h =
      fill_cases ttl lease now (λ r. HashMap.get r.1.leased j ≡ HashMap.get i.leased j) room e rest
        i (λ _. get-fill_ne (suc room) rest i j (ground (arith, h)))
        (λ _. get-fill_ne (suc room) rest (forgotten e i) j (ground (arith, h)))
        (λ _. ground (
          arith,
          h,
          get-fill_ne room rest (lent_to (now + lease) e i) j (ground (arith, h)),
          HashMap.get-insert i.leased e.id j (now + lease, e),
        ))

  -- A poll entry is one of the buffer, fresh, and leased from now on.
  pub record Handed (l : List Entry) (index : HashMap CountKey ℕ) (leased : Leases) (p : PollEntry)
      : Type 0 where
    pub entry : Entry
    pub found : find p.id l ≡ some entry
    pub shown : p ≡ poll_entry entry
    pub fresh : Fresh ttl now index entry
    pub lent : HashMap.get leased p.id ≡ some (now + lease, entry)

  find-tail :
      (e x : Entry) (rest : List Entry) (j : ℕ)
      → find e.id rest ≡ none
      → find j rest ≡ some x
      → (find j (e ∷ rest) ≡ some x) × (e.id ≢ x.id)
  unfolding find
  find-tail e x rest j fresh h =
      (ground (arith, fresh, h, nat_beq_iff e.id j), ground (arith, fresh, h, find-id j rest x h))

  -- What holds of an entry behind the front one holds in the whole buffer.
  Handed-tail :
      (e : Entry) (rest : List Entry) (index index' : HashMap CountKey ℕ) (leased : Leases)
      (p : PollEntry)
      → find e.id rest ≡ none
      → ((x : Entry) → e.id ≢ x.id → is_live index' x ≡ true → is_live index x ≡ true)
      → Handed rest index' leased p
      → Handed (e ∷ rest) index leased p
  Handed-tail e rest index index' leased p away live h =
      let (there, ne) = find-tail e h.entry rest p.id away h.found in
      record {
        entry = h.entry;
        found = there;
        shown = h.shown;
        fresh = record { live = live h.entry ne h.fresh.live; young = h.fresh.young };
        lent = h.lent;
      }

  Handed-front :
      (e : Entry) (rest : List Entry) (i : Inner) (leased : Leases)
      → Fresh ttl now i.count_index e
      → HashMap.get leased e.id ≡ some (now + lease, e)
      → Handed (e ∷ rest) i.count_index leased (poll_entry e)
  unfolding find
  Handed-front e rest i leased fr lent = record {
    entry = e;
    found = ground arith;
    shown = refl;
    fresh = fr;
    lent = lent;
  }

  pub fill-Handed :
      (room : ℕ) (l : List Entry) (i : Inner) (p : PollEntry)
      → Ids l
      → Any (λ x. x ≡ p) (fill ttl lease now room l i).0
      → Handed l i.count_index (fill ttl lease now room l i).1.leased p
  unfolding fill
  fill-Handed room [] i p ids = λ m. absurd m
  fill-Handed zero (e ∷ rest) i p ids = λ m. absurd m
  fill-Handed (suc room) (e ∷ rest) i p ids =
      let lent = lent_to (now + lease) e i in
      fill_cases ttl lease now
        (λ r. Any (λ x. x ≡ p) r.0 → Handed (e ∷ rest) i.count_index r.1.leased p) room e rest i
        (λ _ m.
          Handed-tail e rest i.count_index i.count_index _ p ids.0 (λ x _ live. live)
            (fill-Handed (suc room) rest i p ids.1 m))
        (λ _ m.
          Handed-tail e rest i.count_index (forgotten e i).count_index _ p ids.0
            (λ x ne live. sym (is_live-forget_ne i.count_index e x ne) ∙ live)
            (fill-Handed (suc room) rest (forgotten e i) p ids.1 m))
        (λ fr m. elim m [
          | inl same ↦
              subst (Handed (e ∷ rest) i.count_index (fill ttl lease now room rest lent).1.leased)
                same
                (Handed-front e rest i _ fr (
                  ground (
                    arith,
                    get-fill_ne room rest lent e.id ids.0,
                    HashMap.get-insert i.leased e.id e.id (now + lease, e),
                  )))
          | inr later ↦
              Handed-tail e rest i.count_index i.count_index _ p ids.0 (λ x _ live. live)
                (fill-Handed room rest lent p ids.1 later)
        ])

  -- A poll entry of a batch that hands out an entry.
  abbrev pub Shows : ℕ → Entry → PollEntry → Type 0
  Shows j x p = (p.id ≡ j) × (p.notification ≡ x.payload)

  -- A lease is an old one, or that of an entry of the batch.
  pub get-fill :
      (room : ℕ) (l : List Entry) (i : Inner) (j : ℕ) (d : Instant) (x : Entry)
      → HashMap.get (fill ttl lease now room l i).1.leased j ≡ some (d, x)
      → (HashMap.get i.leased j ≡ some (d, x)) ⊎ Any (Shows j x) (fill ttl lease now room l i).0
  unfolding fill
  get-fill room [] i j d x = λ h. inl h
  get-fill zero (e ∷ rest) i j d x = λ h. inl h
  get-fill (suc room) (e ∷ rest) i j d x =
      let lent = lent_to (now + lease) e i in
      fill_cases ttl lease now
        (λ r.
          HashMap.get r.1.leased j ≡ some (d, x)
          → (HashMap.get i.leased j ≡ some (d, x)) ⊎ Any (Shows j x) r.0)
        room e rest i (λ _. get-fill (suc room) rest i j d x)
        (λ _. get-fill (suc room) rest (forgotten e i) j d x)
        (λ _ h. elim (get-fill room rest lent j d x h) [
          | inl old ↦
              ground (
                arith,
                old,
                HashMap.get-insert i.leased e.id j (now + lease, e),
                nat_beq_iff e.id j,
              )
          | inr later ↦ inr (inr later)
        ])
