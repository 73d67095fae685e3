-- ===== src/Poller/Batches.antt =====
-- Which entries of a fetched batch are acknowledged.
use pincerbell.Base.{
  ℕ, ◌≡◌, ◌≢◌, ◌↔◌, ◌∙◌, ap, refl, sym, subst, Bool, true, false, List, [], ◌∷◌, ◌++◌, String,
  Option, none, some, Result, ok, err, Result-cases, Bool-cases, arith, inl, inr,
}
use mathlib.Core.List
use pincerbell.Json.{Value}
use pincerbell.Api.{Notification, Device}
use pincerbell.Http.{is_success}
use pincerbell.Queue.Wire.{PollEntry, AckRequest}
use pincerbell.Gateway.{Disposition}
use pincerbell.Poller.{
  PollReply, each_device, each_entry, handle_entry, note, push_acked, poll_once, empty_ack,
  is_empty,
}

module _ {ℓ} {S : Type ℓ} (read : Value → Result Notification String)
    (one : S → Notification → Device → S × Disposition) where
  -- Serving devices one after the other from a state ends without a transient failure.
  pub data Served (n : Notification) : S → List Device → Type ℓ where
    all_served : {s : S} → Served n s []
    one_served :
        {s : S} {device : Device} {ds : List Device}
        → (one s n device).1 ≢ Disposition.transient
        → Served n (one s n device).0 ds
        → Served n s (device ∷ ds)

  -- The state after serving devices one after the other.
  pub after : Notification → List Device → S → S
  after n [] s = s
  after n (device ∷ ds) s = after n ds (one s n device).0

  -- From a state, the ids that are acknowledged are those of the unreadable entries and of the
  -- ones that were served, in the order of the batch; an entry that is left out has a device that
  -- failed.
  pub data Acks : S → List PollEntry → List ℕ → Type ℓ where
    no_more : {s : S} → Acks s [] []
    unreadable :
        {s : S} {e : PollEntry} {es : List PollEntry} {ids : List ℕ} {m : String}
        → read e.notification ≡ err m
        → Acks s es ids
        → Acks s (e ∷ es) (e.id ∷ ids)
    served :
        {s : S} {e : PollEntry} {es : List PollEntry} {ids : List ℕ} {n : Notification}
        → read e.notification ≡ ok n
        → Served n s n.devices
        → Acks (after n n.devices s) es ids
        → Acks s (e ∷ es) (e.id ∷ ids)
    left_out :
        {s : S} {e : PollEntry} {es : List PollEntry} {ids : List ℕ} {n : Notification}
        → read e.notification ≡ ok n
        → ¬ Served n s n.devices
        → Acks (after n n.devices s) es ids
        → Acks s (e ∷ es) ids

  each_device-after :
      (n : Notification) (ds : List Device) (s : S) (a : AckRequest) (t : Bool)
      → (each_device read one n ds s a t).0 ≡ after n ds s
  unfolding each_device after
  each_device-after n [] s a t = refl
  each_device-after n (device ∷ ds) s a t =
      let d = (one s n device).1 in
      each_device-after n ds (one s n device).0 (note device d a t).0 (note device d a t).1

  acked-note :
      (device : Device) (d : Disposition) (a : AckRequest) (t : Bool)
      → (note device d a t).0.acked ≡ a.acked
  unfolding note
  acked-note device Disposition.fine a t = refl
  acked-note device (Disposition.reject pushkey) a t = refl
  acked-note device Disposition.transient a t = refl

  note-eq-false :
      (device : Device) (d : Disposition) (a : AckRequest) (t : Bool)
      → ((note device d a t).1 ≡ false) ↔ ((t ≡ false) × (d ≢ Disposition.transient))
  unfolding note
  note-eq-false device Disposition.fine a t = (λ h. (h, ground arith), λ (h, _). h)
  note-eq-false device (Disposition.reject pushkey) a t = (λ h. (h, ground arith), λ (h, _). h)
  note-eq-false device Disposition.transient a t =
      (λ h. absurd (ground (arith, h)), λ (_, h). absurd (h refl))

  acked-each_device :
      (n : Notification) (ds : List Device) (s : S) (a : AckRequest) (t : Bool)
      → (each_device read one n ds s a t).1.acked ≡ a.acked
  unfolding each_device
  acked-each_device n [] s a t = refl
  acked-each_device n (device ∷ ds) s a t =
      let d = (one s n device).1 in
      acked-each_device n ds (one s n device).0 (note device d a t).0 (note device d a t).1
      ∙ acked-note device d a t

  Served-tail :
      (n : Notification) (device : Device) (ds : List Device) (s : S)
      → Served n s (device ∷ ds)
      → ((one s n device).1 ≢ Disposition.transient) × Served n (one s n device).0 ds
  Served-tail n device ds s (one_served h v) = (h, v)

  each_device-eq-false :
      (n : Notification) (ds : List Device) (s : S) (a : AckRequest) (t : Bool)
      → ((each_device read one n ds s a t).2 ≡ false) ↔ ((t ≡ false) × Served n s ds)
  unfolding each_device
  each_device-eq-false n [] s a t = (λ h. (h, all_served), λ (h, _). h)
  each_device-eq-false n (device ∷ ds) s a t =
      let d = (one s n device).1 in
      let rest =
        each_device-eq-false n ds (one s n device).0 (note device d a t).0 (note device d a t).1 in
      let first = note-eq-false device d a t in
      (
        λ h. let (h', v) = rest.0 h in let (off, good) = first.0 h' in (off, one_served good v),
        λ (off, v).
            let (good, v') = Served-tail n device ds s v in rest.1 (first.1 (off, good), v'),
      )

  -- What one entry adds to the ids.
  handled :
      (e : PollEntry) (s : S) (a : AckRequest) (es : List PollEntry) (ids : List ℕ)
      → Acks (handle_entry read one e s a).0 es ids
      → (more : List ℕ) × ((handle_entry read one e s a).1.acked ≡ a.acked ++ more)
        × Acks s (e ∷ es) (more ++ ids)
  unfolding handle_entry push_acked
  handled e s a es ids v = elim (Result-cases (read e.notification)) [
    | inr (m, bad) ↦
        let same : (handle_entry read one e s a).0 ≡ s = ground (arith, bad) in
        let acked : (handle_entry read one e s a).1.acked ≡ a.acked ++ e.id ∷ [] =
          ground (arith, bad) in
        (e.id ∷ [], acked, unreadable bad (subst (λ x. Acks x es ids) same v))
    | inl (n, good) ↦
        let r = each_device read one n n.devices s a false in
        let kept = acked-each_device n n.devices s a false in
        let clean = each_device-eq-false n n.devices s a false in
        let same : (handle_entry read one e s a).0 ≡ after n n.devices s =
          ground (arith, good, each_device-after n n.devices s a false) in
        let rest : Acks (after n n.devices s) es ids = subst (λ x. Acks x es ids) same v in
        elim (Bool-cases r.2) [
          | inr calm ↦ (
            e.id ∷ [],
            rw (good, calm, handle_entry) (ap (λ (l : List ℕ). l ++ e.id ∷ []) kept),
            served good (clean.0 calm).1 rest,
          )
          | inl failed ↦ (
            [],
            rw (good, failed, handle_entry) (kept ∙ sym (List.append-nil a.acked)),
            left_out good (λ w. absurd (ground (arith, failed, clean.1 (refl, w)))) rest,
          )
        ]
  ]

  acked-each_entry :
      (es : List PollEntry) (s : S) (a : AckRequest)
      → (ids : List ℕ) × ((each_entry read one es s a).1.acked ≡ a.acked ++ ids) × Acks s es ids
  unfolding each_entry
  acked-each_entry [] s a = ([], sym (List.append-nil a.acked), no_more)
  acked-each_entry (e ∷ es) s a =
      let (s', a') = handle_entry read one e s a in
      let (ids, all, v) = acked-each_entry es s' a' in
      let (more, new, v') = handled e s a es ids v in
      (
        more ++ ids,
        all ∙ ap (λ (l : List ℕ). l ++ ids) new ∙ List.append_assoc a.acked more ids,
        v',
      )

  -- The ids that a cycle acknowledges; nothing is sent where there is nothing to say.
  pub sent_ids : Option AckRequest → List ℕ
  sent_ids none = []
  sent_ids (some a) = a.acked

  is_empty-acked : (a : AckRequest) → is_empty a ≡ true → a.acked ≡ []
  unfolding is_empty
  is_empty-acked a h = ground arith

  -- Once the batch has arrived with a status of success, a cycle acknowledges exactly the entries
  -- that cannot be read and those with no transient failure among their devices, in the order of
  -- the batch. Each entry that it leaves to the lease has such a failure. The devices are served
  -- one after the other from the state that the ones before them left.
  pub poll_once-Acks :
      (reply : PollReply) (send : AckRequest → Result ℕ String) (s : S) (entries : List PollEntry)
      → is_success reply.status ≡ true
      → reply.body ≡ ok (record { entries = entries })
      → Acks s entries (sent_ids (poll_once read one (ok reply) send s).1)
  unfolding poll_once empty_ack sent_ids
  poll_once-Acks reply send s entries fine body =
      let r = each_entry read one entries s empty_ack in
      let (ids, all, v) = acked-each_entry entries s empty_ack in
      let same : ids ≡ sent_ids (poll_once read one (ok reply) send s).1 =
        ground (arith, fine, body, all, is_empty-acked r.1) in
      subst (Acks s entries) same v
