-- ===== src/Lifecycle/Acknowledged.antt =====
-- What was acknowledged at the provider is not polled again.
use Prim.Native.Nat.{max}
use session_chat.Prelude.{
  ℕ, ◌≡◌, true, false, List, [], ◌∷◌, Option, some, arith, find, any, filter, map, All,
  Option-cases, inl, inr, find-update_first, find_holds, suc, length, checked_add,
}
use session_chat.Prelude.Outcome.{ok, is_ok, Result-cases}
use session_chat.Prelude.Bytes.{Bytes, same}
use session_chat.Protocol.Cbor.{Cbor}
use session_chat.Transport.Contract.{from_canonical_bytes}
use session_chat.Transport.Dispatch.{DispatchControl}
use session_chat.Receive.Page.{PollRequest, ReceiveBatch, ReceivedCanonicalEnvelope, batch_new}
use session_chat.Receive.Checkpoint.{ReceivePollBindingV1}
use session_chat.Lifecycle.Provider.{
  DeterministicAuthorityV1, StoredDelivery, GenerationMaterial, MailboxState, LifecycleProvider,
  is_of, mailbox_index, open_mailbox,
}
use session_chat.Lifecycle.Deliveries.{
  AcknowledgementRequest, write, is_due, collect, page_at, next_cursor, poll_checks, mark,
  acknowledge_at, acknowledge_now, poll_now,
}

abbrev pub IsNew : List Bytes → ReceivedCanonicalEnvelope → Type 0
IsNew ids item = any (same item.delivery_id) ids ≡ false

-- No due delivery among the marked ones has one of the identifiers.
mark-All :
    (ids : List Bytes) (requested now : ℕ) (ds : List StoredDelivery)
    → All
        (λ d. any (same d.delivery_id) ids ≡ false)
        (filter (is_due requested now) (map (mark ids) ds))
unfolding filter
mark-All ids requested now [] = tt
mark-All ids requested now (d ∷ ds) = ground (arith, mark-All ids requested now ds)

collect-All :
    (c : Cbor) (ids : List Bytes) (request : PollRequest ReceivePollBindingV1)
    (ds : List StoredDelivery) (items encoded last : ℕ) (found : List ReceivedCanonicalEnvelope × ℕ)
    → All (λ d. any (same d.delivery_id) ids ≡ false) ds
    → collect c request ds items encoded last ≡ ok found
    → All (IsNew ids) found.0
unfolding collect
collect-All c ids request [] items encoded last found h e = ground (arith, e)
collect-All c ids request (d ∷ ds) items encoded last found (new, h) e =
    elim (Option-cases (checked_add encoded (length d.canonical_bytes))) [
      | inl none_left ↦ ground (arith, e, none_left)
      | inr (next, q) ↦ elim (Result-cases (from_canonical_bytes c d.canonical_bytes)) [
        | inl (_, bad) ↦ ground (arith, e, q, bad)
        | inr (envelope, good) ↦
            elim (Result-cases (collect c request ds (suc items) next d.sequence)) [
              | inl (_, bad) ↦ ground (arith, e, q, good, bad)
              | inr (rest, r) ↦ ground (
                arith,
                e,
                q,
                good,
                r,
                new,
                collect-All c ids request ds (suc items) next d.sequence rest h r,
              )
            ]
      ]
    ]

-- The batch has the items that it is made of.
batch_new-items :
    (items : List ReceivedCanonicalEnvelope) (cursor : Option Bytes)
    (request : PollRequest ReceivePollBindingV1) (now : ℕ)
    (batch : ReceiveBatch ReceivePollBindingV1)
    → batch_new items cursor request now ≡ ok batch
    → batch.items ≡ items
unfolding batch_new
batch_new-items items cursor request now batch h = ground arith

open_mailbox-find :
    (p : LifecycleProvider) (a : DeterministicAuthorityV1) (token : GenerationMaterial → Bytes)
    (now : ℕ) (m : MailboxState)
    → open_mailbox p a token now ≡ ok m
    → find (is_of a.binding) p.mailboxes ≡ some m
unfolding open_mailbox mailbox_index
open_mailbox-find p a token now m h = elim (Option-cases (find (is_of a.binding) p.mailboxes)) [
  | inl q ↦ absurd (ground (arith, q, h))
  | inr (found, q) ↦ ground (arith, q, h)
]

-- What an accepted acknowledgement leaves: its deliveries marked.
acknowledge_at-find :
    (p : LifecycleProvider) (a : DeterministicAuthorityV1) (request : AcknowledgementRequest)
    (now : ℕ)
    → is_ok (acknowledge_at p a request now).1 ≡ true
    → (m : MailboxState) × (find (is_of a.binding) (acknowledge_at p a request now).0.mailboxes
        ≡ some (record m { deliveries = map (mark request.delivery_ids) m.deliveries }))
unfolding acknowledge_at write
acknowledge_at-find p a request now h =
    elim (Result-cases (open_mailbox p a (λ m. m.acknowledgement) now)) [
      | inl (e, q) ↦ absurd (ground (arith, q, h))
      | inr (m, q) ↦
          let found = open_mailbox-find p a (λ m. m.acknowledgement) now m q in
          (
            m,
            ground (
              arith,
              q,
              h,
              find-update_first (is_of a.binding)
                  (λ x. record x { deliveries = map (mark request.delivery_ids) m.deliveries })
                  p.mailboxes m found (find_holds (is_of a.binding) p.mailboxes m found),
            ),
          )
    ]

page_at-All :
    (c : Cbor) (p : LifecycleProvider) (b : DeterministicAuthorityV1)
    (request : PollRequest ReceivePollBindingV1) (requested first final : ℕ) (ids : List Bytes)
    (ds : List StoredDelivery) (m : MailboxState) (batch : ReceiveBatch ReceivePollBindingV1)
    → find (is_of b.binding) p.mailboxes ≡ some (record m { deliveries = map (mark ids) ds })
    → page_at c p b request requested first final ≡ ok batch
    → All (IsNew ids) batch.items
unfolding page_at
page_at-All c p b request requested first final ids ds m batch found h =
    elim (Result-cases (open_mailbox p b (λ m. m.receive) final)) [
      | inl (e, q) ↦ absurd (ground (arith, q, h))
      | inr (opened, q) ↦
          let due = filter (is_due requested (max first final)) opened.deliveries in
          elim (Result-cases (collect c request due 0 0 requested)) [
            | inl (e, r) ↦ absurd (ground (arith, q, r, h))
            | inr (page, r) ↦ elim (Result-cases (next_cursor b.binding page.1)) [
              | inl (e, s) ↦ absurd (ground (arith, q, r, s, h))
              | inr (cursor, s) ↦
                  elim (Result-cases (batch_new page.0 cursor request (max first final))) [
                    | inl (e, t) ↦ absurd (ground (arith, q, r, s, t, h))
                    | inr (made, t) ↦
                        let box = open_mailbox-find p b (λ m. m.receive) final opened q in
                        let all_new : All (λ d. any (same d.delivery_id) ids ≡ false) due =
                          ground (arith, found, box, mark-All ids requested (max first final) ds) in
                        ground (
                          arith,
                          q,
                          r,
                          s,
                          t,
                          h,
                          batch_new-items page.0 cursor request (max first final) made t,
                          collect-All c ids request due 0 0 requested page all_new r,
                        )
                  ]
            ]
          ]
    ]

module _ {K : Type 0} (control : DispatchControl K) (c : Cbor) where
  acknowledge_now-acknowledge_at :
      (k : K) (p : LifecycleProvider) (a : DeterministicAuthorityV1)
      (request : AcknowledgementRequest)
      → is_ok (acknowledge_now control k p a request).2 ≡ true
      → (now : ℕ) × (is_ok (acknowledge_at p a request now).1 ≡ true)
        × ((acknowledge_now control k p a request).1 ≡ (acknowledge_at p a request now).0)
  unfolding acknowledge_now
  acknowledge_now-acknowledge_at k p a request h =
      elim (Result-cases (control.checkpoint request.budget k).1) [
        | inl (e, q) ↦ absurd (ground (arith, q, h))
        | inr (o, q) ↦ elim (Result-cases (open_mailbox p a (λ m. m.acknowledgement) o.wall_now)) [
          | inl (e, r) ↦ absurd (ground (arith, q, r, h))
          | inr (m, r) ↦
              elim (Result-cases
                (control.checkpoint request.budget (control.checkpoint request.budget k).0).1) [
                  | inl (e, s) ↦ absurd (ground (arith, q, r, s, h))
                  | inr (o', s) ↦
                      (o'.wall_now, ground (arith, q, r, s, h), ground (arith, q, r, s, h))
                ]
        ]
      ]

  poll_now-page_at :
      (k : K) (p : LifecycleProvider) (b : DeterministicAuthorityV1)
      (request : PollRequest ReceivePollBindingV1) (batch : ReceiveBatch ReceivePollBindingV1)
      → (poll_now control c k p b request).1 ≡ ok batch
      → (requested first final : ℕ) × (page_at c p b request requested first final ≡ ok batch)
  unfolding poll_now
  poll_now-page_at k p b request batch h =
      elim (Result-cases (control.checkpoint request.budget k).1) [
        | inl (e, q) ↦ absurd (ground (arith, q, h))
        | inr (o, q) ↦ elim (Result-cases (poll_checks p b request o.wall_now)) [
          | inl (e, r) ↦ absurd (ground (arith, q, r, h))
          | inr (requested, r) ↦
              elim (Result-cases
                (control.checkpoint request.budget (control.checkpoint request.budget k).0).1) [
                  | inl (e, s) ↦ absurd (ground (arith, q, r, s, h))
                  | inr (o', s) ↦ (requested, o.wall_now, o'.wall_now, ground (arith, q, r, s, h))
                ]
        ]
      ]

  -- After an acknowledgement that is accepted, a page that is polled from the same generation holds
  -- none of the envelopes that were acknowledged.
  pub acknowledged_not_polled :
      (k k' : K) (p : LifecycleProvider) (a b : DeterministicAuthorityV1)
      (request : AcknowledgementRequest) (poll : PollRequest ReceivePollBindingV1)
      (batch : ReceiveBatch ReceivePollBindingV1)
      → is_ok (acknowledge_now control k p a request).2 ≡ true
      → b.binding ≡ a.binding
      → (poll_now control c k' (acknowledge_now control k p a request).1 b poll).1 ≡ ok batch
      → All (IsNew request.delivery_ids) batch.items
  acknowledged_not_polled k k' p a b request poll batch h is_b e =
      let (now, accepted, left) = acknowledge_now-acknowledge_at k p a request h in
      let (m, found) = acknowledge_at-find p a request now accepted in
      let p' = (acknowledge_now control k p a request).1 in
      let (requested, first, final, page) = poll_now-page_at k' p' b poll batch e in
      page_at-All c p' b poll requested first final request.delivery_ids m.deliveries m batch
        (ground (arith, left, found, is_b)) page
