-- ===== src/Receive/Stored.antt =====
-- What a page commit does to the retained envelopes.
use mathlib.Core.Path.{subst}
use session_chat.Prelude.{
  ◌+◌, ◌≤◌, ◌≡◌, refl, sym, List, [], ◌∷◌, false, some, arith, All, any, length, inl, inr,
}
use session_chat.Prelude.Outcome.{ok, Result-cases}
use session_chat.Prelude.Bytes.{Bytes, same, same_refl}
use session_chat.Prelude.Map.{Map, lookup, insert}
use session_chat.Prelude.Map.Laws.{lookup-insert, length-insert-le}
use session_chat.Receive.Page.{ReceivedCanonicalEnvelope, has_repeat, ids_of}
use session_chat.Receive.State.{DeduplicationOutcomeV1, stored, duplicate}
use session_chat.Receive.Commit.{deduplicate, classify, added, insert_all}

abbrev Found : Type 0
Found = List DeduplicationOutcomeV1 × List (Bytes × Bytes)

-- What the deduplication of a longer page has done with its first item, and with the others.
deduplicate-cons :
    (kept : Map Bytes) (item : ReceivedCanonicalEnvelope) (items : List ReceivedCanonicalEnvelope)
    (found : Found)
    → deduplicate kept (item ∷ items) ≡ ok found
    → (outcome : DeduplicationOutcomeV1) × (rest : Found) × (classify kept item ≡ ok outcome)
      × (deduplicate kept items ≡ ok rest)
      × (found ≡ (outcome ∷ rest.0, added outcome item rest.1))
unfolding deduplicate
deduplicate-cons kept item items found h = elim (Result-cases (classify kept item)) [
  | inl (e, q) ↦ absurd (ground (arith, h, q))
  | inr (outcome, q) ↦ elim (Result-cases (deduplicate kept items)) [
    | inl (e, k) ↦ absurd (ground (arith, h, q, k))
    | inr (rest, k) ↦ (outcome, rest, q, k, ground (arith, h, q, k))
  ]
]

-- The map behind the first item.
abbrev after : DeduplicationOutcomeV1 → ReceivedCanonicalEnvelope → Map Bytes → Map Bytes
after duplicate item m = m
after stored item m = insert item.delivery_id item.envelope.bytes m

insert_all-added :
    (outcome : DeduplicationOutcomeV1) (item : ReceivedCanonicalEnvelope)
    (additions : List (Bytes × Bytes)) (m : Map Bytes)
    → insert_all (added outcome item additions) m ≡ insert_all additions (after outcome item m)
insert_all-added stored item additions m = refl
insert_all-added duplicate item additions m = refl

lookup-after :
    (outcome : DeduplicationOutcomeV1) (item : ReceivedCanonicalEnvelope) (m : Map Bytes)
    (j : Bytes)
    → same j item.delivery_id ≡ false
    → lookup j (after outcome item m) ≡ lookup j m
lookup-after duplicate item m j h = refl
lookup-after stored item m j h =
    ground (arith, lookup-insert j item.delivery_id item.envelope.bytes m)

-- A map that is kept until the first item is dealt with.
lookup_first :
    (kept m : Map Bytes) (outcome : DeduplicationOutcomeV1) (item : ReceivedCanonicalEnvelope)
    → classify kept item ≡ ok outcome
    → lookup item.delivery_id m ≡ lookup item.delivery_id kept
    → lookup item.delivery_id (after outcome item m) ≡ some item.envelope.bytes
lookup_first kept m stored item q e = ground (
  arith,
  lookup-insert item.delivery_id item.delivery_id item.envelope.bytes m,
  same_refl item.delivery_id,
)
lookup_first kept m duplicate item q e = ground (arith, q, e)

after_unchanged :
    (kept m : Map Bytes) (outcome : DeduplicationOutcomeV1) (item : ReceivedCanonicalEnvelope)
    (j bytes : Bytes)
    → classify kept item ≡ ok outcome
    → lookup j kept ≡ some bytes
    → lookup j m ≡ some bytes
    → lookup j (after outcome item m) ≡ some bytes
after_unchanged kept m duplicate item j bytes q old now = now
after_unchanged kept m stored item j bytes q old now =
    ground (arith, lookup-insert j item.delivery_id item.envelope.bytes m)

-- An identifier that the page does not have is untouched.
pub untouched :
    (kept m : Map Bytes) (j : Bytes) (items : List ReceivedCanonicalEnvelope) (found : Found)
    → deduplicate kept items ≡ ok found
    → any (same j) (ids_of items) ≡ false
    → lookup j (insert_all found.1 m) ≡ lookup j m
unfolding any deduplicate
untouched kept m j [] found h other = ground (arith, h)
untouched kept m j (item ∷ items) found h other =
    let (outcome, rest, q, k, e) = deduplicate-cons kept item items found h in
    ground (
      arith,
      e,
      insert_all-added outcome item rest.1 m,
      untouched kept (after outcome item m) j items rest k (ground arith),
      lookup-after outcome item m j (ground arith),
    )

-- The map agrees on the identifiers of the items with what was retained before the page.
abbrev pub Agrees : Map Bytes → Map Bytes → List ReceivedCanonicalEnvelope → Type 0
Agrees kept m items = All (λ i. lookup i.delivery_id m ≡ lookup i.delivery_id kept) items

Agrees-after :
    (kept m : Map Bytes) (outcome : DeduplicationOutcomeV1) (item : ReceivedCanonicalEnvelope)
    (items : List ReceivedCanonicalEnvelope)
    → any (same item.delivery_id) (ids_of items) ≡ false
    → Agrees kept m items
    → Agrees kept (after outcome item m) items
unfolding any
Agrees-after kept m outcome item [] fresh h = tt
Agrees-after kept m outcome item (i ∷ items) fresh h =
    ground
      (arith, lookup-after outcome item m i.delivery_id, Agrees-after kept m outcome item items)

-- Each item of the page is retained, with its exact bytes.
pub retained :
    (kept m : Map Bytes) (items : List ReceivedCanonicalEnvelope) (found : Found)
    → deduplicate kept items ≡ ok found
    → has_repeat (ids_of items) ≡ false
    → Agrees kept m items
    → All (λ i. lookup i.delivery_id (insert_all found.1 m) ≡ some i.envelope.bytes) items
unfolding has_repeat
retained kept m [] found h fresh agrees = tt
retained kept m (item ∷ items) found h fresh agrees =
    let (outcome, rest, q, k, e) = deduplicate-cons kept item items found h in
    let m' = after outcome item m in
    let first : any (same item.delivery_id) (ids_of items) ≡ false = ground (arith, fresh) in
    let later : has_repeat (ids_of items) ≡ false = ground (arith, fresh) in
    let same_map : insert_all found.1 m ≡ insert_all rest.1 m' =
      ground (arith, e, insert_all-added outcome item rest.1 m) in
    subst (λ t. All (λ i. lookup i.delivery_id t ≡ some i.envelope.bytes) (item ∷ items))
      (sym same_map)
      (
        ground (
          arith,
          untouched kept m' item.delivery_id items rest k first,
          lookup_first kept m outcome item q agrees.0,
        ),
        retained kept m' items rest k later (Agrees-after kept m outcome item items first agrees.1),
      )

-- What was retained before the page stays as it was.
pub unchanged :
    (kept m : Map Bytes) (j bytes : Bytes) (items : List ReceivedCanonicalEnvelope) (found : Found)
    → deduplicate kept items ≡ ok found
    → lookup j kept ≡ some bytes
    → lookup j m ≡ some bytes
    → lookup j (insert_all found.1 m) ≡ some bytes
unfolding deduplicate
unchanged kept m j bytes [] found h old now = ground (arith, h)
unchanged kept m j bytes (item ∷ items) found h old now =
    let (outcome, rest, q, k, e) = deduplicate-cons kept item items found h in
    let m' = after outcome item m in
    let same_map : insert_all found.1 m ≡ insert_all rest.1 m' =
      ground (arith, e, insert_all-added outcome item rest.1 m) in
    rw (same_map) (
      unchanged kept m' j bytes items rest k old
        (after_unchanged kept m outcome item j bytes q old now))

pub length-insert_all :
    (additions : List (Bytes × Bytes)) (m : Map Bytes)
    → length (insert_all additions m) ≤ length m + length additions
length-insert_all [] m = omega arith
length-insert_all ((id, bytes) ∷ additions) m =
    omega (arith, length-insert_all additions (insert id bytes m), length-insert-le id bytes m)
