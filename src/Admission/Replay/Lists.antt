-- ===== src/Admission/Replay/Lists.antt =====
-- Pending entries that exclude each other, through the list operations of the verifier.
use session_chat.Prelude.{
  ℕ, ◌<◌, ◌≡◌, ◌≢◌, zero, suc, List, [], ◌∷◌, ◌++◌, ◌&&◌, Bool, false, arith, All, any, filter,
  remove_at,
}
use session_chat.Admission.Types.{PendingReplay}
use session_chat.Admission.Verify.{clashes, is_live}

-- The second entry has an identifier of its own, and repeats neither the request identifier nor the
-- nonce of the first within one generation.
abbrev pub Disjoint : PendingReplay → PendingReplay → Type 0
Disjoint e f =
    (e.reservation_id ≢ f.reservation_id)
    × (clashes f.generation f.join_request_id f.request_nonce e ≡ false)

abbrev pub Apart : List PendingReplay → Type 0
Apart [] = Unit {0}
Apart (e ∷ es) = All (Disjoint e) es × Apart es

module _ {A : Type 0} (P : A → Type 0) where
  pub All-filter : (p : A → Bool) (xs : List A) → All P xs → All P (filter p xs)
  unfolding filter
  All-filter p [] h = tt
  All-filter p (x ∷ xs) h = ground (arith, All-filter p xs)

  pub All-remove_at : (n : ℕ) (xs : List A) → All P xs → All P (remove_at n xs)
  unfolding remove_at
  All-remove_at n [] h = tt
  All-remove_at zero (x ∷ xs) h = h.1
  All-remove_at (suc n) (x ∷ xs) h = (h.0, All-remove_at n xs h.1)

  pub All-snoc : (xs : List A) (y : A) → All P xs → P y → All P (xs ++ y ∷ [])
  All-snoc [] y h k = (k, tt)
  All-snoc (x ∷ xs) y h k = (h.0, All-snoc xs y h.1 k)

pub Apart-filter :
    (p : PendingReplay → Bool) (xs : List PendingReplay) → Apart xs → Apart (filter p xs)
unfolding filter
Apart-filter p [] h = tt
Apart-filter p (x ∷ xs) h = ground (arith, Apart-filter p xs h.1, All-filter (Disjoint x) p xs h.0)

pub Apart-remove_at : (n : ℕ) (xs : List PendingReplay) → Apart xs → Apart (remove_at n xs)
unfolding remove_at
Apart-remove_at n [] h = tt
Apart-remove_at zero (x ∷ xs) h = h.1
Apart-remove_at (suc n) (x ∷ xs) h = (All-remove_at (Disjoint x) n xs h.0, Apart-remove_at n xs h.1)

pub Apart-snoc :
    (xs : List PendingReplay) (f : PendingReplay)
    → Apart xs
    → All (λ e. Disjoint e f) xs
    → Apart (xs ++ f ∷ [])
Apart-snoc [] f h k = (tt, tt)
Apart-snoc (x ∷ xs) f h k = (All-snoc (Disjoint x) xs f h.0 k.0, Apart-snoc xs f h.1 k.1)

-- The verifier's two tests of the live entries, and its identifiers, leave the new one apart.
pub live-Disjoint :
    (now n : ℕ) (f : PendingReplay) (xs : List PendingReplay)
    → All (λ e. e.reservation_id < n) xs
    → f.reservation_id ≡ n
    → any (λ e. is_live now e && clashes f.generation f.join_request_id f.request_nonce e) xs
      ≡ false
    → All (λ e. Disjoint e f) (filter (is_live now) xs)
unfolding filter any
live-Disjoint now n f [] below own quiet = tt
live-Disjoint now n f (x ∷ xs) below own quiet =
    ground (arith, live-Disjoint now n f xs below.1 own)
