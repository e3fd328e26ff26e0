-- ===== src/AutoMode/Retry.antt =====
-- mm_gateway/services_selection.py: `retry_across_backends`, the form of the loop without the ledger. The
-- observations that it records are returned as a list, in their order; latencies are left out.
use mm_gateway.Prelude.{
  ℕ, ◌+◌, ◌≤◌, ◌≡◌, refl, Bool, true, false, Option, none, some, List, [], ◌∷◌, ◌++◌, arith, leb,
  length, All, Bool-cases, inl, inr, ◌⊎◌,
}
use mm_gateway.AutoMode.Errors.{Failure, is_retryable, is_rate_limited}

pub data Answer (T : Type 0) : Type 0 where
  answered : T → Answer T
  raised : Failure → Answer T

-- One observation: of a success, or of a failure that was or was not a rate limit.
pub data Observed : Type 0 where
  success : Observed
  failure : Bool → Observed

pub data Result (T : Type 0) : Type 0 where
  result : T → Result T
  raises : Failure → Result T
  -- "No candidate backend is available", before any attempt
  no_backend : Result T
  -- "No candidate backend could serve", without an attempt
  no_attempt : Result T

module _ {C T : Type 0} (attempt : C → Answer T) (limit : ℕ) where
  abbrev pub given_up : Option Failure → Result T
  given_up none = no_attempt
  given_up (some e) = raises e

  unfoldable pub retry_from : List C → ℕ → Option Failure → List Observed × Result T
  retry_from [] i last = ([], given_up last)
  retry_from (c ∷ cs) i last = elim (leb limit i) [
    | true ↦ ([], given_up last)
    | false ↦ elim (attempt c) [
      | answered x ↦ (success ∷ [], result x)
      | raised e ↦ elim (is_retryable e) [
        | false ↦ (failure (is_rate_limited e) ∷ [], raises e)
        | true ↦
            let (log, r) = retry_from cs (i + 1) (some e) in (failure (is_rate_limited e) ∷ log, r)
      ]
    ]
  ]

  Answer-cases : (a : Answer T) → ((x : T) × (a ≡ answered x)) ⊎ ((e : Failure) × (a ≡ raised e))
  Answer-cases (answered x) = inl (x, refl)
  Answer-cases (raised e) = inr (e, refl)

  pub retry_bound :
      (cs : List C) (i : ℕ) (last : Option Failure)
      → i ≤ limit
      → (length (retry_from cs i last).0 + i ≤ limit)
        × (length (retry_from cs i last).0 ≤ length cs)
  unfolding retry_from
  retry_bound [] i last h = omega (arith, h)
  retry_bound (c ∷ cs) i last h = elim (Bool-cases (leb limit i)) [
    | inl full ↦ rw (full, retry_from) (omega (arith, h))
    | inr room ↦
        rw (room, retry_from)
          (elim (Answer-cases (attempt c)) [
            | inl (x, e) ↦ rw e (ground arith)
            | inr (x, e) ↦ rw e (elim (Bool-cases (is_retryable x)) [
              | inl again ↦ rw again (ground (arith, retry_bound cs (i + 1) (some x)))
              | inr never ↦ rw never (ground arith)
            ])
          ])
  ]

-- `max_attempts` is a ceiling, if it is given; otherwise every candidate may be tried.
unfoldable pub retry_across_backends :
    {C T : Type 0} → (C → Answer T) → List C → Option ℕ → List Observed × Result T
unfolding retry_from
retry_across_backends attempt [] max_attempts = ([], no_backend)
retry_across_backends attempt (c ∷ cs) none = retry_from attempt (length (c ∷ cs)) (c ∷ cs) 0 none
retry_across_backends attempt (c ∷ cs) (some n) = retry_from attempt n (c ∷ cs) 0 none

-- No more attempts are recorded than the ceiling allows, nor more than there are candidates, with a
-- ceiling or without one.
retry_attempts :
    {C T : Type 0} (attempt : C → Answer T) (cs : List C) (n : ℕ)
    → (length (retry_across_backends attempt cs (some n)).0 ≤ n)
      × (length (retry_across_backends attempt cs (some n)).0 ≤ length cs)
      × (length (retry_across_backends attempt cs none).0 ≤ length cs)
unfolding retry_across_backends
retry_attempts attempt [] n = omega arith
retry_attempts attempt (c ∷ cs) n =
    let capped = retry_bound attempt n (c ∷ cs) 0 none (omega arith) in
    let free = retry_bound attempt (length (c ∷ cs)) (c ∷ cs) 0 none (omega arith) in
    (omega (arith, capped.0), capped.1, free.1)

module _ {C T : Type 0} (attempt : C → Answer T) where
  -- Every candidate before fails in a way that is worth retrying.
  abbrev pub FailsRetryably : C → Type 0
  FailsRetryably c = (e : Failure) × (attempt c ≡ raised e) × (is_retryable e ≡ true)

  skip_failures :
      (limit : ℕ) (before : List C) (c : C) (after : List C) (i : ℕ) (last : Option Failure)
      → All FailsRetryably before
      → i + length before + 1 ≤ limit
      → (x : T) → attempt c ≡ answered x
      → (retry_from attempt limit (before ++ (c ∷ after)) i last).1 ≡ result x
  unfolding retry_from
  skip_failures limit [] c after i last fails room x good =
      let go_on : leb limit i ≡ false = ground arith in rw (go_on, retry_from) (rw good refl)
  skip_failures limit (b ∷ bs) c after i last ((e, bad, again), fails) room x good =
      let go_on : leb limit i ≡ false = ground arith in
      rw (go_on, retry_from)
        (rw bad (
          rw again
            (skip_failures limit bs c after (i + 1) (some e) fails (omega (arith, room)) x good)))

  -- If every candidate before one fails in a way that is worth retrying, that one answers, and the
  -- ceiling on attempts reaches it, then its answer is the result.
  retry_served :
      (before : List C) (c : C) (after : List C) (n : ℕ) (x : T)
      → All FailsRetryably before
      → attempt c ≡ answered x
      → length before + 1 ≤ n
      → (retry_across_backends attempt (before ++ (c ∷ after)) (some n)).1 ≡ result x
  unfolding retry_across_backends
  retry_served [] c after n x fails good room =
      skip_failures n [] c after 0 none fails (omega (arith, room)) x good
  retry_served (b ∷ bs) c after n x fails good room =
      skip_failures n (b ∷ bs) c after 0 none fails (omega (arith, room)) x good
