-- ===== src/Ownership/Quiet.antt =====
-- What it is that a Run owns nothing open, and that the derived facts say exactly that.
use xgc2_orchestration_core.Base.{
  ℕ, suc, Bool, true, ◌&&◌, ◌||◌, not, List, [], ◌∷◌, length, ◌==◌, ◌≡◌, ◌+◌, ◌≤◌, ◌<◌, refl, arith,
  Bool-cases, inl, inr,
}
use xgc2_orchestration_core.Contracts.Statuses.{attempt_status_terminal}
use xgc2_orchestration_core.Contracts.Records.{Attempt, InvocationLedger}
use xgc2_orchestration_core.Contracts.Ownership.{OwnershipClosureBase}
use xgc2_orchestration_core.Execution.Invocation.Live.{live_attempts}
use xgc2_orchestration_core.Ownership.Facts.{
  count_if, is_active, is_waiting, child_open, effect_open, compensation_open, runtime_open,
  resource_open, count_live,
}

-- No item of a list passes a test.
unfoldable pub none_of {ℓ} : {A : Type ℓ} → (A → Bool) → List A → Bool
none_of test [] = true
none_of test (x ∷ xs) = not (test x) && none_of test xs

-- The number of attempts in ledgers.
unfoldable pub attempt_total : List InvocationLedger → ℕ
attempt_total [] = 0
attempt_total (l ∷ ls) = length l.attempts + attempt_total ls

-- The number of things that are counted.
abbrev pub size : OwnershipClosureBase → ℕ
size base =
    length base.invocations
    + attempt_total base.invocations
    + length base.child_runs
    + length base.effects
    + length base.runtimes
    + length base.resources

-- A ledger holds nothing: the invocation and its compensation have ended, it waits for nothing, and
-- no attempt is live.
abbrev pub holds : InvocationLedger → Bool
holds l = is_active l.invocation || is_waiting l.invocation || not (live_attempts l.attempts == 0)

-- Nothing is open: no invocation, child, effect, compensation, owned runtime or owned resource.
unfoldable pub quiet : OwnershipClosureBase → Bool
quiet base =
    none_of holds base.invocations
    && none_of child_open base.child_runs
    && none_of effect_open base.effects
    && none_of compensation_open base.effects
    && none_of runtime_open base.runtimes
    && none_of resource_open base.resources

count_if-zero :
    (b : Bool) (n : ℕ) → n + 1 < 18446744073709551616 → (count_if b n == 0) ≡ (n == 0 && not b)
count_if-zero b n small = ground arith

count_if-small : (b : Bool) (n : ℕ) → count_if b n ≤ suc n
count_if-small b n = ground arith

module _ {ℓ} {A : Type ℓ} where
  pub none_of-or :
      (p q : A → Bool) (xs : List A) → none_of (λ x. p x || q x) xs ≡ (none_of p xs && none_of q xs)
  unfolding none_of
  none_of-or p q [] = refl
  none_of-or p q (x ∷ xs) = ground (arith, none_of-or p q xs)

  -- A counter of the items that pass a test.
  unfoldable pub tally : (A → Bool) → ℕ → List A → ℕ
  tally test n [] = n
  tally test n (x ∷ xs) = tally test (count_if (test x) n) xs

  pub tally-none_of :
      (test : A → Bool) (n : ℕ) (xs : List A)
      → n + length xs < 18446744073709551616
      → (tally test n xs == 0) ≡ (n == 0 && none_of test xs)
  unfolding tally none_of
  tally-none_of test n [] small = ground arith
  tally-none_of test n (x ∷ xs) small = ground (
    arith,
    tally-none_of test (count_if (test x) n) xs (omega (arith, small, count_if-small (test x) n)),
    count_if-zero (test x) n (omega (arith, small)),
  )

-- A counter of the live attempts of ledgers.
unfoldable pub live_tally : ℕ → List InvocationLedger → ℕ
live_tally n [] = n
live_tally n (l ∷ ls) = live_tally (count_live n l.attempts) ls

live_attempts-length : (attempts : List Attempt) → live_attempts attempts ≤ length attempts
unfolding live_attempts
live_attempts-length [] = omega arith
live_attempts-length (a ∷ rest) = ground (arith, live_attempts-length rest)

count_live-sum :
    (n : ℕ) (attempts : List Attempt)
    → n + length attempts < 18446744073709551616
    → count_live n attempts ≡ n + live_attempts attempts
unfolding count_live live_attempts
count_live-sum n [] small = omega arith
count_live-sum n (a ∷ rest) small = elim (Bool-cases (attempt_status_terminal a.status)) [
  | inl ended ↦ ground (arith, ended, count_live-sum n rest (omega (arith, small)))
  | inr live ↦ ground (arith, live, count_live-sum (suc n) rest (omega (arith, small)))
]

abbrev pub any_live : InvocationLedger → Bool
any_live l = not (live_attempts l.attempts == 0)

pub live_tally-none_of :
    (n : ℕ) (ls : List InvocationLedger)
    → n + attempt_total ls < 18446744073709551616
    → (live_tally n ls == 0) ≡ (n == 0 && none_of any_live ls)
unfolding live_tally none_of attempt_total
live_tally-none_of n [] small = ground arith
live_tally-none_of n (l ∷ ls) small =
    let counted = count_live-sum n l.attempts (omega (arith, small)) in
    let bound = live_attempts-length l.attempts in
    ground (
      arith,
      counted,
      live_tally-none_of (count_live n l.attempts) ls (omega (arith, small, counted, bound)),
    )
