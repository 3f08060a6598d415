-- ===== src/Pending/Retries.antt =====
-- The retries of _process_tree_listing_batch.
use kernelci_dashboard.Base.{
  ℕ, zero, suc, ◌<◌, ◌↔◌, ◌≡◌, refl, true, none, some, arith, inl, inr, ◌⊎◌,
}
use kernelci_dashboard.Pending.Write.{Attempt, committed, deadlock, other_failure, attempts}

-- the attempts from one on, up to the first that does not deadlock, which is number k after it
abbrev pub CommitsAfter : (ℕ → Attempt) → ℕ → ℕ → Type 0
CommitsAfter outcome attempt zero = outcome attempt ≡ committed
CommitsAfter outcome attempt (suc k) =
    (outcome attempt ≡ deadlock) × CommitsAfter outcome (suc attempt) k

commits_if :
    (outcome : ℕ → Attempt) (n attempt k : ℕ)
    → k < n
    → CommitsAfter outcome attempt k
    → attempts outcome n attempt ≡ some true
unfolding attempts
commits_if outcome zero attempt k less h = ground arith
commits_if outcome (suc n) attempt zero less h = rw (attempts, h) refl
commits_if outcome (suc zero) attempt (suc k) less h = ground arith
commits_if outcome (suc (suc n)) attempt (suc k) less h =
    rw (attempts, h.0) (commits_if outcome (suc n) (suc attempt) k (omega (arith, less)) h.1)

Attempt-cases : (a : Attempt) → (a ≡ committed) ⊎ (a ≡ deadlock) ⊎ (a ≡ other_failure)
Attempt-cases committed = inl refl
Attempt-cases deadlock = inr (inl refl)
Attempt-cases other_failure = inr (inr refl)

some_is_none : none ≡ some true → ⊥
some_is_none e = ground arith

zero_or_suc : (n : ℕ) → (n ≡ 0) ⊎ ((m : ℕ) × (n ≡ suc m))
zero_or_suc zero = inl refl
zero_or_suc (suc m) = inr (m, refl)

commits_only_if :
    (outcome : ℕ → Attempt) (n attempt : ℕ)
    → attempts outcome n attempt ≡ some true
    → (k : ℕ) × (k < n) × CommitsAfter outcome attempt k
unfolding attempts
commits_only_if outcome zero attempt h = ground arith
commits_only_if outcome (suc n) attempt h = elim (Attempt-cases (outcome attempt)) [
  | inl e ↦ (0, omega arith, e)
  | inr (inr e) ↦ elim (some_is_none (rw (attempts, e) at h)) [ ]
  | inr (inl e) ↦ elim (zero_or_suc n) [
    | inl z ↦ elim (some_is_none (rw (attempts, e, z) at h)) [ ]
    | inr (m, z) ↦
        let more : attempts outcome n (suc attempt) ≡ some true = rw (attempts, e, z) at h in
        let (k, less, commits) = commits_only_if outcome n (suc attempt) more in
        (suc k, omega (arith, less), (e, commits))
  ]
]

-- The transaction is committed in a number of attempts just when one of that many attempts is
-- committed and all before it end in a deadlock.
pub attempts_iff :
    (outcome : ℕ → Attempt) (n attempt : ℕ)
    → (attempts outcome n attempt ≡ some true)
      ↔ ((k : ℕ) × (k < n) × CommitsAfter outcome attempt k)
attempts_iff outcome n attempt =
    (commits_only_if outcome n attempt, λ (k, less, h). commits_if outcome n attempt k less h)
