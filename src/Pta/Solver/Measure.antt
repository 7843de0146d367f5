-- ===== src/Pta/Solver/Measure.antt =====
-- How much work is left in src/memory/pta/solver.rs: the facts that are still missing below a bound
-- on the ids, and the length of the worklist.
use conc_bug_dect_rust.Prelude.{
  Bool, ap, arith, false, if◌then◌else◌, list_eq, list_ord, nat_eq, nat_ord, pair_eq, pair_ord,
  subst, suc, true, zero, ℕ, ℕ_discrete, ◌*◌, ◌+◌, ◌<◌, ◌≡◌, ◌≤◌,
}
use conc_bug_dect_rust.Pta.Solver.{State}
use conc_bug_dect_rust.Pta.Solver.Facts.{Fact, key, has, Has, Adds, has-push, fact_eq}
use conc_bug_dect_rust.Pta.Solver.Facts
use conc_bug_dect_rust.Pta.Solver.Grow.{Adds-mono, Adds-new}

-- The number of `i < n` at which the test fails.
count_false : ℕ → (ℕ → Bool) → ℕ
count_false zero p = 0
count_false (suc n) p = (if p n then 0 else 1) + count_false n p

sum_below : ℕ → (ℕ → ℕ) → ℕ
sum_below zero f = 0
sum_below (suc n) f = f n + sum_below n f

count_false_mono :
    (n : ℕ) (p q : ℕ → Bool)
    → ((i : ℕ) → p i ≡ true → q i ≡ true)
    → count_false n q ≤ count_false n p
unfolding count_false
count_false_mono zero p q h = omega arith
count_false_mono (suc n) p q h = ground (arith, count_false_mono n p q h, h n)

count_false-lt :
    (n : ℕ) (p q : ℕ → Bool) (k : ℕ)
    → ((i : ℕ) → p i ≡ true → q i ≡ true)
    → k < n
    → p k ≡ false
    → q k ≡ true
    → count_false n q < count_false n p
unfolding count_false
count_false-lt zero p q k h l e f = absurd (omega arith)
count_false-lt (suc n) p q k h l e f = elim (ℕ_discrete k n) [
  | yes same ↦ ground (arith, count_false_mono n p q h, ap p same, ap q same)
  | no ne ↦ ground (arith, count_false-lt n p q k h (omega arith) e f, h n)
]

count_false-le : (n : ℕ) (p : ℕ → Bool) → count_false n p ≤ n
unfolding count_false
count_false-le zero p = omega arith
count_false-le (suc n) p = ground (arith, count_false-le n p)

sum_below_mono : (n : ℕ) (f g : ℕ → ℕ) → ((i : ℕ) → g i ≤ f i) → sum_below n g ≤ sum_below n f
unfolding sum_below
sum_below_mono zero f g h = omega arith
sum_below_mono (suc n) f g h = omega (arith, sum_below_mono n f g h, h n)

sum_below-lt :
    (n : ℕ) (f g : ℕ → ℕ) (k : ℕ)
    → ((i : ℕ) → g i ≤ f i)
    → k < n
    → g k < f k
    → sum_below n g < sum_below n f
unfolding sum_below
sum_below-lt zero f g k h l e = absurd (omega arith)
sum_below-lt (suc n) f g k h l e = elim (ℕ_discrete k n) [
  | yes same ↦ omega (arith, sum_below_mono n f g h, subst (λ i. g i < f i) same e)
  | no ne ↦ omega (arith, sum_below-lt n f g k h (omega arith) e, h n)
]

sum_below-le : (n b : ℕ) (f : ℕ → ℕ) → ((i : ℕ) → f i ≤ b) → sum_below n f ≤ n * b
unfolding sum_below
sum_below-le zero b f h = omega arith
sum_below-le (suc n) b f h = omega (arith, sum_below-le n b f h, h n)

missing_pts : ℕ → State → ℕ
missing_pts n s = sum_below n (λ k. count_false n (λ o. has s (Facts.pts k o)))

missing_succ : ℕ → State → ℕ
missing_succ n s = sum_below n (λ k. count_false n (λ d. has s (Facts.succ k d)))

-- The facts below `n` that may still be added.
pub missing : ℕ → State → ℕ
unfolding missing_pts missing_succ
missing n s = missing_pts n s + missing_succ n s

missing_pts_mono :
    (n : ℕ) (s t : State) → ((g : Fact) → Has s g → Has t g) → missing_pts n t ≤ missing_pts n s
unfolding missing_pts
missing_pts_mono n s t h =
    sum_below_mono n _ _ (λ k. count_false_mono n _ _ (λ o. h (Facts.pts k o)))

missing_succ_mono :
    (n : ℕ) (s t : State) → ((g : Fact) → Has s g → Has t g) → missing_succ n t ≤ missing_succ n s
unfolding missing_succ
missing_succ_mono n s t h =
    sum_below_mono n _ _ (λ k. count_false_mono n _ _ (λ o. h (Facts.succ k o)))

pub missing_mono :
    (n : ℕ) (s t : State) → ((g : Fact) → Has s g → Has t g) → missing n t ≤ missing n s
unfolding missing
missing_mono n s t h = omega (arith, missing_pts_mono n s t h, missing_succ_mono n s t h)

pub missing-le : (n : ℕ) (s : State) → missing n s ≤ 2 * (n * n)
unfolding missing
missing-le n s = omega (
  arith,
  sum_below-le n n _ (λ k. count_false-le n (λ o. has s (Facts.pts k o))),
  sum_below-le n n _ (λ k. count_false-le n (λ o. has s (Facts.succ k o))),
)

-- The ids of the facts that are counted lie below the bound.
abbrev pub Counted : ℕ → Fact → Type 0
Counted n (Facts.pts k o) = (k < n) × (o < n)
Counted n (Facts.succ k d) = (k < n) × (d < n)
Counted n _ = ⊥

-- A new counted fact is one less to add.
pub missing-lt :
    (n : ℕ) (f : Fact) (s t : State)
    → Adds f s t
    → has s f ≡ false
    → Counted n f
    → missing n t < missing n s
unfolding missing missing_pts missing_succ
missing-lt n (Facts.pts k o) s t a e (hk, ho) =
    let m = Adds-mono a in
    omega (
      arith,
      missing_succ_mono n s t m,
      sum_below-lt n _ _ k (λ j. count_false_mono n _ _ (λ i. m (Facts.pts j i))) hk
          (count_false-lt n (λ i. has s (Facts.pts k i)) (λ i. has t (Facts.pts k i)) o
            (λ i. m (Facts.pts k i)) ho e (Adds-new a)),
    )
missing-lt n (Facts.succ k o) s t a e (hk, ho) =
    let m = Adds-mono a in
    omega (
      arith,
      missing_pts_mono n s t m,
      sum_below-lt n _ _ k (λ j. count_false_mono n _ _ (λ i. m (Facts.succ j i))) hk
          (count_false-lt n (λ i. has s (Facts.succ k i)) (λ i. has t (Facts.succ k i)) o
            (λ i. m (Facts.succ k i)) ho e (Adds-new a)),
    )
missing-lt n _ s t a e h = absurd h
