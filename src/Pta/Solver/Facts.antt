-- ===== src/Pta/Solver/Facts.antt =====
-- The solver's maps (src/memory/pta/solver.rs) as one set of facts, and how each update adds one.
use conc_bug_dect_rust.Prelude.{
  Bool, Bool-cases, Eq, List, [], arith, contains, contains-append, contains-insert, inl, inr,
  insert, list_eq, list_ord, nat_eq, nat_ord, not, pair_eq, pair_ord, refl, true, ℕ, ℕ_discrete,
  ◌&&◌, ◌++◌, ◌==◌, ◌||◌, ◌∷◌, ◌≡◌,
}
use conc_bug_dect_rust.Pta.Solver.{
  State, add_to, push, add_pts, add_copy, add_load, add_store, add_offset,
}

pub data Fact : Type 0 where
  pts : ℕ → ℕ → Fact
  succ : ℕ → ℕ → Fact
  load : ℕ → ℕ → Fact
  store : ℕ → ℕ → Fact
  offset : ℕ → ℕ → ℕ → Fact

unfoldable pub Fact-discrete : Discrete Fact
Fact-discrete = hlevel ℕ_discrete

instance abbrev pub fact_eq : Eq Fact
fact_eq = record { dec = Fact-discrete }

-- The location under which the fact is stored.
abbrev pub key : Fact → ℕ
key (pts n o) = n
key (succ n d) = n
key (load n d) = n
key (store n x) = n
key (offset n d u) = n

abbrev pub has : State → Fact → Bool
has s (pts n o) = contains (s.pts n) o
has s (succ n d) = contains (s.copy_succ n) d
has s (load n d) = contains (s.loads n) d
has s (store n x) = contains (s.stores n) x
has s (offset n d u) = contains (s.offsets n) (d, u)

abbrev pub Has : State → Fact → Type 0
Has s f = has s f ≡ true

abbrev pub Queued : State → ℕ → Type 0
Queued s n = contains s.in_wl n ≡ true

pub contains-add_to {ℓ} :
    {A : Type ℓ} ⦃e : Eq A⦄ (m : ℕ → List A) (n : ℕ) (a : A) (k : ℕ) (b : A)
    → contains (add_to m n a k) b ≡ contains (m k) b || k == n && a == b
unfolding add_to
contains-add_to m n a k b = ground (arith, contains-insert a (m k) b)

-- `t` is `s` with one more fact, and nothing else changed.
pub record Adds (f : Fact) (s t : State) : Type 0 where
  pub facts : (g : Fact) → has t g ≡ has s g || g == f
  pub in_wl : t.in_wl ≡ s.in_wl
  pub worklist : t.worklist ≡ s.worklist
  pub arena : t.arena ≡ s.arena

has-add_pts : (n o : ℕ) (s : State) (g : Fact) → has (add_pts n o s) g ≡ has s g || g == pts n o
unfolding add_pts
has-add_pts n o s (pts k b) = ground (arith, contains-add_to s.pts n o k b)
has-add_pts n o s _ = ground arith

has-add_copy : (n o : ℕ) (s : State) (g : Fact) → has (add_copy n o s) g ≡ has s g || g == succ n o
unfolding add_copy
has-add_copy n o s (succ k b) = ground (arith, contains-add_to s.copy_succ n o k b)
has-add_copy n o s _ = ground arith

has-add_load : (n o : ℕ) (s : State) (g : Fact) → has (add_load n o s) g ≡ has s g || g == load n o
unfolding add_load
has-add_load n o s (load k b) = ground (arith, contains-add_to s.loads n o k b)
has-add_load n o s _ = ground arith

has-add_store :
    (n o : ℕ) (s : State) (g : Fact) → has (add_store n o s) g ≡ has s g || g == store n o
unfolding add_store
has-add_store n o s (store k b) = ground (arith, contains-add_to s.stores n o k b)
has-add_store n o s _ = ground arith

has-add_offset :
    (n o u : ℕ) (s : State) (g : Fact) → has (add_offset n o u s) g ≡ has s g || g == offset n o u
unfolding add_offset
has-add_offset n o u s (offset k b w) = ground (arith, contains-add_to s.offsets n (o, u) k (b, w))
has-add_offset n o u s _ = ground arith

pub add_pts-Adds : (n o : ℕ) (s : State) → Adds (pts n o) s (add_pts n o s)
unfolding add_pts
add_pts-Adds n o s = record {
  facts = has-add_pts n o s;
  in_wl = refl;
  worklist = refl;
  arena = refl;
}

pub add_copy-Adds : (n o : ℕ) (s : State) → Adds (succ n o) s (add_copy n o s)
unfolding add_copy
add_copy-Adds n o s = record {
  facts = has-add_copy n o s;
  in_wl = refl;
  worklist = refl;
  arena = refl;
}

pub add_load-Adds : (n o : ℕ) (s : State) → Adds (load n o) s (add_load n o s)
unfolding add_load
add_load-Adds n o s = record {
  facts = has-add_load n o s;
  in_wl = refl;
  worklist = refl;
  arena = refl;
}

pub add_store-Adds : (n o : ℕ) (s : State) → Adds (store n o) s (add_store n o s)
unfolding add_store
add_store-Adds n o s = record {
  facts = has-add_store n o s;
  in_wl = refl;
  worklist = refl;
  arena = refl;
}

pub add_offset-Adds : (n o u : ℕ) (s : State) → Adds (offset n o u) s (add_offset n o u s)
unfolding add_offset
add_offset-Adds n o u s = record {
  facts = has-add_offset n o u s;
  in_wl = refl;
  worklist = refl;
  arena = refl;
}

-- Pushing changes the queue alone.
pub has-push : (n : ℕ) (s : State) (g : Fact) → has (push n s) g ≡ has s g
unfolding push
has-push n s g = elim (Bool-cases (contains s.in_wl n)) [
  | inl old ↦ rw (old, push)
  | inr new ↦ rw (new, push) (has-queue s (insert n s.in_wl) (s.worklist ++ n ∷ []) g)
]
  where
    has-queue :
        (s : State) (q w : List ℕ) (g : Fact)
        → has (record s { in_wl = q; worklist = w }) g ≡ has s g
    has-queue s q w (pts k b) = refl
    has-queue s q w (succ k b) = refl
    has-queue s q w (load k b) = refl
    has-queue s q w (store k b) = refl
    has-queue s q w (offset k b u) = refl

pub in_wl-push :
    (n : ℕ) (s : State) (k : ℕ) → contains (push n s).in_wl k ≡ contains s.in_wl k || n == k
unfolding push
in_wl-push n s k = ground (arith, contains-insert n s.in_wl k)

pub worklist-push :
    (n : ℕ) (s : State) (k : ℕ)
    → contains (push n s).worklist k ≡ contains s.worklist k || not (contains s.in_wl n) && n == k
unfolding push
worklist-push n s k = ground (arith, contains-append s.worklist (n ∷ []) k)

pub arena-push : (n : ℕ) (s : State) → (push n s).arena ≡ s.arena
unfolding push
arena-push n s = ground arith
