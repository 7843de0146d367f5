-- ===== src/Pta/Context.antt =====
-- src/memory/pta/context.rs: k-limited call strings.
use conc_bug_dect_rust.Prelude.{
  Bool, Bool-cases, List, List-discrete, [], ap, append-nil, arith, drop, false, if◌then◌else◌, inl,
  inr, length, length-append, length-drop, list_eq, list_ord, ltb, min, nat_eq, nat_ord, pair_eq,
  pair_ord, refl, suc, true, zero, ℕ, ℕ_discrete, ◌++◌, ◌+◌, ◌-◌, ◌==◌, ◌∷◌, ◌≡◌,
}

pub record CallSite : Type 0 where
  pub func : ℕ
  pub bb : ℕ

unfoldable pub CallSite-discrete : Discrete CallSite
CallSite-discrete = hlevel ℕ_discrete

pub record Context : Type 0 where
  pub sites : List CallSite

unfoldable pub Context-discrete : Discrete Context
Context-discrete = hlevel (List-discrete CallSite-discrete)

abbrev pub empty : Context
empty = record { sites = [] }

pub is_empty : Context → Bool
is_empty c = elim c.sites [ [] ↦ true | _ ∷ _ ↦ false ]

pub record KCallSite : Type 0 where
  pub k : ℕ

-- `v.drain(0..len - k)` after the push.
pub extend : KCallSite → Context → CallSite → Context
extend p caller site =
    if p.k == 0
    then empty
    else let v = caller.sites ++ site ∷ [] in
      let len = length v in record { sites = if ltb p.k len then drop (len - p.k) v else v }

split-drop {ℓ} : {A : Type ℓ} (n : ℕ) (xs : List A) → (front : List A) × (front ++ drop n xs ≡ xs)
split-drop zero xs = ([], refl)
split-drop (suc n) [] = ([], refl)
split-drop (suc n) (x ∷ xs) = let (front, e) = split-drop n xs in (x ∷ front, ap (λ ys. x ∷ ys) e)

-- The extended call string is the end of the caller's followed by the new site, and as long as
-- the limit `k` allows.
pub extend_lem :
    (p : KCallSite) (caller : Context) (site : CallSite)
    → ((front : List CallSite) × (front ++ (extend p caller site).sites
          ≡ caller.sites ++ site ∷ []))
      × (length (extend p caller site).sites ≡ min p.k (length caller.sites + 1))
unfolding extend
extend_lem p caller site =
    let v = caller.sites ++ site ∷ [] in
    let grown = length-append caller.sites (site ∷ []) in
    elim (Bool-cases (p.k == 0)) [
      | inl none_kept ↦
          ((v, simp none_kept (append-nil v)), simp none_kept (ground (arith, none_kept)))
      | inr some_kept ↦ elim (Bool-cases (ltb p.k (length v))) [
        | inl longer ↦ (
          simp (some_kept, longer) (split-drop (length v - p.k) v),
          simp (some_kept, longer) (ground (arith, grown, length-drop (length v - p.k) v)),
        )
        | inr fits ↦ (([], simp (some_kept, fits)), simp (some_kept, fits) (ground (arith, grown)))
      ]
    ]
