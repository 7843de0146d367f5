-- ===== src/Detect/Deadlock/Terminal.antt =====
-- src/detect/deadlock.rs: what the search for terminal states reports.
use conc_bug_dect_rust.Prelude.{
  Bool-cases, Every, List, Text, [], ap, arith, codes, cons, contains, contains-insert,
  contains_text, false, if◌then◌else◌, inl, inr, insert, length, list_eq, list_ord, ltb, nat_eq,
  nat_ord, nil, pair_eq, pair_ord, refl, true, ℕ, ℕ_discrete, ◌&&◌, ◌<◌, ◌==◌, ◌||◌, ◌↔◌, ◌∷◌, ◌≡◌,
  ◌⊎◌,
}
use conc_bug_dect_rust.Detect.Graph.{Edge, StateGraph}
use conc_bug_dect_rust.Detect.Deadlock.{ends_normally, is_deadlock, terminal_deadlocks}

contains-added :
    (g : StateGraph) (ns deadlocks : List ℕ) (n : ℕ)
    → contains (terminal_deadlocks g ns deadlocks) n
      ≡ contains deadlocks n || (contains ns n && is_deadlock g n)
unfolding terminal_deadlocks
contains-added g [] deadlocks n = ground arith
contains-added g (m ∷ ns) deadlocks n =
    let left = if is_deadlock g m then insert m deadlocks else deadlocks in
    let rest = contains-added g ns left n in
    elim (ℕ_discrete m n) [
      | yes same ↦ ground (arith, rest, contains-insert m deadlocks n, ap (is_deadlock g) same)
      | no other ↦ ground (arith, rest, contains-insert m deadlocks n)
    ]

-- A place with a token whose name says that the main function has ended.
abbrev pub EndsMain : ℕ × Text → Type 0
EndsMain p = (0 < p.0) × (contains_text p.1 (codes "main_end") ≡ true)

unended : (ps : List (ℕ × Text)) → ends_normally ps ≡ false ↔ Every (λ p. ¬ EndsMain p) ps
unfolding ends_normally
unended [] = (λ h. nil, λ h. refl)
unended ((tokens, name) ∷ ps) = (
  λ h. cons (λ e. absurd (ground (arith, e.0, e.1))) ((unended ps).0 (ground arith)),
  λ h. elim h [
    | cons k ks ↦
        let rest = (unended ps).1 ks in
        elim (Bool-cases (contains_text name (codes "main_end"))) [
          | inr no_name ↦ ground arith
          | inl named ↦ elim (Bool-cases (ltb 0 tokens)) [
            | inr empty ↦ ground arith
            | inl full ↦ absurd (k (ground arith, named))
          ]
        ]
  ],
)

no_edges : (es : List Edge) → (length es == 0) ≡ true ↔ es ≡ []
unfolding ℕ_discrete
no_edges [] = (λ h. refl, λ h. refl)
no_edges (e ∷ es) = (λ h. absurd (ground arith), λ h. cc)

-- The search by reachability adds to the given list exactly the nodes in hand that have no outgoing
-- edge, and no place with a token whose name says that the main function has ended.
pub contains-terminal_deadlocks :
    (g : StateGraph) (ns deadlocks : List ℕ) (n : ℕ)
    → contains (terminal_deadlocks g ns deadlocks) n ≡ true ↔ (
        (contains deadlocks n ≡ true)
        ⊎ ((contains ns n ≡ true) × (g.edges n ≡ []) × Every (λ p. ¬ EndsMain p) (g.node n).places))
unfolding is_deadlock
contains-terminal_deadlocks g ns deadlocks n =
    let all = contains-added g ns deadlocks n in
    let edges = no_edges (g.edges n) in
    let ended = unended (g.node n).places in
    (
      λ h. elim (Bool-cases (contains deadlocks n)) [
        | inl old ↦ inl old
        | inr new ↦ inr (ground arith, edges.0 (ground arith), ended.0 (ground arith))
      ],
      λ h. elim h [
        | inl old ↦ ground arith
        | inr (here, none_left, open_end) ↦
            let a = edges.1 none_left in let b = ended.1 open_end in ground arith
      ],
    )
