-- ===== src/Pta/Interproc.antt =====
-- src/memory/pta/interproc.rs: the copy constraints that link a call to its callee.
use conc_bug_dect_rust.Prelude.{
  List, Option, [], arith, contains, contains-append, get_elem?, list_eq, list_ord, nat_eq, nat_ord,
  none, pair_eq, pair_ord, some, suc, true, zero, ℕ, ◌++◌, ◌∷◌, ◌≡◌,
}
use conc_bug_dect_rust.Pta.Constraint.{Constraint, copy, constraint_eq}
use conc_bug_dect_rust.Pta.Solver.{State}
use conc_bug_dect_rust.Pta.Solver.Sound.{Satisfies}

-- The loop over the parameters zipped with the arguments; `none` is a constant argument.
pub bind_params : List ℕ → List (Option ℕ) → List Constraint
bind_params (param ∷ params) (some arg ∷ args) = copy param arg ∷ bind_params params args
bind_params (param ∷ params) (none ∷ args) = bind_params params args
bind_params _ _ = []

unfoldable pub bind_call_edges : List ℕ → ℕ → List (Option ℕ) → ℕ → List Constraint
unfolding bind_params
bind_call_edges callee_params callee_return caller_args caller_dest =
    bind_params callee_params caller_args ++ copy caller_dest callee_return ∷ []

bind_params-copy :
    (params : List ℕ) (args : List (Option ℕ)) (i : ℕ) {p a : ℕ}
    → get_elem? params i ≡ some p
    → get_elem? args i ≡ some (some a)
    → contains (bind_params params args) (copy p a) ≡ true
unfolding bind_params
bind_params-copy [] args i h k = cc
bind_params-copy (x ∷ params) [] i h k = cc
bind_params-copy (x ∷ params) (some y ∷ args) zero {p} {a} h k = ground arith
bind_params-copy (x ∷ params) (none ∷ args) zero h k = cc
bind_params-copy (x ∷ params) (some y ∷ args) (suc i) h k =
    ground (arith, bind_params-copy params args i h k)
bind_params-copy (x ∷ params) (none ∷ args) (suc i) h k = bind_params-copy params args i h k

-- A points-to relation that satisfies the constraints of a call passes everything that an argument
-- may point to on to the parameter at its position, and what the callee's return may point to on
-- to the destination of the call.
pub bind_call_edges-Satisfies :
    (s : State) (params : List ℕ) (ret : ℕ) (args : List (Option ℕ)) (dest : ℕ)
    → Satisfies s (bind_call_edges params ret args dest)
    → ((i p a o : ℕ)
        → get_elem? params i ≡ some p
        → get_elem? args i ≡ some (some a)
        → contains (s.pts a) o ≡ true
        → contains (s.pts p) o ≡ true)
      × ((o : ℕ) → contains (s.pts ret) o ≡ true → contains (s.pts dest) o ≡ true)
unfolding bind_call_edges
bind_call_edges-Satisfies s params ret args dest h = (
  λ i p a o hp ha k.
      h.copied p a o
        (ground (
          arith,
          contains-append (bind_params params args) (copy dest ret ∷ []) (copy p a),
          bind_params-copy params args i hp ha,
        ))
        k,
  λ o k.
      h.copied dest ret o
        (ground
          (arith, contains-append (bind_params params args) (copy dest ret ∷ []) (copy dest ret)))
        k,
)
