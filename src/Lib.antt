-- ===== src/Lib.antt =====
-- The pointer analysis and the detectors of a static checker for concurrency bugs in Rust programs.
--
-- The program translates the MIR of a crate to a Petri net, explores the net with another package,
-- and searches the state graph for deadlocks, data races and atomicity violations. Which places of
-- the net stand for the same memory is decided by an inclusion-based pointer analysis. Here are the
-- analysis from its constraints on, the alias query that the translation asks, the translation of
-- the bodies of functions, the construction of the places and lock groups that they share, and the
-- three detectors.
--
-- Parts and files (paths from the repository's root):
-- - src/memory/pta/intern.rs: Pta/Intern. A table of values and a map to 32-bit ids; an id wraps at
--   2^32. `intern`, `get`, `get_id`, `iter` have the names of the source.
-- - src/memory/pta/context.rs: Pta/Context, with `extend` of the k-limited policy.
-- - src/memory/pta/constraint.rs: Pta/Constraint.
-- - src/memory/pta/loc.rs: Pta/Loc. Access paths and locations, both interned; `project` appends a
--   path up to the depth cap. A method `var` is `var_loc` here, and so for `heap` and `global`.
-- - src/memory/pta/solver.rs: Pta/Solver. The local variables of `solve` are the record `State`,
--   each loop of its body is a function, and `loop` is the `while` loop on fuel.
-- - src/memory/pta/interproc.rs: Pta/Interproc, the constraints of a call.
-- - src/memory/pta/result.rs: Pta/Result, the alias query on a solved relation.
-- - src/memory/pointsto.rs, and AliasUnknownPolicy of src/config.rs: Memory/PointsTo.
-- - src/memory/pta/adapter.rs: Memory/Alias, `alias`; `collapsed_may_alias_receiver` of analysis.rs
--   and `may_alias_via_type_param`, which are not modelled, are arguments.
-- - src/detect/atomicity_violation.rs: Detect/Atomicity, the search for witnesses and its report.
-- - src/detect/datarace.rs: Detect/Datarace, from the accesses of a state to the merged conditions.
-- - src/detect/deadlock.rs: Detect/Deadlock, the two searches and the path to a state.
-- - src/translate/structure.rs: Translate/Registry, the maps of the translation.
-- - src/translate/mir_to_pn/drop_unsafe.rs: Translate/UnsafeOps, the group of an unsafe place and the
--   merging of the accesses of a block; Translate/Body/Unsafe, the transition of a block; the drop of
--   a guard stands in Translate/Body/Locks.
-- - src/concurrency/atomic.rs and src/concurrency/blocking.rs: Translate/Primitives, orderings and
--   the kinds of guards. What the code reads of the compiler's MIR: Translate/Mir.
-- - src/translate/mir_to_pn/mod.rs, bb_graph.rs and src/translate/macros.rs: Translate/Body, the
--   struct BodyToPetriNet as the record `Context` of what is only read and the record `BodyState` of
--   what changes; Translate/Body/Visit, the visit of a body.
-- - src/translate/mir_to_pn/terminator.rs: Translate/Body/Blocks, with one function per terminator.
-- - src/translate/mir_to_pn/concurrency.rs: Translate/Body/Ordering, the segments of a thread between
--   its ordered atomic operations, and the operations on atomics and channels.
-- - src/translate/mir_to_pn/calls.rs: Translate/Body/Locks and Translate/Body/Calls; `dispatch` tries
--   the handlers in the order of `handle_call`.
-- - src/translate/mir_to_pn/thread_control.rs and closure.rs: Translate/Body/Threads.
-- - src/translate/mir_to_pn/cfg_utils.rs: Translate/BackEdges.
-- - src/translate/petri_net.rs: Translate/Groups, its union and find; Translate/Construct, the places
--   of functions and locks; Translate/Construct/Resources, channels, atomics, unsafe places and the
--   whole `construct`.
-- - Prelude holds what these share: Boolean tests, lists, sets, maps, orders and strings.
-- - Tests holds concrete inputs, with the theorems applied to them.
--
-- The types of the net package stand in Detect/Graph and Translate/Net. The translation computes the
-- types of acquisitions and drops them, so that the search for blocked cycles is modelled for any
-- graph, not for those of the program alone.
--
-- The state graph is a parameter (Detect/Graph): its nodes, their enabled transitions and places,
-- and the outgoing edges of each. An index out of range, `expect`, `unwrap` and `unreachable!` are
-- `none` or an outcome of their own. A hash map or set is a list in the order of insertion; a
-- B-tree is a list in the order of its keys. Tuples are nested pairs, strings are lists of code
-- points, and the texts that a derived `Debug` prints are parameters.
--
-- The builder of the net belongs to another package. A net is therefore the list of the calls to it,
-- the last one first (Translate/Net); the ids that it gives out are a function of that list, about
-- which nothing is assumed, but in one result that the id of a place is not given out again. The tokens of the arcs between a place and a transition are added up
-- over the calls.
--
-- Fuel: the solver needs 2 N² + C rounds, for N accesses of a finite universe and C constraints,
-- since a round either adds one of finitely many facts or only shortens the work list. The search
-- for atomicity violations needs 1 + S · D rounds, for at most S visited states and at most D edges
-- of a node. A `find` takes at most as many steps as there are keys, since its parents form a forest,
-- and the search for back edges goes at most one deeper than the number of blocks. The searches of
-- the deadlock detector are on fuel too, and nothing is claimed of it.
--
-- Not modelled: the constraint generation, the call graph and the collectors of locks, atomics,
-- channels and unsafe places, which read the compiler's data: what they find is an argument, and so
-- are the regular expressions on names of functions and the test whether a block sets a pending poll.
-- The result of the search for back edges is stored by the code and read nowhere, so that the visit
-- leaves it out. The snapshot of a marking and the traces of resources in the reports; options,
-- output, logging, clocks.
pub mod Prelude
pub mod Pta
pub mod Memory
pub mod Detect
pub mod Translate
pub mod Tests
