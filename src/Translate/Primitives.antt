-- ===== src/Translate/Primitives.antt =====
-- src/concurrency/atomic.rs and blocking.rs: orderings and operations of atomics, kinds of lock
-- guards, and the ids that are looked up in maps.
use conc_bug_dect_rust.Prelude.{
  Bool, Eq, Option, Text, codes, drop, if◌then◌else◌, list_eq, list_ord, nat_eq, nat_ord, none,
  pair_eq, pair_ord, rfind, some, suc, zero, ℕ, ℕ_discrete, ◌+◌, ◌==◌, ◌||◌,
}
use conc_bug_dect_rust.Memory.PointsTo.{AliasId, LockGuardId}

pub data AtomicOrdering : Type 0 where
  relaxed : AtomicOrdering
  release : AtomicOrdering
  acquire : AtomicOrdering
  acq_rel : AtomicOrdering
  seq_cst : AtomicOrdering

pub from_u32 : ℕ → AtomicOrdering
from_u32 zero = relaxed
from_u32 (suc zero) = release
from_u32 (suc (suc zero)) = acquire
from_u32 (suc (suc (suc zero))) = acq_rel
from_u32 (suc (suc (suc (suc _)))) = seq_cst

pub data AtomicApi : Type 0 where
  read : AtomicApi
  write : AtomicApi
  read_write : AtomicApi

-- `rsplit("::").next()`
pub last_segment : Text → Text
last_segment s = elim (rfind s (codes "::")) [ none ↦ s | some n ↦ drop (n + 2) s ]

pub is_read_write : Text → Bool
is_read_write s =
    s == codes "compare_exchange"
    || s == codes "fetch_add"
    || s == codes "fetch_sub"
    || s == codes "fetch_and"
    || s == codes "fetch_or"
    || s == codes "fetch_xor"
    || s == codes "swap"

api_of_segment : Text → Option AtomicApi
unfolding is_read_write
api_of_segment s =
    if s == codes "load"
    then some read
    else if s == codes "store"
    then some write
    else if is_read_write s
    then some read_write
    else none

unfoldable pub atomic_api_from_name : Text → Option AtomicApi
unfolding last_segment api_of_segment
atomic_api_from_name fn_name = api_of_segment (last_segment fn_name)

-- The type inside the guard is not read.
pub data LockGuardTy : Type 0 where
  std_mutex : LockGuardTy
  parking_lot_mutex : LockGuardTy
  spin_mutex : LockGuardTy
  std_rw_lock_read : LockGuardTy
  std_rw_lock_write : LockGuardTy
  parking_lot_read : LockGuardTy
  parking_lot_write : LockGuardTy
  spin_read : LockGuardTy
  spin_write : LockGuardTy

unfoldable pub AliasId-discrete : Discrete AliasId
AliasId-discrete = hlevel ℕ_discrete

unfoldable pub LockGuardId-discrete : Discrete LockGuardId
LockGuardId-discrete = hlevel ℕ_discrete

instance abbrev pub alias_eq : Eq AliasId
alias_eq = record { dec = AliasId-discrete }

instance abbrev pub guard_eq : Eq LockGuardId
guard_eq = record { dec = LockGuardId-discrete }
