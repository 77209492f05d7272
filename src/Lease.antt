-- ===== src/Lease.antt =====
-- The native lease book of crates/jackstay/src/native/lease.rs: which frames consumers still hold, and
-- which release timelines end a hold. The hash maps are dictionaries in key order, so a list of
-- released leases stands for the same leases in any order; a hash set is a dictionary of units.
pub mod Ledger
pub mod Calls
pub mod Holding
pub mod Spending
mod Tests
use jackstay.Base.{
  ℕ, ◌+◌, ◌-◌, ◌≤◌, Bool, true, false, not, ◌&&◌, ◌||◌, Option, none, some, List, [], ◌∷◌, ◌==◌,
  leb, length, max, if◌then◌else◌, is_some, add64, u64_mod,
}
use jackstay.Base.Result.{Result, ok, err, Outcome}
use jackstay.Base.Dict.{Dict, lookup, insert, remove, retain}

pub record LeaseIdentity : Type 0 where
  pub cursor : ℕ
  pub sequence : ℕ
  pub pool_id : ℕ
  pub slot_id : ℕ

-- `timeline_value release_sync_id value`.
pub data LeaseRelease : Type 0 where
  now : LeaseRelease
  timeline_value : ℕ → ℕ → LeaseRelease

pub record ReleasedLease : Type 0 where
  pub lease_id : ℕ
  pub identity : LeaseIdentity

pub data LeaseError : Type 0 where
  unknown_lease already_released unknown_release_sync : ℕ → LeaseError
  lease_ids_exhausted release_sync_ids_exhausted : LeaseError

-- `release_pending release_sync_id value`.
pub data LeaseState : Type 0 where
  outstanding : LeaseState
  release_pending : ℕ → ℕ → LeaseState

pub record LeaseEntry : Type 0 where
  pub identity : LeaseIdentity
  pub state : LeaseState

pub record LeaseBook : Type 0 where
  pub next_lease_id : ℕ
  pub next_release_sync_id : ℕ
  pub leases : Dict LeaseEntry
  pub release_syncs : Dict (Unit {0})

-- `u64::MAX`.
abbrev pub u64_max : ℕ
u64_max = u64_mod - 1

abbrev pub new : LeaseBook
new = record { next_lease_id = 1; next_release_sync_id = 1; leases = []; release_syncs = [] }

unfoldable pub acquire : LeaseBook → LeaseIdentity → Outcome LeaseBook LeaseError ℕ
acquire b identity = if b.next_lease_id == u64_max then (b, err lease_ids_exhausted) else (
  record b {
    next_lease_id = add64 b.next_lease_id 1;
    leases = insert b.next_lease_id (record { identity = identity; state = outstanding }) b.leases;
  },
  ok b.next_lease_id,
)

unfoldable pub register_release_sync : LeaseBook → Outcome LeaseBook LeaseError ℕ
register_release_sync b =
    if b.next_release_sync_id == u64_max then (b, err release_sync_ids_exhausted) else (
      record b {
        next_release_sync_id = add64 b.next_release_sync_id 1;
        release_syncs = insert b.next_release_sync_id tt b.release_syncs;
      },
      ok b.next_release_sync_id,
    )

unfoldable pub register_release_sync_id : LeaseBook → ℕ → Outcome LeaseBook LeaseError (Unit {0})
register_release_sync_id b id = if id == u64_max then (b, err release_sync_ids_exhausted) else (
  record b {
    next_release_sync_id = max b.next_release_sync_id (add64 id 1);
    release_syncs = insert id tt b.release_syncs;
  },
  ok tt,
)

abbrev pub is_outstanding : LeaseState → Bool
is_outstanding outstanding = true
is_outstanding (release_pending sync value) = false

-- The entry is taken out of the book first, and put back on every path but the immediate release.
unfoldable pub release_entry :
    LeaseBook → ℕ → LeaseEntry → LeaseRelease → Outcome LeaseBook LeaseError ReleasedLease
release_entry b id entry now = (b, ok (record { lease_id = id; identity = entry.identity }))
release_entry b id entry (timeline_value sync value) =
    if is_some (lookup sync b.release_syncs)
    then (
      record b {
        leases = insert id (record entry { state = release_pending sync value }) b.leases;
      },
      ok (record { lease_id = id; identity = entry.identity }),
    )
    else (record b { leases = insert id entry b.leases }, err (unknown_release_sync sync))

unfoldable pub release : LeaseBook → ℕ → LeaseRelease → Outcome LeaseBook LeaseError ReleasedLease
unfolding release_entry
release b id r = elim (lookup id b.leases) [
  | none ↦ (b, err (unknown_lease id))
  | some entry ↦
      let taken : LeaseBook = record b { leases = remove id b.leases } in
      if is_outstanding entry.state
      then release_entry taken id entry r
      else (record taken { leases = insert id entry taken.leases }, err (already_released id))
]

-- Whether the timeline `sync` at `reached` ends a hold.
abbrev pub is_complete : ℕ → ℕ → LeaseState → Bool
is_complete sync reached outstanding = false
is_complete sync reached (release_pending pending value) = pending == sync && leb value reached

-- What the closure of `retain` pushes onto `released`.
unfoldable pub released_by : ℕ → ℕ → Dict LeaseEntry → List ReleasedLease
released_by sync reached [] = []
released_by sync reached ((id, entry) ∷ m) =
    if is_complete sync reached entry.state
    then record { lease_id = id; identity = entry.identity } ∷ released_by sync reached m
    else released_by sync reached m

unfoldable pub complete_release_sync :
    LeaseBook → ℕ → ℕ → Outcome LeaseBook LeaseError (List ReleasedLease)
unfolding released_by
complete_release_sync b sync reached =
    if is_some (lookup sync b.release_syncs)
    then (
      record b {
        leases = retain (λ id entry. not (is_complete sync reached entry.state)) b.leases;
      },
      ok (released_by sync reached b.leases),
    )
    else (b, err (unknown_release_sync sync))

unfoldable pub any_in_slot : ℕ → ℕ → Dict LeaseEntry → Bool
any_in_slot pool slot [] = false
any_in_slot pool slot ((id, entry) ∷ m) =
    (entry.identity.pool_id == pool && entry.identity.slot_id == slot) || any_in_slot pool slot m

abbrev pub slot_has_unresolved_leases : LeaseBook → ℕ → ℕ → Bool
slot_has_unresolved_leases b pool slot = any_in_slot pool slot b.leases

abbrev pub outstanding_count : LeaseBook → ℕ
outstanding_count b = length b.leases
