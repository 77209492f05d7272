-- ===== src/Lease/Holding.antt =====
-- How long a frame is held, and what ends it.
use jackstay.Base.{
  ℕ, ◌+◌, ◌<◌, ◌≡◌, ◌≢◌, ap, inl, inr, refl, ◌∙◌, Bool, true, false, not, none, some, List, [], ◌∷◌,
  arith, length, if◌then◌else◌, is_some, Bool-cases,
}
use jackstay.Base.Result.{ok}
use jackstay.Base.Dict.{
  Dict, lookup, insert, remove, retain, Within-lookup, lookup-insert, lookup-remove,
}
use jackstay.Lease.{
  LeaseIdentity, LeaseRelease, ReleasedLease, outstanding, release_pending, LeaseEntry, LeaseBook,
  acquire, register_release_sync, register_release_sync_id, release, is_complete, released_by,
  complete_release_sync, any_in_slot, slot_has_unresolved_leases,
}
use jackstay.Lease.Ledger.{
  lookup-retain, Listed, ticket, length-released_by, released_by-lookup, lookup-released_by,
}
use jackstay.Lease.Calls.{
  IsValid, Call, acquires, registers, registers_id, releases, completes, Fits, step, run,
  release_cases, step-IsValid,
}

-- What becomes of each lease when a timeline reaches a value.
pub record Settles (sync reached : ℕ) (m m' : Dict LeaseEntry) (released : List ReleasedLease)
    : Type 0 where
  pub ends :
      (id : ℕ) (entry : LeaseEntry)
      → lookup id m ≡ some entry
      → is_complete sync reached entry.state ≡ true
      → (lookup id m' ≡ none) × Listed (ticket id entry) released
  pub stays :
      (id : ℕ) (entry : LeaseEntry)
      → lookup id m ≡ some entry
      → is_complete sync reached entry.state ≡ false
      → lookup id m' ≡ some entry
  pub earned :
      (x : ReleasedLease)
      → Listed x released
      → (entry : LeaseEntry) × (lookup x.lease_id m ≡ some entry)
        × (is_complete sync reached entry.state ≡ true)
        × (x ≡ ticket x.lease_id entry)
  pub counted : length released + length m' ≡ length m

pub complete_release_sync_lem :
    (b : LeaseBook) (sync reached : ℕ)
    → IsValid b
    → is_some (lookup sync b.release_syncs) ≡ true
    → (released : List ReleasedLease) × ((complete_release_sync b sync reached).1 ≡ ok released)
      × Settles sync reached b.leases (complete_release_sync b sync reached).0.leases released
unfolding complete_release_sync
complete_release_sync_lem b sync reached v h = rw h (
  released_by sync reached b.leases,
  refl,
  record {
    ends = λ id entry e c.
        (fate id entry e true c, released_by-lookup sync reached id entry b.leases e c);
    stays = λ id entry e c. fate id entry e false c;
    earned = λ x l. lookup-released_by sync reached 1 b.next_lease_id x b.leases v.leases_below l;
    counted = length-released_by sync reached b.leases;
  },
)
  where
    fate :
        (id : ℕ) (entry : LeaseEntry)
        → lookup id b.leases ≡ some entry
        → (d : Bool) → is_complete sync reached entry.state ≡ d
        → lookup id (retain (λ k e. not (is_complete sync reached e.state)) b.leases)
          ≡ (if not d then some entry else none)
    fate id entry e d c =
        lookup-retain (λ k x. not (is_complete sync reached x.state)) 1 b.next_lease_id id b.leases
          v.leases_below
        ∙ rw e (rw c refl)

-- The calls that do not release the lease `id`.
abbrev pub Keeps : ℕ → Call → Type 0
Keeps id (releases j r) = j ≢ id
Keeps id (acquires identity) = Unit {0}
Keeps id registers = Unit {0}
Keeps id (registers_id sync) = Unit {0}
Keeps id (completes sync reached) = Unit {0}

abbrev pub KeepsAll : ℕ → List Call → Type 0
KeepsAll id [] = Unit {0}
KeepsAll id (c ∷ cs) = Keeps id c × KeepsAll id cs

-- The lease `id` is outstanding.
abbrev pub Held : ℕ → LeaseIdentity → LeaseBook → Type 0
Held id identity b = lookup id b.leases ≡ some (record { identity = identity; state = outstanding })

module _ (id : ℕ) where
  pub retained :
      (b : LeaseBook) (sync reached : ℕ) (entry : LeaseEntry)
      → IsValid b
      → lookup id b.leases ≡ some entry
      → is_complete sync reached entry.state ≡ false
      → lookup id (complete_release_sync b sync reached).0.leases ≡ some entry
  unfolding complete_release_sync
  retained b sync reached entry v e c = elim (Bool-cases (is_some (lookup sync b.release_syncs))) [
    | inl g ↦ (complete_release_sync_lem b sync reached v g).2.stays id entry e c
    | inr g ↦ rw g e
  ]

  pub acquire-lookup :
      (b : LeaseBook) (identity : LeaseIdentity)
      → id < b.next_lease_id
      → lookup id (acquire b identity).0.leases ≡ lookup id b.leases
  unfolding acquire
  acquire-lookup b identity l = ground (
    arith,
    lookup-insert id b.next_lease_id (record { identity = identity; state = outstanding }) b.leases,
  )

  pub register-lookup : (b : LeaseBook) → (register_release_sync b).0.leases ≡ b.leases
  unfolding register_release_sync
  register-lookup b = ground arith

  pub register_id-lookup :
      (b : LeaseBook) (sync : ℕ) → (register_release_sync_id b sync).0.leases ≡ b.leases
  unfolding register_release_sync_id
  register_id-lookup b sync = ground arith

  pub release-lookup :
      (b : LeaseBook) (j : ℕ) (r : LeaseRelease)
      → j ≢ id
      → lookup id (release b j r).0.leases ≡ lookup id b.leases
  release-lookup b j r n =
      release_cases (λ o. lookup id o.0.leases ≡ lookup id b.leases) b j r (λ e. refl)
        (λ entry e h. put entry) (λ entry h o q. out)
        (λ entry sync value h o q g. put (record entry { state = release_pending sync value }))
    where
      out : lookup id (remove j b.leases) ≡ lookup id b.leases
      out = ground (arith, lookup-remove id j b.leases)

      put : (x : LeaseEntry) → lookup id (insert j x (remove j b.leases)) ≡ lookup id b.leases
      put x = ground (arith, lookup-insert id j x (remove j b.leases), out)

  step-Held :
      (b : LeaseBook) (identity : LeaseIdentity) (c : Call)
      → IsValid b
      → Keeps id c
      → Held id identity b
      → Held id identity (step b c)
  unfolding step
  step-Held b identity (acquires other) v k h =
      acquire-lookup b other (Within-lookup 1 b.next_lease_id id _ b.leases v.leases_below h).1 ∙ h
  step-Held b identity registers v k h = ap (lookup id) (register-lookup b) ∙ h
  step-Held b identity (registers_id sync) v k h = ap (lookup id) (register_id-lookup b sync) ∙ h
  step-Held b identity (releases j r) v k h = release-lookup b j r k ∙ h
  step-Held b identity (completes sync reached) v k h = retained b sync reached _ v h refl

  run-Held :
      (b : LeaseBook) (identity : LeaseIdentity) (cs : List Call)
      → IsValid b
      → Fits cs
      → KeepsAll id cs
      → Held id identity b
      → Held id identity (run b cs)
  unfolding run
  run-Held b identity [] v f k h = h
  run-Held b identity (c ∷ cs) v f k h =
      run-Held (step b c) identity cs (step-IsValid b c f.0 v) f.1 k.1
        (step-Held b identity c v k.0 h)

  any_in_slot-lookup :
      (entry : LeaseEntry) (m : Dict LeaseEntry)
      → lookup id m ≡ some entry
      → any_in_slot entry.identity.pool_id entry.identity.slot_id m ≡ true
  unfolding any_in_slot lookup
  any_in_slot-lookup entry [] h = absurd (none-ne-some h)
    where
      none-ne-some : none ≡ some entry → ⊥
      none-ne-some h = cc
  any_in_slot-lookup entry ((j, e) ∷ m) h = ground (arith, any_in_slot-lookup entry m)

  acquire-Held :
      (b : LeaseBook) (identity : LeaseIdentity)
      → (acquire b identity).1 ≡ ok id
      → Held id identity (acquire b identity).0
  unfolding acquire
  acquire-Held b identity h = ground (
    arith,
    lookup-insert id b.next_lease_id (record { identity = identity; state = outstanding }) b.leases,
  )

  -- A frame's slot is not free while its lease is out: on a valid book, after a lease has been
  -- acquired, the slot has unresolved leases through every history of calls, completed timelines
  -- included, in which that lease is not released.
  pub slot-acquire :
      (b : LeaseBook) (identity : LeaseIdentity) (cs : List Call)
      → IsValid b
      → Fits cs
      → KeepsAll id cs
      → (acquire b identity).1 ≡ ok id
      → slot_has_unresolved_leases (run (acquire b identity).0 cs) identity.pool_id identity.slot_id
        ≡ true
  unfolding step
  slot-acquire b identity cs v f k h =
      let u = (acquire b identity).0 in
      any_in_slot-lookup _ (run u cs).leases (
        run-Held u identity cs (step-IsValid b (acquires identity) tt v) f k
          (acquire-Held b identity h))
