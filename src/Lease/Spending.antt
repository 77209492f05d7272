-- ===== src/Lease/Spending.antt =====
-- A released lease stays released.
use jackstay.Base.{
  ℕ, ◌≤◌, ◌<◌, ◌≡◌, ◌≢◌, ap, ◌⊎◌, inl, inr, refl, sym, ◌∙◌, subst, true, false, not, Option, none,
  some, List, [], ◌∷◌, arith, ◌==◌, is_some, Bool-cases,
}
use jackstay.Base.Result.{ok, err}
use jackstay.Base.Dict.{lookup, insert, remove, Within-lookup, lookup-insert, lookup-remove}
use jackstay.Lease.{
  LeaseRelease, ReleasedLease, LeaseError, LeaseEntry, LeaseBook, acquire, register_release_sync,
  register_release_sync_id, is_outstanding, release, is_complete, complete_release_sync,
}
use jackstay.Lease.Ledger.{lookup-retain}
use jackstay.Lease.Calls.{
  IsValid, Call, acquires, registers, registers_id, releases, completes, Fits, step, run,
  release_cases, step-IsValid,
}
use jackstay.Lease.Holding.{
  complete_release_sync_lem, retained, acquire-lookup, register-lookup, register_id-lookup,
  release-lookup,
}

-- The lease `id` is spent: gone for good, or waiting for its timeline.
abbrev pub Spent : ℕ → LeaseBook → Type 0
Spent id b =
    (id < b.next_lease_id)
    × ((lookup id b.leases ≡ none)
        ⊎ ((entry : LeaseEntry) × (lookup id b.leases ≡ some entry)
            × (is_outstanding entry.state ≡ false)))

module _ (id : ℕ) where
  vanished :
      (b : LeaseBook) (sync reached : ℕ)
      → IsValid b
      → lookup id b.leases ≡ none
      → lookup id (complete_release_sync b sync reached).0.leases ≡ none
  unfolding complete_release_sync
  vanished b sync reached v e = elim (Bool-cases (is_some (lookup sync b.release_syncs))) [
    | inl g ↦ rw g (
        lookup-retain (λ k x. not (is_complete sync reached x.state)) 1 b.next_lease_id id b.leases
          v.leases_below
        ∙ rw e refl)
    | inr g ↦ rw g e
  ]

  ids_grow : (b : LeaseBook) (c : Call) → IsValid b → b.next_lease_id ≤ (step b c).next_lease_id
  unfolding step acquire register_release_sync register_release_sync_id complete_release_sync
  ids_grow b (acquires identity) v = ground (arith, v.lease_ids)
  ids_grow b registers v = ground arith
  ids_grow b (registers_id sync) v = ground arith
  ids_grow b (releases j r) v =
      release_cases (λ o. b.next_lease_id ≤ o.0.next_lease_id) b j r (λ e. omega arith)
        (λ entry e h. omega arith) (λ entry h o q. omega arith)
        (λ entry sync value h o q g. omega arith)
  ids_grow b (completes sync reached) v = ground arith

  -- Spent leases stay spent.
  abbrev Over : Option LeaseEntry → Type 0
  Over o =
      (o ≡ none) ⊎ ((entry : LeaseEntry) × (o ≡ some entry) × (is_outstanding entry.state ≡ false))

  complete_release_sync-Over :
      (b : LeaseBook) (sync reached : ℕ)
      → IsValid b
      → Over (lookup id b.leases)
      → Over (lookup id (complete_release_sync b sync reached).0.leases)
  unfolding complete_release_sync
  complete_release_sync-Over b sync reached v (inl e) = inl (vanished b sync reached v e)
  complete_release_sync-Over b sync reached v (inr (entry, e, o)) =
      elim (Bool-cases (is_complete sync reached entry.state)) [
        | inr c ↦ inr (entry, retained id b sync reached entry v e c, o)
        | inl c ↦ elim (Bool-cases (is_some (lookup sync b.release_syncs))) [
          | inl g ↦ inl ((complete_release_sync_lem b sync reached v g).2.ends id entry e c).0
          | inr g ↦ inr (entry, idle g ∙ e, o)
        ]
      ]
    where
      idle :
          is_some (lookup sync b.release_syncs) ≡ false
          → lookup id (complete_release_sync b sync reached).0.leases ≡ lookup id b.leases
      idle g = rw (g, complete_release_sync) refl

  spent_state :
      (o : Option LeaseEntry) (entry : LeaseEntry)
      → Over o
      → o ≡ some entry
      → is_outstanding entry.state ≡ true
      → ⊥
  spent_state o entry (inl n) e k = cc
  spent_state o entry (inr (x, n, f)) e k = cc

  -- A spent lease is refused.
  release-Over :
      (b : LeaseBook) (r : LeaseRelease)
      → Over (lookup id b.leases)
      → Over (lookup id (release b id r).0.leases) × (e : LeaseError) × ((release b id r).1 ≡ err e)
  release-Over b r h =
      release_cases (λ o. Over (lookup id o.0.leases) × (e : LeaseError) × (o.1 ≡ err e)) b id r
        (λ e. (inl e, _, refl)) (λ entry f e. (put entry e, f, refl))
        (λ entry e o q. absurd (spent_state _ entry h e o))
        (λ entry sync value e o q g. absurd (spent_state _ entry h e o))
    where
      put :
          (entry : LeaseEntry)
          → lookup id b.leases ≡ some entry
          → Over (lookup id (insert id entry (remove id b.leases)))
      put entry e = elim (Bool-cases (is_outstanding entry.state)) [
        | inl k ↦ absurd (spent_state _ entry h e k)
        | inr k ↦ inr (entry, back, k)
      ]
        where
          back : lookup id (insert id entry (remove id b.leases)) ≡ some entry
          back = ground (arith, lookup-insert id id entry (remove id b.leases))

  step-Spent : (b : LeaseBook) (c : Call) → IsValid b → Spent id b → Spent id (step b c)
  unfolding step
  step-Spent b c v (l, o) = (omega (arith, ids_grow b c v), kept c)
    where
      moved : {m : Option LeaseEntry} → m ≡ lookup id b.leases → Over m
      moved e = subst Over (sym e) o

      same : (j : ℕ) → (j == id) ≡ true → j ≡ id
      same j e = ground arith

      differ : (j : ℕ) → (j == id) ≡ false → j ≢ id
      differ j e = ground arith

      kept : (c : Call) → Over (lookup id (step b c).leases)
      kept (acquires identity) = moved (acquire-lookup id b identity l)
      kept registers = moved (ap (lookup id) (register-lookup id b))
      kept (registers_id sync) = moved (ap (lookup id) (register_id-lookup id b sync))
      kept (releases j r) = elim (Bool-cases (j == id)) [
        | inl e ↦
            subst (λ k. Over (lookup id (release b k r).0.leases)) (sym (same j e))
              (release-Over b r o).0
        | inr e ↦ moved (release-lookup id b j r (differ j e))
      ]
      kept (completes sync reached) = complete_release_sync-Over b sync reached v o

  run-Spent :
      (b : LeaseBook) (cs : List Call) → IsValid b → Fits cs → Spent id b → Spent id (run b cs)
  unfolding run
  run-Spent b [] v f h = h
  run-Spent b (c ∷ cs) v f h =
      run-Spent (step b c) cs (step-IsValid b c f.0 v) f.1 (step-Spent b c v h)

  release-Spent :
      (b : LeaseBook) (r : LeaseRelease) (x : ReleasedLease)
      → IsValid b
      → (release b id r).1 ≡ ok x
      → Spent id (release b id r).0
  release-Spent b r x v =
      release_cases (λ o. o.1 ≡ ok x → Spent id o.0) b id r (λ e h. absurd (err-ne-ok h))
        (λ entry f e h. absurd (err-ne-ok h)) (λ entry e o q h. (below entry e, inl gone))
        (λ entry sync value e o q g h. (below entry e, inr (_, back _, refl)))
    where
      err-ne-ok : {e : LeaseError} → err e ≡ ok x → ⊥
      err-ne-ok h = cc

      below : (entry : LeaseEntry) → lookup id b.leases ≡ some entry → id < b.next_lease_id
      below entry e = (Within-lookup 1 b.next_lease_id id entry b.leases v.leases_below e).1

      gone : lookup id (remove id b.leases) ≡ none
      gone = ground (arith, lookup-remove id id b.leases)

      back : (entry : LeaseEntry) → lookup id (insert id entry (remove id b.leases)) ≡ some entry
      back entry = ground (arith, lookup-insert id id entry (remove id b.leases))

  -- A lease is released once: on a valid book, after a release has succeeded, at once or by a
  -- timeline, every later release of the same lease is refused, whatever is called in between.
  pub release-release :
      (b : LeaseBook) (r : LeaseRelease) (x : ReleasedLease) (cs : List Call) (r' : LeaseRelease)
      → IsValid b
      → Fits cs
      → (release b id r).1 ≡ ok x
      → (e : LeaseError) × ((release (run (release b id r).0 cs) id r').1 ≡ err e)
  unfolding step
  release-release b r x cs r' v f h =
      let (o, e, k) =
        release-Over (run (release b id r).0 cs) r'
          (run-Spent (release b id r).0 cs (step-IsValid b (releases id r) tt v) f
            (release-Spent b r x v h)).1 in
      (e, k)
