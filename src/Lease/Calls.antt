-- ===== src/Lease/Calls.antt =====
-- Histories of calls on one lease book, and what no call breaks.
use jackstay.Base.{
  ◌≢◌, ℕ, ◌+◌, ◌<◌, ◌≡◌, inl, inr, refl, subst, true, not, none, some, List, [], ◌∷◌, arith,
  is_some, Option-cases, Bool-cases, u64_mod, add64, max,
}
use jackstay.Base.Result.{Result, ok, err}
use jackstay.Base.Dict.{
  Dict, lookup, insert, remove, retain, Within, Within-insert, Within-remove, Within-widen,
  Within-lookup,
}
use jackstay.Lease.{
  LeaseIdentity, LeaseRelease, now, timeline_value, ReleasedLease, LeaseError, unknown_lease,
  already_released, unknown_release_sync, outstanding, release_pending, LeaseEntry, LeaseBook,
  u64_max, new, acquire, register_release_sync, register_release_sync_id, is_outstanding,
  release_entry, release, is_complete, complete_release_sync,
}
use jackstay.Lease.Ledger.{Within-retain, ticket, ended}

-- Leases lie below the next lease identity, registered timelines below the next timeline identity.
pub record IsValid (b : LeaseBook) : Type 0 where
  pub leases_below : Within 1 b.next_lease_id b.leases
  pub syncs_below : Within 0 b.next_release_sync_id b.release_syncs
  pub lease_ids : (0 < b.next_lease_id) × (b.next_lease_id < u64_mod)
  pub sync_ids : b.next_release_sync_id < u64_mod

pub data Call : Type 0 where
  acquires : LeaseIdentity → Call
  registers : Call
  registers_id : ℕ → Call
  releases : ℕ → LeaseRelease → Call
  completes : ℕ → ℕ → Call

-- An identity that the caller passes is a `u64`.
abbrev pub FitsCall : Call → Type 0
FitsCall (acquires identity) = Unit {0}
FitsCall registers = Unit {0}
FitsCall (registers_id id) = id < u64_mod
FitsCall (releases id r) = Unit {0}
FitsCall (completes sync reached) = Unit {0}

abbrev pub Fits : List Call → Type 0
Fits [] = Unit {0}
Fits (c ∷ cs) = FitsCall c × Fits cs

unfoldable pub step : LeaseBook → Call → LeaseBook
step b (acquires identity) = (acquire b identity).0
step b registers = (register_release_sync b).0
step b (registers_id id) = (register_release_sync_id b id).0
step b (releases id r) = (release b id r).0
step b (completes sync reached) = (complete_release_sync b sync reached).0

unfoldable pub run : LeaseBook → List Call → LeaseBook
run b [] = b
run b (c ∷ cs) = run (step b c) cs

-- `release` refuses and leaves the book, ends the hold at once, or leaves it to a timeline.
pub release_cases {ℓ} :
    (P : LeaseBook × Result LeaseError ReleasedLease → Type ℓ) (b : LeaseBook) (id : ℕ)
    (r : LeaseRelease)
    → (lookup id b.leases ≡ none → P (b, err (unknown_lease id)))
    → ((entry : LeaseEntry) (e : LeaseError)
        → lookup id b.leases ≡ some entry
        → P (record b { leases = insert id entry (remove id b.leases) }, err e))
    → ((entry : LeaseEntry)
        → lookup id b.leases ≡ some entry
        → is_outstanding entry.state ≡ true
        → r ≡ now
        → P (record b { leases = remove id b.leases }, ok (ticket id entry)))
    → ((entry : LeaseEntry) (sync value : ℕ)
        → lookup id b.leases ≡ some entry
        → is_outstanding entry.state ≡ true
        → r ≡ timeline_value sync value
        → is_some (lookup sync b.release_syncs) ≡ true
        → P (
          record b {
            leases =
                insert id
                  (record entry { state = release_pending sync value })
                  (remove id b.leases);
          },
          ok (ticket id entry),
        ))
    → P (release b id r)
unfolding release
release_cases P b id r unknown refused ended pending = elim (Option-cases (lookup id b.leases)) [
  | inl e ↦ rw (e, release) (unknown e)
  | inr (entry, e) ↦
      rw (e, release)
        (elim (Bool-cases (is_outstanding entry.state)) [
          | inr f ↦ rw f (refused entry (already_released id) e)
          | inl f ↦ rw f (entered entry e f r refl)
        ])
]
  where
    entered :
        (entry : LeaseEntry)
        → lookup id b.leases ≡ some entry
        → is_outstanding entry.state ≡ true
        → (q : LeaseRelease) → r ≡ q
        → P (release_entry (record b { leases = remove id b.leases }) id entry q)
    entered entry e f now h = ended entry e f h
    entered entry e f (timeline_value sync value) h =
        elim (Bool-cases (is_some (lookup sync b.release_syncs))) [
          | inl g ↦ rw g (pending entry sync value e f h g)
          | inr g ↦ rw g (refused entry (unknown_release_sync sync) e)
        ]

module _ (b : LeaseBook) (v : IsValid b) where
  acquire-IsValid : (identity : LeaseIdentity) → IsValid (acquire b identity).0
  unfolding acquire
  acquire-IsValid identity = ground (arith, v, taken)
    where
      n : ℕ
      n = b.next_lease_id

      taken :
          b.next_lease_id ≢ u64_max
          → IsValid (record b {
            next_lease_id = add64 b.next_lease_id 1;
            leases =
                insert b.next_lease_id
                  (record { identity = identity; state = outstanding })
                  b.leases;
          })
      taken l = record {
        leases_below =
            subst
              (λ k.
                Within 1 k
                  (insert n (record { identity = identity; state = outstanding }) b.leases))
              next
              (Within-insert 1 (n + 1) n _ b.leases v.lease_ids.0 (omega arith)
                (Within-widen 1 n 1 (n + 1) b.leases (omega arith) (omega arith) v.leases_below));
        syncs_below = v.syncs_below;
        lease_ids = omega (arith, v.lease_ids);
        sync_ids = v.sync_ids;
      }
        where
          next : n + 1 ≡ add64 n 1
          next = omega (arith, v.lease_ids)

  register_release_sync-IsValid : IsValid (register_release_sync b).0
  unfolding register_release_sync
  register_release_sync-IsValid = ground (arith, v, taken)
    where
      n : ℕ
      n = b.next_release_sync_id

      taken :
          b.next_release_sync_id ≢ u64_max
          → IsValid (record b {
            next_release_sync_id = add64 b.next_release_sync_id 1;
            release_syncs = insert b.next_release_sync_id tt b.release_syncs;
          })
      taken l = record {
        leases_below = v.leases_below;
        syncs_below =
            subst (λ k. Within 0 k (insert n tt b.release_syncs)) next
              (Within-insert 0 (n + 1) n tt b.release_syncs (omega arith) (omega arith) (
                Within-widen 0 n 0 (n + 1) b.release_syncs (omega arith) (omega arith)
                  v.syncs_below));
        lease_ids = v.lease_ids;
        sync_ids = omega (arith, v.sync_ids);
      }
        where
          next : n + 1 ≡ add64 n 1
          next = omega (arith, v.sync_ids)

  register_release_sync_id-IsValid :
      (id : ℕ) → id < u64_mod → IsValid (register_release_sync_id b id).0
  unfolding register_release_sync_id
  register_release_sync_id-IsValid id l = ground (arith, v, taken)
    where
      taken :
          id ≢ u64_max
          → IsValid (record b {
            next_release_sync_id = max b.next_release_sync_id (add64 id 1);
            release_syncs = insert id tt b.release_syncs;
          })
      taken k = record {
        leases_below = v.leases_below;
        syncs_below =
            Within-insert 0 (max b.next_release_sync_id (add64 id 1)) id tt b.release_syncs
              (omega arith) (omega arith)
              (Within-widen 0 b.next_release_sync_id 0 (max b.next_release_sync_id (add64 id 1))
                b.release_syncs (omega arith) (omega arith) v.syncs_below);
        lease_ids = v.lease_ids;
        sync_ids = omega (arith, v.sync_ids);
      }

  -- Other entries under keys that the book holds.
  rewritten-IsValid :
      (m : Dict LeaseEntry) → Within 1 b.next_lease_id m → IsValid (record b { leases = m })
  rewritten-IsValid m w = record {
    leases_below = w;
    syncs_below = v.syncs_below;
    lease_ids = v.lease_ids;
    sync_ids = v.sync_ids;
  }

  release-IsValid : (id : ℕ) (r : LeaseRelease) → IsValid (release b id r).0
  release-IsValid id r =
      release_cases (λ o. IsValid o.0) b id r (λ e. v) (λ entry e h. put _ entry h)
        (λ entry h o q.
          rewritten-IsValid (remove id b.leases)
            (Within-remove 1 b.next_lease_id id b.leases v.leases_below))
        (λ entry sync value h o q g. put _ entry h)
    where
      put :
          (x entry : LeaseEntry)
          → lookup id b.leases ≡ some entry
          → IsValid (record b { leases = insert id x (remove id b.leases) })
      put x entry h =
          let (l, k) = Within-lookup 1 b.next_lease_id id entry b.leases v.leases_below h in
          rewritten-IsValid (insert id x (remove id b.leases)) (
            Within-insert 1 b.next_lease_id id x (remove id b.leases) l k
              (Within-remove 1 b.next_lease_id id b.leases v.leases_below))

  complete_release_sync-IsValid :
      (sync reached : ℕ) → IsValid (complete_release_sync b sync reached).0
  unfolding complete_release_sync
  complete_release_sync-IsValid sync reached = ground (arith, v, kept)
    where
      kept : IsValid (record b {
        leases = retain (λ id entry. not (is_complete sync reached entry.state)) b.leases;
      })
      kept =
          rewritten-IsValid
            (retain (λ id entry. not (is_complete sync reached entry.state)) b.leases)
            (Within-retain (λ id entry. not (is_complete sync reached entry.state)) 1
              b.next_lease_id b.leases v.leases_below)

pub step-IsValid : (b : LeaseBook) (c : Call) → FitsCall c → IsValid b → IsValid (step b c)
unfolding step
step-IsValid b (acquires identity) f v = acquire-IsValid b v identity
step-IsValid b registers f v = register_release_sync-IsValid b v
step-IsValid b (registers_id id) f v = register_release_sync_id-IsValid b v id f
step-IsValid b (releases id r) f v = release-IsValid b v id r
step-IsValid b (completes sync reached) f v = complete_release_sync-IsValid b v sync reached

pub run-IsValid : (b : LeaseBook) (cs : List Call) → Fits cs → IsValid b → IsValid (run b cs)
unfolding run
run-IsValid b [] f v = v
run-IsValid b (c ∷ cs) f v = run-IsValid (step b c) cs f.1 (step-IsValid b c f.0 v)

new-IsValid : IsValid new
new-IsValid = record {
  leases_below = tt;
  syncs_below = tt;
  lease_ids = omega arith;
  sync_ids = omega arith;
}

-- Whatever is called on a new book with identities of 64 bits, its leases lie below the next lease
-- identity and its timelines below the next timeline identity, and neither identity has wrapped.
pub run-book-IsValid : (cs : List Call) → Fits cs → IsValid (run new cs)
run-book-IsValid cs f = run-IsValid new cs f new-IsValid
