-- ===== src/Arena/Publishing/Reserving.antt =====
-- The reservations of writers keep the producer well-formed.
use jackstay.Base.{
  ℕ, ◌<◌, ◌≡◌, subst, inl, inr, Bool, true, false, Option, none, some, Bool-cases, Option-cases,
  ltb, leb, List, length, ◌==◌, ◌&&◌, not, if_cases, if◌then◌else◌,
}
use jackstay.Base.Result.{Outcome, Result, ok, err}
use jackstay.Arena.{
  ArenaError, ArenaProducer, Environment, FrameDescriptor, PublishOutcome, ResourceMap,
  max_generation, generations_exhausted,
}
use jackstay.Admission.{AdmissionBook}
use jackstay.Arena.Collecting.{poll_cleanup, stop}
use jackstay.Arena.Matching.{Accounts}
use jackstay.Arena.Selecting.Rounds.{select-Same, Same}
use jackstay.Arena.Publishing.{
  CpuReservation, unreserve, bytes_mut, copied, reserve_found, reserve_into, reserve_polled,
  reserve, commit_into, is_foreign, committed, commit, abandon,
}
use jackstay.Arena.Publishing.Invariant.{
  IsSound, IsInstalled, Installed, poll_cleanup-IsSound, stop-IsSound, deliver-IsSound,
  Same-IsInstalled,
}

-- Marks and payload are no part of the shape.
marked-IsInstalled :
    {map : ResourceMap} {b : AdmissionBook} {cursor next_slot : ℕ} (marks : ℕ → Bool)
    (storage : ℕ → ℕ)
    → IsInstalled map b cursor next_slot
    → IsInstalled (record map { reserved = marks; storage = storage }) b cursor next_slot
marked-IsInstalled marks storage v = record {
  numbered = record { bounded = v.numbered.bounded; distinct = v.numbered.distinct };
  resources = v.resources;
  history = v.history;
  some_history = v.some_history;
  next = v.next;
  settled = v.settled;
}

unreserve-IsSound :
    (scope : ℕ) (p : ArenaProducer) (r : CpuReservation)
    → IsSound p
    → IsSound (record p { resources = unreserve scope p.resources r })
unfolding unreserve
unreserve-IsSound scope p r v = record {
  accounts = v.accounts;
  installed = kept p.resources v.installed;
}
  where
    kept :
        (o : Option ResourceMap)
        → Installed o p.pending_layout p.admission p.cursor p.next_slot
        → Installed (unreserve scope o r) p.pending_layout p.admission p.cursor p.next_slot
    kept none h = h
    kept (some map) h = elim (Bool-cases (r.scope == scope && map.generation == r.generation)) [
      | inl e ↦
          rw e
            (marked-IsInstalled (λ i. if i == r.index then false else map.reserved i) map.storage h)
      | inr e ↦ rw e h
    ]

pub bytes_mut-IsSound :
    (p : ArenaProducer) (r : CpuReservation) (bytes : List ℕ)
    → IsSound p
    → IsSound (record p { resources = bytes_mut p.control.scope p.resources r bytes })
unfolding bytes_mut copied
bytes_mut-IsSound p r bytes v = record {
  accounts = v.accounts;
  installed = kept p.resources v.installed;
}
  where
    kept :
        (o : Option ResourceMap)
        → Installed o p.pending_layout p.admission p.cursor p.next_slot
        → Installed
            (bytes_mut p.control.scope o r bytes)
            p.pending_layout
            p.admission
            p.cursor
            p.next_slot
    kept none h = h
    kept (some map) h =
        if_cases (λ m. IsInstalled m p.admission p.cursor p.next_slot)
          ((r.scope == p.control.scope && map.generation == r.generation)
            && leb (length bytes) map.layout.payload_capacity)
          _ _ (λ own. marked-IsInstalled map.reserved _ h) (λ other. h)

-- The reservation names a resource of the installed allocation.
abbrev pub Owns : Option ResourceMap → CpuReservation → Type 0
Owns none r = Unit {0}
Owns (some map) r = r.index < map.layout.resources

module _ (env : Environment) where
  reserve_found-IsSound :
      (p : ArenaProducer) (map : ResourceMap)
      (found : ResourceMap × Result ArenaError (Option (ℕ × Unit {0})))
      → Accounts p.incarnations p.admission
      → IsInstalled map p.admission p.cursor p.next_slot
      → Same found.0 map
      → IsSound (reserve_found env p found).0
  unfolding reserve_found
  reserve_found-IsSound p map (next, err e) a v s = record {
    accounts = a;
    installed = Same-IsInstalled s v;
  }
  reserve_found-IsSound p map (next, ok none) a v s = record {
    accounts = a;
    installed = Same-IsInstalled s v;
  }
  reserve_found-IsSound p map (next, ok (some (index, u))) a v s = record {
    accounts = a;
    installed =
        marked-IsInstalled (λ i. if i == index then true else next.reserved i) next.storage
          (Same-IsInstalled s v);
  }

  reserve_into-IsSound :
      (p : ArenaProducer) (map : ResourceMap)
      → IsSound p
      → p.resources ≡ some map
      → IsSound (reserve_into env p map).0
  unfolding reserve_into
  reserve_into-IsSound p map v e = elim (Bool-cases (map.layout.payload_capacity == 0)) [
    | inl z ↦ rw z v
    | inr z ↦
        let installed : IsInstalled map p.admission p.cursor p.next_slot =
          subst (λ o. Installed o p.pending_layout p.admission p.cursor p.next_slot) e
            v.installed in
        rw z (
          reserve_found-IsSound p map _ v.accounts installed (
            select-Same p.incarnations p.cursor p.next_slot (λ i g. ok (some tt))
              map.layout.resources 0 map))
  ]

  reserve_polled_cases :
      (P : Outcome ArenaProducer ArenaError (Option CpuReservation) → Type 0) (p : ArenaProducer)
      (released : ℕ)
      → P (stop p, err generations_exhausted)
      → P (p, ok none)
      → ((map : ResourceMap) → p.resources ≡ some map → P (reserve_into env p map))
      → P (reserve_polled env (p, ok released))
  unfolding reserve_polled
  reserve_polled_cases P p released last paused installed =
      elim (Bool-cases (p.cursor == max_generation)) [
        | inl z ↦ rw z last
        | inr z ↦ elim (Option-cases p.resources) [
          | inl e ↦ rw (z, e, reserve_polled) paused
          | inr (map, e) ↦ rw (z, e, reserve_polled) (installed map e)
        ]
      ]

  reserve_polled-IsSound :
      (polled : Outcome ArenaProducer ArenaError ℕ)
      → IsSound polled.0
      → IsSound (reserve_polled env polled).0
  unfolding reserve_polled
  reserve_polled-IsSound (p, err e) v = v
  reserve_polled-IsSound (p, ok released) v =
      reserve_polled_cases (λ o. IsSound o.0) p released (stop-IsSound p v) v
        (λ map e. reserve_into-IsSound p map v e)

  reserve_cases :
      (P : Outcome ArenaProducer ArenaError (Option CpuReservation) → Type 0) (p : ArenaProducer)
      → ((e : ArenaError) → P (p, err e))
      → P (reserve_polled env (poll_cleanup env p))
      → P (reserve env p)
  unfolding reserve
  reserve_cases P p refused polled =
      if_cases P p.native_resources _ _ (λ native. refused _)
        (λ cpu.
          if_cases P (not (p.control.terminal == 0)) _ _ (λ over. refused _) (λ still. polled))

  pub reserve-IsSound : (p : ArenaProducer) → IsSound p → IsSound (reserve env p).0
  reserve-IsSound p v =
      reserve_cases (λ o. IsSound o.0) p (λ e. v)
        (reserve_polled-IsSound (poll_cleanup env p) (poll_cleanup-IsSound env p v))

  pub abandon-IsSound :
      (p : ArenaProducer) (r : CpuReservation) → IsSound p → IsSound (abandon env p r).0
  unfolding abandon
  abandon-IsSound p r v = unreserve-IsSound p.control.scope p r v

  commit_into-IsSound :
      (p : ArenaProducer) (map : ResourceMap) (r : CpuReservation) (d : FrameDescriptor)
      → IsSound p
      → p.resources ≡ some map
      → r.index < map.layout.resources
      → IsSound (commit_into env p map r d).0
  unfolding commit_into
  commit_into-IsSound p map r d v e h =
      elim (Bool-cases (ltb map.layout.payload_capacity d.payload_len)) [
        | inl large ↦ rw large v
        | inr fits ↦ elim (Bool-cases (p.cursor == max_generation)) [
          | inl last ↦ rw (fits, commit_into, last) (stop-IsSound p v)
          | inr more ↦
              rw (fits, commit_into, more)
                (deliver-IsSound env p map r.index d v.accounts
                  (subst (λ o. Installed o p.pending_layout p.admission p.cursor p.next_slot) e
                    v.installed)
                  h)
        ]
      ]

  committed_cases :
      (P : Outcome ArenaProducer ArenaError PublishOutcome → Type 0) (p : ArenaProducer)
      (r : CpuReservation) (d : FrameDescriptor)
      → ((e : ArenaError) → P (p, err e))
      → ((map : ResourceMap) → p.resources ≡ some map → P (commit_into env p map r d))
      → P (committed env p r d)
  unfolding committed
  committed_cases P p r d refused installed =
      if_cases P (not (p.control.terminal == 0)) _ _ (λ over. refused _)
        (λ still.
          if_cases P (is_foreign env p r) _ _ (λ foreign. refused _)
            (λ own. elim (Option-cases p.resources) [
              | inl e ↦ rw e (refused _)
              | inr (map, e) ↦ rw e (installed map e)
            ]))

  pub commit-IsSound :
      (p : ArenaProducer) (r : CpuReservation) (d : FrameDescriptor)
      → IsSound p
      → Owns p.resources r
      → IsSound (commit env p r d).0
  unfolding commit
  commit-IsSound p r d v owned = unreserve-IsSound p.control.scope (committed env p r d).0 r (
      committed_cases (λ o. IsSound o.0) p r d (λ e. v)
        (λ map e. commit_into-IsSound p map r d v e (subst (λ o. Owns o r) e owned)))
