-- ===== src/Arena/Publishing/Invariant.antt =====
-- A well-formed producer: its book accounts for the admitted incarnations, and the installed
-- allocation has the configured shape and numbered resources.
use jackstay.Base.{
  ℕ, ◌+◌, ◌%◌, ◌<◌, ◌≡◌, refl, sym, subst, ◌∙◌, inl, inr, true, Option, none, some, List, [], ◌∷◌,
  length, arith, Bool-cases, Option-cases, is_some, ◌==◌, if◌then◌else◌, ltb,
}
use jackstay.Base.Result.{Outcome, Result, ok, err, Result-cases}
use jackstay.Base.Dict.{Dict}
use jackstay.Admission.{AdmissionBook, IncarnationRecord}
use jackstay.Arena.{
  ArenaError, ArenaProducer, Environment, FrameDescriptor, Incarnation, ResourceLayout, ResourceMap,
  PublishOutcome, dropped, max_generation,
}
use jackstay.Arena.Claims.{signal, data_event}
use jackstay.Arena.Cleanup.Frames.{signal-frames}
use jackstay.Arena.Collecting.{poll_all, poll_cleanup, stop}
use jackstay.Arena.Matching.{
  Accounts, Matches, Keeps, Keeps-trans, poll_all-Matches, close_all-Matches,
  collect_quiescent-Accounts, collect_retired-Accounts,
}
use native.Mathlib.Nat.{mod-lt}
use jackstay.Arena.Selecting.Rounds.{generation, Same, select-Same, select-chosen-IsFree}
use jackstay.Arena.Selecting.Progress.{IsNumbered}
use jackstay.Arena.Publishing.{
  signal_all, copied, written, deliver, publish_found, publish_into, publish_polled,
  publish_prepared,
}

pub record IsInstalled (map : ResourceMap) (b : AdmissionBook) (cursor next_slot : ℕ) : Type 0 where
  pub numbered : IsNumbered map cursor
  pub resources : map.layout.resources ≡ b.limits.resource_capacity
  pub history : map.layout.history ≡ b.limits.retained_history
  pub some_history : 0 < map.layout.history
  pub next : next_slot < map.layout.resources
  pub settled : b.pending_allocation ≡ none

-- The layout of a successor has the configured shape.
pub record IsProposed (layout : ResourceLayout) (b : AdmissionBook) : Type 0 where
  pub resources : layout.resources ≡ b.limits.resource_capacity
  pub history : layout.history ≡ b.limits.retained_history
  pub some_history : 0 < layout.history
  pub some_resources : 0 < layout.resources

abbrev pub Proposed : Option ResourceLayout → AdmissionBook → Type 0
Proposed none b = ⊥
Proposed (some layout) b = IsProposed layout b

-- Between two allocations a replacement is pending, and its layout is known.
abbrev pub Installed : Option ResourceMap → Option ResourceLayout → AdmissionBook → ℕ → ℕ → Type 0
Installed none proposal b cursor next_slot =
    (is_some b.pending_allocation ≡ true) × Proposed proposal b
Installed (some map) proposal b cursor next_slot = IsInstalled map b cursor next_slot

pub record IsSound (p : ArenaProducer) : Type 0 where
  pub accounts : Accounts p.incarnations p.admission
  pub installed : Installed p.resources p.pending_layout p.admission p.cursor p.next_slot

pub Installed-Keeps :
    (o : Option ResourceMap) (proposal : Option ResourceLayout) (b c : AdmissionBook)
    (cursor next_slot : ℕ)
    → Keeps b c
    → Installed o proposal b cursor next_slot
    → Installed o proposal c cursor next_slot
Installed-Keeps none none b c cursor next_slot k h = absurd (h.1)
Installed-Keeps none (some layout) b c cursor next_slot k h = (
  rw k.pending h.0,
  record {
    resources = rw k.limits h.1.resources;
    history = rw k.limits h.1.history;
    some_history = h.1.some_history;
    some_resources = h.1.some_resources;
  },
)
Installed-Keeps (some map) proposal b c cursor next_slot k h = record {
  numbered = h.numbered;
  resources = rw k.limits h.resources;
  history = rw k.limits h.history;
  some_history = h.some_history;
  next = h.next;
  settled = k.pending ∙ h.settled;
}

-- A poll keeps the accounts, and the book's limits and replacement.
pub poll_cleanup-Accounts :
    (env : Environment) (p : ArenaProducer)
    → Accounts p.incarnations p.admission
    → Accounts (poll_cleanup env p).0.incarnations (poll_cleanup env p).0.admission
      × Keeps p.admission (poll_cleanup env p).0.admission
unfolding poll_cleanup
poll_cleanup-Accounts env p a =
    let polled : Accounts (poll_all env p.incarnations).0 p.admission = record {
      book = a.book;
      matches = poll_all-Matches env p.incarnations p.admission.reservations a.matches;
    } in
    let (quiet, kept) =
      collect_quiescent-Accounts [] (poll_all env p.incarnations).0 p.admission polled in
    let (done, kept') = collect_retired-Accounts env _ (length p.retired) 0 p.retired _ quiet in
    (done, Keeps-trans kept kept')

pub poll_cleanup-IsSound :
    (env : Environment) (p : ArenaProducer) → IsSound p → IsSound (poll_cleanup env p).0
unfolding poll_cleanup
poll_cleanup-IsSound env p v =
    let (done, kept) = poll_cleanup-Accounts env p v.accounts in
    record {
      accounts = done;
      installed =
          Installed-Keeps p.resources p.pending_layout p.admission _ p.cursor p.next_slot kept
            v.installed;
    }

pub stop-IsSound : (p : ArenaProducer) → IsSound p → IsSound (stop p)
unfolding stop
stop-IsSound p v = record {
  accounts = record {
    book = v.accounts.book;
    matches = close_all-Matches p.incarnations p.admission.reservations v.accounts.matches;
  };
  installed = v.installed;
}

pub signal_all-Matches :
    (env : Environment) (m : Dict Incarnation) (n : Dict IncarnationRecord) (interest : ℕ)
    → Matches m n
    → Matches (signal_all env m interest).0 n
unfolding signal_all
signal_all-Matches env [] [] interest h = tt
signal_all-Matches env [] (x ∷ n) interest h = absurd h
signal_all-Matches env (x ∷ m) [] interest h = absurd h
signal_all-Matches env ((k, s) ∷ m) ((j, r) ∷ n) interest h =
    elim (Result-cases (signal env s.claims interest).1) [
      | inl (u, e) ↦
          rw (e, signal_all)
            (
              h.0,
              signal-frames env s.claims interest ∙ h.1,
              signal_all-Matches env m n interest h.2,
            )
      | inr (x, e) ↦ rw (e, signal_all) (h.0, signal-frames env s.claims interest ∙ h.1, h.2)
    ]

pub Same-IsInstalled :
    {m n : ResourceMap} {b : AdmissionBook} {cursor next_slot : ℕ}
    → Same m n
    → IsInstalled n b cursor next_slot
    → IsInstalled m b cursor next_slot
Same-IsInstalled s v = record {
  numbered = record {
    bounded = λ i h. rw (s.generations i) (v.numbered.bounded i (rw (← s.layout) h));
    distinct = λ i j h k e z.
        v.numbered.distinct i j (rw (← s.layout) h) (rw (← s.layout) k)
          (sym (s.generations i) ∙ e ∙ s.generations j) (rw (← s.generations i) z);
  };
  resources = rw s.layout v.resources;
  history = rw s.layout v.history;
  some_history = rw s.layout v.some_history;
  next = rw s.layout v.next;
  settled = v.settled;
}

written-generation :
    (map : ResourceMap) (index cursor i : ℕ) (d : FrameDescriptor)
    → generation (written map index cursor d) i ≡ (if i == index then cursor else generation map i)
unfolding written
written-generation map index cursor i d = ground arith

written-IsInstalled :
    (map : ResourceMap) (b : AdmissionBook) (cursor next_slot index : ℕ) (d : FrameDescriptor)
    → IsInstalled map b cursor next_slot
    → index < map.layout.resources
    → IsInstalled
        (written map index (cursor + 1) d)
        b
        (cursor + 1)
        ((index + 1) % map.layout.resources)
unfolding written
written-IsInstalled map b cursor next_slot index d v h = record {
  numbered = record {
    bounded = λ i k.
        ground (arith, written-generation map index (cursor + 1) i d, v.numbered.bounded i k);
    distinct = λ i j k l e z. ground (
      arith,
      written-generation map index (cursor + 1) i d,
      written-generation map index (cursor + 1) j d,
      v.numbered.bounded i k,
      v.numbered.bounded j l,
      v.numbered.distinct i j k l,
    );
  };
  resources = v.resources;
  history = v.history;
  some_history = v.some_history;
  next = mod-lt (index + 1) (omega arith);
  settled = v.settled;
}

pub deliver-IsSound :
    (env : Environment) (p : ArenaProducer) (map : ResourceMap) (index : ℕ) (d : FrameDescriptor)
    → Accounts p.incarnations p.admission
    → IsInstalled map p.admission p.cursor p.next_slot
    → index < map.layout.resources
    → IsSound (deliver env p map index d).0
unfolding deliver
deliver-IsSound env p map index d a v h = record {
  accounts = record {
    book = a.book;
    matches = signal_all-Matches env p.incarnations p.admission.reservations data_event a.matches;
  };
  installed = written-IsInstalled map p.admission p.cursor p.next_slot index _ v h;
}

-- After a search that took no frame yet.
searched-IsSound :
    (p : ArenaProducer) (map : ResourceMap)
    → Accounts p.incarnations p.admission
    → IsInstalled map p.admission p.cursor p.next_slot
    → IsSound (record p { resources = some map })
searched-IsSound p map a v = record { accounts = a; installed = v }

-- The bytes are no part of the shape.
copied-IsInstalled :
    {map : ResourceMap} {b : AdmissionBook} {cursor next_slot : ℕ} (index : ℕ) (bytes : List ℕ)
    → IsInstalled map b cursor next_slot
    → IsInstalled (copied map index bytes) b cursor next_slot
unfolding copied
copied-IsInstalled index bytes v = record {
  numbered = record { bounded = v.numbered.bounded; distinct = v.numbered.distinct };
  resources = v.resources;
  history = v.history;
  some_history = v.some_history;
  next = v.next;
  settled = v.settled;
}

module _ (env : Environment) where
  publish_found-IsSound :
      (p : ArenaProducer) (map : ResourceMap) (bytes : List ℕ)
      (found : ResourceMap × Result ArenaError (Option (ℕ × FrameDescriptor)))
      → Accounts p.incarnations p.admission
      → IsInstalled map p.admission p.cursor p.next_slot
      → Same found.0 map
      → ((i : ℕ) (d : FrameDescriptor) → found.1 ≡ ok (some (i, d)) → i < map.layout.resources)
      → IsSound (publish_found env p bytes found).0
  unfolding publish_found copied
  publish_found-IsSound p map bytes (next, err e) a v s h =
      searched-IsSound p next a (Same-IsInstalled s v)
  publish_found-IsSound p map bytes (next, ok none) a v s h =
      searched-IsSound p next a (Same-IsInstalled s v)
  publish_found-IsSound p map bytes (next, ok (some (index, d))) a v s h =
      deliver-IsSound env p (copied next index bytes) index
        (record d { payload_len = length bytes }) a
        (copied-IsInstalled index bytes (Same-IsInstalled s v)) (rw s.layout (h index d refl))

  publish_into-IsSound :
      (p : ArenaProducer) (map : ResourceMap) (bytes : List ℕ)
      (prepare : ℕ → ℕ → Result ArenaError (Option FrameDescriptor))
      → IsSound p
      → p.resources ≡ some map
      → IsSound (publish_into env p map bytes prepare).0
  unfolding publish_into
  publish_into-IsSound p map bytes prepare v e =
      elim (Bool-cases (ltb map.layout.payload_capacity (length bytes))) [
        | inl large ↦ rw large v
        | inr fits ↦ elim (Bool-cases (p.cursor == max_generation)) [
          | inl last ↦ rw (fits, publish_into, last) (stop-IsSound p v)
          | inr more ↦
              let installed : IsInstalled map p.admission p.cursor p.next_slot =
                subst (λ o. Installed o p.pending_layout p.admission p.cursor p.next_slot) e
                  v.installed in
              rw (fits, publish_into, more)
                (publish_found-IsSound p map bytes _ v.accounts installed
                  (select-Same p.incarnations p.cursor p.next_slot prepare map.layout.resources 0
                    map)
                  (λ i d found.
                    (select-chosen-IsFree p.incarnations p.cursor p.next_slot prepare
                      map.layout.resources 0 map i d (omega (arith, installed.next)) found).0))
        ]
      ]

  pub publish_polled_cases :
      (P : Outcome ArenaProducer ArenaError PublishOutcome → Type 0) (p : ArenaProducer)
      (released : ℕ) (bytes : List ℕ) (prepare : ℕ → ℕ → Result ArenaError (Option FrameDescriptor))
      → (p.resources ≡ none → P (p, ok dropped))
      → ((map : ResourceMap) → p.resources ≡ some map → P (publish_into env p map bytes prepare))
      → P (publish_polled env (p, ok released) bytes prepare)
  unfolding publish_polled
  publish_polled_cases P p released bytes prepare paused installed =
      elim (Option-cases p.resources) [
        | inl e ↦ rw (e, publish_polled) (paused e)
        | inr (map, e) ↦ rw (e, publish_polled) (installed map e)
      ]

  publish_polled-IsSound :
      (polled : Outcome ArenaProducer ArenaError ℕ) (bytes : List ℕ)
      (prepare : ℕ → ℕ → Result ArenaError (Option FrameDescriptor))
      → IsSound polled.0
      → IsSound (publish_polled env polled bytes prepare).0
  unfolding publish_polled
  publish_polled-IsSound (p, err e) bytes prepare v = v
  publish_polled-IsSound (p, ok released) bytes prepare v =
      publish_polled_cases (λ o. IsSound o.0) p released bytes prepare (λ e. v)
        (λ map e. publish_into-IsSound p map bytes prepare v e)

  pub publish_prepared-IsSound :
      (p : ArenaProducer) (bytes : List ℕ)
      (prepare : ℕ → ℕ → Result ArenaError (Option FrameDescriptor))
      → IsSound p
      → IsSound (publish_prepared env p bytes prepare).0
  unfolding publish_prepared
  publish_prepared-IsSound p bytes prepare v = elim (Bool-cases (p.control.terminal == 0)) [
    | inl t ↦
        rw t
          (publish_polled-IsSound (poll_cleanup env p) bytes prepare (poll_cleanup-IsSound env p v))
    | inr t ↦ rw t v
  ]
