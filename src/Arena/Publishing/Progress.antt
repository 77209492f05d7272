-- ===== src/Arena/Publishing/Progress.antt =====
-- The producer is never starved by its consumers.
use jackstay.Base.{
  ℕ, ◌+◌, ◌≤◌, ◌<◌, ◌≡◌, ◌≢◌, refl, ap, ◌∙◌, subst, sym, ◌⊎◌, inl, inr, Bool-cases, Option, [], ◌∷◌,
  true, false, some, List, length, arith, ltb, ◌==◌,
}
use jackstay.Base.Range.{count_below}
use jackstay.Base.Dict.{Dict, total}
use jackstay.Base.Result.{Result, Outcome, ok, err}
use jackstay.Arena.{
  ArenaError, published, ArenaProducer, Environment, FrameDescriptor, ResourceMap, PublishOutcome,
  max_generation,
}
use jackstay.Arena.Collecting.{poll_cleanup}
use jackstay.Arena.Matching.{Matches-total, Accounts}
use jackstay.Arena.Selecting.{select}
use jackstay.Arena.Selecting.Progress.{frames_of, select-finds}
use Prim.Native.Nat.{bit_and}
use Prim.Native.String.{String}
use jackstay.Arena.Claims.{signal, data_event}
use jackstay.Arena.Selecting.Rounds.{select-Same, select-offered}
use jackstay.Arena.Publishing.Showing.{Shows, deliver-Shows, shown_map}
use jackstay.Arena.{
  ClaimMap, Incarnation, WakeOutcome, signalled, disconnected, failed, notification,
}
use jackstay.Arena.Publishing.{
  signal_all, copied, deliver, publish_found, publish_into, publish_polled, publish_prepared,
  publish,
}
use jackstay.Arena.Publishing.Invariant.{
  IsSound, IsInstalled, Installed, poll_cleanup-IsSound, poll_cleanup-Accounts,
  publish_polled_cases,
}

-- The frame of the caller went out under cursor `x`: it is announced and advertised, and the resource
-- is live and has its descriptor and bytes. The call says so, unless a consumer could not be woken.
pub record Advances (env : Environment) (x : ℕ) (d : FrameDescriptor) (bytes : List ℕ)
    (o : Outcome ArenaProducer ArenaError PublishOutcome) : Type 0 where
  pub map : ResourceMap
  pub index : ℕ
  pub shows : Shows env o.0 x d bytes map index
  pub cursor : o.0.cursor ≡ x
  pub result :
      (o.1 ≡ ok (published x))
      ⊎ ((incarnation : ℕ) × (e : String) × (env.wake incarnation ≡ failed e)
          × (o.1 ≡ err (notification e)))

-- A signal fails only if the wake does.
abbrev WakeFails : Environment → Result ArenaError (Unit {0}) → Type 0
WakeFails env r =
    (r ≡ ok tt)
    ⊎ ((incarnation : ℕ) × (e : String) × (env.wake incarnation ≡ failed e)
        × (r ≡ err (notification e)))

WakeOutcome-cases :
    (w : WakeOutcome) → (w ≡ signalled) ⊎ ((w ≡ disconnected) ⊎ ((e : String) × (w ≡ failed e)))
WakeOutcome-cases signalled = inl refl
WakeOutcome-cases disconnected = inr (inl refl)
WakeOutcome-cases (failed e) = inr (inr (e, refl))

signal-WakeFails :
    (env : Environment) (c : ClaimMap) (interest : ℕ) → WakeFails env (signal env c interest).1
unfolding signal
signal-WakeFails env c interest = elim (Bool-cases (bit_and c.wait_interest interest == 0)) [
  | inl idle ↦ rw (signal, idle) (inl refl)
  | inr waits ↦ elim (WakeOutcome-cases (env.wake c.incarnation)) [
    | inl k ↦ rw (signal, waits, k) (inl refl)
    | inr (inl k) ↦ rw (signal, waits, k) (inl refl)
    | inr (inr (e, k)) ↦ rw (signal, waits, k) (inr (c.incarnation, e, k, refl))
  ]
]

signal_all-WakeFails :
    (env : Environment) (m : Dict Incarnation) (interest : ℕ)
    → WakeFails env (signal_all env m interest).1
unfolding signal_all
signal_all-WakeFails env [] interest = inl refl
signal_all-WakeFails env ((k, s) ∷ m) interest = elim (signal-WakeFails env s.claims interest) [
  | inl woken ↦ rw (signal_all, woken) (signal_all-WakeFails env m interest)
  | inr (i, e, fails, said) ↦ rw (signal_all, said) (inr (i, e, fails, refl))
]

deliver-cursor :
    (env : Environment) (p : ArenaProducer) (map : ResourceMap) (index : ℕ) (d : FrameDescriptor)
    → (deliver env p map index d).0.cursor ≡ p.cursor + 1
unfolding deliver
deliver-cursor env p map index d = refl

deliver-result :
    (env : Environment) (p : ArenaProducer) (map : ResourceMap) (index : ℕ) (d : FrameDescriptor)
    → ((deliver env p map index d).1 ≡ ok (published (p.cursor + 1)))
      ⊎ ((incarnation : ℕ) × (e : String) × (env.wake incarnation ≡ failed e)
          × ((deliver env p map index d).1 ≡ err (notification e)))
unfolding deliver
deliver-result env p map index d = elim (signal_all-WakeFails env p.incarnations data_event) [
  | inl woken ↦ inl (rw (deliver, woken) refl)
  | inr (i, e, fails, said) ↦ inr (i, e, fails, rw (deliver, said) refl)
]

deliver-Advances :
    (env : Environment) (p : ArenaProducer) (map : ResourceMap) (index : ℕ) (d : FrameDescriptor)
    (bytes : List ℕ)
    → index < map.layout.resources
    → Advances env
        (p.cursor + 1)
        d
        bytes
        (deliver env p (copied map index bytes) index (record d { payload_len = length bytes }))
deliver-Advances env p map index d bytes h = record {
  map = shown_map env map index (p.cursor + 1) d bytes;
  index = index;
  shows = deliver-Shows env p map index d bytes h;
  cursor =
      deliver-cursor env p (copied map index bytes) index (record d { payload_len = length bytes });
  result =
      deliver-result env p (copied map index bytes) index (record d { payload_len = length bytes });
}

-- Admission leaves room for the frame being written.
room :
    (p : ArenaProducer) (map : ResourceMap)
    → Accounts p.incarnations p.admission
    → IsInstalled map p.admission p.cursor p.next_slot
    → count_below map.layout.resources map.reserved < p.admission.limits.producer_reserve
    → map.layout.history
        + total frames_of p.incarnations
        + count_below map.layout.resources map.reserved
      < map.layout.resources
room p map a v h = omega (
  arith,
  a.book.capacity,
  a.book.frames,
  Matches-total p.incarnations p.admission.reservations a.matches,
  v.resources,
  v.history,
)

module _ (env : Environment) where
  chosen-Advances :
      (p : ArenaProducer) (next : ResourceMap) (i : ℕ) (c d : FrameDescriptor) (bytes : List ℕ)
      → d ≡ c
      → i < next.layout.resources
      → Advances env (p.cursor + 1) d bytes (publish_found env p bytes (next, ok (some (i, c))))
  unfolding publish_found
  chosen-Advances p next i c d bytes same h =
      subst
        (λ (e : FrameDescriptor).
          Advances env (p.cursor + 1) d bytes
            (deliver env p (copied next i bytes) i (record e { payload_len = length bytes })))
        same (deliver-Advances env p next i d bytes h)

  publish_into-Advances :
      (p : ArenaProducer) (map : ResourceMap) (bytes : List ℕ) (d : FrameDescriptor)
      → Accounts p.incarnations p.admission
      → IsInstalled map p.admission p.cursor p.next_slot
      → length bytes ≤ map.layout.payload_capacity
      → p.cursor ≢ max_generation
      → count_below map.layout.resources map.reserved < p.admission.limits.producer_reserve
      → Advances env (p.cursor + 1) d bytes (publish_into env p map bytes (λ i g. ok (some d)))
  unfolding publish_into publish_found
  publish_into-Advances p map bytes d a v fits more h =
      let small : ltb map.layout.payload_capacity (length bytes) ≡ false = ground arith in
      let left : (p.cursor == max_generation) ≡ false = ground arith in
      let (next, i, c, found, k, free) =
        select-finds p.incarnations p.cursor p.next_slot (λ i g. ok (some d)) map (λ i g. (d, refl))
          v.numbered v.some_history v.next (room p map a v h) in
      let chosen : Result ArenaError (Option (ℕ × FrameDescriptor)) =
        (select p.incarnations p.cursor p.next_slot (λ j g. ok (some d)) map.layout.resources 0
          map).1 in
      let found_it : chosen ≡ ok (some (i, c)) = ap (λ r. r.1) found in
      let (j, g, given) =
        select-offered p.incarnations p.cursor p.next_slot (λ j g. ok (some d)) map.layout.resources
          0 map i c found_it in
      let same : c ≡ d = cc in
      let shape =
        select-Same p.incarnations p.cursor p.next_slot (λ j g. ok (some d)) map.layout.resources 0
          map in
      let layout : next.layout ≡ map.layout = ap (λ r. r.0.layout) (sym found) ∙ shape.layout in
      rw (small, publish_into, left, found)
        (chosen-Advances p next i c d bytes (sym same) (rw layout k))

  -- What a poll of the incarnations leaves alone.
  polled_same :
      (p : ArenaProducer)
      → ((poll_cleanup env p).0.resources ≡ p.resources)
        × ((poll_cleanup env p).0.cursor ≡ p.cursor)
  unfolding poll_cleanup
  polled_same p = (refl, refl)

  publish_polled-Advances :
      (p : ArenaProducer) (map : ResourceMap) (bytes : List ℕ) (d : FrameDescriptor)
      (polled : Outcome ArenaProducer ArenaError ℕ) {released : ℕ}
      → IsSound polled.0
      → polled.1 ≡ ok released
      → polled.0.resources ≡ some map
      → polled.0.cursor ≡ p.cursor
      → length bytes ≤ map.layout.payload_capacity
      → p.cursor ≢ max_generation
      → count_below map.layout.resources map.reserved < polled.0.admission.limits.producer_reserve
      → Advances env (p.cursor + 1) d bytes (publish_polled env polled bytes (λ i g. ok (some d)))
  publish_polled-Advances p map bytes d (q, err x) v e installed same fits more h = absurd (cc)
  publish_polled-Advances p map bytes d (q, ok r) v e installed same fits more h =
      publish_polled_cases env (Advances env (p.cursor + 1) d bytes) q r bytes (λ i g. ok (some d))
        (λ gone. absurd (cc))
        (λ other there.
          let found : map ≡ other = cc in
          let now : IsInstalled other q.admission q.cursor q.next_slot =
            subst (λ o. Installed o q.pending_layout q.admission q.cursor q.next_slot) there
              v.installed in
          let a =
            publish_into-Advances q other bytes d v.accounts now (rw (← found) fits) (rw same more)
              (rw (← found) h) in
          subst
            (λ (y : ℕ).
              Advances env (y + 1) d bytes (publish_into env q other bytes (λ i g. ok (some d))))
            same a)

  -- A well-formed producer that is open, whose allocation is installed and whose cleanup reports no
  -- error publishes every frame that fits, whatever its consumers hold or leave unread, as long as
  -- writers keep fewer resources in their hands than the producer's reserve and the last cursor has
  -- not been given out: the frame is announced under the next cursor, its ring word names a resource
  -- that is live, and that resource has the caller's descriptor with the fields that the arena fills
  -- in, and the bytes at the place that it names. The call reports that cursor, or the error of a
  -- wake that failed.
  pub publish-Advances :
      (p : ArenaProducer) (map : ResourceMap) (bytes : List ℕ) (d : FrameDescriptor) {released : ℕ}
      → IsSound p
      → p.control.terminal ≡ 0
      → (poll_cleanup env p).1 ≡ ok released
      → p.resources ≡ some map
      → length bytes ≤ map.layout.payload_capacity
      → p.cursor ≢ max_generation
      → count_below map.layout.resources map.reserved < p.admission.limits.producer_reserve
      → Advances env (p.cursor + 1) d bytes (publish env p d bytes)
  unfolding publish publish_prepared
  publish-Advances p map bytes d {released} v unclosed polled installed fits more h =
      let (accounts, kept) = poll_cleanup-Accounts env p v.accounts in
      let still : (p.control.terminal == 0) ≡ true = ground arith in
      let (there, same) = polled_same p in
      rw still (
        publish_polled-Advances p map bytes d (poll_cleanup env p) (poll_cleanup-IsSound env p v)
          polled (there ∙ installed) same fits more (rw kept.limits h))
