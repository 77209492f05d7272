-- ===== src/Arena/Configuring/Offers.antt =====
-- Whatever a consumer holds, the producer finds a mapping word for the allocation it has installed.
use jackstay.Base.{
  ℕ, ◌+◌, ◌<◌, ◌≡◌, ◌≢◌, refl, subst, inl, inr, true, false, Option, none, some, arith, Bool-cases,
  Option-cases, if_cases, ◌==◌,
}
use jackstay.Base.Dict.{lookup}
use jackstay.Base.Range.{find_from-some}
use jackstay.Base.Result.{Result, Result-cases, Outcome, ok, err}
use jackstay.Arena.{
  ArenaError, ArenaProducer, ControlMap, Environment, FrameDescriptor, Incarnation, ResourceMap,
}
use jackstay.Arena.Attaching.{new_claims}
use jackstay.Arena.Acquiring.{acquire_latest, acquire_next, acquire_exact}
use jackstay.Arena.Configuring.{
  ConfigurationGrant, ConsumerState, slot_of, drop_grant, relinquish, offer_slot, offer_installed,
  configuration_offer, drop_claim, install_with_resources, taken, viewed, from_grant,
}
use jackstay.Arena.Configuring.Taking.{
  acquire_latest-Taken, acquire_next-Taken, acquire_exact-Taken,
}
use jackstay.Arena.Configuring.Holders.{
  using, IsConsistent, drop_grant-IsConsistent, relinquish-IsConsistent,
}
use jackstay.Arena.Configuring.Capacity.{
  granted-IsConsistent, drop_claim-IsConsistent, install_with_resources-IsConsistent,
  taken-IsConsistent,
}
use jackstay.Arena.Configuring.Vacancy.{free_word}

-- What a consumer and the producer's offers do to it, each call in an environment of its own.
pub data Act (s : ConsumerState) : ConsumerState → Type 0 where
  offering :
      (env : Environment) (p : ArenaProducer)
      → ((map : ResourceMap) → p.resources ≡ some map → map.generation ≢ 0)
      → Act s (configuration_offer env p s).0
  installing :
      (control : ControlMap) (grant : ConfigurationGrant) (mapped : Result ArenaError ResourceMap)
      → s.offer ≡ some grant
      → Act s (install_with_resources control s grant mapped).0
  refusing : (grant : ConfigurationGrant) → s.offer ≡ some grant → Act s (drop_grant s grant)
  relinquishing : Act s (relinquish s)
  taking_latest :
      (env : Environment) (control : ControlMap)
      (validate : FrameDescriptor → Result ArenaError (Unit {0})) (after : ℕ)
      → Act s (taken s (acquire_latest env (viewed control validate s) after))
  taking_next :
      (env : Environment) (control : ControlMap)
      (validate : FrameDescriptor → Result ArenaError (Unit {0})) (after : ℕ)
      → control.first_cursor ≢ 0
      → Act s (taken s (acquire_next env (viewed control validate s) after))
  taking_exact :
      (env : Environment) (control : ControlMap)
      (validate : FrameDescriptor → Result ArenaError (Unit {0})) (cursor : ℕ)
      → Act s (taken s (acquire_exact env (viewed control validate s) cursor))
  dropping : (env : Environment) (slot : ℕ) → Act s (drop_claim env s slot)

pub data Acts (s : ConsumerState) : ConsumerState → Type 0 where
  from_there : Acts s s
  then_act : {t u : ConsumerState} → Acts s t → Act t u → Acts s u

offer_slot-IsConsistent :
    (env : Environment) (s : ConsumerState) (map : ResourceMap) (arena_scope : ℕ)
    → map.generation ≢ 0
    → s.claims.offered_generation ≡ 0
    → IsConsistent s
    → IsConsistent (offer_slot env s map arena_scope).0
unfolding offer_slot
offer_slot-IsConsistent env s map arena_scope n z v =
    let (slot, e) = free_word s v z in rw (offer_slot, e) (granted-IsConsistent s _ n z v)

offer_installed-IsConsistent :
    (env : Environment) (s : ConsumerState) (map : ResourceMap) (arena_scope : ℕ)
    → map.generation ≢ 0
    → IsConsistent s
    → IsConsistent (offer_installed env s map arena_scope).0
unfolding offer_installed
offer_installed-IsConsistent env s map arena_scope n v =
    elim (Bool-cases (s.claims.offered_generation == 0)) [
      | inr e ↦ rw e v
      | inl e ↦ elim (Result-cases (env.new_storage map.layout.len)) [
        | inr (x, k) ↦ rw (e, offer_installed, k) v
        | inl (u, k) ↦
            rw (e, offer_installed, k)
              (offer_slot-IsConsistent env s map arena_scope n (ground arith) v)
      ]
    ]

configuration_offer_cases :
    (P : Outcome ConsumerState ArenaError (Option ConfigurationGrant) → Type 0) (env : Environment)
    (p : ArenaProducer) (s : ConsumerState)
    → ((e : ArenaError) → P (s, err e))
    → P (s, ok none)
    → ((map : ResourceMap) → p.resources ≡ some map → P (offer_installed env s map p.control.scope))
    → P (configuration_offer env p s)
unfolding configuration_offer
configuration_offer_cases P env p s refused paused installed =
    elim (Option-cases (lookup s.claims.incarnation p.incarnations)) [
      | inl e ↦ rw (configuration_offer, e) (refused _)
      | inr (k, e) ↦
          rw (configuration_offer, e)
            (if_cases P (s.claims.active == 0) _ _ (λ over. refused _)
              (λ still. elim (Option-cases p.resources) [
                | inl r ↦ rw r paused
                | inr (map, r) ↦ rw r (installed map r)
              ]))
    ]

configuration_offer-IsConsistent :
    (env : Environment) (p : ArenaProducer) (s : ConsumerState)
    → ((map : ResourceMap) → p.resources ≡ some map → map.generation ≢ 0)
    → IsConsistent s
    → IsConsistent (configuration_offer env p s).0
configuration_offer-IsConsistent env p s n v =
    configuration_offer_cases (λ o. IsConsistent o.0) env p s (λ e. v) v
      (λ map r. offer_installed-IsConsistent env s map p.control.scope (n map r) v)

Act-IsConsistent : {s u : ConsumerState} → Act s u → IsConsistent s → IsConsistent u
unfolding viewed
Act-IsConsistent {s} (offering env p n) v = configuration_offer-IsConsistent env p s n v
Act-IsConsistent {s} (installing control grant mapped e) v =
    install_with_resources-IsConsistent control s grant mapped e v
Act-IsConsistent {s} (refusing grant e) v = drop_grant-IsConsistent s grant e v
Act-IsConsistent {s} relinquishing v = relinquish-IsConsistent s v
Act-IsConsistent {s} (taking_latest env control validate after) v =
    taken-IsConsistent s _ (acquire_latest-Taken env (viewed control validate s) after) v
Act-IsConsistent {s} (taking_next env control validate after n) v =
    taken-IsConsistent s _ (acquire_next-Taken env (viewed control validate s) after n) v
Act-IsConsistent {s} (taking_exact env control validate cursor) v =
    taken-IsConsistent s _ (acquire_exact-Taken env (viewed control validate s) cursor) v
Act-IsConsistent {s} (dropping env slot) v = drop_claim-IsConsistent env s slot v

Acts-IsConsistent : {s u : ConsumerState} → IsConsistent s → Acts s u → IsConsistent u
Acts-IsConsistent v from_there = v
Acts-IsConsistent v (then_act acts a) = Act-IsConsistent a (Acts-IsConsistent v acts)

-- What a consumer starts from.
abbrev attached : Environment → ℕ → ℕ → ℕ → ResourceMap → ConsumerState
attached env incarnation frames pid map = record {
  claims = record (new_claims env incarnation frames pid map.generation) { offered_generation = 0 };
  resources = some (record { map = map; mapping_slot = 0 });
  leases = λ i. none;
  offer = none;
}

attached-IsConsistent :
    (env : Environment) (incarnation frames pid : ℕ) (map : ResourceMap)
    → IsConsistent (attached env incarnation frames pid map)
unfolding new_claims slot_of
attached-IsConsistent env incarnation frames pid map = record {
  held = λ m k. elim (Bool-cases (m == 0)) [
    | inl first ↦ using (ground arith)
    | inr later ↦ absurd (ground arith)
  ];
  idle = λ i h z. refl;
  quiet = λ z. refl;
}

from_grant-IsConsistent :
    (env : Environment) (incarnation frames pid : ℕ) (map : ResourceMap) {s : ConsumerState}
    → (from_grant (new_claims env incarnation frames pid map.generation) (ok map)).1 ≡ ok s
    → IsConsistent s
unfolding from_grant
from_grant-IsConsistent env incarnation frames pid map {s} e =
    let same : attached env incarnation frames pid map ≡ s = cc in
    subst IsConsistent same (attached-IsConsistent env incarnation frames pid map)

-- The consumer is offered the allocation: a free mapping word takes the generation.
pub record IsOffered (map : ResourceMap) (s : ConsumerState)
    (o : Outcome ConsumerState ArenaError (Option ConfigurationGrant)) : Type 0 where
  pub grant : ConfigurationGrant
  pub result : o.1 ≡ ok (some grant)
  pub generation : grant.generation ≡ map.generation
  pub within : grant.mapping_slot < s.claims.frames + 2
  pub free : s.claims.mapping_slot grant.mapping_slot ≡ 0
  pub marked : o.0.claims.mapping_slot grant.mapping_slot ≡ map.generation

offer_slot-IsOffered :
    (env : Environment) (s : ConsumerState) (map : ResourceMap) (arena_scope : ℕ)
    → IsConsistent s
    → s.claims.offered_generation ≡ 0
    → IsOffered map s (offer_slot env s map arena_scope)
unfolding offer_slot
offer_slot-IsOffered env s map arena_scope v z =
    let (slot, e) = free_word s v z in
    let (a, b, c) =
      find_from-some (s.claims.frames + 2) 0 slot (λ i. s.claims.mapping_slot i == 0) e in
    rw (offer_slot, e)
      (record {
        grant = record {
          layout = map.layout;
          generation = map.generation;
          arena_scope = arena_scope;
          claims_scope = s.claims.scope;
          mapping_slot = slot;
        };
        result = refl;
        generation = refl;
        within = omega arith;
        free = ground arith;
        marked = ground arith;
      })

-- Whatever a consumer made from its grant has acquired, dropped, installed, refused and relinquished,
-- in whatever environments, the mapping words of its claim map do not run out: while it is active and
-- no generation is offered to it, a producer that has an allocation installed offers it that
-- allocation, in a mapping word that was free, if its descriptors can be duplicated. Allocations
-- that are offered have nonzero generations, and a consumer takes the next frame only under a
-- control map whose first cursor is not zero.
pub configuration_offer-Acts :
    (env : Environment) (incarnation frames pid : ℕ) (map : ResourceMap) {s u : ConsumerState}
    (p : ArenaProducer) {k : Incarnation} {next : ResourceMap}
    → (from_grant (new_claims env incarnation frames pid map.generation) (ok map)).1 ≡ ok s
    → Acts s u
    → lookup u.claims.incarnation p.incarnations ≡ some k
    → u.claims.active ≢ 0
    → p.resources ≡ some next
    → u.claims.offered_generation ≡ 0
    → env.new_storage next.layout.len ≡ ok tt
    → IsOffered next u (configuration_offer env p u)
unfolding configuration_offer offer_installed
configuration_offer-Acts env incarnation frames pid map {s} {u} p {k} {next} made acts known active
      installed quiet stored =
    let v = Acts-IsConsistent (from_grant-IsConsistent env incarnation frames pid map made) acts in
    let still : (u.claims.active == 0) ≡ false = ground arith in
    let none_offered : (u.claims.offered_generation == 0) ≡ true = ground arith in
    rw (known, configuration_offer, still, installed, offer_installed, none_offered, stored)
      (offer_slot-IsOffered env u next p.control.scope v quiet)
