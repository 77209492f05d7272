-- ===== src/Arena/Configuring.antt =====
-- The consumer's end of a replacement: `configuration_offer`, `install_with_resources` and
-- `relinquish_configuration` of crates/jackstay/src/acquisition/arena/reconfiguration.rs,
-- `from_grant_with_resources` of arena.rs, and the drops of grants, claims and mappings there. A
-- consumer's storage is shared by the consumer and its leases (`Arc<ConsumerResources>`): the last
-- owner that lets go of it clears its mapping word. A mapping slot names its storage.
pub mod Taking
pub mod Holders
pub mod Capacity
pub mod Vacancy
pub mod Offers
use jackstay.Base.{
  ℕ, ◌+◌, Bool, true, false, not, ◌&&◌, ◌||◌, Option, none, some, ◌==◌, if◌then◌else◌, is_id,
}
use jackstay.Base.Dict.{lookup}
use jackstay.Base.Range.{any_below, find_from}
use jackstay.Base.Result.{Result, ok, err, Outcome}
use jackstay.Protocol.{update}
use jackstay.Admission.{unknown_incarnation}
use jackstay.Arena.{
  ArenaError, admission, closed, configuration, mapping, ArenaProducer, ClaimMap, ControlMap,
  Environment, FrameDescriptor, ResourceLayout, ResourceMap,
}
use jackstay.Arena.Claims.{acknowledge_quiescent, close, return_credit}
use jackstay.Arena.Acquiring.{AcquireOutcome, ArenaConsumer, frame}

pub data ConfigurationInstall : Type 0 where
  installed stale : ConfigurationInstall

pub record ConfigurationGrant : Type 0 where
  pub layout : ResourceLayout
  pub generation : ℕ
  pub arena_scope : ℕ
  pub claims_scope : ℕ
  pub mapping_slot : ℕ

pub record ConsumerResources : Type 0 where
  pub map : ResourceMap
  pub mapping_slot : ℕ

-- One consumer: its claim map, the storage that it has installed, the mapping slot of the storage
-- that the live lease in a claim slot owns, and the grant that has been offered and neither been
-- installed nor dropped.
pub record ConsumerState : Type 0 where
  pub claims : ClaimMap
  pub resources : Option ConsumerResources
  pub leases : ℕ → Option ℕ
  pub offer : Option ConfigurationGrant

unfoldable pub slot_of : Option ConsumerResources → Option ℕ
slot_of none = none
slot_of (some r) = some r.mapping_slot

-- Whether the consumer or one of its leases still owns the storage of a mapping slot.
unfoldable pub owns : ConsumerState → ℕ → Bool
owns s slot =
    any_below s.claims.frames (λ i. is_id (s.leases i) slot) || is_id (slot_of s.resources) slot

unfoldable pub unmapped : ClaimMap → ℕ → ClaimMap
unmapped c slot = record c { mapping_slot = update c.mapping_slot slot 0 }

-- An owner has let go of the storage of a mapping slot.
unfoldable pub let_go_of : ConsumerState → Option ℕ → ConsumerState
let_go_of s none = s
let_go_of s (some slot) = if owns s slot then s else record s { claims = unmapped s.claims slot }

-- `ConfigurationGrant::drop`, unless the grant is consumed.
unfoldable pub drop_grant : ConsumerState → ConfigurationGrant → ConsumerState
drop_grant s grant = record s {
  claims = record (unmapped s.claims grant.mapping_slot) { offered_generation = 0 };
  offer = none;
}

-- `relinquish_configuration`.
unfoldable pub relinquish : ConsumerState → ConsumerState
relinquish s = let_go_of (record s { resources = none }) (slot_of s.resources)

module _ (env : Environment) where
  -- The storage can be handed out: a free mapping slot takes the generation. The last check of the
  -- code, that the incarnation is still active, is the first one again when nothing runs between.
  unfoldable pub offer_slot :
      ConsumerState → ResourceMap → ℕ → Outcome ConsumerState ArenaError (Option ConfigurationGrant)
  offer_slot s map arena_scope =
      elim (find_from (s.claims.frames + 2) 0 (λ i. s.claims.mapping_slot i == 0)) [
        | none ↦ (s, err (configuration "configuration mapping capacity exhausted"))
        | some slot ↦
            let grant : ConfigurationGrant = record {
              layout = map.layout;
              generation = map.generation;
              arena_scope = arena_scope;
              claims_scope = s.claims.scope;
              mapping_slot = slot;
            } in
            (
              record s {
                claims = record s.claims {
                  mapping_slot = update s.claims.mapping_slot slot map.generation;
                  offered_generation = map.generation;
                };
                offer = some grant;
              },
              ok (some grant),
            )
      ]

  -- `new_storage` answers for the descriptors that are duplicated.
  unfoldable pub offer_installed :
      ConsumerState → ResourceMap → ℕ → Outcome ConsumerState ArenaError (Option ConfigurationGrant)
  offer_installed s map arena_scope =
      if not (s.claims.offered_generation == 0)
      then (s, ok none)
      else elim (env.new_storage map.layout.len) [
        | err e ↦ (s, err e)
        | ok u ↦ offer_slot s map arena_scope
      ]

  -- The claim map of the consumer is the one that the producer has under its incarnation.
  unfoldable pub configuration_offer :
      ArenaProducer → ConsumerState → Outcome ConsumerState ArenaError (Option ConfigurationGrant)
  configuration_offer p s = elim (lookup s.claims.incarnation p.incarnations) [
    | none ↦ (s, err (admission unknown_incarnation))
    | some k ↦ if s.claims.active == 0 then (s, err closed) else elim p.resources [
      | none ↦ (s, ok none)
      | some map ↦ offer_installed s map p.control.scope
    ]
  ]

  -- `Claim::drop`: the credit goes back, and then the lease lets go of its storage.
  unfoldable pub drop_claim : ConsumerState → ℕ → ConsumerState
  drop_claim s slot =
      let_go_of
        (record s { claims = return_credit env s.claims slot; leases = update s.leases slot none })
        (s.leases slot)

-- A grant of the wrong arena or incarnation.
unfoldable pub is_other : ControlMap → ConsumerState → ConfigurationGrant → Bool
is_other control s grant =
    not (grant.arena_scope == control.scope) || not (grant.claims_scope == s.claims.scope)

-- The mapping is valid: it takes the place of the installed storage, if it is still current.
unfoldable pub install_mapped :
    ControlMap
    → ConsumerState
    → ConfigurationGrant
    → Result ArenaError ResourceMap
    → Outcome ConsumerState ArenaError ConfigurationInstall
install_mapped control s grant (err e) = (drop_grant s grant, err e)
install_mapped control s grant (ok map) =
    if not (grant.generation == control.current) then (drop_grant s grant, ok stale) else (
      let_go_of
          (record s {
            claims = record s.claims { offered_generation = 0 };
            resources = some (record { map = map; mapping_slot = grant.mapping_slot });
            offer = none;
          })
          (slot_of s.resources),
      ok installed,
    )

-- `install_with_resources`; `mapped` is what mapping the grant's descriptors gives.
unfoldable pub install_with_resources :
    ControlMap
    → ConsumerState
    → ConfigurationGrant
    → Result ArenaError ResourceMap
    → Outcome ConsumerState ArenaError ConfigurationInstall
install_with_resources control s grant mapped =
    if is_other control s grant
    then (
      drop_grant s grant,
      err (mapping "configuration grant belongs to another arena or incarnation"),
    )
    else if s.claims.active == 0 || not (control.terminal == 0)
    then (drop_grant s grant, err closed)
    else install_mapped control s grant mapped

-- The consumer as an acquisition sees it.
unfoldable pub map_of : Option ConsumerResources → Option ResourceMap
map_of none = none
map_of (some r) = some r.map

unfoldable pub viewed :
    ControlMap → (FrameDescriptor → Result ArenaError (Unit {0})) → ConsumerState → ArenaConsumer
viewed control validate s = record {
  control = control;
  claims = s.claims;
  resources = map_of s.resources;
  validate_descriptor = validate;
}

-- What an acquisition leaves: a lease owns the storage that is installed.
unfoldable pub taken : ConsumerState → Outcome ClaimMap ArenaError AcquireOutcome → ConsumerState
taken s (c, ok (frame lease)) = record s {
  claims = c;
  leases = update s.leases lease.slot (slot_of s.resources);
}
taken s (c, r) = record s { claims = c }

-- `from_grant_with_resources`: the first mapping is that of mapping slot 0. A grant that cannot be
-- mapped gives up the incarnation.
unfoldable pub from_grant :
    ClaimMap → Result ArenaError ResourceMap → Outcome ClaimMap ArenaError ConsumerState
from_grant c (err e) =
    (acknowledge_quiescent (close (record (unmapped c 0) { offered_generation = 0 })), err e)
from_grant c (ok map) =
    let claims = record c { offered_generation = 0 } in
    (
      claims,
      ok (record {
        claims = claims;
        resources = some (record { map = map; mapping_slot = 0 });
        leases = λ i. none;
        offer = none;
      }),
    )
