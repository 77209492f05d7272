-- ===== src/Arena/Configuring/Capacity.antt =====
-- Every call of a consumer keeps the owners of its mapping words accounted for.
use jackstay.Base.{
  ℕ, ◌<◌, ◌≡◌, ◌≢◌, refl, sym, subst, ◌∙◌, ap, inl, inr, not, ◌||◌, none, some, arith, Bool-cases,
  if_cases, ◌==◌,
}
use jackstay.Base.Result.{Result, Outcome, ok, err}
use jackstay.Protocol.{update}
use jackstay.Arena.{ArenaError, ClaimMap, ControlMap, Environment, ResourceMap}
use jackstay.Arena.Acquiring.{
  AcquireOutcome, FrameLease, frame, empty, miss, gap, holding_limit, reconfiguration, closed,
}
use jackstay.Arena.Configuring.Taking.{Taken, return_credit-Returned}
use jackstay.Arena.Configuring.{
  ConfigurationGrant, ConfigurationInstall, ConsumerState, slot_of, let_go_of, drop_claim,
  install_mapped, install_with_resources, taken, is_other,
}
use jackstay.Arena.Configuring.Holders.{
  leased, using, granted, IsConsistent, let_go_of-IsConsistent, drop_grant-IsConsistent,
}

-- Storage takes the place of what was installed before.
install-IsConsistent :
    (s : ConsumerState) (grant : ConfigurationGrant) (map : ResourceMap)
    → s.offer ≡ some grant
    → IsConsistent s
    → IsConsistent (
        let_go_of
          (record s {
            claims = record s.claims { offered_generation = 0 };
            resources = some (record { map = map; mapping_slot = grant.mapping_slot });
            offer = none;
          })
          (slot_of s.resources))
unfolding slot_of
install-IsConsistent s grant map e v =
    let_go_of-IsConsistent _ (slot_of s.resources)
      (λ m other k. elim (v.held m k) [
        | leased i h l ↦ leased i h l
        | using u ↦ absurd (other u)
        | granted g f at ↦ using (ground arith)
      ])
      v.idle (λ z. refl)

install_mapped-IsConsistent :
    (control : ControlMap) (s : ConsumerState) (grant : ConfigurationGrant)
    (mapped : Result ArenaError ResourceMap)
    → s.offer ≡ some grant
    → IsConsistent s
    → IsConsistent (install_mapped control s grant mapped).0
unfolding install_mapped
install_mapped-IsConsistent control s grant (err x) e v = drop_grant-IsConsistent s grant e v
install_mapped-IsConsistent control s grant (ok map) e v =
    if_cases (λ (o : Outcome ConsumerState ArenaError ConfigurationInstall). IsConsistent o.0)
      (not (grant.generation == control.current)) _ _ (λ old. drop_grant-IsConsistent s grant e v)
      (λ now. install-IsConsistent s grant map e v)

pub install_with_resources-IsConsistent :
    (control : ControlMap) (s : ConsumerState) (grant : ConfigurationGrant)
    (mapped : Result ArenaError ResourceMap)
    → s.offer ≡ some grant
    → IsConsistent s
    → IsConsistent (install_with_resources control s grant mapped).0
unfolding install_with_resources
install_with_resources-IsConsistent control s grant mapped e v =
    if_cases (λ (o : Outcome ConsumerState ArenaError ConfigurationInstall). IsConsistent o.0)
      (is_other control s grant) _ _ (λ other. drop_grant-IsConsistent s grant e v)
      (λ own.
        if_cases (λ (o : Outcome ConsumerState ArenaError ConfigurationInstall). IsConsistent o.0)
          (s.claims.active == 0 || not (control.terminal == 0)) _ _
          (λ over. drop_grant-IsConsistent s grant e v)
          (λ still. install_mapped-IsConsistent control s grant mapped e v))

-- A free word takes the generation of a grant.
pub granted-IsConsistent :
    (s : ConsumerState) (grant : ConfigurationGrant)
    → grant.generation ≢ 0
    → s.claims.offered_generation ≡ 0
    → IsConsistent s
    → IsConsistent (record s {
      claims = record s.claims {
        mapping_slot = update s.claims.mapping_slot grant.mapping_slot grant.generation;
        offered_generation = grant.generation;
      };
      offer = some grant;
    })
granted-IsConsistent s grant n z v = record {
  held = λ m k. elim (Bool-cases (m == grant.mapping_slot)) [
    | inl same ↦ granted grant refl (ground arith)
    | inr other ↦ elim (v.held m (ground arith)) [
      | leased i h l ↦ leased i h l
      | using u ↦ using u
      | granted g f at ↦ let gone = v.quiet z in absurd (cc)
    ]
  ];
  idle = v.idle;
  quiet = λ none_offered. absurd (n none_offered);
}

module _ (env : Environment) where
  pub drop_claim-IsConsistent :
      (s : ConsumerState) (slot : ℕ) → IsConsistent s → IsConsistent (drop_claim env s slot)
  unfolding drop_claim
  drop_claim-IsConsistent s slot v =
      let b = return_credit-Returned env s.claims slot in
      let_go_of-IsConsistent _ (s.leases slot)
        (λ m other k. elim (v.held m (λ z. k (b.words m ∙ z))) [
          | leased i h l ↦
              leased i (subst (λ n. i < n) (sym b.frames) h) (elim (Bool-cases (i == slot)) [
                | inl same ↦ absurd (other (subst (λ j. s.leases j ≡ some m) (ground arith) l))
                | inr apart ↦ ground arith
              ])
          | using u ↦ using u
          | granted g f at ↦ granted g f at
        ])
        (λ i h z. elim (Bool-cases (i == slot)) [
          | inl same ↦ ground arith
          | inr apart ↦
              let kept : s.claims.claim i ≡ 0 = ground (arith, b.claim i) in
              let gone = v.idle i (subst (λ n. i < n) b.frames h) kept in ground arith
        ])
        (λ z. v.quiet (sym b.offered ∙ z))

-- The words after an acquisition, with the leases as they were.
kept-IsConsistent :
    (s : ConsumerState) (c : ClaimMap) (r : Result ArenaError AcquireOutcome)
    → Taken s.claims (c, r)
    → IsConsistent s
    → IsConsistent (record s { claims = c })
kept-IsConsistent s c r t v = record {
  held = λ m k. elim (v.held m (λ z. k (t.words m ∙ z))) [
    | leased i h l ↦ leased i (subst (λ n. i < n) (sym t.frames) h) l
    | using u ↦ using u
    | granted g f at ↦ granted g f at
  ];
  idle = λ i h z. v.idle i (subst (λ n. i < n) t.frames h) (t.claim i z);
  quiet = λ z. v.quiet (sym t.offered ∙ z);
}

frame-IsConsistent :
    (s : ConsumerState) (c : ClaimMap) (lease : FrameLease)
    → Taken s.claims (c, ok (frame lease))
    → IsConsistent s
    → IsConsistent
        (record s { claims = c; leases = update s.leases lease.slot (slot_of s.resources) })
frame-IsConsistent s c lease t v =
    let (free, claimed) = t.lease lease refl in
    record {
      held = λ m k. elim (v.held m (λ z. k (t.words m ∙ z))) [
        | leased i h l ↦
            leased i (subst (λ n. i < n) (sym t.frames) h) (elim (Bool-cases (i == lease.slot)) [
              | inl same ↦
                  let there : i ≡ lease.slot = ground arith in
                  let unleased = v.idle i h (ap s.claims.claim there ∙ free) in absurd (cc)
              | inr apart ↦ ground arith
            ])
        | using u ↦ using u
        | granted g f at ↦ granted g f at
      ];
      idle = λ i h z. elim (Bool-cases (i == lease.slot)) [
        | inl same ↦
            let there : i ≡ lease.slot = ground arith in
            absurd (claimed (ap c.claim (sym there) ∙ z))
        | inr apart ↦
            let gone = v.idle i (subst (λ n. i < n) t.frames h) (t.claim i z) in ground arith
      ];
      quiet = λ z. v.quiet (sym t.offered ∙ z);
    }

pub taken-IsConsistent :
    (s : ConsumerState) (o : Outcome ClaimMap ArenaError AcquireOutcome)
    → Taken s.claims o
    → IsConsistent s
    → IsConsistent (taken s o)
unfolding taken
taken-IsConsistent s (c, ok (frame lease)) t v = frame-IsConsistent s c lease t v
taken-IsConsistent s (c, ok empty) t v = kept-IsConsistent s c (ok empty) t v
taken-IsConsistent s (c, ok (miss x)) t v = kept-IsConsistent s c (ok (miss x)) t v
taken-IsConsistent s (c, ok (gap x y)) t v = kept-IsConsistent s c (ok (gap x y)) t v
taken-IsConsistent s (c, ok holding_limit) t v = kept-IsConsistent s c (ok holding_limit) t v
taken-IsConsistent s (c, ok reconfiguration) t v = kept-IsConsistent s c (ok reconfiguration) t v
taken-IsConsistent s (c, ok closed) t v = kept-IsConsistent s c (ok closed) t v
taken-IsConsistent s (c, err e) t v = kept-IsConsistent s c (err e) t v
