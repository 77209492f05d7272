-- ===== src/Arena/Configuring/Holders.antt =====
-- Who owns the storage behind each mapping word of an incarnation.
use jackstay.Base.{
  ℕ, ◌<◌, ◌≡◌, ◌≢◌, refl, sym, subst, ◌∙◌, inl, inr, true, Option, none, some, arith, Bool-cases,
  if_cases, is_id, ◌==◌,
}
use jackstay.Base.Range.{any_below, any_below-found}
use jackstay.Arena.Configuring.{
  ConfigurationGrant, ConsumerState, slot_of, owns, unmapped, let_go_of, drop_grant, relinquish,
}

-- A live lease or the consumer itself owns the storage of a mapping slot, or a grant names it.
pub data Holds (s : ConsumerState) (m : ℕ) : Type 0 where
  leased : (i : ℕ) → i < s.claims.frames → s.leases i ≡ some m → Holds s m
  using : slot_of s.resources ≡ some m → Holds s m
  granted : (grant : ConfigurationGrant) → s.offer ≡ some grant → grant.mapping_slot ≡ m → Holds s m

-- Every mapping word that is set has a holder, a free claim slot has no lease, and while no
-- generation is offered there is no grant.
pub record IsConsistent (s : ConsumerState) : Type 0 where
  pub held : (m : ℕ) → s.claims.mapping_slot m ≢ 0 → Holds s m
  pub idle : (i : ℕ) → i < s.claims.frames → s.claims.claim i ≡ 0 → s.leases i ≡ none
  pub quiet : s.claims.offered_generation ≡ 0 → s.offer ≡ none

owns-Holds : (s : ConsumerState) (m : ℕ) → owns s m ≡ true → Holds s m
unfolding owns
owns-Holds s m e = elim (Bool-cases (any_below s.claims.frames (λ i. is_id (s.leases i) m))) [
  | inl some_lease ↦
      let (i, h, mine) = any_below-found s.claims.frames (λ i. is_id (s.leases i) m) some_lease in
      leased i h (ground arith)
  | inr no_lease ↦ using (ground arith)
]

-- The holders of a slot depend on neither the words nor the offer's generation.
Holds-unmapped :
    (s : ConsumerState) (slot m : ℕ)
    → Holds s m
    → Holds (record s { claims = unmapped s.claims slot }) m
unfolding unmapped
Holds-unmapped s slot m (leased i h e) = leased i h e
Holds-unmapped s slot m (using e) = using e
Holds-unmapped s slot m (granted grant e k) = granted grant e k

abbrev Held : ConsumerState → Type 0
Held s = (m : ℕ) → s.claims.mapping_slot m ≢ 0 → Holds s m

unmapped-Held :
    (s : ConsumerState) (slot : ℕ)
    → ((m : ℕ) → m ≢ slot → s.claims.mapping_slot m ≢ 0 → Holds s m)
    → Held (record s { claims = unmapped s.claims slot })
unfolding unmapped
unmapped-Held s slot h m e = elim (Bool-cases (m == slot)) [
  | inl same ↦ absurd (ground arith)
  | inr other ↦ Holds-unmapped s slot m (h m (ground arith) (ground arith))
]

-- To let go of one storage keeps the holders of all the others.
let_go_of-Held :
    (s : ConsumerState) (o : Option ℕ)
    → ((m : ℕ) → o ≢ some m → s.claims.mapping_slot m ≢ 0 → Holds s m)
    → Held (let_go_of s o)
unfolding let_go_of
let_go_of-Held s none h = λ m e. h m (λ k. absurd (cc)) e
let_go_of-Held s (some slot) h =
    if_cases Held (owns s slot) s _
      (λ o m e. elim (Bool-cases (m == slot)) [
        | inl same ↦ owns-Holds s m (subst (λ x. owns s x ≡ true) (ground arith) o)
        | inr other ↦ h m (λ k. absurd (ground arith)) e
      ])
      (λ o. unmapped-Held s slot (λ m k. h m (λ same. absurd (ground arith))))

-- The rest of the state stays as it is.
record Rest (s u : ConsumerState) : Type 0 where
  frames : u.claims.frames ≡ s.claims.frames
  claim : (i : ℕ) → u.claims.claim i ≡ s.claims.claim i
  leases : (i : ℕ) → u.leases i ≡ s.leases i
  offered : u.claims.offered_generation ≡ s.claims.offered_generation
  offer : u.offer ≡ s.offer

let_go_of-Rest : (s : ConsumerState) (o : Option ℕ) → Rest s (let_go_of s o)
unfolding let_go_of unmapped
let_go_of-Rest s none = record {
  frames = refl;
  claim = λ i. refl;
  leases = λ i. refl;
  offered = refl;
  offer = refl;
}
let_go_of-Rest s (some slot) =
    if_cases (Rest s) (owns s slot) s _
      (λ o. record {
        frames = refl;
        claim = λ i. refl;
        leases = λ i. refl;
        offered = refl;
        offer = refl;
      })
      (λ o. record {
        frames = refl;
        claim = λ i. refl;
        leases = λ i. refl;
        offered = refl;
        offer = refl;
      })

pub let_go_of-IsConsistent :
    (s : ConsumerState) (o : Option ℕ)
    → ((m : ℕ) → o ≢ some m → s.claims.mapping_slot m ≢ 0 → Holds s m)
    → ((i : ℕ) → i < s.claims.frames → s.claims.claim i ≡ 0 → s.leases i ≡ none)
    → (s.claims.offered_generation ≡ 0 → s.offer ≡ none)
    → IsConsistent (let_go_of s o)
let_go_of-IsConsistent s o h idle quiet =
    let r = let_go_of-Rest s o in
    record {
      held = let_go_of-Held s o h;
      idle = λ i k e. r.leases i ∙ idle i (subst (λ n. i < n) r.frames k) (sym (r.claim i) ∙ e);
      quiet = λ e. r.offer ∙ quiet (sym r.offered ∙ e);
    }

pub drop_grant-IsConsistent :
    (s : ConsumerState) (grant : ConfigurationGrant)
    → s.offer ≡ some grant
    → IsConsistent s
    → IsConsistent (drop_grant s grant)
unfolding drop_grant unmapped
drop_grant-IsConsistent s grant e v = record {
  held = λ m k. elim (Bool-cases (m == grant.mapping_slot)) [
    | inl same ↦ absurd (ground arith)
    | inr other ↦ elim (v.held m (ground arith)) [
      | leased i h l ↦ leased i h l
      | using u ↦ using u
      | granted g f at ↦ absurd (ground arith)
    ]
  ];
  idle = v.idle;
  quiet = λ z. refl;
}

pub relinquish-IsConsistent : (s : ConsumerState) → IsConsistent s → IsConsistent (relinquish s)
unfolding relinquish
relinquish-IsConsistent s v =
    let_go_of-IsConsistent (record s { resources = none }) (slot_of s.resources)
      (λ m other k. elim (v.held m k) [
        | leased i h l ↦ leased i h l
        | using u ↦ absurd (other u)
        | granted g f at ↦ granted g f at
      ])
      v.idle v.quiet
