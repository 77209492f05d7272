-- ===== src/Arena/Collecting.antt =====
-- What the producer reclaims before it admits, publishes or reallocates: completed releases, drained
-- incarnations and retired allocations (`poll_cleanup` in crates/jackstay/src/acquisition/arena/
-- cleanup.rs, `collect_quiescent` in arena.rs, `collect_retired_allocations` in
-- arena/reconfiguration.rs).
use mathlib.Core.List.{get_last?, drop_last}
use jackstay.Base.{
  ℕ, zero, suc, ◌+◌, ◌-◌, Bool, true, false, not, ◌&&◌, ◌||◌, none, some, List, [], ◌∷◌, min, ◌==◌,
  if◌then◌else◌, length, get_elem?, set, u64_mod,
}
use jackstay.Base.Dict.{Dict}
use jackstay.Base.Range.{any_below}
use jackstay.Base.Result.{Result, ok, err, Outcome}
use jackstay.Protocol.{generation_of}
use jackstay.Admission.{AdmissionBook, complete_cleanup}
use jackstay.Admission
use jackstay.Admission.Allocation.{complete_allocation_cleanup}
use jackstay.Arena.{
  ArenaError, ArenaProducer, ClaimMap, Environment, Incarnation, ResourceMap, RetiredAllocation,
}
use jackstay.Arena.Claims.{close, contains, drained}
use jackstay.Arena.Cleanup.{poll}

-- `Vec::swap_remove`: the last element takes the place of the removed one.
unfoldable pub swap_remove {ℓ} : {A : Type ℓ} → List A → ℕ → List A
swap_remove xs index = elim (get_last? xs) [ none ↦ [] | some last ↦ drop_last (set xs index last) ]

-- Refreshes every observer and takes what each has released since; the count saturates.
unfoldable pub poll_all : Environment → Dict Incarnation → Dict Incarnation × ℕ
poll_all env [] = ([], 0)
poll_all env ((k, s) ∷ m) =
    let s' = poll env s in
    let (m', released) = poll_all env m in
    (
      (k, record s' { observer = record s'.observer { released = 0 } }) ∷ m',
      min (s'.observer.released + released) (u64_mod - 1),
    )

-- The reservation of a drained incarnation is returned.
unfoldable pub returned : AdmissionBook → ℕ → AdmissionBook
returned b incarnation = (complete_cleanup (Admission.close b incarnation).0 incarnation).0

-- `retain` keeps what has not drained.
unfoldable pub collect_quiescent :
    Dict Incarnation → AdmissionBook → Dict Incarnation × AdmissionBook
collect_quiescent [] b = ([], b)
collect_quiescent ((k, s) ∷ m) b =
    let gone = drained s.claims in
    let (m', b') = collect_quiescent m (if gone then returned b k else b) in
    (if gone then m' else (k, s) ∷ m', b')

-- Whether a consumer still maps the allocation, or holds a frame in it.
unfoldable pub uses : ResourceMap → ClaimMap → Bool
uses map c =
    any_below (c.frames + 2) (λ slot. c.mapping_slot slot == map.generation)
    || any_below map.layout.resources (λ slot.
      not (generation_of (map.state slot) == 0) && contains c (generation_of (map.state slot)))

unfoldable pub any_uses : Dict Incarnation → ResourceMap → Bool
any_uses [] map = false
any_uses ((k, s) ∷ m) map = uses map s.claims || any_uses m map

unfoldable pub not_ready : Result ArenaError Bool → Result ArenaError Bool
not_ready (ok ready) = ok (not ready)
not_ready (err e) = err e

-- Whether a retired allocation has to stay.
unfoldable pub must_stay :
    Environment → Dict Incarnation → RetiredAllocation → Result ArenaError Bool
must_stay env m r =
    if any_uses m r.map || env.is_shared r.id
    then ok true
    else if r.native
    then not_ready (env.native_ready r.id)
    else ok false

-- The `while` loop; each round passes one allocation or removes one, so that as many rounds as there
-- are allocations reach the end.
unfoldable pub collect_retired :
    Environment
    → Dict Incarnation
    → ℕ
    → ℕ
    → List RetiredAllocation
    → AdmissionBook
    → List RetiredAllocation × AdmissionBook × Result ArenaError (Unit {0})
collect_retired env m zero index retired b = (retired, b, ok tt)
collect_retired env m (suc fuel) index retired b = elim (get_elem? retired index) [
  | none ↦ (retired, b, ok tt)
  | some r ↦ elim (must_stay env m r) [
    | err e ↦ (retired, b, err e)
    | ok stays ↦
        collect_retired env m fuel (if stays then suc index else index)
          (if stays then retired else swap_remove retired index)
          (if stays then b else (complete_allocation_cleanup b r.id).0)
  ]
]

-- The whole of `poll_cleanup`, and how much credit was released.
unfoldable pub poll_cleanup : Environment → ArenaProducer → Outcome ArenaProducer ArenaError ℕ
poll_cleanup env p =
    let (polled, released) = poll_all env p.incarnations in
    let (incarnations, b) = collect_quiescent polled p.admission in
    let (retired, b', result) = collect_retired env incarnations (length p.retired) 0 p.retired b in
    (
      record p { incarnations = incarnations; admission = b'; retired = retired },
      elim result [ ok u ↦ ok released | err e ↦ err e ],
    )

-- `for claims in self.claims.values() { claims.close(); }`.
unfoldable pub close_all : Dict Incarnation → Dict Incarnation
close_all [] = []
close_all ((k, s) ∷ m) = (k, record s { claims = close s.claims }) ∷ close_all m

-- `stop`: no more publication, admission or acquisition.
unfoldable pub stop : ArenaProducer → ArenaProducer
stop p = record p {
  control = record p.control { terminal = 1 };
  incarnations = close_all p.incarnations;
}

-- `poll_shutdown_ready`: everything that was handed out has drained.
unfoldable pub poll_shutdown_ready :
    Environment → ArenaProducer → Outcome ArenaProducer ArenaError Bool
poll_shutdown_ready env p =
    let (p', result) = poll_cleanup env p in
    (
      p',
      elim result [
        | err e ↦ err e
        | ok released ↦ ok (
            not (p'.control.terminal == 0)
            && (length p'.incarnations == 0 && length p'.retired == 0))
      ],
    )
