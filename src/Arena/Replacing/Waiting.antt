-- ===== src/Arena/Replacing/Waiting.antt =====
-- A producer between the retirement of one allocation and the installation of the next.
use jackstay.Base.{ℕ, ◌≡◌, refl, ◌∙◌, true, none, some, arith, is_some}
use jackstay.Base.Result.{ok, err}
use jackstay.Admission.{AdmissionBook, AdmissionError, no_reconfiguration}
use jackstay.Admission.Allocation.{
  begin_reconfiguration, reserve_bound, reserve_reconfiguration, install_reconfiguration,
  abandon_reconfiguration_allocation,
}
use jackstay.Admission.Invariant.{IsValid}
use jackstay.Admission.Replacement.{abandon-IsValid}
use jackstay.Arena.{ArenaProducer, ResourceLayout}
use jackstay.Arena.Matching.{Matches}
use jackstay.Arena.Publishing.Invariant.{IsSound, IsProposed}

-- What the book leaves alone in every step of a replacement.
pub record Carries (b c : AdmissionBook) : Type 0 where
  pub limits : c.limits ≡ b.limits
  pub reservations : c.reservations ≡ b.reservations

pub begin-ok :
    (b : AdmissionBook) (u : ℕ) {c : AdmissionBook} {x : Unit {0}}
    → begin_reconfiguration b u ≡ (c, ok x)
    → Carries b c × (is_some c.pending_allocation ≡ true)
unfolding begin_reconfiguration
begin-ok b u {c} {x} e = (ground arith, ground arith)

pub begin-err :
    (b : AdmissionBook) (u : ℕ) {c : AdmissionBook} {x : AdmissionError}
    → begin_reconfiguration b u ≡ (c, err x)
    → c ≡ b
unfolding begin_reconfiguration
begin-err b u {c} {x} e = ground arith

pub reserve-ok :
    (b : AdmissionBook)
    → Carries b (reserve_reconfiguration b).0
      × (is_some (reserve_reconfiguration b).0.pending_allocation ≡ is_some b.pending_allocation)
unfolding reserve_reconfiguration reserve_bound
reserve-ok b = (ground arith, ground arith)

pub reserve-settled :
    (b : AdmissionBook)
    → b.pending_allocation ≡ none
    → reserve_reconfiguration b ≡ (b, err no_reconfiguration)
unfolding reserve_reconfiguration
reserve-settled b e = rw e refl

pub install-ok :
    (b : AdmissionBook) (u : ℕ) {c : AdmissionBook} {x : ℕ}
    → install_reconfiguration b u ≡ (c, ok x)
    → Carries b c × (c.pending_allocation ≡ none)
unfolding install_reconfiguration
install-ok b u {c} {x} e = (ground arith, ground arith)

pub install-err :
    (b : AdmissionBook) (u : ℕ) {c : AdmissionBook} {x : AdmissionError}
    → install_reconfiguration b u ≡ (c, err x)
    → c ≡ b
unfolding install_reconfiguration
install-err b u {c} {x} e = ground arith

pub abandon-ok :
    (b : AdmissionBook)
    → Carries b (abandon_reconfiguration_allocation b).0
      × (is_some (abandon_reconfiguration_allocation b).0.pending_allocation
          ≡ is_some b.pending_allocation)
unfolding abandon_reconfiguration_allocation
abandon-ok b = (ground arith, ground arith)

-- The book of a producer that waits for storage.
pub record Waits (p : ArenaProducer) (layout : ResourceLayout) (b : AdmissionBook) : Type 0 where
  pub book : IsValid b
  pub matches : Matches p.incarnations b.reservations
  pub pending : is_some b.pending_allocation ≡ true
  pub proposed : IsProposed layout b

pub Waits-IsSound :
    (p : ArenaProducer) (layout : ResourceLayout) (b : AdmissionBook)
    → p.resources ≡ none
    → p.pending_layout ≡ some layout
    → Waits p layout b
    → IsSound (record p { admission = b })
Waits-IsSound p layout b gone proposal w = record {
  accounts = record { book = w.book; matches = w.matches };
  installed = rw (gone, proposal) (w.pending, w.proposed);
}

pub proposed-Carries :
    (layout : ResourceLayout) (b c : AdmissionBook)
    → Carries b c
    → IsProposed layout b
    → IsProposed layout c
proposed-Carries layout b c k v = record {
  resources = rw k.limits v.resources;
  history = rw k.limits v.history;
  some_history = v.some_history;
  some_resources = v.some_resources;
}

-- Steps of the book that leave the replacement pending.
pub Waits-step :
    (p : ArenaProducer) (layout : ResourceLayout) (b c : AdmissionBook)
    → IsValid c
    → Carries b c
    → is_some c.pending_allocation ≡ is_some b.pending_allocation
    → Waits p layout b
    → Waits p layout c
Waits-step p layout b c v k same w = record {
  book = v;
  matches = rw k.reservations w.matches;
  pending = same ∙ w.pending;
  proposed = proposed-Carries layout b c k w.proposed;
}

pub Waits-abandon :
    (p : ArenaProducer) (layout : ResourceLayout) (b : AdmissionBook)
    → Waits p layout b
    → Waits p layout (abandon_reconfiguration_allocation b).0
Waits-abandon p layout b w =
    let (k, same) = abandon-ok b in Waits-step p layout b _ (abandon-IsValid b w.book) k same w
