-- ===== src/Arena/Attaching/Invariant.antt =====
-- Admission of a consumer and the closing of an incarnation keep the producer well-formed
-- (`attach_with_recipient` and `close` of crates/jackstay/src/acquisition/arena.rs).
use jackstay.Base.{
  ℕ, ◌≡◌, refl, sym, subst, ◌∙◌, inl, inr, true, false, Option, none, some, arith, is_some,
  Bool-cases, Option-cases, ◌==◌,
}
use jackstay.Base.Dict.{lookup, insert, lookup_high, remove-insert_fresh, lookup-insert_self}
use jackstay.Base.Result.{Outcome, ok, err, Result-cases}
use jackstay.Admission.{
  AdmissionBook, AdmissionError, AdmissionLimits, HoldingRequest, HoldingReservation,
  IncarnationRecord, admit, grant, complete_cleanup, initial,
}
use jackstay.Admission
use jackstay.Admission.Invariant.{IsValid, admit-IsValid, close-IsValid}
use jackstay.Arena.{ArenaError, ArenaProducer, Environment, ResourceMap, closed}
use jackstay.Arena.Claims.{close}
use jackstay.Arena.Collecting.{poll_cleanup, returned}
use jackstay.Arena.Layout.{claim_len}
use jackstay.Arena.Matching.{
  Matches-insert, Matches-lookup, Keeps, Keeps-trans, returned-Keeps, returned-IsValid,
  returned-reservations,
}
use jackstay.Arena.Publishing.Invariant.{IsSound, Installed, Installed-Keeps, poll_cleanup-IsSound}
use jackstay.Arena.Attaching.{
  ConsumerGrant, set_up, admitted_into, attach_polled, attach_with_recipient, disconnect,
  new_claims,
}

-- What admission does to the book.
record Admits (b b' : AdmissionBook) (r : HoldingReservation) : Type 0 where
  kept : Keeps b b'
  fresh : r.incarnation ≡ b.next_incarnation
  entered :
      b'.reservations
      ≡ insert r.incarnation (record { reservation = r; closing = false }) b.reservations

admit-Admits :
    (b : AdmissionBook) (request : HoldingRequest) {b' : AdmissionBook} {r : HoldingReservation}
    → admit b request ≡ (b', ok r)
    → Admits b b' r
unfolding admit grant
admit-Admits b request {b'} {r} e = ground arith

admit-err :
    (b : AdmissionBook) (request : HoldingRequest) {b' : AdmissionBook} {e : AdmissionError}
    → admit b request ≡ (b', err e)
    → b' ≡ b
unfolding admit grant
admit-err b request {b'} {e} h = ground arith

admit-settled :
    (b : AdmissionBook) (request : HoldingRequest) {b' : AdmissionBook} {r : HoldingReservation}
    → admit b request ≡ (b', ok r)
    → is_some b.pending_allocation ≡ false
unfolding admit grant
admit-settled b request {b'} {r} e = ground arith

close-Keeps : (b : AdmissionBook) (id : ℕ) → Keeps b (Admission.close b id).0
unfolding Admission.close
close-Keeps b id = ground arith

closed_reservations :
    (b : AdmissionBook) (id : ℕ) (r : IncarnationRecord)
    → lookup id b.reservations ≡ some r
    → (Admission.close b id).0.reservations ≡ insert id (record r { closing = true }) b.reservations
unfolding Admission.close
closed_reservations b id r e = ground arith

absent : (b : AdmissionBook) → IsValid b → lookup b.next_incarnation b.reservations ≡ none
absent b v =
    lookup_high 1 b.next_incarnation b.next_incarnation b.reservations v.incarnations (omega arith)

-- The reservation of a setup that failed leaves no trace in the accounts.
rolled_back :
    (b b' : AdmissionBook) (r : HoldingReservation)
    → IsValid b
    → Admits b b' r
    → (returned b' r.incarnation).reservations ≡ b.reservations
rolled_back b b' r v a =
    let entry : lookup r.incarnation b'.reservations
        ≡ some (record { reservation = r; closing = false }) =
      rw a.entered (
        lookup-insert_self r.incarnation (record { reservation = r; closing = false })
          b.reservations) in
    let gone : lookup r.incarnation b.reservations ≡ none = rw a.fresh (absent b v) in
    returned-reservations b' r.incarnation (record { reservation = r; closing = false }) entry
    ∙ rw a.entered (
        remove-insert_fresh r.incarnation (record { reservation = r; closing = false })
          b.reservations gone)

module _ (env : Environment) where
  set_up-IsSound :
      (p : ArenaProducer) (map : ResourceMap) (b' : AdmissionBook) (r : HoldingReservation)
      (pid : ℕ) (process : Option ℕ) (len : ℕ)
      → IsSound p
      → IsValid b'
      → Admits p.admission b' r
      → IsSound (set_up env (record p { admission = b' }) map r pid process len).0
  unfolding set_up new_claims
  set_up-IsSound p map b' r pid process len v book a = elim (Result-cases (env.new_storage len)) [
    | inl (u, e) ↦
        rw (e, set_up)
          (record {
            accounts = record {
              book = book;
              matches = rw a.entered (
                  Matches-insert p.incarnations p.admission.reservations r.incarnation _ _ refl
                    v.accounts.matches);
            };
            installed =
                Installed-Keeps p.resources p.pending_layout p.admission b' p.cursor p.next_slot
                  a.kept v.installed;
          })
    | inr (x, e) ↦
        rw (e, set_up)
          (record {
            accounts = record {
              book = returned-IsValid b' r.incarnation book;
              matches = rw (rolled_back p.admission b' r v.accounts.book a) v.accounts.matches;
            };
            installed =
                Installed-Keeps p.resources p.pending_layout p.admission (returned b' r.incarnation)
                  p.cursor p.next_slot (Keeps-trans a.kept (returned-Keeps b' r.incarnation))
                  v.installed;
          })
  ]

  admitted_into_cases :
      (P : Outcome ArenaProducer ArenaError ConsumerGrant → Type 0) (p : ArenaProducer)
      (book : AdmissionBook) (r : HoldingReservation) (pid : ℕ) (process : Option ℕ) (len : ℕ)
      → (p.resources ≡ none → P (record p { admission = book }, err closed))
      → ((map : ResourceMap)
          → p.resources ≡ some map
          → P (set_up env (record p { admission = book }) map r pid process len))
      → P (admitted_into env p (book, ok r) pid process len)
  unfolding admitted_into
  admitted_into_cases P p book r pid process len paused installed =
      elim (Option-cases p.resources) [
        | inl e ↦ rw (e, admitted_into) (paused e)
        | inr (map, e) ↦ rw (e, admitted_into) (installed map e)
      ]

  admitted_into-IsSound :
      (p : ArenaProducer) (request : HoldingRequest)
      (outcome : Outcome AdmissionBook AdmissionError HoldingReservation) (pid : ℕ)
      (process : Option ℕ) (len : ℕ)
      → IsSound p
      → admit p.admission request ≡ outcome
      → IsSound (admitted_into env p outcome pid process len).0
  unfolding admitted_into
  admitted_into-IsSound p request (book, err e) pid process len v same =
      subst (λ b. IsSound (record p { admission = b })) (sym (admit-err p.admission request same)) v
  admitted_into-IsSound p request (book, ok r) pid process len v same =
      admitted_into_cases (λ o. IsSound o.0) p book r pid process len
        (λ gone.
          let pending : is_some p.admission.pending_allocation ≡ true =
            (subst (λ o. Installed o p.pending_layout p.admission p.cursor p.next_slot) gone
              v.installed).0 in
          let settled = admit-settled p.admission request same in absurd (cc))
        (λ map e.
          set_up-IsSound p map book r pid process len v
            (subst (λ (o : Outcome AdmissionBook AdmissionError HoldingReservation). IsValid o.0)
              same (admit-IsValid p.admission v.accounts.book request))
            (admit-Admits p.admission request same))

  attach_polled-IsSound :
      (polled : Outcome ArenaProducer ArenaError ℕ) (holding pid : ℕ) (process : Option ℕ)
      → IsSound polled.0
      → IsSound (attach_polled env polled holding pid process).0
  unfolding attach_polled
  attach_polled-IsSound (p, err e) holding pid process v = v
  attach_polled-IsSound (p, ok released) holding pid process v =
      elim (Result-cases (claim_len env.page_size holding)) [
        | inr (x, e) ↦ rw (e, attach_polled) v
        | inl (len, e) ↦
            rw (e, attach_polled)
              (admitted_into-IsSound p (record { frames = holding; claim_bytes = len })
                (admit p.admission (record { frames = holding; claim_bytes = len })) pid process len
                v refl)
      ]

  pub attach_with_recipient-IsSound :
      (p : ArenaProducer) (holding pid : ℕ) (process : Option ℕ)
      → IsSound p
      → IsSound (attach_with_recipient env p holding pid process).0
  unfolding attach_with_recipient
  attach_with_recipient-IsSound p holding pid process v =
      elim (Bool-cases (p.control.terminal == 0)) [
        | inl t ↦ rw t (
            attach_polled-IsSound (poll_cleanup env p) holding pid process
              (poll_cleanup-IsSound env p v))
        | inr t ↦ rw t v
      ]

pub disconnect-IsSound :
    (p : ArenaProducer) (incarnation : ℕ) → IsSound p → IsSound (disconnect p incarnation).0
unfolding disconnect close
disconnect-IsSound p incarnation v = elim (Option-cases (lookup incarnation p.incarnations)) [
  | inl e ↦ rw (e, disconnect) v
  | inr (s, e) ↦
      let (r, found, same) =
        Matches-lookup p.incarnations p.admission.reservations incarnation s v.accounts.matches e in
      rw (e, disconnect)
        (record {
          accounts = record {
            book = close-IsValid p.admission v.accounts.book incarnation;
            matches = rw (closed_reservations p.admission incarnation r found) (
                Matches-insert p.incarnations p.admission.reservations incarnation
                  (record s { claims = close s.claims }) (record r { closing = true }) same
                  v.accounts.matches);
          };
          installed =
              Installed-Keeps p.resources p.pending_layout p.admission _ p.cursor p.next_slot
                (close-Keeps p.admission incarnation) v.installed;
        })
]
