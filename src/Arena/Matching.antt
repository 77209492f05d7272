-- ===== src/Arena/Matching.antt =====
-- The producer's incarnations and the admission book's reservations are the same incarnations,
-- with the same number of frames each.
use mathlib.Core.List.{append_assoc}
use jackstay.Base.{
  ℕ, zero, suc, ◌≤◌, ◌≡◌, refl, sym, subst, ◌∙◌, inl, inr, true, false, some, List, [], ◌∷◌, ◌++◌,
  arith, Bool-cases, Option-cases, ◌==◌, get_elem?,
}
use jackstay.Base.Dict.{
  Dict, lookup, insert, remove, total, Within, lookup_low, remove_absent, lookup-insert_self,
}
use jackstay.Base.Result.{Result-cases}
use jackstay.Admission.{AdmissionBook, IncarnationRecord, complete_cleanup}
use jackstay.Admission
use jackstay.Admission.Allocation.{complete_allocation_cleanup}
use jackstay.Admission.Invariant.{IsValid, close-IsValid, complete_cleanup-IsValid}
use jackstay.Admission.Invariant
use jackstay.Admission.Replacement.{complete_allocation_cleanup-IsValid}
use jackstay.Arena.{Environment, Incarnation, RetiredAllocation}
use jackstay.Arena.Claims.{drained}
use jackstay.Arena.Cleanup.Frames.{poll-frames}
use jackstay.Arena.Selecting.Progress.{frames_of}
use jackstay.Arena.Claims.{close}
use jackstay.Arena.Collecting.{
  poll_all, returned, collect_quiescent, collect_retired, must_stay, swap_remove, close_all,
}

abbrev pub Matches : Dict Incarnation → Dict IncarnationRecord → Type 0
Matches [] [] = Unit {0}
Matches [] (x ∷ n) = ⊥
Matches (x ∷ m) [] = ⊥
Matches ((k, s) ∷ m) ((j, r) ∷ n) = (k ≡ j) × (s.claims.frames ≡ r.reservation.frames) × Matches m n

pub Matches-total :
    (m : Dict Incarnation) (n : Dict IncarnationRecord)
    → Matches m n
    → total frames_of m ≡ total Invariant.frames_of n
unfolding total
Matches-total [] [] h = refl
Matches-total [] (x ∷ n) h = absurd h
Matches-total (x ∷ m) [] h = absurd h
Matches-total ((k, s) ∷ m) ((j, r) ∷ n) h = omega (arith, Matches-total m n h.2)

pub Matches-insert :
    (m : Dict Incarnation) (n : Dict IncarnationRecord) (k : ℕ) (s : Incarnation)
    (r : IncarnationRecord)
    → s.claims.frames ≡ r.reservation.frames
    → Matches m n
    → Matches (insert k s m) (insert k r n)
unfolding insert
Matches-insert [] [] k s r e h = (refl, e, tt)
Matches-insert [] (x ∷ n) k s r e h = absurd h
Matches-insert (x ∷ m) [] k s r e h = absurd h
Matches-insert ((i, t) ∷ m) ((j, q) ∷ n) k s r e h = ground (arith, Matches-insert m n k s r e h.2)

pub Matches-remove :
    (m : Dict Incarnation) (n : Dict IncarnationRecord) (k : ℕ)
    → Matches m n
    → Matches (remove k m) (remove k n)
unfolding remove
Matches-remove [] [] k h = tt
Matches-remove [] (x ∷ n) k h = absurd h
Matches-remove (x ∷ m) [] k h = absurd h
Matches-remove ((i, t) ∷ m) ((j, q) ∷ n) k h = ground (arith, Matches-remove m n k h.2)

-- The two have an entry for the same incarnation.
pub Matches-lookup :
    (m : Dict Incarnation) (n : Dict IncarnationRecord) (k : ℕ) (s : Incarnation)
    → Matches m n
    → lookup k m ≡ some s
    → (r : IncarnationRecord) × (lookup k n ≡ some r) × (s.claims.frames ≡ r.reservation.frames)
unfolding lookup
Matches-lookup [] [] k s h e = cc
Matches-lookup [] (x ∷ n) k s h e = absurd h
Matches-lookup (x ∷ m) [] k s h e = absurd h
Matches-lookup ((i, t) ∷ m) ((j, q) ∷ n) k s h e = elim (Bool-cases (k == i)) [
  | inl same ↦ let here : (k == j) ≡ true = ground arith in rw here (q, refl, ground arith)
  | inr other ↦
      let there : (k == j) ≡ false = ground arith in
      rw there (Matches-lookup m n k s h.2 (ground arith))
]

pub Matches-Within :
    (m : Dict Incarnation) (n : Dict IncarnationRecord) (lo hi : ℕ)
    → Matches m n
    → Within lo hi n
    → Within lo hi m
Matches-Within [] [] lo hi h w = tt
Matches-Within [] (x ∷ n) lo hi h w = absurd h
Matches-Within (x ∷ m) [] lo hi h w = absurd h
Matches-Within ((i, t) ∷ m) ((j, q) ∷ n) lo hi h w = (
  omega arith,
  omega arith,
  subst (λ l. Within (suc l) hi m) (sym h.0) (Matches-Within m n (suc j) hi h.2 w.2),
)

pub poll_all-Matches :
    (env : Environment) (m : Dict Incarnation) (n : Dict IncarnationRecord)
    → Matches m n
    → Matches (poll_all env m).0 n
unfolding poll_all
poll_all-Matches env [] [] h = tt
poll_all-Matches env [] (x ∷ n) h = absurd h
poll_all-Matches env (x ∷ m) [] h = absurd h
poll_all-Matches env ((k, s) ∷ m) ((j, r) ∷ n) h =
    (h.0, poll-frames env s ∙ h.1, poll_all-Matches env m n h.2)

pub close_all-Matches :
    (m : Dict Incarnation) (n : Dict IncarnationRecord) → Matches m n → Matches (close_all m) n
unfolding close_all close
close_all-Matches [] [] h = tt
close_all-Matches [] (x ∷ n) h = absurd h
close_all-Matches (x ∷ m) [] h = absurd h
close_all-Matches ((k, s) ∷ m) ((j, r) ∷ n) h = (h.0, h.1, close_all-Matches m n h.2)

-- What a book keeps when reservations and retired allocations are returned.
pub record Keeps (b c : AdmissionBook) : Type 0 where
  pub limits : c.limits ≡ b.limits
  pub pending : c.pending_allocation ≡ b.pending_allocation
  pub current : c.current_allocation ≡ b.current_allocation

pub Keeps-refl : (b : AdmissionBook) → Keeps b b
Keeps-refl b = record { limits = refl; pending = refl; current = refl }

pub Keeps-trans : {b c d : AdmissionBook} → Keeps b c → Keeps c d → Keeps b d
Keeps-trans p q = record {
  limits = q.limits ∙ p.limits;
  pending = q.pending ∙ p.pending;
  current = q.current ∙ p.current;
}

remove-insert :
    (k : ℕ) (r : IncarnationRecord) (n : Dict IncarnationRecord)
    → remove k (insert k r n) ≡ remove k n
unfolding insert remove
remove-insert k r [] = ground arith
remove-insert k r ((j, q) ∷ n) = ground (arith, remove-insert k r n)

pub returned-reservations :
    (b : AdmissionBook) (k : ℕ) (r : IncarnationRecord)
    → lookup k b.reservations ≡ some r
    → (returned b k).reservations ≡ remove k b.reservations
unfolding returned Admission.close complete_cleanup
returned-reservations b k r h = ground (
  arith,
  remove-insert k (record r { closing = true }) b.reservations,
  lookup-insert_self k (record r { closing = true }) b.reservations,
)

pub returned-Keeps : (b : AdmissionBook) (k : ℕ) → Keeps b (returned b k)
unfolding returned Admission.close complete_cleanup
returned-Keeps b k = ground arith

pub returned-IsValid : (b : AdmissionBook) (k : ℕ) → IsValid b → IsValid (returned b k)
unfolding returned
returned-IsValid b k v = complete_cleanup-IsValid (Admission.close b k).0 (close-IsValid b v k) k

lower :
    (pre m : Dict Incarnation) (k lo hi : ℕ) (s : Incarnation)
    → Within lo hi (pre ++ (k, s) ∷ m)
    → lo ≤ k
lower [] m k lo hi s w = w.0
lower ((j, t) ∷ pre) m k lo hi s w = omega (arith, lower pre m k (suc j) hi s w.2)

remove_middle :
    (pre m : Dict Incarnation) (k lo hi : ℕ) (s : Incarnation)
    → Within lo hi (pre ++ (k, s) ∷ m)
    → remove k (pre ++ (k, s) ∷ m) ≡ pre ++ m
unfolding remove
remove_middle [] m k lo hi s w =
    ground (arith, remove_absent k m (lookup_low (suc k) hi k m w.2 (omega arith)))
remove_middle ((j, t) ∷ pre) m k lo hi s w =
    ground (arith, lower pre m k (suc j) hi s w.2, remove_middle pre m k (suc j) hi s w.2)

present :
    (pre m : Dict Incarnation) (k lo hi : ℕ) (s : Incarnation)
    → Within lo hi (pre ++ (k, s) ∷ m)
    → lookup k (pre ++ (k, s) ∷ m) ≡ some s
unfolding lookup
present [] m k lo hi s w = ground arith
present ((j, t) ∷ pre) m k lo hi s w =
    ground (arith, lower pre m k (suc j) hi s w.2, present pre m k (suc j) hi s w.2)

-- A book and the incarnations that it accounts for.
pub record Accounts (m : Dict Incarnation) (b : AdmissionBook) : Type 0 where
  pub book : IsValid b
  pub matches : Matches m b.reservations

returned-Accounts :
    (pre m : Dict Incarnation) (k : ℕ) (s : Incarnation) (b : AdmissionBook)
    → Accounts (pre ++ (k, s) ∷ m) b
    → Accounts (pre ++ m) (returned b k)
returned-Accounts pre m k s b a =
    let w =
      Matches-Within (pre ++ (k, s) ∷ m) b.reservations 1 b.next_incarnation a.matches
        a.book.incarnations in
    let (r, found, same) =
      Matches-lookup (pre ++ (k, s) ∷ m) b.reservations k s a.matches
        (present pre m k 1 b.next_incarnation s w) in
    record {
      book = returned-IsValid b k a.book;
      matches = rw (returned-reservations b k r found) (
          subst (λ l. Matches l (remove k b.reservations))
            (remove_middle pre m k 1 b.next_incarnation s w)
            (Matches-remove (pre ++ (k, s) ∷ m) b.reservations k a.matches));
    }

pub collect_quiescent-Accounts :
    (pre m : Dict Incarnation) (b : AdmissionBook)
    → Accounts (pre ++ m) b
    → Accounts (pre ++ (collect_quiescent m b).0) (collect_quiescent m b).1
      × Keeps b (collect_quiescent m b).1
unfolding collect_quiescent
collect_quiescent-Accounts pre [] b a = (a, Keeps-refl b)
collect_quiescent-Accounts pre ((k, s) ∷ m) b a = elim (Bool-cases (drained s.claims)) [
  | inl gone ↦
      let (rest, kept) =
        collect_quiescent-Accounts pre m (returned b k) (returned-Accounts pre m k s b a) in
      rw gone (rest, Keeps-trans (returned-Keeps b k) kept)
  | inr stays ↦
      let (rest, kept) =
        collect_quiescent-Accounts (pre ++ (k, s) ∷ []) m b
          (rw (append_assoc pre ((k, s) ∷ []) m) a) in
      rw stays (
        subst (λ l. Accounts l (collect_quiescent m b).1)
            (append_assoc pre ((k, s) ∷ []) (collect_quiescent m b).0) rest,
        kept,
      )
]

complete_allocation_cleanup-Keeps :
    (b : AdmissionBook) (id : ℕ)
    → IsValid b
    → Keeps b (complete_allocation_cleanup b id).0
      × ((complete_allocation_cleanup b id).0.reservations ≡ b.reservations)
unfolding complete_allocation_cleanup
complete_allocation_cleanup-Keeps b id v = ground arith

removed-Accounts :
    (m : Dict Incarnation) (b : AdmissionBook) (id : ℕ)
    → Accounts m b
    → Accounts m (complete_allocation_cleanup b id).0
removed-Accounts m b id a =
    let (kept, same) = complete_allocation_cleanup-Keeps b id a.book in
    record { book = complete_allocation_cleanup-IsValid b a.book id; matches = rw same a.matches }

pub collect_retired-Accounts :
    (env : Environment) (m : Dict Incarnation) (fuel index : ℕ) (retired : List RetiredAllocation)
    (b : AdmissionBook)
    → Accounts m b
    → Accounts m (collect_retired env m fuel index retired b).1
      × Keeps b (collect_retired env m fuel index retired b).1
unfolding collect_retired
collect_retired-Accounts env m zero index retired b a = (a, Keeps-refl b)
collect_retired-Accounts env m (suc fuel) index retired b a =
    elim (Option-cases (get_elem? retired index)) [
      | inl n ↦ rw (n, collect_retired) (a, Keeps-refl b)
      | inr (r, e) ↦ elim (Result-cases (must_stay env m r)) [
        | inr (x, q) ↦ rw (e, collect_retired, q) (a, Keeps-refl b)
        | inl (true, q) ↦
            rw (e, collect_retired, q) (collect_retired-Accounts env m fuel (suc index) retired b a)
        | inl (false, q) ↦
            let (rest, kept) =
              collect_retired-Accounts env m fuel index (swap_remove retired index)
                (complete_allocation_cleanup b r.id).0 (removed-Accounts m b r.id a) in
            rw (e, collect_retired, q)
              (rest, Keeps-trans (complete_allocation_cleanup-Keeps b r.id a.book).0 kept)
      ]
    ]
