-- ===== src/Input/Order.antt =====
-- Events reach the executor in the order in which they were submitted.
use jackstay.Base.{
  ℕ, map, ◌+◌, ◌≤◌, ◌<◌, ◌≡◌, refl, sym, ◌∙◌, subst, Bool, Option, none, some, List, [], ◌∷◌, ◌++◌,
  arith,
}
use jackstay.Base.Sub.{Sub, done, skip, take, Sub-refl}
use jackstay.Input.Model.{Mode, Event, Scope, Reason, Status, Work}
use jackstay.Input.State.{Active, State, report, cancel, expire}
use jackstay.Input.Target.{admit, dispatch, next, fresh_active, with_epoch}
use jackstay.Input.Controller.{supersede_tail}
use jackstay.Input.Frame.{Trimmed, report-Trimmed, cancel-Trimmed, expire-Trimmed, requeued}
use jackstay.Input.Executing.{dispatch_cases, take_barrier_cases, next_cases}

abbrev pub Rising : ℕ → List Work → Type 0
Rising d [] = Unit {0}
Rising d (w ∷ ws) = (d < w.sequence) × Rising d ws

abbrev pub Ahead : ℕ → ℕ → Option Active → List Work → Type 0
Ahead d id none q = Unit {0}
Ahead d id (some a) q = a.id ≡ id → (d ≤ a.last_sequence) × Rising d q

-- The controller `id` was admitted, and its sequences up to `d` are no longer queued.
pub record Past (d id : ℕ) (s : State) : Type 0 where
  pub admitted : id ≤ s.next_controller
  pub ahead : Ahead d id s.active s.queue

pub Rising-Sub : (d : ℕ) {p q : List Work} → Sub p q → Rising d q → Rising d p
Rising-Sub d done h = tt
Rising-Sub d (skip w k) h = Rising-Sub d k h.1
Rising-Sub d (take w k) h = (h.0, Rising-Sub d k h.1)

pub Rising-with_epoch :
    (d epoch : ℕ) (ws : List Work) → Rising d ws → Rising d (map (with_epoch epoch) ws)
Rising-with_epoch d epoch [] h = tt
Rising-with_epoch d epoch (w ∷ ws) h = (h.0, Rising-with_epoch d epoch ws h.1)

pub Rising-append :
    (d : ℕ) (ws : List Work) (w : Work) → Rising d ws → d < w.sequence → Rising d (ws ++ (w ∷ []))
Rising-append d [] w h k = (k, tt)
Rising-append d (v ∷ vs) w h k = (h.0, Rising-append d vs w h.1 k)

pub Rising-supersede_tail :
    (d : ℕ) (ws : List Work) (sequence : ℕ) (e : Event)
    → Rising d ws
    → d < sequence
    → Rising d (supersede_tail ws sequence e)
unfolding supersede_tail
Rising-supersede_tail d [] sequence e h k = tt
Rising-supersede_tail d (w ∷ []) sequence e h k = (k, tt)
Rising-supersede_tail d (w ∷ (v ∷ vs)) sequence e h k =
    (h.0, Rising-supersede_tail d (v ∷ vs) sequence e h.1 k)

module _ (d id : ℕ) where
  -- The controller is the same or gone, and the queue shorter.
  pub shorter :
      (s u : State)
      → Past d id s
      → u.next_controller ≡ s.next_controller
      → u.active ≡ s.active
      → Sub u.queue s.queue
      → Past d id u
  shorter s u p n a h = record {
    admitted = omega (arith, p.admitted, n);
    ahead = rw a (go s.active p.ahead);
  }
    where
      go : (o : Option Active) → Ahead d id o s.queue → Ahead d id o u.queue
      go none k = tt
      go (some a) k = λ e. ((k e).0, Rising-Sub d h (k e).1)

  pub gone :
      (s u : State)
      → Past d id s
      → u.next_controller ≡ s.next_controller
      → u.active ≡ none
      → Past d id u
  gone s u p n a = record { admitted = omega (arith, p.admitted, n); ahead = rw a tt }

  pub remade :
      (s u : State) (a b : Active)
      → Past d id s
      → u.next_controller ≡ s.next_controller
      → s.active ≡ some a
      → u.active ≡ some b
      → b.id ≡ a.id
      → a.last_sequence ≤ b.last_sequence
      → (Rising d s.queue → d ≤ a.last_sequence → Rising d u.queue)
      → Past d id u
  remade s u a b p n e f i l k = record {
    admitted = omega (arith, p.admitted, n);
    ahead = rw f (λ j. go (i' ∙ j));
  }
    where
      i' : a.id ≡ b.id
      i' = sym i

      go : a.id ≡ id → (d ≤ b.last_sequence) × Rising d u.queue
      go j =
          let h = subst (λ o. Ahead d id o s.queue) e p.ahead j in (omega (arith, h.0), k h.1 h.0)

  pub Trimmed-Past : {s u : State} → Trimmed s u → Past d id s → Past d id u
  Trimmed-Past {s} {u} t p = shorter s u p t.controller_kept t.active_kept t.queue_left

  pub report-Past : (s : State) (status : Status) → Past d id s → Past d id (report s status)
  report-Past s status p = Trimmed-Past (report-Trimmed s status) p

  pub cancel-Past :
      (s : State) (scope : Scope) (reason : Reason) (ends : Bool)
      → Past d id s
      → Past d id (cancel s scope reason ends)
  cancel-Past s scope reason ends p = Trimmed-Past (cancel-Trimmed s scope reason ends) p

  pub expire-Past : (s : State) (now : ℕ) → Past d id s → Past d id (expire s now)
  expire-Past s now p = Trimmed-Past (expire-Trimmed s now) p

  pub admit-Past :
      (s : State) (mode : Mode) (now : ℕ) → Past d id s → Past d id (admit s mode now).0
  unfolding admit
  admit-Past s mode now p = ground (arith, p, fresh)
    where
      fresh :
          (n : ℕ) (boxes : ℕ → List Status)
          → n ≡ s.next_controller + 1
          → Past d id (record s {
            next_controller = n;
            active = some (fresh_active n mode now);
            mailboxes = boxes;
          })
      fresh n boxes e = record {
        admitted = omega (arith, p.admitted);
        ahead = λ i. absurd (later i);
      }
        where
          later : n ≡ id → ⊥
          later i = omega (arith, p.admitted)

  pub dispatch-Past :
      (ws : List Work) (s : State)
      → Past d id (record s { queue = ws })
      → Past d id (dispatch ws s).0
  unfolding dispatch
  dispatch-Past [] s p = p
  dispatch-Past (w ∷ ws) s p =
      dispatch_cases (λ o. Past d id o.0) s w ws
        (λ w' h. shorter (record s { queue = ws }) _ popped refl refl (Sub-refl ws))
        (λ status. report-Past _ status popped)
        (λ status. dispatch-Past ws _ (
          Trimmed-Past
            (requeued ws ws (report-Trimmed (record s { queue = ws }) status) (Sub-refl ws))
            popped))
    where
      popped : Past d id (record s { queue = ws })
      popped =
          shorter (record s { queue = w ∷ ws }) (record s { queue = ws }) p refl refl
            (skip w (Sub-refl ws))

  pub next-Past : (s : State) (now : ℕ) → Past d id s → Past d id (next s now).0
  next-Past s now p =
      next_cases (λ o. Past d id o.0) s now (λ f e. q)
        (λ b e g.
          take_barrier_cases (λ o. Past d id o.0) (expire s now) b
            (λ n. shorter (expire s now) _ q refl refl (Sub-refl _))
            (λ a n. shorter (expire s now) _ q refl refl (Sub-refl _)))
        (λ e g. dispatch-Past (expire s now).queue (expire s now) q)
    where
      q : Past d id (expire s now)
      q = expire-Past s now p
