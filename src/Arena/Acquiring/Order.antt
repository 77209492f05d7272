-- ===== src/Arena/Acquiring/Order.antt =====
-- Ordered delivery: what `acquire_next` of crates/jackstay/src/acquisition/arena.rs may answer.
use jackstay.Base.{
  ℕ, ◌+◌, ◌-◌, ◌≤◌, ◌<◌, ◌≡◌, ◌≢◌, Bool-cases, sym, ap, subst, ◌⊎◌, inl, inr, true, false, not,
  ◌||◌, Option, none, some, arith, Option-cases, if_cases, ltb, ◌==◌, if◌then◌else◌,
}
use jackstay.Base.Range.{find_from-none}
use jackstay.Base.Result.{Result, Result-cases, Outcome, ok, err}
use jackstay.Protocol.{ring_word, live_word}
use jackstay.Arena.{ArenaError, ClaimMap, ControlMap, Environment, ResourceMap}
use jackstay.Arena.Claims.{claim_slot}
use jackstay.Arena.Acquiring.{
  AcquireOutcome, ArenaConsumer, frame, empty, miss, gap, holding_limit, reconfiguration, closed,
  is_closed, is_configured, is_current, contradicts, oldest_visible, free_slot, unclaimed, validate,
  acquire_from, acquire, checked, acquire_next,
}

-- A cursor is on offer: it is published, at most a history old, and not from before the last
-- replacement of the allocation.
pub record IsVisible (control : ControlMap) (x : ℕ) : Type 0 where
  pub recent : control.latest < x + control.history
  pub first : control.first_cursor ≤ x
  pub published : x ≤ control.latest

-- The frame that comes next for a consumer that has seen the frames up to `after`, none if that is
-- zero: the very next cursor for the one, and the oldest on offer for the other.
pub record IsDue (control : ControlMap) (after x : ℕ) : Type 0 where
  pub visible : IsVisible control x
  pub successor : after ≢ 0 → x ≡ after + 1
  pub oldest : (y : ℕ) → IsVisible control y → after < y → x ≤ y

-- A gap: the published cursors after the last seen one that are no longer on offer, all of them.
pub record IsGap (control : ControlMap) (after first last : ℕ) : Type 0 where
  pub seen : after ≢ 0
  pub starts : first ≡ after + 1
  pub some : first ≤ last
  pub published : last ≤ control.latest
  pub lost : (y : ℕ) → IsVisible control y → last < y
  pub whole : (last ≡ control.latest) ⊎ IsVisible control (last + 1)

-- What an answer says about the frames.
abbrev pub Answers : ArenaConsumer → ℕ → Result ArenaError AcquireOutcome → Type 0
Answers c after (err e) = Unit {0}
Answers c after (ok (frame lease)) = IsDue c.control after lease.descriptor.cursor
Answers c after (ok empty) = (y : ℕ) → IsVisible c.control y → y ≤ after
Answers c after (ok (miss x)) = IsDue c.control after x
Answers c after (ok (gap first last)) = IsGap c.control after first last
Answers c after (ok holding_limit) = (i : ℕ) → i < c.claims.frames → c.claims.claim i ≢ 0
Answers c after (ok reconfiguration) =
    (map : ResourceMap) → c.resources ≡ some map → map.generation ≢ c.control.current
Answers c after (ok closed) = (c.claims.active ≡ 0) ⊎ (c.control.terminal ≢ 0)

is_configured-reconfiguration :
    (c : ArenaConsumer) (after : ℕ) → is_configured c ≡ false → Answers c after (ok reconfiguration)
unfolding is_configured is_current
is_configured-reconfiguration c after e map there same =
    let k : is_current (some map) c.control.current ≡ false =
      subst (λ o. is_current o c.control.current ≡ false) there e in
    absurd (ground arith)

is_closed-closed :
    (c : ArenaConsumer) (after : ℕ) → is_closed c ≡ true → Answers c after (ok closed)
unfolding is_closed
is_closed-closed c after e = elim (Bool-cases (c.claims.active == 0)) [
  | inl over ↦ inl (ground arith)
  | inr still ↦ inr (ground arith)
]

module _ (env : Environment) (c : ArenaConsumer) (after x : ℕ)
    (is_due : IsDue c.control after x) where
  abbrev Said : Outcome ClaimMap ArenaError AcquireOutcome → Type 0
  Said o = Answers c after o.1

  validate-Said :
      (map : ResourceMap) (index slot : ℕ)
      → Said (validate env (record c { claims = claim_slot c.claims slot x }) map index x slot)
  unfolding validate unclaimed claim_slot is_closed is_configured contradicts
  validate-Said map index slot =
      if_cases Said (not (map.state index == live_word x)) _ _ (λ e. is_due)
        (λ live.
          if_cases Said (is_closed (record c { claims = claim_slot c.claims slot x })) _ _
            (λ e. is_closed-closed c after e)
            (λ still.
              if_cases Said (not (is_configured (record c { claims = claim_slot c.claims slot x })))
                _ _ (λ e. is_configured-reconfiguration c after (ground arith))
                (λ usable.
                  if_cases Said (contradicts map index x (map.descriptor index)) _ _ (λ e. tt)
                    (λ fits. elim (Result-cases (c.validate_descriptor (map.descriptor index))) [
                      | inr (f, e) ↦ rw e tt
                      | inl (u, e) ↦
                          let same : x ≡ (map.descriptor index).cursor = ground arith in
                          rw e (subst (IsDue c.control after) same is_due)
                    ]))))

  acquire_from-Said : (map : ResourceMap) → Said (acquire_from env c map x)
  unfolding acquire_from free_slot
  acquire_from-Said map =
      if_cases Said
        (c.control.ring (ring_word x c.control.history) == 0
          || ltb map.layout.resources (c.control.ring (ring_word x c.control.history)))
        _ _ (λ e. tt)
        (λ there. elim (Option-cases (free_slot c.claims)) [
          | inl e ↦
              rw (acquire_from, e)
                (λ i h.
                  let taken =
                    find_from-none c.claims.frames 0 i (λ j. c.claims.claim j == 0) e (omega arith)
                      (omega arith) in
                  ground arith)
          | inr (slot, e) ↦ rw (acquire_from, e) (validate-Said map _ slot)
        ])

  acquire-Said : is_configured c ≡ true → Said (acquire env c x)
  unfolding acquire is_configured is_current
  acquire-Said usable = elim (Option-cases c.resources) [
    | inl e ↦
        let gone : is_current none c.control.current ≡ true =
          subst (λ o. is_current o c.control.current ≡ true) e usable in
        absurd (cc)
    | inr (map, e) ↦
        subst Said
          (ap
            (λ (o : Option ResourceMap). elim o [
              | none ↦ (c.claims, ok reconfiguration)
              | some m ↦ acquire_from env c m x
            ])
            (sym e))
          (acquire_from-Said map)
  ]

-- The cursor that the code takes, once it has found it neither too old nor too new.
taken : ArenaConsumer → ℕ → ℕ
taken c after = if after == 0 then oldest_visible c.control else after + 1

taken-IsDue :
    (c : ArenaConsumer) (after : ℕ)
    → 0 < c.control.history
    → 0 < c.control.first_cursor
    → oldest_visible c.control ≤ taken c after
    → taken c after ≤ c.control.latest
    → IsDue c.control after (taken c after)
unfolding taken oldest_visible
taken-IsDue c after some_history numbered low high = record {
  visible = record { recent = ground arith; first = ground arith; published = high };
  successor = λ seen. ground arith;
  oldest = λ y v h. ground (arith, v.recent, v.first, v.published);
}

taken-IsGap :
    (c : ArenaConsumer) (after : ℕ)
    → 0 < c.control.history
    → c.control.first_cursor ≤ c.control.latest + 1
    → taken c after < oldest_visible c.control
    → IsGap c.control after (taken c after) (oldest_visible c.control - 1)
unfolding taken oldest_visible
taken-IsGap c after some_history first low = record {
  seen = λ none_seen. ground arith;
  starts = ground arith;
  some = ground arith;
  published = ground arith;
  lost = λ y v. ground (arith, v.recent, v.first, v.published);
  whole = elim (Bool-cases (ltb c.control.latest (oldest_visible c.control))) [
    | inl all_lost ↦ inl (ground arith)
    | inr some_left ↦
        inr (record { recent = ground arith; first = ground arith; published = ground arith })
  ];
}

taken-empty :
    (c : ArenaConsumer) (after : ℕ)
    → 0 < c.control.history
    → c.control.latest < taken c after
    → Answers c after (ok empty)
unfolding taken oldest_visible
taken-empty c after some_history high y v = ground (arith, v.recent, v.first, v.published)

module _ (env : Environment) where
  -- Ordered delivery skips no frame silently, in a control map with some history whose first cursor
  -- is at least one and at most the next to be published. A cursor is on offer if it is published,
  -- less than a history old and not below that first cursor. A frame that `acquire_next` returns is
  -- the one that is due: the oldest on offer for a consumer that has seen none, and the one directly
  -- after the last seen otherwise, which is on offer then; a miss is of that frame, too. A gap names
  -- exactly the published cursors after the last seen one that are no longer on offer. Nothing is the
  -- answer only if nothing newer than the last seen frame is on offer. The other answers are given
  -- only for their reasons: every claim slot is taken, the consumer has not installed the current
  -- allocation, its incarnation or the arena is closed. Of errors nothing is said.
  pub acquire_next-due :
      (c : ArenaConsumer) (after : ℕ)
      → 0 < c.control.history
      → 0 < c.control.first_cursor
      → c.control.first_cursor ≤ c.control.latest + 1
      → Answers c after (acquire_next env c after).1
  unfolding acquire_next checked taken
  acquire_next-due c after some_history numbered first =
      let P : Outcome ClaimMap ArenaError AcquireOutcome → Type 0 = λ o. Answers c after o.1 in
      if_cases P (is_closed c) _ _ (λ e. is_closed-closed c after e)
        (λ still.
          if_cases P (not (is_configured c)) _ _
            (λ e. is_configured-reconfiguration c after (ground arith))
            (λ usable.
              if_cases P (c.control.latest == 0 || not (ltb after c.control.latest)) _ _
                (λ e y v. ground (arith, v.recent, v.first, v.published))
                (λ there.
                  if_cases P (ltb (taken c after) (oldest_visible c.control)) _ _
                    (λ e. taken-IsGap c after some_history first (ground arith))
                    (λ visible.
                      if_cases P (ltb c.control.latest (taken c after)) _ _
                        (λ e. taken-empty c after some_history (ground arith))
                        (λ e.
                          acquire-Said env c after (taken c after)
                            (taken-IsDue c after some_history numbered (ground arith)
                              (ground arith))
                            (ground arith))))))
