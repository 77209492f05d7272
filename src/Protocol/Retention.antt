-- ===== src/Protocol/Retention.antt =====
-- Retained history: the last frames published stay advertised, live and whole.
use native.Mathlib.Nat.{mod-add-mod, mod-eq_of_lt, mod-eq-sub-mod, mod-lt}
use native.Mathlib.Decide.{dec_lt}
use jackstay.Base.{ℕ, ◌+◌, ◌-◌, ◌%◌, ◌≤◌, ◌<◌, ◌≡◌, ◌≢◌, ◌⊎◌, refl, sym, subst, arith, ap, ◌∙◌}
use jackstay.Protocol.{
  Producer, idle, picked, scanning, writing, live, advertised, Arena, update, generation_of,
  live_word, retired_word, oldest, ring_word, Step, pick, retire, scan, busy, clear, scribble,
  refuse, publish, advertise, announce, select, claim, limit, validate, give_up, release, Reach,
  here, next, fresh,
}
use jackstay.Protocol.Invariant.{fresh-Inv}
use jackstay.Protocol.Safety.{Reach-Inv}

-- Fewer than `h` steps round the ring do not come back to the start.
pub add-mod-ne : (a d h : ℕ) → 0 < d → d < h → (a + d) % h ≢ a % h
add-mod-ne a d h p q = elim (dec_lt (a % h + d) h) [
  | yes small ↦ omega (arith, mod-add-mod a h d, mod-eq_of_lt small)
  | no big ↦ omega (
    arith,
    mod-add-mod a h d,
    mod-lt a {m = h} (omega arith),
    mod-eq-sub-mod {n = a % h + d} {m = h} (omega arith),
    mod-eq_of_lt {n = a % h + d - h} {m = h} (omega (arith, mod-lt a {m = h} (omega arith))),
  )
]

pub ring_word-ne : (c n h : ℕ) → 0 < c → c < n → n < c + h → ring_word c h ≢ ring_word n h
ring_word-ne c n h p q r e =
    add-mod-ne (c - 1) (n - c) h (omega arith) (omega arith)
      (ap (λ (m : ℕ). m % h) (omega arith) ∙ sym e)

module _ (resources history : ℕ) where
  -- The frames of the cursors above `bound - history` are advertised and live.
  abbrev pub Kept : (ℕ → ℕ) → (ℕ → ℕ) → ℕ → ℕ → Type 0
  Kept state ring cursor bound =
      (c : ℕ)
      → 0 < c
      → c ≤ cursor
      → bound < c + history
      → (i : ℕ) × (i < resources) × (ring (ring_word c history) ≡ i + 1) × (state i ≡ live_word c)

  -- What keeps the producer from touching them.
  abbrev pub Spare : (ℕ → ℕ) → (ℕ → ℕ) → ℕ → Producer → Type 0
  Spare state ring n idle = Kept state ring n n
  Spare state ring n (picked i g) =
      (i < resources)
      × (generation_of (state i) ≡ g)
      × ((g ≡ 0) ⊎ (g < oldest n history))
      × Kept state ring n n
  Spare state ring n (scanning i g k) =
      (i < resources) × (state i ≡ retired_word g) × Kept state ring n n
  Spare state ring n (writing i) =
      (g : ℕ) × (i < resources) × (state i ≡ retired_word g) × Kept state ring n n
  Spare state ring n (live i) =
      (i < resources) × (state i ≡ live_word (n + 1)) × Kept state ring n n
  Spare state ring n (advertised i) =
      (i < resources)
      × (state i ≡ live_word (n + 1))
      × (ring (ring_word (n + 1) history) ≡ i + 1)
      × Kept state ring n (n + 1)

  pub record Retains (s : Arena) : Type 0 where
    pub spare : Spare s.state s.ring s.cursor s.producer
    pub counted : s.latest ≡ s.cursor

  module _ (state ring : ℕ → ℕ) (n i : ℕ) where
    Kept-retire :
        (g : ℕ)
        → 0 < history
        → generation_of (state i) ≡ g
        → ((g ≡ 0) ⊎ (g < oldest n history))
        → Kept state ring n n
        → Kept (update state i (retired_word g)) ring n n
    Kept-retire g pos e o kept c p q r =
        let (j, b, at, l) = kept c p q r in (j, b, at, ground arith)

    Kept-publish :
        (g : ℕ)
        → state i ≡ retired_word g
        → Kept state ring n n
        → Kept (update state i (live_word (n + 1))) ring n n
    Kept-publish g e kept c p q r = let (j, b, at, l) = kept c p q r in (j, b, at, ground arith)

    Kept-advertise :
        Kept state ring n n → Kept state (update ring (ring_word (n + 1) history) (i + 1)) n (n + 1)
    Kept-advertise kept c p q r =
        let (j, b, at, l) = kept c p q (omega arith) in
        (j, b, ground (arith, ring_word-ne c (n + 1) history p (omega arith) r), l)

    Kept-announce :
        i < resources
        → state i ≡ live_word (n + 1)
        → ring (ring_word (n + 1) history) ≡ i + 1
        → Kept state ring n (n + 1)
        → Kept state ring (n + 1) (n + 1)
    Kept-announce b l at kept c p q r = elim (dec_lt c (n + 1)) [
      | yes before ↦ kept c p (omega arith) r
      | no last ↦ let e : c ≡ n + 1 = omega arith in (i, b, rw e at, rw e l)
    ]

  module _ (words : ℕ) (s : Arena) (pos : 0 < history) (v : Retains s) where
    Spare-at : {p : Producer} → s.producer ≡ p → Spare s.state s.ring s.cursor p
    Spare-at e = subst (Spare s.state s.ring s.cursor) e v.spare

    step-Retains : {u : Arena} → Step resources history words s u → Retains u
    step-Retains (pick i e h o q) =
        rw q (record { spare = (h, refl, o, Spare-at e); counted = v.counted })
    step-Retains (retire i g e q) =
        let (b, f, o, kept) = Spare-at e in
        rw q (record {
          spare = (b, ground arith, Kept-retire s.state s.ring s.cursor i g pos f o kept);
          counted = v.counted;
        })
    step-Retains (scan i g k e h n q) = rw q (record { spare = Spare-at e; counted = v.counted })
    step-Retains (busy i g k e h c n q) =
        rw q (record { spare = (Spare-at e).2; counted = v.counted })
    step-Retains (clear i g k e d q) =
        let (b, f, kept) = Spare-at e in
        rw q (record { spare = (g, b, f, kept); counted = v.counted })
    step-Retains (scribble i x e q) = rw q (record { spare = v.spare; counted = v.counted })
    step-Retains (refuse i e q) = rw q (record { spare = (Spare-at e).3; counted = v.counted })
    step-Retains (publish i e w q) =
        let (g, b, f, kept) = Spare-at e in
        rw q (record {
          spare = (b, ground arith, Kept-publish s.state s.ring s.cursor i g f kept);
          counted = v.counted;
        })
    step-Retains (advertise i e q) =
        let (b, l, kept) = Spare-at e in
        rw q (record {
          spare = (b, l, ground arith, Kept-advertise s.state s.ring s.cursor i kept);
          counted = v.counted;
        })
    step-Retains (announce i e q) =
        let (b, l, at, kept) = Spare-at e in
        rw q
          (record { spare = Kept-announce s.state s.ring s.cursor i b l at kept; counted = refl })
    step-Retains (select t c i e p r h q) = rw q (record { spare = v.spare; counted = v.counted })
    step-Retains (claim t c i k e h f q) = rw q (record { spare = v.spare; counted = v.counted })
    step-Retains (limit t c i e q) = rw q (record { spare = v.spare; counted = v.counted })
    step-Retains (validate t c i k e l q) = rw q (record { spare = v.spare; counted = v.counted })
    step-Retains (give_up t c i k e q) = rw q (record { spare = v.spare; counted = v.counted })
    step-Retains (release t c i k e q) = rw q (record { spare = v.spare; counted = v.counted })

  module _ (words : ℕ) (pos : 0 < history) where
    Reach-Retains : {s u : Arena} → Retains s → Reach resources history words s u → Retains u
    Reach-Retains v here = v
    Reach-Retains v (next r st) = step-Retains words _ pos (Reach-Retains v r) st

    fresh-Retains : Retains fresh
    fresh-Retains = record { spare = λ c p q r. absurd (omega arith); counted = refl }

    -- Between publications every frame of retained history can be acquired: in each reachable arena
    -- with an idle producer, each of the last `history` published cursors is advertised, at a
    -- resource that is live for it and holds its frame whole.
    pub retained_lem :
        {s : Arena} (c : ℕ)
        → Reach resources history words fresh s
        → s.producer ≡ idle
        → 0 < c
        → c ≤ s.latest
        → s.latest < c + history
        → (i : ℕ) × (i < resources)
          × (s.ring (ring_word c history) ≡ i + 1)
          × (s.state i ≡ live_word c)
          × (s.content i ≡ c)
    retained_lem {s} c r e p q o =
        let v = Reach-Retains fresh-Retains r in
        let (i, b, at, l) =
          Spare-at words s pos v e c p (omega (arith, v.counted)) (omega (arith, v.counted)) in
        (i, b, at, l, (Reach-Inv resources history words (fresh-Inv words) r).whole i c l)
