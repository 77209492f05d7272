-- ===== src/Protocol/Safety.antt =====
-- What no interleaving can break: a held frame keeps its storage.
use jackstay.Base.{ℕ, some, ◌<◌, ◌≡◌, ◌≢◌, refl, subst, arith, ap}
use jackstay.Protocol.{
  Producer, idle, writing, advertised, leased, Arena, generation_of, Step, pick, retire, scan, busy,
  clear, scribble, refuse, publish, advertise, announce, select, claim, limit, validate, give_up,
  release, Reach, here, next, fresh,
}
use jackstay.Protocol.Invariant.{held, wanted, Ready, Inv, fresh-Inv}
use jackstay.Protocol.Publishing.{
  moved-Inv, retire-Inv, scribble-Inv, publish-Inv, scanned, cleared,
}
use jackstay.Protocol.Acquiring.{select-Inv, claim-Inv, rest-Inv, drop-Inv, validate-Inv}

module _ (resources history words : ℕ) where
  module _ (s : Arena) (v : Inv words s) where
    at_point : {p : Producer} → s.producer ≡ p → Ready s.state s.readers p
    at_point e = subst (Ready s.state s.readers) e v.ready

    step_from : {u : Arena} → Step resources history words s u → Inv words u
    step_from (pick i e h o q) = rw q (moved-Inv words s v _ s.ring s.latest s.cursor refl)
    step_from (retire i g e q) = rw q (retire-Inv words s v i g (at_point e))
    step_from (scan i g k e h n q) =
        rw q
          (moved-Inv words s v _ s.ring s.latest s.cursor (scanned words s v i g k (at_point e) n))
    step_from (busy i g k e h c n q) = rw q (moved-Inv words s v idle s.ring s.latest s.cursor tt)
    step_from (clear i g k e d q) =
        rw q
          (moved-Inv words s v _ s.ring s.latest s.cursor (cleared words s v i g k (at_point e) d))
    step_from (scribble i x e q) = rw q (scribble-Inv words s v i x (at_point e))
    step_from (refuse i e q) = rw q (moved-Inv words s v idle s.ring s.latest s.cursor tt)
    step_from (publish i e w q) = rw q (publish-Inv words s v i _ (at_point e) w)
    step_from (advertise i e q) = rw q (moved-Inv words s v (advertised i) _ s.latest s.cursor tt)
    step_from (announce i e q) = rw q (moved-Inv words s v idle s.ring _ _ tt)
    step_from (select t c i e p r h q) = rw q (select-Inv words s v t c i e p)
    step_from (claim t c i k e h f q) = rw q (claim-Inv words s v t c i k e h f)
    step_from (limit t c i e q) = rw q (rest-Inv words s v t)
    step_from (validate t c i k e l q) = rw q (validate-Inv words s v t c i k e l)
    step_from (give_up t c i k e q) = rw q (drop-Inv words s v t k (ap held e))
    step_from (release t c i k e q) = rw q (drop-Inv words s v t k (ap held e))

  -- Every interleaving keeps the invariant.
  pub Step-Inv : {s u : Arena} → Inv words s → Step resources history words s u → Inv words u
  Step-Inv {s} v st = step_from s v st

  pub Reach-Inv : {s u : Arena} → Inv words s → Reach resources history words s u → Inv words u
  Reach-Inv v here = v
  Reach-Inv v (next r st) = Step-Inv (Reach-Inv v r) st

  -- While the producer writes into a resource, no thread holds a lease of it: in every arena that
  -- the interleaved accesses can reach from a new one, whatever the threads do.
  pub writing-excludes-leased :
      {s : Arena} (t c i j k : ℕ)
      → Reach resources history words fresh s
      → s.producer ≡ writing i
      → s.readers t ≡ leased c j k
      → j ≢ i
  writing-excludes-leased t c i j k r e h =
      (at_point _ (Reach-Inv (fresh-Inv words) r) e).2 t c j k h

  -- A leased frame is whole and stays: in every reachable arena the resource of a lease holds the
  -- frame that was published under the lease's cursor, is still in that frame's generation, and the
  -- claim word of the lease still shows the cursor.
  pub leased_intact :
      {s : Arena} (t c i k : ℕ)
      → Reach resources history words fresh s
      → s.readers t ≡ leased c i k
      → (s.content i ≡ c) × (generation_of (s.state i) ≡ c) × (s.claims k ≡ c) × (0 < c)
  leased_intact t c i k r h =
      let v = Reach-Inv (fresh-Inv words) r in
      ground (arith, v.leases t c i k h, v.claim t k (ap held h), v.nonzero t)

  -- A claim word has one holder: in every reachable arena, the word of a thread that holds a claim,
  -- whether its frame is validated yet or not, shows the cursor that the thread put there, and no
  -- other thread holds that word. So no release and no attempt that is given up clears the claim of
  -- another thread.
  pub claims_apart :
      {s : Arena} (t u k : ℕ)
      → Reach resources history words fresh s
      → t ≢ u
      → held (s.readers t) ≡ some k
      → (s.claims k ≡ wanted (s.readers t))
        × (0 < wanted (s.readers t))
        × (held (s.readers u) ≢ some k)
  claims_apart t u k r ne h =
      let v = Reach-Inv (fresh-Inv words) r in
      (
        (v.claim t k h).0,
        v.nonzero t (λ rests. let none_held = ap held rests in cc),
        λ h'. ne (v.apart t u k h h'),
      )
