-- ===== src/Protocol/Acquiring.antt =====
-- The consumers' steps keep the protocol's invariant.
use jackstay.Base.{ℕ, ◌<◌, ◌≡◌, ◌≢◌, some, arith}
use jackstay.Protocol.{
  Producer, idle, picked, scanning, writing, live, advertised, Reader, resting, selected, claimed,
  leased, Arena, update, live_word,
}
use jackstay.Protocol.Invariant.{held, Ready, Inv}

module _ (words : ℕ) (s : Arena) (v : Inv words s) (t : ℕ) where
  -- The producer's knowledge survives a thread that takes no new lease.
  Ready-update :
      (p : Producer) (r : Reader)
      → ((c i k : ℕ) → r ≢ leased c i k)
      → Ready s.state s.readers p
      → Ready s.state (update s.readers t r) p
  Ready-update idle r n y = y
  Ready-update (picked i g) r n y = y
  Ready-update (scanning i g k) r n (e, ahead) =
      (e, λ u c j m h at. ground (arith, ahead u c j m, n c j m))
  Ready-update (writing i) r n (g, e, out) =
      (g, e, λ u c j m h. ground (arith, out u c j m, n c j m))
  Ready-update (live i) r n y = y
  Ready-update (advertised i) r n y = y

  pub select-Inv :
      (c i : ℕ)
      → s.readers t ≡ resting
      → 0 < c
      → Inv words (record s { readers = update s.readers t (selected c i) })
  select-Inv c i e pos = record {
    whole = v.whole;
    claim = λ u k h. ground (arith, v.claim u k);
    nonzero = λ u h. ground (arith, v.nonzero u);
    apart = λ u w k h h'. ground (arith, v.apart u w k);
    leases = λ u d j k h. ground (arith, v.leases u d j k);
    ready = Ready-update s.producer (selected c i) (λ d j k h. cc) v.ready;
  }

  pub claim-Inv :
      (c i k : ℕ)
      → s.readers t ≡ selected c i
      → k < words
      → s.claims k ≡ 0
      → Inv words
          (record s { claims = update s.claims k c; readers = update s.readers t (claimed c i k) })
  claim-Inv c i k e kw free = record {
    whole = v.whole;
    claim = λ u m h. ground (arith, v.claim u m, v.nonzero u, v.nonzero t);
    nonzero = λ u h. ground (arith, v.nonzero u, v.nonzero t);
    apart = λ u w m h h'.
        ground (arith, v.apart u w m, v.claim u m, v.claim w m, v.nonzero u, v.nonzero w);
    leases = λ u d j m h. ground (arith, v.leases u d j m);
    ready = Ready-update s.producer (claimed c i k) (λ d j m h. cc) v.ready;
  }

  -- A thread that gives up its claim word, or has none.
  pub rest-Inv : Inv words (record s { readers = update s.readers t resting })
  rest-Inv = record {
    whole = v.whole;
    claim = λ u m h. ground (arith, v.claim u m);
    nonzero = λ u h. ground (arith, v.nonzero u);
    apart = λ u w m h h'. ground (arith, v.apart u w m);
    leases = λ u d j m h. ground (arith, v.leases u d j m);
    ready = Ready-update s.producer resting (λ d j m h. cc) v.ready;
  }

  pub drop-Inv :
      (k : ℕ)
      → held (s.readers t) ≡ some k
      → Inv words (record s { claims = update s.claims k 0; readers = update s.readers t resting })
  drop-Inv k e = record {
    whole = v.whole;
    claim = λ u m h. ground (arith, v.claim u m, v.apart u t k);
    nonzero = λ u h. ground (arith, v.nonzero u);
    apart = λ u w m h h'. ground (arith, v.apart u w m);
    leases = λ u d j m h. ground (arith, v.leases u d j m);
    ready = Ready-update s.producer resting (λ d j m h. cc) v.ready;
  }

  pub validate-Inv :
      (c i k : ℕ)
      → s.readers t ≡ claimed c i k
      → s.state i ≡ live_word c
      → Inv words (record s { readers = update s.readers t (leased c i k) })
  validate-Inv c i k e lv = record {
    whole = v.whole;
    claim = λ u m h. ground (arith, v.claim u m, v.claim t k);
    nonzero = λ u h. ground (arith, v.nonzero u, v.nonzero t);
    apart = λ u w m h h'. ground (arith, v.apart u w m);
    leases = λ u d j m h. ground (arith, v.leases u d j m, v.whole i c lv);
    ready = Ready-validate s.producer v.ready;
  }
    where
      -- A live word is odd, and what the producer scans or writes is even.
      Ready-validate :
          (p : Producer)
          → Ready s.state s.readers p
          → Ready s.state (update s.readers t (leased c i k)) p
      Ready-validate idle y = y
      Ready-validate (picked j g) y = y
      Ready-validate (scanning j g m) (f, ahead) =
          (f, λ u d l n h at. ground (arith, ahead u d l n, at))
      Ready-validate (writing j) (g, f, out) = (g, f, λ u d l n h. ground (arith, out u d l n))
      Ready-validate (live j) y = y
      Ready-validate (advertised j) y = y
