-- ===== src/Protocol/Publishing.antt =====
-- The producer's steps keep the protocol's invariant.
use jackstay.Base.{ℕ, ◌+◌, ◌≡◌, ◌≢◌, ◌⊎◌, arith, ap}
use jackstay.Protocol.{
  Producer, scanning, writing, live, Arena, update, live_word, retired_word, generation_of,
}
use jackstay.Protocol.Invariant.{held, Ready, Inv}

module _ (words : ℕ) (s : Arena) (v : Inv words s) where
  -- A step that only moves the producer on, or advertises.
  pub moved-Inv :
      (p : Producer) (ring : ℕ → ℕ) (latest cursor : ℕ)
      → Ready s.state s.readers p
      → Inv words (record s { producer = p; ring = ring; latest = latest; cursor = cursor })
  moved-Inv p ring latest cursor r = record {
    whole = v.whole;
    claim = v.claim;
    nonzero = v.nonzero;
    apart = v.apart;
    leases = v.leases;
    ready = r;
  }

  pub retire-Inv :
      (i g : ℕ)
      → generation_of (s.state i) ≡ g
      → Inv words
          (record s { state = update s.state i (retired_word g); producer = scanning i g 0 })
  retire-Inv i g e = record {
    whole = λ j c h. ground (arith, v.whole j c);
    claim = v.claim;
    nonzero = v.nonzero;
    apart = v.apart;
    leases = λ t c j k h. ground (arith, v.leases t c j k h);
    ready = (ground arith, λ t c j m h e. omega arith);
  }

  pub scribble-Inv :
      (i x : ℕ)
      → Ready s.state s.readers (writing i)
      → Inv words (record s { content = update s.content i x })
  scribble-Inv i x (g, e, none_leased) = record {
    whole = λ j c h. ground (arith, v.whole j c);
    claim = v.claim;
    nonzero = v.nonzero;
    apart = v.apart;
    leases = λ t c j k h. ground (arith, v.leases t c j k h, none_leased t c j k h);
    ready = v.ready;
  }

  pub publish-Inv :
      (i n : ℕ)
      → Ready s.state s.readers (writing i)
      → s.content i ≡ n
      → Inv words (record s { state = update s.state i (live_word n); producer = live i })
  publish-Inv i n (g, e, none_leased) w = record {
    whole = λ j c h. ground (arith, v.whole j c);
    claim = v.claim;
    nonzero = v.nonzero;
    apart = v.apart;
    leases = λ t c j k h. ground (arith, v.leases t c j k h, none_leased t c j k h);
    ready = tt;
  }

  -- A scanned word that does not hold the generation belongs to no lease of the resource.
  pub scanned :
      (i g k : ℕ)
      → Ready s.state s.readers (scanning i g k)
      → s.claims k ≢ g
      → Ready s.state s.readers (scanning i g (k + 1))
  scanned i g k (e, ahead) other = (
    e,
    λ t c j m h at. ground (arith, ahead t c j m h at, v.leases t c j m h, v.claim t m (ap held h)),
  )

  pub cleared :
      (i g k : ℕ)
      → Ready s.state s.readers (scanning i g k)
      → ((g ≡ 0) ⊎ (k ≡ words))
      → Ready s.state s.readers (writing i)
  cleared i g k (e, ahead) done = (
    g,
    e,
    λ t c j m h at.
        ground
          (arith, ahead t c j m h at, v.leases t c j m h, v.claim t m (ap held h), v.nonzero t),
  )
