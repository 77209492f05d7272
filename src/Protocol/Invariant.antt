-- ===== src/Protocol/Invariant.antt =====
-- Retirement before the scan, and claim before validation: why no held frame is rewritten.
use jackstay.Base.{ℕ, ◌≤◌, ◌<◌, ◌≡◌, ◌≢◌, refl, Option, none, some, arith}
use jackstay.Protocol.{
  Producer, idle, picked, scanning, writing, live, advertised, Reader, resting, selected, claimed,
  leased, Arena, live_word, retired_word, generation_of, fresh,
}

-- The claim word that a thread holds, and the cursor that it put there.
abbrev pub held : Reader → Option ℕ
held resting = none
held (selected c i) = none
held (claimed c i k) = some k
held (leased c i k) = some k

abbrev pub wanted : Reader → ℕ
wanted resting = 0
wanted (selected c i) = c
wanted (claimed c i k) = c
wanted (leased c i k) = c

-- What the producer may rely on at each point of its attempt.
abbrev pub Ready : (ℕ → ℕ) → (ℕ → Reader) → Producer → Type 0
Ready state readers idle = Unit {0}
Ready state readers (picked i g) = generation_of (state i) ≡ g
Ready state readers (scanning i g k) =
    (state i ≡ retired_word g) × ((t c j m : ℕ) → readers t ≡ leased c j m → j ≡ i → k ≤ m)
Ready state readers (writing i) =
    (g : ℕ) × (state i ≡ retired_word g) × ((t c j m : ℕ) → readers t ≡ leased c j m → j ≢ i)
Ready state readers (live i) = Unit {0}
Ready state readers (advertised i) = Unit {0}

module _ (words : ℕ) where
  pub record Inv (s : Arena) : Type 0 where
    -- A live resource holds the frame of its cursor, whole.
    pub whole : (i c : ℕ) → s.state i ≡ live_word c → s.content i ≡ c
    -- A claim word that a thread holds contains its cursor.
    pub claim :
        (t k : ℕ) → held (s.readers t) ≡ some k → (s.claims k ≡ wanted (s.readers t)) × (k < words)
    pub nonzero : (t : ℕ) → s.readers t ≢ resting → 0 < wanted (s.readers t)
    -- No two threads hold one claim word.
    pub apart : (t u k : ℕ) → held (s.readers t) ≡ some k → held (s.readers u) ≡ some k → t ≡ u
    -- A leased resource stays in the generation of its frame, which it still holds.
    pub leases :
        (t c i k : ℕ)
        → s.readers t ≡ leased c i k
        → (generation_of (s.state i) ≡ c) × (s.content i ≡ c)
    pub ready : Ready s.state s.readers s.producer

pub fresh-Inv : (words : ℕ) → Inv words fresh
fresh-Inv words = record {
  whole = λ i c h. absurd (omega arith);
  claim = λ t k h. cc;
  nonzero = λ t h. absurd (h refl);
  apart = λ t u k h h'. cc;
  leases = λ t c i k h. cc;
  ready = tt;
}
