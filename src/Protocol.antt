-- ===== src/Protocol.antt =====
-- The claim protocol of crates/jackstay/src/acquisition/arena.rs, one atomic access at a time: the
-- producer retires, scans and rewrites a resource while consumer threads claim, validate and hold
-- frames. Every interleaving of these sequentially consistent accesses is a sequence of steps.
pub mod Invariant
pub mod Publishing
pub mod Acquiring
pub mod Safety
pub mod Retention
mod Tests
use jackstay.Base.{
  ℕ, ◌+◌, ◌-◌, ◌*◌, ◌/◌, ◌%◌, ◌≤◌, ◌<◌, ◌≡◌, ◌≢◌, Option, none, some, max, ◌==◌, if◌then◌else◌, ◌⊎◌,
}

-- The producer inside `publish_prepared`. `scanning index generation next` has loaded the claim
-- words below `next` and found another generation in each.
pub data Producer : Type 0 where
  idle : Producer
  picked : ℕ → ℕ → Producer
  scanning : ℕ → ℕ → ℕ → Producer
  writing : ℕ → Producer
  live advertised : ℕ → Producer

-- A consumer thread inside `acquire`: cursor, resource index and claim word.
pub data Reader : Type 0 where
  resting : Reader
  selected : ℕ → ℕ → Reader
  claimed leased : ℕ → ℕ → ℕ → Reader

-- `content` stands for the descriptor and the payload bytes of a resource: the cursor of the frame
-- that was written whole, or any other value while they are torn.
pub record Arena : Type 0 where
  pub state : ℕ → ℕ
  pub content : ℕ → ℕ
  pub ring : ℕ → ℕ
  pub latest : ℕ
  pub claims : ℕ → ℕ
  pub cursor : ℕ
  pub producer : Producer
  pub readers : ℕ → Reader

abbrev pub update {ℓ} : {A : Type ℓ} → (ℕ → A) → ℕ → A → ℕ → A
update f i v j = if j == i then v else f j

-- `(cursor << 1) | 1` and `generation << 1`, and `state >> 1`.
abbrev pub live_word : ℕ → ℕ
live_word cursor = 2 * cursor + 1

abbrev pub retired_word : ℕ → ℕ
retired_word generation = 2 * generation

abbrev pub generation_of : ℕ → ℕ
generation_of word = word / 2

-- The oldest cursor that retained history still protects.
abbrev pub oldest : ℕ → ℕ → ℕ
oldest cursor history = max (cursor - (history - 1)) 1

-- The word of the publication ring that advertises a cursor, `(cursor - 1) % history`.
abbrev pub ring_word : ℕ → ℕ → ℕ
ring_word cursor history = (cursor - 1) % history

module _ (resources history words : ℕ) where
  -- One atomic access, or one plain write. Accesses that change nothing shared and only end an
  -- attempt are steps back to `idle` or `resting`.
  pub data Step (s u : Arena) : Type 0 where
    -- `resources.state(index).load`, outside retained history.
    pick :
        (i : ℕ)
        → s.producer ≡ idle
        → i < resources
        → ((generation_of (s.state i) ≡ 0) ⊎ (generation_of (s.state i) < oldest s.cursor history))
        → u ≡ record s { producer = picked i (generation_of (s.state i)) }
        → Step s u
    -- `resources.state(index).store(generation << 1)`.
    retire :
        (i g : ℕ)
        → s.producer ≡ picked i g
        → u ≡ record s { state = update s.state i (retired_word g); producer = scanning i g 0 }
        → Step s u
    -- One claim word of `claims.contains(generation)` that holds something else.
    scan :
        (i g k : ℕ)
        → s.producer ≡ scanning i g k
        → k < words
        → s.claims k ≢ g
        → u ≡ record s { producer = scanning i g (k + 1) }
        → Step s u
    -- A claim word that holds the generation: the resource is left retired.
    busy :
        (i g k : ℕ)
        → s.producer ≡ scanning i g k
        → k < words
        → s.claims k ≡ g
        → g ≢ 0
        → u ≡ record s { producer = idle }
        → Step s u
    -- `generation != 0 && ..` is false, or every claim word has been seen.
    clear :
        (i g k : ℕ)
        → s.producer ≡ scanning i g k
        → ((g ≡ 0) ⊎ (k ≡ words))
        → u ≡ record s { producer = writing i }
        → Step s u
    -- A plain write to descriptor or payload.
    scribble :
        (i v : ℕ)
        → s.producer ≡ writing i
        → u ≡ record s { content = update s.content i v }
        → Step s u
    -- The callback refused the resource.
    refuse : (i : ℕ) → s.producer ≡ writing i → u ≡ record s { producer = idle } → Step s u
    -- `resources.state(index).store((cursor << 1) | 1)`, the frame being whole.
    publish :
        (i : ℕ)
        → s.producer ≡ writing i
        → s.content i ≡ s.cursor + 1
        → u ≡ record s { state = update s.state i (live_word (s.cursor + 1)); producer = live i }
        → Step s u
    -- `control.ring(cursor).store(index + 1)`.
    advertise :
        (i : ℕ)
        → s.producer ≡ live i
        → u ≡ record s {
          ring = update s.ring (ring_word (s.cursor + 1) history) (i + 1);
          producer = advertised i;
        }
        → Step s u
    -- `control.word(LATEST).store(cursor)`, and the producer's own count.
    announce :
        (i : ℕ)
        → s.producer ≡ advertised i
        → u ≡ record s { latest = s.cursor + 1; cursor = s.cursor + 1; producer = idle }
        → Step s u
    -- `control.ring(cursor).load`.
    select :
        (t c i : ℕ)
        → s.readers t ≡ resting
        → 0 < c
        → s.ring (ring_word c history) ≡ i + 1
        → i < resources
        → u ≡ record s { readers = update s.readers t (selected c i) }
        → Step s u
    -- `slot.compare_exchange(0, cursor)` succeeds.
    claim :
        (t c i k : ℕ)
        → s.readers t ≡ selected c i
        → k < words
        → s.claims k ≡ 0
        → u
          ≡ record s { claims = update s.claims k c; readers = update s.readers t (claimed c i k) }
        → Step s u
    -- No claim word was free: `HoldingLimit`.
    limit :
        (t c i : ℕ)
        → s.readers t ≡ selected c i
        → u ≡ record s { readers = update s.readers t resting }
        → Step s u
    -- `map.state(index).load` is the live word of the cursor.
    validate :
        (t c i k : ℕ)
        → s.readers t ≡ claimed c i k
        → s.state i ≡ live_word c
        → u ≡ record s { readers = update s.readers t (leased c i k) }
        → Step s u
    -- `Claim::drop` after a miss, a closure or a reconfiguration.
    give_up :
        (t c i k : ℕ)
        → s.readers t ≡ claimed c i k
        → u ≡ record s { claims = update s.claims k 0; readers = update s.readers t resting }
        → Step s u
    -- The frame lease is dropped.
    release :
        (t c i k : ℕ)
        → s.readers t ≡ leased c i k
        → u ≡ record s { claims = update s.claims k 0; readers = update s.readers t resting }
        → Step s u

  pub data Reach (s : Arena) : Arena → Type 0 where
    here : Reach s s
    next : {t u : Arena} → Reach s t → Step t u → Reach s u

-- A new arena: nothing published, nothing claimed.
abbrev pub fresh : Arena
fresh = record {
  state = λ _. 0;
  content = λ _. 0;
  ring = λ _. 0;
  latest = 0;
  claims = λ _. 0;
  cursor = 0;
  producer = idle;
  readers = λ _. resting;
}
