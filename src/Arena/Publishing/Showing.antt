-- ===== src/Arena/Publishing/Showing.antt =====
-- What a published frame looks like in the maps (`publish_prepared` of
-- crates/jackstay/src/acquisition/arena.rs).
use jackstay.Base.{
  ℕ, ◌+◌, ◌*◌, if◌then◌else◌, ◌≤◌, ◌<◌, ◌≡◌, refl, sym, subst, inl, inr, Option, none, some, List,
  length, arith, Bool-cases, ltb, ◌==◌, ==_refl,
}
use jackstay.Base.Bytes.{slice, slice-copy_to}
use jackstay.Arena.Layout.{payload_offset}
use jackstay.Base.Result.{Outcome, Result, ok, err}
use jackstay.Protocol.{live_word, ring_word}
use jackstay.Arena.{
  ArenaError, ArenaProducer, Environment, FrameDescriptor, PublishOutcome, published, ResourceMap,
  max_generation,
}
use jackstay.Arena.Collecting.{poll_cleanup}
use jackstay.Arena.Selecting.Rounds.{select-Same, select-chosen-IsFree, select-offered}
use jackstay.Arena.Publishing.{
  copied, stamped, written, advertised, deliver, publish_found, publish_into, publish_polled,
  publish_prepared, publish,
}
use jackstay.Arena.Publishing.Invariant.{
  IsSound, IsInstalled, Installed, poll_cleanup-IsSound, publish_polled_cases,
}

-- The caller's descriptor as consumers are to see it: the arena fills in the identity, the place and
-- the size of the frame, and the host's time where the caller gave none; the rest is the caller's.
abbrev pub labelled : Environment → ResourceMap → ℕ → ℕ → ℕ → FrameDescriptor → FrameDescriptor
labelled env map index x len d = record d {
  cursor = x;
  slot_id = index;
  config_generation = map.generation;
  payload_offset = map.layout.payload + index * map.layout.payload_capacity;
  payload_len = len;
  timestamp_ns = if d.timestamp_ns == 0 then env.host_time_ns else d.timestamp_ns;
}

-- Cursor `x` is announced, its ring word names a live resource, and that resource has the caller's
-- descriptor, and the bytes at the place that the descriptor names.
pub record Shows (env : Environment) (p : ArenaProducer) (x : ℕ) (d : FrameDescriptor)
    (bytes : List ℕ) (map : ResourceMap) (index : ℕ) : Type 0 where
  pub installed : p.resources ≡ some map
  pub started : 0 < x
  pub latest : p.control.latest ≡ x
  pub ring : p.control.ring (ring_word x p.control.history) ≡ index + 1
  pub in_map : index < map.layout.resources
  pub live : map.state index ≡ live_word x
  pub descriptor : map.descriptor index ≡ labelled env map index x (length bytes) d
  pub content :
      slice map.storage (map.layout.payload + index * map.layout.payload_capacity) (length bytes)
      ≡ bytes

abbrev Shown :
    Environment
    → FrameDescriptor
    → List ℕ
    → Outcome ArenaProducer ArenaError PublishOutcome
    → Type 0
Shown env d bytes o =
    (x : ℕ)
    → o.1 ≡ ok (published x)
    → (m : ResourceMap) × (index : ℕ) × Shows env o.0 x d bytes m index
      × (length bytes ≤ m.layout.payload_capacity)

deliver-published :
    (env : Environment) (p : ArenaProducer) (map : ResourceMap) (index : ℕ) (d : FrameDescriptor)
    (x : ℕ)
    → (deliver env p map index d).1 ≡ ok (published x)
    → x ≡ p.cursor + 1
unfolding deliver
deliver-published env p map index d x e = ground arith

-- The allocation with the frame in it.
abbrev pub shown_map : Environment → ResourceMap → ℕ → ℕ → FrameDescriptor → List ℕ → ResourceMap
shown_map env map index x d bytes = written (copied map index bytes) index x (
    stamped env (copied map index bytes) index x (length bytes)
      (record d { payload_len = length bytes }))

pub deliver-Shows :
    (env : Environment) (p : ArenaProducer) (map : ResourceMap) (index : ℕ) (d : FrameDescriptor)
    (bytes : List ℕ)
    → index < map.layout.resources
    → Shows env
        (deliver env p (copied map index bytes) index (record d { payload_len = length bytes })).0
        (p.cursor + 1)
        d
        bytes
        (shown_map env map index (p.cursor + 1) d bytes)
        index
unfolding deliver copied written advertised stamped payload_offset
deliver-Shows env p map index d bytes h = record {
  installed = refl;
  started = omega arith;
  latest = refl;
  ring = rw (==_refl (ring_word (p.cursor + 1) p.control.history)) refl;
  in_map = h;
  live = rw (==_refl index) refl;
  descriptor = rw (==_refl index) refl;
  content = slice-copy_to map.storage _ bytes;
}

module _ (env : Environment) where
  publish_found-Shown :
      (p : ArenaProducer) (map : ResourceMap) (bytes : List ℕ) (d : FrameDescriptor)
      (found : ResourceMap × Result ArenaError (Option (ℕ × FrameDescriptor)))
      → length bytes ≤ map.layout.payload_capacity
      → found.0.layout ≡ map.layout
      → ((i : ℕ) (c : FrameDescriptor)
          → found.1 ≡ ok (some (i, c))
          → (i < map.layout.resources) × (c ≡ d))
      → Shown env d bytes (publish_found env p bytes found)
  unfolding publish_found written copied
  publish_found-Shown p map bytes d (next, err e) fits s h x r = cc
  publish_found-Shown p map bytes d (next, ok none) fits s h x r = cc
  publish_found-Shown p map bytes d (next, ok (some (index, c))) fits s h x r =
      let (k, same) = h index c refl in
      let now =
        deliver-published env p (copied next index bytes) index
          (record c { payload_len = length bytes }) x r in
      let q : ArenaProducer =
        (deliver env p (copied next index bytes) index
          (record c { payload_len = length bytes })).0 in
      let m : ResourceMap = shown_map env next index (p.cursor + 1) c bytes in
      let shows : Shows env q (p.cursor + 1) c bytes m index =
        deliver-Shows env p next index c bytes (rw s k) in
      (
        m,
        index,
        subst (λ (y : ℕ). Shows env q y d bytes m index) (sym now)
            (subst (λ (e : FrameDescriptor). Shows env q (p.cursor + 1) e bytes m index) same
              shows),
        rw s fits,
      )

  publish_into-Shown :
      (p : ArenaProducer) (map : ResourceMap) (bytes : List ℕ) (d : FrameDescriptor)
      → 0 < map.layout.resources
      → Shown env d bytes (publish_into env p map bytes (λ i g. ok (some d)))
  unfolding publish_into
  publish_into-Shown p map bytes d pos =
      elim (Bool-cases (ltb map.layout.payload_capacity (length bytes))) [
        | inl large ↦ rw large (λ x r. cc)
        | inr fits ↦ elim (Bool-cases (p.cursor == max_generation)) [
          | inl last ↦ rw (fits, publish_into, last) (λ x r. cc)
          | inr more ↦
              rw (fits, publish_into, more)
                (publish_found-Shown p map bytes d _ (ground arith)
                  (select-Same p.incarnations p.cursor p.next_slot (λ i g. ok (some d))
                    map.layout.resources 0 map).layout
                  (λ i c found.
                    let (k, free) =
                      select-chosen-IsFree p.incarnations p.cursor p.next_slot (λ i g. ok (some d))
                        map.layout.resources 0 map i c pos found in
                    let (j, g, given) =
                      select-offered p.incarnations p.cursor p.next_slot (λ i g. ok (some d))
                        map.layout.resources 0 map i c found in
                    (k, cc)))
        ]
      ]

  publish_polled-Shown :
      (polled : Outcome ArenaProducer ArenaError ℕ) (bytes : List ℕ) (d : FrameDescriptor)
      → IsSound polled.0
      → Shown env d bytes (publish_polled env polled bytes (λ i g. ok (some d)))
  unfolding publish_polled
  publish_polled-Shown (p, err e) bytes d v = λ x r. cc
  publish_polled-Shown (p, ok released) bytes d v =
      publish_polled_cases env (Shown env d bytes) p released bytes (λ i g. ok (some d))
        (λ gone x r. cc)
        (λ map there.
          let now : IsInstalled map p.admission p.cursor p.next_slot =
            subst (λ o. Installed o p.pending_layout p.admission p.cursor p.next_slot) there
              v.installed in
          publish_into-Shown p map bytes d (omega (arith, now.next)))

  pub publish-Shown :
      (p : ArenaProducer) (bytes : List ℕ) (d : FrameDescriptor)
      → IsSound p
      → Shown env d bytes (publish env p d bytes)
  unfolding publish publish_prepared
  publish-Shown p bytes d v = elim (Bool-cases (p.control.terminal == 0)) [
    | inl t ↦
        rw t (publish_polled-Shown (poll_cleanup env p) bytes d (poll_cleanup-IsSound env p v))
    | inr t ↦ rw t (λ x r. cc)
  ]
