-- ===== src/Arena/Selecting.antt =====
-- How the producer finds a resource that it may write: the loop that `publish_prepared`
-- (crates/jackstay/src/acquisition/arena.rs) and `reserve` (arena/writer.rs) share.
pub mod Rounds
pub mod Progress
use jackstay.Base.{
  ℕ, zero, suc, ◌+◌, ◌-◌, ◌%◌, Bool, true, false, not, ◌&&◌, ◌||◌, Option, none, some, List, [],
  ◌∷◌, leb, ◌==◌, if◌then◌else◌,
}
use jackstay.Base.Dict.{Dict}
use jackstay.Base.Result.{Result, ok, err}
use jackstay.Protocol.{update, retired_word, generation_of, oldest}
use jackstay.Arena.{ArenaError, ResourceMap, Incarnation}
use jackstay.Arena.Claims.{contains}

-- `self.claims.values().any(|claims| claims.contains(generation))`.
unfoldable pub any_contains : Dict Incarnation → ℕ → Bool
any_contains [] generation = false
any_contains ((k, s) ∷ m) generation = contains s.claims generation || any_contains m generation

-- A resource is outside retained history once its generation is zero or older than the oldest one.
unfoldable pub is_retained : ResourceMap → ℕ → ℕ → Bool
is_retained map cursor index =
    not (generation_of (map.state index) == 0)
    && leb (oldest cursor map.layout.history) (generation_of (map.state index))

module _ {A : Type 0} (claims : Dict Incarnation) (cursor next_slot : ℕ) where
  -- What the callback says of a resource, kept with its index.
  unfoldable pub offered :
      ResourceMap
      → ℕ
      → Result ArenaError (Option A)
      → ResourceMap × Result ArenaError (Option (ℕ × A))
  offered map index (err e) = (map, err e)
  offered map index (ok none) = (map, ok none)
  offered map index (ok (some a)) = (map, ok (some (index, a)))

  -- One round of the loop. The resource is retired before the claims are scanned.
  unfoldable pub consider :
      (ℕ → ℕ → Result ArenaError (Option A))
      → ResourceMap
      → ℕ
      → ResourceMap × Result ArenaError (Option (ℕ × A))
  consider prepare map index =
      let generation = generation_of (map.state index) in
      let retired = record map { state = update map.state index (retired_word generation) } in
      if map.reserved index || is_retained map cursor index
      then (map, ok none)
      else if not (generation == 0) && any_contains claims generation
      then (retired, ok none)
      else offered retired index (prepare index generation)

  -- The rounds that are left, from an offset to `next_slot` on.
  unfoldable pub select :
      (ℕ → ℕ → Result ArenaError (Option A))
      → ℕ
      → ℕ
      → ResourceMap
      → ResourceMap × Result ArenaError (Option (ℕ × A))
  select prepare zero offset map = (map, ok none)
  select prepare (suc n) offset map =
      let (map', found) = consider prepare map ((next_slot + offset) % map.layout.resources) in
      let rest = select prepare n (suc offset) map' in
      elim found [
        | ok o ↦ elim o [ none ↦ rest | some chosen ↦ (map', ok (some chosen)) ]
        | err e ↦ (map', err e)
      ]
