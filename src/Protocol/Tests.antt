-- ===== src/Protocol/Tests.antt =====
-- One publication, one acquisition, and the producer at work on the other resource meanwhile.
use jackstay.Base.{ℕ, ◌+◌, ◌<◌, ◌≡◌, ◌≢◌, refl, arith, inl}
use jackstay.Protocol.{
  Arena, writing, leased, claimed, update, pick, retire, clear, scribble, publish, advertise,
  announce, selected, generation_of, select, claim, validate, Reach, here, next, fresh, live_word,
}
use jackstay.Base.{some}
use jackstay.Protocol.Invariant.{held, wanted}
use jackstay.Protocol.Safety.{writing-excludes-leased, leased_intact, claims_apart}
use jackstay.Protocol.Retention.{retained_lem}

abbrev Run : Arena → Type 0
Run = Reach 2 1 2 fresh

abbrev filled : Arena
filled = record fresh {
  state = update (update fresh.state 0 0) 0 3;
  content = update fresh.content 0 1;
  ring = update fresh.ring 0 1;
  latest = 1;
  cursor = 1;
}

filled-Run : Run filled
filled-Run =
    next
      (next
        (next
          (next
            (next
              (next (next here (pick 0 refl (omega arith) (inl refl) refl)) (retire 0 0 refl refl))
              (clear 0 0 0 refl (inl refl) refl))
            (scribble 0 1 refl refl))
          (publish 0 refl refl refl))
        (advertise 0 refl refl))
      (announce 0 refl refl)

abbrev held_once : Arena
held_once = record filled {
  claims = update filled.claims 0 1;
  readers =
      update (update (update filled.readers 0 (selected 1 0)) 0 (claimed 1 0 0)) 0 (leased 1 0 0);
}

held_once-Run : Run held_once
held_once-Run =
    next
      (next (next filled-Run (select 0 1 0 refl (omega arith) refl (omega arith) refl))
        (claim 0 1 0 0 refl (omega arith) refl refl))
      (validate 0 1 0 0 refl refl refl)

abbrev rewriting : Arena
rewriting = record held_once { state = update held_once.state 1 0; producer = writing 1 }

rewriting-Run : Run rewriting
rewriting-Run =
    next
      (next (next held_once-Run (pick 1 refl (omega arith) (inl refl) refl)) (retire 1 0 refl refl))
      (clear 1 0 0 refl (inl refl) refl)

writing-excludes-leased_example : ◌≢◌ {A = ℕ} 0 1
writing-excludes-leased_example = writing-excludes-leased 2 1 2 0 1 1 0 0 rewriting-Run refl refl

leased_intact_example :
    (rewriting.content 0 ≡ 1)
    × (generation_of (rewriting.state 0) ≡ 1)
    × (rewriting.claims 0 ≡ 1)
    × (0 < 1)
leased_intact_example = leased_intact 2 1 2 0 1 0 0 rewriting-Run refl

claims_apart_example :
    (rewriting.claims 0 ≡ wanted (rewriting.readers 0))
    × (0 < wanted (rewriting.readers 0))
    × (held (rewriting.readers 1) ≢ some 0)
claims_apart_example = claims_apart 2 1 2 0 1 0 rewriting-Run (omega arith) refl

retained_lem_example :
    (i : ℕ) × (i < 2)
    × (held_once.ring 0 ≡ i + 1)
    × (held_once.state i ≡ live_word 1)
    × (held_once.content i ≡ 1)
retained_lem_example =
    retained_lem 2 1 2 (omega arith) 1 held_once-Run refl (omega arith) (omega arith) (omega arith)
