-- ===== src/Codec/Choice.antt =====
-- What the decision promises, said without its order of tests.
use jackstay.Base.{ℕ, ◌≤◌, ◌≡◌, ◌↔◌, refl, Bool, true, false, not, ◌&&◌, ◌||◌, arith}
use jackstay.Base.Result.{Result, ok, err}
use jackstay.Codec.{
  ChromaPolicy, Codec, hevc, h264, Chroma, subsampled, full, CodecCapabilities, CodecDecision,
  DecisionError, is_require, decide,
}

-- Whether one end has the hardware.
abbrev pub offers : CodecCapabilities → Codec → Chroma → Bool
offers c hevc full = c.hevc_444_hardware
offers c hevc subsampled = c.hevc_420_hardware
offers c h264 full = c.h264_444_hardware
offers c h264 subsampled = c.h264_420_hardware

abbrev pub is_full : Chroma → Bool
is_full full = true
is_full subsampled = false

-- A codec may be used: both ends have it and the policy allows its chroma.
abbrev pub usable : ChromaPolicy → CodecCapabilities → CodecCapabilities → Codec → Chroma → Bool
usable p egress ingress codec chroma =
    offers egress codec chroma
    && (offers ingress codec chroma && (is_full chroma || not (is_require p)))

-- Chroma counts before the codec, and HEVC before H.264.
abbrev pub rank : Codec → Chroma → ℕ
rank hevc full = 3
rank h264 full = 2
rank hevc subsampled = 1
rank h264 subsampled = 0

module _ (p : ChromaPolicy) (egress ingress : CodecCapabilities) where
  decided_usable :
      (d : CodecDecision)
      → decide p egress ingress ≡ ok d
      → usable p egress ingress d.codec d.chroma ≡ true
  unfolding decide
  decided_usable d h = ground arith

  decided_best :
      (d : CodecDecision) (codec : Codec) (chroma : Chroma)
      → decide p egress ingress ≡ ok d
      → usable p egress ingress codec chroma ≡ true
      → rank codec chroma ≤ rank d.codec d.chroma
  unfolding decide
  decided_best d hevc full h u = ground arith
  decided_best d h264 full h u = ground arith
  decided_best d hevc subsampled h u = ground arith
  decided_best d h264 subsampled h u = ground arith

  refused_unusable :
      (e : DecisionError) (codec : Codec) (chroma : Chroma)
      → decide p egress ingress ≡ err e
      → usable p egress ingress codec chroma ≡ false
  unfolding decide
  refused_unusable e hevc full h = ground arith
  refused_unusable e h264 full h = ground arith
  refused_unusable e hevc subsampled h = ground arith
  refused_unusable e h264 subsampled h = ground arith

  unusable_refused :
      ((codec : Codec) (chroma : Chroma) → usable p egress ingress codec chroma ≡ false)
      → (e : DecisionError) × (decide p egress ingress ≡ err e)
  unusable_refused h = settle (decide p egress ingress) refl
    where
      settle :
          (r : Result DecisionError CodecDecision)
          → decide p egress ingress ≡ r
          → (e : DecisionError) × (decide p egress ingress ≡ err e)
      settle (err e) k = (e, k)
      settle (ok d) k = absurd (clash (decided_usable d k) (h d.codec d.chroma))
        where
          clash : {b : Bool} → b ≡ true → b ≡ false → ⊥
          clash {b} u v = cc

  -- The decision is the best usable codec: what `decide` returns both ends have in hardware, the
  -- policy allows it, and no usable codec ranks above it. The ranking is one for all policies: 4:4:4
  -- before 4:2:0, and HEVC before H.264 at equal chroma; so under the policy `any`, too, 4:4:4 is
  -- what is chosen where both ends can, whatever it costs.
  pub decide_best :
      (d : CodecDecision)
      → decide p egress ingress ≡ ok d
      → (usable p egress ingress d.codec d.chroma ≡ true)
        × ((codec : Codec) (chroma : Chroma)
            → usable p egress ingress codec chroma ≡ true
            → rank codec chroma ≤ rank d.codec d.chroma)
  decide_best d h = (decided_usable d h, λ codec chroma u. decided_best d codec chroma h u)

  -- An export is refused only if it has to be: `decide` returns an error exactly when no codec is
  -- usable.
  pub decide_refused :
      ((e : DecisionError) × (decide p egress ingress ≡ err e))
      ↔ ((codec : Codec) (chroma : Chroma) → usable p egress ingress codec chroma ≡ false)
  decide_refused = (λ (e, h) codec chroma. refused_unusable e codec chroma h, unusable_refused)
