-- ===== src/Codec/Tests.antt =====
-- Tests of the codec decision, and the instances at which its theorems are applied.
use jackstay.Base.{◌≤◌, ◌≡◌, ◌↔◌, refl, true, false}
use jackstay.Base.Result.{ok, err}
use jackstay.Codec.{
  require_444, prefer_444, Codec, hevc, Chroma, subsampled, CodecCapabilities, CodecDecision,
  DecisionError, pick, decide,
}
use jackstay.Codec.Choice.{usable, rank, decide_best, decide_refused}

abbrev laptop : CodecCapabilities
laptop = record {
  hevc_444_hardware = true;
  hevc_420_hardware = true;
  h264_444_hardware = false;
  h264_420_hardware = true;
}

abbrev phone : CodecCapabilities
phone = record {
  hevc_444_hardware = false;
  hevc_420_hardware = true;
  h264_444_hardware = false;
  h264_420_hardware = true;
}

abbrev choice : CodecDecision
choice = pick hevc subsampled "no hardware 4:4:4 on both ends; policy allows 4:2:0"

choice_lem : decide prefer_444 laptop phone ≡ ok choice
unfolding decide
choice_lem = refl

decide_best_example :
    (usable prefer_444 laptop phone choice.codec choice.chroma ≡ true)
    × ((codec : Codec) (chroma : Chroma)
        → usable prefer_444 laptop phone codec chroma ≡ true
        → rank codec chroma ≤ rank choice.codec choice.chroma)
decide_best_example = decide_best prefer_444 laptop phone choice choice_lem

decide_refused_example :
    ((e : DecisionError) × (decide require_444 laptop phone ≡ err e))
    ↔ ((codec : Codec) (chroma : Chroma) → usable require_444 laptop phone codec chroma ≡ false)
decide_refused_example = decide_refused require_444 laptop phone
