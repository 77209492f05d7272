-- ===== src/Codec.antt =====
-- The codec decision of crates/jackstay-graph/src/lib.rs: which codec an export uses between two ends.
pub mod Choice
mod Tests
use Prim.Native.String.{String}
use jackstay.Base.{Bool, true, false, ◌&&◌, if◌then◌else◌}
use jackstay.Base.Result.{Result, ok, err}

pub data ChromaPolicy : Type 0 where
  require_444 prefer_444 any : ChromaPolicy

pub data Codec : Type 0 where
  hevc h264 : Codec

-- 4:2:0 and 4:4:4.
pub data Chroma : Type 0 where
  subsampled full : Chroma

pub record CodecCapabilities : Type 0 where
  pub hevc_444_hardware : Bool
  pub hevc_420_hardware : Bool
  pub h264_444_hardware : Bool
  pub h264_420_hardware : Bool

pub record CodecDecision : Type 0 where
  pub codec : Codec
  pub chroma : Chroma
  pub hardware : Bool
  pub reason : String

pub data DecisionError : Type 0 where
  require_444_unmet no_common_codec : CodecCapabilities → CodecCapabilities → DecisionError

abbrev pub is_require : ChromaPolicy → Bool
is_require require_444 = true
is_require prefer_444 = false
is_require any = false

-- The closure `pick`.
abbrev pub pick : Codec → Chroma → String → CodecDecision
pick codec chroma reason = record {
  codec = codec;
  chroma = chroma;
  hardware = true;
  reason = reason;
}

unfoldable pub decide :
    ChromaPolicy → CodecCapabilities → CodecCapabilities → Result DecisionError CodecDecision
decide policy egress ingress =
    if egress.hevc_444_hardware && ingress.hevc_444_hardware
    then ok (pick hevc full "hardware HEVC 4:4:4 on both ends")
    else if egress.h264_444_hardware && ingress.h264_444_hardware
    then ok (pick h264 full "hardware H.264 4:4:4 on both ends; HEVC 4:4:4 missing on one end")
    else if is_require policy
    then err (require_444_unmet egress ingress)
    else if egress.hevc_420_hardware && ingress.hevc_420_hardware
    then ok (pick hevc subsampled "no hardware 4:4:4 on both ends; policy allows 4:2:0")
    else if egress.h264_420_hardware && ingress.h264_420_hardware
    then ok (pick h264 subsampled "no hardware 4:4:4 or HEVC on both ends; policy allows 4:2:0")
    else err (no_common_codec egress ingress)
