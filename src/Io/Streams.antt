-- ===== src/Io/Streams.antt =====
-- src/io/stream_classification.h and IOHandle::classify_streams of src/io/io_handle.cpp. What FFmpeg
-- says of the streams is an argument: the kind of each codec, and the best video stream.
pub mod Reference
mod Tests
use metamix.Base.{ℕ, suc, List, [], ◌∷◌, Bool, true, false, Option, none, some}
use metamix.Base.{◌==◌}
use metamix.Binary.Outcome.{Outcome, ok, runtime_error, bind}

pub record StreamClassification : Type 0 where
  pub time_source : Option ℕ
  pub sei : Option ℕ
  pub scte : Option ℕ

abbrev pub unclassified : StreamClassification
unclassified = record { time_source = none; sei = none; scte = none }

-- classify, on the field of its kind: a kind that is registered already is refused.
unfoldable pub classify : ℕ → Option ℕ → Outcome (Option ℕ)
classify idx none = ok (some idx)
classify idx (some _) = runtime_error

-- The codecs that the classification tells apart.
pub data Codec : Type 0 where
  h264 scte_35 other_codec : Codec

-- The loop over the streams from number `i` on. H.264 inside MPEG-TS is left out.
unfoldable pub classify_from :
    Bool → ℕ → List Codec → StreamClassification → Outcome StreamClassification
classify_from is_mpegts i [] sc = ok sc
classify_from true i (h264 ∷ codecs) sc = classify_from true (suc i) codecs sc
classify_from false i (h264 ∷ codecs) sc =
    bind (classify i sc.sei) λ sei. classify_from false (suc i) codecs (record sc { sei = sei })
classify_from is_mpegts i (scte_35 ∷ codecs) sc =
    bind (classify i sc.scte)
      λ scte. classify_from is_mpegts (suc i) codecs (record sc { scte = scte })
classify_from is_mpegts i (other_codec ∷ codecs) sc = classify_from is_mpegts (suc i) codecs sc

-- The choice of the time source; `best_video` is av_find_best_stream's stream, if it finds one.
unfoldable pub time_source_of : Option ℕ → Option ℕ → Option ℕ
time_source_of none best_video = best_video
time_source_of (some sei) best_video = some sei

unfoldable pub classify_streams : Bool → List Codec → Option ℕ → Outcome StreamClassification
classify_streams is_mpegts codecs best_video =
    bind (classify_from is_mpegts 0 codecs unclassified)
      λ sc. ok (record sc { time_source = time_source_of sc.sei best_video })

-- has<K>
abbrev pub has : Option ℕ → Bool
has none = false
has (some idx) = true

-- require<K>
unfoldable pub require : Option ℕ → Outcome (Unit {0})
require none = runtime_error
require (some idx) = ok tt

-- pkt->stream_index == sc.index<K>()
abbrev pub is_stream : ℕ → Option ℕ → Bool
is_stream stream_index none = false
is_stream stream_index (some idx) = stream_index == idx
