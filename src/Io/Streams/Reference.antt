-- ===== src/Io/Streams/Reference.antt =====
-- The classification of streams against an independent description of it.
use metamix.Base.{
  ℕ, suc, ◌+◌, ◌≤◌, List, [], ◌∷◌, ◌≡◌, refl, Bool, true, false, ◌&&◌, Option, none, some, arith,
  if◌then◌else◌, leb,
}
use metamix.Binary.Outcome.{Outcome, ok, runtime_error}
use metamix.Io.Streams.{
  StreamClassification, classify, Codec, h264, scte_35, other_codec, classify_from, time_source_of,
  classify_streams,
}

abbrev pub is_h264 : Codec → Bool
is_h264 h264 = true
is_h264 scte_35 = false
is_h264 other_codec = false

abbrev pub is_scte_35 : Codec → Bool
is_scte_35 h264 = false
is_scte_35 scte_35 = true
is_scte_35 other_codec = false

-- No stream that a test takes, and the stream of the first one that it takes, from number i on.
abbrev pub find_from : (Codec → Bool) → ℕ → List Codec → Option ℕ
find_from p i [] = none
find_from p i (c ∷ codecs) = if p c then some i else find_from p (suc i) codecs

abbrev pub how_many : (Codec → Bool) → List Codec → ℕ
how_many p [] = 0
how_many p (c ∷ codecs) = (if p c then 1 else 0) + how_many p codecs

abbrev taken : Option ℕ → ℕ
taken none = 0
taken (some idx) = 1

abbrev pub or_found : Option ℕ → Option ℕ → Option ℕ
or_found none found = found
or_found (some idx) found = some idx

abbrev reference_from : ℕ → List Codec → StreamClassification → Outcome StreamClassification
reference_from i codecs sc =
    if leb (taken sc.sei + how_many is_h264 codecs) 1
      && leb (taken sc.scte + how_many is_scte_35 codecs) 1
    then ok (record {
      time_source = sc.time_source;
      sei = or_found sc.sei (find_from is_h264 i codecs);
      scte = or_found sc.scte (find_from is_scte_35 i codecs);
    })
    else runtime_error

classify_from-eq :
    (i : ℕ) (codecs : List Codec) (time_source sei scte : Option ℕ)
    → let sc : StreamClassification = record {
      time_source = time_source;
      sei = sei;
      scte = scte;
    } in
      (taken sei ≤ 1) × (taken scte ≤ 1)
      → classify_from false i codecs sc ≡ reference_from i codecs sc
unfolding classify_from classify
classify_from-eq i [] time_source none none h = refl
classify_from-eq i [] time_source none (some b) h = refl
classify_from-eq i [] time_source (some a) none h = refl
classify_from-eq i [] time_source (some a) (some b) h = refl
classify_from-eq i (h264 ∷ codecs) time_source none scte h =
    ground (arith, classify_from-eq (suc i) codecs time_source (some i) scte)
classify_from-eq i (h264 ∷ codecs) time_source (some a) scte h = ground arith
classify_from-eq i (scte_35 ∷ codecs) time_source sei none h =
    ground (arith, classify_from-eq (suc i) codecs time_source sei (some i))
classify_from-eq i (scte_35 ∷ codecs) time_source sei (some b) h = ground arith
classify_from-eq i (other_codec ∷ codecs) time_source sei scte h =
    ground (arith, classify_from-eq (suc i) codecs time_source sei scte h)

-- At most one stream of H.264 and one of SCTE-35: then these, and the H.264 stream or else the best
-- video stream as time source.
abbrev pub reference : List Codec → Option ℕ → Outcome StreamClassification
reference codecs best_video =
    if leb (how_many is_h264 codecs) 1 && leb (how_many is_scte_35 codecs) 1
    then ok (record {
      time_source = or_found (find_from is_h264 0 codecs) best_video;
      sei = find_from is_h264 0 codecs;
      scte = find_from is_scte_35 0 codecs;
    })
    else runtime_error

time_source_of-eq :
    (sei best_video : Option ℕ) → time_source_of sei best_video ≡ or_found sei best_video
unfolding time_source_of
time_source_of-eq none best_video = refl
time_source_of-eq (some sei) best_video = refl

-- Outside MPEG-TS, the classification of the streams throws exactly if two of them are H.264 or two
-- are SCTE-35, and else finds the one H.264 stream and the one SCTE-35 stream, if there are any, and
-- as time source the H.264 stream or, without one, the best video stream.
pub classify_streams-eq :
    (codecs : List Codec) (best_video : Option ℕ)
    → classify_streams false codecs best_video ≡ reference codecs best_video
unfolding classify_streams
classify_streams-eq codecs best_video = ground (
  arith,
  classify_from-eq 0 codecs none none none (omega arith, omega arith),
  time_source_of-eq (find_from is_h264 0 codecs) best_video,
)
