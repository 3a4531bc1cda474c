-- ===== src/Io/Streams/Tests.antt =====
-- The classification of three streams.
use metamix.Base.{List, [], ◌∷◌, ◌≡◌, some, false}
use metamix.Io.Streams.{h264, scte_35, other_codec, Codec, classify_streams}
use metamix.Io.Streams.Reference.{reference, classify_streams-eq}

abbrev codecs : List Codec
codecs = other_codec ∷ h264 ∷ scte_35 ∷ []

classify_streams-eq_example : classify_streams false codecs (some 1) ≡ reference codecs (some 1)
classify_streams-eq_example = classify_streams-eq codecs (some 1)
