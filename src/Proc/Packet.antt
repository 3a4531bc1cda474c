-- ===== src/Proc/Packet.antt =====
-- What the processors of src/proc see of FFmpeg's AVPacket, and what their classes share.
use metamix.Base.{ℕ, ◌+◌, ◌-◌, List, Option, none, some}
use metamix.Base.Int.{ℤ, pos, negsuc}
use metamix.Binary.Outcome.{Outcome, fault}

-- AVPacket: the bytes from data to data + size, and the timestamps.
pub record Packet : Type 0 where
  pub bytes : List ℕ
  pub pts : ℤ
  pub dts : ℤ

-- A 64-bit timestamp by its distance from the smallest one, as in MetadataQueue.
abbrev pub stamp : ℤ → ℕ
stamp (pos n) = 9_223_372_036_854_775_808 + n
stamp (negsuc n) = 9_223_372_036_854_775_807 - n

-- How an extraction loop ended.
abbrev pub ending : Option (Outcome (Unit {0})) → Outcome (Unit {0})
ending none = fault
ending (some r) = r
