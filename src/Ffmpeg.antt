-- ===== src/Ffmpeg.antt =====
-- ff::AVPacketRef of src/ffmpeg.h and src/ffmpeg.cpp: packets that hold a reference on a buffer. An
-- AVPacket is a value of the type Q, and FFmpeg's allocations are a state W: its calls on them are
-- parameters. Each method says whether it throws.
pub mod References
mod Tests
use metamix.Base.{ℕ, List, [], ◌∷◌, ◌++◌, ◌≡◌, Bool, true, false}

pub record PacketCalls (W Q : Type 0) : Type 0 where
  -- What av_init_packet and the initialiser `{}` make.
  pub blank : Q
  -- av_packet_ref on its source: whether it succeeds, and the destination, which it overwrites.
  pub av_packet_ref : Q → W → Bool × (Q × W)
  pub av_packet_unref : Q → W → Q × W

-- What a method leaves: whether it throws, the object itself, and FFmpeg's state.
pub record Left (W Q : Type 0) : Type 0 where
  pub threw : Bool
  pub packet : Q
  pub world : W

-- The same of an assignment from another object, which it may change.
pub record Assigned (W Q : Type 0) : Type 0 where
  pub threw : Bool
  pub packet : Q
  pub other : Q
  pub world : W

module _ {W Q : Type 0} (ff : PacketCalls W Q) where
  abbrev pub referenced : Bool × (Q × W) → Left W Q
  referenced (true, (packet, w)) = record { threw = false; packet = packet; world = w }
  referenced (false, (packet, w)) = record { threw = true; packet = packet; world = w }

  -- The constructors from a packet and from another AVPacketRef.
  unfoldable pub construct : Q → W → Left W Q
  construct source w = referenced (ff.av_packet_ref source w)

  -- operator=(const AVPacketRef &), for `this != &rhs`.
  unfoldable pub copy_assign : Q → Q → W → Left W Q
  copy_assign lhs rhs w = construct rhs (ff.av_packet_unref lhs w).1

  abbrev pub moved : Q → Q → Bool × (Q × W) → Assigned W Q
  moved old rhs (false, (packet, w)) = record {
    threw = true;
    packet = packet;
    other = rhs;
    world = w;
  }
  moved old rhs (true, (packet, w)) =
      let w' = (ff.av_packet_unref old w).1 in
      record {
        threw = false;
        packet = packet;
        other = (ff.av_packet_unref rhs w').0;
        world = (ff.av_packet_unref rhs w').1;
      }

  -- operator=(AVPacketRef &&), for `this != &rhs`: the old packet is given back behind the new
  -- reference.
  unfoldable pub move_assign : Q → Q → W → Assigned W Q
  move_assign lhs rhs w = moved lhs rhs (ff.av_packet_ref rhs w)

  -- The defaulted move constructor copies the AVPacket: the new object, and the one moved from.
  unfoldable pub move_construct : Q → Q × Q
  move_construct other = (other, other)

  -- The destructor
  unfoldable pub destroy : Q → W → W
  destroy packet w = (ff.av_packet_unref packet w).1

-- What a function does with its objects, which are the list: it declares one, constructs one from any
-- packet or by the move constructor, assigns to one by copy from any, by move from another, whether
-- that throws or not, or destroys one. A constructor that throws leaves no object.
pub data Use {W Q : Type 0} (ff : PacketCalls W Q) : List Q × W → List Q × W → Type 0 where
  declared : (packets : List Q) (w : W) → Use ff (packets, w) (ff.blank ∷ packets, w)
  constructed :
      (packets : List Q) (source : Q) (w : W)
      → (construct ff source w).threw ≡ false
      → Use ff
          (packets, w)
          ((construct ff source w).packet ∷ packets, (construct ff source w).world)
  not_constructed :
      (packets : List Q) (source : Q) (w : W)
      → (construct ff source w).threw ≡ true
      → Use ff (packets, w) (packets, (construct ff source w).world)
  move_constructed :
      (before behind : List Q) (other : Q) (w : W)
      → Use ff
          (before ++ (other ∷ behind), w)
          ((move_construct ff other).0 ∷ (before ++ ((move_construct ff other).1 ∷ behind)), w)
  copied :
      (before behind : List Q) (lhs rhs : Q) (w : W)
      → Use ff
          (before ++ (lhs ∷ behind), w)
          (before ++ ((copy_assign ff lhs rhs w).packet ∷ behind), (copy_assign ff lhs rhs w).world)
  moved_up :
      (before between behind : List Q) (lhs rhs : Q) (w : W)
      → Use ff
          (before ++ (lhs ∷ (between ++ (rhs ∷ behind))), w)
          (
            before
                ++ ((move_assign ff lhs rhs w).packet
                    ∷ (between ++ ((move_assign ff lhs rhs w).other ∷ behind))),
            (move_assign ff lhs rhs w).world,
          )
  moved_down :
      (before between behind : List Q) (lhs rhs : Q) (w : W)
      → Use ff
          (before ++ (rhs ∷ (between ++ (lhs ∷ behind))), w)
          (
            before
                ++ ((move_assign ff lhs rhs w).other
                    ∷ (between ++ ((move_assign ff lhs rhs w).packet ∷ behind))),
            (move_assign ff lhs rhs w).world,
          )
  destroyed :
      (before behind : List Q) (packet : Q) (w : W)
      → Use ff (before ++ (packet ∷ behind), w) (before ++ behind, destroy ff packet w)

pub data Uses {W Q : Type 0} (ff : PacketCalls W Q) (s : List Q × W) : List Q × W → Type 0 where
  here : Uses ff s s
  next : {t u : List Q × W} → Uses ff s t → Use ff t u → Uses ff s u
