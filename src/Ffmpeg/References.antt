-- ===== src/Ffmpeg/References.antt =====
-- Whether every reference is given back once.
use metamix.Base.{ℕ, ◌+◌, ◌-◌, ◌≤◌, List, [], ◌∷◌, ◌++◌, ◌≡◌, refl, Bool, true, false, arith}
use metamix.Ffmpeg.{
  PacketCalls, referenced, construct, copy_assign, moved, move_assign, move_construct, destroy, Use,
  declared, constructed, not_constructed, move_constructed, copied, moved_up, moved_down, destroyed,
  Uses, here, next,
}

module _ {W Q : Type 0} (ff : PacketCalls W Q) (owned : Q → ℕ) (live : W → ℕ) where
  -- What FFmpeg documents, on the references that are live and those that a packet holds: a blank
  -- packet holds none; av_packet_ref makes those that it leaves with its destination, which is blank
  -- if the call failed; av_packet_unref gives back what the packet holds.
  pub record IsCounted : Type 0 where
    pub blank : owned ff.blank ≡ 0
    pub ref_live :
        (q : Q) (w : W)
        → live (ff.av_packet_ref q w).1.1 ≡ live w + owned (ff.av_packet_ref q w).1.0
    pub ref_failed :
        (q : Q) (w : W) → (ff.av_packet_ref q w).0 ≡ false → owned (ff.av_packet_ref q w).1.0 ≡ 0
    pub unref_owned : (q : Q) (w : W) → owned (ff.av_packet_unref q w).0 ≡ 0
    pub unref_live : (q : Q) (w : W) → live (ff.av_packet_unref q w).1 ≡ live w - owned q

  abbrev pub total : List Q → ℕ
  total [] = 0
  total (q ∷ qs) = owned q + total qs

  total-append : (qs rs : List Q) → total (qs ++ rs) ≡ total qs + total rs
  total-append [] rs = omega arith
  total-append (q ∷ qs) rs = omega (arith, total-append qs rs)

  total-two :
      (before : List Q) (p : Q) (between : List Q) (q : Q) (behind : List Q)
      → total (before ++ (p ∷ (between ++ (q ∷ behind))))
        ≡ total before + owned p + total between + owned q + total behind
  total-two before p between q behind = omega (
    arith,
    total-append before (p ∷ (between ++ (q ∷ behind))),
    total-append between (q ∷ behind),
  )

  -- Move constructions from an object without a reference, and move assignments that throw only where
  -- the object assigned to holds none.
  abbrev pub IsSafe : {s t : List Q × W} → Use ff s t → Type 0
  IsSafe (declared packets w) = Unit
  IsSafe (constructed packets source w done) = Unit
  IsSafe (not_constructed packets source w threw) = Unit
  IsSafe (move_constructed before behind other w) = owned other ≡ 0
  IsSafe (copied before behind lhs rhs w) = Unit
  IsSafe (moved_up before between behind lhs rhs w) =
      (move_assign ff lhs rhs w).threw ≡ true → owned lhs ≡ 0
  IsSafe (moved_down before between behind lhs rhs w) =
      (move_assign ff lhs rhs w).threw ≡ true → owned lhs ≡ 0
  IsSafe (destroyed before behind packet w) = Unit

  abbrev pub AreSafe : {s t : List Q × W} → Uses ff s t → Type 0
  AreSafe here = Unit
  AreSafe (next path step) = AreSafe path × IsSafe step

  module _ (laws : IsCounted) where
    referenced-live :
        (r : Bool × (Q × W)) (n : ℕ)
        → live r.1.1 ≡ n + owned r.1.0
        → live (referenced ff r).world ≡ n + owned (referenced ff r).packet
    referenced-live (true, (packet, w')) n e = e
    referenced-live (false, (packet, w')) n e = e

    construct-live :
        (source : Q) (w : W)
        → live (construct ff source w).world ≡ live w + owned (construct ff source w).packet
    unfolding construct
    construct-live source w =
        referenced-live (ff.av_packet_ref source w) (live w) (laws.ref_live source w)

    not_constructed-live :
        (r : Bool × (Q × W)) (n : ℕ)
        → live r.1.1 ≡ n + owned r.1.0
        → (r.0 ≡ false → owned r.1.0 ≡ 0)
        → (referenced ff r).threw ≡ true
        → live (referenced ff r).world ≡ n
    not_constructed-live (true, (packet, w')) n e none threw = cc
    not_constructed-live (false, (packet, w')) n e none threw = omega (arith, none refl)

    construct_threw-live :
        (source : Q) (w : W)
        → (construct ff source w).threw ≡ true
        → live (construct ff source w).world ≡ live w
    unfolding construct
    construct_threw-live source w threw =
        not_constructed-live (ff.av_packet_ref source w) (live w) (laws.ref_live source w)
          (laws.ref_failed source w) threw

    copy_assign-live :
        (lhs rhs : Q) (w : W)
        → owned lhs ≤ live w
        → live (copy_assign ff lhs rhs w).world + owned lhs
          ≡ live w + owned (copy_assign ff lhs rhs w).packet
    unfolding copy_assign
    copy_assign-live lhs rhs w le =
        let w' : W = (ff.av_packet_unref lhs w).1 in
        omega (arith, construct-live rhs w', laws.unref_live lhs w)

    moved-live :
        (lhs rhs : Q) (r : Bool × (Q × W)) (n : ℕ)
        → live r.1.1 ≡ n + owned r.1.0
        → owned lhs + owned rhs ≤ n
        → ((moved ff lhs rhs r).threw ≡ true → owned lhs ≡ 0)
        → live (moved ff lhs rhs r).world + owned lhs + owned rhs
          ≡ n + owned (moved ff lhs rhs r).packet + owned (moved ff lhs rhs r).other
    moved-live lhs rhs (true, (packet, w)) n e le done =
        let w' : W = (ff.av_packet_unref lhs w).1 in
        omega (arith, laws.unref_live lhs w, laws.unref_live rhs w', laws.unref_owned rhs w')
    moved-live lhs rhs (false, (packet, w)) n e le done = omega (arith, done refl)

    move_assign-live :
        (lhs rhs : Q) (w : W)
        → owned lhs + owned rhs ≤ live w
        → ((move_assign ff lhs rhs w).threw ≡ true → owned lhs ≡ 0)
        → live (move_assign ff lhs rhs w).world + owned lhs + owned rhs
          ≡ live w
            + owned (move_assign ff lhs rhs w).packet
            + owned (move_assign ff lhs rhs w).other
    unfolding move_assign
    move_assign-live lhs rhs w le done =
        moved-live lhs rhs (ff.av_packet_ref rhs w) (live w) (laws.ref_live rhs w) le done

    Use-counted :
        {s t : List Q × W} (base : ℕ) (step : Use ff s t)
        → IsSafe step
        → live s.1 ≡ base + total s.0
        → live t.1 ≡ base + total t.0
    unfolding destroy move_construct
    Use-counted base (declared packets w) safe h = omega (arith, laws.blank)
    Use-counted base (constructed packets source w done) safe h =
        omega (arith, construct-live source w)
    Use-counted base (not_constructed packets source w threw) safe h =
        omega (arith, construct_threw-live source w threw)
    Use-counted base (move_constructed before behind other w) none h =
        omega (arith, none, total-append before (other ∷ behind))
    Use-counted base (copied before behind lhs rhs w) safe h =
        let packet : Q = (copy_assign ff lhs rhs w).packet in
        let all : total (before ++ (lhs ∷ behind)) ≡ total before + (owned lhs + total behind) =
          total-append before (lhs ∷ behind) in
        omega
          (arith, copy_assign-live lhs rhs w (omega arith), total-append before (packet ∷ behind))
    Use-counted base (moved_up before between behind lhs rhs w) done h =
        let whole : total (before ++ (lhs ∷ (between ++ (rhs ∷ behind))))
            ≡ total before + owned lhs + total between + owned rhs + total behind =
          total-two before lhs between rhs behind in
        omega (
          arith,
          move_assign-live lhs rhs w (omega arith) done,
          total-two before (move_assign ff lhs rhs w).packet between
              (move_assign ff lhs rhs w).other behind,
        )
    Use-counted base (moved_down before between behind lhs rhs w) done h =
        let whole : total (before ++ (rhs ∷ (between ++ (lhs ∷ behind))))
            ≡ total before + owned rhs + total between + owned lhs + total behind =
          total-two before rhs between lhs behind in
        omega (
          arith,
          move_assign-live lhs rhs w (omega arith) done,
          total-two before (move_assign ff lhs rhs w).other between
              (move_assign ff lhs rhs w).packet behind,
        )
    Use-counted base (destroyed before behind packet w) safe h = omega (
      arith,
      laws.unref_live packet w,
      total-append before (packet ∷ behind),
      total-append before behind,
    )

    -- With FFmpeg's calls as documented, for a function that declares, constructs, assigns and destroys
    -- objects of AVPacketRef, exceptions of constructors and copy assignments included, where every
    -- move construction is from an object that holds no reference, and every move assignment that
    -- throws is to such an object: the references that are live are those that were live before
    -- besides its objects', and those that its living objects hold. So none is lost or given back
    -- twice, and with the last object the last reference is given back.
    pub Uses-counted :
        {s t : List Q × W} (base : ℕ) (path : Uses ff s t)
        → AreSafe path
        → live s.1 ≡ base + total s.0
        → live t.1 ≡ base + total t.0
    Uses-counted base here safe h = h
    Uses-counted base (next path step) (safe, last) h =
        Use-counted base step last (Uses-counted base path safe h)

    -- A move assignment that throws loses the reference that the object held: it is blank, and
    -- nothing was given back.
    pub move_assign-loses :
        (lhs rhs : Q) (w : W)
        → (ff.av_packet_ref rhs w).0 ≡ false
        → ((move_assign ff lhs rhs w).threw ≡ true)
          × (owned (move_assign ff lhs rhs w).packet ≡ 0)
          × (live (move_assign ff lhs rhs w).world ≡ live w)
    unfolding move_assign
    move_assign-loses lhs rhs w failed =
        let none : owned (ff.av_packet_ref rhs w).1.0 ≡ 0 = laws.ref_failed rhs w failed in
        loses (ff.av_packet_ref rhs w) failed none (omega (arith, laws.ref_live rhs w))
      where
        loses :
            (r : Bool × (Q × W))
            → r.0 ≡ false
            → owned r.1.0 ≡ 0
            → live r.1.1 ≡ live w
            → ((moved ff lhs rhs r).threw ≡ true)
              × (owned (moved ff lhs rhs r).packet ≡ 0)
              × (live (moved ff lhs rhs r).world ≡ live w)
        loses (true, (packet, w')) f n e = cc
        loses (false, (packet, w')) f n e = (refl, n, e)

    -- The move constructor leaves two objects with one reference: their destructors give back one
    -- that is not theirs.
    pub move_construct-doubles :
        (other : Q) (w : W)
        → let (packet, from) = move_construct ff other in
          live (destroy ff from (destroy ff packet w)) ≡ live w - owned other - owned other
    unfolding move_construct destroy
    move_construct-doubles other w =
        omega (arith, laws.unref_live other w, laws.unref_live other (ff.av_packet_unref other w).1)
