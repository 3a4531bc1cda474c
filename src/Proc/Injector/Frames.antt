-- ===== src/Proc/Injector/Frames.antt =====
-- The frame that a call of SeiInjector::process asks for, and what it leaves.
use metamix.Base.{ℕ, List, ◌++◌, ◌≡◌, refl, true, Option, none, some, ◌<◌}
use metamix.Base.Int.{ℤ, pos, ◌+ℤ◌, ◌-ℤ◌}
use metamix.Binary.Outcome.{ok}
use metamix.Clock.{TimeBase, rescale_to_clock}
use metamix.H264.Sei.{SeiPayload}
use metamix.InputManager.{
  AbstractInput, InputManager, get_input_by_id, has_value, get_current_sei_input,
}
use metamix.InputManager.Current.{IsValid}
use metamix.Inputs.Query.{IsAnswer, query_sei-IsAnswer}
use metamix.MetadataQueue.{Metadata, comparator}
use metamix.MetadataQueue.Group.{QueueGroup, StdHeaps}
use metamix.MetadataQueue.Heap.{IsHeap, IsStdHeap}
use metamix.Proc.Packet.{Packet, stamp}
use metamix.Proc.Injector.{
  Injection, Injected, inject, inject_sei, reset_if_changed, or_unchanged, remux,
}

has_value-some :
    (o : Option AbstractInput) → has_value o ≡ true → (x : AbstractInput) × (o ≡ some x)
has_value-some none h = cc
has_value-some (some x) h = (x, refl)

module _ (av_rescale_q : ℤ → TimeBase → TimeBase → ℤ) (heaps : StdHeaps) where
  -- The packet's time on the clock, adjusted.
  abbrev pub frame_time : Packet → ℤ → Injection → ℤ
  frame_time pkt ts_adjustment st =
      (rescale_to_clock av_rescale_q st.pts_rescaler pkt.pts).0 -ℤ ts_adjustment

  -- An injector that has served the frame from its previous time to `until` with the input's answer
  -- and, if the input changed, a caption reset in front.
  abbrev pub IsServed : Packet → ℕ → ℕ → AbstractInput → Injection → QueueGroup → Injected → Type 0
  IsServed pkt now until input st g r =
      (queried : List (Metadata SeiPayload)) × IsAnswer input.spec.id st.prev_pts until g
        (queried, r.queues)
      × (r.bytes
          ≡ or_unchanged pkt.bytes
              (remux (reset_if_changed input.spec.id now st.prev_input_id ++ queried) pkt.bytes))
      × (r.state.prev_pts ≡ until)
      × (r.state.prev_input_id ≡ some input.spec.id)

  module _ (laws : IsStdHeap heaps.sei comparator) where
    -- With standard heap functions, a valid manager, a queue that is a heap, and an adjusted time not
    -- before the previous frame's end: the injector serves the frame up to that time from the current
    -- SEI input, with at least one item; it remembers the frame's end and the input. The packet's
    -- bytes are the remuxed ones, with a caption reset first if the input changed, or as before if a
    -- parser refuses them.
    pub inject_sei-IsServed :
        (pkt : Packet) (ts_adjustment : ℤ) (manager : InputManager) (st : Injection)
        (g : QueueGroup)
        → IsValid manager
        → IsHeap comparator g.sei
        → st.prev_pts < stamp (frame_time pkt ts_adjustment st +ℤ pos 1)
        → (input : AbstractInput) × (get_input_by_id manager.current_inputs_ids.sei manager.inputs
            ≡ some input)
          × (r : Injected) × (inject_sei av_rescale_q heaps pkt ts_adjustment manager st g ≡ ok r)
          × IsServed pkt
              (stamp (frame_time pkt ts_adjustment st))
              (stamp (frame_time pkt ts_adjustment st +ℤ pos 1))
              input
              st
              g
              r
    unfolding inject_sei inject get_current_sei_input
    inject_sei-IsServed pkt ts_adjustment manager st g valid h lt =
        let until : ℕ = stamp (frame_time pkt ts_adjustment st +ℤ pos 1) in
        let (input, found) = has_value-some _ valid.0 in
        let ((queried, left), e, answer) =
          query_sei-IsAnswer heaps laws input st.prev_pts until g lt h in
        let r : Injected = record {
          bytes = or_unchanged pkt.bytes (
              remux
                (reset_if_changed input.spec.id (stamp (frame_time pkt ts_adjustment st))
                    st.prev_input_id
                  ++ queried)
                pkt.bytes);
          state = record {
            pts_rescaler = (rescale_to_clock av_rescale_q st.pts_rescaler pkt.pts).1;
            prev_pts = until;
            prev_input_id = some input.spec.id;
          };
          queues = left;
        } in
        (input, found, r, rw (found, e), (queried, answer, refl, refl, refl))
