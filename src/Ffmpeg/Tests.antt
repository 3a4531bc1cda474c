-- ===== src/Ffmpeg/Tests.antt =====
-- An FFmpeg whose packets are the numbers of references they hold: a packet is referred to, used to
-- a second object and destroyed.
use metamix.Base.{ℕ, ◌+◌, ◌-◌, [], ◌∷◌, ◌≡◌, refl, true}
use metamix.Ffmpeg.{
  PacketCalls, construct, move_assign, destroy, Uses, declared, constructed, moved_up, destroyed,
  here, next,
}
use metamix.Ffmpeg.References.{IsCounted, total, Uses-counted}

abbrev ffmpeg : PacketCalls ℕ ℕ
ffmpeg = record {
  blank = 0;
  av_packet_ref = λ q w. (true, (1, w + 1));
  av_packet_unref = λ q w. (0, w - q);
}

ffmpeg-IsCounted : IsCounted ffmpeg (λ q. q) (λ w. w)
ffmpeg-IsCounted = record {
  blank = refl;
  ref_live = λ q w. refl;
  ref_failed = λ q w e. cc;
  unref_owned = λ q w. refl;
  unref_live = λ q w. refl;
}

used : Uses ffmpeg ([], 5) (1 ∷ [], 6)
unfolding construct move_assign destroy
used =
    next
      (next (next (next here (constructed [] 9 5 refl)) (declared (1 ∷ []) 6))
        (moved_up [] [] [] 0 1 6))
      (destroyed (1 ∷ []) [] 0 6)

Uses-counted_example : ◌≡◌ {A = ℕ} 6 (5 + total ffmpeg (λ q. q) (λ w. w) (1 ∷ []))
unfolding used
Uses-counted_example =
    Uses-counted ffmpeg (λ q. q) (λ w. w) ffmpeg-IsCounted 5 used ((((tt, tt), tt), λ e. cc), tt)
      refl
