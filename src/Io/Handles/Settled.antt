-- ===== src/Io/Handles/Settled.antt =====
-- What a thread's function has given back when it is over.
use metamix.Base.{
  ℕ, suc, ◌+◌, ◌-◌, ◌≤◌, List, ◌≡◌, refl, ◌∙◌, Bool, true, false, Option, none, some, arith,
}
use metamix.Io.RemuxLoop.{Read, Environment}
use metamix.Io.Handles.{
  Ffmpeg, StepEnd, done, threw, in_loop, Session, Endpoints, then_step, is_known_format,
  open_allocated, open_source, run_opened, run_session, free_context, write_trailer,
  destroy_handles, closed, session, with_contexts, open_handles, fresh,
}
use metamix.Io.Handles.Account.{Account, held, flag, IsBalanced, IsUnstarted, IsFfmpeg}
use metamix.Io.Handles.Opening.{AfterOpening, open_handles-lem}
use metamix.Io.Handles.Opened.{with_contexts-IsBalanced}

module _ {W C P : Type 0} (account : W → Account) where
  -- What a thread's function has given back when it has returned or thrown: every header has its
  -- trailer; and no context stays allocated, but for one at most if a handle was not opened.
  abbrev pub IsSettled : StepEnd → Account → StepEnd × Session W C P → Type 0
  IsSettled opening base (in_loop, s) = Unit
  IsSettled done base (done, s) = account s.world ≡ base
  IsSettled done base (threw, s) = account s.world ≡ base
  IsSettled threw base (done, s) = ⊥
  IsSettled threw base (threw, s) =
      ((account s.world).1 ≡ base.1)
      × (base.0 ≤ (account s.world).0)
      × ((account s.world).0 ≤ suc base.0)
  IsSettled in_loop base (e, s) = ⊥

module _ {W C P : Type 0} (ff : Ffmpeg W C) (env : Environment W P) (account : W → Account) where
  module _ (laws : IsFfmpeg ff env account) (base : Account) where
    free_context-account :
        (o : Option C) (w : W)
        → account (free_context ff o w) ≡ ((account w).0 - held o, (account w).1)
    free_context-account none w = ground arith
    free_context-account (some ctx) w = laws.close_input ctx w

    write_trailer-account :
        (b : Bool) (o : Option C) (w : W)
        → flag b ≤ held o
        → account (write_trailer ff b o w) ≡ ((account w).0, (account w).1 - flag b)
    write_trailer-account false o w le = ground arith
    write_trailer-account true none w le = absurd (omega arith)
    write_trailer-account true (some ctx) w le = laws.write_trailer ctx w

    -- The destructors give everything back but what has leaked.
    destroyed :
        (leaked : ℕ) (s : Session W C P)
        → IsBalanced account leaked base s
        → account (destroy_handles ff s).world ≡ (base.0 + leaked, base.1)
    unfolding destroy_handles
    destroyed leaked s (live, waiting, le) =
        let w1 : W = free_context ff s.source s.world in
        let w2 : W = write_trailer ff s.should_write_trailer s.sink w1 in
        let e1 : account w1 ≡ ((account s.world).0 - held s.source, (account s.world).1) =
          free_context-account s.source s.world in
        let e2 : account w2 ≡ ((account w1).0, (account w1).1 - flag s.should_write_trailer) =
          write_trailer-account s.should_write_trailer s.sink w1 le in
        free_context-account s.sink w2 ∙ rw (e2, e1) (ground arith)

  module _ (laws : IsFfmpeg ff env account) where
    ended-IsSettled :
        (base : Account) (s : Session W C P) (r : StepEnd × Session W C P)
        → IsBalanced account 0 base r.1
        → IsSettled account done base (closed ff r)
    ended-IsSettled base s (done, t) h = destroyed laws base 0 t h ∙ ground arith
    ended-IsSettled base s (threw, t) h = destroyed laws base 0 t h ∙ ground arith
    ended-IsSettled base s (in_loop, t) h = tt

    opened-IsSettled :
        (base : Account) (reads : List Read) (r : StepEnd × Session W C P)
        → AfterOpening ff env account laws base (IsUnstarted account base) r
        → IsSettled account r.0 base (
            closed ff
              (then_step r (λ s. with_contexts (run_opened ff env reads) s.source s.sink s)))
    opened-IsSettled base reads (done, s) h =
        ended-IsSettled base s _
          (with_contexts-IsBalanced ff env account laws base reads s.source s.sink s h)
    opened-IsSettled base reads (threw, s) (leaked, le, h) =
        let e : account (destroy_handles ff s).world ≡ (base.0 + leaked, base.1) =
          destroyed laws base leaked s h in
        rw e (refl, omega arith, omega arith)
    opened-IsSettled base reads (in_loop, s) h = absurd h

    -- With FFmpeg as it documents its calls: once a thread's function has returned or thrown, every
    -- header that it wrote has its trailer; and no context that it allocated stays allocated, whatever
    -- step threw, except that one may if source.open or sink.open threw.
    pub session-IsSettled :
        (reads : List Read) (ends : Endpoints) (w : W) (p : P)
        → IsSettled account
            (open_handles ff ends (fresh w p)).0
            (account w)
            (session ff env reads ends w p)
    unfolding session run_session
    session-IsSettled reads ends w p =
        opened-IsSettled (account w) reads (open_handles ff ends (fresh w p))
          (open_handles-lem ff env account laws ends w p)

    -- SourceHandle::open with a format that is unknown throws and leaves its context allocated, which
    -- no destructor frees.
    pub unknown_format-leaks :
        (reads : List Read) (ends : Endpoints) (w : W) (p : P) (ctx : C)
        → (ff.avformat_alloc_context w).0 ≡ some ctx
        → is_known_format ff ends.source_format (ff.avformat_alloc_context w).1 ≡ false
        → ((session ff env reads ends w p).0 ≡ threw)
          × (account (session ff env reads ends w p).1.world ≡ (suc (account w).0, (account w).1))
    unfolding session run_session open_handles open_source open_allocated destroy_handles
    unknown_format-leaks reads ends w p ctx some_ctx bad =
        rw (some_ctx, open_allocated, bad) (refl, laws.alloc_some w ctx some_ctx)
