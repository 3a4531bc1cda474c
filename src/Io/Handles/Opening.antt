-- ===== src/Io/Handles/Opening.antt =====
-- Opening both handles: a context may be lost if it throws.
use metamix.Base.{
  ℕ, suc, ◌-◌, ◌≤◌, ◌≡◌, refl, ◌∙◌, Bool, true, false, Option, none, some, arith, if◌then◌else◌,
  Bool-cases, inl, inr,
}
use metamix.Io.RemuxLoop.{Environment}
use metamix.Io.Handles.{
  Ffmpeg, StepEnd, done, threw, in_loop, Session, Endpoints, then_step, is_known_format, find_info,
  open_allocated, open_source, open_file, open_sink, open_handles, fresh, opened_source,
  opened_sink,
}
use metamix.Io.Handles.Account.{Account, held, IsBalanced, IsUnstarted, IsFfmpeg}

module _ {W C P : Type 0} (ff : Ffmpeg W C) (env : Environment W P) (account : W → Account) where
  module _ (laws : IsFfmpeg ff env account) (base : Account) where
    -- What opening leaves: a handle that is open, or an exception with at most one context that no
    -- handle holds.
    abbrev pub AfterOpening : (Session W C P → Type 0) → StepEnd × Session W C P → Type 0
    AfterOpening Q (done, s) = Q s
    AfterOpening Q (threw, s) = (leaked : ℕ) × (leaked ≤ 1) × IsBalanced account leaked base s
    AfterOpening Q (in_loop, s) = ⊥

    -- The source is open and the sink is not.
    abbrev IsSourceOpen : Session W C P → Type 0
    IsSourceOpen s =
        IsBalanced account 0 base s × (held s.sink ≡ 0) × (s.should_write_trailer ≡ false)

    abbrev one_more : Account
    one_more = (suc base.0, base.1)

    opened_source-lem :
        (w0 : W) (p : P) (ctx : C) (r : Bool × W)
        → account r.1 ≡ one_more
        → AfterOpening IsSourceOpen (opened_source (fresh w0 p) ctx r)
    opened_source-lem w0 p ctx (true, w) e =
        rw e ((omega arith, omega arith, omega arith), refl, refl)
    opened_source-lem w0 p ctx (false, w) e =
        (1, omega arith, rw e (omega arith, omega arith, omega arith))

    find_info-lem :
        (w0 : W) (p : P) (ctx : C) (r : Bool × W)
        → account r.1 ≡ (if r.0 then one_more else (suc base.0 - 1, base.1))
        → AfterOpening IsSourceOpen (find_info ff (fresh w0 p) ctx r)
    unfolding find_info
    find_info-lem w0 p ctx (true, w) e =
        opened_source-lem w0 p ctx (ff.avformat_find_stream_info ctx w)
          (laws.find_stream_info ctx w ∙ e)
    find_info-lem w0 p ctx (false, w) e =
        (0, omega arith, rw e (omega arith, omega arith, omega arith))

    open_allocated-lem :
        (ends : Endpoints) (w0 : W) (p : P) (o : Option C) (w : W)
        → (o ≡ none → account w ≡ base)
        → ((ctx : C) → o ≡ some ctx → account w ≡ one_more)
        → AfterOpening IsSourceOpen (open_allocated ff ends (fresh w0 p) (o, w))
    unfolding open_allocated
    open_allocated-lem ends w0 p none w h k =
        (0, omega arith, rw (h refl) (omega arith, omega arith, omega arith))
    open_allocated-lem ends w0 p (some ctx) w h k =
        elim (Bool-cases (is_known_format ff ends.source_format w)) [
          | inl e ↦
              rw (e, open_allocated)
                (find_info-lem w0 p ctx (ff.avformat_open_input ctx ends.source_url w)
                  (rw (k ctx refl) at (laws.open_input ctx ends.source_url w)))
          | inr e ↦
              rw (e, open_allocated)
                (1, omega arith, rw (k ctx refl) (omega arith, omega arith, omega arith))
        ]

    opened_sink-lem :
        (s : Session W C P) (ctx : C) (r : Bool × W)
        → IsSourceOpen s
        → account r.1 ≡ (suc (account s.world).0, (account s.world).1)
        → AfterOpening (IsUnstarted account base) (opened_sink s ctx r)
    opened_sink-lem s ctx (true, w) ((live, waiting, le), own, new) e =
        rw e ((omega arith, omega arith, omega arith), refl, new)
    opened_sink-lem s ctx (false, w) ((live, waiting, le), own, new) e =
        (1, omega arith, rw e (omega arith, omega arith, omega arith))

    open_file-lem :
        (ends : Endpoints) (s : Session W C P) (o : Option C) (w : W)
        → IsSourceOpen s
        → (o ≡ none → account w ≡ account s.world)
        → ((ctx : C) → o ≡ some ctx → account w ≡ (suc (account s.world).0, (account s.world).1))
        → AfterOpening (IsUnstarted account base) (open_file ff ends s (o, w))
    unfolding open_file
    open_file-lem ends s none w q h k = (0, omega arith, rw (h refl) q.0)
    open_file-lem ends s (some ctx) w q h k = elim (Bool-cases (ff.has_nofile_flag ctx w)) [
      | inl e ↦ rw (e, open_file) (opened_sink-lem s ctx (true, w) q (k ctx refl))
      | inr e ↦
          rw (e, open_file)
            (opened_sink-lem s ctx (ff.avio_open ctx ends.sink_url w) q
              (laws.avio_open ctx ends.sink_url w ∙ k ctx refl))
    ]

    then_step-AfterOpening :
        (Q R : Session W C P → Type 0) (r : StepEnd × Session W C P)
        (f : Session W C P → StepEnd × Session W C P)
        → AfterOpening Q r
        → ((s : Session W C P) → Q s → AfterOpening R (f s))
        → AfterOpening R (then_step r f)
    then_step-AfterOpening Q R (done, s) f h k = k s h
    then_step-AfterOpening Q R (threw, s) f h k = h
    then_step-AfterOpening Q R (in_loop, s) f h k = absurd h

  module _ (laws : IsFfmpeg ff env account) where
    pub open_handles-lem :
        (ends : Endpoints) (w : W) (p : P)
        → AfterOpening laws
            (account w)
            (IsUnstarted account (account w))
            (open_handles ff ends (fresh w p))
    unfolding open_handles open_source open_sink
    open_handles-lem ends w p =
        let base : Account = account w in
        then_step-AfterOpening laws base (IsSourceOpen laws base) (IsUnstarted account base)
          (open_source ff ends (fresh w p)) (open_sink ff ends)
          (open_allocated-lem laws base ends w p _ _ (laws.alloc_none w) (laws.alloc_some w))
          (λ s q.
            open_file-lem laws base ends s _ _ q
              (laws.output_none ends.sink_format ends.sink_url s.world)
              (laws.output_some ends.sink_format ends.sink_url s.world))
