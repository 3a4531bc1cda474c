-- ===== src/Proc/Controller/Session.antt =====
-- process_session and the accepting loop of src/proc/controller.cpp: connections are served one after
-- the other, each request by request. What Boost reads and writes is an argument. An exception that
-- no catch block of handle_request takes leaves the session, the accepting loop and ioc.run().
use metamix.Base.{
  ℕ, List, [], ◌∷◌, ◌++◌, ◌≢◌, refl, ◌∙◌, Bool, true, false, ◌||◌, All, if◌then◌else◌, Bool-cases,
  inl, inr,
}
use metamix.Proc.Controller.{Context}
use metamix.Proc.Controller.Json.{JsonLibrary}
use metamix.Proc.Controller.Operable.{IsOperable, IsKept, handle_request-IsKept}
use metamix.Proc.Controller.Requests.{Request, Response, escaped, status, handle_request}
use metamix.Proc.Controller.Status.{if-elim}
use metamix.Proc.Controller.Valid.{IsJsonLibrary}

-- A round of the session's loop: http::read gives a request, the end of the stream or another error.
-- Of a request's response: whether it needs the connection closed, and whether http::write fails.
pub data Exchange : Type 0 where
  received : Request → (needs_eof write_failed : Bool) → Exchange
  end_of_stream read_failed : Exchange

-- What async_accept gives: a connection with its rounds, or an error. acceptor.cancel aborts.
pub data Accept : Type 0 where
  connection : List Exchange → Accept
  accept_failed operation_aborted : Accept

module _ {J : Type 0} (json : JsonLibrary J) (has_dots : List ℕ → Bool) where
  abbrev is_escaped : Response J → Bool
  is_escaped (escaped e) = true
  is_escaped response = false

  -- Whether the last of the responses is an exception.
  unfoldable pub has_escaped : List (Response J) → Bool
  has_escaped [] = false
  has_escaped (r ∷ rs) = is_escaped r || has_escaped rs

  -- process_session: the responses that it writes, with the exception that ends it behind them, and
  -- the context.
  unfoldable pub process_session : List Exchange → Context → List (Response J) × Context
  process_session [] ctx = ([], ctx)
  process_session (end_of_stream ∷ rounds) ctx = ([], ctx)
  process_session (read_failed ∷ rounds) ctx = ([], ctx)
  process_session (received req needs_eof write_failed ∷ rounds) ctx =
      let (response, after) = handle_request json has_dots req ctx in
      let (responses, last) = process_session rounds after in
      if is_escaped response || write_failed || needs_eof
      then (response ∷ [], after)
      else (response ∷ responses, last)

  -- do_accept, until it is not called again, or an exception leaves it.
  unfoldable pub do_accept : List Accept → Context → List (Response J) × Context
  do_accept [] ctx = ([], ctx)
  do_accept (operation_aborted ∷ accepts) ctx = ([], ctx)
  do_accept (accept_failed ∷ accepts) ctx = do_accept accepts ctx
  do_accept (connection rounds ∷ accepts) ctx =
      let (responses, after) = process_session rounds ctx in
      let (later, last) = do_accept accepts after in
      if has_escaped responses then (responses, after) else (responses ++ later, last)

  abbrev IsFine : Response J → Type 0
  IsFine response = status response ≢ 500

  All-append : (rs ss : List (Response J)) → All IsFine rs → All IsFine ss → All IsFine (rs ++ ss)
  All-append [] ss h k = k
  All-append (r ∷ rs) ss (hr, h) k = (hr, All-append rs ss h k)

  module _ (laws : IsJsonLibrary json) where
    abbrev IsServed : Context → List (Response J) × Context → Type 0
    IsServed ctx (responses, last) = All IsFine responses × IsKept ctx last

    process_session-IsServed :
        (rounds : List Exchange) (ctx : Context)
        → IsOperable ctx.input_manager
        → IsServed ctx (process_session rounds ctx)
    unfolding process_session
    process_session-IsServed [] ctx h = (tt, (refl, h))
    process_session-IsServed (end_of_stream ∷ rounds) ctx h = (tt, (refl, h))
    process_session-IsServed (read_failed ∷ rounds) ctx h = (tt, (refl, h))
    process_session-IsServed (received req needs_eof write_failed ∷ rounds) ctx h =
        let (fine, (same, operable)) = handle_request-IsKept json has_dots laws req ctx h in
        let after : Context = (handle_request json has_dots req ctx).1 in
        let (all_fine, (same', kept)) = process_session-IsServed rounds after operable in
        let response : Response J = (handle_request json has_dots req ctx).0 in
        elim (Bool-cases (is_escaped response || write_failed || needs_eof)) [
          | inl e ↦ rw e ((fine, tt), (same, operable))
          | inr e ↦ rw e ((fine, all_fine), (same' ∙ same, kept))
        ]

    -- With a JSON library that throws its own exceptions only, and inputs as in
    -- Proc.Controller.Operable: whatever connections are accepted and whatever is read from them, no
    -- response is an internal server error, and the inputs and this state of them are kept, also when
    -- an exception of the library escapes and ends the controller.
    pub do_accept-IsServed :
        (accepts : List Accept) (ctx : Context)
        → IsOperable ctx.input_manager
        → All (λ response. status response ≢ 500) (do_accept accepts ctx).0
          × IsKept ctx (do_accept accepts ctx).1
    unfolding do_accept
    do_accept-IsServed [] ctx h = (tt, (refl, h))
    do_accept-IsServed (operation_aborted ∷ accepts) ctx h = (tt, (refl, h))
    do_accept-IsServed (accept_failed ∷ accepts) ctx h = do_accept-IsServed accepts ctx h
    do_accept-IsServed (connection rounds ∷ accepts) ctx h =
        let (fine, (same, operable)) = process_session-IsServed rounds ctx h in
        let (later, (same', kept)) =
          do_accept-IsServed accepts (process_session rounds ctx).1 operable in
        if-elim (IsServed ctx) (has_escaped (process_session rounds ctx).0) (fine, (same, operable))
          (All-append _ _ fine later, (same' ∙ same, kept))
