-- ===== src/Event/Resume.antt =====
-- ngx_http_lua_ffi_resume of ngx_http_lua_ffi.c: which calls into nginx follow the run of the
-- coroutine, and what is answered.
use lua_resty_ffi.Common.{◌≡◌, Bool, some, List, [], ◌∷◌, ◌++◌, arith, if◌then◌else◌}
use mathlib.Core.List.{append_assoc}
use lua_resty_ffi.Nginx.{Rc, ngx_again, ngx_done}
use lua_resty_ffi.Store.{
  Ptr, LuaCtx, wev_handler, Call, run_thread, finalize_request, run_posted_threads, Store,
}
use lua_resty_ffi.Store.Commands.{ok, write, call}
use lua_resty_ffi.Event.{resume}

-- The calls, in order, by what the run of the coroutine returned.
abbrev pub resume_calls : Ptr → (entered_content_phase : Bool) → (run_rc : Rc) → List Call
resume_calls r entered ngx_again = run_thread r 3 ∷ run_posted_threads r ∷ []
resume_calls r entered ngx_done =
    run_thread r 3 ∷ finalize_request r ngx_done ∷ run_posted_threads r ∷ []
resume_calls r entered rc = run_thread r 3 ∷ (if entered then finalize_request r rc ∷ [] else [])

abbrev pub resume_answer : (entered_content_phase : Bool) → (run_rc posted_rc : Rc) → Rc
resume_answer entered ngx_again posted_rc = posted_rc
resume_answer entered ngx_done posted_rc = posted_rc
resume_answer entered rc posted_rc = if entered then ngx_done else rc

-- The memory after a resumption.
abbrev pub resumed : Ptr → LuaCtx → (run_rc : Rc) → Store → Store
resumed r ctx run_rc s = record s {
  lua_ctxs = write s.lua_ctxs r (some (record ctx { resume_handler = wev_handler }));
  calls = s.calls ++ resume_calls r ctx.entered_content_phase run_rc;
}

-- A request with a module context is run with three values. When the run asks to be continued or is
-- done, the posted threads are run, a finished request being finalized first; otherwise the request
-- is finalized with the code if the content phase was entered, and the code is handed back if not.
pub resume_lem :
    (r : Ptr) (run_rc posted_rc : Rc) {ctx : LuaCtx} (s : Store)
    → s.lua_ctxs r ≡ some ctx
    → resume r run_rc posted_rc s
      ≡ ok (resume_answer ctx.entered_content_phase run_rc posted_rc) (resumed r ctx run_rc s)
unfolding resume call write
resume_lem r ngx_again posted_rc s e =
    ground (arith, append_assoc s.calls (run_thread r 3 ∷ []) (run_posted_threads r ∷ []))
resume_lem r ngx_done posted_rc s e =
    let second : List Call = finalize_request r ngx_done ∷ [] in
    let third : List Call = run_posted_threads r ∷ [] in
    ground (
      arith,
      append_assoc s.calls (run_thread r 3 ∷ []) second,
      append_assoc s.calls (run_thread r 3 ∷ second) third,
    )
resume_lem r rc posted_rc s e =
    ground (arith, append_assoc s.calls (run_thread r 3 ∷ []) (finalize_request r rc ∷ []))
