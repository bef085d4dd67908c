-- ===== src/Lua/Life/Complete.antt =====
-- What holds in every reachable state of a runtime's life.
use lua_resty_ffi.Common.{
  ◌≡◌, refl, sym, ap, ◌∙◌, true, false, Option, none, some, List, [], ◌∷◌, ◌++◌, inl, inr,
  Bool-cases, ℕ, arith,
}
use mathlib.Core.List.{append-nil}
use lua_resty_ffi.Common.Int.{ℤ}
use lua_resty_ffi.Nginx.{Rc, failed}
use lua_resty_ffi.Store.{Ptr, null, CoCtx, LuaCtx, FfiTaskQueue, Store}
use lua_resty_ffi.Store.Commands.{ok, fault}
use lua_resty_ffi.TaskQueue.{PostCalls, returned}
use lua_resty_ffi.TaskQueue.Post.{IsTaskQueue, accepts}
use lua_resty_ffi.TaskQueue.Poll.{Entry, entry_failed, poll, poll_finish}
use lua_resty_ffi.TaskQueue.TaskPost.{new_task}
use lua_resty_ffi.TaskQueue.Drain.{Finish}
use lua_resty_ffi.Lua.{Reply, runtime_post}
use lua_resty_ffi.Lua.Life.{Life, Given, Reach, Trace}
use lua_resty_ffi.Lua.Life.Request.{runtime_post_queued, runtime_post_refused}
use lua_resty_ffi.Lua.Life.Phase.{Phase, serving, closing, ended, serving_of, poll_ended, view}
use lua_resty_ffi.Lua.Life.Steps.{post_finished}
use lua_resty_ffi.Lua.Life.Traces.{new_service, Reach-Inv, Trace-Inv}
use lua_resty_ffi.Lua.Service.{Service, Action, at_end, serve}

-- Whatever is done with a loaded runtime, while unlocks succeed, polls get the mutex and all else
-- spares the queue, is what the specification allows: requests come out in the order in which they
-- went in and each once; a poll waits only where no request is left and the unload has not gone
-- through; it gets the NULL of the end only after an unload that went through, and after all
-- requests; a request is turned down only after the unload, and always then; and after the end no
-- poll returns. The specification then has the same requests waiting, and is at the end just where
-- the queue is given back.
pub Trace-serve :
    {s : Store} {m : ℤ} {L : Life} {acts : List Action}
    → Trace s m L acts
    → (S : Service) × (serve new_service acts ≡ some S)
      × (S.waiting ≡ L.pending)
      × (S.mode ≡ at_end → L.store.tq ≡ none)
      × (L.store.tq ≡ none → S.mode ≡ at_end)
Trace-serve {L = L} t =
    let (inv, served) = Trace-Inv t in
    let (same, gone, back) = by_phase inv.phase in (view L inv.phase, served, same, gone, back)
  where
    by_phase :
        (p : Phase L)
        → ((view L p).waiting ≡ L.pending)
          × ((view L p).mode ≡ at_end → L.store.tq ≡ none)
          × (L.store.tq ≡ none → (view L p).mode ≡ at_end)
    by_phase (serving is rs) = (refl, λ e. absurd (ground arith), λ gone. absurd (cc (is.present)))
    by_phase (closing end is rs fin) = (refl, λ e. absurd (cc), λ gone. absurd (cc (is.present)))
    by_phase (ended end gone empty) = (refl, λ e. gone, λ e. refl)

-- When the queue of a runtime has been given back, whatever the order of requests, unload and polls
-- was, while unlocks succeeded, polls got the mutex and all else spared the queue: Lua has marked
-- the runtime as finished, and every request that was ever accepted has been handed out, in order
-- and once each; no request is left in the queue.
pub ended_complete :
    {s : Store} {m : ℤ} {L : Life}
    → Reach s m L
    → L.store.tq ≡ none
    → (L.runtime.finished ≡ true) × (L.delivered ≡ L.accepted) × (L.pending ≡ [])
ended_complete {L = L} r gone = by_phase (Reach-Inv r).phase
  where
    by_phase : Phase L → (L.runtime.finished ≡ true) × (L.delivered ≡ L.accepted) × (L.pending ≡ [])
    by_phase (serving is rs) = absurd (cc (is.present))
    by_phase (closing end is rs fin) = absurd (cc (is.present))
    by_phase (ended end _ empty) = (
      end,
      sym (append-nil L.delivered) ∙ ap (λ xs. L.delivered ++ xs) (sym empty) ∙ (Reach-Inv r).fifo,
      empty,
    )

-- In every reachable state, also when the queue has been given back, a request of a live coroutine
-- comes to an answer, and to no fault: Lua never posts to a queue that is gone.
runtime_post_answers :
    {s : Store} {m : ℤ} {L : Life} (calls : PostCalls) (r fresh buf : Ptr) (req : Option (List ℕ))
    {ctx : LuaCtx} {co : CoCtx}
    → Reach s m L
    → Given L.store r fresh buf ctx co
    → failed calls.mutex_unlock ≡ false
    → (reply : Reply) × (s' : Store) × (runtime_post calls r fresh buf req L.runtime L.store
        ≡ ok reply s')
runtime_post_answers {L = L} calls r fresh buf req reach g u =
    elim (Bool-cases L.runtime.finished) [
      | inl over ↦ (_, _, post_finished calls r fresh buf req L.runtime L.store over)
      | inr go ↦
          let (tp, is, rs, _) = serving_of go (Reach-Inv reach).phase in
          elim (Bool-cases (accepts calls (new_task fresh) tp)) [
            | inl room ↦
                let posted =
                  runtime_post_queued calls r fresh buf req L.runtime L.pending L.store g go is u
                    room in
                (_, posted.0, posted.2)
            | inr no_room ↦
                let posted =
                  runtime_post_refused calls r fresh buf req L.runtime L.pending L.store g go is u
                    no_room in
                (_, posted.0, posted.2)
          ]
    ]

-- The poll that takes the finishing task, the last one of the queue, ends the queue with NULL: after
-- it any poll that gets the mutex is a use after free, a later call as well as the return of one
-- that was waiting. So a runtime with more than one polling thread cannot be unloaded.
pub second_poll :
    (e e' : Entry) (unlocked unlocked' : Rc) {tp : FfiTaskQueue} {f : Ptr} (s : Store)
    → IsTaskQueue s tp (f ∷ [])
    → Finish s.tasks f
    → entry_failed e ≡ false
    → failed unlocked ≡ false
    → entry_failed e' ≡ false
    → (s' : Store) × (poll e unlocked s ≡ ok (returned null) s') × (poll e' unlocked' s' ≡ fault)
second_poll e e' unlocked unlocked' s is fin a u a' =
    (_, poll_finish e unlocked s is fin.live a u fin.no_ctx, poll_ended e' unlocked' _ refl a')
