-- ===== src/Flow/Returns.antt =====
-- That the calls of the worker and the polls of the runtime return, whatever requests are on their
-- way.
use lua_resty_ffi.Common.{
  ◌++◌, ◌≡◌, ◌≢◌, ◌⊎◌, refl, ap, Bool-cases, inl, inr, true, false, Option, none, List, [], ◌∷◌, ℕ,
  arith,
}
use lua_resty_ffi.Common.Int.{ℤ}
use lua_resty_ffi.Nginx.{Rc, failed}
use lua_resty_ffi.Store.{Ptr, null, CoCtx, LuaCtx, FfiTaskQueue, Store}
use lua_resty_ffi.Store.Commands.{ok}
use lua_resty_ffi.TaskQueue.{PostCalls, PollResult, returned, in_cond_wait}
use lua_resty_ffi.TaskQueue.Post.{IsTaskQueue, accepts}
use lua_resty_ffi.TaskQueue.TaskPost.{new_task}
use lua_resty_ffi.TaskQueue.Poll.{Entry, entry_failed, poll, poll_empty, poll_finish, poll_first}
use lua_resty_ffi.Lua.{Runtime, Reply, runtime_post, runtime_unload}
use lua_resty_ffi.Lua.Life.Request.{runtime_post_queued, runtime_post_refused}
use lua_resty_ffi.Lua.Life.Returns.{unload_returns}
use lua_resty_ffi.Lua.Life.Steps.{post_finished}
use lua_resty_ffi.Flow.{Flow, Fresh, Reach, count}
use lua_resty_ffi.Flow.Serves.{Serves, serving, closing, ended, serving_of}
use lua_resty_ffi.Flow.Invariant.{Inv}
use lua_resty_ffi.Flow.Accepted.{fresh-Given}
use lua_resty_ffi.Flow.Steps.{Reach-Inv}

post_returns :
    {F : Flow} (inv : Inv F) (calls : PostCalls) (r fresh buf : Ptr) (req : Option (List ℕ))
    {ctx : LuaCtx} {co : CoCtx}
    → Fresh F r fresh buf ctx co
    → failed calls.mutex_unlock ≡ false
    → (reply : Reply) × (s : Store) × (runtime_post calls r fresh buf req F.runtime F.store
        ≡ ok reply s)
post_returns {F} inv calls r fresh buf req n u = elim (Bool-cases F.runtime.finished) [
  | inl over ↦ (_, _, post_finished calls r fresh buf req F.runtime F.store over)
  | inr go ↦
      let (tp, is) = serving_of go inv.serves in
      let given = fresh-Given inv r fresh buf req n in
      elim (Bool-cases (accepts calls (new_task fresh) tp)) [
        | inl room ↦
            let (s, tp', posts, is', at, same) =
              runtime_post_queued calls r fresh buf req F.runtime F.queued F.store given go is u
                room in
            (_, s, posts)
        | inr full ↦
            let (s, tp', posts, is', tasks, ctxs, bufs, coros, done) =
              runtime_post_refused calls r fresh buf req F.runtime F.queued F.store given go is u
                full in
            (_, s, posts)
      ]
]

-- What a poll returns: the oldest of the queued requests, and without one it waits, or ends with NULL
-- where the runtime was unloaded.
abbrev pub PollAnswers : Entry → Rc → Flow → List Ptr → Type 0
PollAnswers e unlocked F xs =
    (answer : PollResult) × (s : Store) × (poll e unlocked F.store ≡ ok answer s)
    × ((x : Ptr) (rest : List Ptr) → xs ≡ x ∷ rest → answer ≡ returned x)
    × (xs ≡ [] → (answer ≡ in_cond_wait) ⊎ ((answer ≡ returned null) × (F.runtime.finished ≡ true)))

module _ (e : Entry) (unlocked : Rc) {F : Flow} (inv : Inv F) (a : entry_failed e ≡ false)
    (u : failed unlocked ≡ false) where
  first_polls :
      {tp : FfiTaskQueue} (x : Ptr) (xs zs : List Ptr)
      → F.queued ≡ x ∷ xs
      → IsTaskQueue F.store tp (x ∷ zs)
      → PollAnswers e unlocked F (x ∷ xs)
  first_polls x xs zs at is =
      let (t, _, l, _) = is.queue.chain in
      let (c, sound) = inv.each x (ground (arith, ap (count x) at)) in
      let (q, eq, _) =
        poll_first e unlocked F.store is l a u (ground (arith, l.holds, l.ne_null, sound.task)) in
      (_, _, eq, λ y rest same. cc, λ same. absurd (cc))

  by_serves :
      (xs : List Ptr)
      → F.queued ≡ xs
      → F.store.tq ≢ none
      → Serves F.store F.runtime.finished xs
      → PollAnswers e unlocked F xs
  by_serves [] at there (serving is) =
      (_, _, (poll_empty e unlocked F.store is a).0, λ y rest same. absurd (cc), λ same. inl refl)
  by_serves (x ∷ xs) at there (serving is) = first_polls x xs xs at is
  by_serves [] at there (closing over is fin) = (
    _,
    _,
    poll_finish e unlocked F.store is fin.live a u fin.no_ctx,
    λ y rest same. absurd (cc),
    λ same. inr (refl, over),
  )
  by_serves (x ∷ xs) at there (closing {f = f} over is fin) = first_polls x xs (xs ++ f ∷ []) at is
  by_serves xs at there (ended over gone none_left) = absurd (there gone)

module _ {get_req_of : Ptr → Ptr} {s : Store} {max_queue : ℤ} {F : Flow}
    (reach : Reach get_req_of s max_queue F) where
  -- In every reachable state, also when the task queue has been given back, a request of a coroutine
  -- that runs comes to an answer, and so does an unload, first or repeated: where the request has a
  -- module context, the allocations give new blocks that are not NULL and the unlock succeeds, neither
  -- faults.
  pub worker_returns :
      (calls : PostCalls) (r fresh buf : Ptr) (req : Option (List ℕ)) {ctx : LuaCtx} {co : CoCtx}
      → Fresh F r fresh buf ctx co
      → failed calls.mutex_unlock ≡ false
      → ((reply : Reply) × (s' : Store) × (runtime_post calls r fresh buf req F.runtime F.store
            ≡ ok reply s'))
        × ((result : Runtime × Option Rc) × (s' : Store) × (runtime_unload calls fresh F.runtime
                F.store
              ≡ ok result s'))
  worker_returns calls r fresh buf req n u =
      let inv = Reach-Inv reach in
      (
        post_returns inv calls r fresh buf req n u,
        unload_returns calls fresh F.runtime F.queued F.store n.fresh_ne n.unused u
            (λ go. serving_of go inv.serves),
      )

  -- In every reachable state whose task queue is not given back, a poll that gets the mutex and can
  -- give it back does not fault. It returns the oldest of the queued requests; without one it waits,
  -- or it returns NULL, and then the runtime was unloaded.
  pub poll_returns :
      (e : Entry) (unlocked : Rc)
      → entry_failed e ≡ false
      → failed unlocked ≡ false
      → F.store.tq ≢ none
      → PollAnswers e unlocked F F.queued
  poll_returns e unlocked a u there =
      let inv = Reach-Inv reach in by_serves e unlocked inv a u F.queued refl there inv.serves
