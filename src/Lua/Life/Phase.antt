-- ===== src/Lua/Life/Phase.antt =====
-- The phases of a runtime's life: its queue serves requests, or the finishing task is in the queue,
-- behind all requests, or the queue is given back.
use lua_resty_ffi.Common.{
  ◌≡◌, ◌≢◌, refl, sym, ap, ◌∙◌, true, false, Option, none, some, List, [], ◌∷◌, ◌++◌, arith, inl,
  inr, Bool-cases, ==_false, ℕ, if◌then◌else◌,
}
use mathlib.Core.Option
use mathlib.Core.List.{append_assoc}
use lua_resty_ffi.Nginx.{Rc, failed}
use lua_resty_ffi.Store.{Ptr, null, Task, CoCtx, LuaCtx, FfiTaskQueue, Store}
use lua_resty_ffi.Store.Commands.{ok, fault, ok_inj, load_tq, set_tq}
use lua_resty_ffi.Queue.Chain.{Tasks}
use lua_resty_ffi.Queue.Laws.{ctx_at, Live_of_ctx}
use lua_resty_ffi.Task.{zero_task}
use lua_resty_ffi.TaskQueue.{PostCalls, PollResult, task_finish, task_poll, poll_wake}
use lua_resty_ffi.TaskQueue.Post.{IsTaskQueue, accepts}
use lua_resty_ffi.TaskQueue.Poll.{
  Entry, enters, wakes, entry_failed, poll, poll_empty, poll_first, poll_finish,
}
use lua_resty_ffi.TaskQueue.TaskPost.{new_task}
use lua_resty_ffi.TaskQueue.Drain.{Requests, Finish}
use lua_resty_ffi.TaskQueue.Finish.{Requests-frame, task_finish_queued, task_finish_refused}
use lua_resty_ffi.Lua.{Runtime, Reply, runtime_post}
use lua_resty_ffi.Lua.Life.{
  Life, Given, after_post, after_poll, post_action, unload_action, poll_action,
}
use lua_resty_ffi.Lua.Service.{Mode, in_service, abandoned, ending, at_end, Service, Action, accept}
use lua_resty_ffi.Lua.Life.Request.{runtime_post_queued, runtime_post_refused}

pub data Phase (L : Life) : Type 0 where
  serving :
      {tp : FfiTaskQueue}
      → IsTaskQueue L.store tp L.pending
      → Requests L.store.tasks L.pending
      → Phase L
  closing :
      {tp : FfiTaskQueue} {f : Ptr}
      → L.runtime.finished ≡ true
      → IsTaskQueue L.store tp (L.pending ++ f ∷ [])
      → Requests L.store.tasks L.pending
      → Finish L.store.tasks f
      → Phase L
  ended : L.runtime.finished ≡ true → L.store.tq ≡ none → L.pending ≡ [] → Phase L

-- What the specification sees of a phase.
abbrev pub view : (L : Life) → Phase L → Service
view L (serving is rs) = record {
  mode = if L.runtime.finished then abandoned else in_service;
  waiting = L.pending;
}
view L (closing end is rs fin) = record { mode = ending; waiting = L.pending }
view L (ended end gone empty) = record { mode = at_end; waiting = L.pending }

-- What is seen leads to a phase, and the specification allows it.
abbrev pub Follows : (L : Life) → Phase L → Action → Life → Type 0
Follows L p a M = (q : Phase M) × (accept (view L p).mode (view L p).waiting a ≡ some (view M q))

-- A queue that serves, where the runtime is not finished.
pub serving_of :
    {L : Life}
    → L.runtime.finished ≡ false
    → (p : Phase L)
    → (tp : FfiTaskQueue) × IsTaskQueue L.store tp L.pending
      × Requests L.store.tasks L.pending
      × (view L p ≡ record { mode = in_service; waiting = L.pending })
serving_of go (serving {tp} is rs) = (tp, is, rs, rw go)
serving_of go (closing end is rs fin) = absurd (cc)
serving_of go (ended end gone none_left) = absurd (cc)

Requests-append :
    (h : Tasks) (xs : List Ptr) (x : Ptr)
    → Requests h xs
    → x ≢ null
    → ctx_at h x ≡ some x
    → Requests h (xs ++ x ∷ [])
Requests-append h [] x rs ne e =
    let (t, l, own) = Live_of_ctx ne e in (t, l, λ (n : t.ctx ≡ null). ne (sym own ∙ n), tt)
Requests-append h (y ∷ ys) x (t, l, c, rs) ne e = (t, l, c, Requests-append h ys x rs ne e)

-- A request.
pub post-Phase :
    (calls : PostCalls) (r fresh buf : Ptr) (req : Option (List ℕ)) {ctx : LuaCtx} {co : CoCtx}
    {reply : Reply} {s : Store} (L : Life)
    → Given L.store r fresh buf ctx co
    → failed calls.mutex_unlock ≡ false
    → L.runtime.finished ≡ false
    → runtime_post calls r fresh buf req L.runtime L.store ≡ ok reply s
    → (p : Phase L) → Follows L p (post_action fresh reply) (after_post L fresh reply s)
unfolding accept
post-Phase calls r fresh buf req L g u go e p =
    let (tp, is, rs, v) = serving_of go p in
    elim (Bool-cases (accepts calls (new_task fresh) tp)) [
      | inl yes_room ↦
          let (s', tp', posts, is', own, same) =
            runtime_post_queued calls r fresh buf req L.runtime L.pending L.store g go is u
              yes_room in
          let (replies, stores) = ok_inj (sym e ∙ posts) in
          rw (replies, stores)
            (
              serving is' (
                  Requests-append s'.tasks L.pending fresh
                    (Requests-frame s'.tasks L.store.tasks L.pending same rs) g.fresh_ne own),
              rw (v, go),
            )
      | inr no_room ↦
          let (s', tp', posts, is', same, _, _, _, _) =
            runtime_post_refused calls r fresh buf req L.runtime L.pending L.store g go is u
              no_room in
          let (replies, stores) = ok_inj (sym e ∙ posts) in
          rw (replies, stores)
            (
              serving is' (
                  Requests-frame s'.tasks L.store.tasks L.pending
                    (λ a i. ap (Option.map (λ (t : Task). t.ctx)) (same a)) rs),
              rw (v, go),
            )
    ]

-- The unload.
pub unload-Phase :
    (calls : PostCalls) (fresh : Ptr) (runtime : Runtime) {rc : Rc} {s : Store} (L : Life)
    → fresh ≢ null
    → L.store.tasks fresh ≡ none
    → failed calls.mutex_unlock ≡ false
    → runtime.finished ≡ true
    → task_finish calls fresh L.store ≡ ok rc s
    → L.runtime.finished ≡ false
    → (p : Phase L)
    → Follows L p (unload_action (some rc)) (record L { store = s; runtime = runtime })
unfolding accept
unload-Phase calls fresh runtime L ne unused u end e go p =
    let (tp, is, rs, v) = serving_of go p in
    elim (Bool-cases (accepts calls zero_task tp)) [
      | inl room ↦
          let (s', tp', finishes, is', fin, same, _) =
            task_finish_queued calls fresh L.pending L.store ne unused is room u in
          let (answers, stores) = ok_inj (sym e ∙ finishes) in
          rw (answers, stores)
            (closing end is' (Requests-frame s'.tasks L.store.tasks L.pending same rs) fin, rw v)
      | inr no_room ↦
          let (s', tp', finishes, is', same, _) =
            task_finish_refused calls fresh L.pending L.store ne unused is no_room u in
          let (answers, stores) = ok_inj (sym e ∙ finishes) in
          rw (answers, stores)
            (
              serving is' (
                  Requests-frame s'.tasks L.store.tasks L.pending
                    (λ a i. ap (Option.map (λ (t : Task). t.ctx)) (same a)) rs),
              rw (v, end),
            )
    ]

-- A poll of a queue that is given back is a use after free, by a call as well as out of a wait.
pub poll_ended :
    (e : Entry) (unlocked : Rc) (s : Store)
    → s.tq ≡ none
    → entry_failed e ≡ false
    → poll e unlocked s ≡ fault
unfolding poll task_poll poll_wake set_tq load_tq
poll_ended (enters rc) unlocked s gone a = ground arith
poll_ended (wakes rc) unlocked s gone a = ground arith

abbrev pub with_pending : Life → List Ptr → Life
with_pending L ps = record L { pending = ps }

module _ (e : Entry) (unlocked : Rc) {answer : PollResult} {s : Store} (L : Life)
    (a : entry_failed e ≡ false) (u : failed unlocked ≡ false)
    (polls : poll e unlocked L.store ≡ ok answer s) where
  -- A phase that the specification allows, and no request is lost, doubled or moved.
  abbrev pub Kept : Mode → List Ptr → Life → Type 0
  Kept mode ps M =
      (q : Phase M) × (accept mode ps (poll_action answer) ≡ some (view M q))
      × (M.delivered ++ M.pending ≡ L.delivered ++ ps)

  pub poll-serving :
      {tp : FfiTaskQueue} (ps : List Ptr)
      → IsTaskQueue L.store tp ps
      → Requests L.store.tasks ps
      → Kept
          (if L.runtime.finished then abandoned else in_service)
          ps
          (after_poll (with_pending L ps) answer s)
  unfolding accept
  poll-serving [] is rs =
      let (eq, is') = poll_empty e unlocked L.store is a in
      let (answers, stores) = ok_inj (sym polls ∙ eq) in
      rw (answers, stores) (serving is' tt, ground arith, refl)
  poll-serving (x ∷ xs) is (t, l, c, rs) =
      let (q, eq, is') = poll_first e unlocked L.store is l a u c in
      let (answers, stores) = ok_inj (sym polls ∙ eq) in
      rw (answers, stores, ==_false x null l.ne_null)
        (serving is' rs, ground arith, append_assoc L.delivered (x ∷ []) xs)

  pub poll-closing :
      {tp : FfiTaskQueue} {f : Ptr} (ps : List Ptr)
      → L.runtime.finished ≡ true
      → IsTaskQueue L.store tp (ps ++ f ∷ [])
      → Requests L.store.tasks ps
      → Finish L.store.tasks f
      → Kept ending ps (after_poll (with_pending L ps) answer s)
  unfolding accept
  poll-closing [] end is rs fin =
      let eq = poll_finish e unlocked L.store is fin.live a u fin.no_ctx in
      let (answers, stores) = ok_inj (sym polls ∙ eq) in
      rw (answers, stores) (ended end refl refl, refl, refl)
  poll-closing (x ∷ xs) end is (t, l, c, rs) fin =
      let (q, eq, is') = poll_first e unlocked L.store is l a u c in
      let (answers, stores) = ok_inj (sym polls ∙ eq) in
      rw (answers, stores, ==_false x null l.ne_null)
        (
          closing end is' rs (record { task = fin.task; live = fin.live; no_ctx = fin.no_ctx }),
          ground arith,
          append_assoc L.delivered (x ∷ []) xs,
        )
