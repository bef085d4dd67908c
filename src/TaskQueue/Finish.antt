-- ===== src/TaskQueue/Finish.antt =====
-- ngx_http_lua_ffi_task_finish of ngx_http_lua_ffi.c, and the end of a queue that it brings about.
use lua_resty_ffi.Common.{
  ◌≡◌, ◌≢◌, refl, sym, ap, ◌∙◌, Bool, true, false, some, none, List, [], ◌∷◌, ◌++◌, arith, suc,
  if◌then◌else◌, length,
}
use mathlib.Core.Option
use lua_resty_ffi.Nginx.{ngx_ok, ngx_error, failed}
use lua_resty_ffi.Store.{Ptr, null, Task, FfiTaskQueue, Store}
use lua_resty_ffi.Store.Commands.{ok, Live, write, write_ne, free_block, load_task, deref}
use lua_resty_ffi.Queue.Chain.{Tasks, has, Chain-frame, ne_of_has, not-has_of_none}
use lua_resty_ffi.Queue.Laws.{ctx_at, event_at, Live_of_ctx}
use lua_resty_ffi.Task.{zero_task}
use lua_resty_ffi.TaskQueue.{PostCalls, post, task_finish}
use lua_resty_ffi.TaskQueue.Post.{IsTaskQueue, Posted, Succeed, accepts, post_outcome}
use lua_resty_ffi.TaskQueue.Drain.{drain, drain_all, Requests, Finish}

-- Requests stay requests as long as their contexts stay.
pub Requests-frame :
    (g h : Tasks) (xs : List Ptr)
    → ((a : Ptr) → has a xs ≡ true → ctx_at g a ≡ ctx_at h a)
    → Requests h xs
    → Requests g xs
Requests-frame g h [] same rs = tt
Requests-frame g h (x ∷ xs) same (t, l, c, rs) =
    let there : ctx_at h x ≡ some t.ctx = ap (Option.map (λ (u : Task). u.ctx)) l.holds in
    let (u, l', e) = Live_of_ctx l.ne_null (same x (ground arith) ∙ there) in
    (
      u,
      l',
      λ (n : u.ctx ≡ null). c (sym e ∙ n),
      Requests-frame g h xs (λ a i. same a (ground arith)) rs,
    )

-- What the post of a finishing task leaves alone; `xs` are the tasks of the queue.
pub record Untouched (fresh : Ptr) (xs : List Ptr) (s s' : Store) : Type 0 where
  pub ctx_ats : (a : Ptr) → a ≢ fresh → ctx_at s'.tasks a ≡ ctx_at s.tasks a
  pub events : (a : Ptr) → a ≢ fresh → event_at s'.tasks a ≡ event_at s.tasks a
  pub tasks : (a : Ptr) → a ≢ fresh → has a xs ≡ false → s'.tasks a ≡ s.tasks a
  pub ctxs : s.ctxs fresh ≡ none → (a : Ptr) → s'.ctxs a ≡ s.ctxs a
  pub bufs : s'.bufs ≡ s.bufs
  pub coros : s'.coros ≡ s.coros
  pub done : s'.done ≡ s.done

module _ (calls : PostCalls) (fresh : Ptr) {tp : FfiTaskQueue} (xs : List Ptr) (s : Store)
    (ne : fresh ≢ null) (unused : s.tasks fresh ≡ none) (is : IsTaskQueue s tp xs) where
  -- The memory with the new task.
  with_task : Store
  with_task = record s { tasks = write s.tasks fresh (some zero_task) }

  task_finish-post :
      (s' : Store)
      → post calls fresh with_task ≡ ok ngx_ok s'
      → task_finish calls fresh s ≡ ok ngx_ok s'
  unfolding task_finish with_task
  task_finish-post s' e = ground (arith, ne, e)

  outside_new : (a : Ptr) → a ≢ fresh → with_task.tasks a ≡ s.tasks a
  unfolding with_task write
  outside_new a h = ground arith

  new : Live with_task.tasks fresh zero_task
  unfolding with_task write
  new = record { ne_null = ne; holds = ground arith }

  out : has fresh xs ≡ false
  out = not-has_of_none s.tasks fresh xs tp.queue.first unused is.queue.chain

  with_task-IsTaskQueue : IsTaskQueue with_task tp xs
  unfolding with_task
  with_task-IsTaskQueue = record {
    present = is.present;
    unlocked = is.unlocked;
    queue = record {
      chain =
          Chain-frame xs tp.queue.first (λ a i. outside_new a (ne_of_has a fresh xs i out))
            is.queue.chain;
      last = is.queue.last;
      distinct = is.queue.distinct;
    };
  }

  -- No limit holds for a task without a context.
  accepted : Succeed calls → accepts calls zero_task tp ≡ true
  accepted v = rw (v.mutex_lock, v.cond_signal)

  posted :
      (b : Bool)
      → accepts calls zero_task tp ≡ b
      → failed calls.mutex_unlock ≡ false
      → (s' : Store) × (tp' : FfiTaskQueue) × (post calls fresh with_task
          ≡ ok (if b then ngx_ok else ngx_error) s')
        × Posted with_task tp xs fresh b s' tp'
  posted b e u = rw (← e) (post_outcome calls fresh xs with_task with_task-IsTaskQueue new out u)

  module _ {s' : Store} {tp' : FfiTaskQueue} (p : Posted with_task tp xs fresh false s' tp') where
    task_finish-error :
        post calls fresh with_task ≡ ok ngx_error s'
        → task_finish calls fresh s
          ≡ ok ngx_error
              (record s' { tasks = write s'.tasks fresh none; ctxs = write s'.ctxs fresh none })
    unfolding task_finish with_task free_block load_task deref
    task_finish-error e = ground (arith, ne, e, p.ctxs fresh, new.holds)

    given_back : (a : Ptr) → write s'.tasks fresh none a ≡ s.tasks a
    unfolding write
    given_back a = ground (arith, unused, p.outside a, outside_new a)

    refused-Untouched :
        Untouched fresh xs s
          (record s' { tasks = write s'.tasks fresh none; ctxs = write s'.ctxs fresh none })
    unfolding with_task write
    refused-Untouched = record {
      ctx_ats = λ a h. ap (Option.map (λ (t : Task). t.ctx)) (given_back a);
      events = λ a h. ap (Option.map (λ (t : Task). (t.handler, t.event_data))) (given_back a);
      tasks = λ a h o. given_back a;
      ctxs = λ unused_ctx a. ground (arith, unused_ctx, ap (λ (x : Store). x.ctxs a) p.rest);
      bufs = ap (λ (x : Store). x.bufs) p.rest;
      coros = ap (λ (x : Store). x.coros) p.rest;
      done = ap (λ (x : Store). x.done) p.rest;
    }

  module _ {s' : Store} {tp' : FfiTaskQueue} (p : Posted with_task tp xs fresh true s' tp') where
    posted-ctxs : (a : Ptr) → has a xs ≡ true → ctx_at s'.tasks a ≡ ctx_at s.tasks a
    posted-ctxs a i =
        p.ctxs a
        ∙ ap (Option.map (λ (t : Task). t.ctx)) (outside_new a (ne_of_has a fresh xs i out))

    queued-Untouched : Untouched fresh xs s s'
    unfolding with_task
    queued-Untouched = record {
      ctx_ats = λ a h. p.ctxs a ∙ ap (Option.map (λ (t : Task). t.ctx)) (outside_new a h);
      events = λ a h.
          p.events a ∙ ap (Option.map (λ (t : Task). (t.handler, t.event_data))) (outside_new a h);
      tasks = λ a h o. p.outside a h o ∙ outside_new a h;
      ctxs = λ unused_ctx a. ap (λ (x : Store). x.ctxs a) p.rest;
      bufs = ap (λ (x : Store). x.bufs) p.rest;
      coros = ap (λ (x : Store). x.coros) p.rest;
      done = ap (λ (x : Store). x.done) p.rest;
    }

    posted-Requests : Requests s.tasks xs → Requests s'.tasks xs
    posted-Requests rs = Requests-frame s'.tasks s.tasks xs posted-ctxs rs

    posted-Finish : Finish s'.tasks fresh
    posted-Finish =
        let there : ctx_at s'.tasks fresh ≡ some null =
          p.ctxs fresh ∙ ap (Option.map (λ (t : Task). t.ctx)) new.holds in
        let (t, l, e) = Live_of_ctx ne there in record { task = t; live = l; no_ctx = e }

    ended-tasks : (a : Ptr) → has a xs ≡ false → write s'.tasks fresh none a ≡ s.tasks a
    unfolding write
    ended-tasks a o = ground (arith, unused, p.outside a, outside_new a)

  -- The finishing task is queued, or it is given back.
  pub task_finish_queued :
      accepts calls zero_task tp ≡ true
      → failed calls.mutex_unlock ≡ false
      → (s' : Store) × (tp' : FfiTaskQueue) × (task_finish calls fresh s ≡ ok ngx_ok s')
        × IsTaskQueue s' tp' (xs ++ fresh ∷ [])
        × Finish s'.tasks fresh
        × ((a : Ptr) → has a xs ≡ true → ctx_at s'.tasks a ≡ ctx_at s.tasks a)
        × Untouched fresh xs s s'
  task_finish_queued e u =
      let (s', tp', posts, p) = posted true e u in
      (s', tp', task_finish-post s' posts, p.tq, posted-Finish p, posted-ctxs p, queued-Untouched p)

  pub task_finish_refused :
      accepts calls zero_task tp ≡ false
      → failed calls.mutex_unlock ≡ false
      → (s' : Store) × (tp' : FfiTaskQueue) × (task_finish calls fresh s ≡ ok ngx_error s')
        × IsTaskQueue s' tp' xs
        × ((a : Ptr) → s'.tasks a ≡ s.tasks a)
        × Untouched fresh xs s s'
  task_finish_refused e u =
      let (s', tp', posts, p) = posted false e u in
      (
        record s' { tasks = write s'.tasks fresh none; ctxs = write s'.ctxs fresh none },
        tp',
        task_finish-error p posts,
        record {
          present = p.tq.present;
          unlocked = p.tq.unlocked;
          queue = record {
            chain =
                Chain-frame xs tp'.queue.first
                  (λ a i. write_ne s'.tasks fresh a none (ne_of_has a fresh xs i out))
                  p.tq.queue.chain;
            last = p.tq.queue.last;
            distinct = p.tq.queue.distinct;
          };
        },
        given_back p,
        refused-Untouched p,
      )

  -- The end of a runtime: where the calls of nginx succeed, the finishing task goes on the queue
  -- whatever its limit; then a thread that polls until NULL gets all requests that were queued
  -- before, in order and once each, and then NULL. After that the queue is given back, and so is the
  -- finishing task, so that outside the requests the tasks are as before.
  pub task_finish-drain :
      Succeed calls
      → Requests s.tasks xs
      → (s' : Store) × (task_finish calls fresh s ≡ ok ngx_ok s')
        × (s'' : Store) × (drain (suc (length xs)) s' ≡ ok (xs, true) s'')
        × (s''.tq ≡ none)
        × ((a : Ptr) → has a xs ≡ false → s''.tasks a ≡ s.tasks a)
  task_finish-drain v rs =
      let (s', tp', e, p) = posted true (accepted v) v.mutex_unlock in
      (
        s',
        task_finish-post s' e,
        _,
        drain_all fresh xs s' p.tq (posted-Requests p rs) (posted-Finish p),
        refl,
        ended-tasks p,
      )
