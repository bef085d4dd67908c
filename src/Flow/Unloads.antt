-- ===== src/Flow/Unloads.antt =====
-- The unload of the runtime while requests are on their way.
use lua_resty_ffi.Common.{
  ℕ, ◌≡◌, ◌≢◌, refl, sym, ap, ◌∙◌, Bool-cases, inl, inr, false, Option, none, List, arith,
}
use lua_resty_ffi.Nginx.{Rc, failed}
use lua_resty_ffi.Store.{Ptr, null, CoCtx, Store}
use lua_resty_ffi.Store.Commands.{ok, ok_inj}
use lua_resty_ffi.Queue.Chain.{IsQueue-frame}
use lua_resty_ffi.Task.{zero_task}
use lua_resty_ffi.TaskQueue.{PostCalls}
use lua_resty_ffi.TaskQueue.Post.{accepts}
use lua_resty_ffi.TaskQueue.Finish.{Untouched, task_finish_queued, task_finish_refused}
use lua_resty_ffi.Lua.{Runtime, runtime_unload}
use lua_resty_ffi.Lua.Life.Steps.{unload_finished, unload-task_finish}
use lua_resty_ffi.Flow.{Flow, in_flight, Out}
use lua_resty_ffi.Flow.Count.{count-has, has-count}
use lua_resty_ffi.Flow.Sound.{Sound-frame, some_task}
use lua_resty_ffi.Flow.Serves.{Serves, serving, closing, serving_of}
use lua_resty_ffi.Flow.Invariant.{Inv, not_out}

module _ {F : Flow} (inv : Inv F) (fresh : Ptr) (ne : fresh ≢ null)
    (unused : F.store.tasks fresh ≡ none) {s : Store} (k : Untouched fresh F.queued F.store s) where
  fresh_out : in_flight F fresh ≡ 0
  fresh_out = not_out inv fresh ne (λ e. some_task F.store.tasks fresh e unused)

  apart : (b : Ptr) → Out F b → b ≢ fresh
  apart b o e = ground (arith, fresh_out)

  -- All requests stay as they are.
  untouched-Inv :
      (runtime : Runtime)
      → Serves s runtime.finished F.queued
      → Inv (record F { store = s; runtime = runtime })
  untouched-Inv runtime serves = record {
    serves = serves;
    done = rw k.done (
        IsQueue-frame F.done
          (λ b i.
            k.tasks b (apart b (omega (arith, count-has b F.done i)))
              (has-count b F.queued (omega (arith, inv.once b, count-has b F.done i))))
          inv.done);
    each = λ b o.
        let (c, sound) = inv.each b o in
        (
          c,
          Sound-frame (k.ctxs (inv.clean fresh fresh_out) b) (k.ctx_ats b (apart b o))
              (k.events b (apart b o))
              (λ h. (ap (λ (m : Ptr → Option (List ℕ)). m c.req) k.bufs, refl))
              (λ h. (ap (λ (m : Ptr → Option (List ℕ)). m c.rsp) k.bufs, refl))
              (λ live. ap (λ (m : Ptr → Option CoCtx). m c.wait_co_ctx) k.coros) sound,
        );
    once = inv.once;
    counted = inv.counted;
    fifo = inv.fifo;
    order = inv.order;
    clean = λ b z. k.ctxs (inv.clean fresh fresh_out) b ∙ inv.clean b z;
  }

-- An unload, first or repeated, leaves the requests on their way as they are.
pub unloads-Inv :
    {F : Flow} (inv : Inv F) (calls : PostCalls) (fresh : Ptr) {runtime : Runtime} {rc : Option Rc}
    {s : Store}
    → fresh ≢ null
    → F.store.tasks fresh ≡ none
    → failed calls.mutex_unlock ≡ false
    → runtime_unload calls fresh F.runtime F.store ≡ ok (runtime, rc) s
    → Inv (record F { store = s; runtime = runtime })
unloads-Inv {F} inv calls fresh {runtime} {rc} ne unused u ran =
    elim (Bool-cases F.runtime.finished) [
      | inl over ↦
          let (answers, stores) =
            ok_inj (sym ran ∙ unload_finished calls fresh F.runtime F.store over) in
          let same : runtime ≡ F.runtime = ap (λ (x : Runtime × Option Rc). x.0) answers in
          rw (same, stores) inv
      | inr go ↦
          let (answer, finishes, now, _) =
            unload-task_finish calls fresh F.runtime F.store go ran in
          let (tp, is) = serving_of go inv.serves in
          elim (Bool-cases (accepts calls zero_task tp)) [
            | inl room ↦
                let (s', tp', queued, is', fin, _, k) =
                  task_finish_queued calls fresh F.queued F.store ne unused is room u in
                let (_, stores) = ok_inj (sym finishes ∙ queued) in
                rw stores (
                  untouched-Inv inv fresh ne unused k runtime
                    (closing (ap (λ (x : Runtime). x.finished) now) is' fin))
            | inr full ↦
                let (s', tp', refused, is', _, k) =
                  task_finish_refused calls fresh F.queued F.store ne unused is full u in
                let (_, stores) = ok_inj (sym finishes ∙ refused) in
                rw stores (untouched-Inv inv fresh ne unused k runtime (serving is'))
          ]
    ]
