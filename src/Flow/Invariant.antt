-- ===== src/Flow/Invariant.antt =====
-- What holds between any two steps of the requests of a runtime.
use lua_resty_ffi.Common.{
  ◌<◌, ◌≢◌, ◌⊎◌, ◌==◌, Bool-cases, inl, inr, ◌+◌, ◌≤◌, ◌≡◌, none, some, ◌++◌, arith,
}
use lua_resty_ffi.Store.{Store, null, Ptr, FfiTaskCtx}
use lua_resty_ffi.Queue.Chain.{IsQueue}
use lua_resty_ffi.Flow.{Flow, count, in_flight, Out}
use lua_resty_ffi.Flow.Sound.{Sound}
use lua_resty_ffi.Flow.Serves.{Serves, Serves-frame}
use lua_resty_ffi.Flow.Count.{count-has}
use lua_resty_ffi.Queue.Laws.{ctx_at}

pub record Inv (F : Flow) : Type 0 where
  pub serves : Serves F.store F.runtime.finished F.queued
  pub done : IsQueue F.store.tasks F.store.done F.done
  pub each : (a : Ptr) → Out F a → (c : FfiTaskCtx) × Sound F.store F.owner (F.about a) a c
  pub once : (a : Ptr) → in_flight F a ≤ 1
  pub counted : (a : Ptr) → count a F.accepted ≡ count a F.handled + in_flight F a
  pub fifo : F.accepted ≡ F.polled ++ F.queued
  pub order : F.replied ≡ F.handled ++ (F.taken ++ F.done)
  pub clean : (a : Ptr) → in_flight F a ≡ 0 → F.store.ctxs a ≡ none

-- A request by its context.
pub sound_at :
    {F : Flow} (inv : Inv F) (a : Ptr) {c : FfiTaskCtx}
    → Out F a
    → F.store.ctxs a ≡ some c
    → Sound F.store F.owner (F.about a) a c
sound_at inv a {c} out here =
    let (d, o) = inv.each a out in let same : d ≡ c = ground (arith, o.ctx.holds) in rw same at o

-- A task without a context is no request.
pub not_out :
    {F : Flow} (inv : Inv F) (f : Ptr)
    → f ≢ null
    → ctx_at F.store.tasks f ≢ some f
    → in_flight F f ≡ 0
not_out {F} inv f ne no_request = elim (Bool-cases (in_flight F f == 0)) [
  | inl zero ↦ ground arith
  | inr more ↦ let (_, o) = inv.each f (ground arith) in absurd (no_request o.task)
]

-- What happens to one request, and to the memory elsewhere, leaves the task queue alone.
module _ {F : Flow} (inv : Inv F) {s : Store} (same_tq : s.tq ≡ F.store.tq) (a : Ptr)
    (own : ctx_at F.store.tasks a ≡ some a) (ne : a ≢ null)
    (tasks : (b : Ptr)
      → b ≢ a
      → (0 < count b F.queued) ⊎ (ctx_at F.store.tasks b ≡ some null)
      → s.tasks b ≡ F.store.tasks b) where
  pub Serves-elsewhere : count a F.queued ≡ 0 → Serves s F.runtime.finished F.queued
  Serves-elsewhere out =
      Serves-frame F.queued same_tq
        (λ b i.
          tasks b (λ e. ground (arith, count-has b F.queued i)) (inl (count-has b F.queued i)))
        (λ b e. tasks b (λ same. ground (arith, own, e)) (inr e)) inv.serves
