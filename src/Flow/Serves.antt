-- ===== src/Flow/Serves.antt =====
-- The task queue of a runtime over its life: while it serves, with the finishing task at its end, and
-- after it is given back.
use lua_resty_ffi.Common.{◌≡◌, ◌∙◌, Bool, true, false, none, some, List, [], ◌∷◌, ◌++◌, arith}
use lua_resty_ffi.Store.{Ptr, null, FfiTaskQueue, Store}
use lua_resty_ffi.Queue.Chain.{has, has-append, IsQueue-frame}
use lua_resty_ffi.Queue.Laws.{ctx_at}
use lua_resty_ffi.TaskQueue.Post.{IsTaskQueue}
use lua_resty_ffi.TaskQueue.Drain.{Finish}

pub data Serves (s : Store) (finished : Bool) (queued : List Ptr) : Type 0 where
  serving : {tp : FfiTaskQueue} → IsTaskQueue s tp queued → Serves s finished queued
  closing :
      {tp : FfiTaskQueue} {f : Ptr}
      → finished ≡ true
      → IsTaskQueue s tp (queued ++ f ∷ [])
      → Finish s.tasks f
      → Serves s finished queued
  ended : finished ≡ true → s.tq ≡ none → queued ≡ [] → Serves s finished queued

pub serving_of :
    {s : Store} {finished : Bool} {queued : List Ptr}
    → finished ≡ false
    → Serves s finished queued
    → (tp : FfiTaskQueue) × IsTaskQueue s tp queued
serving_of go (serving {tp} is) = (tp, is)
serving_of go (closing over is fin) = absurd (cc)
serving_of go (ended over gone none_left) = absurd (cc)

-- A change elsewhere spares the queued tasks and those that have no context.
module _ {s t : Store} (queued : List Ptr) (same_tq : t.tq ≡ s.tq)
    (tasks : (b : Ptr) → has b queued ≡ true → t.tasks b ≡ s.tasks b)
    (finishing : (b : Ptr) → ctx_at s.tasks b ≡ some null → t.tasks b ≡ s.tasks b) where
  framed :
      {tp : FfiTaskQueue} (xs : List Ptr)
      → ((b : Ptr) → has b xs ≡ true → t.tasks b ≡ s.tasks b)
      → IsTaskQueue s tp xs
      → IsTaskQueue t tp xs
  framed xs same is = record {
    present = same_tq ∙ is.present;
    unlocked = is.unlocked;
    queue = IsQueue-frame xs same is.queue;
  }

  pub Serves-frame : {finished : Bool} → Serves s finished queued → Serves t finished queued
  Serves-frame (serving is) = serving (framed queued tasks is)
  Serves-frame (closing {f = f} over is fin) =
      let same_f : t.tasks f ≡ s.tasks f =
        finishing f (ground (arith, fin.live.holds, fin.no_ctx)) in
      closing over
        (framed (queued ++ f ∷ [])
          (λ b i. ground (arith, has-append b queued (f ∷ []), tasks b, same_f)) is)
        (record {
          task = fin.task;
          live = record { ne_null = fin.live.ne_null; holds = same_f ∙ fin.live.holds };
          no_ctx = fin.no_ctx;
        })
  Serves-frame (ended over gone none_left) = ended over (same_tq ∙ gone) none_left
