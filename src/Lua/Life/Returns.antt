-- ===== src/Lua/Life/Returns.antt =====
-- That polls and the unload return, in every reachable state of a runtime's life.
use lua_resty_ffi.Common.{
  ◌≢◌, ◌≡◌, false, Option, none, some, List, [], ◌∷◌, ◌++◌, inl, inr, Bool-cases,
}
use lua_resty_ffi.Common.Int.{ℤ}
use lua_resty_ffi.Nginx.{Rc, failed}
use lua_resty_ffi.Store.{Ptr, null, FfiTaskQueue, Store}
use lua_resty_ffi.Store.Commands.{ok}
use lua_resty_ffi.TaskQueue.{PostCalls, PollResult, task_finish}
use lua_resty_ffi.TaskQueue.Post.{IsTaskQueue, accepts}
use lua_resty_ffi.TaskQueue.Poll.{Entry, entry_failed, poll, poll_finish, poll_first, poll_empty}
use lua_resty_ffi.TaskQueue.Drain.{Finish, Requests}
use lua_resty_ffi.TaskQueue.Finish.{task_finish_queued, task_finish_refused}
use lua_resty_ffi.Task.{zero_task}
use lua_resty_ffi.Lua.{Runtime, runtime_unload}
use lua_resty_ffi.Lua.Life.{Life, Reach}
use lua_resty_ffi.Lua.Life.Phase.{Phase, serving, closing, ended, serving_of}
use lua_resty_ffi.Lua.Life.Steps.{unload_finished}
use lua_resty_ffi.Lua.Life.Traces.{Reach-Inv}
use lua_resty_ffi.Lua.Life.Steps.{unloaded_runtime}

abbrev PollReturns : Entry → Rc → Store → Type 0
PollReturns e unlocked s = (answer : PollResult) × (s' : Store) × (poll e unlocked s ≡ ok answer s')

module _ (e : Entry) (unlocked : Rc) (a : entry_failed e ≡ false) (u : failed unlocked ≡ false)
    (s : Store) {tp : FfiTaskQueue} where
  serving_returns :
      (ps : List Ptr) → IsTaskQueue s tp ps → Requests s.tasks ps → PollReturns e unlocked s
  serving_returns [] is rs = (_, _, (poll_empty e unlocked s is a).0)
  serving_returns (x ∷ xs) is (t, l, c, rs) =
      let (q, eq, is') = poll_first e unlocked s is l a u c in (_, _, eq)

  closing_returns :
      {f : Ptr} (ps : List Ptr)
      → IsTaskQueue s tp (ps ++ f ∷ [])
      → Requests s.tasks ps
      → Finish s.tasks f
      → PollReturns e unlocked s
  closing_returns [] is rs fin = (_, _, poll_finish e unlocked s is fin.live a u fin.no_ctx)
  closing_returns (x ∷ xs) is (t, l, c, rs) fin =
      let (q, eq, is') = poll_first e unlocked s is l a u c in (_, _, eq)

unload_of :
    (calls : PostCalls) (fresh : Ptr) (self : Runtime) (s : Store) {rc : Rc} {s' : Store}
    → self.finished ≡ false
    → task_finish calls fresh s ≡ ok rc s'
    → (r : Runtime × Option Rc) × (s'' : Store) × (runtime_unload calls fresh self s ≡ ok r s'')
unfolding runtime_unload
unload_of calls fresh self s {rc} {s'} go e =
    ((unloaded_runtime, some rc), s', rw (go, e, runtime_unload))

-- `serves` is the task queue of a runtime that is not finished.
pub unload_returns :
    (calls : PostCalls) (fresh : Ptr) (self : Runtime) (ps : List Ptr) (s : Store)
    → fresh ≢ null
    → s.tasks fresh ≡ none
    → failed calls.mutex_unlock ≡ false
    → (self.finished ≡ false → (tp : FfiTaskQueue) × IsTaskQueue s tp ps)
    → (r : Runtime × Option Rc) × (s' : Store) × (runtime_unload calls fresh self s ≡ ok r s')
unload_returns calls fresh self ps s ne unused u serves = elim (Bool-cases self.finished) [
  | inl over ↦ (_, _, unload_finished calls fresh self s over)
  | inr go ↦
      let (tp, is) = serves go in
      elim (Bool-cases (accepts calls zero_task tp)) [
        | inl room ↦
            let (s', tp', finishes, is', fin, same, k) =
              task_finish_queued calls fresh ps s ne unused is room u in
            unload_of calls fresh self s go finishes
        | inr no_room ↦
            let (s', tp', finishes, is', same, k) =
              task_finish_refused calls fresh ps s ne unused is no_room u in
            unload_of calls fresh self s go finishes
      ]
]

-- In every reachable state whose queue is not given back, a poll that gets the mutex comes to an
-- answer or to a wait, and so does an unload to an answer, first or repeated; neither faults.
poll_and_unload_return :
    {s : Store} {m : ℤ} {L : Life} (e : Entry) (unlocked : Rc) (calls : PostCalls) (fresh : Ptr)
    → Reach s m L
    → L.store.tq ≢ none
    → entry_failed e ≡ false
    → failed unlocked ≡ false
    → fresh ≢ null
    → L.store.tasks fresh ≡ none
    → failed calls.mutex_unlock ≡ false
    → ((answer : PollResult) × (s' : Store) × (poll e unlocked L.store ≡ ok answer s'))
      × ((r : Runtime × Option Rc) × (s' : Store) × (runtime_unload calls fresh L.runtime L.store
            ≡ ok r s'))
poll_and_unload_return {L = L} e unlocked calls fresh reach there a u ne unused u' = (
  polls (Reach-Inv reach).phase,
  unload_returns calls fresh L.runtime L.pending L.store ne unused u'
      (λ go. let (tp, is, _, _) = serving_of go (Reach-Inv reach).phase in (tp, is)),
)
  where
    polls : Phase L → PollReturns e unlocked L.store
    polls (serving is rs) = serving_returns e unlocked a u L.store L.pending is rs
    polls (closing end is rs fin) = closing_returns e unlocked a u L.store L.pending is rs fin
    polls (ended end gone empty) = absurd (there gone)
