-- ===== src/TaskQueue/Create.antt =====
-- ngx_http_lua_ffi_create_task_queue of ngx_http_lua_ffi.c.
use lua_resty_ffi.Common.{
  ◌≡◌, refl, sym, true, not, ◌||◌, Bool-cases, inl, inr, some, none, [], if◌then◌else◌,
}
use lua_resty_ffi.Common.Int.{ℤ}
use lua_resty_ffi.Nginx.{Rc, failed}
use lua_resty_ffi.Store.{FfiTaskQueue, Store}
use lua_resty_ffi.Store.Commands.{ok, set_tq, load_tq}
use lua_resty_ffi.TaskQueue.{create_task_queue, zero_tq}
use lua_resty_ffi.TaskQueue.Post.{IsTaskQueue}

-- Given the memory for it, and none there yet, a queue is returned exactly when the mutex and the
-- condition variable could be created: it is empty, with its mutex free, a count of 0 and the given
-- limit. Otherwise what was allocated is given back. No other memory changes.
pub create_task_queue_lem :
    (mutex_create cond_create : Rc) (max_queue : ℤ) (s : Store)
    → s.tq ≡ none
    → let made = not (failed mutex_create || failed cond_create) in
      let tp : FfiTaskQueue = record zero_tq { max_queue = max_queue } in
      (s' : Store) × (create_task_queue true mutex_create cond_create max_queue s ≡ ok made s')
      × (s' ≡ (if made then record s { tq = some tp } else s))
      × (made ≡ true → IsTaskQueue s' tp [])
unfolding create_task_queue set_tq load_tq
create_task_queue_lem mutex_create cond_create max_queue s unallocated =
    let back : record s { tq = none } ≡ s = λ i. record s { tq = sym unallocated i } in
    elim (Bool-cases (failed mutex_create)) [
      | inl no_mutex ↦ rw no_mutex (_, refl, back, λ h. cc)
      | inr mutex ↦ elim (Bool-cases (failed cond_create)) [
        | inl no_cond ↦ rw (mutex, no_cond) (_, refl, back, λ h. cc)
        | inr cond ↦
            rw (mutex, cond)
              (
                _,
                refl,
                refl,
                λ h. record {
                  present = refl;
                  unlocked = refl;
                  queue = record { chain = refl; last = refl; distinct = tt };
                },
              )
      ]
    ]
