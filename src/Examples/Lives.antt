-- ===== src/Examples/Lives.antt =====
-- A runtime that gets one request, is unloaded, hands the request out and ends.
use lua_resty_ffi.Common.{◌≡◌, refl, true, some, none, List, [], ◌∷◌, arith}
use lua_resty_ffi.Common.Int.{pos, ◌+ℤ◌, ◌-ℤ◌}
use lua_resty_ffi.Nginx.{ngx_ok}
use lua_resty_ffi.Store.{null, Store, FfiTaskQueue, next_of}
use lua_resty_ffi.Store.Commands.{
  ok, fault, write, deref, Live, load_task, load_ctx, load_co, load_tq, set_task, set_ctx, set_co,
  set_tq, free_block,
}
use lua_resty_ffi.Queue.{append, remove}
use lua_resty_ffi.Task.{zero_task, create_task}
use lua_resty_ffi.TaskQueue.{
  returned, zero_tq, post, task_post, task_finish, task_poll, free_task_queue,
}
use lua_resty_ffi.TaskQueue.Poll.{enters, wakes, poll}
use lua_resty_ffi.Lua.{runtime_post, runtime_unload}
use lua_resty_ffi.Lua.Life.{
  Life, Given, Reach, start, later, posts, unloads, polls, loaded, Trace, nothing_yet, then_seen,
}
use lua_resty_ffi.Lua.Service.{Service, Action, takes, unloaded, hands_out, told_end, at_end, serve}
use lua_resty_ffi.Lua.Life.Traces.{new_service}
use lua_resty_ffi.Lua.Life.Complete.{ended_complete, Trace-serve, second_poll}
use lua_resty_ffi.Examples.Data.{idle, co, lua_ctx, calls, live_co}

loaded-Given : Given (loaded idle (pos 3)).store 3 40 300 lua_ctx co
loaded-Given = record {
  ctx_of = refl;
  co_of = live_co;
  fresh_ne = omega arith;
  unused = refl;
  unused_ctx = refl;
  buf_ne = omega arith;
}

loaded-Reach : Reach idle (pos 3) (loaded idle (pos 3))
loaded-Reach = start

requested : (L : Life) × Reach idle (pos 3) L
unfolding runtime_post task_post create_task post append write deref load_task load_ctx load_co
    load_tq set_task set_ctx set_co set_tq ◌+ℤ◌
requested = (_, later loaded-Reach (posts calls 3 40 300 (some (104 ∷ [])) loaded-Given refl refl))

over : (L : Life) × Reach idle (pos 3) L
unfolding runtime_unload task_finish post append remove poll task_poll write deref load_task
    load_ctx load_co load_tq set_task set_ctx set_co set_tq ◌+ℤ◌ ◌-ℤ◌ free_block free_task_queue
    runtime_post task_post create_task requested
over = (
  _,
  later
      (later (later requested.1 (unloads calls 50 (omega arith) refl refl refl))
        (polls (enters ngx_ok) ngx_ok refl refl refl))
      (polls (enters ngx_ok) ngx_ok refl refl refl),
)

-- What is seen of that life.
abbrev over_acts : List Action
over_acts = takes 40 ∷ (unloaded ∷ (hands_out 40 ∷ (told_end ∷ [])))

over-Trace : Trace idle (pos 3) over.0 over_acts
unfolding runtime_unload task_finish post append remove poll task_poll write deref load_task
    load_ctx load_co load_tq set_task set_ctx set_co set_tq ◌+ℤ◌ ◌-ℤ◌ free_block free_task_queue
    runtime_post task_post create_task requested over
over-Trace =
    then_seen
      (then_seen
        (then_seen
          (then_seen nothing_yet (posts calls 3 40 300 (some (104 ∷ [])) loaded-Given refl refl))
          (unloads calls 50 (omega arith) refl refl refl))
        (polls (enters ngx_ok) ngx_ok refl refl refl))
      (polls (enters ngx_ok) ngx_ok refl refl refl)

Trace-serve_example :
    (S : Service) × (serve new_service over_acts ≡ some S)
    × (S.waiting ≡ over.0.pending)
    × (S.mode ≡ at_end → over.0.store.tq ≡ none)
    × (over.0.store.tq ≡ none → S.mode ≡ at_end)
Trace-serve_example = Trace-serve over-Trace

ended_complete_example :
    (over.0.runtime.finished ≡ true) × (over.0.delivered ≡ over.0.accepted) × (over.0.pending ≡ [])
unfolding over
ended_complete_example = ended_complete over.1 refl

abbrev last_tq : FfiTaskQueue
last_tq = record zero_tq { queue = record { first = 50; last = next_of 50 }; waiting = pos 1 }

abbrev last_store : Store
last_store = record idle {
  tasks = write idle.tasks 50 (some (record zero_task { active = true }));
  tq = some last_tq;
}

last_live : Live last_store.tasks 50 (record zero_task { active = true })
unfolding write
last_live = record { ne_null = omega arith; holds = refl }

second_poll_example :
    (s' : Store) × (poll (enters ngx_ok) ngx_ok last_store ≡ ok (returned null) s')
    × (poll (wakes ngx_ok) ngx_ok s' ≡ fault)
second_poll_example =
    second_poll (enters ngx_ok) (wakes ngx_ok) ngx_ok ngx_ok last_store
      (record {
        present = refl;
        unlocked = refl;
        queue = record {
          chain = (record zero_task { active = true }, refl, last_live, refl);
          last = refl;
          distinct = (refl, tt);
        };
      })
      (record { task = record zero_task { active = true }; live = last_live; no_ctx = refl }) refl
      refl refl
