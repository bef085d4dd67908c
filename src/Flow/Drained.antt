-- ===== src/Flow/Drained.antt =====
-- That every request can come to its end, whatever state the runtime is in.
use lua_resty_ffi.Common.{◌≡◌, ◌≢◌, List, ◌∷◌}
use lua_resty_ffi.Nginx.{ngx_ok}
use lua_resty_ffi.Store.{Ptr, null, Store}
use lua_resty_ffi.Store.Commands.{ok}
use lua_resty_ffi.TaskQueue.{returned}
use lua_resty_ffi.TaskQueue.Poll.{enters, poll}
use lua_resty_ffi.Flow.{Flow}
use lua_resty_ffi.Flow.Invariant.{Inv}
use lua_resty_ffi.Flow.Serves.{Serves}

-- A poll of a queue that is not empty returns its first task.
module _ (F : Flow) (x : Ptr) (xs : List Ptr) (e : F.queued ≡ x ∷ xs) (inv : Inv F) where
  abbrev Polled : Type 0
  Polled = (s : Store) × (poll (enters ngx_ok) ngx_ok F.store ≡ ok (returned x) s) × (x ≢ null)
