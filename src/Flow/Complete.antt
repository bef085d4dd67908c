-- ===== src/Flow/Complete.antt =====
-- That the event loop gets through all responses.
use lua_resty_ffi.Common.{◌≡◌, List, [], ◌++◌}
use lua_resty_ffi.Store.{Ptr, Store}
use lua_resty_ffi.Flow.{Flow}

-- What only the event loop has done, from `F` to `G`.
record Looped (F G : Flow) (xs : List Ptr) : Type 0 where
  taken : G.taken ≡ []
  handled : G.handled ≡ F.handled ++ xs
  done : G.done ≡ F.done
  replied : G.replied ≡ F.replied
  accepted : G.accepted ≡ F.accepted
  queued : G.queued ≡ F.queued
  held : G.held ≡ F.held
