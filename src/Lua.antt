-- ===== src/Lua.antt =====
-- resty_ffi.lua: a loaded runtime as Lua holds it, with its requests and its end. Lua is the only
-- caller of ngx_http_lua_ffi_task_post and ngx_http_lua_ffi_task_finish.
pub mod Life
pub mod Load
pub mod Service
use lua_resty_ffi.Common.{
  ℕ, ◌==◌, if◌then◌else◌, Bool, true, false, Option, none, some, List, [], ◌∷◌, ◌++◌, length,
}
use lua_resty_ffi.Common.Int.{ℤ, pos}
use lua_resty_ffi.Nginx.{Rc, failed}
use lua_resty_ffi.Store.{Ptr, null}
use lua_resty_ffi.Store.Commands.{Cmd, ok, fault, pure, ◌>>=◌, ◌>>◌, write}
use lua_resty_ffi.TaskQueue.{PostCalls, task_post, task_finish}

-- The fields of a runtime's table that are tested; `has_tq` says that `tq` is not nil, and `cached`
-- that the table of all runtimes has it under its key.
pub record Runtime : Type 0 where
  pub finished : Bool
  pub has_tq : Bool
  pub cached : Bool

-- What a request comes to at first: one of the two messages, or the coroutine yields.
pub data Reply : Type 0 where
  task_queue_is_finished queue_full yields : Reply

-- `C.malloc(#req + 1)` and `ffi.copy(buf, req)`, which copies the 0 behind the string too.
copy_request : (buf : Ptr) → (req : Option (List ℕ)) → Cmd (Unit {0})
copy_request buf none = pure tt
copy_request buf (some bytes) = if buf == null then (λ s. fault) else λ s.
    ok tt (record s { bufs = write s.bufs buf (some (bytes ++ 0 ∷ [])) })

-- What is passed on for the request: the buffer and its length.
abbrev pub request_ptr : Ptr → Option (List ℕ) → Ptr
request_ptr buf none = null
request_ptr buf (some bytes) = buf

abbrev pub request_len : Option (List ℕ) → ℤ
request_len none = pos 0
request_len (some bytes) = pos (length bytes)

-- `post`; `r` is the request that runs, `fresh` and `buf` are what the allocations give.
unfoldable pub runtime_post :
    PostCalls → (r fresh buf : Ptr) → (req : Option (List ℕ)) → Runtime → Cmd Reply
unfolding copy_request
runtime_post calls r fresh buf req self = if self.finished then pure task_queue_is_finished else do
  copy_request buf req
  rc ← task_post calls r fresh (request_ptr buf req) (request_len req)
  pure (if failed rc then queue_full else yields)

-- `unload`: the table afterwards, and, for the statements alone, what
-- ngx_http_lua_ffi_task_finish answered where it was called; Lua does not look at that.
unfoldable pub runtime_unload : PostCalls → (fresh : Ptr) → Runtime → Cmd (Runtime × Option Rc)
runtime_unload calls fresh self = if self.finished then pure (self, none) else do
  rc ← task_finish calls fresh
  pure (record { finished = true; has_tq = false; cached = false }, some rc)
