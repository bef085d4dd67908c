-- ===== src/Node/Bindings.antt =====
-- examples/nodejs/resty_ffi.cc. What the calls of Node-API answer are arguments: a status is `true`
-- for napi_ok.
use lua_resty_ffi.Common.{
  ℕ, zero, suc, ◌+◌, ◌==◌, if◌then◌else◌, not, ◌||◌, ◌&&◌, Bool, true, Option, none, some, List, [],
  ◌∷◌,
}
use mathlib.Core.Option
use lua_resty_ffi.Common.Int.{ℤ, pos}
use lua_resty_ffi.Nginx.{Rc}
use lua_resty_ffi.Store.{Ptr, null}
use lua_resty_ffi.Store.Commands.{Cmd, ok, fault, pure, ◌>>=◌, ◌>>◌, write, load_buf}
use lua_resty_ffi.Task as Task
use lua_resty_ffi.TaskQueue.{PollResult, returned, in_cond_wait, task_poll}
use lua_resty_ffi.Response as Response

-- napi_get_cb_info: its status, and the number of arguments of the call.
pub record CallInfo : Type 0 where
  pub status : Bool
  pub argc : ℕ

-- What JavaScript gets: NULL is `undefined`. A poll may also wait.
pub data Outcome : Type 0 where
  throws undefined waits : Outcome
  bigint : ℕ → Outcome
  text : List ℕ → Outcome

-- `status != napi_ok || argc != n`
abbrev wrong_arguments : CallInfo → ℕ → Bool
wrong_arguments info n = not info.status || not (info.argc == n)

abbrev polled_task : PollResult → Outcome
polled_task (returned p) = bigint p
polled_task in_cond_wait = waits

unfoldable pub poll_task : CallInfo → (mutex_lock mutex_unlock : Rc) → Cmd Outcome
poll_task info mutex_lock mutex_unlock =
    if wrong_arguments info 1
    then pure throws
    else do tsk ← task_poll mutex_lock mutex_unlock; pure (polled_task tsk)

abbrev created_text : Option (List ℕ) → Outcome
created_text none = undefined
created_text (some t) = text t

-- `create_string` is napi_create_string_utf8 on the bytes at a pointer and a length; a text stands as
-- its UTF-8 bytes.
unfoldable pub js_get_req :
    (create_string : List ℕ → ℤ → Option (List ℕ)) → CallInfo → (tsk : Ptr) → Cmd Outcome
js_get_req create_string info tsk = if wrong_arguments info 1 then pure throws else do
  (req, len) ← Task.get_req tsk true
  elim len [
    | none ↦ pure undefined
    | some n ↦
        if req == null
        then pure undefined
        else do b ← load_buf req; pure (created_text (create_string b n))
  ]

-- What the two calls of napi_get_value_string_utf8 give: the length of the text, without a buffer, and
-- the bytes that the second one writes, by the size of the buffer that it is told.
pub record Text : Type 0 where
  pub str_size : ℕ
  pub copied : (bufsize : ℕ) → List ℕ

abbrev pub zeros : ℕ → List ℕ
zeros zero = []
zeros (suc n) = 0 ∷ zeros n

-- The contents of a buffer after bytes are written from its start; `none` where they go past its end.
abbrev pub overwrite : List ℕ → (buffer : List ℕ) → Option (List ℕ)
overwrite [] b = some b
overwrite (x ∷ xs) [] = none
overwrite (x ∷ xs) (y ∷ b) = Option.map (λ ys. x ∷ ys) (overwrite xs b)

set_buf : Ptr → List ℕ → Cmd (Unit {0})
set_buf buf b s = ok tt (record s { bufs = write s.bufs buf (some b) })

-- The copy of an argument: `buf` is what `calloc(str_size + 1, 1)` gives, and the size that the second
-- call is told is the one after `str_size = str_size + 1`. Nothing is written through NULL.
copy_text : (buf : Ptr) → Text → Cmd (Unit {0})
unfolding set_buf
copy_text buf t = if buf == null then pure tt else do
  set_buf buf (zeros (t.str_size + 1))
  b ← load_buf buf
  elim (overwrite (t.copied (t.str_size + 1)) b) [ none ↦ λ s. fault | some b' ↦ set_buf buf b' ]

-- The length that is passed on is the outer `len`, which stays 0: the `len` that the copy sets is
-- another one, declared in the inner block.
unfoldable pub js_respond : CallInfo → (tsk : Ptr) → (rc : ℤ) → Text → (buf : Ptr) → Cmd Outcome
unfolding copy_text
js_respond info tsk rc t buf =
    if not info.status || (not (info.argc == 2) && not (info.argc == 3))
    then pure throws
    else if info.argc == 3
    then (do copy_text buf t; Response.respond tsk rc buf (pos 0); pure undefined)
    else (do Response.respond tsk rc null (pos 0); pure undefined)

-- The functions that the module defines for JavaScript.
pub data Export : Type 0 where
  poll_task_export get_req_export respond_export : Export

-- The module's properties, or NULL: `created` and `named` are the statuses of a function's creation
-- and of its naming.
unfoldable pub init : (created named : Export → Bool) → Option (List Export)
init created named =
    if not (created poll_task_export && named poll_task_export)
    then none
    else if not (created get_req_export && named get_req_export)
    then none
    else if not (created respond_export && named respond_export)
    then none
    else some (poll_task_export ∷ get_req_export ∷ respond_export ∷ [])
