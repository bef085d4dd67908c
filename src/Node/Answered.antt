-- ===== src/Node/Answered.antt =====
-- One request that is served by JavaScript: polled, read and answered through
-- examples/nodejs/resty_ffi.cc, on its way between its coroutine and that coroutine.
use lua_resty_ffi.Common.{
  ℕ, ◌+◌, ◌<◌, ◌≤◌, ◌≡◌, ◌≢◌, refl, true, false, Option, none, some, List, [], ◌∷◌, ◌++◌, arith,
  length, take,
}
use mathlib.Core.List.{append_assoc, append-nil}
use lua_resty_ffi.Common.Int.{ℤ, pos}
use lua_resty_ffi.Nginx.{Rc, ngx_ok, failed}
use lua_resty_ffi.Store.{Ptr, null, CoCtx, LuaCtx, string, FfiTaskQueue, Store}
use lua_resty_ffi.Store.Commands.{ok, Live, write, deref, load_buf}
use lua_resty_ffi.Queue.Chain.{IsQueue}
use lua_resty_ffi.Task as Task
use lua_resty_ffi.TaskQueue.{PostCalls, returned, empty_queue, task_post}
use lua_resty_ffi.TaskQueue.Post.{IsTaskQueue, accepts}
use lua_resty_ffi.TaskQueue.Poll.{enters, poll}
use lua_resty_ffi.TaskQueue.TaskPost.{new_task}
use lua_resty_ffi.Response as Response
use lua_resty_ffi.Event.{run_event}
use lua_resty_ffi.Event.Results.{NoNul, c_string}
use lua_resty_ffi.RoundTrip.{Answer, WellAnswered, Returned}
use lua_resty_ffi.RoundTrip.Whole.{round_trip}
use lua_resty_ffi.Node.Utf8.{is_utf8}
use lua_resty_ffi.Node.Bindings.{
  CallInfo, undefined, bigint, text, poll_task, js_get_req, Text, zeros, overwrite, js_respond,
}

-- A call with `n` arguments.
abbrev pub call_of : ℕ → CallInfo
call_of n = record { status = true; argc = n }

-- napi_create_string_utf8 makes a string of the first bytes, as many as it is told, where those are
-- UTF-8.
pub record CreatesString (create_string : List ℕ → ℤ → Option (List ℕ)) : Type 0 where
  pub makes :
      (b : List ℕ) (n : ℕ)
      → n ≤ length b
      → is_utf8 (take n b) ≡ true
      → create_string b (pos n) ≡ some (take n b)

-- napi_get_value_string_utf8 gives the length of a text without the 0 at its end, and writes the text
-- with a 0 behind it, where the size that it is told has room for both.
pub record IsText (t : Text) (bytes : List ℕ) : Type 0 where
  pub size : t.str_size ≡ length bytes
  pub copy : (n : ℕ) → length bytes < n → t.copied n ≡ bytes ++ 0 ∷ []

-- A text with a 0 behind it just fits.
overwrite_fits :
    (bytes : List ℕ)
    → overwrite (bytes ++ 0 ∷ []) (zeros (length bytes + 1)) ≡ some (bytes ++ 0 ∷ [])
overwrite_fits [] = refl
overwrite_fits (x ∷ bytes) = ground (arith, overwrite_fits bytes)

js_poll :
    (s : Store) {s' : Store} {p : Ptr}
    → poll (enters ngx_ok) ngx_ok s ≡ ok (returned p) s'
    → poll_task (call_of 1) ngx_ok ngx_ok s ≡ ok (bigint p) s'
unfolding poll poll_task
js_poll s e = ground arith

js_reads :
    {create_string : List ℕ → ℤ → Option (List ℕ)} (c : CreatesString create_string) (s : Store)
    (p : Ptr) {req : Ptr} {b : List ℕ} (n : ℕ)
    → Task.get_req p true s ≡ ok (req, some (pos n)) s
    → Live s.bufs req b
    → n ≤ length b
    → is_utf8 (take n b) ≡ true
    → js_get_req create_string (call_of 1) p s ≡ ok (text (take n b)) s
unfolding js_get_req load_buf deref
js_reads c s p {b = b} n e l le utf8 = ground (arith, l.ne_null, l.holds, c.makes b n le utf8)

-- The buffers with the copy of a text in a new one.
abbrev pub with_text : Ptr → List ℕ → (Ptr → Option (List ℕ)) → Ptr → Option (List ℕ)
with_text buf bytes bufs =
    write (write bufs buf (some (zeros (length bytes + 1)))) buf (some (bytes ++ 0 ∷ []))

js_answers :
    (s : Store) {s' : Store} (p : Ptr) (rc : ℤ) (t : Text) (bytes : List ℕ) (buf : Ptr)
    → buf ≢ null
    → IsText t bytes
    → Response.respond p rc buf (pos 0) (record s { bufs = with_text buf bytes s.bufs }) ≡ ok tt s'
    → js_respond (call_of 3) p rc t buf s ≡ ok undefined s'
unfolding js_respond load_buf deref write
js_answers s p rc t bytes buf ne is e =
    let copied : t.copied (length bytes + 1) ≡ bytes ++ 0 ∷ [] =
      is.copy (length bytes + 1) (omega arith) in
    ground (arith, is.size, copied, overwrite_fits bytes)

-- The texts that JavaScript may answer with: the bytes before the first 0, and the ones from there
-- on, which may be none.
abbrev pub FromNul : List ℕ → Type 0
FromNul [] = Unit
FromNul (x ∷ xs) = x ≡ 0

from_nul :
    (xs rest : List ℕ) → FromNul rest → (more : List ℕ) × ((xs ++ rest) ++ 0 ∷ [] ≡ xs ++ 0 ∷ more)
from_nul xs [] f = ([], rw append-nil)
from_nul xs (x ∷ rest) f = (rest ++ 0 ∷ [], rw f (append_assoc xs (0 ∷ rest) (0 ∷ [])))

module _ (calls : PostCalls) (get_req_of : Ptr → Ptr) (run_rc posted_rc : Rc)
    {create_string : List ℕ → ℤ → Option (List ℕ)} (creates : CreatesString create_string)
    (fresh req buf : Ptr) (n : ℕ) (asked xs rest : List ℕ) (rc : ℤ) (t : Text) {ctx : LuaCtx}
    {co : CoCtx} {tp : FfiTaskQueue} (ys : List Ptr) (s : Store) (ne : fresh ≢ null)
    (unused : s.tasks fresh ≡ none) (request : get_req_of co.co ≢ null)
    (here : s.lua_ctxs (get_req_of co.co) ≡ some ctx) (l : Live s.coros ctx.cur_co_ctx co)
    (is : IsTaskQueue s tp []) (room : accepts calls (new_task fresh) tp ≡ true)
    (u : failed calls.mutex_unlock ≡ false) (done : IsQueue s.tasks s.done ys)
    (live : Live s.bufs req asked) (within : n ≤ length asked)
    (utf8 : is_utf8 (take n asked) ≡ true) (buf_ne : buf ≢ null) (apart : req ≢ buf)
    (answer : IsText t (xs ++ rest)) (no_nul : NoNul xs) (cut : FromNul rest) where
  abbrev r : Ptr
  r = get_req_of co.co

  abbrev given : Answer
  given = record { rc = rc; rsp = buf; rsp_len = pos 0; bufs = with_text buf (xs ++ rest) s.bufs }

  given-WellAnswered : WellAnswered ctx.cur_co_ctx req (pos n) given (string xs)
  unfolding write
  given-WellAnswered =
      let (more, e) = from_nul xs rest cut in
      record {
        kept = λ h gone. ground (arith, live.holds);
        rsp = λ h gone. ground arith;
        apart = λ h. apart;
        payload =
            c_string xs more (record { ne_null = buf_ne; holds = ground (arith, e) }) refl no_nul;
      }

  -- The way of the request, what each of the calls returns in turn.
  abbrev Way : Type 0
  Way =
      (s1 : Store) × (task_post calls r fresh req (pos n) s ≡ ok ngx_ok s1)
      × (s2 : Store) × (poll_task (call_of 1) ngx_ok ngx_ok s1 ≡ ok (bigint fresh) s2)
      × (js_get_req create_string (call_of 1) fresh s2 ≡ ok (text (take n asked)) s2)
      × (s3 : Store) × (js_respond (call_of 3) fresh rc t buf s2 ≡ ok undefined s3)
      × IsQueue s3.tasks s3.done (ys ++ fresh ∷ [])
      × (s4 : Store) × (run_event get_req_of run_rc posted_rc fresh
            (record s3 { done = empty_queue })
          ≡ ok tt s4)
      × Returned fresh req given r co ctx (string xs) run_rc ys s s4

  -- A request that JavaScript serves, under the conditions of a request that goes all the way, where
  -- the `n` bytes of the request are UTF-8: JavaScript reads exactly those bytes. The copy of its
  -- answer fits the buffer that is allocated for it. Whatever text it answers with, the
  -- coroutine gets the bytes of that text before its first 0, and not more, since the length of the
  -- answer is not passed on.
  pub js_round_trip : Way
  js_round_trip =
      let (s1, posts, s2, polls, reads, same, s3, responds, queue, s4, handles, back) =
        round_trip calls get_req_of run_rc posted_rc fresh req (pos n) given ys s ne unused request
          here l is room u done given-WellAnswered in
      (
        s1,
        posts,
        s2,
        js_poll s1 polls,
        js_reads creates s2 fresh n reads (rw same live) within utf8,
        s3,
        js_answers s2 fresh rc t (xs ++ rest) buf buf_ne answer (rw same responds),
        queue,
        s4,
        handles,
        back,
      )
