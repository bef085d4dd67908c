-- ===== src/Examples/Scripts.antt =====
-- Requests and starts that JavaScript serves, and the thread that runs it.
use lua_resty_ffi.Common.{
  ℕ, ◌+◌, ◌≡◌, refl, false, true, Option, none, some, List, [], ◌∷◌, arith, take,
}
use lua_resty_ffi.Common.Int.{ℤ, pos, negsuc}
use lua_resty_ffi.Nginx.{ngx_ok, ngx_done}
use lua_resty_ffi.Store.{Store, string}
use lua_resty_ffi.Store.Commands.{ok}
use lua_resty_ffi.Queue.Chain.{IsQueue}
use lua_resty_ffi.TaskQueue.{empty_queue, task_post}
use lua_resty_ffi.Event.{run_event}
use lua_resty_ffi.RoundTrip.{Answer, Returned}
use lua_resty_ffi.Loader.Split.{marked, config}
use lua_resty_ffi.Loader.Digits.{digits}
use lua_resty_ffi.Node.Bindings.{undefined, bigint, text, poll_task, js_get_req, Text, js_respond}
use lua_resty_ffi.Node.Answered.{call_of, with_text, js_round_trip}
use lua_resty_ffi.Node.Loader.{js_answer, Process, start, libffi_init}
use lua_resty_ffi.Node.Loader.Returns.{libffi_init-js_answer, libffi_init_unreachable}
use lua_resty_ffi.Node.Thread.{NodeAnswers, thread_fn}
use lua_resty_ffi.Node.Thread.Scopes.{begin, run, torn_down, thread_fn_ends}
use lua_resty_ffi.Examples.Data.{co, lua_ctx, calls, live_co, idle, request_of, open_queue}

-- Node-API's strings, for a length that is not negative.
abbrev create_string : List ℕ → ℤ → Option (List ℕ)
create_string b (pos n) = some (take n b)
create_string b (negsuc n) = none

-- JavaScript answers with two bytes, the second of which is 0.
abbrev reply : Text
reply = record { str_size = 2; copied = λ n. 111 ∷ (0 ∷ (0 ∷ [])) }

abbrev given : Answer
given = record {
  rc = pos 0;
  rsp = 300;
  rsp_len = pos 0;
  bufs = with_text 300 (111 ∷ (0 ∷ [])) idle.bufs;
}

js_round_trip_example :
    (s1 : Store) × (task_post calls 3 40 100 (pos 2) open_queue ≡ ok ngx_ok s1)
    × (s2 : Store) × (poll_task (call_of 1) ngx_ok ngx_ok s1 ≡ ok (bigint 40) s2)
    × (js_get_req create_string (call_of 1) 40 s2 ≡ ok (text (104 ∷ (105 ∷ []))) s2)
    × (s3 : Store) × (js_respond (call_of 3) 40 (pos 0) reply 300 s2 ≡ ok undefined s3)
    × IsQueue s3.tasks s3.done (40 ∷ [])
    × (s4 : Store) × (run_event request_of ngx_done ngx_ok 40 (record s3 { done = empty_queue })
        ≡ ok tt s4)
    × Returned 40 100 given 3 co lua_ctx (string (111 ∷ [])) ngx_done [] open_queue s4
js_round_trip_example =
    js_round_trip calls request_of ngx_done ngx_ok (record { makes = λ b n le utf8. refl }) 40 100
      300 2 (104 ∷ (105 ∷ (0 ∷ []))) (111 ∷ []) (0 ∷ []) (pos 0) reply [] open_queue (omega arith)
      refl (omega arith) refl live_co
      (record {
        present = refl;
        unlocked = refl;
        queue = record { chain = refl; last = refl; distinct = tt };
      })
      refl refl (record { chain = refl; last = refl; distinct = tt })
      (record { ne_null = omega arith; holds = refl }) (omega arith) refl (omega arith)
      (omega arith) (record { size = refl; copy = λ n lt. refl }) (omega arith, tt) refl

abbrev idle_process : Process
idle_process = record { initialized = false; threads = 0; connected = false }

libffi_init-js_answer_example :
    libffi_init
      (λ sent. some (js_answer (λ c. some (negsuc 11)) sent))
      (λ i. true)
      (some (config (marked (b'a' ∷ (b'p' ∷ [])) true) (b'f' ∷ []) none))
      26
      idle_process
    ≡ some (negsuc 11, record { initialized = true; threads = 1; connected = true })
unfolding digits start
libffi_init-js_answer_example =
    libffi_init-js_answer (λ i. true) 26 (b'a' ∷ []) b'p' true (b'f' ∷ []) (omega arith)
      (omega arith, (omega arith, tt)) (omega arith) (omega arith, tt) (λ c. some (negsuc 11)) none
      idle_process (negsuc 11) refl refl (omega arith)

libffi_init_unreachable_example :
    (p' : Process) × (libffi_init (λ sent. none) (λ i. false) none 26 idle_process
      ≡ some (pos 0, p'))
    × (p'.connected ≡ false)
    × (p'.threads ≡ 0 + 1)
    × (libffi_init (λ sent. none) (λ i. true) (some (b'x' ∷ [])) 26 p' ≡ some (pos 0, p'))
unfolding digits
libffi_init_unreachable_example =
    libffi_init_unreachable (λ i. false) (λ i. true) none (some (b'x' ∷ [])) 26 26 idle_process refl
      (λ k. refl) (omega arith) (omega arith)

-- One warning, and then all is well.
abbrev answers : NodeAnswers
answers = record {
  errors = (b'w' ∷ []) ∷ [];
  early_return = false;
  exit_code = pos 0;
  has_setup = true;
  setup_errors = [];
  loaded = true;
}

thread_fn_ends_example :
    run begin (thread_fn answers)
    ≡ some (record { stage = torn_down; live = []; late_setup = true })
thread_fn_ends_example = thread_fn_ends answers
