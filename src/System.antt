-- ===== src/System.antt =====
-- The task queue of ngx_http_lua_ffi.c under concurrency: the nginx worker posts, any number of
-- runtime threads poll, and each critical section of the mutex is one step. A poller that waits in
-- ngx_thread_cond_wait is asleep until a signal, or a spurious wake-up, and awake until it has the
-- mutex again.
pub mod Invariant
pub mod Safety
use lua_resty_ffi.Common.{
  ℕ, ◌+◌, ◌-◌, ◌≤◌, ◌<◌, ◌≡◌, ◌≢◌, Bool, true, false, List, [], ◌∷◌, ◌++◌, leb, if◌then◌else◌, none,
  some,
}
use lua_resty_ffi.Common.Int.{ℤ}
use lua_resty_ffi.Nginx.{Rc, failed}
use lua_resty_ffi.Store.{Ptr, null, Task, FfiTaskQueue, Store}
use lua_resty_ffi.Store.Commands.{ok, Live}
use lua_resty_ffi.Queue.Chain.{has}
use lua_resty_ffi.TaskQueue.{PostCalls, post, PollResult, returned, in_cond_wait, zero_tq}
use lua_resty_ffi.TaskQueue.Poll.{Entry, enters, wakes, entry_failed, poll}

-- `pending` are the tasks in the queue, `accepted` all that were ever queued, `delivered` all that
-- polls have returned, each oldest first; `asleep` and `awake` count the pollers that wait.
pub record System : Type 0 where
  pub store : Store
  pub pending : List Ptr
  pub accepted : List Ptr
  pub delivered : List Ptr
  pub asleep : ℕ
  pub awake : ℕ

abbrev pub tail : List Ptr → List Ptr
tail [] = []
tail (x ∷ xs) = xs

-- How many signals the condition variable got from one memory to the next.
abbrev pub signals_of : Store → ℕ
signals_of s = elim s.tq [ none ↦ 0 | some tp ↦ tp.signals ]

abbrev pub sent : System → Store → ℕ
sent S s = signals_of s - signals_of S.store

-- Each signal wakes one sleeper, if there is one left.
abbrev pub woken : (signals asleep : ℕ) → ℕ
woken signals asleep = if leb signals asleep then signals else asleep

abbrev pub wake : ℕ → System → System
wake signals S = record S {
  asleep = S.asleep - woken signals S.asleep;
  awake = S.awake + woken signals S.asleep;
}

-- A post: who wakes up is by the signals that it sent.
abbrev pub after_post : System → Ptr → (refused : Bool) → Store → System
after_post S task true s = record (wake (sent S s) S) { store = s }
after_post S task false s = record (wake (sent S s) S) {
  store = s;
  pending = S.pending ++ task ∷ [];
  accepted = S.accepted ++ task ∷ [];
}

abbrev pub after_poll : System → PollResult → Store → System
after_poll S (returned p) s = record S {
  store = s;
  pending = tail S.pending;
  delivered = S.delivered ++ p ∷ [];
}
after_poll S in_cond_wait s = record S { store = s; asleep = S.asleep + 1 }

-- A poll comes from outside, or from a poller that is awake.
abbrev pub taken : Entry → ℕ
taken (enters _) = 0
taken (wakes _) = 1

abbrev pub Ready : Entry → System → Type 0
Ready e S = taken e ≤ S.awake

abbrev pub leave : Entry → System → System
leave e S = record S { awake = S.awake - taken e }

-- `elsewhere` is whatever else happens to the memory: it leaves the queue and its tasks alone.
pub data Step (S : System) : System → Type 0 where
  posts :
      (calls : PostCalls) (task : Ptr) {t : Task} {rc : Rc} {s : Store}
      → Live S.store.tasks task t
      → t.ctx ≢ null
      → has task S.pending ≡ false
      → failed calls.mutex_unlock ≡ false
      → post calls task S.store ≡ ok rc s
      → Step S (after_post S task (failed rc) s)
  polls :
      (e : Entry) (unlocked : Rc) {answer : PollResult} {s : Store}
      → Ready e S
      → entry_failed e ≡ false
      → failed unlocked ≡ false
      → poll e unlocked S.store ≡ ok answer s
      → Step S (after_poll (leave e S) answer s)
  spurious : 0 < S.asleep → Step S (record S { asleep = S.asleep - 1; awake = S.awake + 1 })
  elsewhere :
      (s : Store)
      → s.tq ≡ S.store.tq
      → ((a : Ptr) → has a S.pending ≡ true → s.tasks a ≡ S.store.tasks a)
      → Step S (record S { store = s })

-- A queue that was just created over the memory `s`.
abbrev pub init : Store → (max_queue : ℤ) → System
init s max_queue = record {
  store = record s { tq = some (record zero_tq { max_queue = max_queue }) };
  pending = [];
  accepted = [];
  delivered = [];
  asleep = 0;
  awake = 0;
}

pub data Reach (s : Store) (max_queue : ℤ) : System → Type 0 where
  start : Reach s max_queue (init s max_queue)
  later : {S T : System} → Reach s max_queue S → Step S T → Reach s max_queue T
