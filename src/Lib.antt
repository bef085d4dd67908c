-- ===== src/Lib.antt =====
-- A verification library for lua-resty-ffi, which lets Lua code in nginx call runtimes in other
-- languages: a request of a coroutine is put as a task on the queue of a runtime, the threads of
-- the runtime take tasks off the queue and answer them, and an answer is handed to the event loop of
-- nginx, where the coroutine is resumed with it.
--
-- The parts, and the code that they model:
--
-- - Store: the structs of ngx_http_lua_ffi.c as records, in maps by address, and Store/Commands: the
--   monad of commands on them. A read, write or free through NULL, or through an address that holds
--   no live object, is a fault, so that use after free and double free show. A task and its context
--   are one allocation, as in the code (`task + 1`, `task - 1`), and are named by one address.
-- - Nginx: return codes. What a call into nginx answers is an argument of the operation that makes
--   the call.
-- - Queue: the linked queue that the code writes out for tasks and for answered tasks. Queue/Chain
--   says which list of tasks a queue stands for.
-- - Task: ngx_http_lua_ffi_task_alloc, task_free, create_task and get_req.
-- - TaskQueue: ngx_http_lua_ffi_create_task_queue, free_task_queue, ngx_task_post, task_post,
--   task_finish and task_poll. A poll is cut at ngx_thread_cond_wait, where the mutex is released:
--   `task_poll` runs from the call to the return or the first wait, `poll_wake` from the end of a
--   wait to the return or the next one.
-- - System: the task queue under concurrency, as a step relation. The worker posts and any number of
--   threads poll; each critical section is one step. The signals that a post sends are counted in the
--   queue, each wakes a poller that waits, if there is one, and a poller may wake without a signal.
--   All else that happens to the memory is a step that spares the queue.
-- - Response: ngx_thread_pool_notify_inject and ngx_http_lua_ffi_respond.
-- - Event: ngx_http_lua_ffi_event_handler, resume and cleanup. Calls that hand control to nginx are
--   recorded in order in the store; what nginx itself changes in them is not modelled.
-- - RoundTrip: a request on its whole way, through the operations of TaskQueue, Response and Event.
-- - Flow: all requests of a runtime at once, as a step relation over the operations of TaskQueue,
--   Response, Event and Lua: posted, polled, answered, taken by nginx from the queue in memory and
--   handled through the events of the tasks, while waiting
--   coroutines may be torn down, the runtime may be unloaded, and the rest of the program works on its
--   own memory, in any order. Flow/Sound says what holds of one request on its way, Flow/Serves how the
--   task queue goes from serving to closing to gone, Flow/Invariant what holds of all of them.
-- - BuildId: build-id.c. Memory is a map from addresses to bytes that may be unmapped; the objects
--   that dl_iterate_phdr visits and the answer of dladdr are arguments. BuildId/Notes describes a
--   segment as a list of notes, BuildId/Scan and BuildId/Find what the search finds in it.
-- - Init: lua_resty_ffi_init, with the values of the generated symbols.h as an argument. Init/Program
--   joins it with the search of BuildId.
-- - Lua: post and unload of resty_ffi.lua, the only callers of the C operations on the worker's side.
--   Lua/Life is the whole life of a runtime as a step relation: requests, the unload and polls, in
--   any order, to the end of the task queue and beyond. Lua/Service is the specification of it
--   without memory, which says which sequences of actions may be seen. Lua/Load is load_ffi with its
--   table of runtimes and the handles of the libraries, apart from the memory of the queues.
-- - Loader: libffi_init of examples/python/loader.c and examples/java/loader.c. What strsep and
--   strrchr do is written out; the calls of Python and of the JVM are recorded in order, with their
--   answers as arguments. Loader/Digits has numbers as texts.
-- - Node: examples/nodejs/resty_ffi.cc, the functions that JavaScript polls and answers with, and
--   libffi_init of examples/nodejs/loader.cc with the JavaScript handler that it talks to over a
--   socket. Node/Answered is a request on its whole way through JavaScript. Node/Thread is thread_fn
--   of loader.cc: its calls of Node.js and V8, and the objects of its scopes.
-- - Examples: concrete memories at which the theorems are applied.
--
-- Numbers: addresses and sizes are natural numbers; the int fields and the counter `waiting` are
-- integers. The counter is not cut to 64 bits: it is the number of queued tasks less the number
-- of waiting pollers. The arithmetic of build-id.c wraps as written, at 32 bits in ALIGN and at
-- 64 bits in `len`, and so do the size of the buffer and the sums of addresses in
-- lua_resty_ffi_init.
--
-- Fuel: `scan`, the loop over the notes of a segment, runs on fuel, one round for each byte of
-- the segment and one more. A note takes at least 12 bytes, so that this is enough. `drain`, the
-- loop of a runtime around the poll, needs one round for each task and one for the end. `digits`,
-- a round for each digit of a number, is called with one round more than the number itself.
--
-- Sums of addresses in build-id.c are not cut.
--
-- Not modelled: log messages, the ELF class of 32 bits, and the bodies of nginx, of the Lua
-- module, of the JVM, of Python and of Node.js. Of the JavaScript in thread_fn all but the handler of a
-- message is left out. The handles of ffi.load are followed, and not what the garbage collector does
-- with a library that no handle keeps open. Texts of JavaScript
-- stand as their UTF-8 bytes, and what Node-API makes of bytes that are not UTF-8 is left out; a message of the socket arrives in one piece. The Go and Rust
-- examples and the build scripts are not C.
pub mod BuildId
pub mod Common
pub mod Event
pub mod Examples
pub mod Flow
pub mod Init
pub mod Loader
pub mod Lua
pub mod Nginx
pub mod Node
pub mod Queue
pub mod Response
pub mod RoundTrip
pub mod Store
pub mod System
pub mod Task
pub mod TaskQueue
