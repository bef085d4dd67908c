-- ===== src/Flow/Polls.antt =====
-- The step of a thread of the runtime that asks for a task: it gets the oldest, waits, or, at the end of
-- the queue, gets NULL.
use lua_resty_ffi.Common.{◌<◌, ◌≡◌, refl, sym, ◌∙◌, false, List, [], ◌∷◌, ◌++◌, ==_false, arith}
use mathlib.Core.List.{append_assoc}
use lua_resty_ffi.Nginx.{Rc, failed}
use lua_resty_ffi.Store.{Ptr, null, Store}
use lua_resty_ffi.Store.Commands.{ok, ok_inj}
use lua_resty_ffi.Queue.Chain.{IsQueue-frame}
use lua_resty_ffi.TaskQueue.{PollResult}
use lua_resty_ffi.TaskQueue.Poll.{Entry, entry_failed, poll, polled, poll_empty, poll_first}
use lua_resty_ffi.Flow.{Flow, in_flight, after_poll}
use lua_resty_ffi.Flow.Count.{count-append, count-has}
use lua_resty_ffi.Flow.Sound.{Sound-frame}
use lua_resty_ffi.Store.Commands.{write}
use lua_resty_ffi.Common.{◌≢◌, some, true}
use lua_resty_ffi.TaskQueue.Post.{IsTaskQueue}
use lua_resty_ffi.TaskQueue.Poll.{poll_finish}
use lua_resty_ffi.TaskQueue.Drain.{Finish}
use lua_resty_ffi.Store.{FfiTaskQueue, Queue}
use lua_resty_ffi.Lua.Life.Phase.{poll_ended}
use lua_resty_ffi.Flow.Serves.{Serves, serving, closing, ended}
use lua_resty_ffi.Flow.Invariant.{Inv, not_out}

abbrev with_queued : Flow → List Ptr → Flow
with_queued F xs = record F { queued = xs }

module _ (e : Entry) (unlocked : Rc) {answer : PollResult} {s : Store} (F : Flow)
    (a : entry_failed e ≡ false) (u : failed unlocked ≡ false)
    (polled-s : poll e unlocked F.store ≡ ok answer s) where
  waits-Inv :
      {tp : FfiTaskQueue}
      → Inv (with_queued F [])
      → IsTaskQueue F.store tp []
      → Inv (after_poll (with_queued F []) answer s)
  waits-Inv inv is =
      let (eq, is') = poll_empty e unlocked F.store is a in
      let (answers, stores) = ok_inj (sym polled-s ∙ eq) in
      rw (answers, stores)
        (record {
          serves = serving is';
          done = inv.done;
          each = λ b o.
              let (c, sound) = inv.each b o in
              (
                c,
                Sound-frame refl refl refl (λ h. (refl, refl)) (λ h. (refl, refl)) (λ h. refl)
                    sound,
              );
          once = inv.once;
          counted = inv.counted;
          fifo = inv.fifo;
          order = inv.order;
          clean = inv.clean;
        })

  -- `zs` are the tasks behind the first, the finishing one included.
  first-Inv :
      {tp : FfiTaskQueue} (x : Ptr) (xs zs : List Ptr)
      → Inv (with_queued F (x ∷ xs))
      → IsTaskQueue F.store tp (x ∷ zs)
      → ((q : Queue)
          → IsTaskQueue (record F.store { tq = some (polled e tp q) }) (polled e tp q) zs
          → Serves (record F.store { tq = some (polled e tp q) }) F.runtime.finished xs)
      → Inv (after_poll (with_queued F (x ∷ xs)) answer s)
  first-Inv {tp} x xs zs inv is serves =
      let (t, _, l, _) = is.queue.chain in
      let (c, sound) = inv.each x (ground arith) in
      let (q, eq, is') =
        poll_first e unlocked F.store is l a u (ground (arith, l.holds, l.ne_null, sound.task)) in
      let (answers, stores) = ok_inj (sym polled-s ∙ eq) in
      let same : (b : Ptr)
          → in_flight (record (with_queued F xs) { held = F.held ++ x ∷ [] }) b
            ≡ in_flight (with_queued F (x ∷ xs)) b =
        λ b. omega (arith, count-append b F.held (x ∷ [])) in
      rw (answers, stores, ==_false x null l.ne_null)
        (record {
          serves = serves q is';
          done = inv.done;
          each = λ b o.
              let (d, sound) = inv.each b (omega (arith, same b)) in
              (
                d,
                Sound-frame refl refl refl (λ h. (refl, refl)) (λ h. (refl, refl)) (λ h. refl)
                    sound,
              );
          once = λ b. omega (arith, same b, inv.once b);
          counted = λ b. omega (arith, same b, inv.counted b);
          fifo = inv.fifo ∙ sym (append_assoc F.polled (x ∷ []) xs);
          order = inv.order;
          clean = λ b z. inv.clean b (omega (arith, same b));
        })

  end-Inv :
      {tp : FfiTaskQueue} {f : Ptr}
      → Inv (with_queued F [])
      → F.runtime.finished ≡ true
      → IsTaskQueue F.store tp (f ∷ [])
      → Finish F.store.tasks f
      → Inv (after_poll (with_queued F []) answer s)
  unfolding write
  end-Inv {f = f} inv over is fin =
      let (answers, stores) =
        ok_inj (sym polled-s ∙ poll_finish e unlocked F.store is fin.live a u fin.no_ctx) in
      let gone : in_flight (with_queued F []) f ≡ 0 =
        not_out inv f fin.live.ne_null
          (λ same. ground (arith, fin.live.holds, fin.no_ctx, fin.live.ne_null)) in
      let apart : (b : Ptr) → 0 < in_flight (with_queued F []) b → f ≢ b =
        λ b o same. ground (arith, gone) in
      rw (answers, stores)
        (record {
          serves = ended over refl refl;
          done =
              IsQueue-frame F.done
                (λ b i. ground (arith, apart b (omega (arith, count-has b F.done i)))) inv.done;
          each = λ b o.
              let (c, sound) = inv.each b o in
              (
                c,
                Sound-frame (ground (arith, apart b o)) (ground (arith, apart b o))
                    (ground (arith, apart b o)) (λ h. (refl, refl)) (λ h. (refl, refl)) (λ h. refl)
                    sound,
              );
          once = inv.once;
          counted = inv.counted;
          fifo = inv.fifo;
          order = inv.order;
          clean = λ b z. ground (arith, inv.clean b z);
        })

  by_serves :
      (xs : List Ptr)
      → Inv (with_queued F xs)
      → Serves F.store F.runtime.finished xs
      → Inv (after_poll (with_queued F xs) answer s)
  by_serves [] inv (serving is) = waits-Inv inv is
  by_serves (x ∷ xs) inv (serving is) = first-Inv x xs xs inv is (λ q is'. serving is')
  by_serves [] inv (closing over is fin) = end-Inv inv over is fin
  by_serves (x ∷ xs) inv (closing {f = f} over is fin) =
      first-Inv x xs (xs ++ f ∷ []) inv is (λ q is'.
        closing over is' (record { task = fin.task; live = fin.live; no_ctx = fin.no_ctx }))
  by_serves xs inv (ended over gone none_left) =
      let stuck = sym polled-s ∙ poll_ended e unlocked F.store gone a in absurd (cc)

pub polls-Inv :
    {F : Flow} (inv : Inv F) (e : Entry) (unlocked : Rc) {answer : PollResult} {s : Store}
    → entry_failed e ≡ false
    → failed unlocked ≡ false
    → poll e unlocked F.store ≡ ok answer s
    → Inv (after_poll F answer s)
polls-Inv {F} inv e unlocked a u ran = by_serves e unlocked F a u ran F.queued inv inv.serves
