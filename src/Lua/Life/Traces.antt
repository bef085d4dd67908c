-- ===== src/Lua/Life/Traces.antt =====
-- Every step of a runtime's life is one that the specification allows.
use lua_resty_ffi.Common.{
  ◌≡◌, refl, sym, ap, ◌∙◌, true, false, some, List, [], ◌∷◌, ◌++◌, arith, Bool, if◌then◌else◌,
}
use mathlib.Core.Option
use lua_resty_ffi.Common.Int.{ℤ}
use lua_resty_ffi.Store.{Ptr, Task, FfiTaskQueue, Store}
use lua_resty_ffi.Queue.Chain.{has, has-append, Chain-frame}
use lua_resty_ffi.TaskQueue.Post.{IsTaskQueue}
use lua_resty_ffi.TaskQueue.Finish.{Requests-frame}
use lua_resty_ffi.Lua.Life.{
  Life, Step, posts, unloads, polls, elsewhere, Reach, start, later, loaded, action, Trace,
  nothing_yet, then_seen,
}
use lua_resty_ffi.Lua.Life.Phase.{Phase, serving, closing, ended, view, Follows}
use lua_resty_ffi.Lua.Service.{
  in_service, abandoned, Service, Action, other, accept, then_accept, serve, serve-append,
}
use lua_resty_ffi.Lua.Life.Steps.{Inv, Goes, post-Inv, unload-Inv, poll-Inv}

-- A queue is not touched by what spares it and its tasks.
spared :
    {s t : Store} {tp : FfiTaskQueue} (xs : List Ptr)
    → s.tq ≡ t.tq
    → ((a : Ptr) → has a xs ≡ true → s.tasks a ≡ t.tasks a)
    → IsTaskQueue t tp xs
    → IsTaskQueue s tp xs
spared {tp = tp} xs same_tq same is = record {
  present = same_tq ∙ is.present;
  unlocked = is.unlocked;
  queue = record {
    chain = Chain-frame xs tp.queue.first same is.queue.chain;
    last = is.queue.last;
    distinct = is.queue.distinct;
  };
}

other_seen :
    {xs : List Ptr} (finished : Bool)
    → accept (if finished then abandoned else in_service) xs other
      ≡ some (record { mode = if finished then abandoned else in_service; waiting = xs })
unfolding accept
other_seen true = refl
other_seen false = refl

elsewhere-Phase :
    (L : Life) (s : Store)
    → s.tq ≡ L.store.tq
    → ((tp : FfiTaskQueue) (xs : List Ptr)
        → IsTaskQueue L.store tp xs
        → (a : Ptr) → has a xs ≡ true
        → s.tasks a ≡ L.store.tasks a)
    → (p : Phase L) → Follows L p other (record L { store = s })
unfolding accept
elsewhere-Phase L s same_tq same (serving {tp} is rs) = (
  serving (spared L.pending same_tq (same tp L.pending is) is) (
      Requests-frame s.tasks L.store.tasks L.pending
        (λ a i. ap (Option.map (λ (t : Task). t.ctx)) (same tp L.pending is a i)) rs),
  other_seen L.runtime.finished,
)
elsewhere-Phase L s same_tq same (closing {tp} {f} end is rs fin) =
    let xs : List Ptr = L.pending ++ f ∷ [] in
    (
      closing end (spared xs same_tq (same tp xs is) is)
          (Requests-frame s.tasks L.store.tasks L.pending
            (λ a i.
              ap (Option.map (λ (t : Task). t.ctx))
                (same tp xs is a (ground (arith, has-append a L.pending (f ∷ [])))))
            rs)
          (record {
            task = fin.task;
            live = record {
              ne_null = fin.live.ne_null;
              holds =
                  same tp xs is f (ground (arith, has-append f L.pending (f ∷ [])))
                  ∙ fin.live.holds;
            };
            no_ctx = fin.no_ctx;
          }),
      refl,
    )
elsewhere-Phase L s same_tq same (ended end gone empty) = (ended end (same_tq ∙ gone) empty, refl)

Step-Goes : {L M : Life} → (step : Step L M) → (inv : Inv L) → Goes L inv (action step) M
Step-Goes {L} (posts calls r fresh buf req g u e) inv = post-Inv calls r fresh buf req L g u e inv
Step-Goes {L} (unloads calls fresh ne unused u e) inv = unload-Inv calls fresh L ne unused u e inv
Step-Goes {L} (polls e unlocked a u polled) inv = poll-Inv e unlocked L a u polled inv
Step-Goes {L} (elsewhere s same_tq same) inv =
    let (q, allowed) = elsewhere-Phase L s same_tq same inv.phase in
    (record { phase = q; fifo = inv.fifo }, allowed)

-- The specification of a runtime that was just loaded.
abbrev pub new_service : Service
new_service = record { mode = in_service; waiting = [] }

Inv-loaded :
    (s : Store) (m : ℤ) → (inv : Inv (loaded s m)) × (view (loaded s m) inv.phase ≡ new_service)
Inv-loaded s m = (
  record {
    phase =
        serving
          (record {
            present = refl;
            unlocked = refl;
            queue = record { chain = refl; last = refl; distinct = tt };
          })
          tt;
    fifo = refl;
  },
  refl,
)

pub Reach-Inv : {s : Store} {m : ℤ} {L : Life} → Reach s m L → Inv L
Reach-Inv {s} {m} start = (Inv-loaded s m).0
Reach-Inv (later r st) = (Step-Goes st (Reach-Inv r)).0

pub Trace-Inv :
    {s : Store} {m : ℤ} {L : Life} {acts : List Action}
    → Trace s m L acts
    → (inv : Inv L) × (serve new_service acts ≡ some (view L inv.phase))
unfolding serve
Trace-Inv {s} {m} nothing_yet = let (inv, e) = Inv-loaded s m in (inv, ap some (sym e))
Trace-Inv (then_seen {acts = acts} t step) =
    let (inv, served) = Trace-Inv t in
    let (inv', allowed) = Step-Goes step inv in
    (
      inv',
      serve-append new_service acts (action step)
          ∙ ap (λ S. then_accept S (action step)) served
          ∙ allowed,
    )
