-- ===== src/Lua/Life/Steps.antt =====
-- Requests, the unload and polls keep a runtime in one of its phases.
use lua_resty_ffi.Common.{
  ◌≡◌, ◌≢◌, refl, sym, ap, ◌∙◌, true, false, Option, none, some, List, [], ◌∷◌, ◌++◌, ◌==◌, inl,
  inr, Bool-cases, ℕ,
}
use mathlib.Core.List.{append_assoc}
use lua_resty_ffi.Nginx.{Rc, failed}
use lua_resty_ffi.Store.{Ptr, null, CoCtx, LuaCtx, Store}
use lua_resty_ffi.Store.Commands.{ok, ok_inj, and_then-eq-ok, pure}
use lua_resty_ffi.TaskQueue.{PostCalls, PollResult, returned, in_cond_wait, task_finish}
use lua_resty_ffi.TaskQueue.Poll.{Entry, entry_failed, poll}
use lua_resty_ffi.Lua.{
  Runtime, Reply, yields, queue_full, task_queue_is_finished, runtime_post, runtime_unload,
}
use lua_resty_ffi.Lua.Life.{
  Life, Given, after_post, after_poll, post_action, unload_action, poll_action,
}
use lua_resty_ffi.Lua.Life.Phase.{
  Phase, serving, closing, ended, post-Phase, unload-Phase, poll_ended, poll-serving, poll-closing,
  view,
}
use lua_resty_ffi.Lua.Service.{Action, turned_down, unloaded_before, accept}

pub record Inv (L : Life) : Type 0 where
  pub phase : Phase L
  pub fifo : L.delivered ++ L.pending ≡ L.accepted

-- What is seen keeps the invariant, and the specification allows it.
abbrev pub Goes : (L : Life) → Inv L → Action → Life → Type 0
Goes L inv a M =
    (inv' : Inv M) × (accept (view L inv.phase).mode (view L inv.phase).waiting a
      ≡ some (view M inv'.phase))

accept-finished :
    (L : Life) (p : Phase L)
    → L.runtime.finished ≡ true
    → (accept (view L p).mode (view L p).waiting turned_down ≡ some (view L p))
      × (accept (view L p).mode (view L p).waiting unloaded_before ≡ some (view L p))
unfolding accept
accept-finished L (serving is rs) e = rw e (refl, refl)
accept-finished L (closing end is rs fin) e = (refl, refl)
accept-finished L (ended end gone empty) e = (refl, refl)

pub post_finished :
    (calls : PostCalls) (r fresh buf : Ptr) (req : Option (List ℕ)) (self : Runtime) (s : Store)
    → self.finished ≡ true
    → runtime_post calls r fresh buf req self s ≡ ok task_queue_is_finished s
unfolding runtime_post
post_finished calls r fresh buf req self s e = rw e

post-fifo :
    (L : Life) (fresh : Ptr) (reply : Reply) (s : Store)
    → L.delivered ++ L.pending ≡ L.accepted
    → let M = after_post L fresh reply s in M.delivered ++ M.pending ≡ M.accepted
post-fifo L fresh yields s e =
    sym (append_assoc L.delivered L.pending (fresh ∷ [])) ∙ ap (λ xs. xs ++ fresh ∷ []) e
post-fifo L fresh queue_full s e = e
post-fifo L fresh task_queue_is_finished s e = e

pub post-Inv :
    (calls : PostCalls) (r fresh buf : Ptr) (req : Option (List ℕ)) {ctx : LuaCtx} {co : CoCtx}
    {reply : Reply} {s : Store} (L : Life)
    → Given L.store r fresh buf ctx co
    → failed calls.mutex_unlock ≡ false
    → runtime_post calls r fresh buf req L.runtime L.store ≡ ok reply s
    → (inv : Inv L) → Goes L inv (post_action fresh reply) (after_post L fresh reply s)
post-Inv calls r fresh buf req {reply = reply} {s = s} L g u e inv =
    elim (Bool-cases L.runtime.finished) [
      | inl over ↦
          let (replies, stores) =
            ok_inj (sym e ∙ post_finished calls r fresh buf req L.runtime L.store over) in
          rw (replies, stores) (inv, (accept-finished L inv.phase over).0)
      | inr go ↦
          let (q, allowed) = post-Phase calls r fresh buf req L g u go e inv.phase in
          (record { phase = q; fifo = post-fifo L fresh reply s inv.fifo }, allowed)
    ]

pub unload_finished :
    (calls : PostCalls) (fresh : Ptr) (self : Runtime) (s : Store)
    → self.finished ≡ true
    → runtime_unload calls fresh self s ≡ ok (self, none) s
unfolding runtime_unload
unload_finished calls fresh self s e = rw e

abbrev pub unloaded_runtime : Runtime
unloaded_runtime = record { finished = true; has_tq = false; cached = false }

-- Where the unload returns, the finishing task was posted.
pub unload-task_finish :
    (calls : PostCalls) (fresh : Ptr) (self : Runtime) (s : Store) {runtime : Runtime}
    {rc : Option Rc} {s' : Store}
    → self.finished ≡ false
    → runtime_unload calls fresh self s ≡ ok (runtime, rc) s'
    → (answer : Rc) × (task_finish calls fresh s ≡ ok answer s')
      × (runtime ≡ unloaded_runtime)
      × (rc ≡ some answer)
unfolding runtime_unload
unload-task_finish calls fresh self s go e =
    let (answer, t, finishes, h) =
      and_then-eq-ok (task_finish calls fresh s) (λ rc. pure (unloaded_runtime, some rc))
        (rw go at e) in
    (answer, finishes ∙ cc, cc, cc)

pub unload-Inv :
    (calls : PostCalls) (fresh : Ptr) {runtime : Runtime} {rc : Option Rc} {s : Store} (L : Life)
    → fresh ≢ null
    → L.store.tasks fresh ≡ none
    → failed calls.mutex_unlock ≡ false
    → runtime_unload calls fresh L.runtime L.store ≡ ok (runtime, rc) s
    → (inv : Inv L) → Goes L inv (unload_action rc) (record L { store = s; runtime = runtime })
unload-Inv calls fresh {runtime} {rc} L ne unused u e inv = elim (Bool-cases L.runtime.finished) [
  | inl over ↦
      let (answers, stores) = ok_inj (sym e ∙ unload_finished calls fresh L.runtime L.store over) in
      let same : runtime ≡ L.runtime = ap (λ (x : Runtime × Option Rc). x.0) answers in
      let none_asked : rc ≡ none = ap (λ (x : Runtime × Option Rc). x.1) answers in
      rw (same, stores, none_asked) (inv, (accept-finished L inv.phase over).1)
  | inr go ↦
      let (answer, finishes, now, asked) = unload-task_finish calls fresh L.runtime L.store go e in
      let (q, allowed) =
        unload-Phase calls fresh runtime L ne unused u (ap (λ (x : Runtime). x.finished) now)
          finishes go inv.phase in
      (record { phase = q; fifo = inv.fifo }, rw asked allowed)
]

after_poll-accepted :
    (L : Life) (answer : PollResult) (s : Store) → (after_poll L answer s).accepted ≡ L.accepted
after_poll-accepted L in_cond_wait s = refl
after_poll-accepted L (returned p) s = elim (Bool-cases (p == null)) [ inl e ↦ rw e | inr e ↦ rw e ]

pub poll-Inv :
    (e : Entry) (unlocked : Rc) {answer : PollResult} {s : Store} (L : Life)
    → entry_failed e ≡ false
    → failed unlocked ≡ false
    → poll e unlocked L.store ≡ ok answer s
    → (inv : Inv L) → Goes L inv (poll_action answer) (after_poll L answer s)
poll-Inv e unlocked {answer} {s} L a u polled inv = by_phase inv.phase
  where
    Seen : Phase L → Type 0
    Seen p =
        (inv' : Inv (after_poll L answer s)) × (accept (view L p).mode (view L p).waiting
            (poll_action answer)
          ≡ some (view (after_poll L answer s) inv'.phase))

    kept :
        (p : Phase L)
        → (q : Phase (after_poll L answer s)) × (accept
              (view L p).mode
              L.pending
              (poll_action answer)
            ≡ some (view (after_poll L answer s) q))
          × ((after_poll L answer s).delivered ++ (after_poll L answer s).pending
              ≡ L.delivered ++ L.pending)
        → (view L p).waiting ≡ L.pending
        → Seen p
    kept p (q, allowed, same) w = (
      record { phase = q; fifo = same ∙ inv.fifo ∙ sym (after_poll-accepted L answer s) },
      rw w allowed,
    )

    by_phase : (p : Phase L) → Seen p
    by_phase (serving is rs) =
        kept (serving is rs) (poll-serving e unlocked L a u polled L.pending is rs) refl
    by_phase (closing end is rs fin) =
        kept (closing end is rs fin) (poll-closing e unlocked L a u polled L.pending end is rs fin)
          refl
    by_phase (ended end gone empty) = absurd (cc (poll_ended e unlocked L.store gone a))
