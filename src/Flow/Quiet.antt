-- ===== src/Flow/Quiet.antt =====
-- The steps that leave every request as it is: nginx taking the answered tasks, and what happens
-- elsewhere.
use lua_resty_ffi.Common.{List, ◌+◌, ◌≡◌, refl, ap, ◌∙◌, Option, [], arith}
use mathlib.Core.Option
use mathlib.Core.List.{append-nil}
use lua_resty_ffi.Store.{Ptr, FfiTaskCtx, Store}
use lua_resty_ffi.Queue.Chain.{Chain, Chain-unique, IsQueue-frame}
use lua_resty_ffi.TaskQueue.{empty_queue}
use lua_resty_ffi.Flow.{Flow, count, in_flight, Spares}
use lua_resty_ffi.Flow.Count.{count-has}
use lua_resty_ffi.Flow.Sound.{Sound-frame}
use lua_resty_ffi.Flow.Serves.{Serves-frame}
use lua_resty_ffi.Flow.Invariant.{Inv}

module _ {F : Flow} (inv : Inv F) where
  all_taken :
      F.taken ≡ []
      → Inv (record F { store = record F.store { done = empty_queue }; done = []; taken = F.done })
  all_taken e =
      let same : (b : Ptr)
          → count b F.queued + count b F.held + 0 + count b F.done ≡ in_flight F b =
        λ b. rw e (omega arith) in
      record {
        serves = Serves-frame F.queued refl (λ b i. refl) (λ b e. refl) inv.serves;
        done = record { chain = refl; last = refl; distinct = tt };
        each = λ b o.
            let (d, sound) = inv.each b (omega (arith, same b)) in
            (
              d,
              Sound-frame refl refl refl (λ h. (refl, refl)) (λ h. (refl, refl)) (λ h. refl) sound,
            );
        once = λ b. omega (arith, same b, inv.once b);
        counted = λ b. omega (arith, same b, inv.counted b);
        fifo = inv.fifo;
        order = inv.order ∙ (simp (e, append-nil));
        clean = λ b z. inv.clean b (omega (arith, same b));
      }

  pub taken-Inv :
      (xs : List Ptr)
      → F.taken ≡ []
      → Chain F.store.tasks F.store.done.first xs
      → Inv (record F { store = record F.store { done = empty_queue }; done = []; taken = xs })
  taken-Inv xs e read =
      let all : F.done ≡ xs =
        Chain-unique F.store.tasks F.store.done.first F.done xs inv.done.chain read in
      rw all at (all_taken e)

  pub elsewhere-Inv : (s : Store) → Spares F s → Inv (record F { store = s })
  elsewhere-Inv s k = record {
    serves =
        Serves-frame F.queued k.tq (λ b i. k.tasks b (omega (arith, count-has b F.queued i)))
          k.finishing inv.serves;
    done =
        rw k.done
          (IsQueue-frame F.done (λ b i. k.tasks b (omega (arith, count-has b F.done i))) inv.done);
    each = λ b o.
        let (c, sound) = inv.each b o in
        let (req, rsp) = k.bufs b c o sound.ctx.holds in
        (
          c,
          Sound-frame (ap (λ (m : Ptr → Option FfiTaskCtx). m b) k.ctxs)
              (ap (Option.map (λ t. t.ctx)) (k.tasks b o))
              (ap (Option.map (λ t. (t.handler, t.event_data))) (k.tasks b o)) (λ h. (req, refl))
              (λ h. (rsp, refl)) (k.coros b c o sound.ctx.holds) sound,
        );
    once = inv.once;
    counted = inv.counted;
    fifo = inv.fifo;
    order = inv.order;
    clean = λ b z. ap (λ (m : Ptr → Option FfiTaskCtx). m b) k.ctxs ∙ inv.clean b z;
  }
