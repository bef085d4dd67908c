-- ===== src/Flow/Handled.antt =====
-- The steps of the event loop: the event handler on the oldest of the taken tasks, and the tear-down
-- of a coroutine that waits.
use lua_resty_ffi.Common.{
  ◌+◌, ◌≡◌, ◌≢◌, refl, sym, ap, ◌∙◌, Bool-cases, inl, inr, true, false, none, some, List, [], ◌∷◌,
  ◌++◌, ◌==◌, ==_refl, arith,
}
use mathlib.Core.List.{append_assoc}
use lua_resty_ffi.Nginx.{Rc}
use lua_resty_ffi.Store.{Ptr, null, FfiTaskCtx, Store}
use lua_resty_ffi.Store.Commands.{ok, ok_inj, write}
use lua_resty_ffi.Queue.Chain.{IsQueue-frame}
use lua_resty_ffi.Task.Free.{without}
use lua_resty_ffi.Event.{run_event, cleanup}
use lua_resty_ffi.Event.Discard.{torn, cleanup-torn}
use lua_resty_ffi.Event.Run.{run_event-handler}
use lua_resty_ffi.Flow.{Flow, Request, one, count, in_flight, Out, set}
use lua_resty_ffi.Flow.Count.{count-append, count-has}
use lua_resty_ffi.Flow.Sound.{Sound, Sound-Owns, Sound-frame, Payload-frame}
use lua_resty_ffi.Flow.Invariant.{Inv, sound_at, Serves-elsewhere}
use lua_resty_ffi.Flow.Serves.{Serves-frame}
use lua_resty_ffi.Flow.Gone.{Gone, handler-Fate, Fate-Gone}

-- Two requests share neither a buffer nor a coroutine.
module _ {s : Store} {owner : Ptr → Ptr} {q r : Request} {a b : Ptr} {c d : FfiTaskCtx} (ne : a ≢ b)
    (o : Sound s owner q a c) (p : Sound s owner r b d) where
  keeps : (x : Ptr) → x ≢ null → owner x ≡ b → without c.rsp (without c.req s.bufs) x ≡ s.bufs x
  unfolding write
  keeps x h e = ground (arith, o.req, o.rsp)

  other_coro : c.is_abort ≡ false → d.is_abort ≡ false → c.wait_co_ctx ≢ d.wait_co_ctx
  other_coro f g same =
      let (co, l, _, e) = o.waits f in
      let (co', l', _, e') = p.waits g in ground (arith, l.holds, l'.holds)

  Gone-Sound : {s' : Store} → Gone a c s s' → Sound s' owner r b d
  unfolding write
  Gone-Sound g =
      Sound-frame (rw g.ctxs (ground arith)) (rw g.tasks (ground arith)) (rw g.tasks (ground arith))
        (λ h. (rw g.bufs (keeps d.req h (p.req h).1), refl))
        (λ h. (rw g.bufs (keeps d.rsp h (p.rsp h).1), refl))
        (λ live. g.coros d.wait_co_ctx (λ f. other_coro f live)) p

module _ {F : Flow} (inv : Inv F) (a : Ptr) (rest : List Ptr) (e : F.taken ≡ a ∷ rest)
    {c : FfiTaskCtx} (o : Sound F.store F.owner (F.about a) a c) {s : Store}
    (g : Gone a c F.store s) where
  abbrev after : Flow
  after = record F { store = s; taken = rest; handled = F.handled ++ a ∷ [] }

  left : (b : Ptr) → in_flight F b ≡ one (a == b) + in_flight after b
  left b = omega (arith, ap (count b) e)

  other : (b : Ptr) → Out after b → a ≢ b
  other b out = ground (arith, left b, inv.once b)

  other_task : (b : Ptr) → a ≢ b → s.tasks b ≡ F.store.tasks b
  unfolding write
  other_task b ne = rw g.tasks (ground arith)

  pub gone-Inv : Inv after
  unfolding write
  gone-Inv = record {
    serves =
        Serves-elsewhere inv g.tq a o.task o.ctx.ne_null (λ b ne w. other_task b (λ e. ne (sym e)))
          (ground (arith, ap (count a) e, inv.once a));
    done = rw g.done (
        IsQueue-frame F.done (λ b i. other_task b (other b (omega (arith, count-has b F.done i))))
          inv.done);
    each = λ b out.
        let (d, p) = inv.each b (omega (arith, left b)) in (d, Gone-Sound (other b out) o p g);
    once = λ b. omega (arith, left b, inv.once b);
    counted = λ b. omega (arith, left b, inv.counted b, count-append b F.handled (a ∷ []));
    fifo = inv.fifo;
    order =
        inv.order
        ∙ ap (λ xs. F.handled ++ (xs ++ F.done)) e
        ∙ sym (append_assoc F.handled (a ∷ []) (rest ++ F.done));
    clean = λ b z. rw g.ctxs (ground (arith, left b, inv.clean b));
  }

module _ {F : Flow} (inv : Inv F) where
  pub handled-Inv :
      (get_req : Ptr → Ptr) (run_rc posted_rc : Rc) (a : Ptr) (rest : List Ptr) {s : Store}
      → F.taken ≡ a ∷ rest
      → run_event get_req run_rc posted_rc a F.store ≡ ok tt s
      → Inv (record F { store = s; taken = rest; handled = F.handled ++ a ∷ [] })
  handled-Inv get_req run_rc posted_rc a rest e ran =
      let (c, o) = inv.each a (ground (arith, ap (count a) e)) in
      let (s', ran', fate) =
        handler-Fate get_req run_rc posted_rc (F.about a).value F.store (Sound-Owns o)
          (λ f. let (co, l, _, _) = o.waits f in (co, l)) o.payload in
      let (_, stores) = ok_inj (
        sym ran
        ∙ run_event-handler get_req run_rc posted_rc F.store o.ctx.ne_null o.event
        ∙ ran') in
      rw stores (gone-Inv inv a rest e o (Fate-Gone fate))

-- Tear-down of the coroutine that waits for `a`.
module _ {F : Flow} (inv : Inv F) (a : Ptr) {c : FfiTaskCtx} {s : Store} (out : Out F a)
    (here : F.store.ctxs a ≡ some c) (alive : c.is_abort ≡ false)
    (ran : cleanup c.wait_co_ctx F.store ≡ ok tt s) where
  own : Sound F.store F.owner (F.about a) a c
  own = sound_at inv a out here

  -- The memory after it.
  abbrev end : Store
  end = record F.store {
    ctxs = write F.store.ctxs a (some (record c { is_abort = true }));
    coros = write F.store.coros c.wait_co_ctx none;
  }

  torn-end : record s { coros = write s.coros c.wait_co_ctx none } ≡ end
  unfolding torn
  torn-end =
      let (co, l, _, mine) = own.waits alive in
      let (_, stores) = ok_inj (sym ran ∙ cleanup-torn F.store l mine (Sound-Owns own)) in rw stores

  abbrev told : Request
  told = record (F.about a) { torn = true }

  own-end : Sound end F.owner told a (record c { is_abort = true })
  unfolding write
  own-end = record {
    ctx = record { ne_null = own.ctx.ne_null; holds = ground arith };
    task = own.task;
    event = own.event;
    asked = own.asked;
    req = own.req;
    rsp = own.rsp;
    apart = own.apart;
    by = own.by;
    abort = refl;
    code = own.code;
    payload = Payload-frame refl refl (λ h. refl) own.payload;
    waits = λ live. absurd (cc);
  }

  other-end :
      (b : Ptr) {d : FfiTaskCtx}
      → a ≢ b
      → Sound F.store F.owner (F.about b) b d
      → Sound end F.owner (F.about b) b d
  unfolding write
  other-end b {d} ne p =
      Sound-frame (ground arith) refl refl (λ h. (refl, refl)) (λ h. (refl, refl))
        (λ live. ground (arith, other_coro ne own p alive live)) p

  own-each : (d : FfiTaskCtx) × Sound end F.owner told a d
  own-each = (record c { is_abort = true }, own-end)

  end-each : (b : Ptr) → Out F b → (d : FfiTaskCtx) × Sound end F.owner (set F.about a told b) b d
  end-each b o = elim (Bool-cases (a == b)) [
    | inl same ↦ let eq : a ≡ b = ground arith in rw (← eq, ==_refl) own-each
    | inr ne ↦ let (d, p) = inv.each b o in rw ne (d, other-end b (ground arith) p)
  ]

  pub torn_down-Inv : Inv (record F {
    store = record s { coros = write s.coros c.wait_co_ctx none };
    about = set F.about a told;
  })
  unfolding write
  torn_down-Inv = rw torn-end (record {
    serves = Serves-frame F.queued refl (λ b i. refl) (λ b e. refl) inv.serves;
    done = inv.done;
    each = end-each;
    once = inv.once;
    counted = inv.counted;
    fifo = inv.fifo;
    order = inv.order;
    clean = λ b z. ground (arith, inv.clean b z);
  })
