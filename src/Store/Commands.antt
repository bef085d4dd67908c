-- ===== src/Store/Commands.antt =====
-- Commands over the store, and the reads and writes that the C code is made of.
use lua_resty_ffi.Common.{
  ℕ, ◌≡◌, ◌≢◌, refl, Option, none, some, List, [], ◌∷◌, ◌++◌, arith, ◌==◌, if◌then◌else◌,
}
use lua_resty_ffi.Store.{Ptr, null, Task, FfiTaskCtx, CoCtx, LuaValue, FfiTaskQueue, Call, Store}

pub data Run (A : Type 0) : Type 0 where
  ok : A → Store → Run A
  fault : Run A

pub ok_inj : {A : Type 0} {a b : A} {s t : Store} → ok a s ≡ ok b t → (a ≡ b) × (s ≡ t)
ok_inj e = (cc, cc)

abbrev pub Cmd : Type 0 → Type 0
Cmd A = Store → Run A

abbrev pub pure : {A : Type 0} → A → Cmd A
pure = ok

module _ {A B : Type 0} where
  abbrev pub and_then : Run A → (A → Cmd B) → Run B
  and_then (ok a s) k = k a s
  and_then fault k = fault

  -- A bind that goes through, taken apart.
  pub and_then-eq-ok :
      (m : Run A) (k : A → Cmd B) {b : B} {s : Store}
      → and_then m k ≡ ok b s
      → (a : A) × (t : Store) × (m ≡ ok a t) × (k a t ≡ ok b s)
  and_then-eq-ok (ok a t) k h = (a, t, refl, h)
  and_then-eq-ok fault k h = cc

  infixl 5 ◌>>=◌ ◌>>◌
  abbrev pub ◌>>=◌ : Cmd A → (A → Cmd B) → Cmd B
  m >>= k = λ s. and_then (m s) k

  abbrev pub ◌>>◌ : Cmd A → Cmd B → Cmd B
  m >> n = m >>= λ _. n

module _ {A : Type 0} where
  -- `none` takes the object away.
  unfoldable pub write : (Ptr → Option A) → Ptr → Option A → Ptr → Option A
  write m p c a = if p == a then c else m a

  unfoldable pub deref : (Ptr → Option A) → Ptr → Option A
  deref m p = if p == null then none else m p

  -- `p` points to a live object with the value `a`.
  pub record Live (m : Ptr → Option A) (p : Ptr) (a : A) : Type 0 where
    pub ne_null : p ≢ null
    pub holds : m p ≡ some a

  pub deref-Live : {m : Ptr → Option A} {p : Ptr} {a : A} → Live m p a → deref m p ≡ some a
  unfolding deref
  deref-Live l = ground (arith, l.ne_null, l.holds)

  pub write-Live :
      {m : Ptr → Option A} {p : Ptr} {a : A} (b : A) → Live m p a → Live (write m p (some b)) p b
  unfolding write
  write-Live b l = record { ne_null = l.ne_null; holds = ground arith }

  pub write-Live_ne :
      {m : Ptr → Option A} {p q : Ptr} {a : A} (c : Option A)
      → q ≢ p
      → Live m p a
      → Live (write m q c) p a
  unfolding write
  write-Live_ne c h l = record { ne_null = l.ne_null; holds = ground (arith, l.holds) }

  pub write_ne : (m : Ptr → Option A) (p a : Ptr) (c : Option A) → a ≢ p → write m p c a ≡ m a
  unfolding write
  write_ne m p a c h = ground arith

  abbrev pub expect : Option A → Cmd A
  expect none s = fault
  expect (some a) s = ok a s

-- Reads: `*p`.
unfoldable pub load_task : Ptr → Cmd Task
load_task p s = expect (deref s.tasks p) s

unfoldable pub load_ctx : Ptr → Cmd FfiTaskCtx
load_ctx p s = expect (deref s.ctxs p) s

unfoldable pub load_buf : Ptr → Cmd (List ℕ)
load_buf p s = expect (deref s.bufs p) s

unfoldable pub load_co : Ptr → Cmd CoCtx
load_co p s = expect (deref s.coros p) s

unfoldable pub load_tq : Cmd FfiTaskQueue
load_tq s = expect s.tq s

-- Writes: `*p = f(*p)`, a fault where `*p` is.
unfoldable pub set_task : Ptr → (Task → Task) → Cmd (Unit {0})
unfolding load_task
set_task p f = do t ← load_task p; λ s. ok tt (record s { tasks = write s.tasks p (some (f t)) })

unfoldable pub set_ctx : Ptr → (FfiTaskCtx → FfiTaskCtx) → Cmd (Unit {0})
unfolding load_ctx
set_ctx p f = do c ← load_ctx p; λ s. ok tt (record s { ctxs = write s.ctxs p (some (f c)) })

unfoldable pub set_co : Ptr → (CoCtx → CoCtx) → Cmd (Unit {0})
unfolding load_co
set_co p f = do c ← load_co p; λ s. ok tt (record s { coros = write s.coros p (some (f c)) })

unfoldable pub set_tq : (FfiTaskQueue → FfiTaskQueue) → Cmd (Unit {0})
unfolding load_tq
set_tq f = do q ← load_tq; λ s. ok tt (record s { tq = some (f q) })

-- `free` and `ngx_free`: a fault on an address that is not allocated.
unfoldable pub free_buf : Ptr → Cmd (Unit {0})
unfolding load_buf
free_buf p = do load_buf p; λ s. ok tt (record s { bufs = write s.bufs p none })

-- The block of a task, with its context where it has one.
unfoldable pub free_block : Ptr → Cmd (Unit {0})
unfolding load_task
free_block p = do
  load_task p
  λ s. ok tt (record s { tasks = write s.tasks p none; ctxs = write s.ctxs p none })

unfoldable pub call : Call → Cmd (Unit {0})
call c s = ok tt (record s { calls = s.calls ++ c ∷ [] })

unfoldable pub push : Ptr → LuaValue → Cmd (Unit {0})
push l v s = ok tt (record s { stacks = λ a. if l == a then s.stacks a ++ v ∷ [] else s.stacks a })
