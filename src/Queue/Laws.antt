-- ===== src/Queue/Laws.antt =====
-- What the two operations of a queue do to the list of tasks that it stands for.
use lua_resty_ffi.Common.{
  Option-cases, ◌≢◌, inl, inr, some, Option, ◌≡◌, refl, ap, ◌∙◌, sym, false, List, [], ◌∷◌, ◌++◌,
  arith, ◌==◌,
}
use mathlib.Core.Option
use lua_resty_ffi.Store.{Ptr, null, Task, Handler, Slot, queue_first, next_of, Queue, Store}
use lua_resty_ffi.Store.Commands.{write, Live, deref-Live, ok, load_task}
use lua_resty_ffi.Queue.{append, remove, store_slot}
use lua_resty_ffi.Queue.Chain.{
  Tasks, has, Distinct, Chain, last_slot, IsQueue, Distinct-append, last_slot-append,
}

abbrev with_next : Ptr → Task → Task
with_next p t = record t { next = p }

-- The memory after `*slot = task`.
unfoldable pub linked : Tasks → Slot → Ptr → Tasks
linked h queue_first task = h
linked h (next_of p) task = write h p (Option.map (with_next task) (h p))

-- The queue after `append`.
unfoldable pub appended : Queue → Ptr → Queue
appended q task = elim q.last [
  | queue_first ↦ record { first = task; last = next_of task }
  | next_of p ↦ record { first = q.first; last = next_of task }
]

pub linked_outside :
    (h : Tasks) (xs : List Ptr) (task a : Ptr)
    → has a xs ≡ false
    → linked h (last_slot xs) task a ≡ h a
unfolding linked write
linked_outside h [] task a out = refl
linked_outside h (x ∷ []) task a out = ground arith
linked_outside h (x ∷ (y ∷ ys)) task a out = linked_outside h (y ∷ ys) task a (ground arith)

-- The context pointer of the task at an address.
abbrev pub ctx_at : Tasks → Ptr → Option Ptr
ctx_at h a = Option.map (λ (t : Task). t.ctx) (h a)

-- A live task, by what is at its address.
pub Live_of_ctx :
    {h : Tasks} {a c : Ptr} → a ≢ null → ctx_at h a ≡ some c → (t : Task) × Live h a t × (t.ctx ≡ c)
Live_of_ctx {h} {a} ne e = elim (Option-cases (h a)) [
  | inl gone ↦ absurd (ground arith)
  | inr (t, there) ↦ (t, record { ne_null = ne; holds = there }, ground arith)
]

pub ctx_at-linked :
    (h : Tasks) (slot : Slot) (task a : Ptr) → ctx_at (linked h slot task) a ≡ ctx_at h a
unfolding linked write
ctx_at-linked h queue_first task a = refl
ctx_at-linked h (next_of p) task a = ground arith

-- The handler and the data of the event of the task at an address.
abbrev pub event_at : Tasks → Ptr → Option (Handler × Ptr)
event_at h a = Option.map (λ (t : Task). (t.handler, t.event_data)) (h a)

pub Live_of_event :
    {h : Tasks} {a c : Ptr} {f : Handler}
    → a ≢ null
    → event_at h a ≡ some (f, c)
    → (t : Task) × Live h a t × (t.handler ≡ f) × (t.event_data ≡ c)
Live_of_event {h} {a} {c} {f} ne e = elim (Option-cases (h a)) [
  | inl gone ↦ absurd (cc)
  | inr (t, there) ↦
      let same : some (t.handler, t.event_data) ≡ some (f, c) =
        ap (Option.map (λ (u : Task). (u.handler, u.event_data))) (sym there) ∙ e in
      let pair : (t.handler, t.event_data) ≡ (f, c) = cc in
      (
        t,
        record { ne_null = ne; holds = there },
        ap (λ (x : Handler × Ptr). x.0) pair,
        ap (λ (x : Handler × Ptr). x.1) pair,
      )
]

pub event_at-linked :
    (h : Tasks) (slot : Slot) (task a : Ptr) → event_at (linked h slot task) a ≡ event_at h a
unfolding linked write
event_at-linked h queue_first task a = refl
event_at-linked h (next_of p) task a = ground arith

module _ {h : Tasks} (task : Ptr) {t : Task} (new : Live h task t) (end : t.next ≡ null) where
  Chain-linked :
      (x : Ptr) (xs : List Ptr) (p : Ptr)
      → Chain h p (x ∷ xs)
      → Distinct (x ∷ xs)
      → has task (x ∷ xs) ≡ false
      → Chain (linked h (last_slot (x ∷ xs)) task) p (x ∷ xs ++ task ∷ [])
  unfolding linked write
  Chain-linked x [] p (u, e, l, c) d out = (
    record u { next = task },
    e,
    record { ne_null = l.ne_null; holds = ground (arith, l.holds) },
    (t, refl, record { ne_null = new.ne_null; holds = ground (arith, new.holds) }, end),
  )
  Chain-linked x (y ∷ ys) p (u, e, l, c) (o, d) out = (
    u,
    e,
    record { ne_null = l.ne_null; holds = linked_outside h (y ∷ ys) task x o ∙ l.holds },
    Chain-linked y ys u.next c d (ground arith),
  )

last_live :
    {h : Tasks} (x : Ptr) (xs : List Ptr) (p : Ptr)
    → Chain h p (x ∷ xs)
    → (z : Ptr) × (t : Task) × (last_slot (x ∷ xs) ≡ next_of z) × Live h z t
last_live x [] p (t, e, l, c) = (x, t, refl, l)
last_live x (y ∷ ys) p (t, e, l, c) = last_live y ys t.next c

append_first :
    (q : Queue) (task : Ptr) (s : Store)
    → q.last ≡ queue_first
    → append q task s ≡ ok (appended q task) (record s { tasks = linked s.tasks queue_first task })
unfolding append appended linked
append_first q task s e = rw (e, store_slot, appended)

append_next :
    (q : Queue) (task z : Ptr) {u : Task} (s : Store)
    → q.last ≡ next_of z
    → Live s.tasks z u
    → append q task s ≡ ok (appended q task) (record s { tasks = linked s.tasks (next_of z) task })
unfolding append appended linked
append_next q task z s e l = rw (e, store_slot, deref-Live l, l.holds)

append-linked :
    (task : Ptr) {q : Queue} (xs : List Ptr) (s : Store)
    → IsQueue s.tasks q xs
    → append q task s
      ≡ ok (appended q task) (record s { tasks = linked s.tasks (last_slot xs) task })
append-linked task {q} [] s is = append_first q task s is.last
append-linked task {q} (x ∷ xs) s is =
    let (z, u, e, l) = last_live x xs q.first is.chain in
    rw e (append_next q task z s (is.last ∙ e) l)

appended-IsQueue :
    {h : Tasks} (task : Ptr) {t : Task} {q : Queue} (xs : List Ptr)
    → IsQueue h q xs
    → Live h task t
    → t.next ≡ null
    → has task xs ≡ false
    → IsQueue (linked h (last_slot xs) task) (appended q task) (xs ++ task ∷ [])
unfolding appended linked
appended-IsQueue task {t} [] is l end out =
    rw is.last (record { chain = (t, refl, l, end); last = refl; distinct = (refl, tt) })
appended-IsQueue {h} task {q} (x ∷ xs) is l end out =
    let (z, u, e, _) = last_live x xs q.first is.chain in
    let more = Chain-linked task l end x xs q.first is.chain is.distinct out in
    rw (is.last ∙ e) (record {
      chain = more;
      last = sym (last_slot-append (x ∷ xs) task);
      distinct = Distinct-append (x ∷ xs) task out is.distinct;
    })

-- A live task with no successor that is not in the queue becomes its last one; of the memory only the
-- slot that the queue's `last` points to changes.
pub append_lem :
    (task : Ptr) {t : Task} {q : Queue} (xs : List Ptr) (s : Store)
    → IsQueue s.tasks q xs
    → Live s.tasks task t
    → t.next ≡ null
    → has task xs ≡ false
    → (append q task s
        ≡ ok (appended q task) (record s { tasks = linked s.tasks (last_slot xs) task }))
      × IsQueue (linked s.tasks (last_slot xs) task) (appended q task) (xs ++ task ∷ [])
append_lem task xs s is l end out =
    (append-linked task xs s is, appended-IsQueue task xs is l end out)

-- The first task comes off a queue that is not empty, and the others stay in their order.
pub remove_lem :
    {q : Queue} (x : Ptr) (xs : List Ptr) (s : Store)
    → IsQueue s.tasks q (x ∷ xs)
    → (t : Task) × (q' : Queue) × (q.first ≡ x)
      × Live s.tasks x t
      × (remove q s ≡ ok q' s)
      × IsQueue s.tasks q' xs
unfolding remove load_task
remove_lem {q} x [] s is =
    let (t, e, l, c) = is.chain in
    (
      t,
      record { first = t.next; last = queue_first },
      e,
      l,
      rw (e, deref-Live l, c),
      record { chain = c; last = refl; distinct = tt },
    )
remove_lem {q} x (y ∷ ys) s is =
    let (t, e, l, (u, e', l', c)) = is.chain in
    let more : (t.next == null) ≡ false = ground (arith, l'.ne_null) in
    (
      t,
      record { first = t.next; last = q.last },
      e,
      l,
      rw (e, deref-Live l, more),
      record { chain = (u, e', l', c); last = is.last; distinct = is.distinct.1 },
    )
