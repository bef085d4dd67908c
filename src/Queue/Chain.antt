-- ===== src/Queue/Chain.antt =====
-- What a queue of tasks stands for: the addresses from `first` along `next` to NULL.
use lua_resty_ffi.Common.{
  none, ◌≢◌, ◌≡◌, refl, sym, ap, some, ◌∙◌, Bool, true, false, ◌||◌, Option, List, [], ◌∷◌, ◌++◌,
  arith, ◌==◌,
}
use lua_resty_ffi.Store.{Ptr, null, Task, Slot, queue_first, next_of, Queue}
use lua_resty_ffi.Store.Commands.{Live}

abbrev pub Tasks : Type 0
Tasks = Ptr → Option Task

abbrev pub has : Ptr → List Ptr → Bool
has a [] = false
has a (x ∷ xs) = (x == a) || has a xs

abbrev pub Distinct : List Ptr → Type 0
Distinct [] = Unit
Distinct (x ∷ xs) = (has x xs ≡ false) × Distinct xs

abbrev pub Chain : Tasks → Ptr → List Ptr → Type 0
Chain h p [] = p ≡ null
Chain h p (x ∷ xs) = (t : Task) × (p ≡ x) × Live h x t × Chain h t.next xs

-- Where the next task is linked in.
abbrev pub last_slot : List Ptr → Slot
last_slot [] = queue_first
last_slot (x ∷ []) = next_of x
last_slot (x ∷ (y ∷ ys)) = last_slot (y ∷ ys)

-- The queue `q` in the memory `h` holds the tasks `xs`, oldest first.
pub record IsQueue (h : Tasks) (q : Queue) (xs : List Ptr) : Type 0 where
  pub chain : Chain h q.first xs
  pub last : q.last ≡ last_slot xs
  pub distinct : Distinct xs

some_inj {ℓ} : {A : Type ℓ} {x y : A} → some x ≡ some y → x ≡ y
some_inj e = cc

-- A chain is read in one way only.
pub Chain-unique : (h : Tasks) (p : Ptr) (xs ys : List Ptr) → Chain h p xs → Chain h p ys → xs ≡ ys
Chain-unique h p [] [] c d = refl
Chain-unique h p [] (y ∷ ys) c (t, e, l, d) = absurd (l.ne_null (sym e ∙ c))
Chain-unique h p (x ∷ xs) [] (t, e, l, c) d = absurd (l.ne_null (sym e ∙ d))
Chain-unique h p (x ∷ xs) (y ∷ ys) (t, e, l, c) (u, f, m, d) =
    let x_y : x ≡ y = sym e ∙ f in
    let t_u : t ≡ u = some_inj (sym l.holds ∙ ap h x_y ∙ m.holds) in
    let rest : xs ≡ ys = Chain-unique h t.next xs ys c (rw t_u d) in cc

-- A chain survives any change that spares its own tasks.
pub Chain-frame :
    {h g : Tasks} (xs : List Ptr) (p : Ptr)
    → ((a : Ptr) → has a xs ≡ true → g a ≡ h a)
    → Chain h p xs
    → Chain g p xs
Chain-frame [] p same c = c
Chain-frame (x ∷ xs) p same (t, e, l, c) = (
  t,
  e,
  record { ne_null = l.ne_null; holds = same x (ground arith) ∙ l.holds },
  Chain-frame xs t.next (λ a i. same a (ground arith)) c,
)

pub IsQueue-frame :
    {h g : Tasks} {q : Queue} (xs : List Ptr)
    → ((a : Ptr) → has a xs ≡ true → g a ≡ h a)
    → IsQueue h q xs
    → IsQueue g q xs
IsQueue-frame {q = q} xs same is = record {
  chain = Chain-frame xs q.first same is.chain;
  last = is.last;
  distinct = is.distinct;
}

pub has-append : (a : Ptr) (xs ys : List Ptr) → has a (xs ++ ys) ≡ (has a xs || has a ys)
has-append a [] ys = refl
has-append a (x ∷ xs) ys = ground (arith, has-append a xs ys)

pub Distinct-append :
    (xs : List Ptr) (x : Ptr) → has x xs ≡ false → Distinct xs → Distinct (xs ++ x ∷ [])
Distinct-append [] x out d = (refl, tt)
Distinct-append (y ∷ ys) x out (o, d) =
    (ground (arith, has-append y ys (x ∷ [])), Distinct-append ys x (ground arith) d)

pub last_slot-append : (xs : List Ptr) (x : Ptr) → last_slot (xs ++ x ∷ []) ≡ next_of x
last_slot-append [] x = refl
last_slot-append (y ∷ []) x = refl
last_slot-append (y ∷ (z ∷ zs)) x = last_slot-append (z ∷ zs) x

pub ne_of_has : (a b : Ptr) (xs : List Ptr) → has a xs ≡ true → has b xs ≡ false → a ≢ b
ne_of_has a b xs i o e = cc

-- What is not allocated is in no queue.
pub not-has_of_none :
    (h : Tasks) (a : Ptr) (xs : List Ptr) (p : Ptr) → h a ≡ none → Chain h p xs → has a xs ≡ false
not-has_of_none h a [] p unused c = refl
not-has_of_none h a (x ∷ xs) p unused (t, e, l, c) =
    ground (arith, l.holds, not-has_of_none h a xs t.next unused c)
