-- ===== src/Flow/Count.antt =====
-- Counting the occurrences of a task in the lists of a flow.
use lua_resty_ffi.Common.{◌+◌, ◌<◌, ◌≡◌, true, false, List, [], ◌∷◌, ◌++◌, ◌==◌, arith, refl}
use lua_resty_ffi.Store.{Ptr}
use lua_resty_ffi.Queue.Chain.{has}
use lua_resty_ffi.Flow.{one, count, drop_one}

pub count-append : (a : Ptr) (xs ys : List Ptr) → count a (xs ++ ys) ≡ count a xs + count a ys
count-append a [] ys = omega arith
count-append a (x ∷ xs) ys = omega (arith, count-append a xs ys)

pub count-has : (a : Ptr) (xs : List Ptr) → has a xs ≡ true → 0 < count a xs
count-has a (x ∷ xs) i = ground (arith, count-has a xs)
count-has a [] i = cc

pub has-count : (a : Ptr) (xs : List Ptr) → count a xs ≡ 0 → has a xs ≡ false
has-count a [] e = refl
has-count a (x ∷ xs) e = ground (arith, has-count a xs)

pub count-drop_one :
    (a b : Ptr) (xs : List Ptr)
    → has a xs ≡ true
    → count b xs ≡ one (a == b) + count b (drop_one a xs)
count-drop_one a b [] i = cc
count-drop_one a b (x ∷ xs) i = ground (arith, count-drop_one a b xs)
