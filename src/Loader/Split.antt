-- ===== src/Loader/Split.antt =====
-- The pieces that strsep and the test for a trailing '?' give on a string that is put together.
use lua_resty_ffi.Common.{
  ℕ, ◌≡◌, ◌≢◌, refl, Bool, true, false, Option, none, some, [], ◌∷◌, ◌++◌, arith,
}
use lua_resty_ffi.Loader.{Str, strsep, unmark}

abbrev pub NotIn : ℕ → Str → Type 0
NotIn c [] = Unit
NotIn c (x ∷ xs) = (x ≢ c) × NotIn c xs

pub NotIn-append : (c : ℕ) (xs ys : Str) → NotIn c xs → NotIn c ys → NotIn c (xs ++ ys)
NotIn-append c [] ys h k = k
NotIn-append c (x ∷ xs) ys (ne, h) k = (ne, NotIn-append c xs ys h k)

pub strsep-append :
    (sep : ℕ) (p rest : Str) → NotIn sep p → strsep sep (p ++ sep ∷ rest) ≡ (p, some rest)
unfolding strsep
strsep-append sep [] rest h = ground arith
strsep-append sep (x ∷ xs) rest (ne, h) = ground (arith, strsep-append sep xs rest h)

pub strsep_last : (sep : ℕ) (p : Str) → NotIn sep p → strsep sep p ≡ (p, none)
unfolding strsep
strsep_last sep [] h = refl
strsep_last sep (x ∷ xs) (ne, h) = ground (arith, strsep_last sep xs h)

-- A name with the mark that asks for a reload, or without it.
abbrev pub marked : Str → Bool → Str
marked n true = n ++ b'?' ∷ []
marked n false = n

pub unmark-marked :
    (behind_dir : Bool) (m : Str) (c : ℕ) (mark : Bool)
    → c ≢ b'?'
    → unmark behind_dir (marked (m ++ c ∷ []) mark) ≡ some (m ++ c ∷ [], mark)
unfolding unmark
unmark-marked behind_dir [] c true ne = ground arith
unmark-marked behind_dir [] c false ne = ground arith
unmark-marked behind_dir (x ∷ []) c true ne = ground (arith, unmark-marked behind_dir [] c true ne)
unmark-marked behind_dir (x ∷ []) c false ne =
    ground (arith, unmark-marked behind_dir [] c false ne)
unmark-marked behind_dir (x ∷ (y ∷ ys)) c true ne = rw (unmark-marked behind_dir (y ∷ ys) c true ne)
unmark-marked behind_dir (x ∷ (y ∷ ys)) c false ne =
    rw (unmark-marked behind_dir (y ∷ ys) c false ne)

pub NotIn-marked : (c : ℕ) (n : Str) (mark : Bool) → b'?' ≢ c → NotIn c n → NotIn c (marked n mark)
NotIn-marked c n true ne h = NotIn-append c n (b'?' ∷ []) h (ne, tt)
NotIn-marked c n false ne h = h

-- The text of a configuration: a target, a function, and maybe more, between commas.
abbrev pub config : Str → Str → Option Str → Str
config target func none = target ++ b',' ∷ func
config target func (some rest) = target ++ b',' ∷ (func ++ b',' ∷ rest)

pub strsep-config :
    (target func : Str) (rest : Option Str)
    → NotIn b',' target
    → NotIn b',' func
    → (s : Str) × (strsep b',' (config target func rest) ≡ (target, some s))
      × (strsep b',' s ≡ (func, rest))
strsep-config target func none h k =
    (func, strsep-append b',' target func h, strsep_last b',' func k)
strsep-config target func (some rest) h k = (
  func ++ b',' ∷ rest,
  strsep-append b',' target (func ++ b',' ∷ rest) h,
  strsep-append b',' func rest k,
)
