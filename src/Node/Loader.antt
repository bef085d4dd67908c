-- ===== src/Node/Loader.antt =====
-- examples/nodejs/loader.cc: libffi_init, and the JavaScript that it exchanges a message and an
-- answer with over a socket. Starting Node.js is not modelled but for what libffi_init does for it;
-- init_lock is held from the first line of libffi_init to the last, so that a call is one step.
pub mod Calls
pub mod Returns
use lua_resty_ffi.Common.{
  ℕ, zero, suc, ◌+◌, ◌==◌, if◌then◌else◌, leb, ltb, not, ◌&&◌, ◌||◌, ◌^◌, Bool, true, false, Option,
  none, some, List, [], ◌∷◌, ◌++◌, length,
}
use mathlib.Core.Option
use lua_resty_ffi.Common.Int.{ℤ, pos, negsuc}
use lua_resty_ffi.Loader.{Str, unmark}
use lua_resty_ffi.Loader.Digits.{digits, chars, digit_of, read_digits}

-- "%p" and "%s".
abbrev pub pointer_text : ℕ → Str
pointer_text p =
    if p == 0
    then b'(' ∷ b'n' ∷ b'i' ∷ b'l' ∷ b')' ∷ []
    else b'0' ∷ b'x' ∷ chars (digits 16 (suc p) p)

abbrev pub string_text : Option Str → Str
string_text none = b'(' ∷ b'n' ∷ b'u' ∷ b'l' ∷ b'l' ∷ b')' ∷ []
string_text (some s) = s

-- sprintf(buf, "%p,%s", tq, cfg)
abbrev pub message : (tq : ℕ) → (cfg : Option Str) → Str
message tq cfg = pointer_text tq ++ b',' ∷ string_text cfg

-- `data.toString().split(',')`
unfoldable pub split : ℕ → Str → List Str
split sep [] = [] ∷ []
split sep (x ∷ xs) = elim (split sep xs) [
  | [] ↦ []
  | p ∷ ps ↦ if x == sep then [] ∷ p ∷ ps else (x ∷ p) ∷ ps
]

-- `BigInt(arr[0])`, on what "%p" writes; `none` is an exception.
unfoldable pub bigint_of : Str → Option ℕ
unfolding read_digits
bigint_of (a ∷ (b ∷ (c ∷ cs))) =
    if (a == b'0') && (b == b'x')
    then elim (read_digits 16 0 (c ∷ cs)).1 [
      | [] ↦ some (read_digits 16 0 (c ∷ cs)).0
      | _ ∷ _ ↦ none
    ]
    else none
bigint_of _ = none

-- The call `require(mod)[func](cfg, tq)`, with the module taken out of the cache before if `reload`.
-- The configuration is always empty: the assignment of another one to the constant `cfg` throws.
pub record Call : Type 0 where
  pub tq : ℕ
  pub name : Str
  pub reload : Bool
  pub func : Option Str

-- The trailing '?' of a module's name.
abbrev call_of : ℕ → (func : Option Str) → Str × Bool → Call
call_of tq func r = record { tq = tq; name = r.0; reload = r.1; func = func }

abbrev calling : Option ℕ → (mod_name : Str) → (func : Option Str) → Option Call
calling none mod_name func = none
calling (some tq) mod_name func = Option.map (call_of tq func) (unmark true mod_name)

plan_of : List Str → Option Call
unfolding bigint_of unmark
plan_of (tq ∷ (m ∷ [])) = calling (bigint_of tq) m none
plan_of (tq ∷ (m ∷ (f ∷ []))) = calling (bigint_of tq) m (some f)
plan_of (tq ∷ (m ∷ (f ∷ (c ∷ [])))) = none
plan_of (tq ∷ (m ∷ (f ∷ (c ∷ (d ∷ ds))))) = calling (bigint_of tq) m (some f)
plan_of _ = none

-- The handler of `data` up to the call; `none` where an exception comes before it.
unfoldable pub js_plan : Str → Option Call
unfolding split plan_of
js_plan sent = plan_of (split b',' sent)

-- `rc.toString()`
abbrev pub int_text : ℤ → Str
int_text (pos n) = chars (digits 10 (suc n) n)
int_text (negsuc n) = b'-' ∷ chars (digits 10 (suc (suc n)) (suc n))

-- What the handler writes; `run` is what the call returns, `none` an exception, of the call or of
-- `toString` on what it returns.
unfoldable pub js_answer : (run : Call → Option ℤ) → Str → Str
unfolding js_plan
js_answer run sent = elim (js_plan sent) [
  | none ↦ b'1' ∷ []
  | some c ↦ elim (run c) [ none ↦ b'1' ∷ [] | some rc ↦ int_text rc ]
]

-- sscanf(buf, "%d", &ret): `none` where nothing is read, and `ret` stays.
abbrev pub is_space : ℕ → Bool
is_space c = (c == b' ') || (leb 9 c && leb c 13)

abbrev pub scan_digits : (signed : ℕ → ℤ) → Str → Option ℤ
scan_digits signed [] = none
scan_digits signed (c ∷ cs) = elim (digit_of 10 c) [
  | none ↦ none
  | some _ ↦ some (signed (read_digits 10 0 (c ∷ cs)).0)
]

abbrev pub minus : ℕ → ℤ
minus zero = pos 0
minus (suc n) = negsuc n

unfoldable pub scan_int : Str → Option ℤ
unfolding read_digits
scan_int [] = none
scan_int (c ∷ cs) =
    let rest = scan_int cs in
    if is_space c
    then rest
    else if c == b'-'
    then scan_digits minus cs
    else if c == b'+'
    then scan_digits pos cs
    else scan_digits pos (c ∷ cs)

-- The range of an int; outside of it the result of sscanf is undefined.
abbrev pub is_int : ℤ → Bool
is_int (pos n) = ltb n (2 ^ 31)
is_int (negsuc n) = ltb n (2 ^ 31)

abbrev pub read_ret : Option ℤ → Option ℤ
read_ret none = some (pos 0)
read_ret (some n) = if is_int n then some n else none

abbrev pub buf_size : ℕ
buf_size = 8192

-- The static state: `threads` counts the threads that were started.
pub record Process : Type 0 where
  pub initialized : Bool
  pub threads : ℕ
  pub connected : Bool

-- The loop around `connect`, `answers` being what each try answers.
unfoldable pub connect_loop : (left i : ℕ) → (answers : ℕ → Bool) → Bool
connect_loop zero i answers = false
connect_loop (suc left) i answers = if answers i then true else connect_loop left (i + 1) answers

unfoldable pub start : (connects : ℕ → Bool) → Process → Process
unfolding connect_loop
start connects p = if p.initialized then p else record {
  initialized = true;
  threads = p.threads + 1;
  connected = connect_loop 10 0 connects;
}

-- The bytes that recv leaves in the buffer of zeros; where it fails there are none.
abbrev pub received : Option Str → Str
received none = []
received (some s) = s

-- `exchange` is what recv gives after the message was sent, `none` where it fails. The answer is
-- `none` for a fault: a message that does not fit the buffer, an answer that fills it, so that no 0
-- ends it, or a number that is no int.
unfoldable pub libffi_init :
    (exchange : Str → Option Str)
    → (connects : ℕ → Bool) → (cfg : Option Str) → (tq : ℕ) → Process
    → Option (ℤ × Process)
unfolding start scan_int
libffi_init exchange connects cfg tq p =
    let p' = start connects p in
    let sent = message tq cfg in
    let answer = received (exchange sent) in
    if leb buf_size (length sent)
    then none
    else if leb buf_size (length answer)
    then none
    else elim (read_ret (scan_int answer)) [ none ↦ none | some ret ↦ some (ret, p') ]
