-- ===== src/Node/Loader/Returns.antt =====
-- What libffi_init of examples/nodejs/loader.cc returns: the number of the JavaScript function, and 0
-- where no JavaScript answers.
use lua_resty_ffi.Common.{
  ℕ, zero, suc, ◌+◌, ◌<◌, ◌≡◌, ◌≢◌, refl, ◌∙◌, ap, sym, ◌==◌, leb, Bool, true, false, Option, none,
  some, List, [], ◌∷◌, ◌++◌, length, arith, Option-cases, inl, inr,
}
use mathlib.Core.List.{append-nil}
use lua_resty_ffi.Common.Int.{ℤ, pos, negsuc}
use lua_resty_ffi.Init.{hex_digit}
use lua_resty_ffi.Loader.{Str}
use lua_resty_ffi.Loader.Split.{NotIn, marked, config}
use lua_resty_ffi.Loader.Digits.{
  digits, chars, digit_of, read_digits, digits-cons, read_digits-digits, Base-ten,
  length-chars-digits,
}
use lua_resty_ffi.Node.Loader.{
  message, Call, js_plan, int_text, js_answer, minus, is_space, scan_digits, scan_int, is_int,
  buf_size, Process, start, connect_loop, libffi_init,
}
use lua_resty_ffi.Node.Loader.Calls.{the_call, expected, js_plan-config}

-- The first character of a number's digits is a digit.
digits-head :
    (n d : ℕ) (ds : List ℕ)
    → digits 10 (suc n) n ≡ d ∷ ds
    → read_digits 10 0 (hex_digit d ∷ chars ds) ≡ (n, [])
digits-head n d ds e =
    ap (λ (cs : List ℕ). read_digits 10 0 (chars cs)) (sym e)
    ∙ ap (read_digits 10 0) (sym (append-nil (chars (digits 10 (suc n) n))))
    ∙ read_digits-digits Base-ten (suc n) n [] (omega arith) tt

starts_with_digit :
    (c : ℕ) (cs : Str) (n : ℕ)
    → read_digits 10 0 (c ∷ cs) ≡ (n, [])
    → (x : ℕ) × (digit_of 10 c ≡ some x)
unfolding read_digits
starts_with_digit c cs n e = elim (Option-cases (digit_of 10 c)) [
  | inl h ↦ absurd (ground arith)
  | inr (x, h) ↦ (x, h)
]

no_sign :
    (c x : ℕ)
    → digit_of 10 c ≡ some x
    → (is_space c ≡ false) × ((c == b'-') ≡ false) × ((c == b'+') ≡ false)
no_sign c x h = (ground arith, ground arith, ground arith)

module _ (c : ℕ) (cs : Str) (n : ℕ) (e : read_digits 10 0 (c ∷ cs) ≡ (n, [])) where
  scan_digits-read : (signed : ℕ → ℤ) → scan_digits signed (c ∷ cs) ≡ some (signed n)
  scan_digits-read signed = let (x, h) = starts_with_digit c cs n e in ground arith

  scan_int-read : scan_int (c ∷ cs) ≡ some (pos n)
  unfolding scan_int
  scan_int-read =
      let (x, h) = starts_with_digit c cs n e in
      let (space, dash, plus) = no_sign c x h in rw (space, dash, plus) (scan_digits-read pos)

  scan_int-minus : scan_int (b'-' ∷ (c ∷ cs)) ≡ some (minus n)
  unfolding scan_int
  scan_int-minus = scan_digits-read minus

-- A number that JavaScript prints is the one that is read.
scan_int-int_text : (n : ℤ) → scan_int (int_text n) ≡ some n
scan_int-int_text (pos n) =
    let (d, ds, e) = digits-cons 10 n n in
    rw e (scan_int-read (hex_digit d) (chars ds) n (digits-head n d ds e))
scan_int-int_text (negsuc n) =
    let (d, ds, e) = digits-cons 10 (suc n) (suc n) in
    rw e (scan_int-minus (hex_digit d) (chars ds) (suc n) (digits-head (suc n) d ds e))

length-int_text : (n : ℤ) → is_int n ≡ true → length (int_text n) < buf_size
length-int_text (pos n) h = let le = length-chars-digits 9 (suc n) n (ground arith) in omega arith
length-int_text (negsuc n) h =
    let le = length-chars-digits 9 (suc (suc n)) (suc n) (ground arith) in omega arith

-- What the call returns, or 1 where none is made.
abbrev pub code : (run : Call → Option ℤ) → Option Call → Option ℤ
code run none = some (pos 1)
code run (some c) = run c

js_answer-code :
    (run : Call → Option ℤ) (sent : Str) (o : Option Call) (rc : ℤ)
    → js_plan sent ≡ o
    → code run o ≡ some rc
    → js_answer run sent ≡ int_text rc
unfolding js_answer digits
js_answer-code run sent none rc plan e =
    let one : pos 1 ≡ rc = cc in rw (plan, js_answer) (ap int_text one)
js_answer-code run sent (some x) rc plan e = rw (plan, e, js_answer)

module _ (connects : ℕ → Bool) (tq : ℕ) (m : Str) (c : ℕ) (reload : Bool) (func : Str)
    (some_tq : tq ≢ 0) (hm : NotIn b',' (m ++ c ∷ [])) (ne : c ≢ b'?') (hf : NotIn b',' func)
    (run : Call → Option ℤ) (rest : Option Str) (p : Process) where
  abbrev cfg : Str
  cfg = config (marked (m ++ c ∷ []) reload) func rest

  abbrev called : Option Call
  called = expected (the_call tq (m ++ c ∷ []) reload func) rest

  -- A start with a configuration `module?,func` or `module?,func,rest`, the '?' optional, for a
  -- message that fits its buffer, while what the handler answers comes back. The handler calls the
  -- function of the module with the task queue, and its number, an int, is what is returned. With
  -- one more part, a configuration, nothing is called and 1 is returned, since an exception comes
  -- first; with two more parts and more the function is called, and all of them are dropped.
  pub libffi_init-js_answer :
      (rc : ℤ)
      → code run called ≡ some rc
      → is_int rc ≡ true
      → length (message tq (some cfg)) < buf_size
      → libffi_init (λ sent. some (js_answer run sent)) connects (some cfg) tq p
        ≡ some (rc, start connects p)
  unfolding libffi_init
  libffi_init-js_answer rc e int room =
      let text =
        js_answer-code run (message tq (some cfg)) called rc
          (js_plan-config tq m c reload func some_tq hm ne hf rest) e in
      let short = length-int_text rc int in
      let sent : leb buf_size (length (message tq (some cfg))) ≡ false = ground arith in
      let got : leb buf_size (length (int_text rc)) ≡ false = ground arith in
      rw (sent, text, got, scan_int-int_text rc, int)

connect_loop_fails :
    (left i : ℕ) (connects : ℕ → Bool)
    → ((k : ℕ) → connects k ≡ false)
    → connect_loop left i connects ≡ false
unfolding connect_loop
connect_loop_fails zero i connects h = refl
connect_loop_fails (suc left) i connects h =
    rw (h i, connect_loop) (connect_loop_fails left (i + 1) connects h)

-- Where no connection is made and no message comes back, a first call of libffi_init that starts
-- the thread returns 0, the number of a success, for any message that fits its buffer; so does every
-- later one, and none of them tries to connect again, even where that would succeed.
pub libffi_init_unreachable :
    (connects later : ℕ → Bool) (cfg cfg' : Option Str) (tq tq' : ℕ) (p : Process)
    → p.initialized ≡ false
    → ((k : ℕ) → connects k ≡ false)
    → length (message tq cfg) < buf_size
    → length (message tq' cfg') < buf_size
    → (p' : Process) × (libffi_init (λ sent. none) connects cfg tq p ≡ some (pos 0, p'))
      × (p'.connected ≡ false)
      × (p'.threads ≡ p.threads + 1)
      × (libffi_init (λ sent. none) later cfg' tq' p' ≡ some (pos 0, p'))
unfolding libffi_init start scan_int
libffi_init_unreachable connects later cfg cfg' tq tq' p first h room room' =
    let p' : Process = record { initialized = true; threads = p.threads + 1; connected = false } in
    let sent : leb buf_size (length (message tq cfg)) ≡ false = ground arith in
    let sent' : leb buf_size (length (message tq' cfg')) ≡ false = ground arith in
    (p', rw (sent, first, connect_loop_fails 10 0 connects h), refl, refl, rw sent')
