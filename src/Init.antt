-- ===== src/Init.antt =====
-- lua_resty_ffi_init of ngx_http_lua_ffi.c: the check that the shared object was built for the
-- running nginx, and the addresses of nginx's private symbols. The generated header symbols.h and
-- the addresses of nginx's public symbols are arguments.
pub mod Check
pub mod Hex
pub mod Program
use lua_resty_ffi.Common.{
  ℕ, zero, suc, ◌+◌, ◌*◌, ◌/◌, ◌%◌, ◌^◌, if◌then◌else◌, not, Bool, Option, none, some, List, [],
  ◌∷◌, ◌++◌, ltb, leb, length,
}
use lua_resty_ffi.Common.Int.{ℤ, pos, negsuc}
use lua_resty_ffi.BuildId.{
  Mem, ◌>>=◌, Info, Search, found, exhausted, unmapped, out_of_fuel, find_nhdr_by_name,
  build_id_length, build_id_data, str_eq,
}

-- symbols.h, and the addresses of ngx_cycle and ngx_calloc; an offset is a 64-bit pattern.
pub record Symbols : Type 0 where
  pub ngx_build_id : List ℕ
  pub done_offset : ℕ
  pub done_lock_offset : ℕ
  pub handler_offset : ℕ
  pub ngx_cycle : ℕ
  pub ngx_calloc : ℕ

-- The static pointers that the function sets.
pub record Globals : Type 0 where
  pub thread_pool_done_lock : ℕ
  pub thread_pool_done : ℕ
  pub thread_pool_handler : ℕ

-- `addr += offset`
abbrev pub shifted : ℕ → ℕ → ℕ
shifted addr offset = (addr + offset) % 2 ^ 64

abbrev pub hex_digit : ℕ → ℕ
hex_digit d = if ltb d 10 then b'0' + d else 87 + d

-- What sprintf writes for "%02x", without its 0.
abbrev pub hex_byte : ℕ → List ℕ
hex_byte b = hex_digit (b / 16) ∷ hex_digit (b % 16) ∷ []

-- The loop: `buf` is what the buffer holds before its 0; a write behind its end is a fault.
unfoldable pub print_hex : Mem → (capacity : ℕ) → (left addr : ℕ) → (buf : List ℕ) → Option (List ℕ)
print_hex m capacity zero addr buf = some buf
print_hex m capacity (suc left) addr buf = do
  b ← m addr
  if leb (length buf + 3) capacity
      then print_hex m capacity left (addr + 1) (buf ++ hex_byte b)
      else none

-- The size of the buffer, `len*2+100` in 32-bit unsigned arithmetic.
abbrev pub capacity : ℕ → ℕ
capacity len = (len * 2 + 100) % 2 ^ 32

abbrev pub resolved : Symbols → Globals
resolved sym = record {
  thread_pool_done = shifted sym.ngx_cycle sym.done_offset;
  thread_pool_done_lock = shifted sym.ngx_cycle sym.done_lock_offset;
  thread_pool_handler = shifted sym.ngx_calloc sym.handler_offset;
}

-- From the length of the build id on, for the note that was found.
check_note : Mem → Symbols → (allocated : Bool) → (note : ℕ) → Globals → Option (ℤ × Globals)
unfolding print_hex build_id_length build_id_data
check_note m sym allocated note globals = do
  len ← build_id_length m note
  if not allocated then none else do
    buf ← print_hex m (capacity len) len (build_id_data note) []
    some (if str_eq buf sym.ngx_build_id then (pos 0, resolved sym) else (negsuc 1, globals))

-- The returned code with the static pointers; `none` is a fault. `allocated` says that calloc gave
-- the buffer.
unfoldable pub lua_resty_ffi_init :
    Mem → List Info → Symbols → (allocated : Bool) → Globals → Option (ℤ × Globals)
unfolding check_note
lua_resty_ffi_init m infos sym allocated globals = elim (find_nhdr_by_name m infos []) [
  | found note ↦ check_note m sym allocated note globals
  | exhausted ↦ some (negsuc 0, globals)
  | unmapped ↦ none
  | out_of_fuel ↦ none
]
