-- ===== src/Examples/Loads.antt =====
-- The library `a` is loaded without a configuration, and then with `b`, or, then, the library `b`.
use lua_resty_ffi.Common.{
  ◌==◌, ◌≡◌, refl, if◌then◌else◌, ◌&&◌, true, false, none, some, [], ◌∷◌, arith,
}
use lua_resty_ffi.Common.Int.{pos}
use lua_resty_ffi.Loader.{Str}
use lua_resty_ffi.Lua.Load.{
  same_text, Nffi, Libs, Answers, create_nffi, load_ffi, unload_nffi, lookup,
}
use lua_resty_ffi.Lua.Load.Keys.{same_cfg}
use lua_resty_ffi.Lua.Load.Tables.{begins}
use lua_resty_ffi.Lua.Load.Pins.{now, loads_more, unloads_one, pinned, stays_open}
use lua_resty_ffi.Lua.Load.Shared.{load_ffi-shares}

abbrev all_well : Answers
all_well = record {
  has_symbols = true;
  init_rc = pos 0;
  found = true;
  has_init = true;
  start_rc = pos 0;
}

abbrev lib : Str
lib = b'a' ∷ []

abbrev nothing_loaded : Libs
nothing_loaded = record {
  initialised = false;
  runtimes = [];
  pin_libs = [];
  nffis = λ i. none;
  queues = 0;
}

abbrev one_loaded : Libs
one_loaded = record {
  initialised = true;
  runtimes = (lib, 0) ∷ [];
  pin_libs = lib ∷ [];
  nffis = λ j.
      if 0 == j
      then some
          (record { finished = false; key = some lib; handle = some lib; max_queue = pos 65536 })
      else none;
  queues = 1;
}

load_ffi-shares_example :
    ((0 == 1) ≡ (same_text lib lib && same_cfg none (some (b'b' ∷ []))))
    × ((if 0 == 1 then 2 else one_loaded.queues) ≡ one_loaded.queues)
    × (n : Nffi) × (one_loaded.nffis 0 ≡ some n)
    × (n.finished ≡ false)
unfolding load_ffi create_nffi
load_ffi-shares_example =
    load_ffi-shares all_well all_well lib lib none (some (b'b' ∷ [])) none none
      {libs = nothing_loaded} {libs' = one_loaded} {i = 0} {j = 1} begins refl refl
      (omega arith, tt) (omega arith, tt)

-- Another library is loaded, and then the runtime of the first one is unloaded.
abbrev both_loaded : Libs
both_loaded = (load_ffi all_well (b'b' ∷ []) none none one_loaded).1

stays_open_example :
    ((n : Nffi) × ((unload_nffi 0 both_loaded).nffis 0 ≡ some n)
      × (n.finished ≡ true)
      × (n.handle ≡ none))
    × (true ≡ false → lookup lib (unload_nffi 0 both_loaded).runtimes ≡ some 0)
    × (true ≡ true → pinned lib (unload_nffi 0 both_loaded).pin_libs ≡ true)
unfolding load_ffi create_nffi
stays_open_example =
    stays_open all_well lib none none {libs = nothing_loaded} {libs' = one_loaded} {i = 0} begins
      refl refl (unloads_one 0 (loads_more all_well (b'b' ∷ []) none none now))
