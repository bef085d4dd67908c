-- ===== src/Init/Check.antt =====
-- What lua_resty_ffi_init of ngx_http_lua_ffi.c answers.
use lua_resty_ffi.Common.{
  ◌-◌, ℕ, ◌+◌, ◌*◌, ◌^◌, ◌<◌, ◌≤◌, ◌≡◌, ◌≢◌, ◌∙◌, if◌then◌else◌, true, some, List, [], arith,
  Bool-cases, inl, inr,
}
use lua_resty_ffi.Common.Int.{pos, negsuc}
use lua_resty_ffi.BuildId.{
  Mem, bytes, Info, found, find_nhdr_by_name, build_id_length, build_id_data, str_eq,
}
use lua_resty_ffi.Init.{Symbols, Globals, resolved, capacity, print_hex, lua_resty_ffi_init}
use lua_resty_ffi.Init.Hex.{hex, Bytes, hex-injective, print_hex-hex, str_eq→eq, str_eq_refl}

module _ (m : Mem) (infos : List Info) (syms : Symbols) (globals : Globals) where
  -- A build id `id` of `len` bytes was found at `note`.
  pub record HasId (note len : ℕ) (id : List ℕ) : Type 0 where
    pub found_at : find_nhdr_by_name m infos [] ≡ found note
    pub size : build_id_length m note ≡ some len
    pub content : bytes m (build_id_data note) len ≡ some id
    pub small : len < 2 ^ 31 - 50

  module _ {note len : ℕ} {id : List ℕ} (h : HasId note len id) where
    printed : print_hex m (capacity len) len (build_id_data note) [] ≡ some (hex id)
    printed = print_hex-hex m (capacity len) len (build_id_data note) id [] h.content room
      where
        room : 0 + 2 * len + 1 ≤ capacity len
        room = omega (arith, h.small)

    answer :
        lua_resty_ffi_init m infos syms true globals
        ≡ some (
            if str_eq (hex id) syms.ngx_build_id
            then (pos 0, resolved syms)
            else (negsuc 1, globals))
    unfolding lua_resty_ffi_init
    answer = rw (h.found_at, lua_resty_ffi_init, h.size, printed)

    -- The running program has a build id `id`, which is found, and which is shorter than 2^31 - 50
    -- bytes, and the buffer is allocated. For a build with the id `built`, whose text is
    -- NGX_BUILD_ID, the program is accepted exactly if the two ids are the same. Then the three
    -- pointers are set to the offsets of symbols.h from ngx_cycle and ngx_calloc and 0 is returned;
    -- otherwise no pointer is set and -2 is returned. The text fits the buffer: no write goes
    -- behind its end.
    pub init_identifies :
        (built : List ℕ)
        → syms.ngx_build_id ≡ hex built
        → Bytes id
        → Bytes built
        → (id ≡ built → lua_resty_ffi_init m infos syms true globals ≡ some (pos 0, resolved syms))
          × (id ≢ built → lua_resty_ffi_init m infos syms true globals ≡ some (negsuc 1, globals))
    init_identifies built text idb builtb = (
      λ same. answer ∙ rw (text, same, str_eq_refl (hex built)),
      λ other. answer ∙ (elim (Bool-cases (str_eq (hex id) syms.ngx_build_id)) [
        | inl e ↦ absurd (
            other
              (hex-injective id built idb builtb (str_eq→eq (hex id) (syms.ngx_build_id) e ∙ text)))
        | inr e ↦ rw e
      ]),
    )
