-- ===== src/Examples/Notes.antt =====
-- The theorems on build ids at a memory with two notes from 1000 on, the second of them a build id.
use lua_resty_ffi.Common.{
  ℕ, zero, suc, ◌+◌, ◌-◌, ◌≤◌, ◌≡◌, refl, true, Option, none, some, List, [], ◌∷◌, ◌++◌, arith, ltb,
  if◌then◌else◌,
}
use lua_resty_ffi.BuildId.{
  Mem, word, bytes, matches, build_id_data, unmapped, scan, Info, by_name, iterate_phdr,
}
use lua_resty_ffi.BuildId.Notes.{Note, At, Filled}
use lua_resty_ffi.BuildId.Scan.{First, scan-First, scan_overruns}
use lua_resty_ffi.BuildId.Find.{
  note_segments, candidates, FirstIn, WellFormed, iterate_phdr-FirstIn,
}
use lua_resty_ffi.Init.{Symbols, Globals, lua_resty_ffi_init}
use lua_resty_ffi.Init.Program.{IdAt, WithIds, Decision, init_decides}

abbrev nth : List ℕ → ℕ → Option ℕ
nth [] n = none
nth (x ∷ xs) zero = some x
nth (x ∷ xs) (suc n) = nth xs n

abbrev gnu_name : List ℕ
gnu_name = b'G' ∷ b'N' ∷ b'U' ∷ 0 ∷ []

abbrev header : (namesz descsz n_type : ℕ) → List ℕ
header namesz descsz n_type = namesz ∷ 0 ∷ 0 ∷ 0 ∷ descsz ∷ 0 ∷ 0 ∷ 0 ∷ n_type ∷ 0 ∷ 0 ∷ 0 ∷ []

abbrev image : List ℕ
image =
    header 4 4 1
    ++ gnu_name
    ++ (9 ∷ 9 ∷ 9 ∷ 9 ∷ [])
    ++ header 4 2 3
    ++ gnu_name
    ++ (171 ∷ 205 ∷ 0 ∷ 0 ∷ [])

abbrev mem : Mem
mem a = if ltb a 1000 then none else nth image (a - 1000)

abbrev abi_tag : Note
abi_tag = record { n_namesz = 4; n_descsz = 4; n_type = 1; name = gnu_name }

abbrev build_id_note : Note
build_id_note = record { n_namesz = 4; n_descsz = 2; n_type = 3; name = gnu_name }

abi_tag-At : At mem 1000 abi_tag
unfolding word bytes
abi_tag-At = record { namesz = refl; descsz = refl; type_ = refl; name = λ e. refl }

build_id_note-At : At mem 1020 build_id_note
unfolding word bytes
build_id_note-At = record { namesz = refl; descsz = refl; type_ = refl; name = λ e. refl }

mem-Filled : Filled mem 1000 (abi_tag ∷ build_id_note ∷ []) 40
mem-Filled = (abi_tag-At, omega arith, (build_id_note-At, omega arith, refl))

scan-First_example : First 1000 (abi_tag ∷ build_id_note ∷ []) (scan 3 mem 1000 40)
scan-First_example =
    scan-First 3 mem 1000 40 (abi_tag ∷ build_id_note ∷ []) mem-Filled (omega arith) (omega arith)

-- A library, and the program, whose name is empty.
abbrev objects : List Info
objects =
    record {
      dlpi_addr = 0;
      dlpi_name = some (b'c' ∷ []);
      phdrs = record { p_type = 4; p_vaddr = 5; p_filesz = 90 } ∷ [];
    }
    ∷ record {
      dlpi_addr = 900;
      dlpi_name = some [];
      phdrs =
          record { p_type = 1; p_vaddr = 0; p_filesz = 4096 }
          ∷ record { p_type = 4; p_vaddr = 100; p_filesz = 40 }
          ∷ [];
    }
    ∷ []

mem-WellFormed : WellFormed mem (candidates (by_name []) objects)
unfolding candidates note_segments matches
mem-WellFormed = ((abi_tag ∷ build_id_note ∷ [], mem-Filled), omega arith, tt)

iterate_phdr-FirstIn_example :
    FirstIn mem (candidates (by_name []) objects) (iterate_phdr mem (by_name []) objects)
iterate_phdr-FirstIn_example = iterate_phdr-FirstIn mem (by_name []) objects mem-WellFormed

abbrev program_id : List ℕ
program_id = 171 ∷ 205 ∷ []

abbrev symbols : Symbols
symbols = record {
  ngx_build_id = b'a' ∷ b'b' ∷ b'c' ∷ b'd' ∷ [];
  done_offset = 16;
  done_lock_offset = 32;
  handler_offset = 48;
  ngx_cycle = 5000;
  ngx_calloc = 6000;
}

abbrev unset_globals : Globals
unset_globals = record { thread_pool_done_lock = 0; thread_pool_done = 0; thread_pool_handler = 0 }

program_id-IdAt : IdAt mem 1020
unfolding word bytes build_id_data
program_id-IdAt = record {
  len = 2;
  id = program_id;
  size = refl;
  content = refl;
  is_bytes = (omega arith, (omega arith, tt));
  small = omega arith;
}

mem-WithIds : WithIds mem (candidates (by_name []) objects)
unfolding candidates note_segments matches
mem-WithIds = (
  (
    abi_tag ∷ build_id_note ∷ [],
    mem-Filled,
    ((λ is. absurd (omega (arith, is.0))), ((λ is. program_id-IdAt), tt)),
  ),
  omega arith,
  tt,
)

init_decides_example :
    FirstIn mem (candidates (by_name []) objects) (iterate_phdr mem (by_name []) objects)
    × Decision mem symbols unset_globals program_id
        (iterate_phdr mem (by_name []) objects)
        (lua_resty_ffi_init mem objects symbols true unset_globals)
init_decides_example =
    init_decides mem objects symbols unset_globals program_id refl (omega arith, (omega arith, tt))
      mem-WithIds

-- A segment of 16 bytes whose one note claims 100 bytes of description.
abbrev short_mem : Mem
short_mem a =
    if ltb a 1000
    then none
    else if ltb a 1016
    then nth (header 4 100 1 ++ gnu_name) (a - 1000)
    else none

abbrev long_note : Note
long_note = record { n_namesz = 4; n_descsz = 100; n_type = 1; name = gnu_name }

long_note-At : At short_mem 1000 long_note
unfolding word bytes
long_note-At = record { namesz = refl; descsz = refl; type_ = refl; name = λ e. refl }

short_mem_end : (b : ℕ) → 1000 + 16 ≤ b → short_mem b ≡ none
short_mem_end b le = ground arith

scan_overruns_example : scan 17 short_mem 1000 16 ≡ unmapped
scan_overruns_example =
    scan_overruns 15 short_mem 1000 16 long_note long_note-At (λ is. omega (arith, is.0))
      (omega arith) (omega arith) short_mem_end
