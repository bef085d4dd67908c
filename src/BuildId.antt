-- ===== src/BuildId.antt =====
-- build-id.c and build-id.h: the search for the GNU build-id note of a loaded object. Memory is a
-- map from addresses to bytes, `none` where nothing is mapped; words are little-endian, as on the
-- machines the library is built for, and the ELF class is 64 bits. dl_iterate_phdr is modelled by
-- the list of the objects that it visits; what dladdr finds is an argument.
pub mod Find
pub mod Notes
pub mod Scan
use lua_resty_ffi.Common.{
  ℕ, zero, suc, ◌+◌, ◌-◌, ◌*◌, ◌/◌, ◌%◌, ◌^◌, ◌==◌, leb, if◌then◌else◌, not, Bool, true, false,
  ◌&&◌, Option, none, some, List, [], ◌∷◌,
}

abbrev pub Mem : Type 0
Mem = ℕ → Option ℕ

-- Reads that may meet an unmapped byte.
infixl 5 ◌>>=◌
abbrev pub ◌>>=◌ {ℓ κ} : {A : Type ℓ} {B : Type κ} → Option A → (A → Option B) → Option B
none >>= f = none
some a >>= f = f a

-- A field of type ElfW(Word).
unfoldable pub word : Mem → ℕ → Option ℕ
word m a = do
  b0 ← m a
  b1 ← m (a + 1)
  b2 ← m (a + 2)
  b3 ← m (a + 3)
  some (b0 + 256 * b1 + 65536 * b2 + 16777216 * b3)

unfoldable pub bytes : Mem → ℕ → ℕ → Option (List ℕ)
bytes m a zero = some []
bytes m a (suc n) = do b ← m a; bs ← bytes m (a + 1) n; some (b ∷ bs)

-- The fields of `struct build_id_note`: `n_namesz`, `n_descsz` and `n_type` of its header, then
-- `name` and `build_id`.
abbrev pub namesz_at : Mem → ℕ → Option ℕ
namesz_at m note = word m note

abbrev pub descsz_at : Mem → ℕ → Option ℕ
descsz_at m note = word m (note + 4)

abbrev pub type_at : Mem → ℕ → Option ℕ
type_at m note = word m (note + 8)

abbrev pub name_at : ℕ → ℕ
name_at note = note + 12

abbrev pub build_id_at : ℕ → ℕ
build_id_at note = note + 16

abbrev pub sizeof_nhdr : ℕ
sizeof_nhdr = 12

abbrev pub sizeof_note : ℕ
sizeof_note = 16

abbrev pub nt_gnu_build_id : ℕ
nt_gnu_build_id = 3

-- ALIGN(val, 4) in 32-bit unsigned arithmetic; clearing the two low bits is division by 4.
abbrev pub align : ℕ → ℕ
align val = (val + 3) % 2 ^ 32 / 4 * 4

-- memcmp(name, "GNU", 4) == 0
abbrev pub is_gnu : List ℕ → Bool
is_gnu (a ∷ (b ∷ (c ∷ (d ∷ [])))) = a == b'G' && (b == b'N' && (c == b'U' && d == 0))
is_gnu _ = false

-- The test of the loop's body, each read made only if the tests before it passed.
unfoldable pub is_build_id : Mem → ℕ → Option Bool
is_build_id m note = do
  n_type ← type_at m note
  if not (n_type == nt_gnu_build_id) then some false else do
    n_descsz ← descsz_at m note
    if n_descsz == 0 then some false else do
      n_namesz ← namesz_at m note
      if not (n_namesz == 4)
          then some false
          else do name ← bytes m (name_at note) 4; some (is_gnu name)

unfoldable pub note_offset : Mem → ℕ → Option ℕ
note_offset m note = do
  n_namesz ← namesz_at m note
  n_descsz ← descsz_at m note
  some (sizeof_nhdr + align n_namesz + align n_descsz)

-- How a search ends: with a note, without one, at an unmapped byte, or out of rounds.
pub data Search : Type 0 where
  found : ℕ → Search
  exhausted : Search
  unmapped : Search
  out_of_fuel : Search

-- `len` is the bit pattern of the ptrdiff_t: the comparison with a size_t makes it unsigned, and
-- `len -= offset` wraps.
unfoldable pub scan : (fuel : ℕ) → Mem → (note len : ℕ) → Search
scan zero m note len = out_of_fuel
scan (suc fuel) m note len = elim (leb sizeof_note len) [
  | false ↦ exhausted
  | true ↦ elim (is_build_id m note) [
    | none ↦ unmapped
    | some true ↦ found note
    | some false ↦ elim (note_offset m note) [
      | none ↦ unmapped
      | some offset ↦ scan fuel m (note + offset) ((len + 2 ^ 64 - offset) % 2 ^ 64)
    ]
  ]
]

-- The part of ElfW(Phdr) and of struct dl_phdr_info that is read; a missing name is NULL.
pub record Phdr : Type 0 where
  pub p_type : ℕ
  pub p_vaddr : ℕ
  pub p_filesz : ℕ

pub record Info : Type 0 where
  pub dlpi_addr : ℕ
  pub dlpi_name : Option (List ℕ)
  pub phdrs : List Phdr

abbrev pub pt_load : ℕ
pt_load = 1

abbrev pub pt_note : ℕ
pt_note = 4

-- The union and its tag.
pub data Key : Type 0 where
  by_name : List ℕ → Key
  by_symbol : (dli_fbase : ℕ) → Key

-- strcmp(a, b) == 0
abbrev pub str_eq : List ℕ → List ℕ → Bool
str_eq [] [] = true
str_eq [] (y ∷ ys) = false
str_eq (x ∷ xs) [] = false
str_eq (x ∷ xs) (y ∷ ys) = x == y && str_eq xs ys

-- The address of the first PT_LOAD segment, or NULL.
unfoldable pub map_start : (dlpi_addr : ℕ) → List Phdr → ℕ
map_start addr [] = 0
map_start addr (p ∷ ps) =
    let rest = map_start addr ps in if p.p_type == pt_load then addr + p.p_vaddr else rest

-- The checks that come before the search: whether the object is the one that is looked for.
unfoldable pub matches : Key → Info → Bool
unfolding map_start
matches (by_name name) info = elim (info.dlpi_name) [ none ↦ false | some n ↦ str_eq n name ]
matches (by_symbol base) info = map_start info.dlpi_addr info.phdrs == base

-- Where one search finds nothing, the next one decides.
abbrev pub or_else : Search → Search → Search
or_else exhausted rest = rest
or_else r rest = r

-- The loop over the program headers. A well-formed segment has fewer notes than bytes, so the
-- rounds suffice for it.
unfoldable pub search_phdrs : Mem → (dlpi_addr : ℕ) → List Phdr → Search
unfolding scan
search_phdrs m addr [] = exhausted
search_phdrs m addr (p ∷ ps) = elim (p.p_type == pt_note) [
  | false ↦ search_phdrs m addr ps
  | true ↦ or_else (scan (suc p.p_filesz) m (addr + p.p_vaddr) p.p_filesz) (search_phdrs m addr ps)
]

-- build_id_find_nhdr_callback: `exhausted` for the answer 0, `found` for 1 with `data->note` set.
unfoldable pub find_nhdr_callback : Mem → Key → Info → Search
unfolding matches search_phdrs
find_nhdr_callback m key info =
    if matches key info then search_phdrs m info.dlpi_addr info.phdrs else exhausted

-- dl_iterate_phdr with that callback: it stops at the first answer that is not 0.
unfoldable pub iterate_phdr : Mem → Key → List Info → Search
unfolding find_nhdr_callback
iterate_phdr m key [] = exhausted
iterate_phdr m key (info ∷ infos) =
    or_else (find_nhdr_callback m key info) (iterate_phdr m key infos)

unfoldable pub find_nhdr_by_name : Mem → List Info → List ℕ → Search
unfolding iterate_phdr
find_nhdr_by_name m infos name = iterate_phdr m (by_name name) infos

-- `dladdr` is what dladdr(symbol) finds: `none` if it fails, else `dli_fbase`, which may be NULL.
unfoldable pub find_nhdr_by_symbol : Mem → List Info → (dladdr : Option ℕ) → Search
unfolding iterate_phdr
find_nhdr_by_symbol m infos none = exhausted
find_nhdr_by_symbol m infos (some base) =
    if base == 0 then exhausted else iterate_phdr m (by_symbol base) infos

unfoldable pub build_id_length : Mem → (note : ℕ) → Option ℕ
build_id_length m note = descsz_at m note

unfoldable pub build_id_data : (note : ℕ) → ℕ
build_id_data note = build_id_at note
