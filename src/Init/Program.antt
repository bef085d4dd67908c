-- ===== src/Init/Program.antt =====
-- lua_resty_ffi_init of ngx_http_lua_ffi.c on the loaded objects of a program, by what their note
-- segments hold.
use lua_resty_ffi.Common.{
  ℕ, suc, ◌+◌, ◌-◌, ◌^◌, ◌<◌, ◌≡◌, ◌≢◌, refl, sym, true, false, Option, ◌==◌, if◌then◌else◌, some,
  List, [], ◌∷◌, ◌++◌, arith, length, Bool-cases, inl, inr,
}
use lua_resty_ffi.Common.Int.{ℤ, pos, negsuc}
use lua_resty_ffi.BuildId.{
  Mem, bytes, descsz_at, Search, found, exhausted, unmapped, out_of_fuel, Phdr, Info, Key, by_name,
  pt_note, matches, or_else, search_phdrs, find_nhdr_callback, iterate_phdr, find_nhdr_by_name,
  build_id_length, build_id_data, str_eq,
}
use lua_resty_ffi.BuildId.Notes.{Note, size, IsBuildId, Filled}
use lua_resty_ffi.BuildId.Scan.{First, no_note, here, there, scan-First}
use lua_resty_ffi.BuildId.Find.{
  Segments, note_segments, candidates, WellFormed, FirstIn, length-le, iterate_phdr-FirstIn,
}
use lua_resty_ffi.Init.{Symbols, Globals, resolved, lua_resty_ffi_init}
use lua_resty_ffi.Init.Hex.{hex, Bytes, str_eq→eq, str_eq_refl}
use lua_resty_ffi.Init.Check.{HasId, init_identifies}

-- The id of the note at `a` can be read, and it is not too long for the buffer.
pub record IdAt (m : Mem) (a : ℕ) : Type 0 where
  pub len : ℕ
  pub id : List ℕ
  pub size : descsz_at m a ≡ some len
  pub content : bytes m (build_id_data a) len ≡ some id
  pub is_bytes : Bytes id
  pub small : len < 2 ^ 31 - 50

-- Each build id among the notes from `a` on can be read.
abbrev pub Readable : Mem → ℕ → List Note → Type 0
Readable m a [] = Unit
Readable m a (n ∷ ns) = (IsBuildId n → IdAt m a) × Readable m (a + size n) ns

-- Well-formed segments whose build ids can be read.
abbrev pub WithIds : Mem → Segments → Type 0
WithIds m [] = Unit
WithIds m ((a, len) ∷ segs) =
    ((ns : List Note) × Filled m a ns len × Readable m a ns) × (len < 2 ^ 64) × WithIds m segs

WithIds-WellFormed : (m : Mem) (segs : Segments) → WithIds m segs → WellFormed m segs
WithIds-WellFormed m [] w = tt
WithIds-WellFormed m ((a, len) ∷ segs) ((ns, f, _), small, w) =
    ((ns, f), small, WithIds-WellFormed m segs w)

WithIds-append : (m : Mem) (s t : Segments) → WithIds m (s ++ t) → WithIds m s × WithIds m t
WithIds-append m [] t w = (tt, w)
WithIds-append m ((a, len) ∷ s) t (f, small, w) =
    let (ws, wt) = WithIds-append m s t w in ((f, small, ws), wt)

-- The search ended, and what it found can be read.
abbrev pub Held : Mem → Search → Type 0
Held m exhausted = Unit
Held m (found a) = IdAt m a
Held m unmapped = ⊥
Held m out_of_fuel = ⊥

Held-or_else : (m : Mem) (q r : Search) → Held m q → Held m r → Held m (or_else q r)
Held-or_else m exhausted r h k = k
Held-or_else m (found a) r h k = h
Held-or_else m unmapped r h k = elim h [ ]
Held-or_else m out_of_fuel r h k = elim h [ ]

First-Held :
    (m : Mem) {a : ℕ} {ns : List Note} {r : Search} → First a ns r → Readable m a ns → Held m r
First-Held m no_note rs = tt
First-Held m (here is) (r, rs) = r is
First-Held m (there no_id f) (r, rs) = First-Held m f rs

search_phdrs-Held :
    (m : Mem) (addr : ℕ) (ps : List Phdr)
    → WithIds m (note_segments addr ps)
    → Held m (search_phdrs m addr ps)
unfolding search_phdrs note_segments
search_phdrs-Held m addr [] w = tt
search_phdrs-Held m addr (p ∷ ps) w = elim (Bool-cases (p.p_type == pt_note)) [
  | inl note ↦
      let ((ns, f, rs), small, rest) = rw (note, note_segments) at w in
      let enough : length ns < suc p.p_filesz =
        omega (arith, length-le m (addr + p.p_vaddr) p.p_filesz ns f) in
      rw (note, search_phdrs)
        (Held-or_else m _ _
          (First-Held m
            (scan-First (suc p.p_filesz) m (addr + p.p_vaddr) p.p_filesz ns f small enough) rs)
          (search_phdrs-Held m addr ps rest))
  | inr other ↦
      rw (other, search_phdrs) (search_phdrs-Held m addr ps (rw (other, note_segments) at w))
]

iterate_phdr-Held :
    (m : Mem) (key : Key) (infos : List Info)
    → WithIds m (candidates key infos)
    → Held m (iterate_phdr m key infos)
unfolding iterate_phdr find_nhdr_callback candidates
iterate_phdr-Held m key [] w = tt
iterate_phdr-Held m key (info ∷ infos) w = elim (Bool-cases (matches key info)) [
  | inl mine ↦
      let (ws, rest) =
        WithIds-append m (note_segments info.dlpi_addr info.phdrs) (candidates key infos)
          (rw mine at w) in
      rw mine (
        Held-or_else m _ _ (search_phdrs-Held m info.dlpi_addr info.phdrs ws)
          (iterate_phdr-Held m key infos rest))
  | inr other ↦ rw other (iterate_phdr-Held m key infos (rw other at w))
]

-- What lua_resty_ffi_init answers for a build with the id `built`, by what the search came to: -1
-- without a build id, 0 with the pointers set if the program has the id of the build, and else -2.
abbrev pub Decision :
    Mem → Symbols → Globals → (built : List ℕ) → Search → Option (ℤ × Globals) → Type 0
Decision m sym globals built exhausted out = out ≡ some (negsuc 0, globals)
Decision m sym globals built (found a) out =
    (i : IdAt m a) × (out
      ≡ (if str_eq i.id built then some (pos 0, resolved sym) else some (negsuc 1, globals)))
Decision m sym globals built unmapped out = ⊥
Decision m sym globals built out_of_fuel out = ⊥

apart : {xs ys : List ℕ} → xs ≡ ys → str_eq xs ys ≢ false
apart {xs} {ys} eq ne =
    let same : str_eq ys ys ≡ false = rw eq at ne in ground (arith, str_eq_refl ys)

module _ (m : Mem) (infos : List Info) (sym : Symbols) (globals : Globals) (built : List ℕ)
    (text : sym.ngx_build_id ≡ hex built) (builtb : Bytes built) where
  abbrev out : Option (ℤ × Globals)
  out = lua_resty_ffi_init m infos sym true globals

  HasId-found :
      (a : ℕ) (i : IdAt m a)
      → iterate_phdr m (by_name []) infos ≡ found a
      → HasId m infos sym globals a i.len i.id
  unfolding find_nhdr_by_name build_id_length
  HasId-found a i e = record { found_at = e; size = i.size; content = i.content; small = i.small }

  decides :
      (r : Search)
      → iterate_phdr m (by_name []) infos ≡ r
      → Held m r
      → Decision m sym globals built r out
  unfolding lua_resty_ffi_init find_nhdr_by_name
  decides exhausted e h = rw (e, lua_resty_ffi_init)
  decides (found a) e i =
      let (same, other) =
        init_identifies m infos sym globals (HasId-found a i e) built text i.is_bytes builtb in
      (
        i,
        elim (Bool-cases (str_eq i.id built)) [
          | inl eq ↦ rw eq (same (str_eq→eq i.id built eq))
          | inr ne ↦ rw ne (other (λ eq. apart eq ne))
        ],
      )
  decides unmapped e h = elim h [ ]
  decides out_of_fuel e h = elim h [ ]

  -- lua_resty_ffi_init always returns on a program whose note segments are well formed and whose
  -- build ids can be read and are shorter than 2^31 - 50 bytes, where the buffer is allocated and
  -- NGX_BUILD_ID is the text of `built`. It goes by the first build id in the note segments of the
  -- objects without a name: without one it returns -1, with another than `built` -2, and both leave
  -- the pointers alone; with `built` it returns 0 and sets the three pointers.
  pub init_decides :
      WithIds m (candidates (by_name []) infos)
      → FirstIn m (candidates (by_name []) infos) (iterate_phdr m (by_name []) infos)
        × Decision m sym globals built (iterate_phdr m (by_name []) infos) out
  init_decides w = (
    iterate_phdr-FirstIn m (by_name []) infos
        (WithIds-WellFormed m (candidates (by_name []) infos) w),
    decides (iterate_phdr m (by_name []) infos) refl (iterate_phdr-Held m (by_name []) infos w),
  )
