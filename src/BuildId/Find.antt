-- ===== src/BuildId/Find.antt =====
-- The search over the segments of the loaded objects in build-id.c.
use mathlib.Core.Path.{subst}
use lua_resty_ffi.Common.{
  ◌⊎◌, ℕ, suc, ◌+◌, ◌-◌, ◌^◌, ◌<◌, ◌≤◌, ◌≡◌, refl, ◌==◌, if◌then◌else◌, List, [], ◌∷◌, ◌++◌, arith,
  length, Bool-cases, inl, inr,
}
use lua_resty_ffi.BuildId.{
  Mem, Search, found, exhausted, Phdr, Info, Key, pt_note, matches, or_else, search_phdrs,
  find_nhdr_callback, iterate_phdr,
}
use lua_resty_ffi.BuildId.Notes.{Note, size, Filled}
use lua_resty_ffi.BuildId.Scan.{First, no_note, here, there, scan-First}

abbrev pub Segments : Type 0
Segments = List (ℕ × ℕ)

-- The note segments of an object, as address and length, in order.
unfoldable pub note_segments : (dlpi_addr : ℕ) → List Phdr → Segments
note_segments addr [] = []
note_segments addr (p ∷ ps) =
    if p.p_type == pt_note
    then (addr + p.p_vaddr, p.p_filesz) ∷ note_segments addr ps
    else note_segments addr ps

-- The note segments of the objects that are looked for.
unfoldable pub candidates : Key → List Info → Segments
candidates key [] = []
candidates key (info ∷ infos) =
    if matches key info
    then note_segments info.dlpi_addr info.phdrs ++ candidates key infos
    else candidates key infos

-- Each segment is filled with notes and has a length of 64 bits.
abbrev pub WellFormed : Mem → Segments → Type 0
WellFormed m [] = Unit
WellFormed m ((a, len) ∷ segs) =
    ((ns : List Note) × Filled m a ns len) × (len < 2 ^ 64) × WellFormed m segs

-- The first build id in the segments, or that there is none.
pub data FirstIn (m : Mem) : Segments → Search → Type 0 where
  nowhere : FirstIn m [] exhausted
  hit :
      {a len p : ℕ} {segs : Segments} (ns : List Note)
      → Filled m a ns len
      → First a ns (found p)
      → FirstIn m ((a, len) ∷ segs) (found p)
  miss :
      {a len : ℕ} {segs : Segments} {r : Search} (ns : List Note)
      → Filled m a ns len
      → First a ns exhausted
      → FirstIn m segs r
      → FirstIn m ((a, len) ∷ segs) r

pub length-le : (m : Mem) (a len : ℕ) (ns : List Note) → Filled m a ns len → length ns ≤ len
length-le m a len [] f = omega arith
length-le m a len (n ∷ ns) (at, fits, f) =
    omega (arith, length-le m (a + size n) (len - size n) ns f)

First-cases :
    {a : ℕ} {ns : List Note} {r : Search}
    → First a ns r
    → (r ≡ exhausted) ⊎ ((p : ℕ) × (r ≡ found p))
First-cases no_note = inl refl
First-cases (here {a} is) = inr (a, refl)
First-cases (there no_id f) = First-cases f

FirstIn-cons :
    {m : Mem} {a len : ℕ} {segs : Segments} (ns : List Note) {r rest : Search}
    → Filled m a ns len
    → First a ns r
    → FirstIn m segs rest
    → FirstIn m ((a, len) ∷ segs) (or_else r rest)
FirstIn-cons {a} ns f first later = elim (First-cases first) [
  | inl e ↦ rw e (miss ns f (subst (First a ns) e first) later)
  | inr (p, e) ↦ rw e (hit ns f (subst (First a ns) e first))
]

FirstIn-append :
    {m : Mem} {s t : Segments} {q r : Search}
    → FirstIn m s q
    → FirstIn m t r
    → FirstIn m (s ++ t) (or_else q r)
FirstIn-append nowhere g = g
FirstIn-append (hit ns f first) g = hit ns f first
FirstIn-append (miss ns f first h) g = miss ns f first (FirstIn-append h g)

WellFormed-append :
    (m : Mem) (s t : Segments) → WellFormed m (s ++ t) → WellFormed m s × WellFormed m t
WellFormed-append m [] t w = (tt, w)
WellFormed-append m ((a, len) ∷ s) t (f, small, w) =
    let (ws, wt) = WellFormed-append m s t w in ((f, small, ws), wt)

search_phdrs-FirstIn :
    (m : Mem) (addr : ℕ) (ps : List Phdr)
    → WellFormed m (note_segments addr ps)
    → FirstIn m (note_segments addr ps) (search_phdrs m addr ps)
unfolding search_phdrs note_segments
search_phdrs-FirstIn m addr [] w = nowhere
search_phdrs-FirstIn m addr (p ∷ ps) w = elim (Bool-cases (p.p_type == pt_note)) [
  | inl note ↦
      let ((ns, f), small, rest) = rw (note, note_segments) at w in
      let enough : length ns < suc p.p_filesz =
        omega (arith, length-le m (addr + p.p_vaddr) p.p_filesz ns f) in
      rw (note, note_segments, search_phdrs)
        (FirstIn-cons ns f
          (scan-First (suc p.p_filesz) m (addr + p.p_vaddr) p.p_filesz ns f small enough)
          (search_phdrs-FirstIn m addr ps rest))
  | inr other ↦
      rw (other, note_segments, search_phdrs)
        (search_phdrs-FirstIn m addr ps (rw (other, note_segments) at w))
]

-- What the search comes to for the objects `infos`, in their order: with note segments filled with
-- notes in the objects that are looked for, it ends, reads no unmapped byte, and gives the first
-- build id in these segments, or none if they have none. No other object is looked into.
pub iterate_phdr-FirstIn :
    (m : Mem) (key : Key) (infos : List Info)
    → WellFormed m (candidates key infos)
    → FirstIn m (candidates key infos) (iterate_phdr m key infos)
unfolding iterate_phdr find_nhdr_callback candidates
iterate_phdr-FirstIn m key [] w = nowhere
iterate_phdr-FirstIn m key (info ∷ infos) w = elim (Bool-cases (matches key info)) [
  | inl mine ↦
      let (ws, rest) =
        WellFormed-append m (note_segments info.dlpi_addr info.phdrs) (candidates key infos)
          (rw mine at w) in
      rw mine (
        FirstIn-append (search_phdrs-FirstIn m info.dlpi_addr info.phdrs ws)
          (iterate_phdr-FirstIn m key infos rest))
  | inr other ↦ rw other (iterate_phdr-FirstIn m key infos (rw other at w))
]
