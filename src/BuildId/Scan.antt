-- ===== src/BuildId/Scan.antt =====
-- The loop of build_id_find_nhdr_callback in build-id.c over one segment.
use lua_resty_ffi.Common.{
  ℕ, zero, suc, ◌+◌, ◌-◌, ◌%◌, ◌^◌, ◌<◌, ◌≤◌, ◌≡◌, ◌∙◌, ◌==◌, leb, not, Bool, true, false, ◌&&◌,
  none, some, List, [], ◌∷◌, arith, length, Bool-cases, inl, inr,
}
use lua_resty_ffi.BuildId.{
  Mem, word, is_gnu, is_build_id, note_offset, Search, found, exhausted, unmapped, scan,
}
use lua_resty_ffi.BuildId.Notes.{Note, size, IsBuildId, At, Filled}

-- The test of the loop on the parts of a note.
abbrev gnu : Note → Bool
gnu n = (n.n_type == 3) && (not (n.n_descsz == 0) && ((n.n_namesz == 4) && is_gnu n.name))

is_gnu→eq : (xs : List ℕ) → is_gnu xs ≡ true → xs ≡ b'G' ∷ b'N' ∷ b'U' ∷ 0 ∷ []
is_gnu→eq (a ∷ (b ∷ (c ∷ (d ∷ [])))) h = ground arith
is_gnu→eq _ h = cc

gnu→IsBuildId : (n : Note) → gnu n ≡ true → IsBuildId n
gnu→IsBuildId n h = (ground arith, ground arith, ground arith, is_gnu→eq n.name (ground arith))

IsBuildId→gnu : (n : Note) → IsBuildId n → gnu n ≡ true
IsBuildId→gnu n (t, d, s, e) = rw e (ground arith)

not_gnu : (n : Note) → ¬ (IsBuildId n) → gnu n ≡ false
not_gnu n no_id = elim (Bool-cases (gnu n)) [
  | inl hit ↦ absurd (no_id (gnu→IsBuildId n hit))
  | inr miss ↦ miss
]

module _ {m : Mem} {a : ℕ} {n : Note} (at : At m a n) where
  is_build_id-gnu : is_build_id m a ≡ some (gnu n)
  unfolding is_build_id
  is_build_id-gnu = ground (arith, at.namesz, at.descsz, at.type_, at.name)

  note_offset-size : note_offset m a ≡ some (size n)
  unfolding note_offset
  note_offset-size = ground (arith, at.namesz, at.descsz)

-- The first build id among the notes from `a` on, or that there is none.
pub data First : ℕ → List Note → Search → Type 0 where
  no_note : {a : ℕ} → First a [] exhausted
  here : {a : ℕ} {n : Note} {ns : List Note} → IsBuildId n → First a (n ∷ ns) (found a)
  there :
      {a : ℕ} {n : Note} {ns : List Note} {r : Search}
      → ¬ (IsBuildId n)
      → First (a + size n) ns r
      → First a (n ∷ ns) r

-- One round.
module _ (fuel : ℕ) (m : Mem) (a len : ℕ) where
  scan_short : leb 16 len ≡ false → scan (suc fuel) m a len ≡ exhausted
  unfolding scan
  scan_short short = rw (short, scan)

  module _ {n : Note} (at : At m a n) (long : leb 16 len ≡ true) where
    scan_hit : gnu n ≡ true → scan (suc fuel) m a len ≡ found a
    unfolding scan
    scan_hit hit = rw (long, is_build_id-gnu at, hit, scan)

    pub scan_miss :
        gnu n ≡ false
        → scan (suc fuel) m a len ≡ scan fuel m (a + size n) ((len + 2 ^ 64 - size n) % 2 ^ 64)
    unfolding scan
    scan_miss miss = rw (long, is_build_id-gnu at, miss, note_offset-size at, scan)

-- Fewer bytes than a note has hold no build id.
rest_First :
    (m : Mem) (a len : ℕ) (ns : List Note) → Filled m a ns len → len < 16 → First a ns exhausted
rest_First m a len [] f small = no_note
rest_First m a len (n ∷ ns) (at, fits, f) small =
    there (λ (is : IsBuildId n). omega (arith, is.2))
      (rest_First m (a + size n) (len - size n) ns f (omega arith))

-- On a segment filled with notes the loop ends and never reads an unmapped byte: with a round to
-- spare for each note it finds the first build id if there is one, and none otherwise.
pub scan-First :
    (fuel : ℕ) (m : Mem) (a len : ℕ) (ns : List Note)
    → Filled m a ns len
    → len < 2 ^ 64
    → length ns < fuel
    → First a ns (scan fuel m a len)
scan-First zero m a len ns f small enough = absurd (omega arith)
scan-First (suc fuel) m a len [] f small enough =
    rw (scan_short fuel m a len (ground arith)) no_note
scan-First (suc fuel) m a len (n ∷ ns) (at, fits, f) small enough = elim (Bool-cases (leb 16 len)) [
  | inr short ↦
      rw (scan_short fuel m a len short) (rest_First m a len (n ∷ ns) (at, fits, f) (ground arith))
  | inl long ↦ elim (Bool-cases (gnu n)) [
    | inl hit ↦ rw (scan_hit fuel m a len at long hit) (here (gnu→IsBuildId n hit))
    | inr miss ↦
        let len' : (len + 2 ^ 64 - size n) % 2 ^ 64 ≡ len - size n = omega arith in
        rw (scan_miss fuel m a len at long miss, len')
          (there (λ is. ground (arith, IsBuildId→gnu n is))
            (scan-First fuel m (a + size n) (len - size n) ns f (omega arith) (omega arith)))
  ]
]

-- The type of a note is read first.
is_build_id_unmapped : (m : Mem) (a : ℕ) → m (a + 8) ≡ none → is_build_id m a ≡ none
unfolding is_build_id word
is_build_id_unmapped m a e = rw e

scan_unmapped :
    (fuel : ℕ) (m : Mem) (a len : ℕ)
    → leb 16 len ≡ true
    → m (a + 8) ≡ none
    → scan (suc fuel) m a len ≡ unmapped
unfolding scan
scan_unmapped fuel m a len long e = rw (long, is_build_id_unmapped m a e, scan)

-- A note that claims more bytes than its segment has left sends the loop behind the segment, since
-- the length left is compared as an unsigned number: with nothing mapped there, the next round
-- reads an unmapped byte.
pub scan_overruns :
    (fuel : ℕ) (m : Mem) (a len : ℕ) (n : Note)
    → At m a n
    → ¬ (IsBuildId n)
    → 16 ≤ len
    → len < size n
    → ((b : ℕ) → a + len ≤ b → m b ≡ none)
    → scan (suc (suc fuel)) m a len ≡ unmapped
scan_overruns fuel m a len n at no_id long over end =
    let left : ℕ = (len + 2 ^ 64 - size n) % 2 ^ 64 in
    let much : 16 ≤ left = omega arith in
    scan_miss (suc fuel) m a len at (ground arith) (not_gnu n no_id)
    ∙ scan_unmapped fuel m (a + size n) left (ground arith) (end (a + size n + 8) (omega arith))
