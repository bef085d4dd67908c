-- ===== src/BuildId/Notes.antt =====
-- What a note segment holds, as a list of notes, and which of them is the build id.
use lua_resty_ffi.Common.{ℕ, ◌+◌, ◌-◌, ◌≤◌, ◌≡◌, ◌≢◌, some, List, [], ◌∷◌}
use lua_resty_ffi.BuildId.{Mem, bytes, namesz_at, descsz_at, type_at, name_at, align, sizeof_nhdr}

-- The header of a note and the four bytes behind it.
pub record Note : Type 0 where
  pub n_namesz : ℕ
  pub n_descsz : ℕ
  pub n_type : ℕ
  pub name : List ℕ

abbrev pub size : Note → ℕ
size n = sizeof_nhdr + align n.n_namesz + align n.n_descsz

-- A build id of the GNU tools: the name is "GNU" with its 0, and the description is not empty.
abbrev pub IsBuildId : Note → Type 0
IsBuildId n =
    (n.n_type ≡ 3) × (n.n_descsz ≢ 0) × (n.n_namesz ≡ 4) × (n.name ≡ b'G' ∷ b'N' ∷ b'U' ∷ 0 ∷ [])

-- The note `n` stands in memory at `a`; its four bytes are there if its name takes them.
pub record At (m : Mem) (a : ℕ) (n : Note) : Type 0 where
  pub namesz : namesz_at m a ≡ some n.n_namesz
  pub descsz : descsz_at m a ≡ some n.n_descsz
  pub type_ : type_at m a ≡ some n.n_type
  pub name : n.n_namesz ≡ 4 → bytes m (name_at a) 4 ≡ some n.name

-- The notes fill the `len` bytes from `a` on, without a gap.
abbrev pub Filled : Mem → ℕ → List Note → ℕ → Type 0
Filled m a [] len = len ≡ 0
Filled m a (n ∷ ns) len = At m a n × (size n ≤ len) × Filled m (a + size n) ns (len - size n)
