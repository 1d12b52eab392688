-- ===== src/Filesystem/Staying.antt =====
-- kernel/filesystem.cpp: what holds of the filesystems that the operations reach, and which calls stay
-- inside their buffers there.
use quillos.Prelude.{◌<◌, ◌≡◌, Bool, some, List, ℕ, length}
use quillos.Filesystem.Types.{Filesystem, max_path_len}
use quillos.Filesystem.Spec.{Op, run, path_of}
use quillos.Filesystem.Table.{IsValid}
use quillos.Filesystem.Refinement.{Reached, does, Reached-IsValid}
use quillos.Filesystem.Buffers.{HasShortNames, run-returns}

-- A call with a path of less than 128 bytes and names of less than 32 returns, to a filesystem that
-- is reached again.
abbrev pub Stays : Filesystem → Type 0
Stays fs =
    (op : Op) (path : List ℕ)
    → path_of op ≡ some path
    → length path < max_path_len
    → HasShortNames path
    → (r : Filesystem × Bool) × (run op fs ≡ some r) × Reached r.0 × IsValid r.0

-- In every filesystem that calls lead to from `init` of which none has written past a buffer, the table
-- has 64 entries whose texts fit their buffers, and no two entries in use have the same parent and
-- name. A further call with a path of less than 128 bytes, whose names have less than 32, writes past
-- none either, and the filesystem that it leaves is such a one again.
pub Reached-Stays : {fs : Filesystem} → Reached fs → IsValid fs × Stays fs
Reached-Stays {fs} reached = (
  Reached-IsValid reached,
  λ op path e short names.
      (let (r, ran) = run-returns op fs path e short names in
        let next = does op r reached ran in (r, ran, next, Reached-IsValid next)),
)
