-- ===== src/Filesystem/Contents.antt =====
-- kernel/filesystem.cpp: what is read back from a file.

use quillos.Prelude.{
  ℕ, ◌≤◌, ◌<◌, ◌≡◌, refl, ap, ◌∙◌, inl, inr, true, false, Option, some, List, arith, length, take,
  length-take, ◌>>=◌, >>=_assoc, ltb, leb,
}
use quillos.Filesystem.Types.{is_regular, max_file_data, Filesystem}
use quillos.Filesystem.Paths.{normalize_path, split_path}
use quillos.Filesystem.{entry, find_entry, is_absolute, write_file, read_file, read_found, copy_out}
use quillos.Filesystem.Table.{IsBounded, IsValid, Node, node, view}
use quillos.Filesystem.Making.{clipped}
use quillos.Filesystem.Spec.{
  file_of, target, write_op, Allowed, writes_new, writes_over, head_cases,
}
use quillos.Filesystem.Writing.{found_of_view, key_self, write_refines}

read_found_lem :
    (fs : Filesystem) (i buf_size : ℕ) (bytes : List ℕ)
    → IsBounded (entry fs i)
    → node (entry fs i) ≡ file_of bytes
    → length bytes < buf_size
    → read_found fs buf_size (some i) ≡ some (some bytes)
read_found_lem fs i buf_size bytes b e room =
    let regular : is_regular (entry fs i).kind ≡ true = ap (λ (nd : Node). is_regular nd.kind) e in
    let is : take (entry fs i).size (entry fs i).content ≡ bytes = ap (λ (nd : Node). nd.bytes) e in
    let long = ap length is in
    let whole = length-take (entry fs i).size (entry fs i).content in
    let fits : leb buf_size (entry fs i).size ≡ false =
      ground (arith, long, whole, room, b.size_fits, b.content_fits) in
    let inside : ltb (entry fs i).size buf_size ≡ true = ground (arith, fits) in
    let copied : copy_out (entry fs i) buf_size ≡ some bytes = rw (fits, inside) (ap some is) in
    rw regular (ap (λ o. o >>= (λ text. some (some text))) copied)

-- The two steps of a path's resolution are those of `target`.
rebind :
    {A : Type 0} (path : List ℕ) (f : List ℕ × List ℕ → Option A)
    → (normalize_path path >>= (λ norm. split_path norm >>= f)) ≡ (target path >>= f)
rebind path f = >>=_assoc (normalize_path path) split_path f

-- A file in view at the key of an absolute path is read into a buffer that has room for its bytes and
-- a null byte.
pub read_file_lem :
    (fs : Filesystem) (path p n : List ℕ) (buf_size : ℕ) (bytes : List ℕ)
    → IsValid fs
    → is_absolute path ≡ true
    → target path ≡ some (p, n)
    → view fs p n ≡ some (file_of bytes)
    → length bytes < buf_size
    → read_file fs (some path) (some buf_size) ≡ some (some bytes)
unfolding read_file
read_file_lem fs path p n buf_size bytes v abs key seen room =
    let f = found_of_view fs p n (file_of bytes) seen in
    let bound : (target path >>= (λ k. read_found fs buf_size (find_entry fs k.0 k.1)))
        ≡ some (some bytes) =
      ap (λ o. o >>= (λ k. read_found fs buf_size (find_entry fs k.0 k.1))) key
      ∙ ap (read_found fs buf_size) f.1
      ∙ read_found_lem fs f.0 buf_size bytes (v.bounded f.0) f.2 room in
    rw abs (rebind path (λ k. read_found fs buf_size (find_entry fs k.0 k.1)) ∙ bound)

-- A write succeeds only on an absolute path.
write_absolute :
    (fs t : Filesystem) (path text : List ℕ)
    → write_file fs (some path) (some text) ≡ some (t, true)
    → is_absolute path ≡ true
unfolding write_file
write_absolute fs t path text e = elim (head_cases fs path _ (t, true) e) [
  | inl failed ↦ let f = ap (λ r. r.1) failed in cc
  | inr (_, abs, _, _) ↦ abs
]

written_file :
    {C : Type 0} {path : Option (List ℕ)} {text : List ℕ} {before after : Option Node}
    → Allowed C (write_op path (some text)) before after
    → after ≡ some (file_of (clipped text))
written_file writes_new = refl
written_file (writes_over bytes) = refl

-- After a successful write, the same path reads back the text, cut to its first 1023 bytes.
pub read_file-write_file :
    (fs t : Filesystem) (path text : List ℕ) (buf_size : ℕ)
    → IsValid fs
    → write_file fs (some path) (some text) ≡ some (t, true)
    → max_file_data ≤ buf_size
    → read_file t (some path) (some buf_size) ≡ some (some (take 1023 text))
read_file-write_file fs t path text buf_size v e room =
    elim (write_refines fs (some path) (some text) (t, true) v e) [
      | inl (_, failed) ↦ cc
      | inr (p, n, after, key, allowed, u) ↦
          let seen : view t p n ≡ some (file_of (clipped text)) =
            u.2 p n ∙ rw (key_self p n) (written_file allowed) in
          read_file_lem t path p n buf_size (clipped text) u.1 (write_absolute fs t path text e) key
            seen (omega (arith, length-take 1023 text))
    ]
