-- ===== src/Ops/File/Writes.antt =====
-- What a write leaves behind (fs/fs.go: Write, Read, Fsync).
use jonedrive.Prelude.{
  ℕ, zero, suc, ◌+◌, ◌-◌, ◌≤◌, ◌<◌, ◌≡◌, ◌^◌, ◌∙◌, refl, ap, sym, true, false, Option, none, some,
  ◌%◌, if◌then◌else◌, pure, List, [], ◌∷◌, ◌++◌, length, length-append, Returns, ◌>>=◌, take, drop,
  replicate, arith, leb, ◌==◌,
}
use jonedrive.Graph.Remote.{Remote}
use jonedrive.Content.{Fd, write_at}
use jonedrive.Fs.{Filesystem, Fs}
use jonedrive.Ops.{Answer, replied, refused, eio}
use jonedrive.Ops.File.{write_opened, read_opened, write_done, write_result, put_bytes}

pub length-take : (n : ℕ) (xs : List ℕ) → n ≤ length xs → length (take n xs) ≡ n
length-take zero xs h = refl
length-take (suc n) [] h = elim h [ ]
length-take (suc n) (x ∷ xs) h = ap suc (length-take n xs (omega arith))

length-replicate : (n : ℕ) → length {A = ℕ} (replicate n 0) ≡ n
length-replicate zero = refl
length-replicate (suc n) = ap suc (length-replicate n)

drop-append : (xs ys : List ℕ) (n : ℕ) → length xs ≡ n → drop n (xs ++ ys) ≡ ys
drop-append [] ys zero h = refl
drop-append [] ys (suc n) h = absurd (omega arith)
drop-append (x ∷ xs) ys zero h = absurd (omega arith)
drop-append (x ∷ xs) ys (suc n) h = drop-append xs ys n (omega arith)

take-append : (xs ys : List ℕ) → take (length xs) (xs ++ ys) ≡ xs
take-append [] ys = refl
take-append (x ∷ xs) ys = ap (λ l. x ∷ l) (take-append xs ys)

start_of :
    (b : List ℕ) (offset : ℕ) → length (take offset (b ++ replicate (offset - length b) 0)) ≡ offset
start_of b offset = length-take offset (b ++ replicate (offset - length b) 0) (
    ground (
      arith,
      length-append b (replicate (offset - length b) 0),
      length-replicate (offset - length b),
    ))

append_assoc : (xs ys zs : List ℕ) → (xs ++ ys) ++ zs ≡ xs ++ (ys ++ zs)
append_assoc [] ys zs = refl
append_assoc (x ∷ xs) ys zs = ap (λ l. x ∷ l) (append_assoc xs ys zs)

-- The bytes that were written are read back at their offset, behind the end of the file too.
pub read_back :
    (b new : List ℕ) (offset : ℕ) → take (length new) (drop offset (write_at b offset new)) ≡ new
unfolding write_at
read_back b [] offset = refl
read_back b (c ∷ cs) offset =
    let new = c ∷ cs in
    let start = take offset (b ++ replicate (offset - length b) 0) in
    let rest = drop (offset + length new) b in
    ap (λ l. take (length new) (drop offset l)) (append_assoc start new rest)
    ∙ ap (take (length new)) (drop-append start (new ++ rest) offset (start_of b offset))
    ∙ take-append new rest

-- A longer look at a list begins with a shorter one.
take-prefix : (xs : List ℕ) (m n : ℕ) → m ≤ n → (l : List ℕ) × (take n xs ≡ take m xs ++ l)
take-prefix xs zero n h = (take n xs, refl)
take-prefix xs (suc m) zero h = absurd (omega arith)
take-prefix [] (suc m) (suc n) h = ([], refl)
take-prefix (x ∷ xs) (suc m) (suc n) h =
    let (l, e) = take-prefix xs m n (omega arith) in (l, ap (λ r. x ∷ r) e)

length-take_le : (k : ℕ) (xs : List ℕ) → length (take k xs) ≤ length xs
length-take_le zero xs = omega arith
length-take_le (suc k) [] = omega arith
length-take_le (suc k) (x ∷ xs) = omega (arith, length-take_le k xs)

-- Of a write that ended amid the bytes, a read of all of them begins with those that were written.
read_partly :
    (b new : List ℕ) (offset k : ℕ)
    → (l : List ℕ) × (take (length new) (drop offset (write_at b offset (take k new)))
        ≡ take k new ++ l)
read_partly b new offset k =
    let all = drop offset (write_at b offset (take k new)) in
    let (l, e) = take-prefix all (length (take k new)) (length new) (length-take_le k new) in
    (l, e ∙ ap (λ r. r ++ l) (read_back b (take k new) offset))

-- What a write and a read of as many bytes at its place answer and leave, by the error of the write.
abbrev pub WriteEnds :
    (p : ℕ) (new : List ℕ) (fd : Fd) (s : Filesystem)
    → Option ℕ
    → Answer ℕ × Answer (List ℕ)
    → Filesystem
    → Type 0
WriteEnds p new fd s none a t =
    (a.0 ≡ replied (length new % 2 ^ 32))
    × (a.1 ≡ replied new)
    × ((t.inode p).item.size ≡ length (t.content.bytes fd.file))
    × ((t.inode p).has_changes ≡ true)
    × ((t.inode p).item.id ≡ (s.inode p).item.id)
    × ((t.inode p).item.name ≡ (s.inode p).item.name)
WriteEnds p new fd s (some k) a t =
    (a.0 ≡ refused eio)
    × ((l : List ℕ) × (a.1 ≡ replied (take k new ++ l)))
    × (t.inode p ≡ s.inode p)

module _ (net : Remote) where
  abbrev pub write_and_read : ℕ → ℕ → List ℕ → Fd → Fs (Answer ℕ × Answer (List ℕ))
  write_and_read p offset new fd = do
    w ← write_opened net p offset new (some fd)
    r ← read_opened net offset (length new) (some fd)
    pure (w, r)

  write_done_lem :
      (p offset : ℕ) (new : List ℕ) (fd : Fd) (o : Option ℕ) (s : Filesystem)
      → Returns
          ((do
            w ← write_done net p fd offset new o
            r ← read_opened net offset (length new) (some fd)
            pure (w, r))
            s)
          (λ a t. WriteEnds p new fd s o a t)
  unfolding write_done put_bytes read_opened
  write_done_lem p offset new fd none s =
      let same_file : (fd.file == fd.file) ≡ true = ground arith in
      let same_inode : (p == p) ≡ true = ground arith in
      rw (same_file, same_inode, Returns, ◌>>=◌)
        (refl, ap replied (read_back (s.content.bytes fd.file) new offset), refl, refl, refl, refl)
  write_done_lem p offset new fd (some k) s =
      let same_file : (fd.file == fd.file) ≡ true = ground arith in
      let (l, e) = read_partly (s.content.bytes fd.file) new offset k in
      rw (same_file, Returns, ◌>>=◌) (refl, (l, ap replied e), refl)

  write_result_lem :
      (n offset : ℕ) (new : List ℕ)
      → write_result net n offset new
        ≡ (if length new == 0 then none else net.write_error n offset (length new))
  unfolding write_result
  write_result_lem n offset [] = refl
  write_result_lem n offset (c ∷ cs) = ground arith

  -- A write through an open file at an offset below 2 ^ 63, and then a read of as many bytes at that offset:
  -- where WriteAt has no error, or there are no bytes to write, the write answers the number of bytes modulo 2
  -- ^ 32, the read gives the bytes that were written, behind the old end of the file too, and the inode has
  -- the length of the file as its size, is marked as changed, and keeps its ID and name; where WriteAt has an
  -- error, the write answers EIO, the inode is as it was, and what is read begins with the bytes that were
  -- written before the error.
  pub read_opened-write_opened :
      (p offset : ℕ) (new : List ℕ) (fd : Fd) (s : Filesystem)
      → offset < 2 ^ 63
      → Returns (write_and_read p offset new fd s) (λ a t.
        WriteEnds p new fd s
          (if length new == 0 then none else net.write_error s.calls offset (length new))
          a
          t)
  unfolding write_opened
  read_opened-write_opened p offset new fd s h =
      let below : leb (2 ^ 63) offset ≡ false = ground arith in
      rw (below, ◌>>=◌, sym (write_result_lem s.calls offset new))
        (write_done_lem p offset new fd (write_result net s.calls offset new)
          (record s { calls = s.calls + 1 }))
