-- ===== src/Content/Laws.antt =====
-- What the content cache (fs/content_cache.go) gives back of what was put into it.
use jonedrive.Prelude.{
  ℕ, ◌<◌, ◌≡◌, ◌≢◌, [], if◌then◌else◌, str_eq, false, String, true, false, some, List, Option-cases,
  inl, inr, arith, load, delete, load-store, load-delete, eq_iff,
}
use jonedrive.Content.{
  LoopbackCache, Fd, insert, move, remove, get, open_id, is_open, has_content, new_loopback_cache,
}

-- No two names share a file, and files that are named or open are below the next one.
pub record IsValid (l : LoopbackCache) : Type 0 where
  pub named : (id : String) (n : ℕ) → load id l.names ≡ some n → n < l.next_file
  pub apart : (i j : String) (n : ℕ) → load i l.names ≡ some n → load j l.names ≡ some n → i ≡ j
  pub opened : (id : String) (fd : Fd) → load id l.fds ≡ some fd → fd.file < l.next_file

pub new_loopback_cache-IsValid : IsValid new_loopback_cache
unfolding new_loopback_cache load
new_loopback_cache-IsValid = record {
  named = λ id n h. cc;
  apart = λ i j n h. cc;
  opened = λ id fd h. cc;
}

module _ (l : LoopbackCache) (v : IsValid l) where
  -- Inserting content keeps the files of the names apart, and all of them below the next new file.
  pub insert-IsValid : (id : String) (b : List ℕ) → IsValid (insert l id b)
  unfolding insert
  insert-IsValid id b = record {
    named = λ i n. ground (arith, v.named i n, load-store id i l.next_file l.names);
    apart = λ i j n. ground (
      arith,
      v.apart i j n,
      v.named i n,
      v.named j n,
      eq_iff id i,
      eq_iff id j,
      load-store id i l.next_file l.names,
      load-store id j l.next_file l.names,
    );
    opened = λ i fd. ground (arith, v.opened i fd);
  }

  -- Moving content keeps the files of the names apart, and all of them below the next new file.
  pub move-IsValid : (old_id new_id : String) → IsValid (move l old_id new_id).0
  unfolding move
  move-IsValid old_id new_id = elim (Option-cases (load old_id l.names)) [
    | inl absent ↦ rw (absent, move) v
    | inr (n, there) ↦
        rw (there, move)
          (record {
            named = λ i m. ground (
              arith,
              v.named i m,
              v.named old_id n,
              load-store new_id i n (delete old_id l.names),
              load-delete old_id i l.names,
            );
            apart = λ i j m. ground (
              arith,
              there,
              v.apart i j m,
              v.apart old_id i n,
              v.apart old_id j n,
              eq_iff old_id i,
              eq_iff old_id j,
              eq_iff new_id i,
              eq_iff new_id j,
              load-store new_id i n (delete old_id l.names),
              load-store new_id j n (delete old_id l.names),
              load-delete old_id i l.names,
              load-delete old_id j l.names,
            );
            opened = v.opened;
          })
  ]

  -- In a cache whose names do not share files, an ID that the system lets be opened is then open and has
  -- content, and to open it again gives the same descriptor and changes nothing, even if the system refuses
  -- the file by then.
  open_again :
      (id : String)
      → (is_open (open_id false l id).1 id ≡ true)
        × (has_content (open_id false l id).1 id ≡ true)
        × (open_id true (open_id false l id).1 id ≡ open_id false l id)
  unfolding open_id is_open has_content
  open_again id = elim (Option-cases (load id l.fds)) [
    | inl shut ↦ elim (Option-cases (load id l.names)) [
      | inl absent ↦ ground (
        arith,
        shut,
        absent,
        eq_iff id id,
        load-store id id (record { file = l.next_file; position = 0 }) l.fds,
      )
      | inr (n, there) ↦ ground (
        arith,
        shut,
        there,
        eq_iff id id,
        load-store id id (record { file = n; position = 0 }) l.fds,
      )
    ]
    | inr (fd', held) ↦ ground (arith, held)
  ]

  -- Content that is put in under an ID is what the ID gives; every other ID gives what it gave before.
  get-insert :
      (id j : String) (b : List ℕ) → get (insert l id b) j ≡ (if str_eq id j then b else get l j)
  unfolding get insert
  get-insert id j b = elim (Option-cases (load id l.names)) [
    | inl absent ↦
        rw (absent, insert)
          (ground (arith, load-store id j l.next_file l.names, v.named j l.next_file, eq_iff id j))
    | inr (n, there) ↦ rw (there, insert) (ground (arith, there, eq_iff id j, v.apart id j n))
  ]

  -- Content that is moved to another ID is given under that, and no more under the old one.
  get-move :
      (old_id new_id : String) (n : ℕ)
      → load old_id l.names ≡ some n
      → old_id ≢ new_id
      → (get (move l old_id new_id).0 new_id ≡ get l old_id)
        × (get (move l old_id new_id).0 old_id ≡ [])
  unfolding get move
  get-move old_id new_id n there apart = (
    ground (arith, there, load-store new_id new_id n (delete old_id l.names), eq_iff new_id new_id),
    ground (
      arith,
      there,
      load-store new_id old_id n (delete old_id l.names),
      load-delete old_id old_id l.names,
      eq_iff new_id old_id,
      eq_iff old_id old_id,
    ),
  )

-- An ID that is removed is not open, has no content and gives none.
pub remove_effect :
    (l : LoopbackCache) (id : String)
    → (is_open (remove l id).0 id ≡ false)
      × (has_content (remove l id).0 id ≡ false)
      × (get (remove l id).0 id ≡ [])
unfolding is_open has_content get remove
remove_effect l id =
    ground (arith, load-delete id id l.names, load-delete id id l.fds, eq_iff id id)
