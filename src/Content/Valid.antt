-- ===== src/Content/Valid.antt =====
-- Every call of the content cache (fs/content_cache.go) keeps the files of the names apart.
use jonedrive.Prelude.{
  ℕ, ◌≡◌, String, Bool, none, some, arith, load, store, load-store, load-delete, eq_iff,
  Option-cases, Bool-cases, inl, inr,
}
use jonedrive.Content.{LoopbackCache, remove, close, open_file, open_id}
use jonedrive.Content.Laws.{IsValid}

module _ (l : LoopbackCache) (valid : IsValid l) where
  pub close-IsValid : (id : String) → IsValid (close l id)
  unfolding close
  close-IsValid id = record {
    named = valid.named;
    apart = valid.apart;
    opened = λ j fd. ground (arith, valid.opened j fd, load-delete id j l.fds);
  }

  pub remove-IsValid : (id : String) → IsValid (remove l id).0
  unfolding remove close
  remove-IsValid id = record {
    named = λ j n. ground (arith, valid.named j n, load-delete id j l.names);
    apart = λ i j n.
        ground (arith, valid.apart i j n, load-delete id i l.names, load-delete id j l.names);
    opened = λ j fd. ground (arith, valid.opened j fd, load-delete id j l.fds);
  }

  -- The descriptor of a file that has a name, and that of a new one.
  reopened-IsValid :
      (id : String) (n : ℕ)
      → load id l.names ≡ some n
      → IsValid (record l { fds = store id (record { file = n; position = 0 }) l.fds })
  reopened-IsValid id n there = record {
    named = valid.named;
    apart = valid.apart;
    opened = λ j fd. ground (
      arith,
      valid.opened j fd,
      valid.named id n there,
      load-store id j (record { file = n; position = 0 }) l.fds,
    );
  }

  created-IsValid : (id : String) → load id l.names ≡ none → IsValid (open_file id l).1
  created-IsValid id absent =
      rw (absent, open_file)
        (record {
          named = λ j n. ground (arith, valid.named j n, load-store id j l.next_file l.names);
          apart = λ i j n. ground (
            arith,
            valid.apart i j n,
            valid.named i n,
            valid.named j n,
            eq_iff id i,
            eq_iff id j,
            load-store id i l.next_file l.names,
            load-store id j l.next_file l.names,
          );
          opened = λ j fd. ground (
            arith,
            valid.opened j fd,
            load-store id j (record { file = l.next_file; position = 0 }) l.fds,
          );
        })

  open_file-IsValid : (id : String) → IsValid (open_file id l).1
  open_file-IsValid id = elim (Option-cases (load id l.names)) [
    | inl absent ↦ created-IsValid id absent
    | inr (n, there) ↦ rw (there, open_file) (reopened-IsValid id n there)
  ]

  pub open_id-IsValid : (fails : Bool) (id : String) → IsValid (open_id fails l id).1
  unfolding open_id
  open_id-IsValid fails id = elim (Option-cases (load id l.fds)) [
    | inr (fd, held) ↦ rw (held, open_id) valid
    | inl idle ↦ elim (Bool-cases fails) [
      | inl refuses ↦ rw (idle, refuses, open_id) valid
      | inr lets ↦ rw (idle, lets, open_id) (open_file-IsValid id)
    ]
  ]
