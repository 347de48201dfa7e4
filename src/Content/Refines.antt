-- ===== src/Content/Refines.antt =====
-- The content cache (fs/content_cache.go) implements its view.
use jonedrive.Prelude.{
  ℕ, ◌≡◌, refl, ◌∙◌, String, Bool, true, false, none, some, List, [], ◌∷◌, arith, load, delete,
  load-store, load-delete, eq_iff, str_eq, if◌then◌else◌, Option-cases, Bool-cases, inl, inr, ◌||◌,
}
use jonedrive.Content.{
  LoopbackCache, get, insert, remove, close, move, open_id, is_open, has_content,
}
use jonedrive.Content.Laws.{IsValid, insert-IsValid, move-IsValid}
use jonedrive.Content.View.{
  Op, put, drop, rename, open_at, shut, step, run, View, touched, read_view, seen_content,
  view_step, view_run, file_of, view_of, Shows,
}
use jonedrive.Content.Valid.{close-IsValid, remove-IsValid, open_id-IsValid}

module _ (l : LoopbackCache) (valid : IsValid l) where
  file_of-insert :
      (id j : String) (b : List ℕ)
      → file_of (insert l id b) j ≡ (if str_eq id j then some b else file_of l j)
  unfolding file_of insert
  file_of-insert id j b = elim (Option-cases (load id l.names)) [
    | inl absent ↦
        rw (absent, insert)
          (ground
            (arith, load-store id j l.next_file l.names, valid.named j l.next_file, eq_iff id j))
    | inr (n, there) ↦ rw (there, insert) (ground (arith, there, eq_iff id j, valid.apart id j n))
  ]

  file_of-remove :
      (id j : String) → file_of (remove l id).0 j ≡ (if str_eq id j then none else file_of l j)
  unfolding file_of remove close
  file_of-remove id j = ground (arith, load-delete id j l.names)

  is_open-remove :
      (id j : String) → is_open (remove l id).0 j ≡ (if str_eq id j then false else is_open l j)
  unfolding is_open remove close
  is_open-remove id j = ground (arith, load-delete id j l.fds)

  is_open-close :
      (id j : String) → is_open (close l id) j ≡ (if str_eq id j then false else is_open l j)
  unfolding is_open close
  is_open-close id j = ground (arith, load-delete id j l.fds)

  file_of-open_id :
      (fails : Bool) (id j : String)
      → file_of (open_id fails l id).1 j ≡ (
          if is_open l id || fails
          then file_of l j
          else if str_eq id j
          then touched (file_of l id)
          else file_of l j)
  unfolding file_of open_id is_open
  file_of-open_id fails id j = elim (Option-cases (load id l.fds)) [
    | inr (fd, held) ↦ ground (arith, held)
    | inl idle ↦ elim (Option-cases (load id l.names)) [
      | inl absent ↦ ground (
        arith,
        idle,
        absent,
        load-store id j l.next_file l.names,
        valid.named j l.next_file,
        eq_iff id j,
      )
      | inr (n, there) ↦ ground (arith, idle, there, eq_iff id j)
    ]
  ]

  is_open-open_id :
      (fails : Bool) (id j : String)
      → is_open (open_id fails l id).1 j
        ≡ (if is_open l id || fails then is_open l j else if str_eq id j then true else is_open l j)
  unfolding is_open open_id
  is_open-open_id fails id j = elim (Option-cases (load id l.fds)) [
    | inr (fd, held) ↦ ground (arith, held)
    | inl idle ↦ elim (Option-cases (load id l.names)) [
      | inl absent ↦
          ground (
            arith,
            idle,
            absent,
            load-store id j (record { file = l.next_file; position = 0 }) l.fds,
          )
      | inr (n, there) ↦
          ground (arith, idle, there, load-store id j (record { file = n; position = 0 }) l.fds)
    ]
  ]

  file_of-move :
      (old new j : String)
      → file_of (move l old new).0 j ≡ (elim (file_of l old) [
        | none ↦ file_of l j
        | some b ↦ if str_eq new j then some b else if str_eq old j then none else file_of l j
      ])
  unfolding file_of move
  file_of-move old new j = elim (Option-cases (load old l.names)) [
    | inl absent ↦ ground (arith, absent)
    | inr (n, there) ↦
        ground (arith, there, load-store new j n (delete old l.names), load-delete old j l.names)
  ]

  is_open-move : (old new j : String) → is_open (move l old new).0 j ≡ is_open l j
  unfolding is_open move
  is_open-move old new j = elim (Option-cases (load old l.names)) [
    | inl absent ↦ ground (arith, absent)
    | inr (n, there) ↦ ground (arith, there)
  ]

  is_open-insert : (id j : String) (b : List ℕ) → is_open (insert l id b) j ≡ is_open l j
  unfolding is_open insert
  is_open-insert id j b = elim (Option-cases (load id l.names)) [
    | inl absent ↦ ground (arith, absent)
    | inr (n, there) ↦ ground (arith, there)
  ]

  -- One call does to the cache what its step does to the view.
  step-Shows : (op : Op) (v : View) → Shows l v → Shows (step op l) (view_step op v)
  unfolding step view_step
  step-Shows (put id b) v sh = record {
    valid = insert-IsValid l valid id b;
    contents = λ j. ground (arith, file_of-insert id j b, sh.contents j);
    openings = λ j. is_open-insert id j b ∙ sh.openings j;
  }
  step-Shows (drop id) v sh = record {
    valid = remove-IsValid l valid id;
    contents = λ j. ground (arith, file_of-remove id j, sh.contents j);
    openings = λ j. ground (arith, is_open-remove id j, sh.openings j);
  }
  step-Shows (rename old new) v sh = elim (Option-cases (v.content old)) [
    | inl absent ↦
        rw (absent, view_step)
          (record {
            valid = move-IsValid l valid old new;
            contents =
                λ j. ground (arith, absent, file_of-move old new j, sh.contents j, sh.contents old);
            openings = λ j. is_open-move old new j ∙ sh.openings j;
          })
    | inr (b, there) ↦
        rw (there, view_step)
          (record {
            valid = move-IsValid l valid old new;
            contents =
                λ j. ground (arith, there, file_of-move old new j, sh.contents j, sh.contents old);
            openings = λ j. is_open-move old new j ∙ sh.openings j;
          })
  ]
  step-Shows (open_at fails id) v sh = elim (Bool-cases (v.opened id || fails)) [
    | inl held ↦
        rw (held, view_step)
          (record {
            valid = open_id-IsValid l valid fails id;
            contents = λ j.
                ground (arith, held, file_of-open_id fails id j, sh.contents j, sh.openings id);
            openings = λ j.
                ground (arith, held, is_open-open_id fails id j, sh.openings j, sh.openings id);
          })
    | inr free ↦
        rw (free, view_step)
          (record {
            valid = open_id-IsValid l valid fails id;
            contents = λ j. ground (
              arith,
              free,
              file_of-open_id fails id j,
              sh.contents j,
              sh.contents id,
              sh.openings id,
            );
            openings = λ j.
                ground (arith, free, is_open-open_id fails id j, sh.openings j, sh.openings id);
          })
  ]
  step-Shows (shut id) v sh = record {
    valid = close-IsValid l valid id;
    contents = λ j. unfold close file_of in sh.contents j;
    openings = λ j. ground (arith, is_open-close id j, sh.openings j);
  }

run-Shows :
    (ops : List Op) (l : LoopbackCache) (v : View) → Shows l v → Shows (run ops l) (view_run ops v)
unfolding run view_run
run-Shows [] l v sh = sh
run-Shows (op ∷ ops) l v sh =
    run-Shows ops (step op l) (view_step op v) (step-Shows l sh.valid op v sh)

-- From a cache whose names do not share files, after any sequence of Insert, Delete, Move, Open and Close
-- calls, the names still do not share files, and Get, IsOpen and HasContent answer for every ID as the
-- abstract view does after the same calls: a content for each ID that has a file, and the set of open IDs.
pub run-refines :
    (l : LoopbackCache)
    → IsValid l
    → (ops : List Op) (id : String)
    → IsValid (run ops l)
      × (get (run ops l) id ≡ read_view (view_run ops (view_of l)) id)
      × (is_open (run ops l) id ≡ (view_run ops (view_of l)).opened id)
      × (has_content (run ops l) id ≡ seen_content (view_run ops (view_of l)) id)
unfolding get is_open has_content file_of view_of
run-refines l valid ops id =
    let sh =
      run-Shows ops l (view_of l)
        (record { valid = valid; contents = λ j. refl; openings = λ j. refl }) in
    (
      sh.valid,
      ground (arith, sh.contents id),
      sh.openings id,
      ground (arith, sh.contents id, sh.openings id),
    )
