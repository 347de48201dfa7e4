-- ===== src/Fs/Ids/Registry.antt =====
-- The numbers of inodes (fs/cache.go: InsertNodeID, TranslateID, GetID, GetNodeID): `inodes` has the ID
-- of every numbered inode at its number, and no two inodes share one.
use jonedrive.Prelude.{
  ℕ, ◌+◌, ◌-◌, ◌%◌, ◌^◌, ◌≤◌, ◌<◌, ◌≡◌, ◌≢◌, ◌∙◌, ◌++◌, refl, String, Option, none, some, length,
  get_elem?, ret, [], ◌∷◌, length-append, get_elem?-append_last, get_elem?-append_left,
  get_elem?-lt, get_elem?_of_lt, arith, ◌==◌, ==_iff, Bool-cases, inl, inr, load, store, load-store,
  load-delete, delete, Returns, eq_iff,
}
use jonedrive.Inode.{Inode}
use jonedrive.Content.{LoopbackCache}
use jonedrive.Fs.{Filesystem, put_inode, UploadManager}
use jonedrive.Fs.Ids.{translate_id, insert_node_id, number_inode, get_id, get_node_id}

pub record IsRegistry (s : Filesystem) : Type 0 where
  pub counted : s.last_node_id ≡ length s.inodes
  pub numbered :
      (p : ℕ)
      → 0 < (s.inode p).node_id
      → get_elem? s.inodes ((s.inode p).node_id - 1) ≡ some (s.inode p).item.id
  pub distinct :
      (p q : ℕ) → 0 < (s.inode p).node_id → (s.inode p).node_id ≡ (s.inode q).node_id → p ≡ q
  pub live : (id : String) (p : ℕ) → load id s.metadata ≡ some p → 0 < (s.inode p).node_id
  pub fresh : (p : ℕ) → s.next_inode ≤ p → (s.inode p).node_id ≡ 0

-- The counter is a uint64: k more numbers can be given.
abbrev pub HasRoom : ℕ → Filesystem → Type 0
HasRoom k s = s.last_node_id + k < 2 ^ 64

-- What an operation that gives at most k numbers leaves behind.
pub record Kept (k : ℕ) (s s' : Filesystem) : Type 0 where
  pub registry : IsRegistry s'
  pub grows : s'.last_node_id ≤ s.last_node_id + k
  pub alive : s.next_inode ≤ s'.next_inode

module _ (s : Filesystem) (r : IsRegistry s) where
  -- With the registry of inode numbers in order, every number is translated without a panic, and nothing
  -- changes.
  translate_id_total : (n : ℕ) → Returns (translate_id n s) (λ _ s'. s' ≡ s)
  unfolding translate_id
  translate_id_total n = ground (arith, r.counted, get_elem?_of_lt s.inodes (n - 1))

  pub number-le_last : (p : ℕ) → (s.inode p).node_id ≤ s.last_node_id
  number-le_last p =
      grind (arith, r.counted, r.numbered p, get_elem?-lt s.inodes ((s.inode p).node_id - 1))

  -- With the registry of inode numbers in order, an inode in memory that carries the ID it is stored under,
  -- which is not empty, is found by its number, and nothing changes.
  get_node_id_registered :
      (id : String) (p : ℕ)
      → load id s.metadata ≡ some p
      → (s.inode p).item.id ≡ id
      → id ≢ ""
      → get_node_id (s.inode p).node_id s ≡ ret (some p) s
  unfolding get_node_id translate_id get_id
  get_node_id_registered id p found named nonempty = ground (
    arith,
    r.live id p found,
    r.numbered p,
    number-le_last p,
    eq_iff (s.inode p).item.id "",
    eq_iff id "",
  )

module _ (s : Filesystem) (r : IsRegistry s) where
  store-IsRegistry :
      (id : String) (p : ℕ)
      → 0 < (s.inode p).node_id
      → IsRegistry (record s { metadata = store id p s.metadata })
  store-IsRegistry id p h = record {
    counted = r.counted;
    numbered = r.numbered;
    distinct = r.distinct;
    live = λ k q. ground (arith, r.live k q, load-store id k p s.metadata);
    fresh = r.fresh;
  }

-- An inode is put into the metadata and numbered, if it has no number yet.
module _ (s : Filesystem) (r : IsRegistry s) (room : HasRoom 1 s) (id : String) (p : ℕ)
    (old : p < s.next_inode) where
  counted : (s.last_node_id + 1) % 2 ^ 64 ≡ length (s.inodes ++ (s.inode p).item.id ∷ [])
  counted = omega (arith, r.counted, length-append s.inodes ((s.inode p).item.id ∷ []))

  numbered :
      (q : ℕ)
      → 0 < (s.inode q).node_id
      → get_elem? (s.inodes ++ (s.inode p).item.id ∷ []) ((s.inode q).node_id - 1)
        ≡ some (s.inode q).item.id
  numbered q h =
      get_elem?-append_left s.inodes _ ((s.inode q).node_id - 1)
        (omega (arith, r.counted, number-le_last s r q, h))
      ∙ r.numbered q h

  last : get_elem? (s.inodes ++ (s.inode p).item.id ∷ []) s.last_node_id ≡ some (s.inode p).item.id
  last = rw r.counted (get_elem?-append_last s.inodes (s.inode p).item.id)

  pub number_inode-IsRegistry :
      (s.inode p).node_id ≡ 0
      → IsRegistry (number_inode p (s.inode p) (record s { metadata = store id p s.metadata }))
  number_inode-IsRegistry unnumbered = record {
    counted = counted;
    numbered = λ q. ground (arith, numbered q, last);
    distinct = λ q q'. ground (arith, r.distinct q q', number-le_last s r q, number-le_last s r q');
    live = λ k q. ground (arith, r.live k q, load-store id k p s.metadata);
    fresh = λ q h. ground (arith, r.fresh q);
  }

  -- `f.metadata.Store(id, inode)` and `InsertNodeID(inode)`.
  pub register-IsRegistry :
      Returns
        (insert_node_id p (record s { metadata = store id p s.metadata }))
        (λ n s'. Kept 1 s s' × (n ≡ (s'.inode p).node_id) × (0 < n))
  unfolding insert_node_id
  register-IsRegistry = elim (Bool-cases ((s.inode p).node_id == 0)) [
    | inl new ↦ rw new (
      record {
        registry = number_inode-IsRegistry ((==_iff _ 0).0 new);
        grows = omega arith;
        alive = omega arith;
      },
      ground arith,
      omega arith,
    )
    | inr old ↦ rw old (
      record {
        registry = store-IsRegistry s r id p (ground arith);
        grows = omega arith;
        alive = omega arith;
      },
      refl,
      ground arith,
    )
  ]

module _ (s : Filesystem) (r : IsRegistry s) where
  -- An inode may change but for its ID and its number.
  pub put_inode-IsRegistry :
      (p : ℕ) (i : Inode)
      → i.node_id ≡ (s.inode p).node_id
      → i.item.id ≡ (s.inode p).item.id
      → IsRegistry (put_inode p i s)
  put_inode-IsRegistry p i e e' = record {
    counted = r.counted;
    numbered = λ q. ground (arith, r.numbered q);
    distinct = λ q q'. ground (arith, r.distinct q q');
    live = λ k q. ground (arith, r.live k q);
    fresh = λ q h. ground (arith, r.fresh q);
  }

  -- Uploads and content are no part of it.
  pub quiet-IsRegistry :
      (u : UploadManager) (c : LoopbackCache) → IsRegistry (record s { uploads = u; content = c })
  quiet-IsRegistry u c = record {
    counted = r.counted;
    numbered = r.numbered;
    distinct = r.distinct;
    live = r.live;
    fresh = r.fresh;
  }

  pub delete-IsRegistry : (id : String) → IsRegistry (record s { metadata = delete id s.metadata })
  delete-IsRegistry id = record {
    counted = r.counted;
    numbered = r.numbered;
    distinct = r.distinct;
    live = λ k q. ground (arith, r.live k q, load-delete id k s.metadata);
    fresh = r.fresh;
  }

  -- A new inode without a number.
  pub alloc-IsRegistry :
      (i : Inode)
      → i.node_id ≡ 0
      → IsRegistry (record (put_inode s.next_inode i s) { next_inode = s.next_inode + 1 })
  alloc-IsRegistry i e = record {
    counted = r.counted;
    numbered = λ q. ground (arith, r.numbered q);
    distinct = λ q q'. ground (arith, r.distinct q q', r.fresh s.next_inode);
    live = λ k q. ground (arith, r.live k q, r.fresh s.next_inode);
    fresh = λ q h. ground (arith, r.fresh q);
  }

  pub numbered-lt : (p : ℕ) → 0 < (s.inode p).node_id → p < s.next_inode
  numbered-lt p h = grind (arith, r.fresh p)

-- A pointer that an operation found.
abbrev pub Found : Option ℕ → Filesystem → Type 0
Found none s = Unit
Found (some p) s = (0 < (s.inode p).node_id) × (p < s.next_inode)
