-- ===== src/Content/View.antt =====
-- The content cache (fs/content_cache.go) as a table of contents with a set of open IDs, which forgets the
-- disk's files, names and descriptors.
use jonedrive.Prelude.{
  ℕ, ◌≡◌, String, Bool, true, false, Option, none, some, is_some, List, [], ◌∷◌, load, str_eq,
  if◌then◌else◌, ◌||◌,
}
use jonedrive.Content.{LoopbackCache, insert, remove, close, move, open_id, is_open}
use jonedrive.Content.Laws.{IsValid}

-- The calls of the cache; an opening says whether the operating system refuses the file.
pub data Op : Type 0 where
  put : String → List ℕ → Op
  drop : String → Op
  rename : String → String → Op
  open_at : Bool → String → Op
  shut : String → Op

unfoldable pub step : Op → LoopbackCache → LoopbackCache
step (put id b) l = insert l id b
step (drop id) l = (remove l id).0
step (rename old new) l = (move l old new).0
step (open_at fails id) l = (open_id fails l id).1
step (shut id) l = close l id

unfoldable pub run : List Op → LoopbackCache → LoopbackCache
run [] l = l
run (op ∷ ops) l = run ops (step op l)

-- The abstract view: the content of each ID that has a file, and the IDs that are open.
pub record View : Type 0 where
  pub content : String → Option (List ℕ)
  pub opened : String → Bool

abbrev with_content : String → Option (List ℕ) → View → View
with_content id b v = record v { content = λ j. if str_eq id j then b else v.content j }

abbrev with_opened : String → Bool → View → View
with_opened id b v = record v { opened = λ j. if str_eq id j then b else v.opened j }

abbrev pub touched : Option (List ℕ) → Option (List ℕ)
touched none = some []
touched (some b) = some b

unfoldable pub view_step : Op → View → View
view_step (put id b) v = with_content id (some b) v
view_step (drop id) v = with_opened id false (with_content id none v)
view_step (rename old new) v = elim (v.content old) [
  | none ↦ v
  | some b ↦ with_content new (some b) (with_content old none v)
]
view_step (open_at fails id) v =
    if v.opened id || fails
    then v
    else with_opened id true (with_content id (touched (v.content id)) v)
view_step (shut id) v = with_opened id false v

unfoldable pub view_run : List Op → View → View
view_run [] v = v
view_run (op ∷ ops) v = view_run ops (view_step op v)

unfoldable pub file_of : LoopbackCache → String → Option (List ℕ)
file_of l id = elim (load id l.names) [ none ↦ none | some n ↦ some (l.bytes n) ]

unfoldable pub view_of : LoopbackCache → View
view_of l = record { content = file_of l; opened = is_open l }

pub record Shows (l : LoopbackCache) (v : View) : Type 0 where
  pub valid : IsValid l
  pub contents : (j : String) → file_of l j ≡ v.content j
  pub openings : (j : String) → is_open l j ≡ v.opened j

-- What the view shows of an ID.
abbrev pub read_view : View → String → List ℕ
read_view v id = elim (v.content id) [ none ↦ [] | some b ↦ b ]

abbrev pub seen_content : View → String → Bool
seen_content v id = if v.opened id then true else is_some (v.content id)
