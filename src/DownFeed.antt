-- ===== src/DownFeed.antt =====
-- down_parse_client/down_client/down_func.cpp: send_queue, which reads the seed file and puts its lines
-- into the download queue, in batches of one proxy each. The files of the disk are a function from a
-- path to the size of a readable file. What `rand` returns at each call is a parameter. The lines are
-- what `fgets` fills its buffer with. The batches are the maps of one key that go to `addQueue`, in order.
pub mod Laws
pub mod Fill
pub mod Batches
mod Tests
use studytest.Base.{
  ℕ, zero, suc, ◌+◌, ◌%◌, List, [], ◌∷◌, ◌++◌, Option, some, none, Bool, ◌&&◌, Bytes, codes, length,
  get_or, leb, ltb, ◌==◌, if◌then◌else◌, same, find,
}
use studytest.Strings.{Outcome, leaves, strays, hangs, trim, explode}

abbrev pub Files : Type 0
Files = Bytes → Option ℕ

-- What a line is: `skipped` is a `continue`, `stray` a trimming that reads outside the string, `page` the
-- trimmed line and the path of its local file.
pub data SeedLine : Type 0 where
  skipped : SeedLine
  stray : SeedLine
  page : Bytes → Bytes → SeedLine

-- the parts of a line with a tab
abbrev pub of_items : Bytes → List Bytes → SeedLine
of_items line [] = skipped
of_items line (url ∷ []) = skipped
of_items line (url ∷ (local_file ∷ [])) = skipped
of_items line (url ∷ (local_file ∷ (query ∷ more))) = page line local_file

abbrev pub of_trimmed : Outcome → SeedLine
of_trimmed (leaves line) = elim (find line (codes "\t")) [
  | none ↦ skipped
  | some pos ↦ of_items line (explode line (codes "\t") [])
]
of_trimmed strays = stray
of_trimmed hangs = stray

unfoldable pub seed_line : Bytes → SeedLine
seed_line [] = skipped
seed_line (c ∷ tmp) = of_trimmed (trim (c ∷ tmp) (codes "\t\n\r "))

-- `unlink`
abbrev pub unlink : Files → Bytes → Files
unlink files path = λ p. if same p path then none else files p

-- Whether a page is to be loaded, and the disk behind the test: a page that is too small is deleted.
unfoldable pub to_load : ℕ → Files → Bytes → Option Files
to_load normal_page_size files local_file = elim (files local_file) [
  | none ↦ some files
  | some size ↦ if leb size normal_page_size then some (unlink files local_file) else none
]

-- `get_proxy_host`
unfoldable pub get_proxy_host : List Bytes → ℕ → Bytes
get_proxy_host [] random = []
get_proxy_host (h ∷ hs) random = get_or (h ∷ hs) (random % length (h ∷ hs)) []

-- a configured number of 0 stands for one of 0 or less
abbrev pub pages_per_proxy : ℕ → ℕ
pages_per_proxy zero = 20
pages_per_proxy (suc n) = suc n

-- the variables of the loop, with the batches queued so far
pub record Feed : Type 0 where
  pub files : Files
  pub url_list : List Bytes
  pub counter : ℕ
  pub batches : List (Bytes × List Bytes)

module _ (proxy_list : List Bytes) (rand : ℕ → ℕ)
    (normal_page_size page_num_per_proxy down_counter : ℕ) where
  -- the host of a batch inside the loop: a proxy in every other pass over the file
  abbrev pub batch_host : ℕ → Bytes
  batch_host counter =
      if down_counter % 2 == 0 then get_proxy_host proxy_list (rand counter) else []

  -- a line that is to be loaded: it is stored, and a full batch is queued
  unfoldable pub store : Feed → Bytes → Feed
  store f line =
      let url_list = f.url_list ++ line ∷ [] in
      if ltb 0 f.counter && (f.counter % pages_per_proxy page_num_per_proxy == 0)
      then record f {
        url_list = [];
        counter = suc f.counter;
        batches = f.batches ++ (batch_host f.counter, url_list) ∷ [];
      }
      else record f { url_list = url_list; counter = suc f.counter }

  -- one round of the loop
  abbrev pub feed_line : Feed → SeedLine → Option Feed
  feed_line f skipped = some f
  feed_line f stray = none
  feed_line f (page line local_file) = elim (to_load normal_page_size f.files local_file) [
    | none ↦ some f
    | some files ↦ some (store (record f { files = files }) line)
  ]

  -- the loop over the file; `none` is a trimming that reads outside the string
  unfoldable pub feed_lines : Feed → List Bytes → Option Feed
  feed_lines f [] = some f
  feed_lines f (line ∷ lines) = elim (feed_line f (seed_line line)) [
    | none ↦ none
    | some f' ↦ feed_lines f' lines
  ]

  -- behind the loop: what is left is queued, through a proxy in every pass
  abbrev pub last_batch : Feed → List Bytes → List (Bytes × List Bytes)
  last_batch f [] = f.batches
  last_batch f (line ∷ lines) =
      f.batches ++ (get_proxy_host proxy_list (rand f.counter), line ∷ lines) ∷ []

  -- what `send_queue` queues and returns, of a file that it can open
  unfoldable pub send_queue : Files → List Bytes → Option (List (Bytes × List Bytes) × ℕ)
  unfolding feed_lines
  send_queue files lines =
      elim (feed_lines (record { files = files; url_list = []; counter = 0; batches = [] }) lines) [
        | none ↦ none
        | some f ↦ some (last_batch f f.url_list, f.counter)
      ]
