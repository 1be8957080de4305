-- ===== src/Sums.antt =====
-- exercise03/task3/task3b.c: a thread for each file adds up the numbers in it. The array of
-- `thread_args_t` is modelled byte by byte from address 0: a structure has 8 bytes, and its member
-- `name` starts where the next structure does. An `int` is stored with its lowest byte first. What
-- the files hold is a parameter. What `main` writes for a thread is one step, as is an addition, and
-- nothing else is taken to stand in the memory behind the array.
pub mod Names
use ps_os.Base.{
  ℕ, zero, suc, ◌+◌, ◌*◌, ◌/◌, ◌%◌, ◌^◌, ◌≤◌, ◌<◌, ◌≡◌, List, [], ◌∷◌, ◌++◌, Option, none, some,
  ◌==◌, if◌then◌else◌, update, length, get_or,
}
use ps_os.Plugins.{CString}

abbrev pub Memory : Type 0
Memory = ℕ → ℕ

unfoldable pub store_int : Memory → ℕ → ℕ → Memory
store_int m a v =
    update
      (update (update (update m a (v % 256)) (a + 1) (v / 256 % 256)) (a + 2) (v / 65536 % 256))
      (a + 3) (v / 16777216 % 256)

unfoldable pub load_int : Memory → ℕ → ℕ
load_int m a = m a + 256 * m (a + 1) + 65536 * m (a + 2) + 16777216 * m (a + 3)

unfoldable pub strcpy : Memory → ℕ → CString → Memory
strcpy m a [] = update m a 0
strcpy m a (c ∷ s) = strcpy (update m a c) (a + 1) s

-- The string at an address, at most so many bytes of it.
unfoldable pub string_at : ℕ → Memory → ℕ → CString
string_at zero m a = []
string_at (suc n) m a = let rest = string_at n m (a + 1) in if m a == 0 then [] else m a ∷ rest

-- The members of `args[i]`.
abbrev pub num_thread_of : ℕ → ℕ
num_thread_of i = 8 * i

abbrev pub sum_of : ℕ → ℕ
sum_of i = 8 * i + 4

abbrev pub name_of : ℕ → ℕ
name_of i = 8 * i + 8

-- `PATH_MAX`; a longer name cannot be opened.
abbrev pub path_max : ℕ
path_max = 4096

-- What `main` writes for thread `i`.
unfoldable pub prepare : Memory → ℕ → CString → Memory
prepare m i name =
    strcpy (store_int (store_int m (num_thread_of i) i) (sum_of i) 0) (name_of i) name

-- Where a thread stands, with the numbers that are still in its file.
pub data Place : Type 0 where
  opening : Place
  reading : List ℕ → Place
  ended : Place

pub record State : Type 0 where
  pub memory : Memory
  pub created : ℕ  -- `i` of the first loop of `main`
  pub place : ℕ → Place
  pub printed : List ℕ  -- the sums that the second loop has printed

abbrev pub init : Memory → State
init m = record { memory = m; created = 0; place = λ j. opening; printed = [] }

-- For the names of the files, at most 99, and what `fopen` and `fscanf` find under a name.
module _ (names : List CString) (fopen : CString → Option (List ℕ)) where
  pub data Step (s t : State) : Type 0 where
    create :
        s.created < length names
        → t ≡ record s {
          memory = prepare s.memory s.created (get_or names s.created []);
          created = s.created + 1;
        }
        → Step s t
    open_fails :
        (j : ℕ)
        → j < s.created
        → s.place j ≡ opening
        → fopen (string_at path_max s.memory (name_of j)) ≡ none
        → t ≡ record s { place = update s.place j ended }
        → Step s t
    open_file :
        (j : ℕ) (numbers : List ℕ)
        → j < s.created
        → s.place j ≡ opening
        → fopen (string_at path_max s.memory (name_of j)) ≡ some numbers
        → t ≡ record s {
          memory = store_int s.memory (sum_of j) 0;
          place = update s.place j (reading numbers);
        }
        → Step s t
    add :
        (j num : ℕ) (numbers : List ℕ)
        → j < s.created
        → s.place j ≡ reading (num ∷ numbers)
        → t ≡ record s {
          memory = store_int s.memory (sum_of j) ((load_int s.memory (sum_of j) + num) % 2 ^ 32);
          place = update s.place j (reading numbers);
        }
        → Step s t
    exit :
        (j : ℕ)
        → j < s.created
        → s.place j ≡ reading []
        → t ≡ record s { place = update s.place j ended }
        → Step s t
    join :
        s.created ≡ length names
        → length (s.printed) < length names
        → s.place (length (s.printed)) ≡ ended
        → t
          ≡ record s { printed = s.printed ++ load_int s.memory (sum_of (length (s.printed))) ∷ [] }
        → Step s t

  -- From any contents of the stack.
  pub data Reach : State → Type 0 where
    start : (m : Memory) → Reach (init m)
    step : {s t : State} → Reach s → Step s t → Reach t
