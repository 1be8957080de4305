-- ===== src/Sums/Names.antt =====
-- exercise03/task3/task3b.c: the name that a thread finds.
use ps_os.Base.{
  ℕ, zero, suc, ◌+◌, ◌*◌, ◌%◌, ◌^◌, ◌≤◌, ◌<◌, ◌≡◌, refl, ap, sym, ◌∙◌, arith, List, [], ◌∷◌, Option,
  ◌==◌, if◌then◌else◌, update, length, get_or, All, ℕ_discrete, dec_lt,
}
use ps_os.Plugins.{CString, IsString}
use ps_os.Sums.{
  Memory, store_int, load_int, strcpy, string_at, num_thread_of, sum_of, name_of, path_max, prepare,
  reading, Place, State, Step, create, open_fails, open_file, add, exit, join, Reach, start, step,
}

store_int-others : (m : Memory) (a v k : ℕ) → (k < a) → store_int m a v k ≡ m k
unfolding store_int
store_int-others m a v k h = ground arith

store_int-behind : (m : Memory) (a v k : ℕ) → (a + 3 < k) → store_int m a v k ≡ m k
unfolding store_int
store_int-behind m a v k h = ground arith

strcpy-below : (m : Memory) (a : ℕ) (s : CString) (k : ℕ) → k < a → strcpy m a s k ≡ m k
unfolding strcpy
strcpy-below m a [] k h = ground arith
strcpy-below m a (c ∷ s) k h = ground (arith, strcpy-below (update m a c) (a + 1) s k)

string_at-strcpy :
    (n : ℕ) (m : Memory) (a : ℕ) (s : CString)
    → IsString s
    → length s < n
    → string_at n (strcpy m a s) a ≡ s
unfolding string_at strcpy
string_at-strcpy zero m a s h short = absurd (omega arith)
string_at-strcpy (suc n) m a [] h short = ground arith
string_at-strcpy (suc n) m a (c ∷ s) (hc, h) short =
    ground (
      arith,
      strcpy-below (update m a c) (a + 1) s a,
      string_at-strcpy n (update m a c) (a + 1) s h,
    )

string_at-congr :
    (n : ℕ) (m m' : Memory) (a : ℕ)
    → ((k : ℕ) → a ≤ k → m' k ≡ m k)
    → string_at n m' a ≡ string_at n m a
unfolding string_at
string_at-congr zero m m' a same = refl
string_at-congr (suc n) m m' a same =
    ground
      (arith, same a (omega arith), string_at-congr n m m' (a + 1) (λ k le. same k (omega arith)))

string_at-one :
    (n : ℕ) (m : Memory) (a c : ℕ)
    → 1 < n
    → 0 < c
    → m a ≡ c
    → m (a + 1) ≡ 0
    → string_at n m a ≡ c ∷ []
unfolding string_at
string_at-one zero m a c h pos e e' = absurd (omega arith)
string_at-one (suc zero) m a c h pos e e' = absurd (omega arith)
string_at-one (suc (suc n)) m a c h pos e e' = ground arith

module _ (names : List CString) (fopen : CString → Option (List ℕ)) (few : length names ≤ 99)
    (valid : All (λ s. IsString s × (length s < path_max)) names) where
  -- The numbers of the threads stand where the names of those before them were, and the last name
  -- is still there.
  record Inv (s : State) : Type 0 where
    numbers :
        (j : ℕ)
        → suc j < s.created
        → (s.memory (name_of j) ≡ suc j) × (s.memory (name_of j + 1) ≡ 0)
    last : (j : ℕ) → suc j ≡ s.created → string_at path_max s.memory (name_of j) ≡ get_or names j []
    bounded : s.created ≤ length names

  -- A thread writes nothing but its sum.
  sum_written :
      {s : State} (j v : ℕ) (place : ℕ → Place)
      → Inv s
      → j < s.created
      → Inv (record s { memory = store_int s.memory (sum_of j) v; place = place })
  sum_written {s} j v place inv lt = record {
    numbers = λ i li. elim (dec_lt i j) [
      | yes before ↦ ground (
        arith,
        inv.numbers i li,
        store_int-others s.memory (sum_of j) v (name_of i),
        store_int-others s.memory (sum_of j) v (name_of i + 1),
      )
      | no behind ↦ ground (
        arith,
        inv.numbers i li,
        store_int-behind s.memory (sum_of j) v (name_of i),
        store_int-behind s.memory (sum_of j) v (name_of i + 1),
      )
    ];
    last = λ i e.
        string_at-congr path_max s.memory (store_int s.memory (sum_of j) v) (name_of i)
          (λ k le. store_int-behind s.memory (sum_of j) v k (omega arith))
        ∙ inv.last i e;
    bounded = inv.bounded;
  }

  prepare-below : (m : Memory) (i k : ℕ) (name : CString) → k < 8 * i → prepare m i name k ≡ m k
  unfolding prepare
  prepare-below m i k name h =
      strcpy-below (store_int (store_int m (num_thread_of i) i) (sum_of i) 0) (name_of i) name k
        (omega arith)
      ∙ store_int-others (store_int m (num_thread_of i) i) (sum_of i) 0 k (omega arith)
      ∙ store_int-others m (num_thread_of i) i k h

  prepare-number :
      (m : Memory) (i k : ℕ) (name : CString)
      → k < 4
      → prepare m i name (8 * i + k) ≡ store_int m (num_thread_of i) i (8 * i + k)
  unfolding prepare
  prepare-number m i k name h =
      strcpy-below (store_int (store_int m (num_thread_of i) i) (sum_of i) 0) (name_of i) name
        (8 * i + k) (omega arith)
      ∙ store_int-others (store_int m (num_thread_of i) i) (sum_of i) 0 (8 * i + k) (omega arith)

  small_number :
      (m : Memory) (i : ℕ)
      → i < 256
      → (store_int m (num_thread_of i) i (8 * i + 0) ≡ i)
        × (store_int m (num_thread_of i) i (8 * i + 1) ≡ 0)
  unfolding store_int
  small_number m i h = (ground arith, ground arith)

  valid_at :
      (i : ℕ)
      → i < length names
      → IsString (get_or names i []) × (length (get_or names i []) < path_max)
  valid_at i lt = All-get_or names i valid lt
    where
      All-get_or :
          (xs : List CString) (i : ℕ)
          → All (λ s. IsString s × (length s < path_max)) xs
          → i < length xs
          → IsString (get_or xs i []) × (length (get_or xs i []) < path_max)
      All-get_or [] i a lt = absurd (omega arith)
      All-get_or (x ∷ xs) zero a lt = a.0
      All-get_or (x ∷ xs) (suc i) a lt = All-get_or xs i a.1 (omega arith)

  create-Inv :
      {s : State}
      → Inv s
      → s.created < length names
      → Inv (record s {
        memory = prepare s.memory s.created (get_or names s.created []);
        created = s.created + 1;
      })
  unfolding prepare
  create-Inv {s} inv lt = record {
    numbers = λ j lj. elim (dec_lt (suc j) s.created) [
      | yes before ↦ ground (
        arith,
        inv.numbers j before,
        prepare-below s.memory s.created (name_of j) (get_or names s.created []),
        prepare-below s.memory s.created (name_of j + 1) (get_or names s.created []),
      )
      | no last ↦
          let i = s.created in
          let name = get_or names i [] in
          let small = small_number s.memory i (omega (arith, few)) in
          (
            ap (prepare s.memory i name) (let e : name_of j ≡ 8 * i + 0 = omega arith in e)
                ∙ prepare-number s.memory i 0 name (omega arith)
                ∙ small.0
                ∙ omega arith,
            ap (prepare s.memory i name) (let e : name_of j + 1 ≡ 8 * i + 1 = omega arith in e)
                ∙ prepare-number s.memory i 1 name (omega arith)
                ∙ small.1,
          )
    ];
    last = λ j e.
        let i = s.created in
        let same : j ≡ i = omega arith in
        ap (λ k. string_at path_max (prepare s.memory i (get_or names i [])) (name_of k)) same
        ∙ string_at-strcpy path_max
            (store_int (store_int s.memory (num_thread_of i) i) (sum_of i) 0) (name_of i)
            (get_or names i []) (valid_at i lt).0 (valid_at i lt).1
        ∙ ap (λ k. get_or names k []) (sym same);
    bounded = omega arith;
  }

  Step-Inv : {s t : State} → Inv s → Step names fopen s t → Inv t
  Step-Inv inv (create lt e) = rw e (create-Inv inv lt)
  Step-Inv inv (open_fails j lt at e0 e) =
      rw e (record { numbers = inv.numbers; last = inv.last; bounded = inv.bounded })
  Step-Inv {s} inv (open_file j numbers lt at e0 e) =
      rw e (sum_written j 0 (update s.place j (reading numbers)) inv lt)
  Step-Inv {s} inv (add j num numbers lt at e) = rw e (
      sum_written j ((load_int s.memory (sum_of j) + num) % 2 ^ 32)
        (update s.place j (reading numbers)) inv lt)
  Step-Inv inv (exit j lt at e) =
      rw e (record { numbers = inv.numbers; last = inv.last; bounded = inv.bounded })
  Step-Inv inv (join done more at e) =
      rw e (record { numbers = inv.numbers; last = inv.last; bounded = inv.bounded })

  Reach-Inv : {s : State} → Reach names fopen s → Inv s
  Reach-Inv (start m) = record {
    numbers = λ j lj. absurd (omega arith);
    last = λ j e. absurd (omega arith);
    bounded = omega arith;
  }
  Reach-Inv (step r st) = Step-Inv (Reach-Inv r) st

  -- With at most 99 names, each shorter than the longest path, the name that thread `j` finds is its
  -- own only until `main` prepares the next thread; from then on it is the single byte `j + 1`, the
  -- number of the next thread, whatever the threads have written.
  pub found_name :
      {s : State}
      → Reach names fopen s
      → (j : ℕ) → j < s.created
      → string_at path_max s.memory (name_of j)
        ≡ (if suc j == s.created then get_or names j [] else suc j ∷ [])
  found_name {s} r j lt =
      let inv = Reach-Inv r in
      elim (ℕ_discrete (suc j) s.created) [
        | yes newest ↦ ground (arith, inv.last j newest)
        | no older ↦
            let number = inv.numbers j (omega arith) in
            ground (
              arith,
              string_at-one path_max s.memory (name_of j) (suc j) (omega arith) (omega arith)
                  number.0 number.1,
            )
      ]
