-- ===== src/Examples/Files.antt =====
-- exercise03/task3/task3b.c: two files, with both threads prepared before the first one looks.
use ps_os.Base.{ℕ, ◌≡◌, refl, arith, List, [], ◌∷◌, Option, some}
use ps_os.Plugins.{CString}
use ps_os.Sums.{State, string_at, name_of, path_max, create, Reach, start, step}
use ps_os.Sums.Names.{found_name}

abbrev two_names : List CString
two_names = (b'a' ∷ []) ∷ (b'b' ∷ []) ∷ []

abbrev always_one : CString → Option (List ℕ)
always_one name = some (1 ∷ [])

both_prepared : (s : State) × Reach two_names always_one s × (s.created ≡ 2)
both_prepared =
    let none_yet : Reach two_names always_one _ = start (λ a. 7) in
    let first = step none_yet (create (omega arith) refl) in
    (_, step first (create (omega arith) refl), refl)

found_name_example : string_at path_max both_prepared.0.memory (name_of 0) ≡ 1 ∷ []
unfolding both_prepared
found_name_example =
    found_name two_names always_one (omega arith) (omega arith) both_prepared.1 0 (omega arith)
