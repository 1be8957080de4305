-- ===== src/Plugins/Driver.antt =====
-- exercise10/task3/map_string.c: the program that loads the plugins one after the other. What
-- `dlopen` and `dlsym` find at a path is a parameter.
use mathlib.Core.List.{append-nil, append_assoc}
use ps_os.Base.{
  ◌⊎◌, inl, inr, Option-cases, length, ◌<◌, ℕ, ◌+◌, ◌-◌, ◌≡◌, refl, Bool, true, false, Option, none,
  some, List, [], ◌∷◌, ◌++◌, arith, if◌then◌else◌,
}
use ps_os.Plugins.{CString}

-- What loading a path gives: no handle, a handle with no symbol `transform`, or a function, which
-- returns `NULL` or a new string.
pub data Loaded : Type 0 where
  no_handle : Loaded
  no_symbol : Loaded
  transform : (CString → Option CString) → Loaded

-- Strings allocated and not freed, handles open, and the lines printed, oldest first.
pub record Process : Type 0 where
  pub strings : ℕ
  pub handles : ℕ
  pub printed : List (CString × CString)

abbrev pub fresh_process : List (CString × CString) → Process
fresh_process lines = record { strings = 0; handles = 0; printed = lines }

abbrev pub new_string : Process → Process
new_string p = record p { strings = p.strings + 1 }

abbrev pub free_string : Process → Process
free_string p = record p { strings = p.strings - 1 }

abbrev pub open_handle : Process → Process
open_handle p = record p { handles = p.handles + 1 }

abbrev pub close_handle : Process → Process
close_handle p = record p { handles = p.handles - 1 }

abbrev pub print : CString → CString → Process → Process
print path text p = record p { printed = p.printed ++ (path, text) ∷ [] }

Loaded-cases :
    (l : Loaded)
    → (l ≡ no_handle) ⊎ ((l ≡ no_symbol) ⊎ ((f : CString → Option CString) × (l ≡ transform f)))
Loaded-cases no_handle = inl refl
Loaded-cases no_symbol = inr (inl refl)
Loaded-cases (transform f) = inr (inr (f, refl))

abbrev pub status : Bool → ℕ
status all = if all then 0 else 1

module _ (load : CString → Loaded) where
  -- The loop over the plugin paths: the status that `main` returns, and the process it leaves.
  unfoldable pub run_plugins : List CString → CString → Process → ℕ × Process
  run_plugins [] result p = (0, free_string p)
  run_plugins (path ∷ paths) result p = elim (load path) [
    | no_handle ↦ (1, free_string p)
    | no_symbol ↦ (1, free_string (close_handle (open_handle p)))
    | transform f ↦ elim (f result) [
      | none ↦ (1, free_string (close_handle (open_handle p)))
      | some new_result ↦
          run_plugins paths new_result
            (print path new_result (close_handle (free_string (new_string (open_handle p)))))
    ]
  ]

  unfoldable pub map_string : List CString → ℕ × Process
  unfolding run_plugins
  map_string (name ∷ input ∷ path ∷ paths) =
      run_plugins (path ∷ paths) input (new_string (fresh_process []))
  map_string _ = (1, fresh_process [])

  -- What the plugins make of a text: each text in turn, up to the first plugin that fails, and
  -- whether all have worked.
  unfoldable pub texts : List CString → CString → List (CString × CString) × Bool
  texts [] text = ([], true)
  texts (path ∷ paths) text = elim (load path) [
    | no_handle ↦ ([], false)
    | no_symbol ↦ ([], false)
    | transform f ↦ elim (f text) [
      | none ↦ ([], false)
      | some next ↦ let (rest, all) = texts paths next in ((path, next) ∷ rest, all)
    ]
  ]

  run_plugins-texts :
      (paths : List CString) (text : CString) (p : Process)
      → p.strings ≡ 1
      → p.handles ≡ 0
      → run_plugins paths text p
        ≡ (status (texts paths text).1, fresh_process (p.printed ++ (texts paths text).0))
  unfolding run_plugins texts
  run_plugins-texts [] text p s h = ground (arith, append-nil p.printed)
  run_plugins-texts (path ∷ paths) text p s h = elim (Loaded-cases (load path)) [
    | inl e ↦ ground (arith, append-nil p.printed)
    | inr (inl e) ↦ ground (arith, append-nil p.printed)
    | inr (inr (f, e)) ↦ elim (Option-cases (f text)) [
      | inl e' ↦ ground (arith, append-nil p.printed)
      | inr (next, e') ↦ ground (
        arith,
        run_plugins-texts paths next
            (print path next (close_handle (free_string (new_string (open_handle p))))),
        append_assoc p.printed ((path, next) ∷ []) (texts paths next).0,
      )
    ]
  ]

  -- With at least three arguments the program prints what each plugin makes of the text, up to the
  -- first that cannot be loaded or returns `NULL`, and returns 0 exactly if there is no such plugin.
  -- On every path each string is freed and each handle closed.
  pub map_string_lem :
      (name input path : CString) (paths : List CString)
      → map_string (name ∷ input ∷ path ∷ paths)
        ≡ (status (texts (path ∷ paths) input).1, fresh_process (texts (path ∷ paths) input).0)
  unfolding map_string
  map_string_lem name input path paths =
      run_plugins-texts (path ∷ paths) input (new_string (fresh_process [])) refl refl

  -- With fewer arguments it returns 1 and has allocated, opened and printed nothing.
  map_string_too_few :
      (argv : List CString) → length argv < 3 → map_string argv ≡ (1, fresh_process [])
  unfolding map_string
  map_string_too_few [] h = refl
  map_string_too_few (name ∷ []) h = refl
  map_string_too_few (name ∷ input ∷ []) h = refl
  map_string_too_few (name ∷ input ∷ path ∷ paths) h = absurd (omega arith)
