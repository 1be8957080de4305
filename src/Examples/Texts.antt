-- ===== src/Examples/Texts.antt =====
-- exercise10/task3: the plugins on short texts.
use ps_os.Base.{◌≡◌, refl, arith, [], ◌∷◌, some}
use ps_os.Plugins.{CString, IsString, map_in_place, rotate_char, caesar, substitute}
use ps_os.Plugins.Letters.{until_space}
use ps_os.Plugins.Substitution.{loaded, loaded_42-substitute}
use ps_os.Plugins.Driver.{
  Loaded, transform, fresh_process, status, map_string, texts, map_string_lem,
}

abbrev hi_you : CString
hi_you = b'H' ∷ b'i' ∷ b' ' ∷ b'y' ∷ []

hi_you-IsString : IsString hi_you
hi_you-IsString = omega arith

caesar_runs : caesar hi_you ≡ b'U' ∷ b'v' ∷ b' ' ∷ b'l' ∷ []
unfolding caesar map_in_place rotate_char
caesar_runs = refl

until_space_runs : until_space hi_you ≡ b'H' ∷ b'i' ∷ []
unfolding until_space
until_space_runs = refl

loaded_42-substitute_example : loaded 42 substitute hi_you ≡ hi_you
loaded_42-substitute_example = loaded_42-substitute hi_you hi_you-IsString

-- Every path loads the Caesar plugin.
abbrev always_caesar : CString → Loaded
always_caesar path = transform (λ s. some (caesar s))

map_string_lem_example : map_string always_caesar (hi_you ∷ hi_you ∷ hi_you ∷ hi_you ∷ []) ≡ (
  status (texts always_caesar (hi_you ∷ hi_you ∷ []) hi_you).1,
  fresh_process (texts always_caesar (hi_you ∷ hi_you ∷ []) hi_you).0,
)
map_string_lem_example = map_string_lem always_caesar hi_you hi_you hi_you (hi_you ∷ [])
