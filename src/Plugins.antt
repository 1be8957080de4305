-- ===== src/Plugins.antt =====
-- exercise10/task3: `map_string` and the text plugins that it loads. A C string is the list of its
-- bytes before the terminator; a plugin's `transform` works on a copy of its input.
pub mod Letters
pub mod Substitution
pub mod Positions
pub mod Driver
use ps_os.Base.{
  ℕ, zero, suc, ◌+◌, ◌-◌, ◌%◌, ◌<◌, Bool, ◌&&◌, ◌||◌, List, [], ◌∷◌, map, leb, if◌then◌else◌,
  get_or, length, All,
}
use Prim.Native.Nat.{bit_xor}

abbrev pub CString : Type 0
CString = List ℕ

-- The bytes of a string are not 0 and fit a `char`, read as unsigned.
abbrev pub IsString : CString → Type 0
IsString s = All (λ c. (0 < c) × (c < 256)) s

-- What a C function sees of a buffer: the bytes before the first 0.
abbrev pub c_str : List ℕ → CString
c_str [] = []
c_str (zero ∷ s) = []
c_str (suc c ∷ s) = suc c ∷ c_str s

-- `for (i = 0; result[i] != '\0'; ++i) result[i] = f(result[i])` on a copy of the string. A byte
-- that becomes 0 does not stop the loop, which reads the next one, but it ends the result.
unfoldable pub map_in_place : (ℕ → ℕ) → CString → CString
map_in_place f s = c_str (map f s)

abbrev pub is_lower : ℕ → Bool
is_lower c = leb b'a' c && leb c b'z'

abbrev pub is_upper : ℕ → Bool
is_upper c = leb b'A' c && leb c b'Z'

-- caesar_cipher.c
unfoldable pub rotate_char : ℕ → ℕ
rotate_char c =
    if is_lower c || is_upper c
    then (let base = (if leb b'a' c then b'a' else b'A') in (c - base + 13) % 26 + base)
    else c

unfoldable pub caesar : CString → CString
caesar s = map_in_place rotate_char s

-- xor_string.c
unfoldable pub flip_char : ℕ → ℕ
flip_char c = bit_xor c 0x20

unfoldable pub xor_string : CString → CString
xor_string s = map_in_place flip_char s

-- library_two.c; `toupper` in the C locale
unfoldable pub toupper : ℕ → ℕ
toupper c = if is_lower c then c - 32 else c

unfoldable pub upper_case : CString → CString
upper_case s = map_in_place toupper s

-- library_one.c
abbrev pub substitution_table : List ℕ
substitution_table =
    b'Q' ∷ b'W' ∷ b'E' ∷ b'R' ∷ b'T' ∷ b'Y' ∷ b'U' ∷ b'I' ∷ b'O' ∷ b'P' ∷ b'A' ∷ b'S' ∷ b'D' ∷ b'F'
    ∷ b'G' ∷ b'H' ∷ b'J' ∷ b'K' ∷ b'L' ∷ b'Z' ∷ b'X' ∷ b'C' ∷ b'V' ∷ b'B' ∷ b'N' ∷ b'M' ∷ []

unfoldable pub substitute_char : ℕ → ℕ
substitute_char c =
    if is_lower c
    then get_or substitution_table (c - b'a') 0 + (b'a' - b'A')
    else (if is_upper c then get_or substitution_table (c - b'A') 0 else c)

unfoldable pub substitute : CString → CString
substitute s = map_in_place substitute_char s

-- reverse_string.c: `result[i] = input[len - 1 - i]` from `i` on, with the rounds left.
unfoldable pub copy_back : CString → ℕ → ℕ → CString
copy_back input zero i = []
copy_back input (suc rounds) i =
    get_or input (length input - 1 - i) 0 ∷ copy_back input rounds (i + 1)

unfoldable pub reverse_string : CString → CString
reverse_string input = copy_back input (length input) 0
