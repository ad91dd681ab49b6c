-- ===== src/GoPath.antt =====
-- What the program uses of Go's path/filepath and strings, on Unix: Clean, by its documented rules,
-- and the test that TrimSpace leaves nothing.
pub mod Components
use mathlib.Core.List.{reverse, foldl}
use go_gaze.Common.{
  Option, none, some, take, ◌+◌, ℕ, Bool, true, false, ◌&&◌, ◌||◌, not, List, [], ◌∷◌, ◌++◌, Bytes,
  leb, ◌==◌, nat_eq, bytes_eq, if◌then◌else◌,
}
use go_gaze.FilePath.{separator, dot, last_index_byte}

-- The first byte is c.
abbrev pub head_is : Bytes → ℕ → Bool
head_is [] c = false
head_is (x ∷ s) c = x == c

abbrev pub add_head : ℕ → List Bytes → List Bytes
add_head c [] = (c ∷ []) ∷ []
add_head c (w ∷ ws) = (c ∷ w) ∷ ws

-- The elements between the separators, empty ones included.
unfoldable pub components : Bytes → List Bytes
components [] = [] ∷ []
components (c ∷ s) =
    let rest = components s in if c == separator then [] ∷ rest else add_head c rest

unfoldable pub join_components : List Bytes → Bytes
join_components [] = []
join_components (w ∷ []) = w
join_components (w ∷ v ∷ ws) = w ++ separator ∷ join_components (v ∷ ws)

abbrev pub dot_dot : Bytes
dot_dot = dot ∷ dot ∷ []

-- ".." against the elements kept so far, the last one first.
unfoldable pub go_up : Bool → List Bytes → List Bytes
go_up rooted [] = if rooted then [] else dot_dot ∷ []
go_up rooted (top ∷ stack) = if top == dot_dot then dot_dot ∷ top ∷ stack else stack

-- One element: empty and "." elements go, ".." takes back the element before it.
unfoldable pub clean_element : Bool → List Bytes → Bytes → List Bytes
clean_element rooted stack w =
    if w == [] || w == dot ∷ []
    then stack
    else if w == dot_dot
    then go_up rooted stack
    else w ∷ stack

unfoldable pub clean_elements : Bool → List Bytes → List Bytes → List Bytes
unfolding go_up clean_element
clean_elements rooted stack [] = reverse stack
clean_elements rooted stack (w ∷ ws) = clean_elements rooted (clean_element rooted stack w) ws

abbrev pub assemble : Bool → Bytes → Bytes
assemble true rest = separator ∷ rest
assemble false [] = dot ∷ []
assemble false (c ∷ rest) = c ∷ rest

-- filepath.Clean
unfoldable pub clean : Bytes → Bytes
unfolding components join_components clean_elements
clean path =
    let rooted = head_is path separator in
    if path == []
    then dot ∷ []
    else assemble rooted (join_components (clean_elements rooted [] (components path)))

-- unicode.IsSpace on one byte, and on the UTF-8 encodings of two and three bytes.
unfoldable pub is_space : ℕ → Bool
is_space c = (leb 9 c && leb c 13) || c == 32

unfoldable pub is_space2 : ℕ → ℕ → Bool
is_space2 a b = a == 0xc2 && (b == 0x85 || b == 0xa0)

unfoldable pub is_space3 : ℕ → ℕ → ℕ → Bool
is_space3 a b c =
    (a == 0xe1 && (b == 0x9a && c == 0x80))
    || ((a == 0xe2
          && ((b == 0x80 && ((leb 0x80 c && leb c 0x8a) || (c == 0xa8 || (c == 0xa9 || c == 0xaf))))
              || (b == 0x81 && c == 0x9f)))
        || (a == 0xe3 && (b == 0x80 && c == 0x80)))

-- strings.TrimSpace(s) == "": every character is a space.
unfoldable pub is_blank : Bytes → Bool
unfolding is_space is_space2 is_space3
is_blank [] = true
is_blank (a ∷ []) = is_space a
is_blank (a ∷ b ∷ []) = let rest = is_blank (b ∷ []) in if is_space a then rest else is_space2 a b
is_blank (a ∷ b ∷ c ∷ s) =
    let after1 = is_blank (b ∷ c ∷ s) in
    let after2 = is_blank (c ∷ s) in
    let after3 = is_blank s in
    if is_space a
    then after1
    else if is_space2 a b
    then after2
    else if is_space3 a b c
    then after3
    else false

abbrev up_to : Bytes → Option ℕ → Bytes
up_to path none = []
up_to path (some idx) = take (idx + 1) path

-- filepath.Dir: the path up to its last separator, cleaned.
unfoldable pub dir : Bytes → Bytes
unfolding clean
dir path = clean (up_to path (last_index_byte path separator))

-- filepath.Join of two elements: empty ones are left out.
unfoldable pub join : Bytes → Bytes → Bytes
unfolding clean
join [] [] = []
join [] (c ∷ s) = clean (c ∷ s)
join (c ∷ s) [] = clean (c ∷ s)
join (c ∷ s) (d ∷ t) = clean ((c ∷ s) ++ separator ∷ d ∷ t)
