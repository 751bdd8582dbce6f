-- ===== src/Kubectl/Display.antt =====
-- pkg/kubectl-plugin/display.go: tables with columns of equal width. What is printed is a list of
-- lines; the length of a text is its number of bytes.
pub mod Aligned
use hostpathpv_plugin.Base.{
  ℕ, zero, suc, ◌+◌, ◌-◌, Bool, true, false, Option, none, some, List, [], ◌∷◌, ◌++◌, map, GoString,
  length, get_elem?, ltb, ◌==◌, not, if◌then◌else◌, codes,
}

pub record Displayer : Type 0 where
  pub titles : List GoString
  pub content : List (List GoString)
  pub space : GoString
  pub prefix : GoString
  pub max_colume_len : List ℕ

unfoldable pub lengths : List GoString → List ℕ
lengths [] = []
lengths (s ∷ ss) = length s ∷ lengths ss

unfoldable pub new_displayer : GoString → GoString → List GoString → Displayer
unfolding lengths
new_displayer space prefix titles = record {
  titles = titles;
  content = [];
  space = space;
  prefix = prefix;
  max_colume_len = lengths titles;
}

unfoldable pub maxint : ℕ → ℕ → ℕ
maxint a b = if ltb b a then a else b

-- Each width becomes the length of the cell where that is more.
unfoldable pub widen : List GoString → List ℕ → List ℕ
widen [] ms = ms
widen (s ∷ ss) [] = []
widen (s ∷ ss) (m ∷ ms) = (if ltb m (length s) then length s else m) ∷ widen ss ms

-- `none` for the error.
unfoldable pub add_line : List GoString → Displayer → Option Displayer
unfolding widen
add_line strs d =
    if not (length strs == length d.titles)
    then none
    else some (record d {
      content = d.content ++ (strs ∷ []);
      max_colume_len = widen strs d.max_colume_len;
    })

unfoldable pub get_num_space : ℕ → GoString → GoString
get_num_space zero space = []
get_num_space (suc num) space = space ++ get_num_space num space

-- The error of AddLine is dropped.
unfoldable pub add_cut_off_line : GoString → Displayer → Displayer
unfolding add_line get_num_space
add_cut_off_line str d =
    elim (add_line (map (λ (title : GoString). get_num_space (length title) str) d.titles) d) [
      | none ↦ d
      | some d' ↦ d'
    ]

-- The widths that all displayers have: the first column, of the first hundred, that no displayer has
-- ends them; if all have one, the count stays 0.
abbrev has_column : ℕ → List Displayer → Bool
has_column c [] = false
has_column c (d ∷ ds) = if ltb c (length d.max_colume_len) then true else has_column c ds

unfoldable pub colume_num : ℕ → ℕ → List Displayer → ℕ
colume_num zero c ds = 0
colume_num (suc rounds) c ds =
    let rest = colume_num rounds (suc c) ds in if has_column c ds then rest else c

abbrev at_least : Option ℕ → ℕ → ℕ
at_least none w = w
at_least (some m) w = maxint w m

unfoldable pub widest : ℕ → List Displayer → ℕ → ℕ
unfolding maxint
widest c [] w = w
widest c (d ∷ ds) w = widest c ds (at_least (get_elem? d.max_colume_len c) w)

unfoldable pub synced_widths : List Displayer → ℕ → ℕ → List ℕ → List ℕ
unfolding widest
synced_widths ds n c [] = []
synced_widths ds n c (m ∷ ms) =
    (if ltb c n then widest c ds 0 else m) ∷ synced_widths ds n (suc c) ms

unfoldable pub sync_displayers_colume_len : List Displayer → List Displayer
unfolding colume_num synced_widths
sync_displayers_colume_len ds =
    map
      (λ (d : Displayer). record d {
        max_colume_len = synced_widths ds (colume_num 100 0 ds) 0 d.max_colume_len;
      })
      ds

-- One row: each cell between the prefix and the space, filled up to the column's width.
unfoldable pub print_row : Displayer → List GoString → List ℕ → GoString
unfolding get_num_space
print_row d [] ms = []
print_row d (s ∷ ss) [] = []
print_row d (s ∷ ss) (m ∷ ms) =
    d.prefix ++ (s ++ (get_num_space (m - length s) (codes " ") ++ (d.space ++ print_row d ss ms)))

unfoldable pub print_under_line : Displayer → List GoString → List ℕ → GoString
unfolding get_num_space
print_under_line d [] ms = []
print_under_line d (s ∷ ss) [] = []
print_under_line d (s ∷ ss) (m ∷ ms) =
    d.prefix ++ (get_num_space m (codes "-") ++ (d.space ++ print_under_line d ss ms))

abbrev rows : Displayer → List (List GoString) → List GoString
rows d [] = []
rows d (line ∷ lines) = print_row d line d.max_colume_len ∷ rows d lines

-- The lines, each without its end.
unfoldable pub print : Bool → Displayer → List GoString
unfolding print_row print_under_line
print need_under_line d =
    print_row d d.titles d.max_colume_len
    ∷ (if need_under_line
        then print_under_line d d.titles d.max_colume_len ∷ rows d d.content
        else rows d d.content)
