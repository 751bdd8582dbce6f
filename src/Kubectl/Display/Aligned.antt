-- ===== src/Kubectl/Display/Aligned.antt =====
-- The columns of a table are aligned (pkg/kubectl-plugin/display.go).
use hostpathpv_plugin.Base.{
  ℕ, zero, suc, ◌+◌, ◌-◌, ◌≤◌, ◌≡◌, refl, Bool, true, false, Option, none, some, List, [], ◌∷◌,
  ◌++◌, map, arith, GoString, length, length-append, All, All-append, ◌==◌, Bool-cases, inl, inr,
}
use hostpathpv_plugin.Kubectl.Display.{
  Displayer, new_displayer, lengths, widen, add_line, add_cut_off_line, get_num_space, print_row,
  print_under_line, rows, print,
}

-- A row has one cell for each column, none wider than its column.
abbrev pub Fits : List GoString → List ℕ → Type 0
Fits [] [] = Unit
Fits (s ∷ ss) (m ∷ ms) = (length s ≤ m) × Fits ss ms
Fits [] (m ∷ ms) = ⊥
Fits (s ∷ ss) [] = ⊥

pub record IsAligned (d : Displayer) : Type 0 where
  pub titles_fit : Fits d.titles d.max_colume_len
  pub content_fits : All (λ line. Fits line d.max_colume_len) d.content

-- What a caller does with a table.
pub data Step : Type 0 where
  line : List GoString → Step
  cut_off : GoString → Step

abbrev kept : Displayer → Option Displayer → Displayer
kept d none = d
kept d (some d') = d'

-- A line that is refused leaves the table as it was.
abbrev pub step : Step → Displayer → Displayer
step (line strs) d = kept d (add_line strs d)
step (cut_off str) d = add_cut_off_line str d

abbrev pub steps : List Step → Displayer → Displayer
steps [] d = d
steps (s ∷ ss) d = steps ss (step s d)

-- The width of a printed line.
abbrev pub width : Displayer → List ℕ → ℕ
width d [] = 0
width d (m ∷ ms) = length d.prefix + m + length d.space + width d ms

Fits-lengths : (ss : List GoString) → Fits ss (lengths ss)
unfolding lengths
Fits-lengths [] = tt
Fits-lengths (s ∷ ss) = (omega arith, Fits-lengths ss)

length-Fits : (ss : List GoString) (ms : List ℕ) → Fits ss ms → length ss ≡ length ms
length-Fits [] [] h = refl
length-Fits (s ∷ ss) (m ∷ ms) h = omega (arith, length-Fits ss ms h.1)
length-Fits [] (m ∷ ms) h = absurd h
length-Fits (s ∷ ss) [] h = absurd h

widen-Fits : (ss : List GoString) (ms : List ℕ) → length ss ≡ length ms → Fits ss (widen ss ms)
unfolding widen
widen-Fits [] [] e = tt
widen-Fits (s ∷ ss) (m ∷ ms) e = (ground arith, widen-Fits ss ms (omega arith))
widen-Fits [] (m ∷ ms) e = absurd (omega arith)
widen-Fits (s ∷ ss) [] e = absurd (omega arith)

-- Widening takes no room away.
Fits-widen :
    (row ss : List GoString) (ms : List ℕ)
    → length ss ≡ length ms
    → Fits row ms
    → Fits row (widen ss ms)
unfolding widen
Fits-widen row [] [] e h = h
Fits-widen (r ∷ row) (s ∷ ss) (m ∷ ms) e h = (ground arith, Fits-widen row ss ms (omega arith) h.1)
Fits-widen [] (s ∷ ss) (m ∷ ms) e h = absurd h
Fits-widen row [] (m ∷ ms) e h = absurd (omega arith)
Fits-widen row (s ∷ ss) [] e h = absurd (omega arith)

Fits-widen_each :
    (lines : List (List GoString)) (ss : List GoString) (ms : List ℕ)
    → length ss ≡ length ms
    → All (λ row. Fits row ms) lines
    → All (λ row. Fits row (widen ss ms)) lines
Fits-widen_each [] ss ms e h = tt
Fits-widen_each (row ∷ lines) ss ms e h =
    (Fits-widen row ss ms e h.0, Fits-widen_each lines ss ms e h.1)

add_line-IsAligned :
    (ss : List GoString) (d : Displayer) → IsAligned d → IsAligned (kept d (add_line ss d))
unfolding add_line
add_line-IsAligned ss d h = elim (Bool-cases (length ss == length d.titles)) [
  | inr off ↦ rw off h
  | inl fits ↦
      let same = length-Fits d.titles d.max_colume_len h.titles_fit in
      let e : length ss ≡ length d.max_colume_len = ground arith in
      rw fits (record {
        titles_fit = Fits-widen d.titles ss d.max_colume_len e h.titles_fit;
        content_fits =
            All-append (λ row. Fits row (widen ss d.max_colume_len)) d.content (ss ∷ [])
              (Fits-widen_each d.content ss d.max_colume_len e h.content_fits)
              (widen-Fits ss d.max_colume_len e, tt);
      })
]

kept_same : (d : Displayer) (o : Option Displayer) → elim o [ none ↦ d | some d' ↦ d' ] ≡ kept d o
kept_same d none = refl
kept_same d (some d') = refl

step-IsAligned : (s : Step) (d : Displayer) → IsAligned d → IsAligned (step s d)
unfolding add_cut_off_line
step-IsAligned (line ss) d h = add_line-IsAligned ss d h
step-IsAligned (cut_off str) d h =
    let cells = map (λ (title : GoString). get_num_space (length title) str) d.titles in
    rw (kept_same d (add_line cells d)) (add_line-IsAligned cells d h)

pub steps-IsAligned : (ss : List Step) (d : Displayer) → IsAligned d → IsAligned (steps ss d)
steps-IsAligned [] d h = h
steps-IsAligned (s ∷ ss) d h = steps-IsAligned ss (step s d) (step-IsAligned s d h)

new_displayer-IsAligned :
    (space prefix : GoString) (titles : List GoString)
    → IsAligned (new_displayer space prefix titles)
unfolding new_displayer
new_displayer-IsAligned space prefix titles = record {
  titles_fit = Fits-lengths titles;
  content_fits = tt;
}

length-get_num_space : (n : ℕ) (c : ℕ) → length (get_num_space n (c ∷ [])) ≡ n
unfolding get_num_space
length-get_num_space zero c = refl
length-get_num_space (suc n) c = omega (arith, length-get_num_space n c)

-- The parts of a cell, put together.
length_cell :
    (a b c d e : GoString)
    → length (a ++ (b ++ (c ++ (d ++ e)))) ≡ length a + length b + length c + length d + length e
length_cell a b c d e = omega (
  arith,
  length-append a (b ++ (c ++ (d ++ e))),
  length-append b (c ++ (d ++ e)),
  length-append c (d ++ e),
  length-append d e,
)

length-print_row :
    (d : Displayer) (ss : List GoString) (ms : List ℕ)
    → Fits ss ms
    → length (print_row d ss ms) ≡ width d ms
unfolding print_row
length-print_row d [] [] h = refl
length-print_row d (s ∷ ss) (m ∷ ms) h = omega (
  arith,
  length_cell d.prefix s (get_num_space (m - length s) (b' ' ∷ [])) d.space (print_row d ss ms),
  length-get_num_space (m - length s) b' ',
  length-print_row d ss ms h.1,
)
length-print_row d [] (m ∷ ms) h = absurd h
length-print_row d (s ∷ ss) [] h = absurd h

length-print_under_line :
    (d : Displayer) (ss : List GoString) (ms : List ℕ)
    → Fits ss ms
    → length (print_under_line d ss ms) ≡ width d ms
unfolding print_under_line
length-print_under_line d [] [] h = refl
length-print_under_line d (s ∷ ss) (m ∷ ms) h = omega (
  arith,
  length_cell d.prefix [] (get_num_space m (b'-' ∷ [])) d.space (print_under_line d ss ms),
  length-get_num_space m b'-',
  length-print_under_line d ss ms h.1,
)
length-print_under_line d [] (m ∷ ms) h = absurd h
length-print_under_line d (s ∷ ss) [] h = absurd h

abbrev pub HasWidth : ℕ → GoString → Type 0
HasWidth w text = length text ≡ w

rows-HasWidth :
    (d : Displayer) (lines : List (List GoString))
    → All (λ row. Fits row d.max_colume_len) lines
    → All (HasWidth (width d d.max_colume_len)) (rows d lines)
rows-HasWidth d [] h = tt
rows-HasWidth d (row ∷ lines) h =
    (length-print_row d row d.max_colume_len h.0, rows-HasWidth d lines h.1)

print-HasWidth :
    (under : Bool) (d : Displayer)
    → IsAligned d
    → All (HasWidth (width d d.max_colume_len)) (print under d)
unfolding print
print-HasWidth false d h = (
  length-print_row d d.titles d.max_colume_len h.titles_fit,
  rows-HasWidth d d.content h.content_fits,
)
print-HasWidth true d h = (
  length-print_row d d.titles d.max_colume_len h.titles_fit,
  (
    length-print_under_line d d.titles d.max_colume_len h.titles_fit,
    rows-HasWidth d d.content h.content_fits,
  ),
)

-- Whatever lines are added to a new table, those that are refused and the lines of cut-offs among
-- them: everything that is printed, the titles, the line under them and the rows, has the same
-- number of bytes, the sum of the widths of the columns with their prefixes and spaces.
pub print_aligned :
    (space prefix : GoString) (titles : List GoString) (ss : List Step) (under : Bool)
    → All
        (HasWidth (
          width
            (steps ss (new_displayer space prefix titles))
            (steps ss (new_displayer space prefix titles)).max_colume_len))
        (print under (steps ss (new_displayer space prefix titles)))
print_aligned space prefix titles ss under =
    print-HasWidth under (steps ss (new_displayer space prefix titles)) (
      steps-IsAligned ss (new_displayer space prefix titles)
        (new_displayer-IsAligned space prefix titles))
