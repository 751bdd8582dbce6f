-- ===== src/Base/Paths.antt =====
-- `path.Clean` and `path.Join` of Go's library, on slash-separated paths.
use Prim.Native.Nat.{ℕ}
use mathlib.Core.Path.{◌≡◌, refl}
use mathlib.Core.Bool.{Bool, true, false, ◌||◌, ◌&&◌, not}
use mathlib.Core.List.{List, [], ◌∷◌, ◌++◌, reverse}
use hostpathpv_plugin.Base.Tests.{◌==◌, if◌then◌else◌}
use hostpathpv_plugin.Base.Text.{GoString, codes, str_eq, is_empty}

abbrev pub slash : ℕ
slash = b'/'

-- strings.Split at one byte
unfoldable pub split_at : ℕ → GoString → List GoString
split_at b [] = [] ∷ []
split_at b (c ∷ s) = elim (split_at b s) [
  | [] ↦ []
  | part ∷ parts ↦ if c == b then [] ∷ part ∷ parts else (c ∷ part) ∷ parts
]

-- strings.Join with one byte
unfoldable pub join_with : ℕ → List GoString → GoString
join_with b [] = []
join_with b (p ∷ []) = p
join_with b (p ∷ q ∷ ps) = p ++ (b ∷ join_with b (q ∷ ps))

dot_dot : GoString
dot_dot = codes ".."

-- The parts kept so far, the last one first.
pop_part : Bool → List GoString → List GoString
unfolding dot_dot
pop_part true [] = []
pop_part false [] = dot_dot ∷ []
pop_part rooted (top ∷ kept) =
    if not rooted && str_eq top dot_dot then dot_dot ∷ top ∷ kept else kept

clean_parts : Bool → List GoString → List GoString → List GoString
unfolding dot_dot pop_part
clean_parts rooted kept [] = reverse kept
clean_parts rooted kept (p ∷ ps) =
    clean_parts rooted
      (if is_empty p || str_eq p (codes ".")
        then kept
        else if str_eq p dot_dot
        then pop_part rooted kept
        else p ∷ kept)
      ps

abbrev is_rooted : GoString → Bool
is_rooted [] = false
is_rooted (c ∷ s) = c == slash

or_dot : GoString → GoString
or_dot [] = codes "."
or_dot (c ∷ s) = c ∷ s

unfoldable pub clean : GoString → GoString
unfolding clean_parts or_dot
clean p =
    let parts = join_with slash (clean_parts (is_rooted p) [] (split_at slash p)) in
    if is_rooted p then slash ∷ parts else or_dot parts

-- path.Join of two elements; an empty one is left out.
unfoldable pub join_path : GoString → GoString → GoString
join_path [] [] = []
join_path [] (c ∷ b) = clean (c ∷ b)
join_path (c ∷ a) [] = clean (c ∷ a)
join_path (c ∷ a) (d ∷ b) = clean (c ∷ a ++ (slash ∷ d ∷ b))

clean_dots : clean (codes "/xfs//./disk1/../disk2/") ≡ codes "/xfs/disk2"
unfolding clean split_at join_with str_eq
clean_dots = refl
