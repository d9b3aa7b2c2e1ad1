-- ===== src/Text/Paths.antt =====
-- path.Clean and path.Join of Go's standard library, as far as the service calls them.
pub mod Under
pub mod Climb
use mathlib.Core.List.{reverse}
use bke_console_service.Prelude.{Bool, true, false, ◌||◌, List, [], ◌∷◌, ◌++◌, if◌then◌else◌}
use bke_console_service.Text.{Text, codes, text_eq, has_prefix, split, join}

abbrev pub dot_dot : Text
dot_dot = codes ".."

-- A part that resolution drops.
unfoldable pub is_void : Text → Bool
unfolding text_eq
is_void part = text_eq part [] || text_eq part (codes ".")

-- What ".." leaves of the parts so far, the last one first.
unfoldable pub climb : Bool → List Text → List Text
unfolding text_eq
climb rooted [] = if rooted then [] else dot_dot ∷ []
climb rooted (top ∷ stack) = if text_eq top dot_dot then dot_dot ∷ top ∷ stack else stack

-- One round of the loop of path.Clean.
unfoldable pub resolve : Bool → List Text → Text → List Text
unfolding is_void climb
resolve rooted stack part =
    if is_void part
    then stack
    else if text_eq part dot_dot
    then climb rooted stack
    else part ∷ stack

unfoldable pub walk : Bool → List Text → List Text → List Text
unfolding resolve
walk rooted stack [] = stack
walk rooted stack (part ∷ parts) = walk rooted (resolve rooted stack part) parts

unfoldable pub render : Bool → List Text → Text
unfolding join
render true parts = b'/' ∷ join b'/' parts
render false [] = codes "."
render false (part ∷ parts) = join b'/' (part ∷ parts)

-- path.Clean
unfoldable pub clean : Text → Text
unfolding walk render split has_prefix
clean [] = codes "."
clean (c ∷ s) =
    let rooted = has_prefix (c ∷ s) (codes "/") in
    render rooted (reverse (walk rooted [] (split b'/' (c ∷ s))))

-- The buffer of path.Join after one more element; leading empty elements are skipped.
unfoldable pub add_elem : Text → Text → Text
add_elem [] elem = elem
add_elem (c ∷ buf) elem = (c ∷ buf) ++ b'/' ∷ elem

unfoldable pub join_elems : Text → List Text → Text
unfolding add_elem
join_elems buf [] = buf
join_elems buf (elem ∷ elems) = join_elems (add_elem buf elem) elems

unfoldable pub clean_nonempty : Text → Text
unfolding clean
clean_nonempty [] = []
clean_nonempty (c ∷ s) = clean (c ∷ s)

-- path.Join
unfoldable pub path_join : List Text → Text
unfolding join_elems clean_nonempty
path_join elems = clean_nonempty (join_elems [] elems)
