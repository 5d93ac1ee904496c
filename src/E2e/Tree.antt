-- ===== src/E2e/Tree.antt =====
-- The folder trees of the stub provider (cmd/atrium-e2e/fixtures.go and stubprovider.go). A pointer into
-- a tree is the path that leads to it, so that a change at a pointer is a change along that path.
use atrium_core.Base.{
  ℕ, suc, Bool, true, false, not, ◌&&◌, Option, none, some, List, [], ◌∷◌, Text, ◌==◌,
  if◌then◌else◌, is_empty, ℤ, pos, eqb,
}
use atrium_core.Strings.{split}
use atrium_core.Provider.{FolderEntry}

-- node
mutual
  pub data Node : Type 0 where
    node : FolderEntry → Text → Nodes → Node

  pub data Nodes : Type 0 where
    nil : Nodes
    cons : Node → Nodes → Nodes

abbrev pub entry : Node → FolderEntry
entry (node e content children) = e

abbrev pub content_of_node : Node → Text
content_of_node (node e content children) = content

abbrev pub children : Node → Nodes
children (node e content cs) = cs

unfoldable pub count : Nodes → ℕ
count nil = 0
count (cons c cs) = suc (count cs)

-- The first child of a name.
unfoldable pub child : Text → Nodes → Option Node
child name nil = none
child name (cons c cs) = elim ((entry c).name == name) [ true ↦ some c | false ↦ child name cs ]

-- The walk of resolve below a node, and whether it has left the root.
unfoldable pub walk : Bool → List Text → Node → Option (Node × Bool)
walk moved [] n = some (n, moved && not (entry n).is_folder)
walk moved (seg ∷ segs) n = elim (is_empty seg) [
  | true ↦ walk moved segs n
  | false ↦ elim (child seg (children n)) [ none ↦ none | some c ↦ walk true segs c ]
]

-- resolve
unfoldable pub resolve : Option Node → Text → Option (Node × Bool)
resolve none path = none
resolve (some root) path = walk false (split b'/' path) root

-- findByID
unfoldable mutual
  pub find_below : Text → Nodes → Option Node
  find_below id nil = none
  find_below id (cons c cs) = elim ((entry c).id == id) [
    | true ↦ some c
    | false ↦ elim (find_inside id c) [ some n ↦ some n | none ↦ find_below id cs ]
  ]

  pub find_inside : Text → Node → Option Node
  find_inside id (node e content cs) = elim e.is_folder [ true ↦ find_below id cs | false ↦ none ]

unfoldable pub find_by_id : Option Node → Text → Option Node
find_by_id none id = none
find_by_id (some n) id = find_below id (children n)

-- append(folder.children, n)
unfoldable pub snoc : Nodes → Node → Nodes
snoc nil n = cons n nil
snoc (cons c cs) n = cons c (snoc cs n)

abbrev pub with_child : Node → Node → Node
with_child n (node e content cs) = node e content (snoc cs n)

-- The first child of a name, replaced.
unfoldable pub replace_child : Text → Node → Nodes → Nodes
replace_child name n nil = nil
replace_child name n (cons c cs) = elim ((entry c).name == name) [
  | true ↦ cons n cs
  | false ↦ cons c (replace_child name n cs)
]

-- The tree after the node at the end of a walk has been replaced by what `f` makes of it.
unfoldable pub update : List Text → (Node → Node) → Node → Node
update [] f n = f n
update (seg ∷ segs) f (node e content cs) = elim (is_empty seg) [
  | true ↦ update segs f (node e content cs)
  | false ↦ elim (child seg cs) [
    | none ↦ node e content cs
    | some c ↦ node e content (replace_child seg (update segs f c) cs)
  ]
]

-- filterByMode: mode 1 shows the recipient's own entries, mode 3 none, any other mode all.
abbrev pub is_shown : ℤ → FolderEntry → Bool
is_shown (pos n) e = if eqb n 3 then false else if eqb n 1 then e.is_own else true
is_shown mode e = true

unfoldable pub filter_by_mode : ℤ → Nodes → List FolderEntry
filter_by_mode mode nil = []
filter_by_mode mode (cons c cs) = elim (is_shown mode (entry c)) [
  | true ↦ entry c ∷ filter_by_mode mode cs
  | false ↦ filter_by_mode mode cs
]
