-- ===== src/Security/Tree.antt =====
-- The syntax trees of Python's `ast` module, as far as the guard reads them: the nodes that it
-- inspects, and every other node with its children. `keyword` is the node of one keyword argument.
pub mod Walk
use wizard_w.Prelude.{ℕ, suc, zero, ◌+◌, Bool, true, false, ◌&&◌, List, [], ◌∷◌, ◌++◌, Option}
use wizard_w.Prelude.Text.{Text}

mutual
  pub data Node : Type 0 where
    imports : List Text → Node
    import_from : Option Text → ℕ → Node
    attribute : Node → Text → Node
    name : Text → Node
    call : Node → Nodes → Nodes → Node
    keyword : Option Text → Node → Node
    text : Text → Node
    constant : Node
    other : Nodes → Node

  pub data Nodes : Type 0 where
    nil : Nodes
    cons : Node → Nodes → Nodes

unfoldable pub to_list : Nodes → List Node
to_list nil = []
to_list (cons n ns) = n ∷ to_list ns

-- `ast.iter_child_nodes`, in the order of the fields
unfoldable pub children : Node → List Node
unfolding to_list
children (attribute value attr) = value ∷ []
children (call func args keywords) = func ∷ (to_list args ++ to_list keywords)
children (keyword arg value) = value ∷ []
children (other ns) = to_list ns
children (imports names) = []
children (import_from module_name level) = []
children (name id) = []
children (text value) = []
children constant = []

unfoldable mutual
  pub size : Node → ℕ
  size (attribute value attr) = suc (size value)
  size (call func args keywords) = suc (size func + size_all args + size_all keywords)
  size (keyword arg value) = suc (size value)
  size (other ns) = suc (size_all ns)
  size (imports names) = 1
  size (import_from module_name level) = 1
  size (name id) = 1
  size (text value) = 1
  size constant = 1

  pub size_all : Nodes → ℕ
  size_all nil = 0
  size_all (cons n ns) = size n + size_all ns

-- The loop of `ast.walk` over its queue, breadth first.
unfoldable pub walk_queue : ℕ → List Node → List Node
unfolding children
walk_queue zero queue = []
walk_queue (suc fuel) [] = []
walk_queue (suc fuel) (node ∷ queue) = node ∷ walk_queue fuel (queue ++ children node)

-- `ast.walk`: a tree has as many nodes as its size says.
unfoldable pub walk : Node → List Node
unfolding walk_queue size
walk tree = walk_queue (size tree) (tree ∷ [])

-- Whether a test holds at a node and at everything below it.
unfoldable mutual
  pub everywhere : (Node → Bool) → Node → Bool
  everywhere p (attribute value attr) = p (attribute value attr) && everywhere p value
  everywhere p (call func args keywords) =
      p (call func args keywords) && everywhere p func && each p args && each p keywords
  everywhere p (keyword arg value) = p (keyword arg value) && everywhere p value
  everywhere p (other ns) = p (other ns) && each p ns
  everywhere p (imports names) = p (imports names)
  everywhere p (import_from module_name level) = p (import_from module_name level)
  everywhere p (name id) = p (name id)
  everywhere p (text value) = p (text value)
  everywhere p constant = p constant

  pub each : (Node → Bool) → Nodes → Bool
  each p nil = true
  each p (cons n ns) = everywhere p n && each p ns
