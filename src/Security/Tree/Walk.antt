-- ===== src/Security/Tree/Walk.antt =====
-- `walk` visits the whole tree.
use wizard_w.Prelude.{
  ℕ, suc, zero, ◌≡◌, ◌≤◌, refl, Bool, ◌&&◌, List, [], ◌∷◌, ◌++◌, arith, all, sum_by, sum_by-append,
}
use wizard_w.Security.Tree.{
  Node, Nodes, call, other, nil, cons, to_list, children, size, size_all, walk_queue, walk,
  everywhere, each,
}

pub all-append {ℓ} :
    {A : Type ℓ} (q : A → Bool) (xs ys : List A) → all q (xs ++ ys) ≡ (all q xs && all q ys)
all-append q [] ys = refl
all-append q (x ∷ xs) ys = ground (arith, all-append q xs ys)

each-to_list : (p : Node → Bool) (ns : Nodes) → each p ns ≡ all (everywhere p) (to_list ns)
unfolding each to_list
each-to_list p nil = refl
each-to_list p (cons n ns) = ground (arith, each-to_list p ns)

size-to_list : (ns : Nodes) → size_all ns ≡ sum_by size (to_list ns)
unfolding size_all to_list
size-to_list nil = refl
size-to_list (cons n ns) = omega (arith, size-to_list ns)

everywhere_lem :
    (p : Node → Bool) (n : Node) → everywhere p n ≡ (p n && all (everywhere p) (children n))
unfolding everywhere children
everywhere_lem p (call func args keywords) = ground (
  arith,
  each-to_list p args,
  each-to_list p keywords,
  all-append (everywhere p) (to_list args) (to_list keywords),
)
everywhere_lem p (other ns) = ground (arith, each-to_list p ns)
everywhere_lem p n = ground arith

size_lem : (n : Node) → size n ≡ suc (sum_by size (children n))
unfolding size children
size_lem (call func args keywords) = omega (
  arith,
  size-to_list args,
  size-to_list keywords,
  sum_by-append size (to_list args) (to_list keywords),
)
size_lem (other ns) = omega (arith, size-to_list ns)
size_lem n = ground arith

walk_queue-all :
    (p : Node → Bool) (fuel : ℕ) (queue : List Node)
    → sum_by size queue ≤ fuel
    → all p (walk_queue fuel queue) ≡ all (everywhere p) queue
unfolding walk_queue
walk_queue-all p zero [] h = refl
walk_queue-all p zero (n ∷ queue) h = absurd (omega (arith, size_lem n))
walk_queue-all p (suc fuel) [] h = refl
walk_queue-all p (suc fuel) (n ∷ queue) h = ground (
  arith,
  everywhere_lem p n,
  all-append (everywhere p) queue (children n),
  walk_queue-all p fuel (queue ++ children n)
      (omega (arith, size_lem n, sum_by-append size queue (children n))),
)

-- Every node of a walk passes a test exactly where the test holds at each node of the tree.
pub walk-all : (p : Node → Bool) (tree : Node) → all p (walk tree) ≡ everywhere p tree
unfolding walk
walk-all p tree = ground (arith, walk_queue-all p (size tree) (tree ∷ []) (omega arith))
