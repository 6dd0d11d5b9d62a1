-- ===== src/ProcessTree/Print.antt =====
-- `printProcessTree` of homework/hw4/4-2/getTree.c and `main`.
use linux_programming.Base.{
  ℕ, zero, suc, ◌+◌, ◌*◌, List, [], ◌∷◌, ◌++◌, concat, Option, none, some, ◌>>=◌, length, replicate,
}
use linux_programming.Cstr.{Bytes, codes}
use linux_programming.Cstr.Numbers.{decimal}
use linux_programming.ProcessTree.{Node, Links, new_root, Entry, build_process_tree}

-- `printf` of a node, behind the spaces that are printed `count` times.
unfoldable pub print_node : ℕ → Node → Bytes
unfolding decimal
print_node count n =
    concat (replicate count (codes "    "))
    ++ codes "PID: "
    ++ decimal n.pid
    ++ codes ", PPID: "
    ++ (elim n.ppid [ none ↦ codes "-1" | some p ↦ decimal p ])
    ++ codes ", Command: "
    ++ n.command
    ++ codes "\n"

-- A line that is printed, as the count of its indentation and the pointer to its node.
abbrev pub Line : Type 0
Line = ℕ × ℕ

-- The inner `while`, on fuel, which is out with `none`; so is a parent that is not set.
unfoldable pub print_siblings : ℕ → Links → ℕ → Option ℕ → Option (List Line)
print_siblings zero t count sibs = none
print_siblings (suc fuel) t count none = some []
print_siblings (suc fuel) t count (some i) = elim (t.sibling i) [
  | some j ↦ print_siblings fuel t count (some j) >>= λ more. some ((count, i) ∷ more)
  | none ↦ elim (t.parent i) [
    | none ↦ none
    | some p ↦ elim (t.sibling p) [
      | none ↦ some ((count, i) ∷ [])
      | some q ↦ print_siblings fuel t count (t.child q) >>= λ more. some ((count, i) ∷ more)
    ]
  ]
]

-- The outer `while`; each round of it runs the inner one with the fuel `width`.
unfoldable pub print_layers : ℕ → ℕ → Links → ℕ → Option ℕ → Option (List Line)
unfolding print_siblings
print_layers zero width t count cur = none
print_layers (suc fuel) width t count none = some []
print_layers (suc fuel) width t count (some i) =
    print_siblings width t count (t.sibling i) >>= λ row.
    print_layers fuel width t (count + 1) (t.child i) >>= λ more. some ((0, i) ∷ (row ++ more))

-- The fuel of the two loops for `n` nodes.
abbrev pub depth_fuel : ℕ → ℕ
depth_fuel n = suc (suc n)

abbrev pub width_fuel : ℕ → ℕ
width_fuel n = suc (suc (n * suc n + n))

unfoldable pub print_process_tree : ℕ → Links → Option ℕ → Option (List Line)
unfolding print_layers
print_process_tree n t node = print_layers (depth_fuel n) (width_fuel n) t 0 node

abbrev pub node_at : List Node → ℕ → Option Node
node_at [] i = none
node_at (n ∷ ns) zero = some n
node_at (n ∷ ns) (suc i) = node_at ns i

abbrev pub text_of : List Node → List Line → Bytes
text_of nodes [] = []
text_of nodes ((count, i) ∷ ls) =
    (elim (node_at nodes i) [ none ↦ [] | some n ↦ print_node count n ]) ++ text_of nodes ls

-- `root` is the first node that was read, which stands behind the new root of `sortNode`.
abbrev pub root_of : List Node → Option ℕ
root_of [] = none
root_of (n ∷ ns) = some 1

unfoldable pub main : List Entry → Option Bytes
unfolding build_process_tree print_process_tree
main entries = build_process_tree entries >>= λ built. elim (root_of built.0) [
  | none ↦ some []
  | some node ↦ print_process_tree (suc (length built.0)) built.1 (some node) >>= λ ls.
      some (codes "Process Tree:\n" ++ text_of (new_root ∷ built.0) ls)
]
