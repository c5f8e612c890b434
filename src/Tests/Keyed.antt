-- ===== src/Tests/Keyed.antt =====
-- A concrete search tree and a concrete hash table.
use c_data_structures.Prelude.{
  ℕ, zero, suc, ◌%◌, ◌≡◌, ◌↔◌, refl, true, false, ◌==◌, ltb, eq_of_some, none, some, List, [], ◌∷◌,
  get_elem?, arith, if◌then◌else◌, length,
}
use c_data_structures.Prelude.Int.{ℤ, pos, negsuc, success, failure, is_zero}
use c_data_structures.Prelude.Run.{ok, fault}
use mathlib.Core.List.{Perm}
use mathlib.Core.Path.{subst}
use c_data_structures.Buffer.{size_mod}
use c_data_structures.BinaryTree.{
  Tree, leaf, node, insert_node, search_node, remove_node, inorder, preorder, postorder, size_node,
}
use c_data_structures.BinaryTree.Order.{IsOrder, IsSearchTree}
use c_data_structures.BinaryTree.Search.{search-insert}
use c_data_structures.BinaryTree.Remove.{search-remove}
use c_data_structures.BinaryTree.Traverse.{IsSorted, inorder-IsSorted, traversals_agree}
use c_data_structures.HashTable.{
  HashTable, Chain, Release, ht_insert, ht_search, ht_remove, find, index, copy_value,
}
use c_data_structures.HashTable.Chains.{IsKey, Distinct}
use c_data_structures.HashTable.Map.{IsTable}
use c_data_structures.HashTable.Update.{ht_insert-search, ht_insert-lost, ht_remove-search}

-- The order of the numbers, as a comparison that returns an `int`.
abbrev compare_numbers : ℕ → ℕ → ℤ
compare_numbers a b = if a == b then pos 0 else if ltb a b then negsuc 0 else pos 1

compare_numbers-IsOrder : IsOrder compare_numbers
compare_numbers-IsOrder = record {
  self = λ x. ground arith;
  flip = λ x y e. ground arith;
  flip_back = λ x y e e'. ground arith;
  trans = λ x y z e e'. ground arith;
  same = λ x y z e. (ground arith, ground arith);
}

abbrev tree : Tree ℕ
tree = node (node leaf 1 leaf) 3 (node leaf 5 leaf)

tree-IsSearchTree : IsSearchTree compare_numbers tree
tree-IsSearchTree = ((tt, refl, tt), (tt, refl, tt), (tt, tt, tt, tt), (tt, tt, tt, tt))

search-insert_example :
    search_node compare_numbers 4 (insert_node compare_numbers true true 4 tree).1
    ≡ (success, some 4)
unfolding search_node
search-insert_example = search-insert compare_numbers compare_numbers-IsOrder 4 4 tree

search-remove_example :
    search_node compare_numbers 5 (remove_node compare_numbers 3 tree).1 ≡ (success, some 5)
unfolding search_node
search-remove_example =
    search-remove compare_numbers compare_numbers-IsOrder 5 3 tree tree-IsSearchTree

inorder-IsSorted_example : IsSorted compare_numbers (inorder tree)
inorder-IsSorted_example =
    inorder-IsSorted compare_numbers compare_numbers-IsOrder tree tree-IsSearchTree

traversals_agree_example :
    Perm (preorder tree) (inorder tree)
    × Perm (postorder tree) (inorder tree)
    × (size_node tree ≡ length (inorder tree) % size_mod)
traversals_agree_example = traversals_agree tree

-- Two buckets; equality returns 0 for equal keys.
abbrev equal_numbers : ℕ → ℕ → ℤ
equal_numbers a b = if a == b then pos 0 else pos 1

abbrev parity : ℕ → ℕ
parity a = a % 2

abbrev table : HashTable ℕ ℕ
table = record {
  buckets = (record { key = 2; value = some 20 } ∷ []) ∷ [] ∷ [];
  num_buckets = 2;
  size = 1;
  hash = parity;
  key_eq = equal_numbers;
  key_destroy = false;
  value_destroy = false;
}

numbers-IsKey : IsKey parity equal_numbers
numbers-IsKey = record {
  self = λ a. ground arith;
  left = λ a b c e. ground arith;
  right = λ a b c e. ground arith;
  same_hash = λ a b e. ground arith;
}

table-Distinct :
    (i : ℕ) (c : Chain ℕ ℕ) → get_elem? table.buckets i ≡ some c → Distinct numbers-IsKey c
unfolding find
table-Distinct zero c e = subst (Distinct numbers-IsKey) (eq_of_some e) (refl, tt)
table-Distinct (suc zero) c e = subst (Distinct numbers-IsKey) (eq_of_some e) tt
table-Distinct (suc (suc i)) c e = absurd (ground arith)

table-IsTable : IsTable table
table-IsTable = record {
  key = numbers-IsKey;
  positive = omega arith;
  all_buckets = refl;
  distinct = table-Distinct;
  count = refl;
  bounded = omega arith;
}

ht_insert-search_example :
    (t : HashTable ℕ ℕ) × (given : List (Release ℕ ℕ)) × (ht_insert true true true
        (some table)
        (some 3)
        (some 30)
      ≡ ok (success, given, some t))
    × IsTable t
    × ((q : ℕ)
        → ht_search true (some t) (some q) ≡ (
            if is_zero (equal_numbers 3 q)
            then ok (success, some 30)
            else ht_search true (some table) (some q)))
ht_insert-search_example = ht_insert-search table-IsTable 3 30 (omega arith)

ht_insert-lost_example :
    (t : HashTable ℕ ℕ) × (given : List (Release ℕ ℕ)) × (ht_insert true true false
        (some table)
        (some 2)
        (some 21)
      ≡ ok (failure, given, some t))
    × ((q : ℕ)
        → ht_search true (some t) (some q)
          ≡ (if is_zero (equal_numbers 2 q) then fault else ht_search true (some table) (some q)))
unfolding ht_search find index copy_value
ht_insert-lost_example = ht_insert-lost table-IsTable 2 21 20 true true refl

ht_remove-search_example :
    (t : HashTable ℕ ℕ) × (given : List (Release ℕ ℕ)) × (ret : ℤ) × (ht_remove
        (some table)
        (some 2)
      ≡ ok (ret, given, some t))
    × ((ret ≡ failure) ↔ (ht_search true (some table) (some 2) ≡ ok (failure, none)))
    × IsTable t
    × ((q : ℕ)
        → ht_search true (some t) (some q) ≡ (
            if is_zero (equal_numbers 2 q)
            then ok (failure, none)
            else ht_search true (some table) (some q)))
ht_remove-search_example = ht_remove-search table-IsTable 2
