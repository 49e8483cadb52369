-- ===== src/Tests/Sets.antt =====
-- Sets of numbers, ordered by their difference.
use just_library.Base.{◌+◌, ◌≤◌, ℕ, ◌≡◌, false, refl, true, arith}
use just_library.Base.Int.{sub_ℕ}
use just_library.OrderedSet.{Tree, leaf, node, inorder, insert_recursive, remove_recursive}
use just_library.OrderedSet.{height, max_int}
use just_library.OrderedSet.Balance.{IsBalanced}
use just_library.OrderedSet.Shrink.{Shrunk, remove_recursive-Shrunk}
use just_library.OrderedSet.Grow.{insert_recursive-IsBalanced}
use just_library.OrderedSet.Spec.{IsOrder, IsSorted, list_insert, list_remove}
use just_library.OrderedSet.Insert.{insert_recursive-refused, inorder-insert_recursive}
use just_library.OrderedSet.Remove.{inorder-remove_recursive}

sub_ℕ-IsOrder : IsOrder sub_ℕ
sub_ℕ-IsOrder = record {
  order_refl = λ a. ground arith;
  less_of_more = λ a b h. ground arith;
  more_of_less = λ a b h. ground arith;
  less_trans = λ a b c h k. ground arith;
  same_left = λ a b c h. ground arith;
}

abbrev three : Tree ℕ
three = node (node leaf 10 1 leaf) 20 2 (node leaf 30 1 leaf)

three-IsSorted : IsSorted sub_ℕ (inorder three)
unfolding inorder
three-IsSorted = ((refl, (refl, tt)), ((refl, tt), (tt, tt)))

inorder-insert_recursive_example :
    (inorder (insert_recursive sub_ℕ true three 15).0, (insert_recursive sub_ℕ true three 15).1)
    ≡ list_insert sub_ℕ 15 (inorder three)
inorder-insert_recursive_example = inorder-insert_recursive sub_ℕ-IsOrder three 15 three-IsSorted

inorder-remove_recursive_example :
    (inorder (remove_recursive sub_ℕ three 20).0, (remove_recursive sub_ℕ three 20).1)
    ≡ list_remove sub_ℕ 20 (inorder three)
inorder-remove_recursive_example = inorder-remove_recursive sub_ℕ-IsOrder three 20 three-IsSorted

insert_recursive-refused_example :
    (inorder (insert_recursive sub_ℕ false three 15).0 ≡ inorder three)
    × ((insert_recursive sub_ℕ false three 15).1 ≡ (list_insert sub_ℕ 15 (inorder three)).1)
insert_recursive-refused_example = insert_recursive-refused sub_ℕ-IsOrder three 15 three-IsSorted

three-IsBalanced : IsBalanced three
unfolding max_int
three-IsBalanced = (
  (tt, tt, refl, omega arith, omega arith),
  (tt, tt, refl, omega arith, omega arith),
  refl,
  omega arith,
  omega arith,
)

remove_recursive-Shrunk_example : Shrunk three (remove_recursive sub_ℕ three 20).0
remove_recursive-Shrunk_example = remove_recursive-Shrunk sub_ℕ three 20 three-IsBalanced

insert_recursive-IsBalanced_example :
    IsBalanced (insert_recursive sub_ℕ true three 15).0
    × (height three ≤ height (insert_recursive sub_ℕ true three 15).0)
    × (height (insert_recursive sub_ℕ true three 15).0 ≤ height three + 1)
insert_recursive-IsBalanced_example =
    insert_recursive-IsBalanced sub_ℕ 15 true three three-IsBalanced
