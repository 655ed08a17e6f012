-- ===== src/Avl/Tests.antt =====
-- Runs of the tree on small inputs, and its theorems at them.
use parallel_memory_allocato.Base.{◌+◌, ◌≤◌, ◌≡◌, refl, [], ◌∷◌, arith, ok, ◌>>=◌, Returns}
use parallel_memory_allocato.Base.Int.{pos, ◌-ℤ◌}
use parallel_memory_allocato.Avl.{
  Tree, leaf, node, insert, delete, find_node, insert_node, insert_rebalance, insert_fix_right,
  insert_fix_left, rotate_left, rotate_right, with_height, max, get_height, key, delete_node,
  delete_root, delete_end, delete_rebalance, find_min_node, height,
}
use parallel_memory_allocato.Avl.Keys.{keys, insert_key, delete_key}
use parallel_memory_allocato.Avl.Balance.{level}
use parallel_memory_allocato.Avl.Insert.{single}
use parallel_memory_allocato.Avl.Refine.{IsAvl, insert_refines, delete_refines}
use parallel_memory_allocato.Avl.Find.{Found, IsSpaced, find_node-Found}

-- The pages 4096, 8192 and 12288, inserted in ascending order: the second insertion makes the root
-- too high on the right, and one rotation restores it.
abbrev three : Tree
three = node (node leaf 1 4096 (pos 0) leaf) 2 8192 (pos 1) (node leaf 3 12288 (pos 0) leaf)

insert_rotates :
    (insert leaf (single 1 4096) >>= λ t.
    insert t (single 2 8192) >>= λ t. insert t (single 3 12288))
    ≡ ok three
unfolding insert insert_node insert_rebalance insert_fix_right insert_fix_left rotate_left
    rotate_right with_height max get_height key ◌-ℤ◌
insert_rotates = refl

delete_root_takes_next :
    delete three (node leaf 2 8192 (pos 1) leaf)
    ≡ ok (node (node leaf 1 4096 (pos 0) leaf) 2 12288 (pos 1) leaf, 3 ∷ [])
unfolding delete delete_node delete_root delete_end delete_rebalance find_min_node key height max
    get_height ◌-ℤ◌
delete_root_takes_next = refl

three-IsAvl : IsAvl three
unfolding level keys
three-IsAvl = ground arith

insert_refines_example :
    Returns
      (λ t'.
        IsAvl t'
        × (keys t' ≡ insert_key 16384 (keys three))
        × (level three ≤ level t')
        × (level t' ≤ level three + 1))
      (insert three (single 4 16384))
insert_refines_example =
    insert_refines three 16384 4 three-IsAvl (omega arith) (unfold keys in refl)

delete_refines_example :
    Returns
      (λ d.
        IsAvl d.0
        × (keys d.0 ≡ delete_key 8192 (keys three))
        × (level d.0 ≤ level three)
        × (level three ≤ level d.0 + 1))
      (delete three (node leaf 2 8192 (pos 1) leaf))
delete_refines_example =
    delete_refines three leaf 2 8192 (pos 1) leaf three-IsAvl (unfold keys in refl) (omega arith)
      refl

three-IsSpaced : IsSpaced (keys three)
unfolding keys
three-IsSpaced = ground arith

find_node-Found_example : Found 9000 (keys three) (find_node three 9000)
find_node-Found_example = find_node-Found three 9000 three-IsSpaced
