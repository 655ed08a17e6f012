-- ===== src/Avl.antt =====
-- final_report/avl_alloc.c, the AVL tree of page references ordered by page address. A tree of nodes
-- that no other tree shares is a value; `addr` is the address of a node and `key` the page address
-- `PR_PAGEADDR(nd->pr)`, with 0 for a missing page.
mod Compare
pub mod Keys
pub mod Order
pub mod Balance
pub mod Insert
pub mod Remove
pub mod Delete
pub mod Refine
pub mod Find
mod Tests
use Prim.Native.Nat.{compare}
use Prim.Native.Nat.Ordering.{lt, eq, gt}
use parallel_memory_allocato.Base.{
  ℕ, ◌+◌, List, [], ◌∷◌, ◌&&◌, ◌||◌, Outcome, ok, stop, Stop, ◌>>=◌, ltb, leb, ◌==◌, if◌then◌else◌,
}
use parallel_memory_allocato.Base.Int.{ℤ, pos, negsuc, ◌+ℤ◌, ◌-ℤ◌, ltb_ℤ, eqb_ℤ}

-- `struct node`: left, addr, key, height, right. `leaf` is NULL.
pub data Tree : Type 0 where
  leaf : Tree
  node : Tree → ℕ → ℕ → ℤ → Tree → Tree

unfoldable pub max : ℤ → ℤ → ℤ
max a b = if ltb_ℤ b a then a else b

unfoldable pub get_height : Tree → ℤ
get_height leaf = negsuc 0
get_height (node l i k h r) = h

-- A node whose height is computed from its subtrees.
unfoldable pub with_height : Tree → ℕ → ℕ → Tree → Tree
with_height l i k r = node l i k (max (get_height l) (get_height r) +ℤ pos 1) r

-- The rotations read through the child that moves up.
unfoldable pub rotate_left : Tree → Outcome Tree
rotate_left (node l i k h (node rl ri rk rh rr)) = ok (with_height (with_height l i k rl) ri rk rr)
rotate_left (node l i k h leaf) = stop Stop.null_read
rotate_left leaf = stop Stop.null_read

unfoldable pub rotate_right : Tree → Outcome Tree
rotate_right (node (node ll li lk lh lr) i k h r) = ok (with_height ll li lk (with_height lr i k r))
rotate_right (node leaf i k h r) = stop Stop.null_read
rotate_right leaf = stop Stop.null_read

-- `PR_PAGEADDR(nd->pr)`, `nd->height`, `nd->left` and `nd->right`.
unfoldable pub key : Tree → Outcome ℕ
key leaf = stop Stop.null_read
key (node l i k h r) = ok k

unfoldable pub height : Tree → Outcome ℤ
height leaf = stop Stop.null_read
height (node l i k h r) = ok h

unfoldable pub left : Tree → Outcome Tree
left leaf = stop Stop.null_read
left (node l i k h r) = ok l

unfoldable pub right : Tree → Outcome Tree
right leaf = stop Stop.null_read
right (node l i k h r) = ok r

-- The rebalancing of `insert` where the right subtree is too high: a double rotation if the new
-- address went to the left of it.
unfoldable pub insert_fix_right : ℕ → Tree → ℕ → ℕ → ℤ → Tree → Outcome Tree
insert_fix_right q l i k h r = do
  rk ← key r
  r' ← if ltb q rk then rotate_right r else ok r
  rotate_left (node l i k h r')

unfoldable pub insert_fix_left : ℕ → Tree → ℕ → ℕ → ℤ → Tree → Outcome Tree
insert_fix_left q l i k h r = do
  lk ← key l
  l' ← if ltb lk q then rotate_left l else ok l
  rotate_right (node l' i k h r)

-- The end of `insert`, for the new address `q`: the height and the rebalancing of the root.
unfoldable pub insert_rebalance : ℕ → Tree → ℕ → ℕ → Tree → Outcome Tree
insert_rebalance q l i k r =
    let h = max (get_height l) (get_height r) +ℤ pos 1 in
    let diff = get_height l -ℤ get_height r in
    if ltb_ℤ diff (negsuc 1) || ltb_ℤ (pos 2) diff
    then stop Stop.exit_failure
    else if eqb_ℤ diff (negsuc 1)
    then insert_fix_right q l i k h r
    else if eqb_ℤ diff (pos 2)
    then insert_fix_left q l i k h r
    else ok (node l i k h r)

-- `insert` of a node that passed the tests, `q` its page address.
unfoldable pub insert_node : Tree → ℕ → Tree → Outcome Tree
insert_node leaf q nd = ok nd
insert_node (node l i k h r) q nd = elim (compare q k) [
  | lt ↦ insert_node l q nd >>= λ l'. insert_rebalance q l' i k r
  | eq ↦ stop Stop.exit_failure
  | gt ↦ insert_node r q nd >>= λ r'. insert_rebalance q l i k r'
]

-- `insert`. The tests of `nd` at its head are the same in each recursive call.
unfoldable pub insert : Tree → Tree → Outcome Tree
insert root leaf = stop Stop.exit_failure
insert root (node l i k h r) =
    if k == 0
    then stop Stop.exit_failure
    else if eqb_ℤ h (negsuc 0)
    then ok leaf
    else insert_node root k (node l i k h r)

unfoldable pub find_min_node : Tree → Tree
find_min_node leaf = leaf
find_min_node (node leaf i k h r) = node leaf i k h r
find_min_node (node (node ll li lk lh lr) i k h r) = find_min_node (node ll li lk lh lr)

unfoldable pub delete_fix_right : Tree → ℕ → ℕ → ℤ → Tree → Outcome Tree
delete_fix_right l i k h r = do
  rl ← left r
  rr ← right r
  r' ← if ltb_ℤ (get_height rr) (get_height rl) then rotate_right r else ok r
  rotate_left (node l i k h r')

unfoldable pub delete_fix_left : Tree → ℕ → ℕ → ℤ → Tree → Outcome Tree
delete_fix_left l i k h r = do
  ll ← left l
  lr ← right l
  l' ← if ltb_ℤ (get_height ll) (get_height lr) then rotate_left l else ok l
  rotate_right (node l' i k h r)

-- The end of `delete`. An imbalance beyond 2 is printed, and the tree stays as it is.
unfoldable pub delete_rebalance : Tree → ℕ → ℕ → Tree → Outcome Tree
delete_rebalance l i k r =
    let h = max (get_height l) (get_height r) +ℤ pos 1 in
    let diff = get_height l -ℤ get_height r in
    if eqb_ℤ diff (negsuc 1)
    then delete_fix_right l i k h r
    else if eqb_ℤ diff (pos 2)
    then delete_fix_left l i k h r
    else ok (node l i k h r)

-- A subtree with the nodes that `freenode` was called on, in order.
abbrev pub Deleted : Type 0
Deleted = Tree × List ℕ

-- What every branch of `delete` but the removal of a node without children ends with.
unfoldable pub delete_end : Tree → ℕ → ℕ → Tree → List ℕ → Outcome Deleted
delete_end l i k r freed = delete_rebalance l i k r >>= λ t. ok (t, freed)

-- The removal of the root's address, for each number of children. `copy_node` moves the fields of
-- the only child into the root, and the child is freed. A root with two children takes the
-- least address of its right subtree, whose node `delete_right` deletes there.
unfoldable pub delete_root : Tree → ℕ → Tree → (ℕ → ℤ → Outcome Deleted) → Outcome Deleted
delete_root leaf i leaf delete_right = ok (leaf, i ∷ [])
delete_root leaf i (node rl ri rk rh rr) delete_right = delete_end rl i rk rr (ri ∷ [])
delete_root (node ll li lk lh lr) i leaf delete_right = delete_end ll i lk lr (li ∷ [])
delete_root (node ll li lk lh lr) i (node rl ri rk rh rr) delete_right = do
  let junk = find_min_node (node rl ri rk rh rr)
  q ← key junk
  hq ← height junk
  (r', freed) ← delete_right q hq
  delete_end (node ll li lk lh lr) i q r' freed

-- `delete` of the node with address `q`, where 0 is NULL, and height `hq`. The two tests stand at the
-- head of every call.
unfoldable pub delete_node : Tree → ℕ → ℤ → Outcome Deleted
delete_node leaf q hq =
    if q == 0
    then stop Stop.exit_failure
    else if eqb_ℤ hq (negsuc 0)
    then stop Stop.exit_failure
    else ok (leaf, [])
delete_node (node l i k h r) q hq =
    if q == 0
    then stop Stop.exit_failure
    else if eqb_ℤ hq (negsuc 0)
    then stop Stop.exit_failure
    else elim (compare q k) [
      | lt ↦ delete_node l q hq >>= λ d. delete_end d.0 i k r d.1
      | gt ↦ delete_node r q hq >>= λ d. delete_end l i k d.0 d.1
      | eq ↦ delete_root l i r (λ (q' : ℕ) (hq' : ℤ). delete_node r q' hq')
    ]

-- `delete` of the node `nd`.
unfoldable pub delete : Tree → Tree → Outcome Deleted
delete root leaf = stop Stop.exit_failure
delete root (node l i k h r) = delete_node root k h

-- PAGE_SIZE
abbrev pub page_size : ℕ
page_size = 4096

-- `find_node`; `leaf` is NULL. The three tests leave no fourth case.
unfoldable pub find_node : Tree → ℕ → Tree
find_node leaf p = leaf
find_node (node l i k h r) p =
    let below = find_node l p in
    let above = find_node r p in
    if leb k p && ltb p (k + page_size) then node l i k h r else if ltb p k then below else above
