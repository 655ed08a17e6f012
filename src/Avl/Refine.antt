-- ===== src/Avl/Refine.antt =====
-- The tree as an ascending list of page addresses.
use parallel_memory_allocato.Base.{
  ℕ, ◌+◌, ◌≤◌, ◌≡◌, ◌≢◌, refl, false, [], ◌∷◌, has, has-append, arith, Returns, Allows,
  Returns-Allows, ◌==◌,
}
use parallel_memory_allocato.Base.Int.{ℤ, negsuc, eqb_ℤ}
use parallel_memory_allocato.Avl.{Tree, leaf, node, insert, delete, delete_node}
use parallel_memory_allocato.Avl.Keys.{
  keys, IsAscending, insert_key, delete_key, insert_key-IsAscending, delete_key-IsAscending,
}
use parallel_memory_allocato.Avl.Balance.{level, IsBalanced}
use parallel_memory_allocato.Avl.Insert.{single, insert-IsBalanced}
use parallel_memory_allocato.Avl.Order.{insert_node-keys}
use parallel_memory_allocato.Avl.Delete.{HasPages, delete_node-Shrunk}
use parallel_memory_allocato.Avl.Remove.{delete_node-keys}

-- A search tree in balance.
pub record IsAvl (t : Tree) : Type 0 where
  pub balanced : IsBalanced t
  pub ascending : IsAscending (keys t)

insert-single-keys :
    (t : Tree) (q i : ℕ)
    → q ≢ 0
    → IsAscending (keys t)
    → Allows (λ t'. keys t' ≡ insert_key q (keys t)) (insert t (single i q))
unfolding insert
insert-single-keys t q i ne a =
    let nonzero : (q == 0) ≡ false = ground arith in
    rw nonzero (insert_node-keys t q (single i q) keys-single a)
  where
    keys-single : keys (single i q) ≡ q ∷ []
    keys-single = unfold keys in refl

-- Insertion of a fresh node, with an address that is not 0 and not in the tree, into an AVL tree
-- returns an AVL tree of the same level or one more, whose addresses from left to right are the old
-- ones with the new one in its place.
pub insert_refines :
    (t : Tree) (q i : ℕ)
    → IsAvl t
    → q ≢ 0
    → has q (keys t) ≡ false
    → Returns
        (λ t'.
          IsAvl t'
          × (keys t' ≡ insert_key q (keys t))
          × (level t ≤ level t')
          × (level t' ≤ level t + 1))
        (insert t (single i q))
insert_refines t q i v ne fresh =
    Returns-Allows _ _ _ (insert t (single i q)) (insert-IsBalanced t q i v.balanced ne fresh)
      (insert-single-keys t q i ne v.ascending)
      λ t' (b, lo, hi) e. (
        record {
          balanced = b;
          ascending = rw e (insert_key-IsAscending q (keys t) fresh v.ascending);
        },
        e,
        lo,
        hi,
      )

keys-HasPages : (t : Tree) → has 0 (keys t) ≡ false → HasPages t
unfolding keys
keys-HasPages leaf paged = tt
keys-HasPages (node l i k h r) paged =
    let split = has-append 0 (keys l) (k ∷ keys r) in
    (
      keys-HasPages l (ground (arith, split)),
      ground (arith, split),
      keys-HasPages r (ground (arith, split)),
    )

-- Deletion of a node that has a page, and whose height is not -1, from an AVL tree in which every
-- node has a page, returns an AVL tree of the same level or one less, whose addresses from left to
-- right are the old ones without the node's.
pub delete_refines :
    (t l : Tree) (i q : ℕ) (h : ℤ) (r : Tree)
    → IsAvl t
    → has 0 (keys t) ≡ false
    → q ≢ 0
    → eqb_ℤ h (negsuc 0) ≡ false
    → Returns
        (λ d.
          IsAvl d.0
          × (keys d.0 ≡ delete_key q (keys t))
          × (level d.0 ≤ level t)
          × (level t ≤ level d.0 + 1))
        (delete t (node l i q h r))
unfolding delete
delete_refines t l i q h r v paged ne fine =
    let some_page : (q == 0) ≡ false = ground arith in
    Returns-Allows _ _ _ (delete_node t q h)
      (delete_node-Shrunk t q h v.balanced (keys-HasPages t paged) some_page fine)
      (delete_node-keys t q h v.ascending)
      λ d (b, hi, lo) e. (
        record { balanced = b; ascending = rw e (delete_key-IsAscending q (keys t) v.ascending) },
        e,
        hi,
        lo,
      )
