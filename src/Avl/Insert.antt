-- ===== src/Avl/Insert.antt =====
-- `insert` keeps the tree balanced.
use Prim.Native.Nat.{max as max_ℕ}
use parallel_memory_allocato.Base.{
  ℕ, suc, ◌+◌, ◌≤◌, ◌<◌, ◌≡◌, refl, false, ◌⊎◌, arith, ltb, Outcome, ok, stop, Returns,
  Returns-bind, inl, inr, ◌≢◌, le→ltb, ltb→lt, has, has-append, ◌∷◌, ◌==◌,
}
use parallel_memory_allocato.Base.Int.{ℤ, pos, sub_ℕ_near, sub_ℕ-pos, sub_ℕ-negsuc}
use native.Mathlib.Decide.{dec_le}
use parallel_memory_allocato.Avl.{
  Tree, leaf, node, insert_fix_right, insert_fix_left, insert_rebalance, insert_node, insert, key,
}
use parallel_memory_allocato.Avl.Compare.{compare_cases}
use parallel_memory_allocato.Avl.Keys.{keys}
use parallel_memory_allocato.Avl.Balance.{
  level, IsBalanced, height_lem, height_diff, level-node, fix_right, fix_left, Restored,
}

-- The tree leans to the side of `q`, which is not its root's address.
abbrev Leans : ℕ → Tree → Type 0
Leans q leaf = ⊥
Leans q (node l i k h r) =
    (q < k → level l ≡ level r + 1) × (k < q → level r ≡ level l + 1) × (q ≢ k)

-- What an insertion of `q` into a tree of level `n` may return.
abbrev Grown : ℕ → ℕ → Tree → Type 0
Grown q n t =
    IsBalanced t × (n ≤ level t) × (level t ≤ n + 1) × (level t ≡ n + 1 → (n ≡ 0) ⊎ Leans q t)

insert_fix_right-Restored :
    (q : ℕ) (l : Tree) (i k : ℕ) (h : ℤ) (r : Tree)
    → IsBalanced l
    → IsBalanced r
    → level r ≡ level l + 2
    → Leans q r
    → Returns (λ t. IsBalanced t × (level t ≡ level l + 2)) (insert_fix_right q l i k h r)
unfolding insert_fix_right key
insert_fix_right-Restored q l i k h leaf bl br e lean = elim lean [ ]
insert_fix_right-Restored q l i k h (node rl ri rk rh rr) bl br e lean = exact _ (
    fix_right (ltb q rk) l i k h rl ri rk rh rr bl br e (λ d. ground (arith, ltb→lt q rk d))
      (λ d. ground (arith, le→ltb q rk)))
  where
    exact :
        (m : Outcome Tree)
        → Returns (Restored (level l) rl rr) m
        → Returns (λ t. IsBalanced t × (level t ≡ level l + 2)) m
    exact (ok t) p = (p.0, p.3 (ground arith))
    exact (stop x) p = p

insert_fix_left-Restored :
    (q : ℕ) (l : Tree) (i k : ℕ) (h : ℤ) (r : Tree)
    → IsBalanced l
    → IsBalanced r
    → level l ≡ level r + 2
    → Leans q l
    → Returns (λ t. IsBalanced t × (level t ≡ level r + 2)) (insert_fix_left q l i k h r)
unfolding insert_fix_left key
insert_fix_left-Restored q leaf i k h r bl br e lean = elim lean [ ]
insert_fix_left-Restored q (node ll li lk lh lr) i k h r bl br e lean = exact _ (
    fix_left (ltb lk q) ll li lk lh lr i k h r br bl e (λ d. ground (arith, ltb→lt lk q d))
      (λ d. ground (arith, le→ltb lk q)))
  where
    exact :
        (m : Outcome Tree)
        → Returns (Restored (level r) lr ll) m
        → Returns (λ t. IsBalanced t × (level t ≡ level r + 2)) m
    exact (ok t) p = (p.0, p.3 (ground arith))
    exact (stop x) p = p

-- The heights of two balanced subtrees decide the branch of `insert_rebalance`.
insert_rebalance-even :
    (q : ℕ) (l : Tree) (i k : ℕ) (r : Tree)
    → IsBalanced l
    → IsBalanced r
    → level l ≤ level r + 1
    → level r ≤ level l + 1
    → insert_rebalance q l i k r ≡ ok (node l i k (pos (max_ℕ (level l) (level r))) r)
unfolding insert_rebalance
insert_rebalance-even q l i k r bl br p p' =
    rw (height_lem l r bl br, height_diff l r bl br)
      (elim (sub_ℕ_near (level l) (level r) p p') [
        | inl e ↦ rw e
        | inr (inl e) ↦ rw e
        | inr (inr e) ↦ rw e
      ])

insert_rebalance-right :
    (q : ℕ) (l : Tree) (i k : ℕ) (r : Tree)
    → IsBalanced l
    → IsBalanced r
    → level r ≡ level l + 2
    → insert_rebalance q l i k r ≡ insert_fix_right q l i k (pos (max_ℕ (level l) (level r))) r
unfolding insert_rebalance
insert_rebalance-right q l i k r bl br p =
    rw (
      height_lem l r bl br,
      height_diff l r bl br,
      sub_ℕ-negsuc (level l) (level r) 1 (omega arith),
    )

insert_rebalance-left :
    (q : ℕ) (l : Tree) (i k : ℕ) (r : Tree)
    → IsBalanced l
    → IsBalanced r
    → level l ≡ level r + 2
    → insert_rebalance q l i k r ≡ insert_fix_left q l i k (pos (max_ℕ (level l) (level r))) r
unfolding insert_rebalance
insert_rebalance-left q l i k r bl br p =
    rw (height_lem l r bl br, height_diff l r bl br, sub_ℕ-pos (level l) (level r) 2 p)

-- The root where no rotation is needed: it leans to the new address if it grew.
even_root :
    (q : ℕ) (n : ℕ) (l : Tree) (i k : ℕ) (r : Tree)
    → IsBalanced l
    → IsBalanced r
    → level l ≤ level r + 1
    → level r ≤ level l + 1
    → n ≤ suc (max_ℕ (level l) (level r))
    → suc (max_ℕ (level l) (level r)) ≤ n + 1
    → (suc (max_ℕ (level l) (level r)) ≡ n + 1
        → Leans q (node l i k (pos (max_ℕ (level l) (level r))) r))
    → Returns (Grown q n) (insert_rebalance q l i k r)
even_root q n l i k r bl br p p' lo hi lean =
    let lev = level-node l i k (pos (max_ℕ (level l) (level r))) r in
    rw (insert_rebalance-even q l i k r bl br p p')
      ((bl, br, refl, p, p'), omega arith, omega arith, λ e. inr (lean (omega arith)))

-- The root where a rotation brought it back to the level that it had.
uneven_root :
    (q n m : ℕ) (o : Outcome Tree)
    → m ≡ n
    → Returns (λ t. IsBalanced t × (level t ≡ m)) o
    → Returns (Grown q n) o
uneven_root q n m (ok t) e (b, lev) = (b, omega arith, omega arith, λ e'. absurd (omega arith))
uneven_root q n m (stop x) e h = h

-- The root after an insertion into its left subtree, of level `n` before.
rebalance_left-Grown :
    (q : ℕ) (n : ℕ) (l : Tree) (i k : ℕ) (r : Tree)
    → q < k
    → IsBalanced r
    → n ≤ level r + 1
    → level r ≤ n + 1
    → Grown q n l
    → Returns (Grown q (suc (max_ℕ n (level r)))) (insert_rebalance q l i k r)
rebalance_left-Grown q n l i k r side br p p' (bl, lo, hi, grew) =
    elim (dec_le (level l) (level r + 1)) [
      | yes near ↦
          even_root q _ l i k r bl br near (omega arith) (omega arith) (omega arith)
            (λ e. (λ _. omega arith, λ c. omega arith, omega arith))
      | no far ↦ elim (grew (omega arith)) [
        | inl z ↦ absurd (omega arith)
        | inr lean ↦ rw (insert_rebalance-left q l i k r bl br (omega arith)) (
            uneven_root q _ (level r + 2) _ (omega arith)
              (insert_fix_left-Restored q l i k _ r bl br (omega arith) lean))
      ]
    ]

rebalance_right-Grown :
    (q : ℕ) (n : ℕ) (l : Tree) (i k : ℕ) (r : Tree)
    → k < q
    → IsBalanced l
    → n ≤ level l + 1
    → level l ≤ n + 1
    → Grown q n r
    → Returns (Grown q (suc (max_ℕ (level l) n))) (insert_rebalance q l i k r)
rebalance_right-Grown q n l i k r side bl p p' (br, lo, hi, grew) =
    elim (dec_le (level r) (level l + 1)) [
      | yes near ↦
          even_root q _ l i k r bl br (omega arith) near (omega arith) (omega arith)
            (λ e. (λ c. omega arith, λ _. omega arith, omega arith))
      | no far ↦ elim (grew (omega arith)) [
        | inl z ↦ absurd (omega arith)
        | inr lean ↦ rw (insert_rebalance-right q l i k r bl br (omega arith)) (
            uneven_root q _ (level l + 2) _ (omega arith)
              (insert_fix_right-Restored q l i k _ r bl br (omega arith) lean))
      ]
    ]

-- A node fit for insertion: alone, of height 0.
abbrev pub single : ℕ → ℕ → Tree
single i k = node leaf i k (pos 0) leaf

insert_node-Grown :
    (t : Tree) (q i : ℕ)
    → IsBalanced t
    → has q (keys t) ≡ false
    → Returns (Grown q (level t)) (insert_node t q (single i q))
unfolding insert_node level keys
insert_node-Grown leaf q i b fresh =
    ((tt, tt, refl, omega arith, omega arith), omega arith, omega arith, λ e. inl refl)
insert_node-Grown (node l j k h r) q i b fresh = elim (compare_cases q k) [
  | inl (e, side) ↦
      rw (e, insert_node)
        (Returns-bind _ _ (insert_node l q (single i q)) _ (insert_node-Grown l q i b.0 parts.0)
          (λ l' g. rebalance_left-Grown q (level l) l' j k r side b.1 b.3 b.4 g))
  | inr (inl (e, side)) ↦
      rw (e, insert_node)
        (Returns-bind _ _ (insert_node r q (single i q)) _ (insert_node-Grown r q i b.1 parts.2)
          (λ r' g. rebalance_right-Grown q (level r) l j k r' side b.0 b.4 b.3 g))
  | inr (inr (e, same)) ↦ absurd (parts.1 same)
]
  where
    parts : (has q (keys l) ≡ false) × (q ≢ k) × (has q (keys r) ≡ false)
    parts = ground (arith, has-append q (keys l) (k ∷ keys r))

-- Insertion of a fresh node, with an address that is not 0 and not in the tree, into a balanced
-- tree returns a balanced tree, one level higher at most: no exit, and no read through NULL.
pub insert-IsBalanced :
    (t : Tree) (q i : ℕ)
    → IsBalanced t
    → q ≢ 0
    → has q (keys t) ≡ false
    → Returns
        (λ t'. IsBalanced t' × (level t ≤ level t') × (level t' ≤ level t + 1))
        (insert t (single i q))
unfolding insert
insert-IsBalanced t q i b ne fresh =
    let nonzero : (q == 0) ≡ false = ground arith in
    rw nonzero (weaken _ (insert_node-Grown t q i b fresh))
  where
    weaken :
        (m : Outcome Tree)
        → Returns (Grown q (level t)) m
        → Returns (λ t'. IsBalanced t' × (level t ≤ level t') × (level t' ≤ level t + 1)) m
    weaken (ok t') g = (g.0, g.1, g.2)
    weaken (stop x) g = g
