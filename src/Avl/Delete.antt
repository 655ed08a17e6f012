-- ===== src/Avl/Delete.antt =====
-- `delete` keeps the tree balanced.
use Prim.Native.Nat.{max as max_ℕ}
use native.Mathlib.Decide.{dec_le}
use parallel_memory_allocato.Base.{
  ℕ, suc, zero, ◌+◌, ◌≤◌, ◌≡◌, refl, false, List, [], ◌∷◌, arith, ltb, ◌==◌, Outcome, ok, stop,
  Returns, Returns-bind, inl, inr, ◌>>=◌,
}
use parallel_memory_allocato.Base.Int.{
  ℤ, pos, negsuc, ltb_ℤ, eqb_ℤ, sub_ℕ, sub_ℕ_near, sub_ℕ-pos, sub_ℕ-negsuc,
}
use parallel_memory_allocato.Avl.{
  Tree, leaf, node, key, height, left, right, find_min_node, delete_fix_right, delete_fix_left,
  delete_rebalance, delete_end, delete_root, delete_node, Deleted,
}
use parallel_memory_allocato.Avl.Compare.{compare_cases}
use parallel_memory_allocato.Avl.Balance.{
  level, IsBalanced, get_height-level, height_lem, height_diff, level-leaf, level-node, fix_right,
  fix_left, Restored,
}

higher : (a b : ℕ) → ltb_ℤ (sub_ℕ a 1) (sub_ℕ b 1) ≡ ltb a b
higher zero zero = refl
higher zero (suc b) = ground arith
higher (suc a) zero = ground arith
higher (suc a) (suc b) = ground arith

-- A tree of level from `n` to `n + 1`.
abbrev Near : ℕ → Tree → Type 0
Near n t = IsBalanced t × (n ≤ level t) × (level t ≤ n + 1)

Restored-Near :
    (n : ℕ) (a b : Tree) (m : Outcome Tree) → Returns (Restored n a b) m → Returns (Near (n + 2)) m
Restored-Near n a b (ok t) (bal, lo, hi, eq) = (bal, lo, omega arith)
Restored-Near n a b (stop x) p = p

delete_fix_right-Near :
    (l : Tree) (i k : ℕ) (h : ℤ) (r : Tree)
    → IsBalanced l
    → IsBalanced r
    → level r ≡ level l + 2
    → Returns (Near (level l + 2)) (delete_fix_right l i k h r)
unfolding delete_fix_right left right
delete_fix_right-Near l i k h leaf bl br e = absurd (omega (arith, level-leaf))
delete_fix_right-Near l i k h (node rl ri rk rh rr) bl br e =
    rw (get_height-level rr br.1, get_height-level rl br.0, higher (level rr) (level rl))
      (Restored-Near (level l) rl rr _ (
        fix_right (ltb (level rr) (level rl)) l i k h rl ri rk rh rr bl br e (λ d. ground arith)
          (λ d. ground arith)))

delete_fix_left-Near :
    (l : Tree) (i k : ℕ) (h : ℤ) (r : Tree)
    → IsBalanced l
    → IsBalanced r
    → level l ≡ level r + 2
    → Returns (Near (level r + 2)) (delete_fix_left l i k h r)
unfolding delete_fix_left left right
delete_fix_left-Near leaf i k h r bl br e = absurd (omega (arith, level-leaf))
delete_fix_left-Near (node ll li lk lh lr) i k h r bl br e =
    rw (get_height-level ll bl.0, get_height-level lr bl.1, higher (level ll) (level lr))
      (Restored-Near (level r) lr ll _ (
        fix_left (ltb (level ll) (level lr)) ll li lk lh lr i k h r br bl e (λ d. ground arith)
          (λ d. ground arith)))

delete_rebalance-even :
    (l : Tree) (i k : ℕ) (r : Tree)
    → IsBalanced l
    → IsBalanced r
    → level l ≤ level r + 1
    → level r ≤ level l + 1
    → delete_rebalance l i k r ≡ ok (node l i k (pos (max_ℕ (level l) (level r))) r)
unfolding delete_rebalance
delete_rebalance-even l i k r bl br p p' =
    rw (height_lem l r bl br, height_diff l r bl br)
      (elim (sub_ℕ_near (level l) (level r) p p') [
        | inl e ↦ rw e
        | inr (inl e) ↦ rw e
        | inr (inr e) ↦ rw e
      ])

delete_rebalance-right :
    (l : Tree) (i k : ℕ) (r : Tree)
    → IsBalanced l
    → IsBalanced r
    → level r ≡ level l + 2
    → delete_rebalance l i k r ≡ delete_fix_right l i k (pos (max_ℕ (level l) (level r))) r
unfolding delete_rebalance
delete_rebalance-right l i k r bl br p =
    rw (
      height_lem l r bl br,
      height_diff l r bl br,
      sub_ℕ-negsuc (level l) (level r) 1 (omega arith),
    )

delete_rebalance-left :
    (l : Tree) (i k : ℕ) (r : Tree)
    → IsBalanced l
    → IsBalanced r
    → level l ≡ level r + 2
    → delete_rebalance l i k r ≡ delete_fix_left l i k (pos (max_ℕ (level l) (level r))) r
unfolding delete_rebalance
delete_rebalance-left l i k r bl br p =
    rw (height_lem l r bl br, height_diff l r bl br, sub_ℕ-pos (level l) (level r) 2 p)

-- The level of a root whose subtrees had the levels `a` and `b`, one of which may have lost 1.
abbrev Shrunk : ℕ → Deleted → Type 0
Shrunk n d = IsBalanced d.0 × (level d.0 ≤ n) × (n ≤ level d.0 + 1)

wrap :
    (n m : ℕ) (freed : List ℕ) (o : Outcome Tree)
    → Returns (Near m) o
    → m + 1 ≡ n
    → Returns (Shrunk n) (o >>= λ t. ok (t, freed))
wrap n m freed (ok t) (b, lo, hi) e = (b, omega arith, omega arith)
wrap n m freed (stop x) p e = p

delete_end-Shrunk :
    (l : Tree) (i k : ℕ) (r : Tree) (freed : List ℕ) (n : ℕ)
    → IsBalanced l
    → IsBalanced r
    → level l ≤ level r + 2
    → level r ≤ level l + 2
    → suc (max_ℕ (level l) (level r)) ≤ n
    → n ≤ suc (max_ℕ (level l) (level r)) + 1
    → (level r ≡ level l + 2 → n ≡ level r + 1)
    → (level l ≡ level r + 2 → n ≡ level l + 1)
    → Returns (Shrunk n) (delete_end l i k r freed)
unfolding delete_end
delete_end-Shrunk l i k r freed n bl br p p' lo hi fr fl = elim (dec_le (level l) (level r + 1)) [
  | yes a ↦ elim (dec_le (level r) (level l + 1)) [
    | yes b ↦
        let lev = level-node l i k (pos (max_ℕ (level l) (level r))) r in
        rw (delete_rebalance-even l i k r bl br a b)
          ((bl, br, refl, a, b), omega arith, omega arith)
    | no b ↦ rw (delete_rebalance-right l i k r bl br (omega arith)) (
        wrap n (level l + 2) freed _ (delete_fix_right-Near l i k _ r bl br (omega arith))
          (omega (arith, fr (omega arith))))
  ]
  | no a ↦ rw (delete_rebalance-left l i k r bl br (omega arith)) (
      wrap n (level r + 2) freed _ (delete_fix_left-Near l i k _ r bl br (omega arith))
        (omega (arith, fl (omega arith))))
]

-- Every node has a page: its address is not NULL.
abbrev pub HasPages : Tree → Type 0
HasPages leaf = Unit
HasPages (node l i k h r) = HasPages l × ((k == 0) ≡ false) × HasPages r

-- The least node of a tree, with the page and the height that `delete` tests.
abbrev HasHeight : Tree → Type 0
HasHeight leaf = ⊥
HasHeight (node l i k h r) = ((k == 0) ≡ false) × (eqb_ℤ h (negsuc 0) ≡ false)

find_min_node-HasHeight :
    (l : Tree) (i k : ℕ) (h : ℤ) (r : Tree)
    → IsBalanced (node l i k h r)
    → HasPages (node l i k h r)
    → HasHeight (find_min_node (node l i k h r))
unfolding find_min_node
find_min_node-HasHeight leaf i k h r b c = (c.1, rw b.2 (ground arith))
find_min_node-HasHeight (node ll li lk lh lr) i k h r b c =
    find_min_node-HasHeight ll li lk lh lr b.0 c.0

delete_both-Shrunk :
    (l : Tree) (i : ℕ) (r junk : Tree) (rec : ℕ → ℤ → Outcome Deleted)
    → IsBalanced l
    → level l ≤ level r + 1
    → level r ≤ level l + 1
    → HasHeight junk
    → ((q : ℕ) (hq : ℤ)
        → (q == 0) ≡ false
        → eqb_ℤ hq (negsuc 0) ≡ false
        → Returns (Shrunk (level r)) (rec q hq))
    → Returns
        (Shrunk (suc (max_ℕ (level l) (level r))))
        (key junk >>= λ q. height junk >>= λ hq. rec q hq >>= λ d. delete_end l i q d.0 d.1)
unfolding key height
delete_both-Shrunk l i r leaf rec bl p p' f g = elim f [ ]
delete_both-Shrunk l i r (node ml mi mk mh mr) rec bl p p' f g =
    Returns-bind _ _ (rec mk mh) _ (g mk mh f.0 f.1) λ d (b, lo, hi).
      delete_end-Shrunk l i mk d.0 d.1 _ bl b (omega arith) (omega arith) (omega arith)
        (omega arith) (λ e. omega arith) (λ e. omega arith)

delete_root-Shrunk :
    (l : Tree) (i k : ℕ) (h : ℤ) (r : Tree) (rec : ℕ → ℤ → Outcome Deleted)
    → IsBalanced (node l i k h r)
    → HasPages r
    → ((q : ℕ) (hq : ℤ)
        → (q == 0) ≡ false
        → eqb_ℤ hq (negsuc 0) ≡ false
        → Returns (Shrunk (level r)) (rec q hq))
    → Returns (Shrunk (level (node l i k h r))) (delete_root l i r rec)
unfolding delete_root level
delete_root-Shrunk leaf i k h leaf rec b c g = (tt, omega arith, omega arith)
delete_root-Shrunk leaf i k h (node rl ri rk rh rr) rec b c g =
    delete_end-Shrunk rl i rk rr (ri ∷ []) _ b.1.0 b.1.1 (omega arith) (omega arith) (omega arith)
      (omega arith) (λ e. absurd (omega arith)) (λ e. absurd (omega arith))
delete_root-Shrunk (node ll li lk lh lr) i k h leaf rec b c g =
    delete_end-Shrunk ll i lk lr (li ∷ []) _ b.0.0 b.0.1 (omega arith) (omega arith) (omega arith)
      (omega arith) (λ e. absurd (omega arith)) (λ e. absurd (omega arith))
delete_root-Shrunk (node ll li lk lh lr) i k h (node rl ri rk rh rr) rec b c g =
    delete_both-Shrunk (node ll li lk lh lr) i (node rl ri rk rh rr) _ rec b.0 b.3 b.4
      (find_min_node-HasHeight rl ri rk rh rr b.1 c) g

delete_leaf-Shrunk :
    (q : ℕ) (hq : ℤ)
    → (q == 0) ≡ false
    → eqb_ℤ hq (negsuc 0) ≡ false
    → Returns (Shrunk (level leaf)) (delete_node leaf q hq)
unfolding delete_node level
delete_leaf-Shrunk q hq z e = rw (z, e) (tt, omega arith, omega arith)

-- In a tree whose nodes have pages, `delete_node` of an address returns a balanced tree, of the same
-- level or one less.
pub delete_node-Shrunk :
    (t : Tree) (q : ℕ) (hq : ℤ)
    → IsBalanced t
    → HasPages t
    → (q == 0) ≡ false
    → eqb_ℤ hq (negsuc 0) ≡ false
    → Returns (Shrunk (level t)) (delete_node t q hq)
unfolding delete_node
delete_node-Shrunk leaf q hq b c z fine = delete_leaf-Shrunk q hq z fine
delete_node-Shrunk (node l i k h r) q hq b c z fine =
    let lev = level-node l i k h r in
    elim (compare_cases q k) [
      | inl (e, side) ↦
          rw (z, fine, e, delete_node)
            (Returns-bind _ _ (delete_node l q hq) _ (delete_node-Shrunk l q hq b.0 c.0 z fine)
              λ d (bd, hi, lo).
                delete_end-Shrunk d.0 i k r d.1 _ bd b.1 (omega arith) (omega arith) (omega arith)
                  (omega arith) (λ e'. omega arith) (λ e'. omega arith))
      | inr (inl (e, side)) ↦
          rw (z, fine, e, delete_node)
            (Returns-bind _ _ (delete_node r q hq) _ (delete_node-Shrunk r q hq b.1 c.2 z fine)
              λ d (bd, hi, lo).
                delete_end-Shrunk l i k d.0 d.1 _ b.0 bd (omega arith) (omega arith) (omega arith)
                  (omega arith) (λ e'. omega arith) (λ e'. omega arith))
      | inr (inr (e, same)) ↦
          rw (z, fine, e, delete_node)
            (delete_root-Shrunk l i k h r _ b c.2 (λ q' hq'. delete_node-Shrunk r q' hq' b.1 c.2))
    ]
