-- ===== src/Avl/Order.antt =====
-- What the operations do to the addresses from left to right.
use mathlib.Core.List.{append_assoc}
use parallel_memory_allocato.Base.{
  ℕ, ◌≡◌, List, [], ◌∷◌, ◌++◌, Bool, true, false, arith, ltb, if◌then◌else◌, ok, Allows,
  Allows-bind, inl, inr, ◌>>=◌,
}
use parallel_memory_allocato.Base.Int.{ℤ, pos, ◌+ℤ◌}
use parallel_memory_allocato.Avl.{
  Tree, leaf, node, key, left, right, rotate_left, rotate_right, insert_fix_right, insert_fix_left,
  insert_rebalance, insert_node, delete_fix_right, delete_fix_left, delete_rebalance, with_height,
  max, get_height,
}
use parallel_memory_allocato.Avl.Compare.{compare_cases}
use parallel_memory_allocato.Avl.Keys.{
  keys, IsAscending, IsAscending-append, insert_key, insert_key_left, insert_key_right,
}

abbrev HasKeys : List ℕ → Tree → Type 0
HasKeys xs t = keys t ≡ xs

rotate_left-keys : (t : Tree) → Allows (HasKeys (keys t)) (rotate_left t)
unfolding rotate_left keys with_height
rotate_left-keys leaf = tt
rotate_left-keys (node l i k h leaf) = tt
rotate_left-keys (node l i k h (node rl ri rk rh rr)) = simp append_assoc

rotate_right-keys : (t : Tree) → Allows (HasKeys (keys t)) (rotate_right t)
unfolding rotate_right keys with_height
rotate_right-keys leaf = tt
rotate_right-keys (node leaf i k h r) = tt
rotate_right-keys (node (node ll li lk lh lr) i k h r) = simp append_assoc

abbrev around : Tree → ℕ → Tree → List ℕ
around l k r = keys l ++ (k ∷ keys r)

fix_right-keys :
    (double : Bool) (l : Tree) (i k : ℕ) (h : ℤ) (r : Tree)
    → Allows
        (HasKeys (around l k r))
        ((if double then rotate_right r else ok r) >>= λ r'. rotate_left (node l i k h r'))
unfolding keys
fix_right-keys false l i k h r = rotate_left-keys (node l i k h r)
fix_right-keys true l i k h r =
    Allows-bind (HasKeys (keys r)) _ (rotate_right r) _ (rotate_right-keys r)
      (λ r' e. rw (← e) (rotate_left-keys (node l i k h r')))

fix_left-keys :
    (double : Bool) (l : Tree) (i k : ℕ) (h : ℤ) (r : Tree)
    → Allows
        (HasKeys (around l k r))
        ((if double then rotate_left l else ok l) >>= λ l'. rotate_right (node l' i k h r))
unfolding keys
fix_left-keys false l i k h r = rotate_right-keys (node l i k h r)
fix_left-keys true l i k h r =
    Allows-bind (HasKeys (keys l)) _ (rotate_left l) _ (rotate_left-keys l)
      (λ l' e. rw (← e) (rotate_right-keys (node l' i k h r)))

insert_fix_right-keys :
    (q : ℕ) (l : Tree) (i k : ℕ) (h : ℤ) (r : Tree)
    → Allows (HasKeys (around l k r)) (insert_fix_right q l i k h r)
unfolding insert_fix_right key
insert_fix_right-keys q l i k h leaf = tt
insert_fix_right-keys q l i k h (node rl ri rk rh rr) =
    fix_right-keys (ltb q rk) l i k h (node rl ri rk rh rr)

insert_fix_left-keys :
    (q : ℕ) (l : Tree) (i k : ℕ) (h : ℤ) (r : Tree)
    → Allows (HasKeys (around l k r)) (insert_fix_left q l i k h r)
unfolding insert_fix_left key
insert_fix_left-keys q leaf i k h r = tt
insert_fix_left-keys q (node ll li lk lh lr) i k h r =
    fix_left-keys (ltb lk q) (node ll li lk lh lr) i k h r

insert_rebalance-keys :
    (q : ℕ) (l : Tree) (i k : ℕ) (r : Tree)
    → Allows (HasKeys (around l k r)) (insert_rebalance q l i k r)
unfolding insert_rebalance keys
insert_rebalance-keys q l i k r =
    let h = max (get_height l) (get_height r) +ℤ pos 1 in
    ground (arith, insert_fix_right-keys q l i k h r, insert_fix_left-keys q l i k h r)

delete_fix_right-keys :
    (l : Tree) (i k : ℕ) (h : ℤ) (r : Tree)
    → Allows (HasKeys (around l k r)) (delete_fix_right l i k h r)
unfolding delete_fix_right left right
delete_fix_right-keys l i k h leaf = tt
delete_fix_right-keys l i k h (node rl ri rk rh rr) = fix_right-keys _ l i k h (node rl ri rk rh rr)

delete_fix_left-keys :
    (l : Tree) (i k : ℕ) (h : ℤ) (r : Tree)
    → Allows (HasKeys (around l k r)) (delete_fix_left l i k h r)
unfolding delete_fix_left left right
delete_fix_left-keys leaf i k h r = tt
delete_fix_left-keys (node ll li lk lh lr) i k h r = fix_left-keys _ (node ll li lk lh lr) i k h r

pub delete_rebalance-keys :
    (l : Tree) (i k : ℕ) (r : Tree) → Allows (HasKeys (around l k r)) (delete_rebalance l i k r)
unfolding delete_rebalance keys
delete_rebalance-keys l i k r =
    let h = max (get_height l) (get_height r) +ℤ pos 1 in
    ground (arith, delete_fix_right-keys l i k h r, delete_fix_left-keys l i k h r)

-- In a tree whose addresses ascend, `insert_node` puts the new address in its place.
pub insert_node-keys :
    (t : Tree) (q : ℕ) (nd : Tree)
    → keys nd ≡ q ∷ []
    → IsAscending (keys t)
    → Allows (HasKeys (insert_key q (keys t))) (insert_node t q nd)
unfolding insert_node keys insert_key
insert_node-keys leaf q nd e a = e
insert_node-keys (node l i k h r) q nd e a =
    let (below, above, al, ar) = IsAscending-append (keys l) k (keys r) a in
    elim (compare_cases q k) [
      | inl (e', side) ↦
          rw (e', insert_node, insert_key_left q (keys l) k (keys r) side)
            (Allows-bind _ _ (insert_node l q nd) _ (insert_node-keys l q nd e al)
              (λ l' e''. rw (← e'') (insert_rebalance-keys q l' i k r)))
      | inr (inl (e', side)) ↦
          rw (e', insert_node, insert_key_right q (keys l) k (keys r) side below)
            (Allows-bind _ _ (insert_node r q nd) _ (insert_node-keys r q nd e ar)
              (λ r' e''. rw (← e'') (insert_rebalance-keys q l i k r')))
      | inr (inr (e', same)) ↦ rw (e', insert_node) tt
    ]
