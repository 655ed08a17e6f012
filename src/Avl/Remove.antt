-- ===== src/Avl/Remove.antt =====
-- What `delete` does to the addresses from left to right.
use mathlib.Core.List.{append-nil}
use parallel_memory_allocato.Base.{
  ℕ, ◌<◌, ◌≡◌, refl, ap, ◌∙◌, Bool-cases, ◌==◌, List, [], ◌∷◌, ◌++◌, arith, Outcome, Allows,
  Allows-bind, inl, inr, ◌>>=◌,
}
use parallel_memory_allocato.Base.Int.{ℤ, negsuc, eqb_ℤ}
use parallel_memory_allocato.Avl.{
  Tree, leaf, node, key, height, find_min_node, delete_rebalance, delete_end, delete_root,
  delete_node, Deleted,
}
use parallel_memory_allocato.Avl.Compare.{compare_cases}
use parallel_memory_allocato.Avl.Keys.{
  keys, IsAscending, IsAscending-append, delete_key, delete_key_left, delete_key_right,
  AllBelow-trans,
}
use parallel_memory_allocato.Avl.Order.{delete_rebalance-keys}

abbrev DeletedKeys : List ℕ → Deleted → Type 0
DeletedKeys xs d = keys d.0 ≡ xs

-- The tree is a node, whose address heads the list.
abbrev pub HasFirst : List ℕ → Tree → Type 0
HasFirst xs leaf = ⊥
HasFirst xs (node l i k h r) = (rest : List ℕ) × (xs ≡ k ∷ rest)

HasFirst-append : (xs ys : List ℕ) (t : Tree) → HasFirst xs t → HasFirst (xs ++ ys) t
HasFirst-append xs ys leaf f = f
HasFirst-append xs ys (node l i k h r) (rest, e) = (rest ++ ys, rw e)

pub find_min_node-HasFirst :
    (l : Tree) (i k : ℕ) (h : ℤ) (r : Tree)
    → HasFirst (keys (node l i k h r)) (find_min_node (node l i k h r))
unfolding find_min_node keys
find_min_node-HasFirst leaf i k h r = (keys r, refl)
find_min_node-HasFirst (node ll li lk lh lr) i k h r =
    HasFirst-append (keys (node ll li lk lh lr)) (k ∷ keys r) _
      (find_min_node-HasFirst ll li lk lh lr)

delete_end-keys :
    (l : Tree) (i k : ℕ) (r : Tree) (freed : List ℕ)
    → Allows (DeletedKeys (keys l ++ (k ∷ keys r))) (delete_end l i k r freed)
unfolding delete_end
delete_end-keys l i k r freed =
    Allows-bind _ _ (delete_rebalance l i k r) _ (delete_rebalance-keys l i k r) (λ t e. e)

delete_key_first : (k : ℕ) (xs : List ℕ) → delete_key k (k ∷ xs) ≡ xs
unfolding delete_key
delete_key_first k xs = ground arith

delete_key_skip : (q k : ℕ) (xs : List ℕ) → k < q → delete_key q (k ∷ xs) ≡ k ∷ delete_key q xs
unfolding delete_key
delete_key_skip q k xs h = ground arith

-- A root with two children takes the first address of the right subtree.
delete_both-keys :
    (l : Tree) (i : ℕ) (xs : List ℕ) (junk : Tree) (rec : ℕ → ℤ → Outcome Deleted)
    → HasFirst xs junk
    → ((q : ℕ) (hq : ℤ) → Allows (DeletedKeys (delete_key q xs)) (rec q hq))
    → Allows
        (DeletedKeys (keys l ++ xs))
        (key junk >>= λ q. height junk >>= λ hq. rec q hq >>= λ d. delete_end l i q d.0 d.1)
unfolding key height
delete_both-keys l i xs leaf rec f p = tt
delete_both-keys l i xs (node ml mi mk mh mr) rec (rest, e) p =
    Allows-bind _ _ (rec mk mh) _ (p mk mh) λ d e'.
      let tail : keys d.0 ≡ rest = e' ∙ ap (delete_key mk) e ∙ delete_key_first mk rest in
      rw (e, ← tail) (delete_end-keys l i mk d.0 d.1)

delete_root-keys :
    (l : Tree) (i : ℕ) (r : Tree) (rec : ℕ → ℤ → Outcome Deleted)
    → ((q : ℕ) (hq : ℤ) → Allows (DeletedKeys (delete_key q (keys r))) (rec q hq))
    → Allows (DeletedKeys (keys l ++ keys r)) (delete_root l i r rec)
unfolding delete_root keys
delete_root-keys leaf i leaf rec p = refl
delete_root-keys leaf i (node rl ri rk rh rr) rec p = delete_end-keys rl i rk rr (ri ∷ [])
delete_root-keys (node ll li lk lh lr) i leaf rec p =
    rw (append-nil (keys (node ll li lk lh lr))) (delete_end-keys ll i lk lr (li ∷ []))
delete_root-keys (node ll li lk lh lr) i (node rl ri rk rh rr) rec p =
    delete_both-keys (node ll li lk lh lr) i (keys (node rl ri rk rh rr)) _ rec
      (find_min_node-HasFirst rl ri rk rh rr) p

delete_leaf : (q : ℕ) (hq : ℤ) → Allows (DeletedKeys (delete_key q [])) (delete_node leaf q hq)
unfolding delete_node delete_key keys
delete_leaf q hq = ground arith

-- In a tree whose addresses ascend, `delete_node` removes the address, and no other.
pub delete_node-keys :
    (t : Tree) (q : ℕ) (hq : ℤ)
    → IsAscending (keys t)
    → Allows (DeletedKeys (delete_key q (keys t))) (delete_node t q hq)
unfolding delete_node keys
delete_node-keys leaf q hq a = delete_leaf q hq
delete_node-keys (node l i k h r) q hq a =
    let (below, above, al, ar) = IsAscending-append (keys l) k (keys r) a in
    elim (Bool-cases (q == 0)) [
      | inl bad0 ↦ rw (bad0, delete_node) tt
      | inr z ↦ elim (Bool-cases (eqb_ℤ hq (negsuc 0))) [
        | inl bad ↦ rw (z, bad, delete_node) tt
        | inr fine ↦ elim (compare_cases q k) [
          | inl (e, side) ↦
              rw (z, fine, e, delete_node, delete_key_left q (keys l) k (keys r) side above)
                (Allows-bind _ _ (delete_node l q hq) _ (delete_node-keys l q hq al)
                  (λ d e'. rw (← e') (delete_end-keys d.0 i k r d.1)))
          | inr (inl (e, side)) ↦
              rw
                (
                  z,
                  fine,
                  e,
                  delete_node,
                  delete_key_right q (keys l) (k ∷ keys r)
                      (AllBelow-trans k q (keys l) (omega arith) below),
                  delete_key_skip q k (keys r) side,
                )
                (Allows-bind _ _ (delete_node r q hq) _ (delete_node-keys r q hq ar)
                  (λ d e'. rw (← e') (delete_end-keys l i k d.0 d.1)))
          | inr (inr (e, same)) ↦
              rw
                (
                  z,
                  fine,
                  e,
                  delete_node,
                  delete_key_right q (keys l) (k ∷ keys r) (rw same below),
                  same,
                  delete_key_first k (keys r),
                )
                (delete_root-keys l i r _ (λ q' hq'. delete_node-keys r q' hq' ar))
        ]
      ]
    ]
