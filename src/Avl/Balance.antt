-- ===== src/Avl/Balance.antt =====
-- The AVL invariant.
use Prim.Native.Nat.{max as max_ℕ}
use parallel_memory_allocato.Base.{
  ℕ, suc, ◌+◌, ◌≤◌, ◌<◌, ◌≡◌, refl, Bool, true, false, arith, if◌then◌else◌, Outcome, ok, stop,
  Returns, ◌>>=◌, ◌≢◌,
}
use parallel_memory_allocato.Base.Int.{ℤ, pos, sub_ℕ, ◌+ℤ◌, ◌-ℤ◌, sub_ℕ-sub_ℕ}
use parallel_memory_allocato.Avl.{
  Tree, leaf, node, max, get_height, left, right, rotate_left, rotate_right, with_height,
}

-- The number of nodes on the longest way down.
unfoldable pub level : Tree → ℕ
level leaf = 0
level (node l i k h r) = suc (max_ℕ (level l) (level r))

-- Each stored height is the length of the longest way down, and siblings differ by at most 1.
abbrev pub IsBalanced : Tree → Type 0
IsBalanced leaf = Unit
IsBalanced (node l i k h r) =
    IsBalanced l
    × IsBalanced r
    × (h ≡ pos (max_ℕ (level l) (level r)))
    × (level l ≤ level r + 1)
    × (level r ≤ level l + 1)

pub get_height-level : (t : Tree) → IsBalanced t → get_height t ≡ sub_ℕ (level t) 1
unfolding get_height level
get_height-level leaf b = refl
get_height-level (node l i k h r) b = ground arith

-- The result of a rebalancing.
abbrev Between : ℕ → ℕ → Tree → Type 0
Between a b t = IsBalanced t × (a ≤ level t) × (level t ≤ b)

abbrev Fixed : ℕ → Tree → Type 0
Fixed n t = IsBalanced t × (level t ≡ n)

pub height_lem :
    (l r : Tree)
    → IsBalanced l
    → IsBalanced r
    → max (get_height l) (get_height r) +ℤ pos 1 ≡ pos (max_ℕ (level l) (level r))
unfolding max
height_lem l r bl br = ground (arith, get_height-level l, get_height-level r)

pub height_diff :
    (l r : Tree)
    → IsBalanced l
    → IsBalanced r
    → get_height l -ℤ get_height r ≡ sub_ℕ (level l) (level r)
height_diff l r bl br =
    rw (get_height-level l bl, get_height-level r br) (sub_ℕ-sub_ℕ (level l) (level r))

with_height-Fixed :
    (l : Tree) (i k : ℕ) (r : Tree)
    → IsBalanced l
    → IsBalanced r
    → level l ≤ level r + 1
    → level r ≤ level l + 1
    → Fixed (suc (max_ℕ (level l) (level r))) (with_height l i k r)
unfolding with_height level
with_height-Fixed l i k r bl br hl hr = rw (height_lem l r bl br) ((bl, br, refl, hl, hr), refl)

single_left :
    (l : Tree) (i k : ℕ) (h : ℤ) (rl : Tree) (ri rk : ℕ) (rh : ℤ) (rr : Tree)
    → IsBalanced l
    → IsBalanced rl
    → IsBalanced rr
    → level rr ≡ level l + 1
    → level rl ≤ level rr
    → level rr ≤ level rl + 1
    → Returns (Fixed (suc (suc (level rl)))) (rotate_left (node l i k h (node rl ri rk rh rr)))
unfolding rotate_left
single_left l i k h rl ri rk rh rr bl bm br e p q =
    ground (arith, with_height-Fixed l i k rl, with_height-Fixed (with_height l i k rl) ri rk rr)

single_right :
    (ll : Tree) (li lk : ℕ) (lh : ℤ) (lr : Tree) (i k : ℕ) (h : ℤ) (r : Tree)
    → IsBalanced ll
    → IsBalanced lr
    → IsBalanced r
    → level ll ≡ level r + 1
    → level lr ≤ level ll
    → level ll ≤ level lr + 1
    → Returns (Fixed (suc (suc (level lr)))) (rotate_right (node (node ll li lk lh lr) i k h r))
unfolding rotate_right
single_right ll li lk lh lr i k h r bl bm br e p q =
    ground (arith, with_height-Fixed lr i k r, with_height-Fixed ll li lk (with_height lr i k r))

with_height-node :
    (l : Tree) (i k : ℕ) (r : Tree)
    → with_height l i k r ≡ node l i k (max (get_height l) (get_height r) +ℤ pos 1) r
unfolding with_height
with_height-node l i k r = refl

pub level-leaf : level leaf ≡ 0
unfolding level
level-leaf = refl

pub level-node :
    (l : Tree) (i k : ℕ) (h : ℤ) (r : Tree)
    → level (node l i k h r) ≡ suc (max_ℕ (level l) (level r))
unfolding level
level-node l i k h r = refl

-- Four subtrees under a node that a double rotation moved up.
joined :
    (a : Tree) (i k : ℕ) (b : Tree) (mi mk : ℕ) (c : Tree) (ri rk : ℕ) (d : Tree)
    → IsBalanced a
    → IsBalanced b
    → IsBalanced c
    → IsBalanced d
    → level d ≡ level a
    → max_ℕ (level b) (level c) ≡ level a
    → level b ≤ level c + 1
    → level c ≤ level b + 1
    → Fixed (level a + 2) (with_height (with_height a i k b) mi mk (with_height c ri rk d))
joined a i k b mi mk c ri rk d ba bb bc bd e f p q =
    let (left, left_level) = with_height-Fixed a i k b ba bb (omega arith) (omega arith) in
    let (right, right_level) = with_height-Fixed c ri rk d bc bd (omega arith) (omega arith) in
    let (whole, whole_level) =
      with_height-Fixed (with_height a i k b) mi mk (with_height c ri rk d) left right (omega arith)
        (omega arith) in
    (whole, omega arith)

double_left :
    (l : Tree) (i k : ℕ) (h : ℤ) (ml : Tree) (mi mk : ℕ) (mh : ℤ) (mr : Tree) (ri rk : ℕ) (rh : ℤ)
    (rr : Tree)
    → IsBalanced l
    → IsBalanced (node ml mi mk mh mr)
    → IsBalanced rr
    → level rr ≡ level l
    → level (node ml mi mk mh mr) ≡ level l + 1
    → Returns (Fixed (level l + 2)) (
        rotate_right (node (node ml mi mk mh mr) ri rk rh rr) >>= λ r'.
        rotate_left (node l i k h r'))
unfolding rotate_left rotate_right
double_left l i k h ml mi mk mh mr ri rk rh rr bl bm br e f =
    rw (with_height-node ml mi mk (with_height mr ri rk rr)) (
      joined l i k ml mi mk mr ri rk rr bl bm.0 bm.1 br e (omega (arith, level-node ml mi mk mh mr))
        bm.3 bm.4)

double_right :
    (ll : Tree) (li lk : ℕ) (lh : ℤ) (ml : Tree) (mi mk : ℕ) (mh : ℤ) (mr : Tree) (i k : ℕ) (h : ℤ)
    (r : Tree)
    → IsBalanced ll
    → IsBalanced (node ml mi mk mh mr)
    → IsBalanced r
    → level r ≡ level ll
    → level (node ml mi mk mh mr) ≡ level ll + 1
    → Returns (Fixed (level r + 2)) (
        rotate_left (node ll li lk lh (node ml mi mk mh mr)) >>= λ l'.
        rotate_right (node l' i k h r))
unfolding rotate_left rotate_right
double_right ll li lk lh ml mi mk mh mr i k h r bl bm br e f =
    rw (with_height-node (with_height ll li lk ml) mi mk mr, e)
      (joined ll li lk ml mi mk mr i k r bl bm.0 bm.1 br e
        (omega (arith, level-node ml mi mk mh mr)) bm.3 bm.4)

-- The result of restoring balance: the old level, or one more where the taller subtree leaned to
-- neither side.
abbrev pub Restored : ℕ → Tree → Tree → Tree → Type 0
Restored n a b t =
    IsBalanced t × (n + 2 ≤ level t) × (level t ≤ n + 3) × (level a ≢ level b → level t ≡ n + 2)

single-Restored :
    (n : ℕ) (a b : Tree) (m : Outcome Tree)
    → level a ≤ level b
    → level b ≤ level a + 1
    → level b ≡ n + 1
    → Returns (Fixed (suc (suc (level a)))) m
    → Returns (Restored n a b) m
single-Restored n a b (ok t) h k e (bal, lev) = (bal, omega arith, omega arith, λ ne. omega arith)
single-Restored n a b (stop x) h k e r = r

double-Restored :
    (n : ℕ) (a b : Tree) (m : Outcome Tree) → Returns (Fixed (n + 2)) m → Returns (Restored n a b) m
double-Restored n a b (ok t) (bal, lev) = (bal, omega arith, omega arith, λ ne. lev)
double-Restored n a b (stop x) r = r

-- The two steps of both functions where the right subtree is too high: an optional rotation of it,
-- and a rotation of the root.
pub fix_right :
    (double : Bool) (l : Tree) (i k : ℕ) (h : ℤ) (rl : Tree) (ri rk : ℕ) (rh : ℤ) (rr : Tree)
    → IsBalanced l
    → IsBalanced (node rl ri rk rh rr)
    → level (node rl ri rk rh rr) ≡ level l + 2
    → (double ≡ true → level rr < level rl)
    → (double ≡ false → level rl ≤ level rr)
    → Returns (Restored (level l) rl rr) (
        (if double then rotate_right (node rl ri rk rh rr) else ok (node rl ri rk rh rr)) >>= λ r'.
        rotate_left (node l i k h r'))
fix_right false l i k h rl ri rk rh rr bl br e dt df =
    let lev = level-node rl ri rk rh rr in
    let le = df refl in
    single-Restored (level l) rl rr _ le br.4 (omega arith)
      (single_left l i k h rl ri rk rh rr bl br.0 br.1 (omega arith) le br.4)
fix_right true l i k h leaf ri rk rh rr bl br e dt df = absurd (omega (arith, level-leaf, dt refl))
fix_right true l i k h (node ml mi mk mh mr) ri rk rh rr bl br e dt df =
    let lev = level-node (node ml mi mk mh mr) ri rk rh rr in
    let lt = dt refl in
    double-Restored (level l) (node ml mi mk mh mr) rr _
      (double_left l i k h ml mi mk mh mr ri rk rh rr bl br.0 br.1 (omega arith) (omega arith))

pub fix_left :
    (double : Bool) (ll : Tree) (li lk : ℕ) (lh : ℤ) (lr : Tree) (i k : ℕ) (h : ℤ) (r : Tree)
    → IsBalanced r
    → IsBalanced (node ll li lk lh lr)
    → level (node ll li lk lh lr) ≡ level r + 2
    → (double ≡ true → level ll < level lr)
    → (double ≡ false → level lr ≤ level ll)
    → Returns (Restored (level r) lr ll) (
        (if double then rotate_left (node ll li lk lh lr) else ok (node ll li lk lh lr)) >>= λ l'.
        rotate_right (node l' i k h r))
fix_left false ll li lk lh lr i k h r br bl e dt df =
    let lev = level-node ll li lk lh lr in
    let le = df refl in
    single-Restored (level r) lr ll _ le bl.3 (omega arith)
      (single_right ll li lk lh lr i k h r bl.0 bl.1 br (omega arith) le bl.3)
fix_left true ll li lk lh leaf i k h r br bl e dt df = absurd (omega (arith, level-leaf, dt refl))
fix_left true ll li lk lh (node ml mi mk mh mr) i k h r br bl e dt df =
    let lev = level-node ll li lk lh (node ml mi mk mh mr) in
    let lt = dt refl in
    double-Restored (level r) (node ml mi mk mh mr) ll _
      (double_right ll li lk lh ml mi mk mh mr i k h r bl.0 bl.1 br (omega arith) (omega arith))
