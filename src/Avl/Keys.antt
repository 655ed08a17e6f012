-- ===== src/Avl/Keys.antt =====
-- The addresses of a tree from left to right, and insertion and removal in an ascending list.
use parallel_memory_allocato.Base.{
  ℕ, ◌≤◌, ◌<◌, ◌≡◌, refl, List, [], ◌∷◌, ◌++◌, false, ◌||◌, arith, ltb, ◌==◌, if◌then◌else◌, has,
}
use parallel_memory_allocato.Avl.{Tree, leaf, node}

unfoldable pub keys : Tree → List ℕ
keys leaf = []
keys (node l i k h r) = keys l ++ (k ∷ keys r)

abbrev pub AllBelow : ℕ → List ℕ → Type 0
AllBelow b [] = Unit
AllBelow b (x ∷ xs) = (x < b) × AllBelow b xs

abbrev pub AllAbove : ℕ → List ℕ → Type 0
AllAbove b [] = Unit
AllAbove b (x ∷ xs) = (b < x) × AllAbove b xs

abbrev pub IsAscending : List ℕ → Type 0
IsAscending [] = Unit
IsAscending (x ∷ xs) = AllAbove x xs × IsAscending xs

-- The list with `q` put before the first greater number.
unfoldable pub insert_key : ℕ → List ℕ → List ℕ
insert_key q [] = q ∷ []
insert_key q (x ∷ xs) = if ltb q x then q ∷ x ∷ xs else x ∷ insert_key q xs

-- The list without the first `q`.
unfoldable pub delete_key : ℕ → List ℕ → List ℕ
delete_key q [] = []
delete_key q (x ∷ xs) = if q == x then xs else x ∷ delete_key q xs

pub AllAbove-trans : (a b : ℕ) (xs : List ℕ) → a ≤ b → AllAbove b xs → AllAbove a xs
AllAbove-trans a b [] h p = tt
AllAbove-trans a b (x ∷ xs) h (p, ps) = (omega arith, AllAbove-trans a b xs h ps)

pub AllBelow-trans : (a b : ℕ) (xs : List ℕ) → a ≤ b → AllBelow a xs → AllBelow b xs
AllBelow-trans a b [] h p = tt
AllBelow-trans a b (x ∷ xs) h (p, ps) = (omega arith, AllBelow-trans a b xs h ps)

AllAbove-append :
    (a : ℕ) (xs ys : List ℕ) (y : ℕ) → AllAbove a (xs ++ (y ∷ ys)) → AllAbove a xs × (a < y)
AllAbove-append a [] ys y (p, ps) = (tt, p)
AllAbove-append a (x ∷ xs) ys y (p, ps) = let (q, r) = AllAbove-append a xs ys y ps in ((p, q), r)

-- The parts of an ascending list around one of its numbers.
pub IsAscending-append :
    (xs : List ℕ) (y : ℕ) (ys : List ℕ)
    → IsAscending (xs ++ (y ∷ ys))
    → AllBelow y xs × AllAbove y ys × IsAscending xs × IsAscending ys
IsAscending-append [] y ys (p, a) = (tt, p, tt, a)
IsAscending-append (x ∷ xs) y ys (p, a) =
    let (b, c, d, e) = IsAscending-append xs y ys a in
    let (q, lt) = AllAbove-append x xs ys y p in ((lt, b), c, (q, d), e)

pub insert_key_left :
    (q : ℕ) (xs : List ℕ) (y : ℕ) (ys : List ℕ)
    → q < y
    → insert_key q (xs ++ (y ∷ ys)) ≡ insert_key q xs ++ (y ∷ ys)
unfolding insert_key
insert_key_left q [] y ys h = ground arith
insert_key_left q (x ∷ xs) y ys h = ground (arith, insert_key_left q xs y ys h)

pub insert_key_right :
    (q : ℕ) (xs : List ℕ) (y : ℕ) (ys : List ℕ)
    → y < q
    → AllBelow y xs
    → insert_key q (xs ++ (y ∷ ys)) ≡ xs ++ (y ∷ insert_key q ys)
unfolding insert_key
insert_key_right q [] y ys h b = ground arith
insert_key_right q (x ∷ xs) y ys h b = ground (arith, insert_key_right q xs y ys h b.1)

delete_key_absent : (q : ℕ) (xs : List ℕ) → AllAbove q xs → delete_key q xs ≡ xs
unfolding delete_key
delete_key_absent q [] a = refl
delete_key_absent q (x ∷ xs) a = ground (arith, delete_key_absent q xs a.1)

pub delete_key_left :
    (q : ℕ) (xs : List ℕ) (y : ℕ) (ys : List ℕ)
    → q < y
    → AllAbove y ys
    → delete_key q (xs ++ (y ∷ ys)) ≡ delete_key q xs ++ (y ∷ ys)
unfolding delete_key
delete_key_left q [] y ys h a =
    ground (arith, delete_key_absent q ys (AllAbove-trans q y ys (omega arith) a))
delete_key_left q (x ∷ xs) y ys h a = ground (arith, delete_key_left q xs y ys h a)

pub delete_key_right :
    (q : ℕ) (xs ys : List ℕ) → AllBelow q xs → delete_key q (xs ++ ys) ≡ xs ++ delete_key q ys
unfolding delete_key
delete_key_right q [] ys b = refl
delete_key_right q (x ∷ xs) ys b = ground (arith, delete_key_right q xs ys b.1)

pub has-insert_key : (p q : ℕ) (xs : List ℕ) → has p (insert_key q xs) ≡ ((p == q) || has p xs)
unfolding insert_key
has-insert_key p q [] = ground arith
has-insert_key p q (x ∷ xs) = ground (arith, has-insert_key p q xs)

AllAbove-insert_key : (a q : ℕ) (xs : List ℕ) → a < q → AllAbove a xs → AllAbove a (insert_key q xs)
unfolding insert_key
AllAbove-insert_key a q [] h p = ground arith
AllAbove-insert_key a q (x ∷ xs) h p = ground (arith, AllAbove-insert_key a q xs h p.1)

pub insert_key-IsAscending :
    (q : ℕ) (xs : List ℕ) → has q xs ≡ false → IsAscending xs → IsAscending (insert_key q xs)
unfolding insert_key
insert_key-IsAscending q [] n a = ground arith
insert_key-IsAscending q (x ∷ xs) n a =
    ground (arith, insert_key-IsAscending q xs, AllAbove-insert_key x q xs, AllAbove-trans q x xs)

AllAbove-delete_key : (a q : ℕ) (xs : List ℕ) → AllAbove a xs → AllAbove a (delete_key q xs)
unfolding delete_key
AllAbove-delete_key a q [] p = tt
AllAbove-delete_key a q (x ∷ xs) p = ground (arith, AllAbove-delete_key a q xs p.1)

pub delete_key-IsAscending : (q : ℕ) (xs : List ℕ) → IsAscending xs → IsAscending (delete_key q xs)
unfolding delete_key
delete_key-IsAscending q [] a = tt
delete_key-IsAscending q (x ∷ xs) a =
    ground (arith, delete_key-IsAscending q xs, AllAbove-delete_key x q xs)
