-- ===== src/A2alloc/Heap/Chop.antt =====
-- The pages that the loop of `large_free` cuts a block into.
use parallel_memory_allocato.Base.{
  ℕ, zero, suc, ◌+◌, ◌-◌, ◌*◌, ◌≡◌, ◌≢◌, ◌<◌, ◌≤◌, refl, sym, ◌∙◌, true, false, Bool-cases, inl,
  inr, ◌⊎◌, List, [], ◌∷◌, ◌==◌, has, IsDistinct, if◌then◌else◌, arith,
}
use mathlib.Core.Path.{subst}
use parallel_memory_allocato.Memlib.{null}
use parallel_memory_allocato.A2alloc.Sizes.{superblock_page_size}
use parallel_memory_allocato.A2alloc.State.{State, put_page}
use parallel_memory_allocato.A2alloc.Free.{chop}
use parallel_memory_allocato.A2alloc.Links.Splice.{Run}
use parallel_memory_allocato.A2alloc.Chop.{chop_round, chop_round-pages, chop-suc, chop-zero}

-- `m` pages from `p` on.
unfoldable pub pages_up : ℕ → ℕ → List ℕ
pages_up p zero = []
pages_up p (suc m) = p ∷ pages_up (p + superblock_page_size) m

-- The pages that the loop of `n` rounds makes of the block at `page`.
abbrev pub pieces : ℕ → ℕ → List ℕ
pieces page n = page ∷ pages_up (page + superblock_page_size) (n - 1)

pub pages_up_index :
    (p m a : ℕ)
    → has a (pages_up p m) ≡ true
    → (i : ℕ) × (i < m) × (a ≡ p + i * superblock_page_size)
unfolding pages_up
pages_up_index p zero a e = cc
pages_up_index p (suc m) a e = elim (Bool-cases (a == p)) [
  | inl t ↦ (0, omega arith, ground arith)
  | inr f ↦
      let (i, lt, q) = pages_up_index (p + superblock_page_size) m a (ground arith) in
      (suc i, omega arith, omega arith)
]

pages_up_below : (p m a : ℕ) → a < p → has a (pages_up p m) ≡ false
unfolding pages_up
pages_up_below p zero a lt = refl
pages_up_below p (suc m) a lt = ground (arith, pages_up_below (p + superblock_page_size) m a)

pages_up-IsDistinct : (p m : ℕ) → IsDistinct (pages_up p m)
unfolding pages_up
pages_up-IsDistinct p zero = tt
pages_up-IsDistinct p (suc m) = (
  pages_up_below (p + superblock_page_size) m p (omega arith),
  pages_up-IsDistinct (p + superblock_page_size) m,
)

pub pieces-IsDistinct : (page n : ℕ) → IsDistinct (pieces page n)
pieces-IsDistinct page n = (
  pages_up_below (page + superblock_page_size) (n - 1) page (omega arith),
  pages_up-IsDistinct _ _,
)

-- What the loop leaves alone.
chop_other :
    (n page tail prpage a : ℕ) (s : State)
    → has a (tail ∷ pages_up prpage n) ≡ false
    → (chop n page tail prpage s).1.pages a ≡ s.pages a
unfolding pages_up
chop_other zero page tail prpage a s o = rw (chop-zero page tail prpage s) refl
chop_other (suc n) page tail prpage a s o =
    let ne : a ≢ tail = ground arith in
    let ne' : a ≢ prpage = ground arith in
    rw (chop-suc n page tail prpage s) (
      chop_other n page prpage (prpage + superblock_page_size) a (chop_round page tail prpage s)
        (ground arith)
      ∙ chop_round-pages page tail prpage a s ne ne')

pub record SameElsewhere (s s' : State) : Type 0 where
  pub same_heaps : s'.heaps ≡ s.heaps
  pub same_cells : s'.cells ≡ s.cells
  pub same_dseg : s'.dseg ≡ s.dseg

chop_round-SameElsewhere :
    (page tail prpage : ℕ) (s : State) → SameElsewhere s (chop_round page tail prpage s)
unfolding chop_round put_page
chop_round-SameElsewhere page tail prpage s = record {
  same_heaps = refl;
  same_cells = refl;
  same_dseg = refl;
}

pub chop-SameElsewhere :
    (n page tail prpage : ℕ) (s : State) → SameElsewhere s (chop n page tail prpage s).1
chop-SameElsewhere zero page tail prpage s =
    rw (chop-zero page tail prpage s)
      (record { same_heaps = refl; same_cells = refl; same_dseg = refl })
chop-SameElsewhere (suc n) page tail prpage s =
    let r = chop_round-SameElsewhere page tail prpage s in
    let t =
      chop-SameElsewhere n page prpage (prpage + superblock_page_size)
        (chop_round page tail prpage s) in
    rw (chop-suc n page tail prpage s) (record {
      same_heaps = t.same_heaps ∙ r.same_heaps;
      same_cells = t.same_cells ∙ r.same_cells;
      same_dseg = t.same_dseg ∙ r.same_dseg;
    })

chop_round-next :
    (page tail prpage : ℕ) (s : State) → ((chop_round page tail prpage s).pages tail).next ≡ prpage
unfolding chop_round put_page
chop_round-next page tail prpage s = ground arith

-- The tail is the last page made, or the old tail.
chop_end :
    (n page tail prpage : ℕ) (s : State)
    → ((chop n page tail prpage s).0 ≡ tail) × (n ≡ 0) ⊎ (prpage ≤ (chop n page tail prpage s).0)
chop_end zero page tail prpage s = inl (rw (chop-zero page tail prpage s) refl, refl)
chop_end (suc n) page tail prpage s =
    rw (chop-suc n page tail prpage s)
      (elim (chop_end n page prpage (prpage + superblock_page_size)
        (chop_round page tail prpage s)) [
          | inl z ↦ inr (omega (arith, z.0))
          | inr le ↦ inr (omega arith)
        ])

-- The pointers `next` once the tail's is set to `q`.
abbrev pub closed : ℕ × State → ℕ → ℕ → ℕ
closed (e, s) q a = if a == e then q else (s.pages a).next

chop-Run :
    (n page tail prpage q : ℕ) (s : State)
    → tail < prpage
    → tail ≢ null
    → Run (closed (chop n page tail prpage s) q) tail (tail ∷ pages_up prpage n) q
unfolding pages_up
chop-Run zero page tail prpage q s lt nn =
    rw (chop-zero page tail prpage s) (refl, nn, ground arith)
chop-Run (suc n) page tail prpage q s lt nn =
    let s1 = chop_round page tail prpage s in
    let o : has tail (prpage ∷ pages_up (prpage + superblock_page_size) n) ≡ false =
      ground (arith, pages_up_below (prpage + superblock_page_size) n tail) in
    let kept = chop_other n page prpage (prpage + superblock_page_size) tail s1 o in
    let ends = chop_end n page prpage (prpage + superblock_page_size) s1 in
    let ne : (tail == (chop n page prpage (prpage + superblock_page_size) s1).0) ≡ false =
      ground arith in
    subst (λ r. Run (closed r q) tail (tail ∷ pages_up prpage (suc n)) q)
      (sym (chop-suc n page tail prpage s))
      (
        refl,
        nn,
        rw (ne, kept, chop_round-next page tail prpage s)
            (chop-Run n page prpage (prpage + superblock_page_size) q s1 (omega arith)
              (omega arith)),
      )

-- The loop as `large_free` starts it.
pub start-Run :
    (n page q : ℕ) (s : State)
    → page ≢ null
    → Run (closed (chop n page page page s) q) page (pieces page n) q
unfolding pages_up
start-Run zero page q s nn = rw (chop-zero page page page s) (refl, nn, one_page page q s)
  where
    one_page :
        (page q : ℕ) (s : State)
        → Run
            (closed (page, s) q)
            (closed (page, s) q page)
            (pages_up (page + superblock_page_size) 0)
            q
    one_page page q s = ground arith
start-Run (suc n) page q s nn =
    let pred : suc n - 1 ≡ n = omega arith in
    subst (λ r. Run (closed r q) page (pieces page (suc n)) q) (sym (chop-suc n page page page s))
      (rw pred (
        chop-Run n page page (page + superblock_page_size) q (chop_round page page page s)
          (omega arith) nn))

chop_end_in :
    (n page tail prpage : ℕ) (s : State)
    → has (chop n page tail prpage s).0 (tail ∷ pages_up prpage n) ≡ true
unfolding pages_up
chop_end_in zero page tail prpage s = rw (chop-zero page tail prpage s) (ground arith)
chop_end_in (suc n) page tail prpage s =
    let m =
      chop_end_in n page prpage (prpage + superblock_page_size) (chop_round page tail prpage s) in
    subst (λ r. has r.0 (tail ∷ pages_up prpage (suc n)) ≡ true)
      (sym (chop-suc n page tail prpage s)) (ground arith)

pub start_end : (n page : ℕ) (s : State) → has (chop n page page page s).0 (pieces page n) ≡ true
start_end zero page s = rw (chop-zero page page page s) (ground arith)
start_end (suc n) page s =
    let pred : suc n - 1 ≡ n = omega arith in
    subst (λ r. has r.0 (pieces page (suc n)) ≡ true) (sym (chop-suc n page page page s))
      (rw pred
        (chop_end_in n page page (page + superblock_page_size) (chop_round page page page s)))

pub Run-ext :
    (next next' : ℕ → ℕ) (p q : ℕ) (xs : List ℕ)
    → ((a : ℕ) → next' a ≡ next a)
    → Run next p xs q
    → Run next' p xs q
Run-ext next next' p q [] same r = r
Run-ext next next' p q (x ∷ xs) same (e, nn, rest) =
    (e, nn, rw (same x) (Run-ext next next' (next x) q xs same rest))

pub start_other :
    (n page a : ℕ) (s : State)
    → has a (pieces page n) ≡ false
    → (chop n page page page s).1.pages a ≡ s.pages a
start_other zero page a s o = rw (chop-zero page page page s) refl
start_other (suc n) page a s o =
    let pred : suc n - 1 ≡ n = omega arith in
    let o' = rw pred at o in
    let ne : a ≢ page = ground arith in
    rw (chop-suc n page page page s) (
      chop_other n page page (page + superblock_page_size) a (chop_round page page page s) o'
      ∙ chop_round-pages page page page a s ne ne)
