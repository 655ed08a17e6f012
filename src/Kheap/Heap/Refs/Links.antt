-- ===== src/Kheap/Heap/Refs/Links.antt =====
-- The loop of `allocpageref` that links a new page of page references.
use parallel_memory_allocato.Base.{
  ℕ, zero, suc, ◌+◌, ◌*◌, ◌≤◌, ◌<◌, ◌≡◌, ◌≢◌, refl, ◌∙◌, true, false, List, [], ◌∷◌, has,
  IsDistinct, arith, ◌==◌, if◌then◌else◌,
}
use parallel_memory_allocato.Memlib.{null}
use parallel_memory_allocato.A2alloc.Blocks.{Chain}
use parallel_memory_allocato.Kheap.Sizes.{sizeof_pageref}
use parallel_memory_allocato.Kheap.State.{State, put_ref}
use parallel_memory_allocato.Kheap.PageRefs.{link_refs}
use parallel_memory_allocato.Kheap.PageRefs.Remove.{next}
use parallel_memory_allocato.Kheap.Heap.{ref_data}

-- The `n + 1` page references from `p` on.
unfoldable pub refs_up : ℕ → ℕ → List ℕ
refs_up zero p = p ∷ []
refs_up (suc n) p = p ∷ refs_up n (p + sizeof_pageref)

pub has-refs_up : (n p a : ℕ) → has a (refs_up n p) ≡ true → (p ≤ a) × (a ≤ p + n * sizeof_pageref)
unfolding refs_up
has-refs_up zero p a m = ground arith
has-refs_up (suc n) p a m = ground (arith, has-refs_up n (p + sizeof_pageref) a)

behind : (n p a : ℕ) → a < p → has a (refs_up n p) ≡ false
unfolding refs_up
behind zero p a lt = ground arith
behind (suc n) p a lt = ground (arith, behind n (p + sizeof_pageref) a)

pub refs_up-IsDistinct : (n p : ℕ) → IsDistinct (refs_up n p)
unfolding refs_up
refs_up-IsDistinct zero p = (refl, tt)
refs_up-IsDistinct (suc n) p =
    (behind n (p + sizeof_pageref) p (omega arith), refs_up-IsDistinct n (p + sizeof_pageref))

step : State → ℕ → ℕ → State
unfolding put_ref
step s p after = put_ref s p (record (s.refs p) { next = after })

step-next :
    (s : State) (p after a : ℕ) → next (step s p after) a ≡ (if a == p then after else next s a)
unfolding step put_ref
step-next s p after a = ground arith

step-data : (s : State) (p after a : ℕ) → ref_data ((step s p after).refs a) ≡ ref_data (s.refs a)
unfolding step put_ref
step-data s p after a = ground arith

-- The loop changes `refs` and nothing else.
pub link_refs-refs :
    (n p : ℕ) (s : State) → link_refs n p s ≡ record s { refs = (link_refs n p s).refs }
unfolding link_refs put_ref
link_refs-refs zero p s = refl
link_refs-refs (suc n) p s = link_refs-refs n (p + sizeof_pageref) _

pub link_refs-data :
    (n p : ℕ) (s : State) (a : ℕ) → ref_data ((link_refs n p s).refs a) ≡ ref_data (s.refs a)
unfolding link_refs step
link_refs-data zero p s a = step-data s p null a
link_refs-data (suc n) p s a =
    link_refs-data n (p + sizeof_pageref) (step s p (p + sizeof_pageref)) a
    ∙ step-data s p (p + sizeof_pageref) a

pub link_refs-other :
    (n p : ℕ) (s : State) (a : ℕ)
    → has a (refs_up n p) ≡ false
    → next (link_refs n p s) a ≡ next s a
unfolding link_refs step refs_up
link_refs-other zero p s a o =
    let ne : (a == p) ≡ false = ground arith in step-next s p null a ∙ rw ne refl
link_refs-other (suc n) p s a o =
    let ne : (a == p) ≡ false = ground arith in
    link_refs-other n (p + sizeof_pageref) (step s p (p + sizeof_pageref)) a (ground arith)
    ∙ step-next s p (p + sizeof_pageref) a
    ∙ rw ne refl

pub link_refs-Chain :
    (n p : ℕ) (s : State) → p ≢ null → Chain (next (link_refs n p s)) p (refs_up n p)
unfolding link_refs step refs_up
link_refs-Chain zero p s nn =
    let self : (p == p) ≡ true = ground arith in (refl, nn, step-next s p null p ∙ rw self refl)
link_refs-Chain (suc n) p s nn =
    let self : (p == p) ≡ true = ground arith in
    let s1 = step s p (p + sizeof_pageref) in
    let e : next (link_refs n (p + sizeof_pageref) s1) p ≡ p + sizeof_pageref =
      link_refs-other n (p + sizeof_pageref) s1 p (behind n (p + sizeof_pageref) p (omega arith))
      ∙ step-next s p (p + sizeof_pageref) p
      ∙ rw self refl in
    (refl, nn, rw e (link_refs-Chain n (p + sizeof_pageref) s1 (omega arith)))
