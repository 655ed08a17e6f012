-- ===== src/Kheap/Heap/Tests.antt =====
-- A client that asks for a block of a size class and for a chunk.
use parallel_memory_allocato.Base.{
  ℕ, ◌<◌, ◌≡◌, refl, true, none, some, arith, Outcome, ok, stop, Returns,
}
use parallel_memory_allocato.Memlib.{null}
use parallel_memory_allocato.Client.Trace.{
  Client, set_held, malloc, Reach, start, next, InOrder, Serves,
}
use parallel_memory_allocato.Kheap.State.{State}
use parallel_memory_allocato.Kheap.Api.{mm_init, mm_malloc, mm_free}
use parallel_memory_allocato.Kheap.Heap.{Loc, fresh, recycled, sized, head, live, Allots, Frees}
use parallel_memory_allocato.Kheap.Heap.Calls.{IsBlank, mm_malloc-Allots_kheap, mm_free-Frees_kheap}
use parallel_memory_allocato.Kheap.Heap.Trace.{kheap, kheap-InOrder, kheap-Serves}
use parallel_memory_allocato.Kheap.Tests.{blank}
use parallel_memory_allocato.Kheap.Checks.{checksubpages}
use parallel_memory_allocato.Kheap.Heap.Checked.{kheap_checks}

blank-IsBlank : IsBlank blank
blank-IsBlank = record { lo = refl; end = refl; lists = λ l. zeros l; chunks = refl }
  where
    zeros : (l : Loc) → head blank l ≡ null
    zeros fresh = refl
    zeros recycled = refl
    zeros (sized t) = refl

abbrev first_state : State
first_state = elim (mm_init 4096 1 blank) [ none ↦ blank | some s ↦ s ]

started : mm_init 4096 1 blank ≡ some first_state
unfolding mm_init
started = refl

abbrev fuel : ℕ
fuel = 40000

abbrev served : Outcome (ℕ × State) → ℕ × State
served (ok r) = r
served (stop e) = (null, first_state)

abbrev none_held : Client kheap
none_held = record { state = first_state; held = λ a. none }

abbrev small_held : Client kheap
small_held = record {
  state = (served (mm_malloc fuel 100 first_state)).1;
  held = set_held (λ a. none) 12160 (some 100);
}

abbrev both_held : Client kheap
both_held = record {
  state = (served (mm_malloc fuel 5000 small_held.state)).1;
  held = set_held small_held.held 12296 (some 5000);
}

first_call : mm_malloc fuel 100 first_state ≡ ok (12160, small_held.state)
unfolding mm_malloc mm_init
first_call = refl

second_call : mm_malloc fuel 5000 small_held.state ≡ ok (12296, both_held.state)
unfolding mm_malloc mm_init
second_call = refl

none_held-Reach : Reach kheap none_held
none_held-Reach = start (4096, 1, blank, omega arith, refl, blank-IsBlank, started)

small_held-Reach : Reach kheap small_held
unfolding mm_malloc mm_init
small_held-Reach =
    next none_held-Reach
      (malloc fuel 100 12160 (omega arith) (omega arith) first_call (λ z. omega arith))

both_held-Reach : Reach kheap both_held
unfolding mm_malloc mm_init
both_held-Reach =
    next small_held-Reach
      (malloc fuel 5000 12296 (omega arith) (omega arith) second_call (λ z. omega arith))

kheap-InOrder_example : InOrder kheap both_held
kheap-InOrder_example = kheap-InOrder both_held-Reach

both_end : both_held.state.dseg.dseg_end < fuel
unfolding mm_malloc mm_init
both_end = omega arith

kheap-Serves_example : Returns (Serves kheap both_held 3000) (mm_malloc fuel 3000 both_held.state)
kheap-Serves_example = kheap-Serves both_held-Reach fuel both_end 3000 (omega arith)

order : InOrder kheap both_held
order = kheap-InOrder both_held-Reach

mm_malloc-Allots_kheap_example :
    Returns (Allots both_held.state order.view 2048) (mm_malloc fuel 2048 both_held.state)
mm_malloc-Allots_kheap_example =
    mm_malloc-Allots_kheap both_held.state order.view order.heap fuel both_end 2048 (omega arith)

small_live : live both_held.state order.view 12160 ≡ true
small_live = (order.held_live 12160 100 refl).0

mm_free-Frees_kheap_example :
    Returns (Frees both_held.state order.view 12160) (mm_free fuel 12160 both_held.state)
mm_free-Frees_kheap_example =
    mm_free-Frees_kheap both_held.state order.view order.heap fuel both_end 12160 small_live

kheap_checks_example : (sc : ℕ) × (checksubpages fuel both_held.state ≡ ok sc)
kheap_checks_example = kheap_checks both_held-Reach fuel both_end

both_checked : checksubpages fuel both_held.state ≡ ok 1
unfolding checksubpages mm_malloc mm_init
both_checked = refl
