-- ===== src/A2alloc/Heap/Tests.antt =====
-- A client of the allocator that takes two blocks, and the theorems at its calls.
use parallel_memory_allocato.Base.{
  ℕ, ◌%◌, ◌+◌, ◌*◌, ◌≤◌, ◌≡◌, refl, none, some, arith, Outcome, ok, stop, Returns,
}
use parallel_memory_allocato.Memlib.{null}
use parallel_memory_allocato.A2alloc.State.{State}
use parallel_memory_allocato.A2alloc.Init.{mm_init, clear_heaps}
use parallel_memory_allocato.A2alloc.Malloc.{mm_malloc, find_page}
use parallel_memory_allocato.A2alloc.Free.{mm_free}
use parallel_memory_allocato.A2alloc.Tests.{blank}
use parallel_memory_allocato.A2alloc.Heap.Give.{Frees}
use parallel_memory_allocato.A2alloc.Heap.Take.{Allots}
use parallel_memory_allocato.A2alloc.Heap.FindPage.{Obtains, find_page-Obtains}
use parallel_memory_allocato.A2alloc.Heap.Malloc.{mm_malloc-Allots}
use parallel_memory_allocato.A2alloc.Heap.Free.{mm_free-Frees}
use parallel_memory_allocato.A2alloc.Heap.Init.{IsBare, Starts, mm_init-Starts}
use parallel_memory_allocato.Client.Trace.{
  Client, set_held, malloc, Reach, start, next, InOrder, Serves,
}
use parallel_memory_allocato.A2alloc.Heap.Trace.{
  a2alloc, Reach-InOrder, Reach-mm_malloc, Reach-mm_free, Reach-apart, Reach_bounds,
}

abbrev first_state : State
first_state = clear_heaps 3 0 (record blank {
  dseg = record {
    dseg_lo = 20480;
    dseg_end = 32768;
    dseg_size = 256 * 1024 * 1024;
    page_size = 4096;
  };
  number_of_processors = 2;
  heap_array = 24576;
})

started : mm_init 4096 20000 2 blank ≡ ok (some first_state)
unfolding mm_init clear_heaps
started = refl

blank-IsBare : IsBare 2 blank
blank-IsBare = (
  λ h lt. record {
    free_null = refl;
    complete_null = refl;
    large_null = refl;
    sizebases_null = λ t. refl;
  },
  λ h t le. refl,
)

abbrev served : Outcome (ℕ × State) → ℕ × State
served (ok r) = r
served (stop e) = (null, first_state)

abbrev none_held : Client a2alloc
none_held = record { state = first_state; held = λ a. none }

abbrev one_held : Client a2alloc
one_held = record {
  state = (served (mm_malloc 0 2000 first_state)).1;
  held = set_held (λ a. none) 36904 (some 2000);
}

abbrev two_held : Client a2alloc
two_held = record {
  state = (served (mm_malloc 0 2000 one_held.state)).1;
  held = set_held one_held.held 34856 (some 2000);
}

first_call : mm_malloc 0 2000 first_state ≡ ok (36904, one_held.state)
unfolding mm_malloc clear_heaps
first_call = refl

second_call : mm_malloc 0 2000 one_held.state ≡ ok (34856, two_held.state)
unfolding mm_malloc clear_heaps
second_call = refl

none_held-Reach : Reach a2alloc none_held
none_held-Reach = start (4096, 20000, 2, blank, omega arith, refl, blank-IsBare, started)

one_held-Reach : Reach a2alloc one_held
one_held-Reach =
    next none_held-Reach (malloc 0 2000 36904 tt (omega arith) first_call (λ z. omega arith))

two_held-Reach : Reach a2alloc two_held
two_held-Reach =
    next one_held-Reach (malloc 0 2000 34856 tt (omega arith) second_call (λ z. omega arith))

Reach-InOrder_example : InOrder a2alloc two_held
Reach-InOrder_example = Reach-InOrder two_held-Reach

Reach-mm_malloc_example : Returns (Serves a2alloc two_held 100) (mm_malloc 1 100 two_held.state)
Reach-mm_malloc_example = Reach-mm_malloc two_held-Reach 1 100 (omega arith)

Reach-mm_free_example : (s : State) × (mm_free 36904 two_held.state ≡ ok s)
Reach-mm_free_example = Reach-mm_free two_held-Reach 36904 2000 refl

Reach-apart_example : 34856 + 2000 ≤ 36904
Reach-apart_example = Reach-apart two_held-Reach 34856 36904 2000 2000 (omega arith) refl refl

Reach_bounds_example :
    (two_held.state.dseg.dseg_lo ≤ 34856)
    × (34856 + 2000 ≤ two_held.state.dseg.dseg_end)
    × (34856 % 8 ≡ 0)
Reach_bounds_example = Reach_bounds two_held-Reach 34856 2000 refl

mm_init-Starts_example : Returns Starts (mm_init 4096 20000 2 blank)
mm_init-Starts_example = mm_init-Starts 4096 20000 2 blank (omega arith) refl blank-IsBare

first_order : InOrder a2alloc none_held
first_order = Reach-InOrder none_held-Reach

second_order : InOrder a2alloc two_held
second_order = Reach-InOrder two_held-Reach

mm_malloc-Allots_example :
    Returns (Allots first_state first_order.view 5000) (mm_malloc 1 5000 first_state)
mm_malloc-Allots_example =
    mm_malloc-Allots first_state first_order.view first_order.heap 1 5000 (omega arith)

mm_free-Frees_example :
    Returns (Frees two_held.state second_order.view 34856) (mm_free 34856 two_held.state)
mm_free-Frees_example =
    mm_free-Frees two_held.state second_order.view second_order.heap 34856
      (second_order.held_live 34856 2000 refl).0

find_page-Obtains_example :
    Returns (Obtains two_held.state second_order.view) (find_page two_held.state 2)
find_page-Obtains_example = find_page-Obtains two_held.state second_order.view second_order.heap 2
