-- ===== src/Search/Tests.antt =====
-- The search at concrete machines: a thread on core 2 of four or of five worker cores.
use os_p.Base.{ℕ, ◌*◌, ◌≡◌, Bool, some, arith, ◌==◌, ==_false}
use os_p.Search.{ethread, make_runnable_search}
use os_p.Search.Route.{make_runnable_search-even}

abbrev on_core_2 : ℕ → ℕ → Bool
on_core_2 core tid = core == 2

make_runnable_search-even_example : make_runnable_search (2 * 2) on_core_2 2 1 7 ≡ some ethread
make_runnable_search-even_example =
    make_runnable_search-even 2 on_core_2 1 7 (omega arith) (omega arith)
      (λ c e. ==_false c 2 (λ q. omega (arith, q, e)))
