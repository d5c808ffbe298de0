-- ===== src/Sync/Tests.antt =====
-- Runs of the semaphore of kernel/source/lib/semaphore.cpp.
use ilobilix.Base.{◌≡◌, refl, [], ◌∷◌, some}
use ilobilix.Sync.{Semaphore, init, remove_one, wait, interrupted}
use ilobilix.Sync.Queue.{Step, Reachable, Balanced, Once, Reachable-IsFit}
use ilobilix.Sync.Order.{sleeping, wait_all, signal_all, as_woken, signal_all-wait_all}

abbrev waiting : Semaphore
waiting = (wait 7 init).1

waiting-Reachable : Reachable waiting
unfolding init
waiting-Reachable = Reachable.next Reachable.start (Step.waits init 7 tt)

interrupted_back : interrupted 7 waiting ≡ init
unfolding interrupted wait init remove_one
interrupted_back = refl

Reachable-IsFit_example : Balanced waiting × Once waiting.threads
Reachable-IsFit_example = Reachable-IsFit waiting-Reachable

signal_all-wait_all_example :
    signal_all 3 (wait_all (5 ∷ 3 ∷ 8 ∷ []) (sleeping []))
    ≡ some (as_woken (5 ∷ 3 ∷ 8 ∷ []), sleeping [])
signal_all-wait_all_example = signal_all-wait_all (5 ∷ 3 ∷ 8 ∷ [])
