-- ===== src/Tests/Clients.antt =====
-- A client whose core dies while it adds a request twice: the first add's future is lost.
use lean_vllm.Prelude.{◌++◌, ◌≤◌, ◌≡◌, ◌⊎◌, refl, true, [], ◌∷◌, arith}
use lean_vllm.Prelude.Counting.{contains}
use lean_vllm.Prelude.Names
use lean_vllm.Engine.Core.{Reply}
use lean_vllm.EngineClient.{
  Client, Sending, begin_add, handle, started, die, fail_pending, settle, fail_named, fail_numbered,
  is_done,
}
use lean_vllm.EngineClient.Futures.{times}
use lean_vllm.EngineClient.Kept.{Waits}
use lean_vllm.EngineClient.Lifetime.{ClientStep, Reached, displaced, dead_client_lem}
use lean_vllm.Tests.Requests.{sampling}

abbrev asking : Client
asking = (begin_add started "a" (1 ∷ 2 ∷ []) sampling Sending.queued).0

abbrev asking_again : Client
asking_again = (begin_add asking "a" (1 ∷ 2 ∷ []) sampling Sending.queued).0

abbrev bereft : Client
bereft = (handle asking_again Reply.dead).0

abbrev bereft-Reached : Reached bereft (displaced asking "a" ++ (displaced started "a" ++ []))
bereft-Reached =
    Reached.steps asking_again bereft [] (displaced asking "a" ++ (displaced started "a" ++ []))
      (Reached.steps asking asking_again (displaced asking "a") (displaced started "a" ++ [])
        (Reached.steps started asking (displaced started "a") [] Reached.starts
          (ClientStep.adds started "a" (1 ∷ 2 ∷ []) sampling Sending.queued))
        (ClientStep.adds asking "a" (1 ∷ 2 ∷ []) sampling Sending.queued))
      (ClientStep.handles asking_again Reply.dead)

dead_client_example :
    (times 1 bereft.settled ≤ 1)
    × ((times 1 bereft.settled ≡ 1)
        ⊎ (Waits bereft.adding bereft.calls 1
            ⊎ (contains 1 (displaced asking "a" ++ (displaced started "a" ++ [])) ≡ true)))
    × (bereft.is_dead ≡ true
        → (times 1 bereft.settled ≡ 1)
          ⊎ (contains 1 (displaced asking "a" ++ (displaced started "a" ++ [])) ≡ true))
unfolding begin_add handle die fail_pending
dead_client_example = dead_client_lem bereft-Reached 1 (omega arith)

-- The future of the first add is not settled, and that of the second is.
bereft_run : (times 0 bereft.settled ≡ 0) × (times 1 bereft.settled ≡ 1)
unfolding begin_add handle die fail_pending settle fail_named fail_numbered is_done times Names.get
    Names.put
bereft_run = (refl, refl)
