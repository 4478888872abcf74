-- ===== src/Tests/Stops.antt =====
-- Streams with a stop string.
use lean_vllm.Prelude.{◌≡◌, refl, [], ◌∷◌, ◌⊎◌}
use lean_vllm.StopChecker.{StopChecker, create, push}
use lean_vllm.StopChecker
use lean_vllm.StopChecker.Emission.{IsStreaming, IsStopped, create-IsStreaming, push-Pushed}

abbrev checker : StopChecker
checker = create ((5 ∷ 6 ∷ []) ∷ [] ∷ [])

push-Pushed_example :
    IsStreaming (push checker (1 ∷ 2 ∷ 5 ∷ [])).1 (1 ∷ 2 ∷ 5 ∷ []) (push checker (1 ∷ 2 ∷ 5 ∷ [])).0
    ⊎ IsStopped (push checker (1 ∷ 2 ∷ 5 ∷ [])).1 (1 ∷ 2 ∷ 5 ∷ []) (push checker (1 ∷ 2 ∷ 5 ∷ [])).0
push-Pushed_example =
    push-Pushed checker [] [] (1 ∷ 2 ∷ 5 ∷ []) (create-IsStreaming ((5 ∷ 6 ∷ []) ∷ [] ∷ []))

-- The tail that may begin the stop string is held back.
held_back : (push checker (1 ∷ 2 ∷ 5 ∷ [])).0 ≡ 1 ∷ 2 ∷ []
unfolding push create StopChecker.scan StopChecker.nonempty StopChecker.find_first StopChecker.find
    StopChecker.starts_with StopChecker.max_length
held_back = refl
