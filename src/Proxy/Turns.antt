-- ===== src/Proxy/Turns.antt =====
-- Whose turn it is (lean_vllm/entrypoints/disagg_proxy.py).
use mathlib.Core.List.{append-nil, append_assoc}
use lean_vllm.Prelude.{
  ℕ, zero, suc, ◌≡◌, sym, ap, ◌∙◌, Option, some, List, [], ◌∷◌, ◌++◌, length, ◌>>=◌,
}
use lean_vllm.Proxy.{next_turn}

-- The servers of n requests in a row, and the turns after them.
unfoldable pub take_turns {ℓ} : {A : Type ℓ} → ℕ → List A → Option (List A × List A)
take_turns zero urls = some ([], urls)
take_turns (suc n) urls = do
  (url, urls') ← next_turn urls
  (served, urls2) ← take_turns n urls'
  some (url ∷ served, urls2)

turns_from {ℓ} :
    {A : Type ℓ} (front back : List A)
    → take_turns (length front) (front ++ back) ≡ some (front, back ++ front)
unfolding take_turns next_turn
turns_from [] back = ap (λ xs. some ([], xs)) (sym (append-nil back))
turns_from (url ∷ front) back =
    let rest : take_turns (length front) (front ++ back ++ url ∷ [])
        ≡ some (front, (back ++ url ∷ []) ++ front) =
      ap (λ xs. take_turns (length front) xs) (append_assoc front back (url ∷ []))
      ∙ turns_from front (back ++ url ∷ []) in
    simp rest (ap (λ xs. some (url ∷ front, xs)) (append_assoc back (url ∷ []) front))

-- As many requests in a row as there are servers go to each server once and in order, and then it is
-- the first one's turn again.
pub turns_lem {ℓ} : {A : Type ℓ} (urls : List A) → take_turns (length urls) urls ≡ some (urls, urls)
turns_lem urls = ap (λ xs. take_turns (length urls) xs) (sym (append-nil urls)) ∙ turns_from urls []
