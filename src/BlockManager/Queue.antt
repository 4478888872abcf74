-- ===== src/BlockManager/Queue.antt =====
-- FreeKVCacheBlockQueue of lean_vllm/engine/block_manager.py: an OrderedDict from block ids to
-- blocks, as the list of its keys, least recently released first.
use lean_vllm.Prelude.{ℕ, Option, none, some, List, [], ◌∷◌, ◌++◌, if◌then◌else◌, assert, ◌>>◌}
use lean_vllm.Prelude.Counting.{contains, erase}

unfoldable pub popleft : List ℕ → Option (ℕ × List ℕ)
popleft [] = none
popleft (block_id ∷ rest) = some (block_id, rest)

unfoldable pub remove : ℕ → List ℕ → Option (List ℕ)
remove block_id q = do assert (contains block_id q); some (erase block_id q)

-- An assignment to a key that is there keeps its place.
unfoldable pub append : ℕ → List ℕ → List ℕ
append block_id q = if contains block_id q then q else q ++ block_id ∷ []
