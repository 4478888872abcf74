-- ===== src/Scheduler/Updates.antt =====
-- advance, reconcile and update_from_kv_connector_output of lean_vllm/engine/scheduler.py: what
-- becomes of the sequences of a step once it is launched, its tokens arrive, or their blocks are
-- transferred. A launched row stands beside the id of its sequence.
use lean_vllm.Prelude.{
  ℕ, ◌-◌, String, str_eq, Bool, true, false, Option, none, some, List, [], ◌∷◌, ◌++◌, if◌then◌else◌,
  assert, ◌>>=◌, ◌>>◌, leb,
}
use lean_vllm.Prelude.Dict
use lean_vllm.Prelude.Names
use lean_vllm.Sequence.{Sequence, SequenceStatus, is_finished}
use lean_vllm.BlockManager.{hash_blocks}
use lean_vllm.Policy.{Entry, entry_of}
use lean_vllm.Policy
use lean_vllm.Scheduler.{LaunchedRow, advance_row, reconcile_row}
use lean_vllm.Scheduler.State.{Scheduler, fetch, write, release_blocks, free, drop}

abbrev with_row : ℕ → Option LaunchedRow → List (ℕ × LaunchedRow) → List (ℕ × LaunchedRow)
with_row id none rows = rows
with_row id (some row) rows = (id, row) ∷ rows

unfoldable pub advance : Scheduler → List ℕ → Option (Scheduler × List (ℕ × LaunchedRow))
advance σ [] = some (σ, [])
advance σ (id ∷ ids) = do
  s ← fetch σ id
  (m, s', row) ← advance_row σ.config.num_speculative_tokens σ.block_manager s
  (σ', rows) ← advance (record σ { store = Dict.put id s' σ.store; block_manager = m }) ids
  some (σ', with_row id row rows)

-- The end of reconcile's loop body: a request with a reason leaves the scheduler.
unfoldable pub settle : Scheduler → ℕ → ℕ → Sequence → Option String → Option Scheduler
settle σ now id s none = some (write σ id s)
settle σ now id s (some reason) = do
  running ← Policy.remove id σ.running
  σ' ← drop (record σ { store = Dict.put id s σ.store; running = running }) now id s reason
  s' ← fetch σ' id
  free σ' id s'

abbrev settle_row :
    Scheduler → ℕ → ℕ → Option (Sequence × Option String) → Option (Scheduler × List ℕ)
settle_row σ now id none = some (σ, [])
settle_row σ now id (some (s, reason)) = do σ' ← settle σ now id s reason; some (σ', id ∷ [])

-- draft_token_ids[i], where there are any.
abbrev head_drafts : Option (List (List (Option ℕ))) → Option (Option (List (Option ℕ)))
head_drafts none = some none
head_drafts (some []) = none
head_drafts (some (drafts ∷ rest)) = some (some drafts)

abbrev tail_drafts : Option (List (List (Option ℕ))) → Option (List (List (Option ℕ)))
tail_drafts none = none
tail_drafts (some []) = some []
tail_drafts (some (drafts ∷ rest)) = some rest

-- The sequences that got tokens come back by id. A row without tokens is not looked at, and a token
-- of a row that is not speculative is a list of one. Fewer draft lists than token lists are a fault
-- at once; the source would fail when it reads the missing one.
unfoldable pub reconcile :
    Scheduler
    → ℕ
    → List (ℕ × LaunchedRow)
    → List (List ℕ)
    → Option (List (List (Option ℕ)))
    → Option (Scheduler × List ℕ)
reconcile σ now [] token_ids drafts = some (σ, [])
reconcile σ now (row ∷ rows) [] drafts = some (σ, [])
reconcile σ now ((id, row) ∷ rows) (tokens ∷ token_ids) drafts = do
  s ← fetch σ id
  own ← head_drafts drafts
  outcome ← reconcile_row σ.block_manager.settings σ.config.eos now row tokens own s
  (σ', stepped) ← settle_row σ now id outcome
  (σ2, rest) ← reconcile σ' now rows token_ids (tail_drafts drafts)
  some (σ2, stepped ++ rest)

abbrev release_sent : Scheduler → Option ℕ → Option Scheduler
release_sent σ none = some σ
release_sent σ (some id) = do s ← fetch σ id; release_blocks σ id s

-- The loop over finished_sending; a request that is not held is passed over.
unfoldable pub release_all_sent : Scheduler → List String → Option Scheduler
release_all_sent σ [] = some σ
release_all_sent σ (request_id ∷ rest) = do
  let held = Names.get request_id σ.sending
  σ' ← release_sent (record σ { sending = Names.without request_id σ.sending }) held
  release_all_sent σ' rest

abbrev pub listed : String → List String → Bool
listed k [] = false
listed k (x ∷ xs) = if str_eq x k then true else listed k xs

-- The blocks of a load that finished are published, but for the last prompt token; there is one, as
-- a request has a token.
unfoldable pub take_loaded : Scheduler → ℕ → Sequence → Option Scheduler
take_loaded σ id s = do
  assert (leb 1 s.num_prompt_tokens)
  let num_cached_tokens = s.num_prompt_tokens - 1
  (m, s') ←
      hash_blocks σ.block_manager (record s { num_cached_tokens = num_cached_tokens })
        num_cached_tokens
  some (record σ { store = Dict.put id s' σ.store; block_manager = m })

unfoldable pub resume : Scheduler → ℕ → Option Scheduler
resume σ id = do
  s ← fetch σ id
  some (record σ {
    store = Dict.put id (record s { status = SequenceStatus.running }) σ.store;
    running = σ.running ++ entry_of s ∷ [];
  })

-- One load ended; `none` is the KeyError of a request that does not load.
unfoldable pub end_load : Scheduler → List String → String → Option Scheduler
end_load σ finished_recving request_id = do
  id ← Names.get request_id σ.recving
  s ← fetch σ id
  let σ' = record σ { recving = Names.without request_id σ.recving }
  if is_finished s then release_blocks σ' id s else do
    σ2 ← if listed request_id finished_recving then take_loaded σ' id s else some σ'
    resume σ2 id

unfoldable pub end_loads : Scheduler → List String → List String → Option Scheduler
end_loads σ finished_recving [] = some σ
end_loads σ finished_recving (request_id ∷ rest) = do
  σ' ← end_load σ finished_recving request_id
  end_loads σ' finished_recving rest

-- The members of the second list that the first has not; `a | b` is `a ++ besides a b`.
abbrev pub besides : List String → List String → List String
besides xs [] = []
besides xs (y ∷ ys) = if listed y xs then besides xs ys else y ∷ besides xs ys

-- The three sets of the connector's output.
unfoldable pub update_from_kv_connector_output :
    Scheduler → List String → List String → List String → Option Scheduler
update_from_kv_connector_output σ finished_sending finished_recving failed_recving = do
  σ' ← release_all_sent σ finished_sending
  end_loads σ' finished_recving (finished_recving ++ besides finished_recving failed_recving)
