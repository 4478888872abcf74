-- ===== src/Sequence/Commit.antt =====
-- What create, commit_token and append_token keep: the counters and the block hashes agree with the
-- tokens.
use native.Mathlib.Numerals.{add-one}
use lean_vllm.Prelude.{
  ℕ, zero, suc, ◌+◌, ◌-◌, ◌*◌, ◌/◌, ◌≤◌, ◌<◌, ◌≡◌, refl, ap, sym, ◌∙◌, String, none, some, List, [],
  ◌∷◌, ◌++◌, arith, if◌then◌else◌, length, get_last?, length-append, Bool-cases, inl, inr, lt→ltb,
}
use lean_vllm.Prelude.Blocks.{mul-add-le, lt-div_up, div-mul-le, div_mono}
use lean_vllm.Sequence.{
  Settings, Sequence, SamplingParams, slice, num_blocks, block, hash_rest, extend_block_hashes,
  create, commit_token, num_completion_tokens, new_request,
}
use lean_vllm.Sequence.Chain.{
  hash_chain, get_last?-append, length-hash_chain, get_last?-hash_chain, hash_chain-append,
}

-- The hashes that a request with these tokens has.
abbrev pub expected_hashes : Settings → List ℕ → List ℕ
expected_hashes c tokens =
    if c.enable_prefix_caching then hash_chain c (length tokens / c.block_size) tokens else []

pub record IsHashed (c : Settings) (s : Sequence) : Type 0 where
  pub counted : s.num_tokens ≡ length s.token_ids
  pub prompt : s.num_prompt_tokens ≤ s.num_tokens
  pub last : get_last? s.token_ids ≡ some s.last_token
  pub hashes : s.block_hashes ≡ expected_hashes c s.token_ids

-- The same tokens are hashed as well.
pub IsHashed-same :
    (c : Settings) (s s' : Sequence)
    → IsHashed c s
    → (s'.token_ids ≡ s.token_ids)
      × (s'.num_tokens ≡ s.num_tokens)
      × (s'.num_prompt_tokens ≡ s.num_prompt_tokens)
      × (s'.last_token ≡ s.last_token)
      × (s'.block_hashes ≡ s.block_hashes)
    → IsHashed c s'
IsHashed-same c s s' h (tokens, num, prompt, last, hashes) = record {
  counted = num ∙ h.counted ∙ ap length (sym tokens);
  prompt = omega (arith, num, prompt, h.prompt);
  last = ap get_last? tokens ∙ h.last ∙ ap some (sym last);
  hashes = hashes ∙ h.hashes ∙ ap (expected_hashes c) (sym tokens);
}

get_last?_total : (x : ℕ) (xs : List ℕ) → (y : ℕ) × (get_last? (x ∷ xs) ≡ some y)
get_last?_total x [] = (x, refl)
get_last?_total x (y ∷ ys) = get_last?_total y ys

get_last?-length : (xs : List ℕ) {x : ℕ} → get_last? xs ≡ some x → 0 < length xs
get_last?-length [] h = cc
get_last?-length (x ∷ xs) h = omega arith

pub IsHashed-nonempty : (c : Settings) (s : Sequence) → IsHashed c s → 0 < s.num_tokens
IsHashed-nonempty c s v = omega (arith, v.counted, get_last?-length s.token_ids v.last)

module _ (c : Settings) (positive : 0 < c.block_size) where
  -- A block that the tokens fill lies below `num_blocks`, so the assertion of `block` holds.
  block_in_range :
      (i tokens pending : ℕ)
      → i * c.block_size + c.block_size ≤ tokens
      → i < (tokens + pending + c.block_size - 1) / c.block_size
  block_in_range i tokens pending h =
      lt-div_up i (tokens + pending) c.block_size positive (omega arith)

  block_full :
      (s : Sequence) (i : ℕ)
      → i * c.block_size + c.block_size ≤ s.num_tokens
      → block c s i ≡ some (slice c.block_size i s.token_ids)
  unfolding block num_blocks
  block_full s i h = rw (lt→ltb _ _ (block_in_range i s.num_tokens s.num_pending_tokens h))

  abbrev with_hashes : Sequence → List ℕ → Sequence
  with_hashes s hashes = record s { block_hashes = hashes }

  hash_rest_lem :
      (left i j : ℕ) (s : Sequence)
      → i + left ≡ j
      → j * c.block_size ≤ s.num_tokens
      → s.block_hashes ≡ hash_chain c i s.token_ids
      → hash_rest c left i s ≡ some (with_hashes s (hash_chain c j s.token_ids))
  unfolding hash_rest
  hash_rest_lem zero i j s e h g =
      ap (λ hs. some (with_hashes s hs)) (let e' : i ≡ j = omega arith in rw (← e') g)
  hash_rest_lem (suc left) i j s e h g =
      rw (block_full s i (omega (arith, mul-add-le i j c.block_size (omega arith)))) (
        hash_rest_lem left (i + 1) j (with_hashes s _) (omega arith) h
          (rw (add-one, g, get_last?-hash_chain c i s.token_ids)))

  extend_block_hashes_lem :
      (k : ℕ) (s : Sequence)
      → s.num_tokens ≡ length s.token_ids
      → k ≤ s.num_tokens / c.block_size
      → s.block_hashes ≡ (if c.enable_prefix_caching then hash_chain c k s.token_ids else [])
      → extend_block_hashes c s ≡ some (with_hashes s (expected_hashes c s.token_ids))
  unfolding extend_block_hashes
  extend_block_hashes_lem k s e h g = elim (Bool-cases c.enable_prefix_caching) [
    | inl on ↦
        let g' : s.block_hashes ≡ hash_chain c k s.token_ids = g ∙ simp on in
        simp (on, ap length g', length-hash_chain, ← e)
          (hash_rest_lem _ k (s.num_tokens / c.block_size) s (omega arith)
            (div-mul-le s.num_tokens c.block_size) g')
    | inr off ↦ simp off (ap (λ hs. some (with_hashes s hs)) (g ∙ simp off))
  ]

  -- The hashes of the blocks that were full stay those of the longer list.
  kept_hashes :
      (n : ℕ) (xs ys : List ℕ)
      → n ≡ length xs
      → expected_hashes c xs
        ≡ (if c.enable_prefix_caching then hash_chain c (n / c.block_size) (xs ++ ys) else [])
  kept_hashes n xs ys h =
      simp (
        ← h,
        hash_chain-append c (n / c.block_size) xs ys (omega (arith, div-mul-le n c.block_size)),
      )

  -- The request after one more token.
  abbrev pub committed : Sequence → ℕ → Sequence
  committed s token = record s {
    token_ids = s.token_ids ++ token ∷ [];
    last_token = token;
    num_tokens = s.num_tokens + 1;
    num_pending_tokens = s.num_pending_tokens - 1;
    block_hashes = expected_hashes c (s.token_ids ++ token ∷ []);
  }

  pub commit_token_returns :
      (s : Sequence) (token : ℕ)
      → IsHashed c s
      → 0 < s.num_pending_tokens
      → (commit_token c s token ≡ some (committed s token)) × IsHashed c (committed s token)
  unfolding commit_token
  commit_token_returns s token v h =
      let next : Sequence = record s {
        token_ids = s.token_ids ++ token ∷ [];
        last_token = token;
        num_tokens = s.num_tokens + 1;
        num_pending_tokens = s.num_pending_tokens - 1;
      } in
      let n : length next.token_ids ≡ s.num_tokens + 1 =
        omega (arith, v.counted, length-append s.token_ids (token ∷ [])) in
      (
        rw (lt→ltb _ _ h) (
            extend_block_hashes_lem (s.num_tokens / c.block_size) next (sym n)
              (div_mono s.num_tokens (s.num_tokens + 1) c.block_size positive (omega arith))
              (v.hashes ∙ kept_hashes s.num_tokens s.token_ids (token ∷ []) v.counted)),
        record {
          counted = sym n;
          prompt = omega (arith, v.prompt);
          last = get_last?-append s.token_ids token;
          hashes = refl;
        },
      )

  -- On a request with a reservation, commit_token succeeds: the token is appended, one reservation
  -- is used up, the counters, the last token and the block hashes agree with the tokens again, and
  -- the block table and num_cached_tokens are as before.
  pub commit_token_lem :
      (s : Sequence) (token : ℕ)
      → IsHashed c s
      → 0 < s.num_pending_tokens
      → (s' : Sequence) × (commit_token c s token ≡ some s')
        × IsHashed c s'
        × (s'.token_ids ≡ s.token_ids ++ token ∷ [])
        × (s'.num_pending_tokens + 1 ≡ s.num_pending_tokens)
        × (s'.block_table ≡ s.block_table)
        × (s'.num_cached_tokens ≡ s.num_cached_tokens)
  commit_token_lem s token v h =
      let (returns, hashed) = commit_token_returns s token v h in
      (committed s token, returns, hashed, refl, omega arith, refl, refl)

  -- With no reservation the assertion of commit_token fails.
  pub commit_token-unreserved :
      (s : Sequence) (token : ℕ) → s.num_pending_tokens ≡ 0 → commit_token c s token ≡ none
  unfolding commit_token
  commit_token-unreserved s token h = simp h

  -- A request is created from any nonempty prompt, with its whole prompt counted and the full
  -- blocks of the prompt hashed.
  pub create_lem :
      (seq_id now : ℕ) (x : ℕ) (xs : List ℕ) (params : SamplingParams) (request_id : String)
      → (s : Sequence) × (create c seq_id now (x ∷ xs) params request_id ≡ some s)
        × IsHashed c s
        × (s.token_ids ≡ x ∷ xs)
        × (num_completion_tokens s ≡ 0)
        × (s.block_table ≡ [])
  unfolding create new_request num_completion_tokens
  create_lem seq_id now x xs params request_id =
      let (y, e) = get_last?_total x xs in
      let s : Sequence = new_request seq_id now (x ∷ xs) y params request_id in
      (
        with_hashes s (expected_hashes c (x ∷ xs)),
        rw e (extend_block_hashes_lem 0 s refl (omega arith) (ground arith)),
        record { counted = refl; prompt = omega arith; last = e; hashes = refl },
        refl,
        omega arith,
        refl,
      )
