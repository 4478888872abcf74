-- ===== src/Scheduler/Sound.antt =====
-- What holds between two operations of the scheduler: the store's block tables and the block
-- manager, and what the queues' sequences have.
use mathlib.Core.Option.{some-injective}
use lean_vllm.Prelude.{
  subst, ℕ, ◌+◌, ◌≤◌, ◌<◌, ◌≡◌, sym, ap, ◌∙◌, inl, inr, String, true, false, none, some, List, [],
  ◌∷◌, arith, ◌==◌, Bool-cases,
}
use lean_vllm.Prelude.Counting.{count}
use lean_vllm.Prelude.Dict
use lean_vllm.Prelude.Names
use lean_vllm.Sequence.{Settings, Sequence}
use lean_vllm.Sequence.Commit.{IsHashed}
use lean_vllm.BlockManager.{BlockManager}
use lean_vllm.BlockManager.Valid.{IsValid, IsValid-ext, hold}

-- How often the tables of the store's sequences name a block.
abbrev pub total : List (ℕ × Sequence) → ℕ → ℕ
total [] i = 0
total ((id, s) ∷ d) i = count i s.block_table + total d i

pub total-put :
    (id : ℕ) (s s' : Sequence) (d : List (ℕ × Sequence)) (i : ℕ)
    → Dict.get id d ≡ some s
    → total (Dict.put id s' d) i + count i s.block_table ≡ total d i + count i s'.block_table
unfolding Dict.get Dict.put
total-put id s s' [] i h = cc
total-put id s s' ((j, t) ∷ d) i h = elim (Bool-cases (j == id)) [
  | inl here ↦
      let e : t ≡ s = ground arith in
      let c : count i t.block_table ≡ count i s.block_table = ap (λ x. count i x.block_table) e in
      simp here (omega arith)
  | inr there ↦
      let h' : Dict.get id d ≡ some s = ground arith in
      simp there (omega (arith, total-put id s s' d i h'))
]

pub total-put_new :
    (id : ℕ) (s' : Sequence) (d : List (ℕ × Sequence)) (i : ℕ)
    → Dict.get id d ≡ none
    → total (Dict.put id s' d) i ≡ total d i + count i s'.block_table
unfolding Dict.get Dict.put
total-put_new id s' [] i h = omega arith
total-put_new id s' ((j, t) ∷ d) i h = elim (Bool-cases (j == id)) [
  | inl here ↦ absurd (ground arith)
  | inr there ↦
      let h' : Dict.get id d ≡ none = ground arith in
      simp there (omega (arith, total-put_new id s' d i h'))
]

-- The tables of all sequences but one.
abbrev pub rest_of : ℕ → Sequence → List (ℕ × Sequence) → ℕ → ℕ
rest_of id s d = total (Dict.put id (record s { block_table = [] }) d)

pub focus :
    {m : BlockManager} (id : ℕ) (s : Sequence) (d : List (ℕ × Sequence))
    → Dict.get id d ≡ some s
    → IsValid m (total d)
    → IsValid m (hold s.block_table (rest_of id s d))
focus id s d h v =
    IsValid-ext _ _ (λ i. omega (arith, total-put id s (record s { block_table = [] }) d i h)) v

pub unfocus :
    {m : BlockManager} (id : ℕ) (s s' : Sequence) (d : List (ℕ × Sequence))
    → Dict.get id d ≡ some s
    → IsValid m (hold s'.block_table (rest_of id s d))
    → IsValid m (total (Dict.put id s' d))
unfocus id s s' d h v =
    IsValid-ext _ _
      (λ i.
        omega
          (arith, total-put id s (record s { block_table = [] }) d i h, total-put id s s' d i h))
      v

-- A live request: `seqs` names the sequence, and it is hashed as its tokens.
pub record Known (c : Settings) (store : List (ℕ × Sequence)) (seqs : List (String × ℕ)) (id : ℕ)
    : Type 0 where
  pub sequence : Sequence
  pub there : Dict.get id store ≡ some sequence
  pub hashed : IsHashed c sequence
  pub named : Names.get sequence.request_id seqs ≡ some id

-- A sequence that waits holds nothing, and starts with its prompt.
abbrev pub IsIdle : Sequence → Type 0
IsIdle s = (s.num_pending_tokens ≡ 0) × (s.is_prefill ≡ true) × (s.block_table ≡ [])

-- `w` and `a` count how often an id stands in the waiting queue, and among the active sequences.
pub record IsSound (m : BlockManager) (store : List (ℕ × Sequence)) (seqs : List (String × ℕ))
    (w a : ℕ → ℕ) : Type 0 where
  pub positive : 0 < m.settings.block_size
  pub blocks : IsValid m (total store)
  pub distinct : (id : ℕ) → w id + a id ≤ 1
  pub known : (id : ℕ) → 0 < w id + a id → Known m.settings store seqs id
  pub idle : (id : ℕ) (s : Sequence) → 0 < w id → Dict.get id store ≡ some s → IsIdle s

-- Other counts of the same queues, where what waits is idle.
pub requeued :
    {m : BlockManager} {store : List (ℕ × Sequence)} {seqs : List (String × ℕ)} (w a w' a' : ℕ → ℕ)
    → IsSound m store seqs w a
    → ((id : ℕ) → w' id + a' id ≤ w id + a id)
    → ((id : ℕ) (s : Sequence) → 0 < w' id → Dict.get id store ≡ some s → IsIdle s)
    → IsSound m store seqs w' a'
requeued w a w' a' v fewer idle = record {
  positive = v.positive;
  blocks = v.blocks;
  distinct = λ id. omega (arith, fewer id, v.distinct id);
  known = λ id h. v.known id (omega (arith, fewer id));
  idle = idle;
}

-- One sequence, which is idle, may come to the waiting queue.
pub queued :
    {m : BlockManager} {store : List (ℕ × Sequence)} {seqs : List (String × ℕ)} (w a w' a' : ℕ → ℕ)
    (id : ℕ) (s : Sequence)
    → IsSound m store seqs w a
    → ((j : ℕ) → w' j + a' j ≤ w j + a j)
    → ((j : ℕ) → id == j ≡ false → w' j ≤ w j)
    → Dict.get id store ≡ some s
    → IsIdle s
    → IsSound m store seqs w' a'
queued {store = store} w a w' a' id s v fewer waiting there idle =
    requeued w a w' a' v fewer (λ j t h g. elim (Bool-cases (id == j)) [
      | inl here ↦
          let e : id ≡ j = ground arith in
          let e' : s ≡ t = some-injective _ _ (sym there ∙ ap (λ i. Dict.get i store) e ∙ g) in
          subst IsIdle e' idle
      | inr other ↦ v.idle j t (omega (arith, waiting j other)) g
    ])

-- A stored sequence of one of the queues.
pub known_at :
    {m : BlockManager} {store : List (ℕ × Sequence)} {seqs : List (String × ℕ)} {w a : ℕ → ℕ}
    (id : ℕ) (s : Sequence)
    → IsSound m store seqs w a
    → 0 < w id + a id
    → Dict.get id store ≡ some s
    → IsHashed m.settings s × (Names.get s.request_id seqs ≡ some id)
known_at {m} {seqs = seqs} id s v h there =
    let k = v.known id h in
    let e : k.sequence ≡ s = some-injective _ _ (sym k.there ∙ there) in
    (
      subst (IsHashed m.settings) e k.hashed,
      subst (λ t. Names.get t.request_id seqs ≡ some id) e k.named,
    )

pub get_self :
    (id : ℕ) (s : Sequence) (store : List (ℕ × Sequence))
    → Dict.get id (Dict.put id s store) ≡ some s
get_self id s store = Dict.get-put id id s store ∙ ground arith

pub get_other :
    (id j : ℕ) (s : Sequence) (store : List (ℕ × Sequence))
    → id == j ≡ false
    → Dict.get j (Dict.put id s store) ≡ Dict.get j store
get_other id j s store h = Dict.get-put id j s store ∙ simp h
