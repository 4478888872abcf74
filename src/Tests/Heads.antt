-- ===== src/Tests/Heads.antt =====
-- Twelve heads on two ranks, read from three.
use lean_vllm.Prelude.{◌≡◌, some, List, arith}
use lean_vllm.KvTransfer.Heads.{Share, head_shares, IsTiling, head_shares_lem}

head_shares_example :
    (shares : List Share) × (head_shares 1 2 3 12 ≡ some shares) × IsTiling 6 4 0 6 shares
head_shares_example =
    head_shares_lem 1 2 3 12 (omega arith) (omega arith) (omega arith) (omega arith)
