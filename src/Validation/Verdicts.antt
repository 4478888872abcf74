-- ===== src/Validation/Verdicts.antt =====
-- A request passes validate_request exactly if the engine can serve it as asked.
use lean_vllm.Prelude.{
  ℕ, ◌+◌, ◌≤◌, ◌<◌, ◌≡◌, refl, ◌↔◌, inl, inr, true, false, not, ◌&&◌, suc, ap, sym, Option, none,
  some, List, [], ◌∷◌, ltb, leb, length, arith, Bool-cases,
}
use lean_vllm.Prelude.Int.{ℤ, pos, negsuc, pos_part, neg_part, ltb_ℤ}
use lean_vllm.Sequence.{Remote}
use lean_vllm.Validation.{
  Role, ParamsReader, is_producer, is_consumer, missing, check_kv_transfer_params, check_roles,
  first_bad, check_transfer, check_lengths, validate_request,
}

-- Token ids of a vocabulary of n: each is a natural number below n.
abbrev pub InVocabulary : ℕ → List ℤ → Type 0
InVocabulary n [] = Unit {0}
InVocabulary n (x ∷ xs) = ((k : ℕ) × (x ≡ pos k) × (k < n)) × InVocabulary n xs

in_range :
    (n : ℕ) (x : ℤ)
    → not (ltb_ℤ x (pos 0)) && ltb_ℤ x (pos n) ≡ true ↔ ((k : ℕ) × (x ≡ pos k) × (k < n))
in_range n (pos m) = (
  λ h. (m, refl, ground (arith, h)),
  λ (k, e, below). let q : m ≡ k = ap pos_part e in ground (arith, q, below),
)
in_range n (negsuc m) = (
  λ h. absurd (ground (arith, h)),
  λ (k, e, below). let q : 0 ≡ suc m = sym (ap neg_part e) in absurd (omega (arith, q)),
)

first_bad-InVocabulary : (n : ℕ) (xs : List ℤ) → first_bad n xs ≡ none → InVocabulary n xs
unfolding first_bad
first_bad-InVocabulary n [] h = tt
first_bad-InVocabulary n (x ∷ xs) h = elim (Bool-cases (not (ltb_ℤ x (pos 0)) && ltb_ℤ x (pos n))) [
  | inl good ↦ ((in_range n x).0 good, first_bad-InVocabulary n xs (simp good at h))
  | inr bad ↦ absurd (cc (simp bad at h))
]

InVocabulary-first_bad : (n : ℕ) (xs : List ℤ) → InVocabulary n xs → first_bad n xs ≡ none
unfolding first_bad
InVocabulary-first_bad n [] h = refl
InVocabulary-first_bad n (x ∷ xs) (good, rest) =
    let e = (in_range n x).1 good in simp e (InVocabulary-first_bad n xs rest)

module _ {V : Type 0} (reader : ParamsReader V) where
  -- The engine can do what the parameters ask for.
  abbrev pub CanTransfer : V → Role → Type 0
  CanTransfer p role =
      (reader.flag p "do_remote_decode" ≡ true → is_producer role ≡ true)
      × (reader.flag p "do_remote_prefill" ≡ true
          → (is_consumer role ≡ true)
            × ((remote : Remote) × (reader.model_validate p ≡ some remote)))

  abbrev pub CanServe : Option V → Option Role → Type 0
  CanServe none kv_transfer = Unit {0}
  CanServe (some p) none = false ≡ true
  CanServe (some p) (some role) = (reader.is_dict p ≡ true) × CanTransfer p role

  found : (r : Option Remote) → missing r ≡ false → (remote : Remote) × (r ≡ some remote)
  found none h = cc
  found (some remote) h = (remote, refl)

  present :
      {p : V}
      → reader.flag p "do_remote_prefill" ≡ true
      → (remote : Remote) × (reader.model_validate p ≡ some remote)
      → missing (reader.model_validate p) ≡ false
  present asked (remote, e) = ap missing e

  check_roles-CanTransfer :
      (p : V) (role : Role) → check_roles reader p (some role) ≡ none ↔ CanTransfer p role
  check_roles-CanTransfer p role = (
    λ h. (
      λ decode. ground arith,
      λ prefill. (ground arith, found (reader.model_validate p) (ground arith)),
    ),
    λ h.
        let consumes : reader.flag p "do_remote_prefill" ≡ true → is_consumer role ≡ true =
          λ prefill. (h.1 prefill).0 in
        let passes : reader.flag p "do_remote_prefill" ≡ true
            → missing (reader.model_validate p) ≡ false =
          λ prefill. present prefill (h.1 prefill).1 in
        ground (arith, h.0, consumes, passes),
  )

  check_transfer-CanServe :
      (params : Option V) (kv_transfer : Option Role)
      → check_transfer reader params kv_transfer ≡ none ↔ CanServe params kv_transfer
  unfolding check_kv_transfer_params
  check_transfer-CanServe none kv_transfer = (λ h. tt, λ h. refl)
  check_transfer-CanServe (some p) none = (
    λ h. elim (Bool-cases (reader.is_dict p)) [
      | inl dict ↦ absurd (cc (simp dict at h))
      | inr other ↦ absurd (cc (simp other at h))
    ],
    λ h. absurd cc,
  )
  check_transfer-CanServe (some p) (some role) = (
    λ h. elim (Bool-cases (reader.is_dict p)) [
      | inl dict ↦ (dict, (check_roles-CanTransfer p role).0 (simp dict at h))
      | inr other ↦ absurd (cc (simp other at h))
    ],
    λ (dict, can). simp dict ((check_roles-CanTransfer p role).1 can),
  )

  check_lengths-none :
      (n max_tokens max_model_len : ℕ) (params : Option V) (kv_transfer : Option Role)
      (bad : Option ℤ)
      → check_lengths reader n max_tokens max_model_len params kv_transfer bad ≡ none ↔ (
          (bad ≡ none)
          × (n < max_model_len)
          × (n + max_tokens ≤ max_model_len)
          × (check_transfer reader params kv_transfer ≡ none))
  check_lengths-none n max_tokens max_model_len params kv_transfer (some token_id) =
      (λ h. absurd cc, λ h. absurd (cc (h.0)))
  check_lengths-none n max_tokens max_model_len params kv_transfer none = (
    λ h. elim (Bool-cases (leb max_model_len n)) [
      | inl long ↦ absurd (cc (simp long at h))
      | inr short ↦ elim (Bool-cases (ltb max_model_len (n + max_tokens))) [
        | inl over ↦ absurd (cc (simp (short, over) at h))
        | inr fits ↦ (refl, ground (arith, short), ground (arith, fits), simp (short, fits) at h)
      ]
    ],
    λ (_, short, fits, passes).
        let short' : leb max_model_len n ≡ false = ground (arith, short) in
        let fits' : ltb max_model_len (n + max_tokens) ≡ false = ground (arith, fits) in
        simp (short', fits') passes,
  )

  -- validate_request refuses nothing exactly if the prompt is not empty, each of its token ids is a
  -- natural number below vocab_size, it leaves room in the context, also for max_tokens, and
  -- kv_transfer_params, if any, are a dict and ask for what the engine's role can do, where what they
  -- hold for a remote prefill passes pydantic's validation.
  pub validate_request_lem :
      (prompt : List ℤ) (max_tokens : ℕ) (params : Option V) (vocab_size max_model_len : ℕ)
      (kv_transfer : Option Role)
      → validate_request reader prompt max_tokens params vocab_size max_model_len kv_transfer ≡ none
        ↔ ((0 < length prompt)
            × InVocabulary vocab_size prompt
            × (length prompt < max_model_len)
            × (length prompt + max_tokens ≤ max_model_len)
            × CanServe params kv_transfer)
  unfolding validate_request
  validate_request_lem [] max_tokens params vocab_size max_model_len kv_transfer =
      (λ h. absurd cc, λ h. absurd (omega (arith, h.0)))
  validate_request_lem (x ∷ xs) max_tokens params vocab_size max_model_len kv_transfer =
      let serves = check_transfer-CanServe params kv_transfer in
      let lengths =
        check_lengths-none (length (x ∷ xs)) max_tokens max_model_len params kv_transfer
          (first_bad vocab_size (x ∷ xs)) in
      (
        λ h.
            let (good, short, fits, passes) = lengths.0 h in
            (
              omega arith,
              first_bad-InVocabulary vocab_size (x ∷ xs) good,
              short,
              fits,
              serves.0 passes,
            ),
        λ (_, below, short, fits, can).
            lengths.1 (InVocabulary-first_bad vocab_size (x ∷ xs) below, short, fits, serves.1 can),
      )
