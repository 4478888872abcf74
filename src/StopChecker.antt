-- ===== src/StopChecker.antt =====
-- Stop strings over streamed text: lean_vllm/entrypoints/stop_checker.py. A text is the list of its
-- code points.
pub mod Occurrence
pub mod Emission
use lean_vllm.Prelude.{
  ℕ, zero, suc, ◌+◌, ◌-◌, Bool, true, false, Option, none, some, List, [], ◌∷◌, ◌++◌, ltb, leb,
  ◌==◌, ◌&&◌, if◌then◌else◌, length, take, drop, min, max,
}

-- `text.startswith(s)`
unfoldable pub starts_with : List ℕ → List ℕ → Bool
starts_with [] text = true
starts_with (c ∷ s) [] = false
starts_with (c ∷ s) (d ∷ text) = c == d && starts_with s text

abbrev later : Option ℕ → Option ℕ
later none = none
later (some i) = some (suc i)

-- `text.find(s)`, with `none` for -1. An empty string is found at once.
unfoldable pub find : List ℕ → List ℕ → Option ℕ
find s [] = if starts_with s [] then some 0 else none
find s (d ∷ text) =
    let rest = later (find s text) in if starts_with s (d ∷ text) then some 0 else rest

abbrev nearer : Option ℕ → Option ℕ → Option ℕ
nearer none b = b
nearer (some a) none = some a
nearer (some a) (some b) = some (min a b)

-- The least position at which one of the strings occurs.
unfoldable pub find_first : List (List ℕ) → List ℕ → Option ℕ
find_first [] text = none
find_first (s ∷ stop) text = nearer (find s text) (find_first stop text)

unfoldable pub max_length : List (List ℕ) → ℕ
max_length [] = 0
max_length (s ∷ stop) = max (length s) (max_length stop)

abbrev pub is_nonempty {ℓ} : {A : Type ℓ} → List A → Bool
is_nonempty [] = false
is_nonempty (x ∷ xs) = true

unfoldable pub nonempty : List (List ℕ) → List (List ℕ)
nonempty [] = []
nonempty (s ∷ stop) = let rest = nonempty stop in if is_nonempty s then s ∷ rest else rest

pub record StopChecker : Type 0 where
  pub stop : List (List ℕ)
  pub hold : ℕ
  pub buffer : List ℕ
  pub matched : Bool

-- With no stop string the default of 1 makes `hold` 0, as the difference does here.
unfoldable pub create : List (List ℕ) → StopChecker
create stop = record {
  stop = nonempty stop;
  hold = max_length (nonempty stop) - 1;
  buffer = [];
  matched = false;
}

-- `text[:-hold]` and `text[-hold:]` for a positive `hold`.
abbrev pub all_but : ℕ → List ℕ → List ℕ
all_but hold text = take (length text - hold) text

abbrev pub last_of : ℕ → List ℕ → List ℕ
last_of hold text = drop (length text - hold) text

-- push, once the text stands in the buffer.
unfoldable pub scan : StopChecker → List ℕ → List ℕ × StopChecker
scan c buffer = elim (find_first c.stop buffer) [
  | some cut ↦ (take cut buffer, record c { matched = true; buffer = [] })
  | none ↦
      if c.hold == 0
      then (buffer, record c { buffer = [] })
      else (all_but c.hold buffer, record c { buffer = last_of c.hold buffer })
]

unfoldable pub push : StopChecker → List ℕ → List ℕ × StopChecker
push c text = if is_nonempty c.stop then scan c (c.buffer ++ text) else (text, c)

unfoldable pub flush : StopChecker → List ℕ × StopChecker
flush c = (c.buffer, record c { buffer = [] })
