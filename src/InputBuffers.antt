-- ===== src/InputBuffers.antt =====
-- InputBuffers of lean_vllm/engine/input_buffers.py on CUDA: buffers by name that grow and are used
-- again. A tensor is the list of what it holds, where a slot that was never written reads 0; a copy
-- to the device runs when it is asked for or at any time before the stream's next work, which the
-- model takes to be at once. The host buffers have the device's size.
pub mod Reuse
use lean_vllm.Prelude.{
  ℕ, ◌+◌, ◌*◌, max, String, Bool, true, false, Option, none, some, List, [], ◌∷◌, ◌++◌, ltb,
  if◌then◌else◌, length, take, drop, replicate,
}
use lean_vllm.Prelude.Names

-- MIN_CAPACITY
abbrev pub min_capacity : ℕ
min_capacity = 256

pub record InputBuffers : Type 0 where
  pub host : List (String × List ℕ)
  pub device : List (String × List ℕ)
  pub copying : Bool

-- The buffer of a name, an empty one where there is none.
abbrev pub buffer_of : Option (List ℕ) → List ℕ
buffer_of none = []
buffer_of (some buffer) = buffer

abbrev pub has_room : Option (List ℕ) → ℕ → Bool
has_room none n = false
has_room (some buffer) n = if ltb (length buffer) n then false else true

-- begin, once the copies of the last step are done
unfoldable pub start : InputBuffers → InputBuffers
start b = record b { copying = false }

-- end
unfoldable pub finish : InputBuffers → InputBuffers
finish b = record b { copying = true }

-- A larger buffer for the name, if it needs one.
unfoldable pub grow : InputBuffers → String → ℕ → InputBuffers
grow b name n =
    if has_room (Names.get name b.device) n
    then b
    else (let old = length (buffer_of (Names.get name b.device)) in
        let fresh = replicate (max (max n (2 * old)) min_capacity) 0 in
        record b { host = Names.put name fresh b.host; device = Names.put name fresh b.device })

-- `buffer[:n] = values`
abbrev pub overwrite : List ℕ → List ℕ → List ℕ
overwrite buffer values = values ++ drop (length values) buffer

-- put, with what the tensor that it returns holds
unfoldable pub put : InputBuffers → String → List ℕ → InputBuffers × List ℕ
put b name values =
    let n = length values in
    let b1 = grow b name n in
    let host = overwrite (buffer_of (Names.get name b1.host)) values in
    let device = overwrite (buffer_of (Names.get name b1.device)) (take n host) in
    (
      record b1 { host = Names.put name host b1.host; device = Names.put name device b1.device },
      take n device,
    )
