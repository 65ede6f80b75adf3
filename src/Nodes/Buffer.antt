-- ===== src/Nodes/Buffer.antt =====
-- wingfoil/src/nodes/buffer.rs: batches of `capacity` values.
use mathlib.Core.List.{append_assoc, append-nil}
use wingfoil.Base.{
  ℕ, ◌≤◌, ◌<◌, ◌≡◌, sym, ap, ◌∙◌, Bool, true, false, ◌&&◌, ◌||◌, List, [], ◌∷◌, ◌++◌, map, arith,
  leb, if◌then◌else◌, length, flatten, Bool-cases, inl, inr, length-append, All,
}
use wingfoil.Graph.Callbacks.{nonempty}
use wingfoil.Nodes.{emitted}

pub record BufferStream (T : Type 0) : Type 0 where
  pub capacity : ℕ
  pub buffer : List T
  pub value : List T

module _ {T : Type 0} where
  -- The input is the upstream's value and whether this is the last cycle.
  unfoldable pub cycle : BufferStream T → T × Bool → Bool × BufferStream T
  cycle s (upstream, is_last_cycle) =
      let buffer = s.buffer ++ upstream ∷ [] in
      if leb s.capacity (length buffer) || (nonempty buffer && is_last_cycle)
      then (true, record s { value = buffer; buffer = [] })
      else (false, record s { buffer = buffer })

  -- The values that are still in the buffer after some inputs.
  abbrev pub remaining : BufferStream T → List (T × Bool) → List T
  remaining s [] = s.buffer
  remaining s (a ∷ inputs) = let (ticked, s') = cycle s a in remaining s' inputs

  abbrev pub full : BufferStream T → T × Bool → Bool
  full s a =
      leb s.capacity (length (s.buffer ++ a.0 ∷ [])) || (nonempty (s.buffer ++ a.0 ∷ []) && a.1)

  -- While the buffer is shorter than the capacity at first, the batches that a buffer node shows,
  -- followed by what it keeps, are the values that went in, in order; it keeps fewer than the
  -- capacity, and no batch is longer than the capacity.
  pub emitted-flatten :
      (s : BufferStream T) (inputs : List (T × Bool))
      → length s.buffer < s.capacity
      → (flatten (emitted cycle (λ s. s.value) s inputs) ++ remaining s inputs
          ≡ s.buffer ++ map (λ a. a.0) inputs)
        × (length (remaining s inputs) < s.capacity)
        × All (λ batch. length batch ≤ s.capacity) (emitted cycle (λ s. s.value) s inputs)
  unfolding cycle
  emitted-flatten s [] h = (sym (append-nil s.buffer), h, tt)
  emitted-flatten s (a ∷ inputs) h =
      let buffer = s.buffer ++ a.0 ∷ [] in
      elim (Bool-cases (full s a)) [
        | inl flush ↦
            let rest =
              emitted-flatten (record s { value = buffer; buffer = [] }) inputs (omega arith) in
            rw flush (
              append_assoc buffer _ _
                  ∙ ap (λ l. buffer ++ l) rest.0
                  ∙ append_assoc s.buffer (a.0 ∷ []) _,
              rest.1,
              (omega (arith, length-append s.buffer (a.0 ∷ [])), rest.2),
            )
        | inr keep ↦
            let rest =
              emitted-flatten (record s { buffer = buffer }) inputs (ground (arith, keep)) in
            rw keep (rest.0 ∙ append_assoc s.buffer (a.0 ∷ []) _, rest.1, rest.2)
      ]
