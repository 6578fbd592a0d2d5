-- ===== src/Memory/Batch/Chunks.antt =====
-- The chunks of a batch: nothing is lost or reordered, and none is too large.
use memento_mcp.Base.{
  ℕ, ◌+◌, ◌≡◌, refl, ◌⊎◌, inl, inr, ◌≤◌, List, [], ◌∷◌, ◌++◌, true, false, length, length-append,
  All, arith, Bool-cases, sym, subst,
}
use memento_mcp.Memory.Batch.{Valid, would_exceed, chunks_from, chunks_of}
use mathlib.Core.List.{append_assoc}

abbrev pub concat : List (List Valid) → List Valid
concat [] = []
concat (c ∷ cs) = c ++ concat cs

-- The bytes of the contents.
abbrev pub bytes_of : List Valid → ℕ
bytes_of [] = 0
bytes_of (v ∷ vs) = v.fragment.content_bytes + bytes_of vs

-- A chunk has rows, at most 500, and at most 256 KB unless it is a single row.
abbrev pub IsChunk : List Valid → Type 0
IsChunk c = (1 ≤ length c) × (length c ≤ 500) × ((bytes_of c ≤ 262144) ⊎ (length c ≡ 1))

chunks_from-concat :
    (current : List Valid) (bytes : ℕ) (vs : List Valid)
    → concat (chunks_from current bytes vs) ≡ current ++ vs
unfolding chunks_from
chunks_from-concat [] bytes [] = refl
chunks_from-concat (c ∷ cs) bytes [] = ground arith
chunks_from-concat current bytes (v ∷ vs) =
    let n = v.fragment.content_bytes in
    elim (Bool-cases (would_exceed current bytes n)) [
      | inl e ↦ rw (e, chunks_from-concat (v ∷ []) n vs)
      | inr e ↦ rw (
        e,
        chunks_from-concat (current ++ v ∷ []) (bytes + n) vs,
        append_assoc current (v ∷ []) vs,
      )
    ]

bytes_of-append : (a b : List Valid) → bytes_of (a ++ b) ≡ bytes_of a + bytes_of b
bytes_of-append [] b = omega arith
bytes_of-append (v ∷ a) b = omega (arith, bytes_of-append a b)

-- A chunk is closed only when it has rows.
exceed-rows : (bytes n : ℕ) → would_exceed [] bytes n ≡ false
unfolding would_exceed
exceed-rows bytes n = ground arith

single-IsChunk : (v : Valid) → IsChunk (v ∷ [])
single-IsChunk v = (omega arith, omega arith, inr (omega arith))

-- A row joins a chunk with rows.
join-IsChunk :
    (current : List Valid) (v : Valid)
    → IsChunk current
    → would_exceed current (bytes_of current) v.fragment.content_bytes ≡ false
    → IsChunk (current ++ v ∷ [])
unfolding would_exceed
join-IsChunk current v h e =
    ground (arith, length-append current (v ∷ []), bytes_of-append current (v ∷ []))

last_chunk :
    (c : Valid) (cs : List Valid) (bytes : ℕ) → chunks_from (c ∷ cs) bytes [] ≡ (c ∷ cs) ∷ []
unfolding chunks_from
last_chunk c cs bytes = ground arith

join_any-IsChunk :
    (current : List Valid) (v : Valid)
    → (current ≡ []) ⊎ IsChunk current
    → would_exceed current (bytes_of current) v.fragment.content_bytes ≡ false
    → IsChunk (current ++ v ∷ [])
join_any-IsChunk [] v h e = single-IsChunk v
join_any-IsChunk (c ∷ cs) v (inl h) e = cc
join_any-IsChunk (c ∷ cs) v (inr h) e = join-IsChunk (c ∷ cs) v h e

closed-IsChunk :
    (current : List Valid) (bytes n : ℕ)
    → (current ≡ []) ⊎ IsChunk current
    → would_exceed current bytes n ≡ true
    → IsChunk current
closed-IsChunk current bytes n (inr h) e = h
closed-IsChunk [] bytes n (inl h) e = ground (arith, exceed-rows bytes n)
closed-IsChunk (c ∷ cs) bytes n (inl h) e = cc

chunks_from-IsChunk :
    (current : List Valid) (bytes : ℕ) (vs : List Valid)
    → bytes ≡ bytes_of current
    → (current ≡ []) ⊎ IsChunk current
    → All IsChunk (chunks_from current bytes vs)
unfolding chunks_from
chunks_from-IsChunk [] bytes [] b h = tt
chunks_from-IsChunk (c ∷ cs) bytes [] b (inl h) = cc
chunks_from-IsChunk (c ∷ cs) bytes [] b (inr h) =
    subst (All IsChunk) (sym (last_chunk c cs bytes)) (h, tt)
chunks_from-IsChunk current bytes (v ∷ vs) b h =
    let n = v.fragment.content_bytes in
    elim (Bool-cases (would_exceed current bytes n)) [
      | inl e ↦
          let split : IsChunk current × All IsChunk (chunks_from (v ∷ []) n vs) = (
            closed-IsChunk current bytes n h e,
            chunks_from-IsChunk (v ∷ []) n vs (omega arith) (inr (single-IsChunk v)),
          ) in
          rw e split
      | inr e ↦
          let joined =
            join_any-IsChunk current v h (subst (λ k. would_exceed current k n ≡ false) b e) in
          let sum : bytes + n ≡ bytes_of (current ++ v ∷ []) =
            omega (arith, bytes_of-append current (v ∷ []), b) in
          rw e (chunks_from-IsChunk (current ++ v ∷ []) (bytes + n) vs sum (inr joined))
    ]

-- The chunks put one after another are the rows, in order; each has a row, at most 500 of them, and
-- at most 256 KB of contents unless it is a single row.
pub chunks_of-IsChunk :
    (vs : List Valid) → (concat (chunks_of vs) ≡ vs) × All IsChunk (chunks_of vs)
unfolding chunks_of
chunks_of-IsChunk vs = (chunks_from-concat [] 0 vs, chunks_from-IsChunk [] 0 vs refl (inl refl))
