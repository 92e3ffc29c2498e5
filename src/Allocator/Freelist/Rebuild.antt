-- ===== src/Allocator/Freelist/Rebuild.antt =====
-- The allocator that a compaction rebuilds from packed blocks.
use tvm_wasm.Base.{
  ℕ, ◌+◌, ◌≤◌, ◌<◌, ◌≡◌, refl, sym, subst, inl, inr, List, [], ◌∷◌, none, All, Option-cases,
  u32_mod, arith, add32, sub32, ltb, ap, ◌++◌, ◌-◌, ◌∙◌, if◌then◌else◌,
}
use tvm_wasm.Allocator.Blocks.{
  Block, lookup, insert, cover, count, total, Live, Ordered, count-insert, total-insert,
  insert-Ordered, insert-Live, count-Live,
}
use tvm_wasm.Allocator.Freelist.{FreelistAllocator, adopt, rebuild_after_compact}
use tvm_wasm.Allocator.Freelist.Sound.{IsFreelist}

-- Blocks one after the other from `n` on.
abbrev pub Packed : ℕ → List Block → Type 0
Packed n [] = Unit {0}
Packed n ((o, s) ∷ r) = (o ≡ n) × (0 < s) × Packed (n + s) r

-- Allocations that fill the region up to `n`.
pub record Fills (lim n : ℕ) (m : List Block) : Type 0 where
  pub live : All (Live lim) m
  pub ordered : Ordered 0 m
  pub sum : total m ≡ n
  pub bytes : (x : ℕ) → count x m ≡ cover x 0 n

Fills-insert :
    (lim n o s : ℕ) (m : List Block)
    → Fills lim n m
    → o ≡ n
    → 0 < s
    → n + s ≤ lim
    → Fills lim (n + s) (insert o s m)
Fills-insert lim n o s m f at pos h = record {
  live = insert-Live lim o s m (pos, omega arith) f.live;
  ordered = insert-Ordered 0 o s m (omega arith) f.ordered;
  sum = omega (arith, total-insert o s m absent, f.sum);
  bytes = λ x. ground (arith, count-insert x o s m absent, f.bytes x);
}
  where
    absent : lookup o m ≡ none
    absent = elim (Option-cases (lookup o m)) [
      | inl missing ↦ missing
      | inr (v, present) ↦ absurd (ground (arith, count-Live lim o v m f.live present, f.bytes o))
    ]

adopt-Fills :
    (lim n used : ℕ) (r m : List Block)
    → lim < u32_mod
    → used ≡ n
    → Packed n r
    → n + total r ≤ lim
    → Fills lim n m
    → Fills lim (n + total r) (adopt r m used).0 × ((adopt r m used).1 ≡ n + total r)
unfolding adopt
adopt-Fills lim n used [] m hl e p h f = let same : n + 0 ≡ n = omega arith in rw same (f, e)
adopt-Fills lim n used ((o, s) ∷ r) m hl e p h f =
    let assoc : n + (s + total r) ≡ n + s + total r = omega arith in
    rw assoc (
      adopt-Fills lim (n + s) (add32 used s) r (insert o s m) hl (omega arith) p.2 (omega arith)
        (Fills-insert lim n o s m f p.0 p.1 (omega arith)))

Fills-IsFreelist :
    (lim u : ℕ) (m : List Block)
    → lim < u32_mod
    → u ≤ lim
    → Fills lim u m
    → IsFreelist (record {
      capacity = lim;
      free = if ltb u lim then (u, sub32 lim u) ∷ [] else [];
      allocated = m;
      used = u;
    })
Fills-IsFreelist lim u m h fits f = record {
  capacity_fits = h;
  free_live = ground arith;
  allocated_live = f.live;
  gapped = ground arith;
  ordered = f.ordered;
  counted = omega (arith, f.sum);
  conserved = ground (arith, f.sum);
  partition = λ x. ground (arith, f.bytes x);
}

-- Every offset is below `n`.
abbrev Below : ℕ → List Block → Type 0
Below n m = All (λ b. b.0 < n) m

insert_last : (n s : ℕ) (m : List Block) → Below n m → insert n s m ≡ m ++ (n, s) ∷ []
insert_last n s [] b = refl
insert_last n s ((o, t) ∷ m) b = ground (arith, insert_last n s m b.1)

Below-push : (n k s : ℕ) (m : List Block) → n < k → Below n m → Below k (m ++ (n, s) ∷ [])
Below-push n k s [] h b = (h, tt)
Below-push n k s ((o, t) ∷ m) h b = (omega (arith, b.0), Below-push n k s m h b.1)

append_nil : (xs : List Block) → xs ++ [] ≡ xs
append_nil [] = refl
append_nil (x ∷ xs) = ap (λ t. x ∷ t) (append_nil xs)

append_assoc : (xs ys zs : List Block) → (xs ++ ys) ++ zs ≡ xs ++ (ys ++ zs)
append_assoc [] ys zs = refl
append_assoc (x ∷ xs) ys zs = ap (λ t. x ∷ t) (append_assoc xs ys zs)

-- Packed blocks are recorded as they come.
adopt-Packed :
    (n used : ℕ) (r m : List Block) → Packed n r → Below n m → (adopt r m used).0 ≡ m ++ r
unfolding adopt
adopt-Packed n used [] m p b = sym (append_nil m)
adopt-Packed n used ((o, s) ∷ r) m p b =
    let below : Below o m = subst (λ k. Below k m) (sym p.0) b in
    let next : Below (n + s) (m ++ (o, s) ∷ []) =
      Below-push o (n + s) s m (omega (arith, p.0, p.1)) below in
    ap (λ l. (adopt r l (add32 used s)).0) (insert_last o s m below)
    ∙ adopt-Packed (n + s) (add32 used s) r (m ++ (o, s) ∷ []) p.2 next
    ∙ append_assoc m ((o, s) ∷ []) r

-- Rebuilding a freelist allocator from blocks that are packed from 0 on and fit a u32 capacity
-- gives a valid allocator of that capacity which records exactly these blocks, counts their bytes
-- as used, and has the bytes after them, if there are any, as its only free block.
pub rebuild-IsFreelist :
    (a : FreelistAllocator) (blocks : List Block) (capacity : ℕ)
    → capacity < u32_mod
    → Packed 0 blocks
    → total blocks ≤ capacity
    → IsFreelist (rebuild_after_compact a blocks capacity)
      × ((rebuild_after_compact a blocks capacity).used ≡ total blocks)
      × ((rebuild_after_compact a blocks capacity).capacity ≡ capacity)
      × ((rebuild_after_compact a blocks capacity).allocated ≡ blocks)
      × ((rebuild_after_compact a blocks capacity).free ≡ (
          if ltb (total blocks) capacity then (total blocks, capacity - total blocks) ∷ [] else []))
unfolding rebuild_after_compact
rebuild-IsFreelist a blocks capacity h p fits =
    let none_yet : Fills capacity 0 [] = record {
      live = tt;
      ordered = tt;
      sum = refl;
      bytes = λ x. ground arith;
    } in
    let (f, u) = adopt-Fills capacity 0 0 blocks [] h refl p (omega arith) none_yet in
    let same : 0 + total blocks ≡ (adopt blocks [] 0).1 = sym u in
    let size : (adopt blocks [] 0).1 ≡ total blocks = omega (arith, u) in
    (
      Fills-IsFreelist capacity (adopt blocks [] 0).1 (adopt blocks [] 0).0 h (omega (arith, u))
          (subst (λ n. Fills capacity n (adopt blocks [] 0).0) same f),
      size,
      refl,
      adopt-Packed 0 0 blocks [] p tt,
      ground (arith, size, fits, h),
    )
