-- ===== src/Allocator/Freelist/Merge.antt =====
-- Putting a block back among the free ones and merging it with its neighbours: the index
-- arithmetic of `dealloc` and `coalesce` against a recursion on the blocks.
use tvm_wasm.Base.{
  ℕ, suc, ◌+◌, ◌≤◌, ◌<◌, ◌≡◌, refl, sym, ap, ◌∙◌, inl, inr, List, [], ◌∷◌, Bool-cases, All, length,
  insert_at, u32_mod, arith, ltb, ◌==◌, if◌then◌else◌,
}
use tvm_wasm.Allocator.Blocks.{Block, cover, count, total, Gapped, Live, Apart}
use tvm_wasm.Allocator.Freelist.{partition_point, merge_at, coalesce}

-- A block before others, as one block with the first of them if they touch.
pub join : ℕ → ℕ → List Block → List Block
join o s [] = (o, s) ∷ []
join o s ((b, t) ∷ r) = if o + s == b then (o, s + t) ∷ r else (o, s) ∷ (b, t) ∷ r

pub put_back : ℕ → ℕ → List Block → List Block
put_back o s [] = join o s []
put_back o s ((b, t) ∷ r) = if ltb b o then join b t (put_back o s r) else join o s ((b, t) ∷ r)

merge_below : (x : Block) (xs : List Block) (p : ℕ) → merge_at (x ∷ xs) (suc p) ≡ x ∷ merge_at xs p
unfolding merge_at
merge_below x xs p = ground (arith)

coalesce_below :
    (x : Block) (xs : List Block) (p : ℕ)
    → coalesce (x ∷ xs) (suc (suc p)) ≡ x ∷ coalesce xs (suc p)
unfolding coalesce
coalesce_below x xs p = elim (Bool-cases (ltb (suc p + 1) (length xs))) [
  | inl e ↦ ground (arith, merge_below x xs (suc p), merge_below x (merge_at xs (suc p)) p)
  | inr e ↦ ground (arith, merge_below x xs p)
]

join_skip : (b t c u : ℕ) (l : List Block) → b + t < c → join b t (join c u l) ≡ (b, t) ∷ join c u l
unfolding join
join_skip b t c u [] h = ground arith
join_skip b t c u ((d, v) ∷ l) h = ground arith

join-count : (x o s : ℕ) (l : List Block) → count x (join o s l) ≡ cover x o s + count x l
unfolding join
join-count x o s [] = refl
join-count x o s ((b, t) ∷ l) = ground arith

join-total : (o s : ℕ) (l : List Block) → total (join o s l) ≡ s + total l
unfolding join
join-total o s [] = refl
join-total o s ((b, t) ∷ l) = ground arith

join-Live :
    (lim o s : ℕ) (l : List Block)
    → Live lim (o, s)
    → All (Live lim) l
    → All (Live lim) (join o s l)
unfolding join
join-Live lim o s [] h w = (h, tt)
join-Live lim o s ((b, t) ∷ l) h w = ground arith

-- The block may touch the others, but not overlap them.
join-Gapped : (n o s : ℕ) (l : List Block) → n ≤ o → Gapped (o + s) l → Gapped n (join o s l)
unfolding join
join-Gapped n o s [] h g = (h, tt)
join-Gapped n o s ((b, t) ∷ l) h g = ground arith

merge_zero :
    (lim b t : ℕ) (l : List Block)
    → lim < u32_mod
    → b + t ≤ lim
    → All (Live lim) l
    → merge_at ((b, t) ∷ l) 0 ≡ join b t l
unfolding merge_at join
merge_zero lim b t [] hl h w = refl
merge_zero lim b t ((c, u) ∷ l) hl h w = ground arith

coalesce_first :
    (lim o s : ℕ) (l : List Block)
    → lim < u32_mod
    → o + s ≤ lim
    → All (Live lim) l
    → coalesce ((o, s) ∷ l) 0 ≡ join o s l
unfolding coalesce join
coalesce_first lim o s [] hl h w = refl
coalesce_first lim o s (c ∷ l) hl h w = ground (arith, merge_zero lim o s (c ∷ l))

coalesce_second :
    (lim b t o s : ℕ) (l : List Block)
    → lim < u32_mod
    → b + t ≤ lim
    → Live lim (o, s)
    → All (Live lim) l
    → coalesce ((b, t) ∷ (o, s) ∷ l) 1 ≡ join b t (join o s l)
unfolding coalesce join
coalesce_second lim b t o s [] hl h k w = merge_zero lim b t ((o, s) ∷ []) hl h (k, tt)
coalesce_second lim b t o s (c ∷ l) hl h k w = ground (
  arith,
  merge_below (b, t) ((o, s) ∷ c ∷ l) 0,
  merge_zero lim o s (c ∷ l),
  merge_zero lim b t (join o s (c ∷ l)),
  join-Live lim o s (c ∷ l) k w,
)

-- For free blocks that are in order, do not touch and lie with the returned block below a u32
-- limit, inserting at the partition point and coalescing by index is the recursive insertion that
-- merges with both neighbours.
pub coalesce-put_back :
    (lim n o s : ℕ) (free : List Block)
    → lim < u32_mod
    → Live lim (o, s)
    → All (Live lim) free
    → Gapped n free
    → let pos = partition_point o free in
      coalesce (insert_at free pos (o, s)) pos ≡ put_back o s free
unfolding put_back partition_point
coalesce-put_back lim n o s [] hl hs l g = coalesce_first lim o s [] hl hs.1 tt
coalesce-put_back lim n o s ((b, t) ∷ []) hl hs l g =
    ground (arith, coalesce_first lim o s ((b, t) ∷ []), coalesce_second lim b t o s [])
coalesce-put_back lim n o s ((b, t) ∷ (c, u) ∷ r) hl hs l g = elim (Bool-cases (ltb b o)) [
  | inr stop ↦ rw stop (coalesce_first lim o s ((b, t) ∷ (c, u) ∷ r) hl hs.1 l)
  | inl on ↦ elim (Bool-cases (ltb c o)) [
    | inr stop ↦ rw (on, stop) (coalesce_second lim b t o s ((c, u) ∷ r) hl l.0.1 hs l.1)
    | inl more ↦
        let p = partition_point o r in
        let one : p + 1 ≡ suc p = omega arith in
        let two : p + 1 + 1 ≡ suc (suc p) = omega arith in
        let rest : coalesce (insert_at ((c, u) ∷ r) (suc p) (o, s)) (suc p)
            ≡ join c u (put_back o s r) =
          rw (more, one) at (coalesce-put_back lim (suc (b + t)) o s ((c, u) ∷ r) hl hs l.1 g.1) in
        rw (on, more, two)
          (coalesce_below (b, t) (insert_at ((c, u) ∷ r) (suc p) (o, s)) p
            ∙ ap (◌∷◌ (b, t)) rest
            ∙ sym (join_skip b t c u (put_back o s r) g.1.0))
  ]
]

pub put_back-count :
    (x o s : ℕ) (free : List Block) → count x (put_back o s free) ≡ cover x o s + count x free
unfolding put_back
put_back-count x o s [] = join-count x o s []
put_back-count x o s ((b, t) ∷ r) = ground (
  arith,
  join-count x o s ((b, t) ∷ r),
  join-count x b t (put_back o s r),
  put_back-count x o s r,
)

pub put_back-total : (o s : ℕ) (free : List Block) → total (put_back o s free) ≡ s + total free
unfolding put_back
put_back-total o s [] = join-total o s []
put_back-total o s ((b, t) ∷ r) =
    ground
      (arith, join-total o s ((b, t) ∷ r), join-total b t (put_back o s r), put_back-total o s r)

pub put_back-Live :
    (lim o s : ℕ) (free : List Block)
    → Live lim (o, s)
    → All (Live lim) free
    → All (Live lim) (put_back o s free)
unfolding put_back
put_back-Live lim o s [] h l = join-Live lim o s [] h l
put_back-Live lim o s ((b, t) ∷ r) h l = ground (
  arith,
  join-Live lim o s ((b, t) ∷ r) h l,
  join-Live lim b t (put_back o s r) l.0 (put_back-Live lim o s r h l.1),
)

Gapped-relax : (n m : ℕ) (xs : List Block) → n ≤ m → Gapped m xs → Gapped n xs
Gapped-relax n m [] h g = tt
Gapped-relax n m ((b, t) ∷ xs) h g = (omega arith, g.1)

-- What lies from `n` on and apart from the block goes on from `n` with it.
pub put_back_from :
    (lim n o s : ℕ) (free : List Block)
    → n ≤ o
    → 0 < s
    → All (Live lim) free
    → All (Apart o s) free
    → Gapped n free
    → Gapped n (put_back o s free)
unfolding put_back join
put_back_from lim n o s [] h pos l a g = (h, tt)
put_back_from lim n o s ((b, t) ∷ r) h pos l a g = elim (Bool-cases (ltb b o)) [
  | inr stop ↦ rw stop (join-Gapped n o s ((b, t) ∷ r) h (ground arith))
  | inl on ↦
      let clear : b + t ≤ o = ground arith in
      let rest =
        put_back_from lim (b + t) o s r clear pos l.1 a.1
          (Gapped-relax (b + t) (suc (b + t)) r (omega arith) g.1) in
      rw on (join-Gapped n b t (put_back o s r) g.0 rest)
]
