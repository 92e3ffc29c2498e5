-- ===== src/Allocator/Freelist/Scan.antt =====
-- What first fit takes from the free blocks, and what it leaves of them.
use tvm_wasm.Base.{
  ℕ, suc, ◌+◌, ◌-◌, ◌%◌, ◌≤◌, ◌<◌, ◌≡◌, ◌⊎◌, inl, inr, List, [], ◌∷◌, Option-cases, ok, u32_mod,
  All, arith,
}
use tvm_wasm.Allocator.Align.{align_up, align_up-IsRounded}
use tvm_wasm.Allocator.Blocks.{Block, cover, count, total, Gapped, Live, Gapped-weaken}
use tvm_wasm.Allocator.Freelist.{split, scan}

-- `size` bytes at `a` inside the free block of `s` bytes at `o`.
pub record Inside (o s a size : ℕ) : Type 0 where
  pub above : o ≤ a
  pub ends : a + size ≤ o + s
  pub fits : o + s < u32_mod

abbrev carve : ℕ → ℕ → ℕ → ℕ → List Block → List Block
carve o s a size rest = split o a (a - o) size (s - (a - o + size)) rest

carve-count :
    (x o s a size : ℕ) (rest : List Block)
    → Inside o s a size
    → count x (carve o s a size rest) + cover x a size ≡ cover x o s + count x rest
unfolding split
carve-count x o s a size rest h = ground arith

carve-total :
    (o s a size : ℕ) (rest : List Block)
    → Inside o s a size
    → total (carve o s a size rest) + size ≡ s + total rest
unfolding split
carve-total o s a size rest h = ground arith

carve-Live :
    (lim o s a size : ℕ) (rest : List Block)
    → Inside o s a size
    → o + s ≤ lim
    → All (Live lim) rest
    → All (Live lim) (carve o s a size rest)
unfolding split
carve-Live lim o s a size rest h w r = ground arith

carve-Gapped :
    (n o s a size : ℕ) (rest : List Block)
    → Inside o s a size
    → 0 < size
    → n ≤ o
    → Gapped (suc (o + s)) rest
    → Gapped n (carve o s a size rest)
unfolding split
carve-Gapped n o s a size rest h pos k g =
    ground (
      arith,
      Gapped-weaken n (suc (o + s)) rest,
      Gapped-weaken (suc o + (a - o)) (suc (o + s)) rest,
    )

-- The loop takes its bytes from the first block, or goes on with the others.
scan_step :
    (size align o s found : ℕ) (rest free' : List Block)
    → align < u32_mod
    → o + s < u32_mod
    → scan size align ((o, s) ∷ rest) ≡ ok (found, free')
    → (Inside o s found size × (found % align ≡ 0) × (free' ≡ carve o s found size rest))
      ⊎ ((rest' : List Block) × (scan size align rest ≡ ok (found, rest'))
          × (free' ≡ (o, s) ∷ rest'))
unfolding scan
scan_step size align o s found rest free' ha hs e = elim (Option-cases (align_up o align)) [
  | inl missing ↦ absurd (ground arith)
  | inr (a, at) ↦ ground (arith, align_up-IsRounded o align ha at)
]

-- Every byte that the free blocks lose is one of those taken.
pub scan-count :
    (x lim size align found : ℕ) (free free' : List Block)
    → align < u32_mod
    → lim < u32_mod
    → All (Live lim) free
    → scan size align free ≡ ok (found, free')
    → count x free' + cover x found size ≡ count x free
unfolding scan
scan-count x lim size align found [] free' ha hl w e = absurd (ground arith)
scan-count x lim size align found ((o, s) ∷ rest) free' ha hl w e =
    elim (scan_step size align o s found rest free' ha (omega arith) e) [
      | inl (inside, _, at) ↦ rw at (carve-count x o s found size rest inside)
      | inr (rest', later, at) ↦
          rw at (omega (arith, scan-count x lim size align found rest rest' ha hl w.1 later))
    ]

pub record Taken (lim size align n found : ℕ) (free free' : List Block) : Type 0 where
  pub aligned : found % align ≡ 0
  pub ends : found + size ≤ lim
  pub sum : total free' + size ≡ total free
  pub live : All (Live lim) free'
  pub gapped : Gapped n free'

pub scan-Taken :
    (lim size align n found : ℕ) (free free' : List Block)
    → align < u32_mod
    → lim < u32_mod
    → 0 < size
    → All (Live lim) free
    → Gapped n free
    → scan size align free ≡ ok (found, free')
    → Taken lim size align n found free free'
unfolding scan
scan-Taken lim size align n found [] free' ha hl pos w g e = absurd (ground arith)
scan-Taken lim size align n found ((o, s) ∷ rest) free' ha hl pos w g e =
    elim (scan_step size align o s found rest free' ha (omega arith) e) [
      | inl (inside, aligned, at) ↦ rw at (record {
        aligned = aligned;
        ends = omega arith;
        sum = carve-total o s found size rest inside;
        live = carve-Live lim o s found size rest inside w.0.1 w.1;
        gapped = carve-Gapped n o s found size rest inside pos g.0 g.1;
      })
      | inr (rest', later, at) ↦
          let t =
            scan-Taken lim size align (suc (o + s)) found rest rest' ha hl pos w.1 g.1 later in
          rw at (record {
            aligned = t.aligned;
            ends = t.ends;
            sum = omega arith;
            live = (w.0, t.live);
            gapped = (g.0, t.gapped);
          })
    ]
