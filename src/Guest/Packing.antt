-- ===== src/Guest/Packing.antt =====
-- The walk over the blocks in `compact_region` of crates/tvm-guest-mm/src/directory.rs.
use tvm_wasm.Base.{
  ℕ, ◌+◌, ◌≡◌, ◌≤◌, ap, subst, inl, inr, Option-cases, Result-cases, List, [], ◌∷◌, All, ok, err,
  checked_add32, arith,
}
use tvm_wasm.Allocator.Blocks.{Block, Live, total}
use tvm_wasm.Allocator.Freelist.Rebuild.{Packed}
use tvm_wasm.Directory.Compact.Loop.{Packed-append, total-append_one}
use tvm_wasm.Guest.{Dispatch, Walk, slide, walk_blocks}

-- The walk packs the blocks, from the cursor on.
pub record Walked (capacity : ℕ) (w : Walk) : Type 0 where
  pub packed : Packed 0 w.new_blocks
  pub at : w.cursor ≡ total w.new_blocks
  pub room : w.cursor ≤ capacity

pub walk_blocks-Walked :
    {P : Type 0} (dispatch : Dispatch P) (pool base capacity : ℕ) (blocks : List Block) (w : Walk)
    (p : P) (w' : Walk)
    → Packed 0 w.new_blocks
    → w.cursor ≡ total w.new_blocks
    → w.cursor + total blocks ≤ capacity
    → All (Live capacity) blocks
    → (walk_blocks dispatch pool base blocks w p).0 ≡ ok w'
    → Walked capacity w'
unfolding walk_blocks
walk_blocks-Walked dispatch pool base capacity [] w p w' packed at room live done =
    let same : w ≡ w' = ap (λ r. elim r [ ok x ↦ x | err _ ↦ w ]) done in
    subst (Walked capacity) same (record { packed = packed; at = at; room = omega arith })
walk_blocks-Walked dispatch pool base capacity ((o, s) ∷ rest) w p w' packed at room live done =
    elim (Result-cases (slide dispatch pool base w o s p).0) [
      | inr (x, failed) ↦ absurd (ground arith)
      | inl (u, slid) ↦ elim (Option-cases (checked_add32 w.cursor s)) [
        | inl over ↦ absurd (ground arith)
        | inr (last, sum) ↦
            let next : last ≡ w.cursor + s = ground arith in
            walk_blocks-Walked dispatch pool base capacity rest _
              (slide dispatch pool base w o s p).1 w'
              (Packed-append 0 w.cursor s w.new_blocks packed live.0.0 (omega (arith, at)))
              (omega (arith, next, at, total-append_one w.cursor s w.new_blocks))
              (omega (arith, next, room)) live.1 (rw (walk_blocks, slid, sum) at done)
      ]
    ]
