-- ===== src/Concurrent/Agrees/Entry.antt =====
-- The methods on one region of crates/tvm-core/src/concurrent.rs beside those of directory.rs.
use tvm_wasm.Base.{ℕ, ◌≡◌, sym, subst, ◌∙◌, inl, inr, ◌==◌, Bool-cases, Result-cases, arith}
use tvm_wasm.Handle.{Handle}
use tvm_wasm.Memory.{MemoryRegion}
use tvm_wasm.Allocator
use tvm_wasm.Directory.{RegionDirectory, put}
use tvm_wasm.Directory.Access.{validate, alloc_aligned, read_entry}
use tvm_wasm.Directory.Access
use tvm_wasm.Directory.Invariant.Bytes.{read_entry_same}
use tvm_wasm.Concurrent.{
  ConcurrentDirectory, alloc, alloc_section, dealloc, dealloc_section, pin, pin_section, unpin,
  unpin_section, read, read_section,
}
use tvm_wasm.Concurrent.Agrees.{Agrees, with_region-Agrees}

-- The same result, and directories that still agree.
abbrev pub Alike {ℓ} :
    {A : Type ℓ} {M : Type 0} → A × ConcurrentDirectory M → A × RegionDirectory M → Type ℓ
Alike (r, c) (s, d) = (r ≡ s) × Agrees c d

-- The two results are written out, and so are the directories.
pub alike {ℓ} :
    {A : Type ℓ} {M : Type 0} (r : A) (c : ConcurrentDirectory M) (d : RegionDirectory M)
    (s : A × ConcurrentDirectory M) (t : A × RegionDirectory M)
    → (s.0 ≡ r) × (s.1 ≡ c)
    → (t.0 ≡ r) × (t.1 ≡ d)
    → Agrees c d
    → Alike s t
alike r c d s t (s0, s1) (t0, t1) k =
    (s0 ∙ sym t0, subst (λ x. Agrees x t.1) (sym s1) (subst (Agrees c) (sym t1) k))

module _ {M : Type 0} where
  pub alloc-Alike :
      (c : ConcurrentDirectory M) (d : RegionDirectory M) (id n : ℕ)
      → Agrees c d
      → Alike (alloc c id n) (Access.alloc d id n)
  unfolding alloc Access.alloc alloc_aligned put
  alloc-Alike c d id n k =
      with_region-Agrees c d id (alloc_section id n) (Access.alloc d id n) k
        (λ gone. (ground arith, ground arith))
        (λ e held. elim (Result-cases (Allocator.alloc e.allocator n 1)) [
          | inr (x, failed) ↦ (ground arith, ground arith, inl (ground arith))
          | inl ((offset, a'), granted) ↦ (ground arith, ground arith, inr (ground arith))
        ])

  pub dealloc-Alike :
      (c : ConcurrentDirectory M) (d : RegionDirectory M) (h : Handle)
      → Agrees c d
      → Alike (dealloc c h) (Access.dealloc d h)
  unfolding dealloc Access.dealloc validate put
  dealloc-Alike c d h k =
      with_region-Agrees c d h.region_id (dealloc_section h) (Access.dealloc d h) k
        (λ gone. (ground arith, ground arith))
        (λ e held. elim (Bool-cases (e.meta.generation == h.generation)) [
          | inr stale ↦ (ground arith, ground arith, inl (ground arith))
          | inl fresh ↦ elim (Result-cases (Allocator.dealloc e.allocator h.offset)) [
            | inr (x, failed) ↦ (ground arith, ground arith, inl (ground arith))
            | inl ((size, a'), given) ↦ (ground arith, ground arith, inr (ground arith))
          ]
        ])

  pub pin-Alike :
      (c : ConcurrentDirectory M) (d : RegionDirectory M) (id : ℕ)
      → Agrees c d
      → Alike (pin c id) (Access.pin d id)
  unfolding pin Access.pin put
  pin-Alike c d id k =
      with_region-Agrees c d id pin_section (Access.pin d id) k
        (λ gone. (ground arith, ground arith))
        (λ e held. elim (Bool-cases e.meta.pinnable) [
          | inr never ↦ (ground arith, ground arith, inl (ground arith))
          | inl may ↦ (ground arith, ground arith, inr (ground arith))
        ])

  pub unpin-Alike :
      (c : ConcurrentDirectory M) (d : RegionDirectory M) (id : ℕ)
      → Agrees c d
      → Alike (unpin c id) (Access.unpin d id)
  unfolding unpin Access.unpin put
  unpin-Alike c d id k =
      with_region-Agrees c d id unpin_section (Access.unpin d id) k
        (λ gone. (ground arith, ground arith))
        (λ e held. (ground arith, ground arith, inr (ground arith)))

module _ {M : Type 0} (mem : MemoryRegion M) where
  pub read-Alike :
      (c : ConcurrentDirectory M) (d : RegionDirectory M) (h : Handle) (n : ℕ)
      → Agrees c d
      → Alike (read mem c h n) (Access.read mem d h n)
  unfolding read Access.read validate put
  read-Alike c d h n k =
      with_region-Agrees c d h.region_id (read_section mem h n) (Access.read mem d h n) k
        (λ gone. (ground arith, ground arith))
        (λ e held. elim (Bool-cases (e.meta.generation == h.generation)) [
          | inr stale ↦ (ground arith, ground arith, inl (ground arith))
          | inl fresh ↦ elim (Result-cases (read_entry mem e h.offset n)) [
            | inr (x, failed) ↦ (ground arith, ground arith, inl (ground arith))
            | inl ((bytes, e'), found) ↦ (
              ground arith,
              ground (arith, read_entry_same mem e h.offset n bytes e' found),
              inr (ground arith),
            )
          ]
        ])
