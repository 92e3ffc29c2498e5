-- ===== src/Guest/Facade/Calls.antt =====
-- The calls of a `GuestTvm` (crates/tvm-guest-mm/src/facade.rs), and runs of them.
use tvm_wasm.Base.{ℕ, List, [], ◌∷◌}
use tvm_wasm.Handle.{Handle}
use tvm_wasm.Region.{RegionKind}
use tvm_wasm.Guest.{Dispatch}
use tvm_wasm.Guest.Facade.{
  GuestTvm, create_region, alloc, dealloc, pin, unpin, read, write, compact_region,
}

-- Calls of the facade. The pools are as the earlier calls have left them.
pub data Call : Type 0 where
  create : RegionKind → ℕ → Call
  allocate : ℕ → ℕ → Call
  release : Handle → Call
  read_at : Handle → ℕ → Call
  write_at : Handle → List ℕ → Call
  pin_it unpin_it compact : ℕ → Call

module _ {P : Type 0} (dispatch : Dispatch P) where
  abbrev pub step : Call → P → GuestTvm → P × GuestTvm
  step (create k c) p t = (p, (create_region t k c).1)
  step (allocate id n) p t = (p, (alloc t id n).1)
  step (release h) p t = (p, (dealloc t h).1)
  step (read_at h n) p t = (p, (read dispatch t h n p).1)
  step (write_at h bytes) p t = let (_, p', t') = write dispatch t h bytes p in (p', t')
  step (pin_it id) p t = (p, (pin t id).1)
  step (unpin_it id) p t = (p, (unpin t id).1)
  step (compact id) p t = let (_, p', t') = compact_region dispatch t id p in (p', t')

  unfoldable pub run : List Call → P → GuestTvm → P × GuestTvm
  run [] p t = (p, t)
  run (c ∷ cs) p t = let (p', t') = step c p t in run cs p' t'
