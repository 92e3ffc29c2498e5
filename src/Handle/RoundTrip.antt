-- ===== src/Handle/RoundTrip.antt =====
-- The packed form of a handle, crates/tvm-core/src/handle.rs.
use tvm_wasm.Base.{ℕ, ◌+◌, ◌*◌, ◌/◌, ◌%◌, ◌^◌, ◌<◌, ◌≡◌, ◌↔◌, true, bit_or, u64_mod, arith}
use tvm_wasm.Bits.{bit_and_low, bit_or_shift}
use tvm_wasm.Handle.{Handle, IsHandle, is_null, pack, unpack}

-- The fields stand side by side in the word.
pub pack_fields :
    (h : Handle) → IsHandle h → pack h ≡ h.region_id * 2 ^ 48 + h.generation * 2 ^ 32 + h.offset
unfolding pack
pack_fields h v =
    let upper : bit_or (h.region_id * 2 ^ 48) (h.generation * 2 ^ 32)
        ≡ h.region_id * 2 ^ 48 + h.generation * 2 ^ 32 =
      bit_or_shift 48 h.region_id (h.generation * 2 ^ 32) (omega arith) in
    let lower : bit_or ((h.region_id * 2 ^ 16 + h.generation) * 2 ^ 32) h.offset
        ≡ (h.region_id * 2 ^ 16 + h.generation) * 2 ^ 32 + h.offset =
      bit_or_shift 32 (h.region_id * 2 ^ 16 + h.generation) h.offset (omega arith) in
    let first : (h.region_id * 2 ^ 48) % u64_mod ≡ h.region_id * 2 ^ 48 = omega arith in
    let second : (h.generation * 2 ^ 32) % u64_mod ≡ h.generation * 2 ^ 32 = omega arith in
    let joined : h.region_id * 2 ^ 48 + h.generation * 2 ^ 32
        ≡ (h.region_id * 2 ^ 16 + h.generation) * 2 ^ 32 =
      omega arith in
    rw (first, second, upper, joined) lower

pub pack-lt : (h : Handle) → IsHandle h → pack h < u64_mod
pack-lt h v = omega (arith, pack_fields h v)

unpack_fields :
    (p : ℕ)
    → unpack p ≡ record {
      region_id = p / 2 ^ 48 % 2 ^ 16;
      generation = p / 2 ^ 32 % 2 ^ 16;
      offset = p % 2 ^ 32;
    }
unfolding unpack
unpack_fields p = ground (arith, bit_and_low 16 (p / 2 ^ 32), bit_and_low 32 p)

unpack-IsHandle : (p : ℕ) → IsHandle (unpack p)
unpack-IsHandle p = rw (unpack_fields p) (omega arith)

-- A handle of u16, u16 and u32 fields comes back from its packed form.
pub unpack-pack : (h : Handle) → IsHandle h → unpack (pack h) ≡ h
unpack-pack h v = ground (arith, unpack_fields (pack h), pack_fields h v)

-- Every u64 is the packed form of the handle that it unpacks to.
pub pack-unpack : (p : ℕ) → p < u64_mod → pack (unpack p) ≡ p
pack-unpack p h = ground (arith, pack_fields (unpack p) (unpack-IsHandle p), unpack_fields p)

-- A handle of u16, u16 and u32 fields is null exactly when it packs to 0.
pub is_null-pack : (h : Handle) → IsHandle h → (is_null h ≡ true) ↔ (pack h ≡ 0)
unfolding is_null
is_null-pack h v = ground (arith, pack_fields h v)
