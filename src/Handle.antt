-- ===== src/Handle.antt =====
-- crates/tvm-core/src/handle.rs: the generation-checked handle, and the u64 that it packs into.
pub mod RoundTrip
use tvm_wasm.Base.{
  ℕ, ◌*◌, ◌/◌, ◌%◌, ◌^◌, ◌<◌, Bool, ◌&&◌, ◌==◌, bit_and, bit_or, u16_mod, u32_mod, u64_mod,
}

pub record Handle : Type 0 where
  pub region_id : ℕ
  pub generation : ℕ
  pub offset : ℕ

-- The fields are a u16, a u16 and a u32.
pub record IsHandle (h : Handle) : Type 0 where
  pub region_id_fits : h.region_id < u16_mod
  pub generation_fits : h.generation < u16_mod
  pub offset_fits : h.offset < u32_mod

abbrev pub null : Handle
null = record { region_id = 0; generation = 0; offset = 0 }

pub is_null : Handle → Bool
is_null h = h.region_id == 0 && h.generation == 0 && h.offset == 0

abbrev shl64 : ℕ → ℕ → ℕ
shl64 x k = (x * 2 ^ k) % u64_mod

pub pack : Handle → ℕ
pack h = bit_or (bit_or (shl64 h.region_id 48) (shl64 h.generation 32)) h.offset

pub unpack : ℕ → Handle
unpack packed = record {
  region_id = (packed / 2 ^ 48) % u16_mod;
  generation = bit_and (packed / 2 ^ 32) 0xFFFF % u16_mod;
  offset = bit_and packed 0xFFFF_FFFF % u32_mod;
}
