-- ===== src/Directory/Compact/Loop.antt =====
-- The loop of `compact_region` in crates/tvm-core/src/directory.rs.
use native.Mathlib.Decide.{ℕ_discrete}
use tvm_wasm.Base.{
  subst, add32, ℕ, zero, suc, ◌+◌, ◌≤◌, ◌<◌, ◌≡◌, ◌≢◌, refl, sym, ap, ◌∙◌, inl, inr, false, List,
  [], ◌∷◌, ◌++◌, some, some-inj, Result, Result-cases, ok, err, All, length, take, slice, splice,
  ltb, u32_mod, arith, length-splice, read-splice, length-replicate,
}
use tvm_wasm.Memory.{MemoryRegion, IsMemory}
use tvm_wasm.Allocator.Blocks.{
  Block, lookup, insert, total, Live, Ordered, lookup-insert_self, Ordered-weaken,
}
use tvm_wasm.Allocator.Freelist.Rebuild.{Packed}
use tvm_wasm.Directory.Compact.{Packing, empty_packing, pack_block, pack_blocks}

ok-inj : (p q : Packing) → Path (Result Packing) (ok p) (ok q) → p ≡ q
ok-inj p q e = ap (λ r. elim r [ ok x ↦ x | err _ ↦ p ]) e

lookup-insert_ne : (k j v : ℕ) (m : List Block) → k ≢ j → lookup j (insert k v m) ≡ lookup j m
lookup-insert_ne k j v [] h = ground arith
lookup-insert_ne k j v ((i, w) ∷ m) h = ground (arith, lookup-insert_ne k j v m h)

pub Packed-append :
    (n c s : ℕ) (xs : List Block)
    → Packed n xs
    → 0 < s
    → c ≡ n + total xs
    → Packed n (xs ++ (c, s) ∷ [])
Packed-append n c s [] p h e = (omega arith, h, tt)
Packed-append n c s ((o, t) ∷ xs) p h e =
    (p.0, p.1, Packed-append (n + t) c s xs p.2 h (omega arith))

pub total-append_one : (o s : ℕ) (xs : List Block) → total (xs ++ (o, s) ∷ []) ≡ total xs + s
total-append_one o s [] = omega arith
total-append_one o s ((p, t) ∷ xs) = omega (arith, total-append_one o s xs)

-- What lies before a splice stays.
slice_before :
    (n c i : ℕ) (xs ys : List ℕ)
    → c + n ≤ i
    → i ≤ length xs
    → slice n c (take i xs ++ ys) ≡ slice n c xs
slice_before zero zero i xs ys h k = refl
slice_before (suc n) zero zero xs ys h k = absurd (omega arith)
slice_before (suc n) zero (suc i) [] ys h k = absurd (omega arith)
slice_before (suc n) zero (suc i) (x ∷ xs) ys h k =
    ap (◌∷◌ x) (slice_before n zero i xs ys (omega arith) (omega arith))
slice_before n (suc c) zero xs ys h k = absurd (omega arith)
slice_before n (suc c) (suc i) [] ys h k = absurd (omega arith)
slice_before n (suc c) (suc i) (x ∷ xs) ys h k =
    slice_before n c i xs ys (omega arith) (omega arith)

-- A packing under way, with room for what is to come.
pub record IsPacking (capacity : ℕ) (rest : List Block) (p : Packing) : Type 0 where
  pub fits : capacity < u32_mod
  pub size : length p.new_data ≡ capacity
  pub packed : Packed 0 p.new_blocks
  pub at : p.cursor ≡ total p.new_blocks
  pub room : p.cursor + total rest ≤ capacity

pub empty-IsPacking :
    (capacity : ℕ) (blocks : List Block)
    → capacity < u32_mod
    → total blocks ≤ capacity
    → IsPacking capacity blocks (empty_packing capacity)
empty-IsPacking capacity blocks h k = record {
  fits = h;
  size = length-replicate capacity 0;
  packed = tt;
  at = refl;
  room = omega arith;
}

pack_block-IsPacking :
    (capacity o s : ℕ) (rest : List Block) (p : Packing) (buf : List ℕ)
    → IsPacking capacity ((o, s) ∷ rest) p
    → 0 < s
    → length buf ≡ s
    → IsPacking capacity rest (pack_block p o s buf)
pack_block-IsPacking capacity o s rest p buf v pos len = record {
  fits = v.fits;
  size = length-splice p.new_data buf p.cursor (omega (arith, v.size, v.room)) ∙ v.size;
  packed = Packed-append 0 p.cursor s p.new_blocks v.packed pos (omega (arith, v.at));
  at = omega (arith, v.at, v.room, v.fits, total-append_one p.cursor s p.new_blocks);
  room = omega (arith, v.room, v.fits);
}

module _ {M : Type 0} (mem : MemoryRegion M) (laws : IsMemory mem) where
  -- With room for the blocks the loop ends without a panic.
  pub pack_blocks_total :
      (capacity : ℕ) (m : M) (blocks : List Block) (p : Packing)
      → IsPacking capacity blocks p
      → All (Live capacity) blocks
      → (r : Result Packing) × (pack_blocks mem m blocks p ≡ some r)
  unfolding pack_blocks
  pack_blocks_total capacity m [] p v l = (ok p, refl)
  pack_blocks_total capacity m ((o, s) ∷ rest) p v l = elim (Result-cases (mem.read m o s)) [
    | inr (x, failed) ↦ (err x, rw (failed, pack_blocks))
    | inl (buf, found) ↦
        let len = laws.read_length m o s buf found in
        let fits : ltb (length p.new_data) (p.cursor + s) ≡ false =
          ground (arith, v.size, v.room) in
        rw (found, pack_blocks, fits)
          (pack_blocks_total capacity m rest (pack_block p o s buf)
            (pack_block-IsPacking capacity o s rest p buf v l.0.0 len) l.1)
  ]

  -- The block has a new place, which holds the bytes of the old one.
  abbrev pub Moved : M → Packing → ℕ → ℕ → Type 0
  Moved m q o s =
      (c : ℕ) × (lookup o q.mapping ≡ some c)
      × (c + s ≤ q.cursor)
      × (mem.read m o s ≡ ok (slice s c q.new_data))

  -- What the loop keeps of what it had, and does with the blocks to come.
  pub record Packs (capacity : ℕ) (m : M) (blocks : List Block) (p q : Packing) : Type 0 where
    pub valid : IsPacking capacity [] q
    pub sum : total q.new_blocks ≡ total p.new_blocks + total blocks
    pub kept :
        (k c : ℕ)
        → Ordered (suc k) blocks
        → lookup k p.mapping ≡ some c
        → lookup k q.mapping ≡ some c
    pub prefix : (c n : ℕ) → c + n ≤ p.cursor → slice n c q.new_data ≡ slice n c p.new_data
    pub moved : (o s : ℕ) → lookup o blocks ≡ some s → Moved m q o s

  nothing_packed :
      (capacity : ℕ) (m : M) (p : Packing) → IsPacking capacity [] p → Packs capacity m [] p p
  nothing_packed capacity m p v = record {
    valid = v;
    sum = omega arith;
    kept = λ k c w at. at;
    prefix = λ c n within. refl;
    moved = λ o s at. absurd (ground arith);
  }

  Packs-more :
      (capacity o s : ℕ) (m : M) (rest : List Block) (p q : Packing) (buf : List ℕ)
      → mem.read m o s ≡ ok buf
      → IsPacking capacity ((o, s) ∷ rest) p
      → length buf ≡ s
      → Ordered (suc o) rest
      → Packs capacity m rest (pack_block p o s buf) q
      → Packs capacity m ((o, s) ∷ rest) p q
  Packs-more capacity o s m rest p q buf found v len w r =
      let next : add32 p.cursor s ≡ p.cursor + s = omega (arith, v.room, v.fits) in
      let inside : p.cursor + length buf ≤ length p.new_data = omega (arith, v.room, v.size) in
      let there : slice s p.cursor q.new_data ≡ buf =
        r.prefix p.cursor s (omega (arith, next))
        ∙ ap (λ n. slice n p.cursor (splice p.new_data p.cursor buf)) (sym len)
        ∙ read-splice p.new_data buf p.cursor inside in
      let base : Moved m q o s = (
        p.cursor,
        r.kept o p.cursor w (lookup-insert_self o p.cursor p.mapping),
        omega (arith, r.sum, r.valid.at, v.at, total-append_one p.cursor s p.new_blocks),
        found ∙ ap ok (sym there),
      ) in
      record {
        valid = r.valid;
        sum = omega (arith, r.sum, total-append_one p.cursor s p.new_blocks);
        kept = λ k c ordered at.
            r.kept k c (Ordered-weaken (suc k) (suc o) rest (omega (arith, ordered.0)) w)
              (lookup-insert_ne o k p.cursor p.mapping (λ e. omega (arith, e, ordered.0)) ∙ at);
        prefix = λ c n within.
            r.prefix c n (omega arith)
            ∙ slice_before n c p.cursor p.new_data _ within (omega (arith, inside));
        moved = λ k t at. elim (ℕ_discrete o k) [
          | yes here ↦
              let same : s ≡ t = ground arith in
              subst (λ j. Moved m q j t) here (subst (Moved m q o) same base)
          | no other ↦ r.moved k t (ground arith)
        ];
      }

  pub pack_blocks-Packs :
      (capacity n : ℕ) (m : M) (blocks : List Block) (p q : Packing)
      → IsPacking capacity blocks p
      → All (Live capacity) blocks
      → Ordered n blocks
      → pack_blocks mem m blocks p ≡ some (ok q)
      → Packs capacity m blocks p q
  unfolding pack_blocks
  pack_blocks-Packs capacity n m [] p q v l w done =
      let here : p ≡ q = ok-inj p q (some-inj (ok p) (ok q) done) in
      subst (Packs capacity m [] p) here (nothing_packed capacity m p v)
  pack_blocks-Packs capacity n m ((o, s) ∷ rest) p q v l w done =
      elim (Result-cases (mem.read m o s)) [
        | inr (x, failed) ↦ absurd (ground arith)
        | inl (buf, found) ↦
            let len = laws.read_length m o s buf found in
            let fits : ltb (length p.new_data) (p.cursor + s) ≡ false =
              ground (arith, v.size, v.room) in
            let later : pack_blocks mem m rest (pack_block p o s buf) ≡ some (ok q) =
              ground arith in
            let next = pack_block-IsPacking capacity o s rest p buf v l.0.0 len in
            let r : Packs capacity m rest (pack_block p o s buf) q =
              pack_blocks-Packs capacity (suc o) m rest (pack_block p o s buf) q next l.1 w.1
                later in
            Packs-more capacity o s m rest p q buf found v len w.1 r
      ]
