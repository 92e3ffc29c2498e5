-- ===== src/Allocator/Blocks.antt =====
-- Blocks of a region, and the ordered map from offset to size (`BTreeMap<u32, u32>`).
use tvm_wasm.Base.{
  ℕ, suc, ◌+◌, ◌≤◌, ◌<◌, ◌≡◌, refl, List, [], ◌∷◌, Option, none, some, ltb, leb, ◌==◌, ◌&&◌,
  if◌then◌else◌, arith, All, ◌⊎◌,
}

-- An offset and a size.
abbrev pub Block : Type 0
Block = ℕ × ℕ

abbrev pub lookup : ℕ → List Block → Option ℕ
lookup k [] = none
lookup k ((j, v) ∷ m) = if j == k then some v else lookup k m

abbrev pub insert : ℕ → ℕ → List Block → List Block
insert k v [] = (k, v) ∷ []
insert k v ((j, w) ∷ m) =
    if ltb k j then (k, v) ∷ (j, w) ∷ m else if j == k then (k, v) ∷ m else (j, w) ∷ insert k v m

abbrev pub remove : ℕ → List Block → List Block
remove k [] = []
remove k ((j, v) ∷ m) = if j == k then m else (j, v) ∷ remove k m

abbrev pub total : List Block → ℕ
total [] = 0
total ((o, s) ∷ r) = s + total r

-- How many of the blocks hold the byte `x`.
abbrev pub cover : ℕ → ℕ → ℕ → ℕ
cover x o s = if leb o x && ltb x (o + s) then 1 else 0

abbrev pub count : ℕ → List Block → ℕ
count x [] = 0
count x ((o, s) ∷ r) = cover x o s + count x r

-- Keys in ascending order, from `n` on.
abbrev pub Ordered : ℕ → List Block → Type 0
Ordered n [] = Unit {0}
Ordered n ((k, v) ∷ m) = (n ≤ k) × Ordered (suc k) m

-- Blocks in ascending order, from `n` on, no two of which touch.
abbrev pub Gapped : ℕ → List Block → Type 0
Gapped n [] = Unit {0}
Gapped n ((o, s) ∷ r) = (n ≤ o) × Gapped (suc (o + s)) r

abbrev pub Live : ℕ → Block → Type 0
Live lim (o, s) = (0 < s) × (o + s ≤ lim)

pub count-insert :
    (x k v : ℕ) (m : List Block)
    → lookup k m ≡ none
    → count x (insert k v m) ≡ cover x k v + count x m
count-insert x k v [] h = refl
count-insert x k v ((j, w) ∷ m) h = ground (arith, count-insert x k v m)

pub count-remove :
    (x k v : ℕ) (m : List Block)
    → lookup k m ≡ some v
    → count x (remove k m) + cover x k v ≡ count x m
count-remove x k v [] h = ground arith
count-remove x k v ((j, w) ∷ m) h = ground (arith, count-remove x k v m)

pub total-insert :
    (k v : ℕ) (m : List Block) → lookup k m ≡ none → total (insert k v m) ≡ v + total m
total-insert k v [] h = refl
total-insert k v ((j, w) ∷ m) h = ground (arith, total-insert k v m)

pub total-remove :
    (k v : ℕ) (m : List Block) → lookup k m ≡ some v → total (remove k m) + v ≡ total m
total-remove k v [] h = ground arith
total-remove k v ((j, w) ∷ m) h = ground (arith, total-remove k v m)

pub insert-Ordered : (n k v : ℕ) (m : List Block) → n ≤ k → Ordered n m → Ordered n (insert k v m)
insert-Ordered n k v [] h o = (h, tt)
insert-Ordered n k v ((j, w) ∷ m) h o = ground (arith, insert-Ordered (suc j) k v m)

pub Ordered-weaken : (n m : ℕ) (xs : List Block) → n ≤ m → Ordered m xs → Ordered n xs
Ordered-weaken n m [] h o = tt
Ordered-weaken n m ((j, w) ∷ xs) h o = (omega arith, o.1)

pub remove-Ordered : (n k : ℕ) (m : List Block) → Ordered n m → Ordered n (remove k m)
remove-Ordered n k [] o = tt
remove-Ordered n k ((j, w) ∷ m) o =
    ground (arith, remove-Ordered (suc j) k m, Ordered-weaken n (suc j) m)

pub Gapped-weaken : (n m : ℕ) (xs : List Block) → n ≤ m → Gapped m xs → Gapped n xs
Gapped-weaken n m [] h o = tt
Gapped-weaken n m ((j, w) ∷ xs) h o = (omega arith, o.1)

pub insert-Live :
    (lim k v : ℕ) (m : List Block)
    → Live lim (k, v)
    → All (Live lim) m
    → All (Live lim) (insert k v m)
insert-Live lim k v [] h l = (h, tt)
insert-Live lim k v ((j, w) ∷ m) h l = ground (arith, insert-Live lim k v m)

pub remove-Live : (lim k : ℕ) (m : List Block) → All (Live lim) m → All (Live lim) (remove k m)
remove-Live lim k [] l = tt
remove-Live lim k ((j, w) ∷ m) l = ground (arith, remove-Live lim k m)

pub lookup-Live :
    (lim k v : ℕ) (m : List Block) → All (Live lim) m → lookup k m ≡ some v → Live lim (k, v)
lookup-Live lim k v [] l e = absurd (ground arith)
lookup-Live lim k v ((j, w) ∷ m) l e = ground (arith, lookup-Live lim k v m)

-- The first byte of a live block is counted.
pub count-Live :
    (lim k v : ℕ) (m : List Block) → All (Live lim) m → lookup k m ≡ some v → 0 < count k m
count-Live lim k v m l e =
    let live = lookup-Live lim k v m l e in ground (arith, count-remove k k v m e)

-- Two blocks that share no byte.
abbrev pub Apart : ℕ → ℕ → Block → Type 0
Apart o s (b, t) = (b + t ≤ o) ⊎ (o + s ≤ b)

-- A block that is counted beside the others nowhere more than once is apart from each of them.
pub Apart-of_count :
    (lim o s : ℕ) (m : List Block)
    → 0 < s
    → All (Live lim) m
    → ((x : ℕ) → cover x o s + count x m ≤ 1)
    → All (Apart o s) m
Apart-of_count lim o s [] pos l h = tt
Apart-of_count lim o s ((b, t) ∷ m) pos l h =
    (ground (arith, h b, h o), Apart-of_count lim o s m pos l.1 (λ x. omega (arith, h x)))

lookup_below : (n k : ℕ) (m : List Block) → Ordered n m → k < n → lookup k m ≡ none
lookup_below n k [] o h = refl
lookup_below n k ((j, v) ∷ m) o h = ground (arith, lookup_below (suc j) k m)

pub lookup-remove : (n k : ℕ) (m : List Block) → Ordered n m → lookup k (remove k m) ≡ none
lookup-remove n k [] o = refl
lookup-remove n k ((j, v) ∷ m) o =
    ground (arith, lookup-remove (suc j) k m o.1, lookup_below (suc j) k m o.1)

pub lookup-insert_self : (k v : ℕ) (m : List Block) → lookup k (insert k v m) ≡ some v
lookup-insert_self k v [] = ground arith
lookup-insert_self k v ((j, w) ∷ m) = ground (arith, lookup-insert_self k v m)

pub remove-insert :
    (n k v : ℕ) (m : List Block) → Ordered n m → lookup k m ≡ none → remove k (insert k v m) ≡ m
remove-insert n k v [] o e = ground arith
remove-insert n k v ((j, w) ∷ m) o e = ground (arith, remove-insert (suc j) k v m o.1)

pub count_below : (n x : ℕ) (m : List Block) → Gapped n m → x < n → count x m ≡ 0
count_below n x [] g h = refl
count_below n x ((o, s) ∷ m) g h = ground (arith, count_below (suc (o + s)) x m)

-- Blocks that are kept merged are determined by the bytes that they hold.
pub eq_of_count :
    (n lim : ℕ) (xs ys : List Block)
    → All (Live lim) xs
    → All (Live lim) ys
    → Gapped n xs
    → Gapped n ys
    → ((x : ℕ) → count x xs ≡ count x ys)
    → xs ≡ ys
eq_of_count n lim [] [] lx ly gx gy h = refl
eq_of_count n lim [] ((p, t) ∷ ys) lx ly gx gy h = absurd (ground (arith, h p))
eq_of_count n lim ((o, s) ∷ xs) [] lx ly gx gy h = absurd (ground (arith, h o))
eq_of_count n lim ((o, s) ∷ xs) ((p, t) ∷ ys) lx ly gx gy h =
    let start : o ≡ p =
      ground (
        arith,
        h o,
        h p,
        count_below (suc (o + s)) p xs gx.1,
        count_below (suc (p + t)) o ys gy.1,
      ) in
    let size : s ≡ t = ground (
      arith,
      h (o + s),
      h (p + t),
      start,
      count_below (suc (o + s)) (o + s) xs gx.1,
      count_below (suc (p + t)) (p + t) ys gy.1,
      count_below (suc (o + s)) (p + t) xs gx.1,
      count_below (suc (p + t)) (o + s) ys gy.1,
    ) in
    let rest : xs ≡ ys =
      eq_of_count (suc (o + s)) lim xs ys lx.1 ly.1 gx.1 (rw (start, size) gy.1)
        (λ x. ground (arith, h x, start, size)) in
    cc
