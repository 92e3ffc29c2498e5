-- ===== src/Guest/Entries.antt =====
-- The slots of a `GuestDirectory` (crates/tvm-guest-mm/src/directory.rs) after a change of one.
use native.Mathlib.Decide.{ℕ_discrete}
use tvm_wasm.Base.{
  ℕ, ◌≡◌, ◌≢◌, ◌<◌, sym, ap, subst, ◌∙◌, ◌⊎◌, inl, inr, some, some-inj, Option-cases, length,
  get_elem?, arith, get_elem?-set_self, get_elem?-set_ne, get_elem?-some_lt,
}
use tvm_wasm.Guest.{GuestDirectory, GuestEntry, entry, put, occupied}

pub entry-lt :
    (g : GuestDirectory) (id : ℕ) (e : GuestEntry) → entry g id ≡ some e → id < length g.slots
unfolding entry
entry-lt g id e h = elim (Option-cases (get_elem? g.slots id)) [
  | inl gone ↦ absurd (ground arith)
  | inr (slot, at) ↦ get_elem?-some_lt g.slots id at
]

pub entry-put_self :
    (g : GuestDirectory) (id : ℕ) (e f : GuestEntry)
    → entry g id ≡ some e
    → entry (put g id f) id ≡ some f
unfolding entry put
entry-put_self g id e f h = ap occupied (get_elem?-set_self g.slots id (some f) (entry-lt g id e h))

pub entry-put_ne :
    (g : GuestDirectory) (id j : ℕ) (f : GuestEntry) → id ≢ j → entry (put g id f) j ≡ entry g j
unfolding entry put
entry-put_ne g id j f h = ap occupied (get_elem?-set_ne g.slots id j (some f) h)

-- What stands in a slot after a change is the new entry or an old one.
pub entry-put_cases :
    (g : GuestDirectory) (id j : ℕ) (e f x : GuestEntry)
    → entry g id ≡ some e
    → entry (put g id f) j ≡ some x
    → ((id ≡ j) × (f ≡ x)) ⊎ ((id ≢ j) × (entry g j ≡ some x))
entry-put_cases g id j e f x at now = elim (ℕ_discrete id j) [
  | yes same ↦
      let hit : entry (put g id f) j ≡ some f =
        subst (λ k. entry (put g id f) k ≡ some f) same (entry-put_self g id e f at) in
      inl (same, some-inj f x (sym hit ∙ now))
  | no other ↦ inr (other, sym (entry-put_ne g id j f other) ∙ now)
]
