-- ===== src/Vmm/Fresh.antt =====
-- The branch of `vmm_get_next_level` in ntoskrnl/mm/vmm.c that links a fresh page into the tree.
use open_lib.Common.{
  ℕ, zero, suc, ◌+◌, ◌*◌, ◌%◌, ◌^◌, ◌≤◌, ◌<◌, ◌≡◌, ◌≢◌, refl, ap, sym, ◌∙◌, none, some, arith,
  if◌then◌else◌, ◌==◌, ◌⊎◌, inl, inr, ◌&&◌, Option-cases, Bool-cases, true, false,
}
use open_lib.Pmm.{Pmm, page_size}
use open_lib.Vmm.{Machine, pml_entry, is_present}
use open_lib.Vmm.Memory.{write64}
use open_lib.Vmm.Tables.{
  Tables, slot, descend, reach, lookup, descend-write64, slot-write64, pml_entry-lt, reach-prefix,
  reach-none, reach-some, lookup-none, lookup-some,
}
use open_lib.Vmm.Level.{Taken}

module _ (m : Machine) (level prefix : ℕ → ℕ) (k t i flags : ℕ) (h : Tables m level prefix)
    (at : level t ≡ suc k) (low : 1 ≤ k) (high : k ≤ 3) (hi : i < 512) (hf : flags < 4096)
    (odd : flags % 2 ≡ 1) (c : ℕ) (q : Pmm) (d : descend m.ram t i ≡ none)
    (taken : Taken m.pmm c q) where
  abbrev pub linked : Machine
  linked = record m { pmm = q; ram = write64 m.ram (t * page_size + i * 8) (c * page_size + flags) }

  abbrev pub level_with : ℕ → ℕ
  level_with u = if c == u then k else level u

  abbrev pub prefix_with : ℕ → ℕ
  prefix_with u = if c == u then prefix t * 512 + i else prefix u

  fresh : level c ≡ 0
  fresh = ground (arith, h.used c, taken.free)

  other : t ≢ c
  other e = ground (arith, fresh, ap level e)

  small : c < 2 ^ 34
  small = omega (arith, h.memory, taken.inside)

  flagged : is_present (c * page_size + flags) ≡ true
  unfolding is_present
  flagged = ground arith

  pub descend-linked :
      (u j : ℕ)
      → j < 512
      → descend linked.ram u j ≡ (if t == u && i == j then some c else descend m.ram u j)
  descend-linked u j hj = ground (
    arith,
    small,
    descend-write64 m.ram t i (c * page_size + flags) u j hi hj (omega (arith, small)) flagged,
  )

  empty : (j : ℕ) → j < 512 → descend linked.ram c j ≡ none
  empty j hj = ground (arith, other, descend-linked c j hj, h.clean c j taken.free taken.inside hj)

  empty_reach : (kk v : ℕ) → reach linked.ram (suc (suc kk)) c v ≡ none
  empty_reach kk v =
      reach-none linked.ram kk c v
        (empty (pml_entry (suc (suc kk)) v) (pml_entry-lt (suc (suc kk)) v))

  -- Where a walk goes: where it went, or it ended nowhere and now ends nowhere or in the fresh page.
  abbrev Follows : ℕ → ℕ → ℕ → Type 0
  Follows kk u v =
      (reach linked.ram kk u v ≡ reach m.ram kk u v)
      ⊎ ((reach m.ram kk u v ≡ none)
          × ((reach linked.ram kk u v ≡ none) ⊎ (reach linked.ram kk u v ≡ some c)))

  into_fresh :
      (kk v : ℕ) → (reach linked.ram (suc kk) c v ≡ none) ⊎ (reach linked.ram (suc kk) c v ≡ some c)
  into_fresh zero v = inr (unfold reach in refl)
  into_fresh (suc kk) v = inl (empty_reach kk v)

  reach-linked : (kk u v : ℕ) → level u ≡ kk → Follows kk u v
  reach-linked zero u v e = inl (unfold reach in refl)
  reach-linked (suc zero) u v e = inl (unfold reach in refl)
  reach-linked (suc (suc kk)) u v e =
      let j = pml_entry (suc (suc kk)) v in
      let now = descend-linked u j (pml_entry-lt (suc (suc kk)) v) in
      elim (Bool-cases (t == u && i == j)) [
        | inl same ↦
            let to_c : descend linked.ram u j ≡ some c = now ∙ rw same refl in
            inr (
              reach-none m.ram kk u v (ground (arith, d)),
              ground (arith, reach-some linked.ram kk u v c to_c, into_fresh kk v),
            )
        | inr differs ↦
            let as_before : descend linked.ram u j ≡ descend m.ram u j = now ∙ rw differs refl in
            elim (Option-cases (descend m.ram u j)) [
              | inl nowhere ↦ inl (
                  reach-none linked.ram kk u v (as_before ∙ nowhere)
                  ∙ sym (reach-none m.ram kk u v nowhere))
              | inr (c', found) ↦
                  let down = h.child u j c' (omega arith) (pml_entry-lt (suc (suc kk)) v) found in
                  ground (
                    arith,
                    reach-some linked.ram kk u v c' (as_before ∙ found),
                    reach-some m.ram kk u v c' found,
                    reach-linked (suc kk) c' v (omega (arith, down.0)),
                  )
            ]
      ]

  same_leaf :
      (u v l : ℕ)
      → level u ≡ 4
      → reach m.ram 4 u v ≡ some l
      → slot linked.ram l (pml_entry 1 v) ≡ slot m.ram l (pml_entry 1 v)
  same_leaf u v l e r = ground (
    arith,
    small,
    slot-write64 m.ram t i (c * page_size + flags) l (pml_entry 1 v) hi (pml_entry-lt 1 v)
        (omega (arith, small)),
    reach-prefix m level prefix 4 u v l h e r,
  )

  absent_leaf : (j : ℕ) → j < 512 → is_present (slot linked.ram c j) ≡ false
  absent_leaf j hj = unfold descend in ground (arith, empty j hj)

  -- No address is mapped by the new link.
  pub lookup-linked : (u v : ℕ) → level u ≡ 4 → lookup linked.ram u v ≡ lookup m.ram u v
  lookup-linked u v e = elim (reach-linked 4 u v e) [
    | inl same ↦ elim (Option-cases (reach m.ram 4 u v)) [
      | inl nowhere ↦
          lookup-none linked.ram u v (same ∙ nowhere) ∙ sym (lookup-none m.ram u v nowhere)
      | inr (l, r) ↦ ground (
        arith,
        lookup-some linked.ram u v l (same ∙ r),
        lookup-some m.ram u v l r,
        same_leaf u v l e r,
      )
    ]
    | inr (nowhere, inl still) ↦
        lookup-none linked.ram u v still ∙ sym (lookup-none m.ram u v nowhere)
    | inr (nowhere, inr into) ↦
        lookup-some linked.ram u v c into
        ∙ rw (absent_leaf (pml_entry 1 v) (pml_entry-lt 1 v)) (sym (lookup-none m.ram u v nowhere))
  ]

  pub Tables-linked : Tables linked level_with prefix_with
  Tables-linked = record {
    bytes = taken.bytes;
    memory = ground (arith, h.memory, taken.same_highest);
    root = λ u e. ground (arith, h.root u);
    child = λ u j c' two hj e.
        ground (arith, fresh, other, empty j, descend-linked u j hj, h.child u j c');
    used = λ u e. ground (arith, taken.bits u, h.used u);
    inside = λ u e. ground (arith, small, h.inside u);
    clean = λ u j free ins hj.
        ground
          (arith, taken.bits u, taken.same_highest, h.used t, descend-linked u j hj, h.clean u j);
  }
