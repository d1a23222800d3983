-- ===== src/Vmm/Walk.antt =====
-- The calls of `vmm_get_next_level` that every operation of ntoskrnl/mm/vmm.c opens with.
use open_lib.Common.{
  ℕ, suc, ◌+◌, ◌*◌, ◌%◌, ◌≤◌, ◌<◌, ◌≡◌, refl, ◌∙◌, some, arith, inl, inr, Option-cases,
}
use open_lib.Pmm.{Pmm, page_size}
use open_lib.Vmm.{Machine, pml_entry, get_next_level, last_level}
use open_lib.Vmm.Tables.{Tables, descend, reach, lookup, pml_entry-lt, reach-some}
use open_lib.Vmm.Level.{Room, Down, take_page, Room-lower, present_entry, absent_entry}
use open_lib.Vmm.Fresh.{
  linked, level_with, prefix_with, Tables-linked, descend-linked, lookup-linked,
}

module _ (m : Machine) (level prefix : ℕ → ℕ) (k t i flags n : ℕ) (h : Tables m level prefix)
    (at : level t ≡ suc k) (low : 1 ≤ k) (high : k ≤ 3) (hi : i < 512) (hf : flags < 4096)
    (odd : flags % 2 ≡ 1) (room : Room m.pmm 0 (suc n)) where
  fewer : (p : Pmm) (n : ℕ) → Room p 0 (suc n) → Room p 0 n
  fewer p n (a, ge, inside, free, more) = Room-lower p (a + 1) 0 n (omega arith) more

  -- One call returns the table below, in a tree in which every address is mapped as it was.
  pub get_next_level_lem :
      (c : ℕ) × (m' : Machine) × (level' prefix' : ℕ → ℕ) × (get_next_level m
          (t * page_size)
          i
          flags
        ≡ some (c * page_size, m'))
      × Down m level prefix k t i n c m' level' prefix'
  get_next_level_lem = elim (Option-cases (descend m.ram t i)) [
    | inr (c, d) ↦
        let down = h.child t i c (omega arith) hi d in
        (
          c,
          m,
          level,
          prefix,
          present_entry m level prefix k t i flags n h at low high hi hf odd c d,
          record {
            tables = h;
            linked = d;
            below = omega (arith, down.0);
            covers = down.1;
            kept = λ u p. (refl, refl);
            links = λ u j x p hj e. e;
            same_views = λ u v e. refl;
            room = fewer m.pmm n room;
          },
        )
    | inl d ↦
        let (c, q, e, taken, more) = take_page m.pmm n h.bytes h.memory room in
        (
          c,
          linked m level prefix k t i flags h at low high hi hf odd c q d taken,
          level_with m level prefix k t i flags h at low high hi hf odd c q d taken,
          prefix_with m level prefix k t i flags h at low high hi hf odd c q d taken,
          absent_entry m level prefix k t i flags n h at low high hi hf odd c q d e,
          record {
            tables = Tables-linked m level prefix k t i flags h at low high hi hf odd c q d taken;
            linked = ground (
              arith,
              descend-linked m level prefix k t i flags h at low high hi hf odd c q d taken t i hi,
            );
            below = ground arith;
            covers = ground arith;
            kept = λ u p. ground (arith, h.used u, taken.free);
            links = λ u j x p hj e. ground (
              arith,
              d,
              descend-linked m level prefix k t i flags h at low high hi hf odd c q d taken u j hj,
            );
            same_views =
                lookup-linked m level prefix k t i flags h at low high hi hf odd c q d taken;
            room = more;
          },
        )
  ]

-- The three calls return the table of level 1 that the walk of the processor ends in.
pub record Walked (m : Machine) (level prefix : ℕ → ℕ) (top v n : ℕ) (l : ℕ) (m' : Machine)
    (level' prefix' : ℕ → ℕ) : Type 0 where
  pub tables : Tables m' level' prefix'
  pub leaf : level' l ≡ 1
  pub path : reach m'.ram 4 top v ≡ some l
  pub top_level : level' top ≡ 4
  pub room : Room m'.pmm 0 n
  pub kept : (u : ℕ) → 1 ≤ level u → (level' u ≡ level u) × (prefix' u ≡ prefix u)
  pub same_views : (u w : ℕ) → level u ≡ 4 → lookup m'.ram u w ≡ lookup m.ram u w

-- Three calls in a row, each from the table that the one before returned.
module _ (m : Machine) (level prefix : ℕ → ℕ) (top v n : ℕ) (at : level top ≡ 4) (t3 : ℕ)
    (m3 : Machine) (level3 prefix3 : ℕ → ℕ)
    (d3 : Down m level prefix 3 top (pml_entry 4 v) (suc (suc n)) t3 m3 level3 prefix3) (t2 : ℕ)
    (m2 : Machine) (level2 prefix2 : ℕ → ℕ)
    (d2 : Down m3 level3 prefix3 2 t3 (pml_entry 3 v) (suc n) t2 m2 level2 prefix2) (t1 : ℕ)
    (m1 : Machine) (level1 prefix1 : ℕ → ℕ)
    (d1 : Down m2 level2 prefix2 1 t2 (pml_entry 2 v) n t1 m1 level1 prefix1) where
  still : (u : ℕ) → 1 ≤ level u → (level1 u ≡ level u) × (prefix1 u ≡ prefix u)
  still u p = ground (arith, d3.kept u p, d2.kept u, d1.kept u)

  top_link : descend m1.ram top (pml_entry 4 v) ≡ some t3
  top_link =
      d1.links top (pml_entry 4 v) t3 (ground (arith, d3.kept top, d2.kept top)) (pml_entry-lt 4 v)
        (d2.links top (pml_entry 4 v) t3 (ground (arith, d3.kept top)) (pml_entry-lt 4 v) d3.linked)

  next_link : descend m1.ram t3 (pml_entry 3 v) ≡ some t2
  next_link =
      d1.links t3 (pml_entry 3 v) t2 (ground (arith, d3.below, d2.kept t3)) (pml_entry-lt 3 v)
        d2.linked

  whole_path : reach m1.ram 4 top v ≡ some t1
  whole_path =
      reach-some m1.ram 2 top v t3 top_link
      ∙ reach-some m1.ram 1 t3 v t2 next_link
      ∙ reach-some m1.ram 0 t2 v t1 d1.linked
      ∙ unfold reach in refl

  Walked-chain : Walked m level prefix top v n t1 m1 level1 prefix1
  Walked-chain = record {
    tables = d1.tables;
    leaf = d1.below;
    path = whole_path;
    top_level = ground (arith, still top);
    room = d1.room;
    kept = still;
    same_views = λ u w e.
        d1.same_views u w (ground (arith, d3.kept u, d2.kept u))
        ∙ d2.same_views u w (ground (arith, d3.kept u))
        ∙ d3.same_views u w e;
  }

module _ (m : Machine) (level prefix : ℕ → ℕ) (top v flags n : ℕ) (h : Tables m level prefix)
    (at : level top ≡ 4) (hf : flags < 4096) (odd : flags % 2 ≡ 1)
    (room : Room m.pmm 0 (suc (suc (suc n)))) where
  pub last_level_lem :
      (l : ℕ) × (m' : Machine) × (level' prefix' : ℕ → ℕ) × (last_level m (top * page_size) v flags
        ≡ some (l * page_size, m'))
      × Walked m level prefix top v n l m' level' prefix'
  unfolding last_level
  last_level_lem =
      let (t3, m3, l3, p3, e3, d3) =
        get_next_level_lem m level prefix 3 top (pml_entry 4 v) flags (suc (suc n)) h at
          (omega arith) (omega arith) (pml_entry-lt 4 v) hf odd room in
      let (t2, m2, l2, p2, e2, d2) =
        get_next_level_lem m3 l3 p3 2 t3 (pml_entry 3 v) flags (suc n) d3.tables d3.below
          (omega arith) (omega arith) (pml_entry-lt 3 v) hf odd d3.room in
      let (t1, m1, l1, p1, e1, d1) =
        get_next_level_lem m2 l2 p2 1 t2 (pml_entry 2 v) flags n d2.tables d2.below (omega arith)
          (omega arith) (pml_entry-lt 2 v) hf odd d2.room in
      (
        t1,
        m1,
        l1,
        p1,
        rw (e3, e2, e1) refl,
        Walked-chain m level prefix top v n at t3 m3 l3 p3 d3 t2 m2 l2 p2 d2 t1 m1 l1 p1 d1,
      )
