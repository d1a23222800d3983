-- ===== src/Vmm/Space.antt =====
-- The operations of ntoskrnl/mm/vmm.c against a plain map from pages to entries.
use open_lib.Common.{
  ℕ, zero, suc, ◌+◌, ◌*◌, ◌^◌, ◌≤◌, ◌<◌, ◌≡◌, ◌≢◌, refl, ap, sym, ◌∙◌, Option, none, some, arith,
  if◌then◌else◌, ◌==◌, inl, inr, ◌&&◌, Option-cases, Bool-cases, ==_iff, false,
}
use open_lib.Pmm.{page_size}
use open_lib.Vmm.{Machine, pml_entry, is_present}
use open_lib.Vmm.Memory.{write64}
use open_lib.Vmm.Tables.{
  Tables, slot, descend, reach, lookup, page, pml_entry-lt, reach-none, reach-some, lookup-none,
  lookup-some, reach-prefix, slot-write64, spine-page,
}

abbrev pub Space : Type 0
Space = ℕ → Option ℕ

-- The tables of `m` from the table in page `top` map each page as `s` does.
pub record Represents (m : Machine) (top : ℕ) (s : Space) : Type 0 where
  pub level : ℕ → ℕ
  pub prefix : ℕ → ℕ
  pub tables : Tables m level prefix
  pub top_level : level top ≡ 4
  pub views : (v : ℕ) → lookup m.ram top v ≡ s (page v)

abbrev pub present_only : ℕ → Option ℕ
present_only e = if is_present e then some e else none

indices_of_page : (v w : ℕ) → page v ≡ page w → (k : ℕ) → k ≤ 4 → pml_entry k v ≡ pml_entry k w
unfolding pml_entry
indices_of_page v w h zero le = refl
indices_of_page v w h (suc zero) le = omega arith
indices_of_page v w h (suc (suc zero)) le = omega arith
indices_of_page v w h (suc (suc (suc zero))) le = omega arith
indices_of_page v w h (suc (suc (suc (suc zero)))) le = omega arith
indices_of_page v w h (suc (suc (suc (suc (suc k))))) le = absurd (omega arith)

reach-page :
    (ram : ℕ → ℕ) (k t v w : ℕ) → page v ≡ page w → k ≤ 4 → reach ram k t v ≡ reach ram k t w
reach-page ram zero t v w h le = unfold reach in refl
reach-page ram (suc zero) t v w h le = unfold reach in refl
reach-page ram (suc (suc k)) t v w h le =
    let same = indices_of_page v w h (suc (suc k)) le in
    elim (Option-cases (descend ram t (pml_entry (suc (suc k)) v))) [
      | inl e ↦ reach-none ram k t v e ∙ sym (reach-none ram k t w (rw (← same) e))
      | inr (c, e) ↦
          reach-some ram k t v c e
          ∙ reach-page ram (suc k) c v w h (omega arith)
          ∙ sym (reach-some ram k t w c (rw (← same) e))
    ]

-- A write to the entry of one page in its table.
module _ (m : Machine) (level prefix : ℕ → ℕ) (h : Tables m level prefix) (top v l e : ℕ)
    (leaf : level l ≡ 1) (path : reach m.ram 4 top v ≡ some l) (top_level : level top ≡ 4)
    (small : e < 2 ^ 64) where
  abbrev pub written : Machine
  written = record m { ram = write64 m.ram (l * page_size + pml_entry 1 v * 8) e }

  slot-written :
      (u j : ℕ)
      → j < 512
      → slot written.ram u j ≡ (if l == u && pml_entry 1 v == j then e else slot m.ram u j)
  slot-written u j hj = slot-write64 m.ram l (pml_entry 1 v) e u j (pml_entry-lt 1 v) hj small

  descend-written : (u j : ℕ) → l ≢ u → j < 512 → descend written.ram u j ≡ descend m.ram u j
  descend-written u j ne hj = unfold descend in ground (arith, slot-written u j hj)

  above : (u : ℕ) → 2 ≤ level u → l ≢ u
  above u two same = ground (arith, leaf, ap level same)

  reach-written : (k u w : ℕ) → level u ≡ k → reach written.ram k u w ≡ reach m.ram k u w
  reach-written zero u w at = unfold reach in refl
  reach-written (suc zero) u w at = unfold reach in refl
  reach-written (suc (suc k)) u w at =
      let j = pml_entry (suc (suc k)) w in
      let now = descend-written u j (above u (omega arith)) (pml_entry-lt (suc (suc k)) w) in
      elim (Option-cases (descend m.ram u j)) [
        | inl d ↦ reach-none written.ram k u w (now ∙ d) ∙ sym (reach-none m.ram k u w d)
        | inr (c, d) ↦
            let down = h.child u j c (omega arith) (pml_entry-lt (suc (suc k)) w) d in
            reach-some written.ram k u w c (now ∙ d)
            ∙ reach-written (suc k) c w (omega (arith, down.0))
            ∙ sym (reach-some m.ram k u w c d)
      ]

  pub Tables-written : Tables written level prefix
  Tables-written = record {
    bytes = h.bytes;
    memory = h.memory;
    root = h.root;
    child = λ u j c two hj d. h.child u j c two hj (sym (descend-written u j (above u two) hj) ∙ d);
    used = h.used;
    inside = h.inside;
    clean = λ u j free ins hj.
        descend-written u j (λ same. ground (arith, h.used l, ap (λ (x : ℕ). x) same)) hj
        ∙ h.clean u j free ins hj;
  }

  moved :
      (w l' : ℕ)
      → reach m.ram 4 top w ≡ some l'
      → lookup written.ram top w
        ≡ present_only
            (if l == l' && pml_entry 1 v == pml_entry 1 w then e else slot m.ram l' (pml_entry 1 w))
  moved w l' r =
      lookup-some written.ram top w l' (reach-written 4 top w top_level ∙ r)
      ∙ rw (slot-written l' (pml_entry 1 w) (pml_entry-lt 1 w)) refl

  seen : (w : ℕ) → page v ≡ page w → lookup written.ram top w ≡ present_only e
  seen w same =
      moved w l (sym (reach-page m.ram 4 top v w same (omega arith)) ∙ path)
      ∙ ground (arith, indices_of_page v w same 1)

  unseen : (w : ℕ) → page v ≢ page w → lookup written.ram top w ≡ lookup m.ram top w
  unseen w differs = elim (Option-cases (reach m.ram 4 top w)) [
    | inl r ↦
        lookup-none written.ram top w (reach-written 4 top w top_level ∙ r)
        ∙ sym (lookup-none m.ram top w r)
    | inr (l', r) ↦
        let here = reach-prefix m level prefix 4 top v l h top_level path in
        let there = reach-prefix m level prefix 4 top w l' h top_level r in
        let apart : (l == l' && pml_entry 1 v == pml_entry 1 w) ≡ false =
          ground (arith, here.1, there.1, h.root top top_level, spine-page v, spine-page w) in
        moved w l' r ∙ rw apart (sym (lookup-some m.ram top w l' r))
  ]

  -- The tables meet the page of `w` in this entry only if it is the page of `v`.
  pub lookup-written :
      (w : ℕ)
      → lookup written.ram top w ≡ (if page v == page w then present_only e else lookup m.ram top w)
  lookup-written w = elim (Bool-cases (page v == page w)) [
    | inl same ↦ rw same (seen w ((==_iff _ _).0 same))
    | inr differs ↦ rw differs (unseen w (λ e'. ground (arith, differs, e')))
  ]
