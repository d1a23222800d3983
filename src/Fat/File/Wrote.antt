-- ===== src/Fat/File/Wrote.antt =====
-- The clusters of a file that `FatWriteFileImplementation` of fat32.c wrote behind one cluster.
use open_lib.Common.{
  ℕ, zero, suc, ◌+◌, ◌-◌, ◌*◌, ◌≤◌, ◌<◌, ◌≡◌, ◌≢◌, ap, ◌∙◌, arith, List, [], ◌∷◌, length, get_or,
  ltb, if◌then◌else◌, ◌⊎◌, inl, inr,
}
use open_lib.Fat.Sector.{Bytes, blit}
use open_lib.Fat.Volume.{Volume}
use open_lib.Fat.Cluster.{eoc, get_cluster}
use open_lib.Fat.Cluster.Laws.{OnDrive}
use open_lib.Fat.Table.{ints_per_fat}
use open_lib.Fat.File.Content.{IsFile}
use open_lib.Fat.File.Step.{Step, stepped}
use open_lib.Fat.File.Ready.{Ready, Step-used, Step-OnDrive, same_ints}

-- The clusters of `l` are a chain, or there are none.
abbrev pub IsChainOf : Volume → List ℕ → Type 0
IsChainOf w [] = Unit {0}
IsChainOf w (c ∷ l) = IsFile w c l

-- The clusters `l` were written for the bytes of `file` from `written` on, behind `prev`.
pub record Wrote (v w : Volume) (file : Bytes) (flen written prev : ℕ) (l : List ℕ) : Type 0 where
  pub linked_to : prev ≢ 0 → w.fat prev ≡ get_or l 0 (v.fat prev)
  pub inside : (k : ℕ) → k < length l → get_or l k 0 < ints_per_fat v
  pub fresh : (k : ℕ) → k < length l → v.fat (get_or l k 0) ≡ 0
  pub chain : IsChainOf w l
  pub content :
      (m : Bytes) (k r : ℕ)
      → k < length l
      → r < 512
      → written + (k * 512 + r) < flen
      → get_cluster w m (get_or l k 0) r ≡ file (written + (k * 512 + r))
  pub kept_table : (j : ℕ) → v.fat j ≢ 0 → j ≢ prev → w.fat j ≡ v.fat j
  pub kept :
      (m : Bytes) (d r : ℕ)
      → OnDrive v d
      → v.fat d ≢ 0
      → r < 512
      → get_cluster w m d r ≡ get_cluster v m d r
  pub same_size : w.cluster_size ≡ v.cluster_size

abbrev pub chunk : ℕ → ℕ → ℕ
chunk flen written = if ltb 512 (flen - written) then 512 else flen - written

abbrev pub filled : Bytes → ℕ → ℕ → Bytes
filled file flen written = blit (λ j. 0) 0 file written (chunk flen written)

module _ (v : Volume) (file : Bytes) (flen written prev i : ℕ) where
  abbrev pub after : Volume
  after = stepped v prev i (filled file flen written)

  link-chain :
      (w : Volume) (l : List ℕ)
      → i ≢ 0
      → (prev ≡ 0) ⊎ (prev ≢ i)
      → ints_per_fat after ≤ eoc
      → Step v after prev i (filled file flen written)
      → Wrote after w file flen (written + chunk flen written) i l
      → IsFile w i l
  link-chain w [] nz other numbers step t = λ h.
      let mark : w.fat i ≡ 0x0fffffff = t.linked_to nz ∙ step.table i ∙ ground arith in
      ground (arith, mark)
  link-chain w (d ∷ l) nz other numbers step t =
      let next : w.fat i ≡ d = t.linked_to nz in
      let small : d < ints_per_fat after = t.inside 0 (omega arith) in
      (rw next (omega arith), omega arith, t.chain)

  first-content :
      (w : Volume) (l : List ℕ) (m : Bytes) (r : ℕ)
      → OnDrive after i
      → after.fat i ≢ 0
      → Step v after prev i (filled file flen written)
      → Wrote after w file flen (written + chunk flen written) i l
      → r < 512
      → written + r < flen
      → get_cluster w m i r ≡ file (written + r)
  first-content w l m r on used step t h more =
      let inside : filled file flen written r ≡ file (written + r) = ground arith in
      t.kept m i r on used h ∙ step.content m r h ∙ inside

  later-content :
      (w : Volume) (l : List ℕ) (m : Bytes) (k r : ℕ)
      → Wrote after w file flen (written + chunk flen written) i l
      → k < length l
      → r < 512
      → written + (suc k * 512 + r) < flen
      → get_cluster w m (get_or l k 0) r ≡ file (written + (suc k * 512 + r))
  later-content w l m k r t hk h more =
      let whole : chunk flen written ≡ 512 = ground arith in
      let place : written + chunk flen written + (k * 512 + r) ≡ written + (suc k * 512 + r) =
        omega arith in
      t.content m k r hk h (omega arith) ∙ ap file place

  cons-content :
      (w : Volume) (l : List ℕ) (m : Bytes) (k r : ℕ)
      → OnDrive after i
      → after.fat i ≢ 0
      → Step v after prev i (filled file flen written)
      → Wrote after w file flen (written + chunk flen written) i l
      → k < length (i ∷ l)
      → r < 512
      → written + (k * 512 + r) < flen
      → get_cluster w m (get_or (i ∷ l) k 0) r ≡ file (written + (k * 512 + r))
  cons-content w l m zero r on used step t hk h more =
      let place : written + r ≡ written + (0 * 512 + r) = omega arith in
      first-content w l m r on used step t h (omega arith) ∙ ap file place
  cons-content w l m (suc k) r on used step t hk h more =
      later-content w l m k r t (omega arith) h more

  cons-inside :
      (w : Volume) (l : List ℕ) (k : ℕ)
      → i < ints_per_fat v
      → Step v after prev i (filled file flen written)
      → Wrote after w file flen (written + chunk flen written) i l
      → k < length (i ∷ l)
      → get_or (i ∷ l) k 0 < ints_per_fat v
  cons-inside w l zero below step t hk = below
  cons-inside w l (suc k) below step t hk =
      let same : ints_per_fat after ≡ ints_per_fat v = same_ints v after step.same_bpb in
      omega (arith, same, t.inside k (omega arith))

  cons-fresh :
      (w : Volume) (l : List ℕ) (k : ℕ)
      → v.fat i ≡ 0
      → Step v after prev i (filled file flen written)
      → 2 ≤ i
      → Wrote after w file flen (written + chunk flen written) i l
      → k < length (i ∷ l)
      → v.fat (get_or (i ∷ l) k 0) ≡ 0
  cons-fresh w l zero z step two t hk = z
  cons-fresh w l (suc k) z step two t hk =
      ground (arith, step.table (get_or l k 0), t.fresh k (omega arith))

  pub Wrote-cons :
      (w : Volume) (l : List ℕ) (n : ℕ)
      → Ready v (suc n)
      → Step v after prev i (filled file flen written)
      → (prev ≡ 0) ⊎ (v.fat prev ≢ 0)
      → 2 ≤ i
      → i < ints_per_fat v
      → v.fat i ≡ 0
      → Wrote after w file flen (written + chunk flen written) i l
      → Wrote v w file flen written prev (i ∷ l)
  Wrote-cons w l n ready step link two below z t =
      let on : OnDrive after i =
        Step-OnDrive v after prev i i _ step (ready.on_drive i two below) in
      let apart : (prev ≡ 0) ⊎ (prev ≢ i) = elim link [
        | inl e ↦ inl e
        | inr used ↦ inr (λ e. used (ap v.fat e ∙ z))
      ] in
      let mark : after.fat i ≢ 0 = λ e. ground (arith, step.table i) in
      let numbers : ints_per_fat after ≤ eoc =
        omega (arith, same_ints v after step.same_bpb, ready.numbers) in
      record {
        linked_to = λ nz.
            let used : v.fat prev ≢ 0 = elim link [ inl e ↦ absurd (nz e) | inr u ↦ u ] in
            let kept : w.fat prev ≡ after.fat prev =
              t.kept_table prev (Step-used v after prev i prev _ step two used)
                (λ e. used (ap v.fat e ∙ z)) in
            kept ∙ step.table prev ∙ ground arith;
        inside = λ k hk. cons-inside w l k below step t hk;
        fresh = λ k hk. cons-fresh w l k z step two t hk;
        chain = link-chain w l (omega arith) apart numbers step t;
        content = λ m k r hk h more. cons-content w l m k r on mark step t hk h more;
        kept_table = λ j used ne.
            t.kept_table j (Step-used v after prev i j _ step two used) (λ e. used (ap v.fat e ∙ z))
            ∙ step.table j
            ∙ ground arith;
        kept = λ m d r od used h.
            t.kept m d r (Step-OnDrive v after prev i d _ step od)
              (Step-used v after prev i d _ step two used) h
            ∙ step.others m d r od (λ e. used (ap v.fat e ∙ z)) h;
        same_size = t.same_size ∙ step.same_size;
      }
