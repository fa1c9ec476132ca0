-- ===== src/Nvidia/Capabilities/Best.antt =====
-- The best candidate for each key, and how it stays the best when a candidate comes.
use mathlib.Core.List.{Memᴰ}
use spark_signals.Prelude.{
  ◌<◌, ◌≡◌, refl, sym, ap, subst, ◌∙◌, true, false, Option, none, some, List, ◌∷◌, leb, is_some_and,
  arith, Bool-cases, inl, inr,
}
use spark_signals.Order.{Ord, ◌==◌, eq_iff, text_ord, pair_ord, list_ord}
use spark_signals.BTreeMap.{BTreeMap, get, insert, get-insert}
use spark_signals.Nvidia.Capabilities.Profiles.{Choice}

-- What is kept is one of the candidates, at least as specific as every candidate with its key, and
-- the only one with its key and specificity.
pub record IsBest {K : Type 0} ⦃o : Ord K⦄ (candidates : List (K × Choice))
    (selected : BTreeMap K Choice) : Type 0 where
  pub listed : (k : K) (c : Choice) → get k selected ≡ some c → Memᴰ (k, c) candidates
  pub most_specific :
      (k : K) (d : Choice)
      → Memᴰ (k, d) candidates
      → is_some_and (get k selected) (λ c. leb d.specificity c.specificity) ≡ true
  pub only :
      (k : K) (c d : Choice)
      → get k selected ≡ some c
      → Memᴰ (k, d) candidates
      → d.specificity ≡ c.specificity
      → d ≡ c

module _ {K : Type 0} ⦃o : Ord K⦄ (candidates : List (K × Choice)) (selected : BTreeMap K Choice)
    (k : K) (choice : Choice) (best : IsBest candidates selected) where
  -- Nothing was kept, or something less specific.
  abbrev pub Beats : Option Choice → Type 0
  Beats none = Unit
  Beats (some existing) = existing.specificity < choice.specificity

  below :
      (kept : Option Choice) (d : Choice)
      → get k selected ≡ kept
      → Beats kept
      → Memᴰ (k, d) candidates
      → d.specificity < choice.specificity
  below none d h b m = let x = best.most_specific k d m in ground (arith, h, x)
  below (some existing) d h b m =
      let x = best.most_specific k d m in
      let y : leb d.specificity existing.specificity ≡ true = ground (arith, h, x) in
      ground (arith, y, b)

  abbrev pub wider : List (K × Choice)
  wider = (k, choice) ∷ candidates

  found_new : (j : K) → (k == j) ≡ true → get j (insert k choice selected) ≡ some choice
  found_new j same = rw get-insert (rw same refl)

  found_old : (j : K) → (k == j) ≡ false → get j (insert k choice selected) ≡ get j selected
  found_old j other = rw get-insert (rw other refl)

  listed_insert :
      (j : K) (c : Choice) → get j (insert k choice selected) ≡ some c → Memᴰ (j, c) wider
  listed_insert j c h = elim (Bool-cases (k == j)) [
    | inl same ↦
        let p : k ≡ j = (eq_iff k j).0 same in
        let e : some choice ≡ some c = sym (found_new j same) ∙ h in
        let q : choice ≡ c = cc in Memᴰ.head (λ i. (sym p i, sym q i))
    | inr other ↦ Memᴰ.tail (best.listed j c (sym (found_old j other) ∙ h))
  ]

  specific_insert :
      (j : K) (d : Choice)
      → Beats (get k selected)
      → Memᴰ (j, d) wider
      → is_some_and (get j (insert k choice selected)) (λ c. leb d.specificity c.specificity) ≡ true
  specific_insert j d b (Memᴰ.head e) =
      let p : k ≡ j = ap (λ x. x.0) (sym e) in
      let q : choice ≡ d = ap (λ x. x.1) (sym e) in
      rw (found_new j ((eq_iff k j).1 p)) (rw q (ground arith))
  specific_insert j d b (Memᴰ.tail m) = elim (Bool-cases (k == j)) [
    | inl same ↦
        let p : k ≡ j = (eq_iff k j).0 same in
        let l = below (get k selected) d refl b (subst (λ x. Memᴰ (x, d) candidates) (sym p) m) in
        rw (found_new j same) (ground (arith, l))
    | inr other ↦ rw (found_old j other) (best.most_specific j d m)
  ]

  only_insert :
      (j : K) (c d : Choice)
      → Beats (get k selected)
      → get j (insert k choice selected) ≡ some c
      → Memᴰ (j, d) wider
      → d.specificity ≡ c.specificity
      → d ≡ c
  only_insert j c d b h (Memᴰ.head e) s =
      let p : k ≡ j = ap (λ x. x.0) (sym e) in
      let q : d ≡ choice = ap (λ x. x.1) e in
      let f : some choice ≡ some c = sym (found_new j ((eq_iff k j).1 p)) ∙ h in cc (q, f)
  only_insert j c d b h (Memᴰ.tail m) s = elim (Bool-cases (k == j)) [
    | inl same ↦
        let p : k ≡ j = (eq_iff k j).0 same in
        let f : some choice ≡ some c = sym (found_new j same) ∙ h in
        let q : choice ≡ c = cc in
        let l = below (get k selected) d refl b (subst (λ x. Memᴰ (x, d) candidates) (sym p) m) in
        absurd (omega (arith, l, s, ap (λ x. x.specificity) q))
    | inr other ↦ best.only j c d (sym (found_old j other) ∙ h) m s
  ]

  pub IsBest-insert : Beats (get k selected) → IsBest wider (insert k choice selected)
  IsBest-insert b = record {
    listed = listed_insert;
    most_specific = λ j d. specific_insert j d b;
    only = λ j c d. only_insert j c d b;
  }

  specific_kept :
      (existing : Choice) (j : K) (d : Choice)
      → get k selected ≡ some existing
      → choice.specificity < existing.specificity
      → Memᴰ (j, d) wider
      → is_some_and (get j selected) (λ c. leb d.specificity c.specificity) ≡ true
  specific_kept existing j d h b (Memᴰ.head e) =
      let p : j ≡ k = ap (λ x. x.0) e in
      let q : d ≡ choice = ap (λ x. x.1) e in rw (p, q, h) (ground (arith, b))
  specific_kept existing j d h b (Memᴰ.tail m) = best.most_specific j d m

  only_kept :
      (existing : Choice) (j : K) (c d : Choice)
      → get k selected ≡ some existing
      → choice.specificity < existing.specificity
      → get j selected ≡ some c
      → Memᴰ (j, d) wider
      → d.specificity ≡ c.specificity
      → d ≡ c
  only_kept existing j c d h b f (Memᴰ.head e) s =
      let p : j ≡ k = ap (λ x. x.0) e in
      let q : d ≡ choice = ap (λ x. x.1) e in
      let g : get k selected ≡ some c = ap (λ x. get x selected) (sym p) ∙ f in
      let t : some existing ≡ some c = sym h ∙ g in
      let r : existing ≡ c = cc in
      absurd (omega (arith, b, s, ap (λ x. x.specificity) r, ap (λ x. x.specificity) q))
  only_kept existing j c d h b f (Memᴰ.tail m) s = best.only j c d f m s

  pub IsBest-kept :
      (existing : Choice)
      → get k selected ≡ some existing
      → choice.specificity < existing.specificity
      → IsBest wider selected
  IsBest-kept existing h b = record {
    listed = λ j c e. Memᴰ.tail (best.listed j c e);
    most_specific = λ j d. specific_kept existing j d h b;
    only = λ j c d. only_kept existing j c d h b;
  }
