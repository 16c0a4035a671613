-- ===== src/Footprint/Entries.antt =====
-- The owners of the open libdtrace handles when an entry of the table of generic/dtrace.c goes, and
-- when one comes.
use tcldtrace.Prelude.{
  ℕ, ◌+◌, ◌≡◌, inl, inr, Bool, true, false, some, arith, lookup, insert, erase, Dict, lookup-insert,
  lookup-erase, ◌==◌, if◌then◌else◌, Bool-cases, subst, ◌∙◌,
}
use tcldtrace.State.{HandleData}
use tcldtrace.Footprint.Owners.{Owns, Owned}

module _ {D : Type 0} (live : ℕ → D → Bool) where
  -- A structure taken, and its handle closed.
  pub removed-Owned :
      (handles : Dict ℕ) (a h : ℕ) (heap : Dict HandleData) (d d' : D) (next : ℕ)
      → ((k : ℕ) → live k d' ≡ (if h == k then false else live k d))
      → Owns heap a h
      → Owned live handles heap d next
      → Owned live (erase a handles) (erase a heap) d' next
  removed-Owned handles a h heap d d' next shut own o = record {
    backed = λ b hd l. elim (Bool-cases (a == b)) [
      | inl same ↦ absurd (ground (arith, lookup-erase a b heap))
      | inr other ↦
          let l' : lookup b heap ≡ some hd = ground (arith, lookup-erase a b heap) in
          let (k, e, up) = o.backed b hd l' in
          (
            k,
            e,
            elim (Bool-cases (h == k)) [
              | inl mine ↦
                  let at : h ≡ k = ground arith in
                  let is : a ≡ b = o.sole a b k (subst (λ n. Owns heap a n) at own) (hd, l', e) in
                  absurd (ground arith)
              | inr apart ↦ shut k ∙ rw apart up
            ],
          )
    ];
    found = λ k up. elim (Bool-cases (h == k)) [
      | inl mine ↦ absurd (ground (arith, shut k))
      | inr apart ↦
          let still : live k d ≡ true = ground (arith, shut k) in
          let (b, (hd, l, e)) = o.found k still in
          elim (Bool-cases (a == b)) [
            | inl same ↦
                let at : b ≡ a = ground arith in
                let (old, l', e') = own in
                let l'' : lookup a heap ≡ some hd = subst (λ n. lookup n heap ≡ some hd) at l in
                let one : h ≡ k = cc in absurd (ground arith)
            | inr other ↦ (b, (hd, ground (arith, lookup-erase a b heap), e))
          ]
    ];
    sole = λ b c k (hd, l, e) (hd', l', e').
        o.sole b c k (hd, kept b hd l, e) (hd', kept c hd' l', e');
    named = λ k b l. o.named k b (ground (arith, lookup-erase a k handles));
    given = λ b hd l. o.given b hd (kept b hd l);
  }
    where
      kept : (b : ℕ) (hd : HandleData) → lookup b (erase a heap) ≡ some hd → lookup b heap ≡ some hd
      kept b hd l = ground (arith, lookup-erase a b heap)

  -- A structure added under a number not given out, with a handle that was opened for it.
  pub added-Owned :
      (handles : Dict ℕ) (h : ℕ) (hd : HandleData) (heap : Dict HandleData) (d d' : D) (next : ℕ)
      → live h d ≡ false
      → ((k : ℕ) → live k d' ≡ (if h == k then true else live k d))
      → hd.handle ≡ some h
      → Owned live handles heap d next
      → Owned live (insert next next handles) (insert next hd heap) d' (next + 1)
  added-Owned handles h hd heap d d' next new up e o = record {
    backed = λ b hd' l. elim (Bool-cases (next == b)) [
      | inl same ↦
          let is : hd ≡ hd' = ground (arith, lookup-insert next b hd heap) in
          (h, cc, ground (arith, up h))
      | inr other ↦
          let (k, e', there) = o.backed b hd' (old b hd' other l) in (k, e', ground (arith, up k))
    ];
    found = λ k there. elim (Bool-cases (h == k)) [
      | inl mine ↦
          let at : h ≡ k = ground arith in
          (next, (hd, ground (arith, lookup-insert next next hd heap), cc))
      | inr apart ↦
          let still : live k d ≡ true = ground (arith, up k) in
          let (b, (hd', l, e')) = o.found k still in
          let below = o.given b hd' l in
          (b, (hd', ground (arith, lookup-insert next b hd heap), e'))
    ];
    sole = λ b c k (x, l, e₁) (y, l', e₂). elim (Bool-cases (next == b)) [
      | inl first ↦ elim (Bool-cases (next == c)) [
        | inl second ↦ ground arith
        | inr other ↦ absurd (clash b c k x y first (old c y other l') l e₁ e₂)
      ]
      | inr other ↦ elim (Bool-cases (next == c)) [
        | inl second ↦ absurd (clash c b k y x second (old b x other l) l' e₂ e₁)
        | inr neither ↦ o.sole b c k (x, old b x other l, e₁) (y, old c y neither l', e₂)
      ]
    ];
    named = λ k b l. elim (Bool-cases (next == k)) [
      | inl same ↦ ground (arith, lookup-insert next k next handles)
      | inr other ↦ o.named k b (ground (arith, lookup-insert next k next handles))
    ];
    given = λ b hd' l. elim (Bool-cases (next == b)) [
      | inl same ↦ ground arith
      | inr other ↦ let below = o.given b hd' (old b hd' other l) in omega arith
    ];
  }
    where
      old :
          (b : ℕ) (x : HandleData)
          → (next == b) ≡ false
          → lookup b (insert next hd heap) ≡ some x
          → lookup b heap ≡ some x
      old b x other l = ground (arith, lookup-insert next b hd heap)

      -- The new handle was not open, so no other structure has it.
      clash :
          (b c k : ℕ) (x y : HandleData)
          → (next == b) ≡ true
          → lookup c heap ≡ some y
          → lookup b (insert next hd heap) ≡ some x
          → x.handle ≡ some k
          → y.handle ≡ some k
          → ⊥
      clash b c k x y first l' l e₁ e₂ =
          let is : hd ≡ x = ground (arith, lookup-insert next b hd heap) in
          let one : h ≡ k = cc in
          let (k', e₃, there) = o.backed c y l' in
          let same : k' ≡ h = cc in
          let open_then : live h d ≡ true = subst (λ n. live n d ≡ true) same there in cc
