-- ===== src/Footprint/Owners.antt =====
-- The libdtrace handles that are open, and the structures of generic/dtrace.h that own them.
use tcldtrace.Prelude.{
  ℕ, ◌≤◌, ◌<◌, ◌≡◌, inl, inr, Bool, true, false, some, ℤ, arith, lookup, insert, Dict,
  lookup-insert, ◌==◌, if◌then◌else◌, Bool-cases, subst, sym, ◌∙◌,
}
use tcldtrace.State.{HandleData, World}
use tcldtrace.Api.{Env, opened, failed}
use tcldtrace.Footprint.{
  LibCall, Acts, at_rest, calls, writes, registers, counts, says, IsHeld, Acts-IsHeld,
}

-- What libdtrace documents of the handles that are open in a state: opening makes a new one, closing
-- ends that one, and no other call opens or closes any.
pub record OpenLaws {D : Type 0} (env : Env D) (live : ℕ → D → Bool) : Type 0 where
  pub opening :
      (flags : ℕ) (d : D) (h : ℕ)
      → (env.dtrace_open flags d).0 ≡ opened h
      → (live h d ≡ false)
        × ((k : ℕ) → live k (env.dtrace_open flags d).1 ≡ (if h == k then true else live k d))
  pub failing :
      (flags : ℕ) (d : D) (error : ℤ)
      → (env.dtrace_open flags d).0 ≡ failed error
      → (k : ℕ) → live k (env.dtrace_open flags d).1 ≡ live k d
  pub closing :
      (h k : ℕ) (d : D) → live k (env.dtrace_close h d) ≡ (if h == k then false else live k d)
  pub steady : (h k : ℕ) (d d' : D) → LibCall env h d d' → live k d' ≡ live k d

-- A structure of a heap with its handle.
abbrev pub Owns : Dict HandleData → ℕ → ℕ → Type 0
Owns heap a h = (hd : HandleData) × (lookup a heap ≡ some hd) × (hd.handle ≡ some h)

module _ {D : Type 0} (live : ℕ → D → Bool) where
  -- Every structure has an open handle, every open handle belongs to a structure, and to one only; the
  -- structures have numbers that were given out, and the table has each under its number.
  pub record Owned (handles : Dict ℕ) (heap : Dict HandleData) (d : D) (next : ℕ) : Type 0 where
    pub backed :
        (a : ℕ) (hd : HandleData)
        → lookup a heap ≡ some hd
        → (h : ℕ) × (hd.handle ≡ some h) × (live h d ≡ true)
    pub found : (h : ℕ) → live h d ≡ true → (a : ℕ) × Owns heap a h
    pub sole : (a b h : ℕ) → Owns heap a h → Owns heap b h → a ≡ b
    pub named : (k a : ℕ) → lookup k handles ≡ some a → k ≡ a
    pub given : (a : ℕ) (hd : HandleData) → lookup a heap ≡ some hd → a < next

  abbrev pub OwnedIn : World D → Type 0
  OwnedIn w = Owned w.handles w.heap w.lib w.next_free_id

  -- What the structure at an address owns, after one is written.
  Owns-insert :
      (a h b k : ℕ) (hd : HandleData) (heap : Dict HandleData)
      → hd.handle ≡ some h
      → Owns heap a h
      → Owns (insert a hd heap) b k
      → Owns heap b k
  Owns-insert a h b k hd heap e own (hd', l, e') = elim (Bool-cases (a == b)) [
    | inl same ↦
        let at : a ≡ b = ground arith in
        let is : hd ≡ hd' = ground (arith, lookup-insert a b hd heap) in
        let handle : h ≡ k = cc in
        subst (λ n. Owns heap n k) at (subst (λ n. Owns heap a n) handle own)
    | inr other ↦ (hd', ground (arith, lookup-insert a b hd heap), e')
  ]

  insert-Owns :
      (a h b k : ℕ) (hd : HandleData) (heap : Dict HandleData)
      → hd.handle ≡ some h
      → Owns heap a h
      → Owns heap b k
      → Owns (insert a hd heap) b k
  insert-Owns a h b k hd heap e (old, l, e') (hd', l', e'') = elim (Bool-cases (a == b)) [
    | inl same ↦
        let at : a ≡ b = ground arith in
        let is : old ≡ hd' = cc in (hd, ground (arith, lookup-insert a b hd heap), cc)
    | inr other ↦ (hd', ground (arith, lookup-insert a b hd heap), e'')
  ]

  -- A structure written with the handle that it has.
  pub write-Owned :
      (handles : Dict ℕ) (a h : ℕ) (hd : HandleData) (heap : Dict HandleData) (d : D) (next : ℕ)
      → hd.handle ≡ some h
      → Owns heap a h
      → Owned handles heap d next
      → Owned handles (insert a hd heap) d next
  write-Owned handles a h hd heap d next e own o = record {
    backed = λ b hd' l. elim (Bool-cases (a == b)) [
      | inl same ↦
          let (old, l', e') = own in
          let (h', e'', up) = o.backed a old l' in
          let is : hd ≡ hd' = ground (arith, lookup-insert a b hd heap) in
          let one : h' ≡ h = cc in (h, cc, subst (λ n. live n d ≡ true) one up)
      | inr other ↦ o.backed b hd' (ground (arith, lookup-insert a b hd heap))
    ];
    found = λ k up. let (b, there) = o.found k up in (b, insert-Owns a h b k hd heap e own there);
    sole = λ b c k x y.
        o.sole b c k (Owns-insert a h b k hd heap e own x) (Owns-insert a h c k hd heap e own y);
    named = o.named;
    given = λ b hd' l. elim (Bool-cases (a == b)) [
      | inl same ↦ let (old, l', e') = own in ground (arith, o.given a old l')
      | inr other ↦ o.given b hd' (ground (arith, lookup-insert a b hd heap))
    ];
  }

  -- The handles that are open stay the same.
  pub steady-Owned :
      (handles : Dict ℕ) (heap : Dict HandleData) (d d' : D) (next : ℕ)
      → ((k : ℕ) → live k d' ≡ live k d)
      → Owned handles heap d next
      → Owned handles heap d' next
  steady-Owned handles heap d d' next same o = record {
    backed = λ a hd l. let (h, e, up) = o.backed a hd l in (h, e, same h ∙ up);
    found = λ h up. o.found h (sym (same h) ∙ up);
    sole = o.sole;
    named = o.named;
    given = o.given;
  }

  -- Only what the lookups find matters.
  pub same-Owned :
      (handles handles' : Dict ℕ) (heap heap' : Dict HandleData) (d : D) (next next' : ℕ)
      → ((k a : ℕ) → lookup k handles' ≡ some a → lookup k handles ≡ some a)
      → ((a : ℕ) → lookup a heap' ≡ lookup a heap)
      → next ≤ next'
      → Owned handles heap d next
      → Owned handles' heap' d next'
  same-Owned handles handles' heap heap' d next next' sub same le o = record {
    backed = λ a hd l. o.backed a hd (sym (same a) ∙ l);
    found = λ h up. let (a, (hd, l, e)) = o.found h up in (a, (hd, same a ∙ l, e));
    sole = λ a b h (hd, l, e) (hd', l', e').
        o.sole a b h (hd, sym (same a) ∙ l, e) (hd', sym (same b) ∙ l', e');
    named = λ k a l. o.named k a (sub k a l);
    given = λ a hd l. let below = o.given a hd (sym (same a) ∙ l) in omega arith;
  }

  -- What a command may do to a structure keeps the ownership.
  pub Acts-Owned :
      (env : Env D) (laws : OpenLaws env live) (a h : ℕ) (w v : World D)
      → IsHeld a h w
      → Acts env a h w v
      → OwnedIn w
      → OwnedIn v
  Acts-Owned env laws a h w v held at_rest o = o
  Acts-Owned env laws a h w v' held (calls {v = v} {d = d} t c) o =
      steady-Owned v.handles v.heap v.lib d v.next_free_id (λ k. laws.steady h k v.lib d c)
        (Acts-Owned env laws a h w v held t o)
  Acts-Owned env laws a h w v' held (writes {v = v} hd t e) o =
      write-Owned v.handles a h hd v.heap v.lib v.next_free_id e (Acts-IsHeld held t)
        (Acts-Owned env laws a h w v held t o)
  Acts-Owned env laws a h w v' held (registers {v = v} compiled t) o =
      Acts-Owned env laws a h w v held t o
  Acts-Owned env laws a h w v' held (counts {v = v} refs t) o = Acts-Owned env laws a h w v held t o
  Acts-Owned env laws a h w v' held (says {v = v} result error_code t) o =
      Acts-Owned env laws a h w v held t o
