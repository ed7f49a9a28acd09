-- ===== src/Rpmsg/Endpoint/Table.antt =====
-- The invariant of the registered endpoints of a device and of the addresses they hold.
use openamp_core.Prelude.{
  ℕ, ◌+◌, ◌-◌, ◌<◌, ◌≤◌, ◌≡◌, ◌≢◌, ◌∙◌, refl, sym, subst, true, false, List, [], ◌∷◌, ◌++◌,
  equal_or_not, inl, inr, count, count-append, ltb, ◌==◌, if◌then◌else◌, update, update_self,
  update_ne, arith,
}
use openamp_core.Bitmap.{Bitmap, set_bit, is_bit_set}
use openamp_core.Bitmap.Laws.{is_bit_set-set_bit}
use openamp_core.Rpmsg.Endpoint.{Ptr, Endpoint, mem, remove}

pub mem-count : (p : Ptr) (xs : List Ptr) → mem p xs ≡ ltb 0 (count p xs)
mem-count p [] = refl
mem-count p (x ∷ xs) = ground (arith, mem-count p xs)

pub count-remove :
    (p q : Ptr) (xs : List Ptr) → count q (remove p xs) ≡ count q xs - (if p == q then 1 else 0)
count-remove p q [] = ground arith
count-remove p q (x ∷ xs) = ground (arith, count-remove p q xs)

-- Each endpoint is registered once, and bound to the device. Its address is reserved or one that
-- the bitmap covers and marks; no two endpoints have the same address of the second kind.
pub record Table {W : Type 0} (ept : Ptr → Endpoint W) (xs : List Ptr) (bitmap : Bitmap)
    : Type 0 where
  pub once : (p : Ptr) → count p xs ≤ 1
  pub valid : (p : Ptr) → 0 < count p xs → p ≢ 0
  pub bound : (p : Ptr) → 0 < count p xs → (ept p).rdev ≡ true
  pub low : (p : Ptr) → 0 < count p xs → (ept p).addr < 1024 + 128
  pub taken :
      (p : Ptr) (b : ℕ) → 0 < count p xs → (ept p).addr ≡ 1024 + b → is_bit_set bitmap b ≡ true
  pub distinct :
      (p q : Ptr)
      → 0 < count p xs
      → 0 < count q xs
      → 1024 ≤ (ept p).addr
      → (ept p).addr ≡ (ept q).addr
      → p ≡ q

module _ {W : Type 0} (ept : Ptr → Endpoint W) (xs : List Ptr) (bitmap : Bitmap)
    (t : Table ept xs bitmap) where
  module _ (p : Ptr) (e : Endpoint W) (fresh : count p xs ≡ 0) where
    old : (q : Ptr) → q ≢ p → 0 < count q (xs ++ (p ∷ [])) → 0 < count q xs
    old q n h = ground (arith, count-append q xs (p ∷ []))

    -- What holds of the new endpoint and of the old ones holds of all.
    each :
        (P : Ptr → Endpoint W → Type 0)
        → P p e
        → ((q : Ptr) → 0 < count q xs → P q (ept q))
        → (q : Ptr) → 0 < count q (xs ++ (p ∷ []))
        → P q (update ept p e q)
    each P new others q h = elim (equal_or_not q p) [
      | inl s ↦
          subst (λ (r : Ptr). P r (update ept p e r)) (sym s)
            (subst (P p) (sym (update_self ept p e)) new)
      | inr n ↦ subst (P q) (sym (update_ne ept p q e (λ s. n (sym s)))) (others q (old q n h))
    ]

    pub add-Table :
        p ≢ 0
        → e.rdev ≡ true
        → (b : ℕ) → e.addr ≡ 1024 + b
        → b < 128
        → is_bit_set bitmap b ≡ false
        → Table (update ept p e) (xs ++ (p ∷ [])) (set_bit bitmap b)
    add-Table nonnull bound b at l free = record {
      once = λ q. ground (arith, count-append q xs (p ∷ []), t.once q);
      valid = each (λ q x. q ≢ 0) nonnull t.valid;
      bound = each (λ q x. x.rdev ≡ true) bound t.bound;
      low = each (λ q x. x.addr < 1024 + 128) (omega arith) t.low;
      taken = λ q c h a.
          each (λ r x. x.addr ≡ 1024 + c → is_bit_set (set_bit bitmap b) c ≡ true)
            (λ a. is_bit_set-set_bit bitmap b c ∙ ground arith)
            (λ r k a. is_bit_set-set_bit bitmap b c ∙ ground (arith, t.taken r c k a)) q h a;
      distinct = λ q r h k.
          each (λ q x. 1024 ≤ x.addr → x.addr ≡ (update ept p e r).addr → q ≡ r)
            (each (λ r y. 1024 ≤ e.addr → e.addr ≡ y.addr → p ≡ r) (λ l a. refl)
              (λ r k l a. absurd (clash r k (sym at ∙ a))) r k)
            (λ q h.
              each (λ r y. 1024 ≤ (ept q).addr → (ept q).addr ≡ y.addr → q ≡ r)
                (λ l a. absurd (clash q h (sym (a ∙ at)))) (λ r k. t.distinct q r h k) r k)
            q h;
    }
      where
        clash : (q : Ptr) → 0 < count q xs → 1024 + b ≡ (ept q).addr → ⊥
        clash q h a = ground (arith, t.taken q b h (sym a))

  module _ (p : Ptr) (e : Endpoint W) (after : Bitmap) where
    kept : (q : Ptr) → 0 < count q (remove p xs) → (q ≢ p) × 0 < count q xs
    kept q h =
        (λ s. ground (arith, count-remove p q xs, t.once q), ground (arith, count-remove p q xs))

    stays :
        (P : Ptr → Endpoint W → Type 0)
        → (q : Ptr) → 0 < count q (remove p xs)
        → P q (ept q)
        → P q (update ept p e q)
    stays P q h = subst (P q) (sym (update_ne ept p q e (λ s. (kept q h).0 (sym s))))

    back :
        (P : Ptr → Endpoint W → Type 0)
        → (q : Ptr) → 0 < count q (remove p xs)
        → P q (update ept p e q)
        → P q (ept q)
    back P q h = subst (P q) (update_ne ept p q e (λ s. (kept q h).0 (sym s)))

    pub remove-Table :
        ((c : ℕ) → (ept p).addr ≢ 1024 + c → is_bit_set after c ≡ is_bit_set bitmap c)
        → 0 < count p xs
        → Table (update ept p e) (remove p xs) after
    remove-Table others member = record {
      once = λ q. ground (arith, count-remove p q xs, t.once q);
      valid = λ q h. t.valid q (kept q h).1;
      bound = λ q h. stays (λ q x. x.rdev ≡ true) q h (t.bound q (kept q h).1);
      low = λ q h. stays (λ q x. x.addr < 1024 + 128) q h (t.low q (kept q h).1);
      taken = λ q c h a.
          let a' = back (λ q x. x.addr ≡ 1024 + c) q h a in
          others c (apart q c h a') ∙ t.taken q c (kept q h).1 a';
      distinct = λ q r h k l a.
          t.distinct q r (kept q h).1 (kept r k).1 (back (λ q x. 1024 ≤ x.addr) q h l) (
            back (λ r y. (ept q).addr ≡ y.addr) r k
              (back (λ q x. x.addr ≡ (update ept p e r).addr) q h a));
    }
      where
        apart :
            (q : Ptr) (c : ℕ)
            → 0 < count q (remove p xs)
            → (ept q).addr ≡ 1024 + c
            → (ept p).addr ≢ 1024 + c
        apart q c h a s =
            (kept q h).0 (t.distinct q p (kept q h).1 member (omega (arith, a)) (a ∙ sym s))
