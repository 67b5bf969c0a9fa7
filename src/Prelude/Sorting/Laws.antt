-- ===== src/Prelude/Sorting/Laws.antt =====
-- A sorted list is ascending and a permutation, and it does not depend on the order of its input.
use log_service.Prelude.Tests.{Bool-cases, if_both}
use log_service.Prelude.Sorting.{insert, sort}
use mathlib.Core.Path.{◌≡◌, refl, sym, ap, ap₂, ◌∙◌}
use mathlib.Core.Bool.{Bool, true, false}
use mathlib.Core.Logic.{◌≢◌, inl, inr, ∥∥₁_elim}
use mathlib.Core.List.{List, [], ◌∷◌, map, Perm, Pairwise, Nodup, Mem}
use mathlib.Core.List.{mem-cons_self, mem-cons_of_mem, forall_mem-cons, Pairwise-singleton}
use mathlib.Core.List
use mathlib.Core.List.Perm
use mathlib.Core.List.Pairwise
use mathlib.Core.List.{Permᴰ}
use mathlib.Core.List.Permᴰ

-- A strict order by a Boolean test.
pub record IsOrder {ℓ} {K : Type ℓ} (less : K → K → Bool) : Type ℓ where
  pub irrefl : (a : K) → less a a ≡ false
  pub trans : (a b c : K) → less a b ≡ true → less b c ≡ true → less a c ≡ true
  pub connex : (a b : K) → less a b ≡ false → less b a ≡ false → a ≡ b

module _ {ℓ κ} {A : Type ℓ} {K : Type κ} (less : K → K → Bool) (key : A → K)
    (order : IsOrder less) where
  abbrev pub by_key : A → A → Bool
  by_key a b = less (key a) (key b)

  asymm : (a b : K) → less a b ≡ true → less b a ≡ false
  asymm a b h = elim (Bool-cases (less b a)) [
    | inl k ↦ absurd (clash (sym (order.trans a b a h k) ∙ order.irrefl a))
    | inr k ↦ k
  ]
    where
      clash : true ≡ false → ⊥
      clash e = cc

  other : (a b : K) → a ≢ b → less a b ≡ false → less b a ≡ true
  other a b n h = elim (Bool-cases (less b a)) [
    | inl k ↦ k
    | inr k ↦ absurd (n (order.connex a b h k))
  ]

  -- What is not before z is not before an x that is.
  behind : (x y z : K) → less x z ≡ true → less y z ≡ false → less y x ≡ false
  behind x y z xz yz = elim (Bool-cases (less y x)) [
    | inl yx ↦ absurd (clash (sym (order.trans y x z yx xz) ∙ yz))
    | inr yx ↦ yx
  ]
    where
      clash : true ≡ false → ⊥
      clash e = cc

  insert_front :
      (x z : A) (l : List A) → less (key x) (key z) ≡ true → insert by_key x (z ∷ l) ≡ x ∷ z ∷ l
  unfolding insert
  insert_front x z l h = rw h

  insert_behind :
      (x z : A) (l : List A)
      → less (key x) (key z) ≡ false
      → insert by_key x (z ∷ l) ≡ z ∷ insert by_key x l
  unfolding insert
  insert_behind x z l h = rw h

  insert_last : (x : A) → insert by_key x [] ≡ x ∷ []
  unfolding insert
  insert_last x = refl

  pub insert-insert :
      (x y : A) (l : List A)
      → key x ≢ key y
      → insert by_key x (insert by_key y l) ≡ insert by_key y (insert by_key x l)
  insert-insert x y [] n = elim (Bool-cases (less (key x) (key y))) [
    | inl h ↦ cc (
      insert_last x,
      insert_last y,
      insert_front x y [] h,
      insert_behind y x [] (asymm (key x) (key y) h),
    )
    | inr h ↦ cc (
      insert_last x,
      insert_last y,
      insert_behind x y [] h,
      insert_front y x [] (other (key x) (key y) n h),
    )
  ]
  insert-insert x y (z ∷ l) n = elim (Bool-cases (less (key x) (key z))) [
    | inl xz ↦ elim (Bool-cases (less (key y) (key z))) [
      | inl yz ↦ elim (Bool-cases (less (key x) (key y))) [
        | inl xy ↦ cc (
          insert_front x z l xz,
          insert_front y z l yz,
          insert_front x y (z ∷ l) xy,
          insert_behind y x (z ∷ l) (asymm (key x) (key y) xy),
        )
        | inr xy ↦ cc (
          insert_front x z l xz,
          insert_front y z l yz,
          insert_behind x y (z ∷ l) xy,
          insert_front y x (z ∷ l) (other (key x) (key y) n xy),
        )
      ]
      | inr yz ↦ cc (
        insert_front x z l xz,
        insert_behind y z l yz,
        insert_front x z (insert by_key y l) xz,
        insert_behind y x (z ∷ l) (behind (key x) (key y) (key z) xz yz),
      )
    ]
    | inr xz ↦ elim (Bool-cases (less (key y) (key z))) [
      | inl yz ↦ cc (
        insert_behind x z l xz,
        insert_front y z l yz,
        insert_front y z (insert by_key x l) yz,
        insert_behind x y (z ∷ l) (behind (key y) (key x) (key z) yz xz),
      )
      | inr yz ↦ cc (
        insert_behind x z l xz,
        insert_behind y z l yz,
        insert_behind x z (insert by_key y l) xz,
        insert_behind y z (insert by_key x l) yz,
        insert-insert x y l n,
      )
    ]
  ]

  -- In the order of two iterations over one map, the sorted lists are equal.
  sort_same : (l r : List A) → Permᴰ l r → Nodup (map key l) → sort by_key l ≡ sort by_key r
  unfolding sort
  sort_same l r Permᴰ.nil n = refl
  sort_same l r (Permᴰ.cons {a = a} {b = b} {l₁ = l₁} {l₂ = l₂} e d) (Pairwise.cons h n) =
      ap₂ (insert by_key) e (sort_same l₁ l₂ d n)
  sort_same l r (Permᴰ.swap {a = a} {b = b} {a' = a'} {b' = b'} {l = l'} e₁ e₂)
        (Pairwise.cons h n) =
      insert-insert a b (sort by_key l') (h (key b) mem-cons_self)
      ∙ ap₂ (insert by_key) e₂ (ap (λ x. insert by_key x (sort by_key l')) e₁)
  sort_same l r (Permᴰ.trans {l₂ = m} d₁ d₂) n =
      sort_same l m d₁ n ∙ sort_same m r d₂ (Perm.nodup (Perm.map key ∣ d₁ ∣₁) n)

  -- Sorting gives one list for the two orders of two iterations over a map, if its keys are distinct.
  pub sort-perm_eq :
      IsSet A → (l r : List A) → Perm l r → Nodup (map key l) → sort by_key l ≡ sort by_key r
  sort-perm_eq set l r p n =
      ∥∥₁_elim p (List.is_set set (sort by_key l) (sort by_key r)) (λ d. sort_same l r d n)

  insert-perm : (x : A) (l : List A) → Perm (insert by_key x l) (x ∷ l)
  unfolding insert
  insert-perm x [] = Perm.rfl
  insert-perm x (y ∷ ys) =
      if_both (λ t. Perm t (x ∷ y ∷ ys)) (less (key x) (key y)) _ _ Perm.rfl
        (Perm.trans (Perm.cons y (insert-perm x ys)) (Perm.swap x y ys))

  -- Sorting rearranges.
  pub sort-perm : (l : List A) → Perm (sort by_key l) l
  unfolding sort
  sort-perm [] = Perm.rfl
  sort-perm (x ∷ xs) = Perm.trans (insert-perm x (sort by_key xs)) (Perm.cons x (sort-perm xs))

  -- No element has one behind it that is less.
  abbrev pub IsSorted : List A → Type ℓ
  IsSorted = Pairwise (λ a b. by_key b a ≡ false)

  is_false-prop : (a b : A) → IsProp (by_key b a ≡ false)
  is_false-prop a b = hlevel

  insert-IsSorted : (x : A) (l : List A) → IsSorted l → IsSorted (insert by_key x l)
  insert-IsSorted x [] s = rw (insert_last x) (Pairwise-singleton _ x)
  insert-IsSorted x (z ∷ l) (Pairwise.cons below s) = elim (Bool-cases (less (key x) (key z))) [
    | inl xz ↦ rw (insert_front x z l xz) (
        Pairwise.cons
          ((forall_mem-cons (is_false-prop x)).1
            (asymm (key x) (key z) xz, λ a m. behind (key x) (key a) (key z) xz (below a m)))
          (Pairwise.cons below s))
    | inr xz ↦ rw (insert_behind x z l xz) (
        Pairwise.cons
          (λ a m.
            (forall_mem-cons (is_false-prop z)).1 (xz, below) a
              ((Perm.mem_iff (insert-perm x l)).0 m))
          (insert-IsSorted x l s))
  ]

  -- Sorting puts in order.
  pub sort-IsSorted : (l : List A) → IsSorted (sort by_key l)
  unfolding sort
  sort-IsSorted [] = Pairwise.nil
  sort-IsSorted (x ∷ xs) = insert-IsSorted x (sort by_key xs) (sort-IsSorted xs)
