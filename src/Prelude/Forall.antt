-- ===== src/Prelude/Forall.antt =====
-- A property of every element of a list.
use mathlib.Core.Path.{subst}
use mathlib.Core.List.{List, [], ◌∷◌, ◌++◌, Permᴰ}

module _ {ℓ κ} {A : Type ℓ} (P : A → Type κ) where
  pub data All : List A → Type (ℓ ⊔ κ) where
    none_left : All []
    one_more : {x : A} {xs : List A} → P x → All xs → All (x ∷ xs)

module _ {ℓ κ} {A : Type ℓ} {P : A → Type κ} where
  pub All-head : {x : A} {xs : List A} → All P (x ∷ xs) → P x
  All-head (one_more p ps) = p

  pub All-tail : {x : A} {xs : List A} → All P (x ∷ xs) → All P xs
  All-tail (one_more p ps) = ps

  pub All-perm : {xs ys : List A} → Permᴰ xs ys → All P xs → All P ys
  All-perm Permᴰ.nil a = a
  All-perm (Permᴰ.cons e d) a = one_more (subst P e (All-head a)) (All-perm d (All-tail a))
  All-perm (Permᴰ.swap e f) a =
      one_more (subst P f (All-head (All-tail a)))
        (one_more (subst P e (All-head a)) (All-tail (All-tail a)))
  All-perm (Permᴰ.trans c d) a = All-perm d (All-perm c a)

  pub All-append : {xs ys : List A} → All P xs → All P ys → All P (xs ++ ys)
  All-append none_left b = b
  All-append (one_more p ps) b = one_more p (All-append ps b)

  pub All-map {μ} : {Q : A → Type μ} {xs : List A} → ((a : A) → P a → Q a) → All P xs → All Q xs
  All-map f none_left = none_left
  All-map f (one_more p ps) = one_more (f _ p) (All-map f ps)

-- A property of some element of a list.
module _ {ℓ κ} {A : Type ℓ} (P : A → Type κ) where
  pub data Any : List A → Type (ℓ ⊔ κ) where
    found : {x : A} {xs : List A} → P x → Any (x ∷ xs)
    later : {x : A} {xs : List A} → Any xs → Any (x ∷ xs)

module _ {ℓ κ} {A : Type ℓ} {P : A → Type κ} where
  pub Any-perm : {xs ys : List A} → Permᴰ xs ys → Any P xs → Any P ys
  Any-perm Permᴰ.nil a = elim a [ ]
  Any-perm (Permᴰ.cons e d) (found p) = found (subst P e p)
  Any-perm (Permᴰ.cons e d) (later a) = later (Any-perm d a)
  Any-perm (Permᴰ.swap e f) (found p) = later (found (subst P e p))
  Any-perm (Permᴰ.swap e f) (later (found p)) = found (subst P f p)
  Any-perm (Permᴰ.swap e f) (later (later a)) = later (later a)
  Any-perm (Permᴰ.trans c d) a = Any-perm d (Any-perm c a)

-- Two lists of one length, related element by element.
module _ {ℓ κ} {A : Type ℓ} (R : A → A → Type κ) where
  pub data All2 : List A → List A → Type (ℓ ⊔ κ) where
    both_empty : All2 [] []
    both_more : {x y : A} {xs ys : List A} → R x y → All2 xs ys → All2 (x ∷ xs) (y ∷ ys)

module _ {ℓ κ} {A : Type ℓ} {R : A → A → Type κ} where
  pub All2-refl : ((a : A) → R a a) → (xs : List A) → All2 R xs xs
  All2-refl h [] = both_empty
  All2-refl h (x ∷ xs) = both_more (h x) (All2-refl h xs)

  pub All2-trans :
      ((a b c : A) → R a b → R b c → R a c)
      → {xs ys zs : List A} → All2 R xs ys
      → All2 R ys zs
      → All2 R xs zs
  All2-trans h both_empty b = b
  All2-trans h (both_more r a) (both_more s b) = both_more (h _ _ _ r s) (All2-trans h a b)
