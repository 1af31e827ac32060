-- ===== src/Kernel/Tmpfs/Flat.antt =====
-- The bytes of a file, as the pages hold them one after the other.
use petix.Prelude.{
  ℕ, zero, suc, ◌+◌, ◌*◌, ◌≤◌, ◌<◌, ◌≡◌, refl, ◌∙◌, sym, ap, List, [], ◌∷◌, ◌++◌, some,
  append_assoc, get_elem?, get_or, set, take, drop, length, take-append-drop, length-append, arith,
}
use petix.Kernel.Tmpfs.{page_size, new_pages}

abbrev pub flat : List (List ℕ) → List ℕ
flat [] = []
flat (p ∷ ps) = p ++ flat ps

-- Every page is full.
pub data ArePages : List (List ℕ) → Type 0 where
  no_pages : ArePages []
  page : {p : List ℕ} {ps : List (List ℕ)} → length p ≡ page_size → ArePages ps → ArePages (p ∷ ps)

module _ {ℓ} {A : Type ℓ} where
  cons_inj : (x y : A) (xs ys : List A) → x ∷ xs ≡ y ∷ ys → (x ≡ y) × (xs ≡ ys)
  cons_inj x y xs ys h = (ap (λ l. get_or l 0 x) h, ap (drop 1) h)

  pub append_inj :
      (xs xs' ys ys' : List A)
      → length xs ≡ length xs'
      → xs ++ ys ≡ xs' ++ ys'
      → (xs ≡ xs') × (ys ≡ ys')
  append_inj [] [] ys ys' n h = (refl, h)
  append_inj [] (x ∷ xs') ys ys' n h = absurd (omega arith)
  append_inj (x ∷ xs) [] ys ys' n h = absurd (omega arith)
  append_inj (x ∷ xs) (x' ∷ xs') ys ys' n h =
      let (e, t) = cons_inj x x' (xs ++ ys) (xs' ++ ys') h in
      let (a, b) = append_inj xs xs' ys ys' (omega arith) t in
      (ap (λ l. x ∷ l) a ∙ ap (λ y. y ∷ xs') e, b)

  take_nil : (n : ℕ) → take {A = A} n [] ≡ []
  take_nil zero = refl
  take_nil (suc n) = refl

  pub take_append : (m n : ℕ) (xs : List A) → take m xs ++ take n (drop m xs) ≡ take (m + n) xs
  take_append zero n xs = ap (λ k. take k xs) (omega arith)
  take_append (suc m) n [] = take_nil n ∙ sym (take_nil (suc m + n))
  take_append (suc m) n (x ∷ xs) =
      let e : suc (m + n) ≡ suc m + n = omega arith in
      ap (λ l. x ∷ l) (take_append m n xs) ∙ ap (λ k. take k (x ∷ xs)) e

  pub take-append : (n : ℕ) (xs ys : List A) → n ≤ length xs → take n (xs ++ ys) ≡ take n xs
  take-append zero xs ys h = refl
  take-append (suc n) [] ys h = absurd (omega arith)
  take-append (suc n) (x ∷ xs) ys h = ap (λ l. x ∷ l) (take-append n xs ys (omega arith))

  pub take-take : (m n : ℕ) (xs : List A) → m ≤ n → take m (take n xs) ≡ take m xs
  take-take zero n xs h = refl
  take-take (suc m) zero xs h = absurd (omega arith)
  take-take (suc m) (suc n) [] h = refl
  take-take (suc m) (suc n) (x ∷ xs) h = ap (λ l. x ∷ l) (take-take m n xs (omega arith))

  -- A list cut in the middle of one of three parts.
  pub cut_middle :
      (xs p zs : List A) (r : ℕ) → xs ++ (p ++ zs) ≡ (xs ++ take r p) ++ (drop r p ++ zs)
  cut_middle xs p zs r =
      ap (λ l. xs ++ (l ++ zs)) (sym (take-append-drop r p))
      ∙ ap (λ l. xs ++ l) (append_assoc (take r p) (drop r p) zs)
      ∙ sym (append_assoc xs (take r p) (drop r p ++ zs))

pub length-flat : (ps : List (List ℕ)) → ArePages ps → length (flat ps) ≡ length ps * page_size
length-flat [] no_pages = refl
length-flat (p ∷ ps) (page e full) =
    omega (arith, length-append p (flat ps), length-flat ps full, e)

-- One page among the others, and what is left of the bytes when another page takes its place.
pub record At (ps : List (List ℕ)) (i : ℕ) : Type 0 where
  pub before : List ℕ
  pub behind : List ℕ
  pub splits : flat ps ≡ before ++ (get_or ps i [] ++ behind)
  pub starts : length before ≡ i * page_size
  pub is_page : length (get_or ps i []) ≡ page_size
  pub there : get_elem? ps i ≡ some (get_or ps i [])
  pub replaced : (q : List ℕ) → flat (set ps i q) ≡ before ++ (q ++ behind)
  pub kept : (q : List ℕ) → length q ≡ page_size → ArePages (set ps i q)

pub flat-At : (ps : List (List ℕ)) (i : ℕ) → ArePages ps → i < length ps → At ps i
flat-At [] i full h = absurd (omega arith)
flat-At (p ∷ ps) zero (page e full) h = record {
  before = [];
  behind = flat ps;
  splits = refl;
  starts = refl;
  is_page = e;
  there = refl;
  replaced = λ q. refl;
  kept = λ q e'. page e' full;
}
flat-At (p ∷ ps) (suc i) (page e full) h =
    let a = flat-At ps i full (omega arith) in
    record {
      before = p ++ a.before;
      behind = a.behind;
      splits = ap (λ l. p ++ l) a.splits ∙ sym (append_assoc p a.before _);
      starts = omega (arith, length-append p a.before, a.starts, e);
      is_page = a.is_page;
      there = a.there;
      replaced = λ q. ap (λ l. p ++ l) (a.replaced q) ∙ sym (append_assoc p a.before _);
      kept = λ q e'. page e (a.kept q e');
    }

pub new_pages-ArePages :
    (ps : List (List ℕ)) (n : ℕ) (garbage : List ℕ)
    → ArePages ps
    → length garbage ≡ page_size
    → ArePages (ps ++ new_pages n garbage) × (length (ps ++ new_pages n garbage) ≡ length ps + n)
new_pages-ArePages [] zero garbage no_pages g = (no_pages, refl)
new_pages-ArePages [] (suc n) garbage no_pages g =
    let (f, l) = new_pages-ArePages [] n garbage no_pages g in (page g f, omega (arith, l))
new_pages-ArePages (p ∷ ps) n garbage (page e full) g =
    let (f, l) = new_pages-ArePages ps n garbage full g in (page e f, omega (arith, l))
