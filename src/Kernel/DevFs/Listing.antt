-- ===== src/Kernel/DevFs/Listing.antt =====
-- What devfs lists is what it finds.
use petix.Prelude.{
  ℕ, zero, suc, ap, some_inj, ◌⊎◌, ◌↔◌, ◌≡◌, refl, sym, true, List, some, arith, Bool-cases, inl,
  inr, pos, eqb_ℤ,
}
use petix.Libc.Str.{strcmp}
use petix.Kernel.Fs.{found}
use petix.Kernel.Fs.Open.{Inode}
use petix.Kernel.DevFs.{getdent, lookup_all, device, vgatty, comtty, fb, fbtty}

-- One of the four names is the path.
some_device :
    (path : List ℕ) (k : ℕ) (n : ℕ × List ℕ)
    → (getdent k).0 ≡ some n
    → (n.1 ≡ vgatty) ⊎ ((n.1 ≡ comtty) ⊎ ((n.1 ≡ fb) ⊎ (n.1 ≡ fbtty)))
unfolding getdent
some_device path zero n e = inl (sym (ap (λ x. x.1) (some_inj e)))
some_device path (suc zero) n e = inr (inl (sym (ap (λ x. x.1) (some_inj e))))
some_device path (suc (suc zero)) n e = inr (inr (inl (sym (ap (λ x. x.1) (some_inj e)))))
some_device path (suc (suc (suc zero))) n e = inr (inr (inr (sym (ap (λ x. x.1) (some_inj e)))))
some_device path (suc (suc (suc (suc k)))) n e = absurd (ground (arith, e))

found_at :
    (path : List ℕ) (in' : Inode) (name : List ℕ)
    → (name ≡ vgatty) ⊎ ((name ≡ comtty) ⊎ ((name ≡ fb) ⊎ (name ≡ fbtty)))
    → eqb_ℤ (strcmp path name) (pos 0) ≡ true
    → (i : Inode) × (lookup_all path in' ≡ found i)
unfolding lookup_all
found_at path in' name o t = elim (Bool-cases (eqb_ℤ (strcmp path vgatty) (pos 0))) [
  | inl a ↦ (device in' 1, rw a refl)
  | inr a ↦ elim (Bool-cases (eqb_ℤ (strcmp path comtty) (pos 0))) [
    | inl b ↦ (device in' 3, rw (a, b) refl)
    | inr b ↦ elim (Bool-cases (eqb_ℤ (strcmp path fb) (pos 0))) [
      | inl c ↦ (device in' 4, rw (a, b, c) refl)
      | inr c ↦ elim (Bool-cases (eqb_ℤ (strcmp path fbtty) (pos 0))) [
        | inl d ↦ (device in' 5, rw (a, b, c, d) refl)
        | inr d ↦ absurd (grind (arith, o, t, a, b, c, d))
      ]
    ]
  ]
]

listed_at :
    (path : List ℕ) (in' i : Inode)
    → lookup_all path in' ≡ found i
    → (k : ℕ) × (n : ℕ × List ℕ) × ((getdent k).0 ≡ some n)
      × (eqb_ℤ (strcmp path n.1) (pos 0) ≡ true)
unfolding getdent lookup_all
listed_at path in' i f = elim (Bool-cases (eqb_ℤ (strcmp path vgatty) (pos 0))) [
  | inl a ↦ (0, (0, vgatty), refl, a)
  | inr a ↦ elim (Bool-cases (eqb_ℤ (strcmp path comtty) (pos 0))) [
    | inl b ↦ (1, (1, comtty), refl, b)
    | inr b ↦ elim (Bool-cases (eqb_ℤ (strcmp path fb) (pos 0))) [
      | inl c ↦ (2, (2, fb), refl, c)
      | inr c ↦ elim (Bool-cases (eqb_ℤ (strcmp path fbtty) (pos 0))) [
        | inl d ↦ (3, (3, fbtty), refl, d)
        | inr d ↦ absurd (ground (arith, f, a, b, c, d))
      ]
    ]
  ]
]

-- `lookup_all` of devfs finds a path exactly where `getdent` lists an entry whose name `strcmp` takes
-- for the path.
pub lookup_all-getdent :
    (path : List ℕ) (in' : Inode)
    → ((i : Inode) × (lookup_all path in' ≡ found i)) ↔ (
        (k : ℕ) × (n : ℕ × List ℕ) × ((getdent k).0 ≡ some n)
        × (eqb_ℤ (strcmp path n.1) (pos 0) ≡ true))
lookup_all-getdent path in' = (
  λ (i, f). listed_at path in' i f,
  λ (k, n, e, t). found_at path in' n.1 (some_device path k n e) t,
)
