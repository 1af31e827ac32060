-- ===== src/Kernel/Fd/Counts.antt =====
-- How many descriptors name a file, in one table and in all.
use petix.Prelude.{
  ℕ, zero, suc, ◌+◌, ◌≤◌, ◌<◌, ◌≡◌, refl, ap, [], ◌∷◌, Option, none, some, ◌==◌, if◌then◌else◌,
  arith, Bool-cases, inl, inr, get_or, set, length, replicate, ==→eq, ==→ne,
}
use petix.Kernel.Fd.{Slot, closed, Fds, set_fds}

abbrev pub names : ℕ → Option ℕ → ℕ
names a none = 0
names a (some b) = if a == b then 1 else 0

abbrev pub refs : ℕ → Fds → ℕ
refs a [] = 0
refs a (s ∷ fds) = names a s.file + refs a fds

-- Over the first `n` slots of the process table.
unfoldable pub total : ℕ → (ℕ → Fds) → ℕ → ℕ
total zero tables a = 0
total (suc n) tables a = total n tables a + refs a (tables n)

pub refs-set :
    (a i : ℕ) (fds : Fds) (s : Slot)
    → i < length fds
    → refs a (set fds i s) + names a (get_or fds i closed).file ≡ refs a fds + names a s.file
refs-set a i [] s h = absurd (omega arith)
refs-set a zero (t ∷ fds) s h = omega arith
refs-set a (suc i) (t ∷ fds) s h = omega (arith, refs-set a i fds s (omega arith))

pub names-le-refs : (a i : ℕ) (fds : Fds) → names a (get_or fds i closed).file ≤ refs a fds
names-le-refs a i [] = omega arith
names-le-refs a zero (t ∷ fds) = omega arith
names-le-refs a (suc i) (t ∷ fds) = omega (arith, names-le-refs a i fds)

pub refs-closed : (a n : ℕ) → refs a (replicate n closed) ≡ 0
refs-closed a zero = refl
refs-closed a (suc n) = omega (arith, refs-closed a n)

total-set_above :
    (n : ℕ) (tables : ℕ → Fds) (p : ℕ) (fds : Fds) (a : ℕ)
    → n ≤ p
    → total n (set_fds tables p fds) a ≡ total n tables a
unfolding total
total-set_above zero tables p fds a h = refl
total-set_above (suc n) tables p fds a h = ground (arith, total-set_above n tables p fds a)

-- A change of one table changes the total by the change there.
pub total-set :
    (n : ℕ) (tables : ℕ → Fds) (p : ℕ) (fds : Fds) (a : ℕ)
    → p < n
    → total n (set_fds tables p fds) a + refs a (tables p) ≡ total n tables a + refs a fds
unfolding total
total-set zero tables p fds a h = absurd (omega arith)
total-set (suc n) tables p fds a h = elim (Bool-cases (n == p)) [
  | inl e ↦
      let same : n ≡ p = ==→eq n p e in
      rw e (
        omega
          (arith, total-set_above n tables p fds a (omega arith), ap (λ i. refs a (tables i)) same))
  | inr e ↦ rw e (omega (arith, total-set n tables p fds a (omega (arith, ==→ne n p e))))
]

pub refs-le-total :
    (n : ℕ) (tables : ℕ → Fds) (p a : ℕ) → p < n → refs a (tables p) ≤ total n tables a
unfolding total
refs-le-total zero tables p a h = absurd (omega arith)
refs-le-total (suc n) tables p a h = elim (Bool-cases (n == p)) [
  | inl e ↦ let same : n ≡ p = ==→eq n p e in omega (arith, ap (λ i. refs a (tables i)) same)
  | inr e ↦ omega (arith, refs-le-total n tables p a (omega (arith, ==→ne n p e)))
]
