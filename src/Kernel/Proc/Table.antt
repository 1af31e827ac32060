-- ===== src/Kernel/Proc/Table.antt =====
-- The process table: pids name their slots, and a pid that was released names nothing again.
use petix.Prelude.{
  ℕ, zero, suc, ◌+◌, ◌-◌, ◌%◌, ◌<◌, ◌≡◌, ◌≢◌, refl, ◌∙◌, ap, sym, true, false, none, some, ◌==◌,
  if◌then◌else◌, arith, Bool-cases, Option-cases, inl, inr, ◌⊎◌, some_inj, subst, ==→eq, ==→ne,
  eq→==, ne→==, negsuc, ◌↔◌,
}
use petix.Kernel.Sync.{ReadyState}
use petix.Kernel.Proc.{
  ptable_size, pid_gen, pid_off, make_pid, Pcb, Procs, is_noproc, set_pcb, get_pcb, find_slot,
  alloc_proc, release_proc,
}

abbrev pub IsLive : (ℕ → Pcb) → ℕ → Type 0
IsLive table i = is_noproc (table i).rs ≡ false

-- Every process that is there stands in the slot that its pid names.
pub record IsTable (s : Procs) : Type 0 where
  pub placed : (i : ℕ) → i < ptable_size → IsLive s.table i → pid_off (s.table i).pid ≡ i
  pub next_in : s.pt_free < ptable_size

-- The slot that is `k` behind `init`, round the table.
abbrev pub slot : ℕ → ℕ → ℕ
slot init k = (init + k) % ptable_size

find_slot_lem :
    (rounds k : ℕ) (table : ℕ → Pcb) (init : ℕ)
    → init < ptable_size
    → k + rounds ≡ ptable_size
    → 0 < rounds
    → ((j : ℕ) → j < k → IsLive table (slot init j))
    → ((off : ℕ)
        → find_slot rounds table init (slot init k) ≡ some off
        → (off < ptable_size) × (is_noproc (table off).rs ≡ true))
      × (find_slot rounds table init (slot init k) ≡ none
          → (j : ℕ) → j < ptable_size
          → IsLive table (slot init j))
unfolding find_slot
find_slot_lem zero k table init b e h live = elim h [ ]
find_slot_lem (suc rounds) k table init b e h live =
    elim (Bool-cases (is_noproc (table (slot init k)).rs)) [
      | inl free ↦ rw free (
        λ off f.
            let same : slot init k ≡ off = some_inj f in
            (omega arith, sym (ap (λ i. is_noproc (table i).rs) same) ∙ free),
        λ f. cc,
      )
      | inr used ↦ elim (Bool-cases ((slot init k + 1) % ptable_size == init)) [
        | inl last ↦
            rw (used, last) (λ off f. cc, λ f j jb. upto used j (omega (arith, ==→eq _ _ last)))
        | inr more ↦
            let ih =
              find_slot_lem rounds (k + 1) table init b (omega arith)
                (omega (arith, ==→ne _ _ more)) (λ j jb. upto used j jb) in
            let next : (slot init k + 1) % ptable_size ≡ slot init (k + 1) = omega arith in
            rw (used, more, next) ih
      ]
    ]
  where
    upto : IsLive table (slot init k) → (j : ℕ) → j < k + 1 → IsLive table (slot init j)
    upto used j jb = elim (Bool-cases (j == k)) [
      | inl same ↦ ap (λ i. is_noproc (table (slot init i)).rs) (==→eq j k same) ∙ used
      | inr other ↦ live j (ground arith)
    ]

-- `get_pcb` gives the slot of exactly the process that is there under the pid.
pub get_pcb_lem :
    (s : Procs) (pid i : ℕ)
    → IsTable s
    → (get_pcb s pid ≡ some i) ↔ ((i < ptable_size) × IsLive s.table i × ((s.table i).pid ≡ pid))
unfolding get_pcb
get_pcb_lem s pid i v = (
  λ e.
      let same : pid_off pid ≡ i = ground arith in
      (
        omega arith,
        ap (λ j. is_noproc (s.table j).rs) (sym same) ∙ ground arith,
        ap (λ j. (s.table j).pid) (sym same) ∙ ground arith,
      ),
  λ h.
      let same : pid_off pid ≡ i = ap pid_off (sym h.2) ∙ v.placed i h.0 h.1 in
      rw (same, h.1, (eq→== _ _ h.2)) refl,
)

-- What `alloc_proc` leaves: a process in a slot that had none, under a pid that names the slot and
-- is greater than the one before it. Nothing else in the table has changed.
pub record Allocated (s : Procs) (off : ℕ) (s' : Procs) : Type 0 where
  pub valid : IsTable s'
  pub slot_in : off < ptable_size
  pub was_free : is_noproc (s.table off).rs ≡ true
  pub state : (s'.table off).rs ≡ ReadyState.created
  pub named : get_pcb s' (s'.table off).pid ≡ some off
  pub newer : (s.table off).pid < (s'.table off).pid
  pub others : (i : ℕ) → i ≢ off → s'.table i ≡ s.table i
  pub depth : s'.acq_depth ≡ s.acq_depth

alloc-IsTable :
    (s : Procs) (off : ℕ) (p : Pcb)
    → IsTable s
    → off < ptable_size
    → pid_off p.pid ≡ off
    → IsTable (record s { table = set_pcb s.table off p; pt_free = off })
alloc-IsTable s off p v b e = record {
  placed = λ i ib live. elim (Bool-cases (i == off)) [
    | inl same ↦ rw same (e ∙ sym (==→eq i off same))
    | inr other ↦
        rw other
          (v.placed i ib (sym (ap (λ t. is_noproc (if t then p else s.table i).rs) other) ∙ live))
  ];
  next_in = b;
}

-- `alloc_proc` gives a new process, or every slot of the table is in use; then it returns with the
-- global lock taken once more than before.
pub alloc_proc-Allocated :
    (s : Procs)
    → IsTable s
    → ((off : ℕ) × (s' : Procs) × (alloc_proc s ≡ (s', some off)) × Allocated s off s')
      ⊎ (((alloc_proc s).1 ≡ none)
          × ((alloc_proc s).0.acq_depth ≡ s.acq_depth + 1)
          × ((i : ℕ) → i < ptable_size → IsLive s.table i))
unfolding alloc_proc
alloc_proc-Allocated s v = elim (Option-cases (find_slot ptable_size s.table s.pt_free s.pt_free)) [
  | inr (off, e) ↦
      let f = found.0 off (start ∙ e) in
      let p = created off in
      let named : pid_off p.pid ≡ off = omega (arith, f.0) in
      let valid = alloc-IsTable s off p v f.0 named in
      let s' : Procs = record s { table = set_pcb s.table off p; pt_free = off } in
      let at : s'.table off ≡ p = rw (eq→== off off refl) refl in
      inl (
        off,
        s',
        rw (e, alloc_proc) refl,
        record {
          valid = valid;
          slot_in = f.0;
          was_free = f.1;
          state = ap (λ (q : Pcb). q.rs) at;
          named =
              (get_pcb_lem s' (s'.table off).pid off valid).1
                (f.0, ap (λ (q : Pcb). is_noproc q.rs) at, refl);
          newer = subst (λ (q : Pcb). (s.table off).pid < q.pid) (sym at) (omega arith);
          others = λ i h. rw (ne→== i off h) refl;
          depth = refl;
        },
      )
  | inl e ↦ inr (
    ground (arith, e),
    ground (arith, e),
    λ i b.
        let around : slot s.pt_free ((i + ptable_size - s.pt_free) % ptable_size) ≡ i =
          omega (arith, v.next_in) in
        ap (λ j. is_noproc (s.table j).rs) (sym around)
        ∙ found.1 (start ∙ e) ((i + ptable_size - s.pt_free) % ptable_size) (omega arith),
  )
]
  where
    created : ℕ → Pcb
    created off =
        let p = s.table off in
        record p {
          rs = ReadyState.created;
          pid = make_pid (pid_gen p.pid + 1) off;
          ppid = negsuc 0;
        }

    start :
        find_slot ptable_size s.table s.pt_free (slot s.pt_free 0)
        ≡ find_slot ptable_size s.table s.pt_free s.pt_free
    start = ap (find_slot ptable_size s.table s.pt_free) (omega (arith, v.next_in))

    found :
        ((off : ℕ)
          → find_slot ptable_size s.table s.pt_free (slot s.pt_free 0) ≡ some off
          → (off < ptable_size) × (is_noproc (s.table off).rs ≡ true))
        × (find_slot ptable_size s.table s.pt_free (slot s.pt_free 0) ≡ none
            → (j : ℕ) → j < ptable_size
            → IsLive s.table (slot s.pt_free j))
    found =
        find_slot_lem ptable_size 0 s.table s.pt_free v.next_in refl (omega arith)
          (λ j h. elim h [ ])

-- A process that was released is found no more, under whatever pid.
pub release_proc_lem :
    (s : Procs) (off pid : ℕ)
    → IsTable s
    → off < ptable_size
    → IsTable (release_proc off s)
      × (get_pcb (release_proc off s) pid ≡ (if pid_off pid == off then none else get_pcb s pid))
unfolding release_proc get_pcb
release_proc_lem s off pid v b = (
  record {
    placed = λ i ib live. elim (Bool-cases (i == off)) [
      | inl same ↦ absurd (ground arith)
      | inr other ↦ rw other (v.placed i ib (ground arith))
    ];
    next_in = v.next_in;
  },
  ground arith,
)
