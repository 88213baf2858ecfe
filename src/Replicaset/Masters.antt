-- ===== src/Replicaset/Masters.antt =====
-- `recalculateMaster` of cli/replicaset/replicaset.go, whatever the unknown modes are.
use tt.Prelude.{
  ℕ, suc, ◌≡◌, ◌≤◌, ◌<◌, ◌+◌, ◌⊎◌, inl, inr, Bool, true, false, List, [], ◌∷◌, arith, nat_eq, ltb,
  Bool-cases, if◌then◌else◌,
}
use tt.Replicaset.Instances.{
  mode_unknown, mode_read, mode_rw, Instance, Replicaset, Master, master_unknown, master_no,
  master_single, master_multi, count_modes, recalculate_master,
}

-- What the modes of the instances can be: an unknown one is read or rw.
abbrev pub IsPossible : List Instance → List Bool → Type 0
IsPossible [] [] = Unit
IsPossible (i ∷ l) (rw_mode ∷ rest) =
    (((i.mode ≡ mode_rw) × (rw_mode ≡ true))
      ⊎ (((i.mode ≡ mode_read) × (rw_mode ≡ false)) ⊎ (i.mode ≡ mode_unknown)))
    × IsPossible l rest
IsPossible _ _ = ⊥

-- How many instances are rw.
abbrev pub masters_of : List Bool → ℕ
masters_of [] = 0
masters_of (true ∷ l) = suc (masters_of l)
masters_of (false ∷ l) = masters_of l

count_modes-IsPossible :
    (l : List Instance) (modes : List Bool)
    → IsPossible l modes
    → ((count_modes l).0 ≤ masters_of modes)
      × (masters_of modes ≤ (count_modes l).0 + (count_modes l).1)
unfolding count_modes
count_modes-IsPossible [] [] h = (omega arith, omega arith)
count_modes-IsPossible [] (m ∷ modes) h = absurd h
count_modes-IsPossible (i ∷ l) [] h = absurd h
count_modes-IsPossible (i ∷ l) (true ∷ modes) (h, k) =
    let (low, up) = count_modes-IsPossible l modes k in
    elim h [
      | inl e ↦ (ground (arith, e.0, low, up), ground (arith, e.0, low, up))
      | inr (inl e) ↦ absurd (ground (arith, e.1))
      | inr (inr e) ↦ (ground (arith, e, low, up), ground (arith, e, low, up))
    ]
count_modes-IsPossible (i ∷ l) (false ∷ modes) (h, k) =
    let (low, up) = count_modes-IsPossible l modes k in
    elim h [
      | inl e ↦ absurd (ground (arith, e.1))
      | inr (inl e) ↦ (ground (arith, e.0, low, up), ground (arith, e.0, low, up))
      | inr (inr e) ↦ (ground (arith, e, low, up), ground (arith, e, low, up))
    ]

-- What a master type promises of the number of rw instances.
abbrev pub Promises : Master → ℕ → Type 0
Promises master_unknown n = Unit
Promises master_no n = n ≡ 0
Promises master_single n = n ≡ 1
Promises master_multi n = 1 < n

master_of-Promises :
    (masters unknown n : ℕ)
    → masters ≤ n
    → n ≤ masters + unknown
    → Promises
        (if ltb 1 masters
          then master_multi
          else if nat_eq masters 1
          then (if nat_eq unknown 0 then master_single else master_unknown)
          else if nat_eq unknown 0
          then master_no
          else master_unknown)
        n
master_of-Promises masters unknown n low up = elim (Bool-cases (ltb 1 masters)) [
  | inl e ↦ rw e (ground (arith, e, low))
  | inr e ↦ elim (Bool-cases (nat_eq masters 1)) [
    | inl f ↦ elim (Bool-cases (nat_eq unknown 0)) [
      | inl g ↦ rw (e, f, g) (ground (arith, f, g, low, up))
      | inr g ↦ rw (e, f, g) tt
    ]
    | inr f ↦ elim (Bool-cases (nat_eq unknown 0)) [
      | inl g ↦ rw (e, f, g) (ground (arith, e, f, g, low, up))
      | inr g ↦ rw (e, f, g) tt
    ]
  ]
]

-- Whatever the unknown modes are, the recalculated master type of a replicaset holds: no instance
-- is rw, exactly one is, or more than one; unknown says nothing.
recalculate_master-Promises :
    (r : Replicaset) (modes : List Bool)
    → IsPossible r.instances modes
    → Promises (recalculate_master r).master (masters_of modes)
unfolding recalculate_master
recalculate_master-Promises r modes h =
    let (low, up) = count_modes-IsPossible r.instances modes h in
    master_of-Promises (count_modes r.instances).0 (count_modes r.instances).1 (masters_of modes)
      low up
