-- ===== src/Engine/Backup/Groups/Disjoint.antt =====
-- crates/pbsgui-engine/src/backup.rs: the snapshot groups of the jobs on one server are kept apart.
use pbsgui.Base.{
  All, Bool-cases, List, Option-cases, Result, Text, [], ap, err, err≢ok, false, inl, inr, list_eq,
  list_eq_iff, none, ok, refl, sym, ◌>>=◌, ◌↔◌, ◌∙◌, ◌∷◌, ◌≡◌, ◌≢◌, ◌⊎◌,
}
use mathlib.Core.Option.{none-ne-some}
use mathlib.Core.Bool.{false≢true}
use pbsgui.Engine.Protocol.{Job, folder, pbs, folder}
use pbsgui.Engine.Backup.Groups.{
  What, GroupError, seen_before, check_inside, check_other, check_others, shares_server,
  job_pbs_groups, validate_pbs_groups,
}

abbrev Groups : Type 0
Groups = List (Text × What)

-- No group of the list has that name.
abbrev pub Apart : Text → Groups → Type 0
Apart group groups = All (λ e. e.0 ≢ group) groups

abbrev pub Distinct : Groups → Type 0
Distinct [] = Unit {0}
Distinct ((group, what) ∷ groups) = Apart group groups × Distinct groups

abbrev pub Disjoint : Groups → Groups → Type 0
Disjoint groups others = All (λ e. Apart e.0 groups) others

-- It is the job itself, or on another server, or it writes other groups only.
abbrev pub Compatible : Text → Job → Job → Type 0
Compatible server_id job other =
    (other.id ≡ job.id)
    ⊎ ((shares_server server_id other ≡ false)
        ⊎ Disjoint (job_pbs_groups job) (job_pbs_groups other))

abbrev Passes : Result GroupError (Unit {0}) → Type 0
Passes r = r ≡ ok tt

list_ne : (a b : Text) → list_eq a b ≡ false → a ≢ b
list_ne a b miss same = false≢true (sym miss ∙ (list_eq_iff a b).1 same)

seen_before_iff :
    (group : Text) (groups : Groups) → (seen_before group groups ≡ none) ↔ Apart group groups
unfolding seen_before
seen_before_iff group [] = (λ _. tt, λ _. refl)
seen_before_iff group ((g, w) ∷ groups) = elim (Bool-cases (list_eq g group)) [
  | inl hit ↦ rw hit (
    λ gone. absurd (none-ne-some w (sym gone)),
    λ apart. absurd (apart.0 ((list_eq_iff g group).0 hit)),
  )
  | inr miss ↦ rw miss (
    λ gone. (list_ne g group miss, (seen_before_iff group groups).0 gone),
    λ apart. (seen_before_iff group groups).1 apart.1,
  )
]

-- The groups that are checked, apart from those seen so far.
abbrev Fresh : Groups → Groups → Type 0
Fresh seen groups = All (λ e. Apart e.0 seen) groups

Fresh-empty : (groups : Groups) → Fresh [] groups
Fresh-empty [] = tt
Fresh-empty (e ∷ groups) = (tt, Fresh-empty groups)

Fresh-grow :
    (seen groups : Groups) (group : Text) (what : What)
    → Fresh ((group, what) ∷ seen) groups ↔ (Apart group groups × Fresh seen groups)
Fresh-grow seen [] group what = (λ _. (tt, tt), λ _. tt)
Fresh-grow seen (e ∷ groups) group what =
    let rest = Fresh-grow seen groups group what in
    (
      λ h. ((λ same. h.0.0 (sym same), (rest.0 h.1).0), (h.0.1, (rest.0 h.1).1)),
      λ h. ((λ same. h.0.0 (sym same), h.1.0), rest.1 (h.0.1, h.1.1)),
    )

check_inside_iff :
    (seen groups : Groups)
    → Passes (check_inside seen groups) ↔ (Distinct groups × Fresh seen groups)
unfolding check_inside
check_inside_iff seen [] = (λ _. (tt, tt), λ _. refl)
check_inside_iff seen ((group, what) ∷ groups) = elim (Option-cases (seen_before group seen)) [
  | inl new ↦
      let here = (seen_before_iff group seen).0 new in
      let rest = check_inside_iff ((group, what) ∷ seen) groups in
      let grow = Fresh-grow seen groups group what in
      rw (new, check_inside)
        (
          λ h. (((grow.0 (rest.0 h).1).0, (rest.0 h).0), (here, (grow.0 (rest.0 h).1).1)),
          λ h. rest.1 (h.0.1, grow.1 (h.0.0, h.1.1)),
        )
  | inr (other, found) ↦
      rw (found, check_inside)
        (
          λ h. absurd (err≢ok h),
          λ h. absurd (none-ne-some other (sym ((seen_before_iff group seen).1 h.1.0) ∙ found)),
        )
]

check_other_iff :
    (groups : Groups) (name : Text) (others : Groups)
    → Passes (check_other groups name others) ↔ Disjoint groups others
unfolding check_other
check_other_iff groups name [] = (λ _. tt, λ _. refl)
check_other_iff groups name ((group, what) ∷ others) =
    elim (Option-cases (seen_before group groups)) [
      | inl new ↦
          let rest = check_other_iff groups name others in
          rw (new, check_other)
            (λ h. ((seen_before_iff group groups).0 new, rest.0 h), λ h. rest.1 h.1)
      | inr (what, found) ↦
          rw (found, check_other)
            (
              λ h. absurd (err≢ok h),
              λ h. absurd (none-ne-some what (sym ((seen_before_iff group groups).1 h.0) ∙ found)),
            )
    ]

Passes-bind : (r s : Result GroupError (Unit {0})) → Passes (r >>= (λ _. s)) ↔ (Passes r × Passes s)
Passes-bind (ok _) s = (λ h. (refl, h), λ h. h.1)
Passes-bind (err e) s = (λ h. absurd (err≢ok h), λ h. absurd (err≢ok h.0))

check_others_iff :
    (job : Job) (server_id : Text) (existing : List Job)
    → Passes (check_others job server_id (job_pbs_groups job) existing)
      ↔ All (Compatible server_id job) existing
unfolding check_others
check_others_iff job server_id [] = (λ _. tt, λ _. refl)
check_others_iff job server_id (other ∷ existing) = elim (Bool-cases (list_eq other.id job.id)) [
  | inl itself ↦
      let rest = check_others_iff job server_id existing in
      rw itself (λ h. (inl ((list_eq_iff other.id job.id).0 itself), rest.0 h), λ h. rest.1 h.1)
  | inr differs ↦ elim (Bool-cases (shares_server server_id other)) [
    | inr apart ↦
        let rest = check_others_iff job server_id existing in
        rw (differs, apart) (λ h. (inr (inl refl), rest.0 h), λ h. rest.1 h.1)
    | inl shares ↦
        let groups = job_pbs_groups job in
        let rest = check_others_iff job server_id existing in
        let here = check_other_iff groups other.name (job_pbs_groups other) in
        let both =
          Passes-bind (check_other groups other.name (job_pbs_groups other))
            (check_others job server_id groups existing) in
        rw (differs, shares)
          (
            λ h. (inr (inr (here.0 (both.0 h).0)), rest.0 (both.0 h).1),
            λ h. both.1 (
              here.1 (elim h.0 [
                | inl same ↦ absurd (list_ne other.id job.id differs same)
                | inr (inl apart) ↦ absurd (false≢true (sym apart))
                | inr (inr disjoint) ↦ disjoint
              ]),
              rest.1 h.1,
            ),
          )
  ]
]

-- A job for a server is accepted exactly where the groups that it writes are distinct, and every saved job is the job
-- itself by its id, is not on that server, or writes none of these groups.
pub validate_pbs_groups_iff :
    (job : Job) (existing : List Job) (server_id backup_id : Text)
    → job.destination ≡ pbs server_id backup_id
    → (validate_pbs_groups job existing ≡ ok tt)
      ↔ (Distinct (job_pbs_groups job) × All (Compatible server_id job) existing)
unfolding validate_pbs_groups
validate_pbs_groups_iff job existing server_id backup_id to_pbs =
    let inside = check_inside_iff [] (job_pbs_groups job) in
    let others = check_others_iff job server_id existing in
    let both =
      Passes-bind (check_inside [] (job_pbs_groups job))
        (check_others job server_id (job_pbs_groups job) existing) in
    let opened : validate_pbs_groups job existing ≡ (
        check_inside [] (job_pbs_groups job)
        >>= (λ _. check_others job server_id (job_pbs_groups job) existing)) =
      ap
        (λ d. elim d [
          | folder path ↦ ok tt
          | pbs s b ↦
              check_inside [] (job_pbs_groups job)
              >>= (λ _. check_others job s (job_pbs_groups job) existing)
        ])
        to_pbs in
    (
      λ h. let passed = both.0 (sym opened ∙ h) in ((inside.0 passed.0).0, others.0 passed.1),
      λ h. opened ∙ both.1 (inside.1 (h.0, Fresh-empty (job_pbs_groups job)), others.1 h.1),
    )
