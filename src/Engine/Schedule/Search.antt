-- ===== src/Engine/Schedule/Search.antt =====
-- crates/pbsgui-engine/src/scheduler.rs: what the search for the latest occurrence finds.
use pbsgui.Base.{
  Bool, Bool-cases, Option, Option-cases, ap, arith, false, inl, inr, leb, leb→le, leb→lt, none,
  some, suc, sym, true, zero, ℕ, ◌+◌, ◌<◌, ◌==◌, ◌∙◌, ◌≡◌, ◌≤◌, ◌⊎◌,
}
use mathlib.Core.Path.{subst}
use pbsgui.Engine.Protocol.{Schedule}
use pbsgui.Engine.Schedule.{
  Calendar, runs_on, local_unix, search_back, latest_occurrence, time_of_day,
}

module _ {Date Naive : Type 0} (c : Calendar Date Naive) (s : Schedule) (hour minute now : ℕ)
    (today : Date) where
  -- The schedule has an occurrence `back` days before today, at that unix time.
  abbrev pub OccursAt : ℕ → ℕ → Type 0
  OccursAt back at_time =
      (date : Date) × (c.checked_sub_days today back ≡ some date)
      × (runs_on c s date ≡ true)
      × (local_unix c date hour minute ≡ some at_time)

  -- An occurrence of that day is still to come.
  abbrev pub NotYet : ℕ → Type 0
  NotYet back = (at_time : ℕ) → OccursAt back at_time → now < at_time

  search_end :
      (left back : ℕ)
      → c.checked_sub_days today back ≡ none
      → search_back c s hour minute now today (suc left) back ≡ none
  unfolding search_back
  search_end left back e = rw (e, search_back)

  search_skip :
      (left back : ℕ) (date : Date)
      → c.checked_sub_days today back ≡ some date
      → runs_on c s date ≡ false
      → search_back c s hour minute now today (suc left) back
        ≡ search_back c s hour minute now today left (back + 1)
  unfolding search_back
  search_skip left back date e off = rw (e, off, search_back)

  search_lost :
      (left back : ℕ) (date : Date)
      → c.checked_sub_days today back ≡ some date
      → runs_on c s date ≡ true
      → local_unix c date hour minute ≡ none
      → search_back c s hour minute now today (suc left) back ≡ none
  unfolding search_back
  search_lost left back date e on lost = rw (e, on, lost, search_back)

  search_hit :
      (left back at_time : ℕ) (date : Date)
      → c.checked_sub_days today back ≡ some date
      → runs_on c s date ≡ true
      → local_unix c date hour minute ≡ some at_time
      → leb at_time now ≡ true
      → search_back c s hour minute now today (suc left) back ≡ some (at_time, back == 0)
  unfolding search_back
  search_hit left back at_time date e on found passed = rw (e, on, found, passed, search_back)

  search_later :
      (left back at_time : ℕ) (date : Date)
      → c.checked_sub_days today back ≡ some date
      → runs_on c s date ≡ true
      → local_unix c date hour minute ≡ some at_time
      → leb at_time now ≡ false
      → search_back c s hour minute now today (suc left) back
        ≡ search_back c s hour minute now today left (back + 1)
  unfolding search_back
  search_later left back at_time date e on found future = rw (e, on, found, future, search_back)

  -- What the search answers: an occurrence up to now, after which no day has one up to now.
  pub record IsLatest (first limit at_time : ℕ) (is_today : Bool) : Type 0 where
    pub back : ℕ
    pub back_first : first ≤ back
    pub back_limit : back < limit
    pub occurs : OccursAt back at_time
    pub passed : at_time ≤ now
    pub is_today_iff : is_today ≡ (back == 0)
    pub none_between : (j : ℕ) → first ≤ j → j < back → NotYet j

  IsLatest-later :
      (first limit at_time : ℕ) (is_today : Bool)
      → NotYet first
      → IsLatest (first + 1) limit at_time is_today
      → IsLatest first limit at_time is_today
  IsLatest-later first limit at_time is_today not_yet l = record {
    back = l.back;
    back_first = (let b = l.back_first in omega arith);
    back_limit = l.back_limit;
    occurs = l.occurs;
    passed = l.passed;
    is_today_iff = l.is_today_iff;
    none_between = λ j low high. elim (eq_or_above first j low) [
      | inl same ↦ subst NotYet same not_yet
      | inr above ↦ l.none_between j above high
    ];
  }
    where
      eq_or_above : (a b : ℕ) → a ≤ b → (a ≡ b) ⊎ (a + 1 ≤ b)
      eq_or_above a b le = omega arith

  -- Two occurrences of one day are the same.
  occurs_same :
      (back a b : ℕ) (date : Date)
      → c.checked_sub_days today back ≡ some date
      → local_unix c date hour minute ≡ some a
      → OccursAt back b
      → a ≡ b
  occurs_same back a b date day found (other, day2, on2, found2) =
      let same : date ≡ other = cc in
      let found3 : local_unix c date hour minute ≡ some b = rw (same, found2) in cc

  pub search_back-IsLatest :
      (left back at_time : ℕ) (is_today : Bool)
      → search_back c s hour minute now today left back ≡ some (at_time, is_today)
      → IsLatest back (back + left) at_time is_today
  unfolding search_back
  search_back-IsLatest zero back at_time is_today e = cc
  search_back-IsLatest (suc left) back at_time is_today e =
      let step : back + suc left ≡ back + 1 + left = omega arith in
      let deeper : NotYet back
          → search_back c s hour minute now today left (back + 1) ≡ some (at_time, is_today)
          → IsLatest back (back + suc left) at_time is_today =
        λ not_yet e2. IsLatest-later back (back + suc left) at_time is_today not_yet (
          subst (λ n. IsLatest (back + 1) n at_time is_today) (sym step)
            (search_back-IsLatest left (back + 1) at_time is_today e2)) in
      elim (Option-cases (c.checked_sub_days today back)) [
        | inl ended ↦ absurd (none_some (sym (search_end left back ended) ∙ e))
        | inr (date, day) ↦ elim (Bool-cases (runs_on c s date)) [
          | inr off ↦
              deeper (λ t occ. absurd (off_on back t date day off occ))
                (sym (search_skip left back date day off) ∙ e)
          | inl on ↦ elim (Option-cases (local_unix c date hour minute)) [
            | inl lost ↦ absurd (none_some (sym (search_lost left back date day on lost) ∙ e))
            | inr (t, found) ↦ elim (Bool-cases (leb t now)) [
              | inr future ↦
                  deeper
                    (λ t2 occ.
                      subst (λ u. now < u) (occurs_same back t t2 date day found occ)
                        (leb→lt t now future))
                    (sym (search_later left back t date day on found future) ∙ e)
              | inl due ↦
                  let answer : (t, back == 0) ≡ (at_time, is_today) =
                    some-injective (sym (search_hit left back t date day on found due) ∙ e) in
                  found_at left back t at_time is_today (date, day, on, found) (leb→le t now due)
                    (ap (λ r. r.0) answer) (ap (λ r. r.1) answer)
            ]
          ]
        ]
      ]
    where
      none_some : {A : Type 0} {a : A} → ¬ (◌≡◌ {A = Option A} none (some a))
      none_some e = cc

      some-injective : {A : Type 0} {a b : A} → ◌≡◌ {A = Option A} (some a) (some b) → a ≡ b
      some-injective e = cc

      off_on :
          (back t : ℕ) (date : Date)
          → c.checked_sub_days today back ≡ some date
          → runs_on c s date ≡ false
          → ¬ OccursAt back t
      off_on back t date day off (other, day2, on2, found2) =
          let same : other ≡ date = cc in
          let off2 : runs_on c s other ≡ false = rw (same, off) in cc

      found_at :
          (left back t at_time : ℕ) (is_today : Bool)
          → OccursAt back t
          → t ≤ now
          → t ≡ at_time
          → (back == 0) ≡ is_today
          → IsLatest back (back + suc left) at_time is_today
      found_at left back t at_time is_today occ le same today_same = record {
        back = back;
        back_first = omega arith;
        back_limit = omega arith;
        occurs = subst (OccursAt back) same occ;
        passed = subst (λ u. u ≤ now) same le;
        is_today_iff = sym today_same;
        none_between = λ j low high. absurd (omega arith);
      }

-- The occurrence that is answered is one of the schedule's, on one of the last 63 days, not after now; every later day
-- up to today has no occurrence up to now; and the flag says that its day is today.
pub latest_occurrence-IsLatest :
    {Date Naive : Type 0} (c : Calendar Date Naive) (s : Schedule) (hour minute now at_time : ℕ)
    (today : Date) (is_today : Bool)
    → time_of_day s ≡ some (hour, minute)
    → c.date_at now ≡ some today
    → latest_occurrence c s now ≡ some (at_time, is_today)
    → IsLatest c s hour minute now today 0 63 at_time is_today
unfolding latest_occurrence
latest_occurrence-IsLatest c s hour minute now at_time today is_today timed day e =
    search_back-IsLatest c s hour minute now today 63 0 at_time is_today
      (sym (rw (timed, day, latest_occurrence)) ∙ e)
