-- ===== src/Shifts/Calendar/Occurrences.antt =====
-- Which occurrences the calendar shows, and that its loop ends.
use clustr_be.Base.{
  ◌∙◌, sym, ap, ℕ, zero, suc, ◌+◌, ◌-◌, ◌*◌, ◌/◌, ◌≤◌, ◌<◌, ◌≡◌, ◌⊎◌, ◌↔◌, refl, true, Option, none,
  some, [], ◌∷◌, arith, ltb, leb, if◌then◌else◌, contains, inl, inr, Bool-cases,
}
use clustr_be.Shifts.Calendar.{
  Pattern, Python, daily, weekly, biweekly, monthly, unknown, date, days, fast_forward, next_month,
  next_occurrence, occurrences, enough, CalendarShift, expand,
}

-- The months are numbered from 1 to 12, and a day of a later month is a later date.
pub record IsForward (py : Python) : Type 0 where
  pub months : (t : ℕ) → (1 ≤ py.month t) × (py.month t ≤ 12)
  pub later :
      (t y m d : ℕ)
      → (py.year t < y) ⊎ ((py.year t ≡ y) × (py.month t < m))
      → date t < date (py.replace t y m d)

next_month_later : (py : Python) (t : ℕ) → IsForward py → date t < date (next_month py t)
unfolding next_month
next_month_later py t f =
    let (lo, hi) = f.months t in
    f.later t _ _ _ (elim (Bool-cases (leb 12 (py.month t))) [
      | inl h ↦ inl (ground arith)
      | inr h ↦ inr (ground arith, ground arith)
    ])

date_days : (t n : ℕ) → date (t + days n) ≡ date t + n
date_days t n = omega arith

-- One round later less fuel is enough.
next_enough :
    (py : Python) (p : Pattern) (t t' : ℕ)
    → IsForward py
    → next_occurrence py p t ≡ some t'
    → date t < date t'
next_enough py daily t t' f e = ground (arith, date_days t 1)
next_enough py weekly t t' f e = ground (arith, date_days t 7)
next_enough py biweekly t t' f e = ground (arith, date_days t 14)
next_enough py monthly t t' f e = ground (arith, next_month_later py t f)
next_enough py unknown t t' f e = ground arith

Option-cases : (o : Option ℕ) → (o ≡ none) ⊎ ((t : ℕ) × (o ≡ some t))
Option-cases none = inl refl
Option-cases (some t) = inr (t, refl)

-- The loop of the calendar ends, where a later month has later dates: after as many rounds as days
-- are left to the end of the range it has left by its condition or its `break`, and more rounds
-- than these change nothing.
pub occurrences-enough :
    (py : Python) (p : Pattern) (start_date end_date fuel t : ℕ)
    → IsForward py
    → enough end_date t ≤ fuel
    → ((occurrences py p start_date end_date fuel t).0 ≡ true)
      × (occurrences py p start_date end_date (suc fuel) t
          ≡ occurrences py p start_date end_date fuel t)
unfolding occurrences
occurrences-enough py p start_date end_date zero t w h = (ground arith, ground arith)
occurrences-enough py p start_date end_date (suc fuel) t w h =
    elim (Bool-cases (leb (date t) end_date)) [
      | inl more ↦ elim (Option-cases (next_occurrence py p t)) [
        | inl e ↦ rw (e, more) (refl, refl)
        | inr (t', e) ↦
            let l = next_enough py p t t' w e in
            let (ends, same) =
              occurrences-enough py p start_date end_date fuel t' w (ground arith) in
            rw (e, more, same) (ends, refl)
      ]
      | inr over ↦ rw over (refl, refl)
    ]

-- The days between two occurrences; none where they vary.
abbrev pub step : Pattern → Option ℕ
step daily = some 1
step weekly = some 7
step biweekly = some 14
step monthly = none
step unknown = none

next-step :
    (py : Python) (p : Pattern) (d t : ℕ)
    → step p ≡ some d
    → next_occurrence py p t ≡ some (t + days d)
next-step py daily d t e = ground arith
next-step py weekly d t e = ground arith
next-step py biweekly d t e = ground arith
next-step py monthly d t e = cc
next-step py unknown d t e = cc

steps_suc : (d k t : ℕ) → (t + days d) + days (d * k) ≡ t + days (d * suc k)
steps_suc d k t = grind arith

-- One round of the loop, where the steps are even.
occurrences_round :
    (py : Python) (p : Pattern) (start_date end_date d fuel t : ℕ)
    → step p ≡ some d
    → (occurrences py p start_date end_date (suc fuel) t).1 ≡ (
        let rest = (occurrences py p start_date end_date fuel (t + days d)).1 in
        if leb (date t) end_date then (if leb start_date (date t) then t ∷ rest else rest) else [])
unfolding occurrences
occurrences_round py p start_date end_date d fuel t e = rw (next-step py p d t e) (ground arith)

-- Every start that the loop finds is a number of steps away, and in the range.
occurrences_sound :
    (py : Python) (p : Pattern) (start_date end_date d fuel t u : ℕ)
    → step p ≡ some d
    → contains u (occurrences py p start_date end_date fuel t).1 ≡ true
    → (k : ℕ) × (u ≡ t + days (d * k)) × (start_date ≤ date u) × (date u ≤ end_date)
unfolding occurrences
occurrences_sound py p start_date end_date d zero t u e h = cc
occurrences_sound py p start_date end_date d (suc fuel) t u e h =
    let rest = (occurrences py p start_date end_date fuel (t + days d)).1 in
    let h' = rw (occurrences_round py p start_date end_date d fuel t e) at h in
    elim (Bool-cases (contains u rest)) [
      | inl later ↦
          let (k, eu, lo, hi) =
            occurrences_sound py p start_date end_date d fuel (t + days d) u e later in
          (suc k, eu ∙ steps_suc d k t, lo, hi)
      | inr here ↦ (0, ground arith, ground arith, ground arith)
    ]

-- With enough rounds it finds all of them.
occurrences_complete :
    (py : Python) (p : Pattern) (start_date end_date d fuel t u k : ℕ)
    → step p ≡ some d
    → 0 < d
    → u ≡ t + days (d * k)
    → start_date ≤ date u
    → date u ≤ end_date
    → enough end_date t ≤ fuel
    → contains u (occurrences py p start_date end_date fuel t).1 ≡ true
occurrences_complete py p start_date end_date d zero t u k e pos eu lo hi h =
    absurd (grind (arith, date_days t (d * k)))
occurrences_complete py p start_date end_date d (suc fuel) t u zero e pos eu lo hi h =
    rw (occurrences_round py p start_date end_date d fuel t e) (ground arith)
occurrences_complete py p start_date end_date d (suc fuel) t u (suc k) e pos eu lo hi h =
    let eu' : u ≡ (t + days d) + days (d * k) = eu ∙ sym (steps_suc d k t) in
    let far = date_days (t + days d) (d * k) in
    let near = date_days t d in
    let ih : contains u (occurrences py p start_date end_date fuel (t + days d)).1 ≡ true =
      occurrences_complete py p start_date end_date d fuel (t + days d) u k e pos eu' lo hi
        (omega arith) in
    rw (occurrences_round py p start_date end_date d fuel t e) (ground arith)

-- The jump is a number of steps, and does not pass the start of the range.
fast_forward_steps :
    (p : Pattern) (d start_date t : ℕ)
    → step p ≡ some d
    → (j : ℕ) × (fast_forward p start_date t ≡ t + days (d * j))
      × ((j ≡ 0) ⊎ (date t + d * j ≤ start_date))
unfolding fast_forward
fast_forward_steps p d start_date t e = elim (Bool-cases (ltb (date t) start_date)) [
  | inr near ↦ (0, ground arith, inl refl)
  | inl far ↦ jump p far e
]
  where
    jump :
        (q : Pattern)
        → ltb (date t) start_date ≡ true
        → step q ≡ some d
        → (j : ℕ) × (fast_forward q start_date t ≡ t + days (d * j))
          × ((j ≡ 0) ⊎ (date t + d * j ≤ start_date))
    jump daily far e = (start_date - date t, ground arith, inr (ground arith))
    jump weekly far e = ((start_date - date t) / 7, ground arith, inr (ground arith))
    jump biweekly far e = ((start_date - date t) / 14, ground arith, inr (ground arith))
    jump monthly far e = cc
    jump unknown far e = cc

step_pos : (p : Pattern) (d : ℕ) → step p ≡ some d → 0 < d
step_pos p d e = ground arith

steps_add : (d j k t : ℕ) → (t + days (d * j)) + days (d * k) ≡ t + days (d * (j + k))
steps_add d j k t = grind arith

steps_le : (p : Pattern) (d j k : ℕ) → step p ≡ some d → d * j ≤ d * k → j ≤ k
steps_le daily d j k e h = ground arith
steps_le weekly d j k e h = ground arith
steps_le biweekly d j k e h = ground arith
steps_le monthly d j k e h = cc
steps_le unknown d j k e h = cc

module _ (py : Python) (c : CalendarShift) (d start_date end_date u : ℕ) where
  -- What the jump leaves is what the range leaves of all occurrences.
  expand_complete :
      step c.recurrence_pattern ≡ some d
      → (k : ℕ) → u ≡ c.shift.start_time + days (d * k)
      → start_date ≤ date u
      → date u ≤ end_date
      → contains u (expand py start_date end_date c) ≡ true
  unfolding expand
  expand_complete e k eu lo hi =
      let p = c.recurrence_pattern in
      let t = c.shift.start_time in
      let (j, ef, jumped) = fast_forward_steps p d start_date t e in
      let far = date_days t (d * k) in
      let j-le-k : j ≤ k = elim jumped [
        | inl z ↦ omega arith
        | inr le ↦ steps_le p d j k e (omega (arith, ap date eu))
      ] in
      let split : u ≡ (t + days (d * j)) + days (d * (k - j)) =
        eu ∙ ap (λ m. t + days (d * m)) (omega arith) ∙ sym (steps_add d j (k - j) t) in
      rw (ef, expand)
        (occurrences_complete py p start_date end_date d _ (t + days (d * j)) u (k - j) e
          (step_pos p d e) split lo hi (omega arith))

  -- A recurring shift with an even step (daily, weekly or biweekly) is shown at a start exactly when
  -- the start is a number of steps after the shift's own and its date is in the range: the jump
  -- and the loop together skip no occurrence and invent none.
  pub expand_lem :
      step c.recurrence_pattern ≡ some d
      → (contains u (expand py start_date end_date c) ≡ true) ↔ (
          (k : ℕ) × (u ≡ c.shift.start_time + days (d * k))
          × (start_date ≤ date u)
          × (date u ≤ end_date))
  unfolding expand
  expand_lem e = (
    λ h.
        let p = c.recurrence_pattern in
        let t = c.shift.start_time in
        let (j, ef, jumped) = fast_forward_steps p d start_date t e in
        let (k, eu, lo, hi) =
          occurrences_sound py p start_date end_date d _ (fast_forward p start_date t) u e h in
        (j + k, eu ∙ ap (λ m. m + days (d * k)) ef ∙ steps_add d j k t, lo, hi),
    λ (k, eu, lo, hi). expand_complete e k eu lo hi,
  )
