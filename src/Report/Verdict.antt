-- ===== src/Report/Verdict.antt =====
-- The conformance level of the report.
use ojs_conformance.Common.{
  ℕ, suc, ◌+◌, ◌≤◌, ◌<◌, Text, ℤ, pos, negsuc, true, false, ◌&&◌, &&_iff, subst, eq_ℤ_iff, List, [],
  ◌∷◌, Option, none, some, some_inj, ◌≡◌, refl, sym, ap, ◌∙◌, arith, ◌==◌, ltb, zero, ==_iff,
  if◌then◌else◌, All, Bool-cases, Option-cases, inl, inr,
}
use ojs_conformance.Schema.{TestResult, LevelSummary}
use ojs_conformance.Report.{
  LevelMap, lookup, insert, level_or_zero, is_clean, level_loop, levels, build_report,
}
use ojs_conformance.Report.Counts.{
  is_failing, lookup-insert, number_at, count_results-level, before, after,
}

none-ne-some : {A : Type 0} {a : A} → none ≡ some a → ⊥
none-ne-some e = cc

-- What a level leads to: nothing yet, the result of going on from it, or the end of the loop.
pick : Option LevelSummary → ℤ → ℤ → ℤ → ℤ
pick none skipped reached found = skipped
pick (some s) skipped reached found = if is_clean s && ltb 0 s.total then reached else found

-- The level that the loop finds, read off the map that it starts with.
pub found_level : List ℕ → LevelMap → ℤ → ℤ
unfolding pick
found_level [] m found = found
found_level (l ∷ ls) m found =
    pick (lookup (pos l) m) (found_level ls m found) (found_level ls m (pos l)) found

-- The levels are in order, and above the one found so far.
abbrev Ascending : ℕ → List ℕ → Type 0
Ascending n [] = Unit
Ascending n (l ∷ ls) = (n ≤ l) × Ascending (suc l) ls

Ascending-mono : (a b : ℕ) (ls : List ℕ) → a ≤ b → Ascending b ls → Ascending a ls
Ascending-mono a b [] h o = tt
Ascending-mono a b (l ∷ ls) h o = (omega arith, o.1)

-- Two maps say the same of these levels.
abbrev Same : LevelMap → LevelMap → List ℕ → Type 0
Same m m' = All (λ l. lookup (pos l) m ≡ lookup (pos l) m')

found_level-Same :
    (ls : List ℕ) (m m' : LevelMap) (found : ℤ)
    → Same m m' ls
    → found_level ls m found ≡ found_level ls m' found
unfolding found_level
found_level-Same [] m m' found h = refl
found_level-Same (l ∷ ls) m m' found h =
    rw (h.0, found_level-Same ls m m' found h.1, found_level-Same ls m m' (pos l) h.1)

insert-Same :
    (l a : ℕ) (s : LevelSummary) (m : LevelMap) (ls : List ℕ)
    → l < a
    → Ascending a ls
    → Same (insert (pos l) s m) m ls
insert-Same l a s m [] h o = tt
insert-Same l a s m (k ∷ ls) h o = (
  ground (arith, lookup-insert (pos k) (pos l) s m),
  insert-Same l (suc k) s m ls (omega arith) o.1,
)

level_loop-found_level :
    (a : ℕ) (ls : List ℕ) (m : LevelMap) (found : ℤ)
    → Ascending a ls
    → (level_loop ls m found).1 ≡ found_level ls m found
unfolding level_loop found_level
level_loop-found_level a [] m found o = refl
level_loop-found_level a (l ∷ ls) m found o = elim (Option-cases (lookup (pos l) m)) [
  | inl e ↦ rw (e, level_loop, found_level) (level_loop-found_level (suc l) ls m found o.1)
  | inr (s, e) ↦ elim (Bool-cases (is_clean s && ltb 0 s.total)) [
    | inr c ↦ rw (e, c, level_loop, found_level)
    | inl c ↦
        let m' = insert (pos l) (record s { all_pass = is_clean s }) m in
        rw (e, c, level_loop, found_level)
          (level_loop-found_level (suc l) ls m' (pos l) o.1
            ∙ found_level-Same ls m' m (pos l) (insert-Same l (suc l) _ m ls (omega arith) o.1))
  ]
]

-- A level that no failing result belongs to, so far as the map tells.
abbrev Clean : LevelMap → ℕ → Type 0
Clean m k = (s : LevelSummary) → lookup (pos k) m ≡ some s → is_clean s ≡ true

Clean-above :
    (a : ℕ) (ls : List ℕ) (m : LevelMap) (top : ℕ)
    → Ascending a ls
    → top < a
    → All (λ k. k ≤ top → Clean m k) ls
Clean-above a [] m top o b = tt
Clean-above a (l ∷ ls) m top o b =
    ((λ h s d. absurd (omega arith)), Clean-above (suc l) ls m top o.1 (omega arith))

found_level-Clean :
    (a : ℕ) (ls : List ℕ) (m : LevelMap) (found : ℤ) (top : ℕ)
    → Ascending a ls
    → (found ≡ pos top → top < a)
    → found_level ls m found ≡ pos top
    → All (λ k. k ≤ top → Clean m k) ls
unfolding found_level
found_level-Clean a [] m found top o b e = tt
found_level-Clean a (l ∷ ls) m found top o b e = elim (Option-cases (lookup (pos l) m)) [
  | inl q ↦ (
    (λ h s d. absurd (none-ne-some (sym q ∙ d))),
    found_level-Clean (suc l) ls m found top o.1 (λ f. omega (arith, b f)) (rw q at e),
  )
  | inr (s, q) ↦ elim (Bool-cases (is_clean s && ltb 0 s.total)) [
    | inl c ↦ (
      (λ h s' d. subst (λ x. is_clean x ≡ true) (some_inj (sym q ∙ d)) (((&&_iff _ _).0 c).0)),
      found_level-Clean (suc l) ls m (pos l) top o.1 (λ f. ground arith) (rw (q, c) at e),
    )
    | inr c ↦ Clean-above a (l ∷ ls) m top o (b (rw (q, c) at e))
  ]
]

found_level-le :
    (ls : List ℕ) (m : LevelMap) (found : ℤ) (top : ℕ)
    → All (λ k. k ≤ 4) ls
    → (found ≡ pos top → top ≤ 4)
    → found_level ls m found ≡ pos top
    → top ≤ 4
unfolding found_level
found_level-le [] m found top a b e = b e
found_level-le (l ∷ ls) m found top a b e = elim (Option-cases (lookup (pos l) m)) [
  | inl q ↦ found_level-le ls m found top a.1 b (rw q at e)
  | inr (s, q) ↦ elim (Bool-cases (is_clean s && ltb 0 s.total)) [
    | inl c ↦ found_level-le ls m (pos l) top a.1 (λ f. ground arith) (rw (q, c) at e)
    | inr c ↦ b (rw (q, c) at e)
  ]
]

select : (P : ℕ → Type 0) → All P levels → (k : ℕ) → k ≤ 4 → P k
select P h zero b = h.0
select P h (suc zero) b = h.1.0
select P h (suc (suc zero)) b = h.1.1.0
select P h (suc (suc (suc zero))) b = h.1.1.1.0
select P h (suc (suc (suc (suc zero)))) b = h.1.1.1.1.0
select P h (suc (suc (suc (suc (suc k))))) b = absurd (omega arith)

-- The results that count against a level.
abbrev bad : LevelSummary → ℕ
bad s = s.failed + s.errored

module _ {Num : Type 0} where
  -- Every result at a level up to `top` passed or was skipped.
  abbrev pub NoFailure : ℕ → List (TestResult Num) → Type 0
  NoFailure top = All (λ r. (k : ℕ) → r.level ≡ pos k → k ≤ top → is_failing r.status ≡ false)

  number_at-NoFailure :
      (top : ℕ) (rs : List (TestResult Num))
      → ((k : ℕ) → k ≤ top → number_at (pos k) is_failing rs ≡ 0)
      → NoFailure top rs
  number_at-NoFailure top [] h = tt
  number_at-NoFailure top (r ∷ rs) h = (
    (λ k e below. ground (arith, h k below, eq_ℤ_iff r.level (pos k))),
    number_at-NoFailure top rs (λ k below. omega (arith, h k below)),
  )

  level_zero :
      (k : ℕ) (rs : List (TestResult Num))
      → Clean (after rs).summary.by_level k
      → number_at (pos k) is_failing rs ≡ 0
  unfolding lookup
  level_zero k rs c = elim (Option-cases (lookup (pos k) ((after rs).summary.by_level))) [
    | inl e ↦ omega (arith, ap bad (ap level_or_zero e), count_results-level (pos k) rs (before rs))
    | inr (s, e) ↦
        let clean = (&&_iff (s.failed == 0) (s.errored == 0)).0 (c s e) in
        omega (
          arith,
          ap bad (ap level_or_zero e),
          (==_iff s.failed 0).0 (clean.0),
          (==_iff s.errored 0).0 (clean.1),
          count_results-level (pos k) rs (before rs),
        )
  ]

  -- If the report gives the level `top`, then this is one of the levels 0 to 4, and no result of a
  -- level from 0 to `top` has the status "fail" or "error".
  pub build_report-level :
      (rs : List (TestResult Num)) (target : Text) (level : ℤ) (top : ℕ)
      → (build_report rs target level).conformant_level ≡ pos top
      → (top ≤ 4) × NoFailure top rs
  unfolding build_report
  build_report-level rs target level top e =
      let m = (after rs).summary.by_level in
      let found = sym (level_loop-found_level 0 levels m (negsuc 0) (omega arith)) ∙ e in
      let clean = found_level-Clean 0 levels m (negsuc 0) top (omega arith) (λ f. cc) found in
      let bound = found_level-le levels m (negsuc 0) top (omega arith) (λ f. cc) found in
      (
        bound,
        number_at-NoFailure top rs
            (λ k h. level_zero k rs (select (λ j. j ≤ top → Clean m j) clean k (omega arith) h)),
      )
