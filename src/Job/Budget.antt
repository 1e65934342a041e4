-- ===== src/Job/Budget.antt =====
-- `JobBudget` of platform/app/job_envelope.py, whose values Python checks at run time.
use study_assistance_agent.Prelude.{ℕ, ◌*◌, ◌≤◌, ◌≡◌, refl, subst, arith, if◌then◌else◌, leb}
use study_assistance_agent.Exec.{Code, Result, ok, err, job_budget_invalid}

-- A value that a caller may pass: an integer from 0 on, a finite float from 0 on in millionths, and
-- the values that every field refuses.
pub data Setting : Type 0 where
  whole millionths : ℕ → Setting
  below_zero flag infinite not_a_number other : Setting

-- The seven arguments.
pub record Settings : Type 0 where
  pub wall_clock_seconds : Setting
  pub cpu_seconds : Setting
  pub disk_bytes : Setting
  pub concurrency : Setting
  pub retention_seconds : Setting
  pub ai_tokens : Setting
  pub ai_cost_usd : Setting

-- A budget that was accepted, the durations and the cost in millionths.
pub record JobBudget : Type 0 where
  pub wall_clock : ℕ
  pub cpu : ℕ
  pub disk_bytes : ℕ
  pub concurrency : ℕ
  pub retention_seconds : ℕ
  pub ai_tokens : ℕ
  pub ai_cost : ℕ

-- The frozen defaults.
abbrev pub defaults : JobBudget
defaults = record {
  wall_clock = 60 * 1000000;
  cpu = 30 * 1000000;
  disk_bytes = 64 * 1024 * 1024;
  concurrency = 1;
  retention_seconds = 24 * 60 * 60;
  ai_tokens = 0;
  ai_cost = 0;
}

abbrev pub within : ℕ → ℕ → Result ℕ
within ceiling n = if leb n ceiling then ok n else err job_budget_invalid

-- The first loop of `__post_init__`, for one field.
unfoldable pub real_setting : ℕ → Setting → Result ℕ
real_setting ceiling (whole n) = within ceiling (n * 1000000)
real_setting ceiling (millionths n) = within ceiling n
real_setting ceiling _ = err job_budget_invalid

-- The second loop.
unfoldable pub whole_setting : ℕ → Setting → Result ℕ
whole_setting ceiling (whole n) = within ceiling n
whole_setting ceiling _ = err job_budget_invalid

abbrev pub after {ℓ κ} : {A : Type ℓ} {B : Type κ} → Result A → (A → Result B) → Result B
after (ok a) f = f a
after (err c) f = err c

unfoldable pub make_budget : Settings → Result JobBudget
unfolding real_setting whole_setting
make_budget s = after (real_setting defaults.wall_clock s.wall_clock_seconds) (λ wall.
    after (real_setting defaults.cpu s.cpu_seconds) (λ cpu.
      after (real_setting defaults.ai_cost s.ai_cost_usd) (λ cost.
        after (whole_setting defaults.disk_bytes s.disk_bytes) (λ disk.
          after (whole_setting defaults.concurrency s.concurrency) (λ concurrency.
            after (whole_setting defaults.retention_seconds s.retention_seconds) (λ retention.
              after (whole_setting defaults.ai_tokens s.ai_tokens) (λ tokens. ok (record {
                wall_clock = wall;
                cpu = cpu;
                disk_bytes = disk;
                concurrency = concurrency;
                retention_seconds = retention;
                ai_tokens = tokens;
                ai_cost = cost;
              }))))))))

-- No field is above its frozen default.
pub record IsTightened (b : JobBudget) : Type 0 where
  pub wall_clock : b.wall_clock ≤ defaults.wall_clock
  pub cpu : b.cpu ≤ defaults.cpu
  pub disk_bytes : b.disk_bytes ≤ defaults.disk_bytes
  pub concurrency : b.concurrency ≤ defaults.concurrency
  pub retention_seconds : b.retention_seconds ≤ defaults.retention_seconds
  pub ai_tokens : b.ai_tokens ≤ defaults.ai_tokens
  pub ai_cost : b.ai_cost ≤ defaults.ai_cost

err_ok {ℓ} : {A : Type ℓ} (c : Code) (a : A) → err c ≡ ok a → ⊥
err_ok c a h = ground arith

ok_same {ℓ} : {A : Type ℓ} (a b : A) → ok a ≡ ok b → a ≡ b
ok_same a b h = cc h

within-bound : (ceiling n m : ℕ) → within ceiling n ≡ ok m → m ≤ ceiling
within-bound ceiling n m h = ground arith

real_setting-bound :
    (ceiling : ℕ) (s : Setting) (m : ℕ) → real_setting ceiling s ≡ ok m → m ≤ ceiling
unfolding real_setting
real_setting-bound ceiling (whole n) m h = within-bound ceiling (n * 1000000) m h
real_setting-bound ceiling (millionths n) m h = within-bound ceiling n m h
real_setting-bound ceiling below_zero m h = absurd (err_ok _ m h)
real_setting-bound ceiling flag m h = absurd (err_ok _ m h)
real_setting-bound ceiling infinite m h = absurd (err_ok _ m h)
real_setting-bound ceiling not_a_number m h = absurd (err_ok _ m h)
real_setting-bound ceiling other m h = absurd (err_ok _ m h)

whole_setting-bound :
    (ceiling : ℕ) (s : Setting) (m : ℕ) → whole_setting ceiling s ≡ ok m → m ≤ ceiling
unfolding whole_setting
whole_setting-bound ceiling (whole n) m h = within-bound ceiling n m h
whole_setting-bound ceiling (millionths n) m h = absurd (err_ok _ m h)
whole_setting-bound ceiling below_zero m h = absurd (err_ok _ m h)
whole_setting-bound ceiling flag m h = absurd (err_ok _ m h)
whole_setting-bound ceiling infinite m h = absurd (err_ok _ m h)
whole_setting-bound ceiling not_a_number m h = absurd (err_ok _ m h)
whole_setting-bound ceiling other m h = absurd (err_ok _ m h)

after-ok {ℓ κ} :
    {A : Type ℓ} {B : Type κ} (r : Result A) (f : A → Result B) (b : B)
    → after r f ≡ ok b
    → (a : A) × (r ≡ ok a) × (f a ≡ ok b)
after-ok (ok a) f b h = (a, refl, h)
after-ok (err c) f b h = absurd (err_ok c b h)

-- A budget that is accepted is within the frozen defaults in every field, whatever the caller passes:
-- budgets are only ever tightened.
pub make_budget-IsTightened : (s : Settings) (b : JobBudget) → make_budget s ≡ ok b → IsTightened b
unfolding make_budget
make_budget-IsTightened s b h =
    let (wall, wall_set, h1) =
      after-ok (real_setting defaults.wall_clock s.wall_clock_seconds) _ b h in
    let (cpu, cpu_set, h2) = after-ok (real_setting defaults.cpu s.cpu_seconds) _ b h1 in
    let (cost, cost_set, h3) = after-ok (real_setting defaults.ai_cost s.ai_cost_usd) _ b h2 in
    let (disk, disk_set, h4) = after-ok (whole_setting defaults.disk_bytes s.disk_bytes) _ b h3 in
    let (slots, slots_set, h5) =
      after-ok (whole_setting defaults.concurrency s.concurrency) _ b h4 in
    let (kept, kept_set, h6) =
      after-ok (whole_setting defaults.retention_seconds s.retention_seconds) _ b h5 in
    let (tokens, tokens_set, h7) = after-ok (whole_setting defaults.ai_tokens s.ai_tokens) _ b h6 in
    let made : IsTightened (record {
      wall_clock = wall;
      cpu = cpu;
      disk_bytes = disk;
      concurrency = slots;
      retention_seconds = kept;
      ai_tokens = tokens;
      ai_cost = cost;
    }) =
      record {
        wall_clock = real_setting-bound _ s.wall_clock_seconds wall wall_set;
        cpu = real_setting-bound _ s.cpu_seconds cpu cpu_set;
        disk_bytes = whole_setting-bound _ s.disk_bytes disk disk_set;
        concurrency = whole_setting-bound _ s.concurrency slots slots_set;
        retention_seconds = whole_setting-bound _ s.retention_seconds kept kept_set;
        ai_tokens = whole_setting-bound _ s.ai_tokens tokens tokens_set;
        ai_cost = real_setting-bound _ s.ai_cost_usd cost cost_set;
      } in
    subst IsTightened (ok_same _ b h7) made
