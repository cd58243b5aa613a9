-- ===== src/Integrity/Report.antt =====
-- The report of the gaps: the loop over the series of `Integrity::execute`. A time is the number of
-- its clock ticks, and a line of a report the two times that it shows. Both files are open, and what
-- is written to them arrives.
use mashroom.Common.{◌≡◌, refl, arith, not, ◌&&◌, Bool, true, List, [], ◌∷◌, ◌++◌, if◌then◌else◌}
use mashroom.Common.Int.{ℤ, ltb_ℤ}

-- A series of times, and the bounds of the period that it is held against.
pub record Series : Type 0 where
  pub from : ℤ
  pub to : ℤ
  pub beg_period : ℤ
  pub end_period : ℤ

pub record Logs : Type 0 where
  pub missing : List (ℤ × ℤ)
  pub accessible : List (ℤ × ℤ)

-- `done` is NONE.
pub data ErrorCode : Type 0 where
  done integrity_violated : ErrorCode

abbrev pub log_missing : ℤ → ℤ → Logs → Logs
log_missing a b l = record l { missing = l.missing ++ (a, b) ∷ [] }

abbrev pub log_accessible : ℤ → ℤ → Logs → Logs
log_accessible a b l = record l { accessible = l.accessible ++ (a, b) ∷ [] }

unfoldable pub log_gaps : Series → Logs → Logs
log_gaps s l =
    if not (ltb_ℤ s.beg_period s.from)
    then (if ltb_ℤ s.to s.end_period
        then log_accessible s.from s.to l
        else log_missing s.to s.end_period l)
    else let late = log_missing s.beg_period s.from l in
      if ltb_ℤ s.to s.end_period then log_missing s.to s.end_period late else late

unfoldable pub log_all : List Series → Logs → Logs
log_all [] l = l
log_all (s ∷ ss) l = log_all ss (log_accessible s.from s.to (log_gaps s l))

abbrev pub code_of : List (ℤ × ℤ) → ErrorCode
code_of [] = done
code_of (x ∷ xs) = integrity_violated

-- `tellp() > 0`: each line has a character at least.
unfoldable pub report : List Series → ErrorCode × Logs
report ss = let l = log_all ss (record { missing = []; accessible = [] }) in (code_of l.missing, l)

-- The series starts in time and ends before the period does.
unfoldable pub ends_early : Series → Bool
ends_early s = not (ltb_ℤ s.beg_period s.from) && ltb_ℤ s.to s.end_period

unfoldable pub all_end_early : List Series → Bool
all_end_early [] = true
all_end_early (s ∷ ss) = let rest = all_end_early ss in ends_early s && rest

code_of-last : (xs : List (ℤ × ℤ)) (x : ℤ × ℤ) → code_of (xs ++ x ∷ []) ≡ integrity_violated
code_of-last [] x = refl
code_of-last (y ∷ ys) x = refl

log_gaps-code :
    (s : Series) (l : Logs)
    → code_of ((log_gaps s l).missing)
      ≡ (if ends_early s then code_of l.missing else integrity_violated)
unfolding log_gaps ends_early
log_gaps-code s l = ground (
  arith,
  code_of-last l.missing (s.to, s.end_period),
  code_of-last l.missing (s.beg_period, s.from),
  code_of-last (l.missing ++ (s.beg_period, s.from) ∷ []) (s.to, s.end_period),
)

log_all-code :
    (ss : List Series) (l : Logs)
    → code_of ((log_all ss l).missing)
      ≡ (if all_end_early ss then code_of l.missing else integrity_violated)
unfolding log_all all_end_early
log_all-code [] l = refl
log_all-code (s ∷ ss) l =
    ground (arith, log_gaps-code s l, log_all-code ss (log_accessible s.from s.to (log_gaps s l)))

-- The report says NONE exactly if every series starts in time and ends before its period does, so
-- that data is missing at the end of each; a series that covers its period is a violation.
pub report-reversed :
    (ss : List Series) → (report ss).0 ≡ (if all_end_early ss then done else integrity_violated)
unfolding report
report-reversed ss = log_all-code ss (record { missing = []; accessible = [] })
