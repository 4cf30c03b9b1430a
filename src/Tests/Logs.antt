-- ===== src/Tests/Logs.antt =====
-- A logger, and the theorems on the log applied to it.
use mcl.Base.{
  ℕ, zero, suc, false, ◌≡◌, refl, none, some, [], ◌∷◌, pos, ok, fault, null, ltb, ◌==◌,
  if◌then◌else◌, arith,
}
use mcl.Log
use mcl.Log.{
  Text, Logger, Output, silent, level_forbidden, written, log_info, equal_text, default_stdout,
  dot_log, lv_all, lv_warn,
}
use mcl.Log.Messages.{line_of, log_info-line_of, new_fault}

abbrev logger : Logger
logger = record { fp = 3; lv = 2 }

-- "hi"
abbrev hi : Text
hi = 104 ∷ 105 ∷ []

log_info-line_of_example :
    log_info (some logger) lv_warn none (pos 0) (some hi) []
    ≡ ok (
        if ltb lv_warn logger.lv
        then level_forbidden
        else if logger.fp == null
        then silent
        else written (line_of logger lv_warn none (pos 0) hi []))
log_info-line_of_example = log_info-line_of logger lv_warn none (pos 0) [] hi (refl, (refl, tt))

not_stdout : equal_text hi default_stdout ≡ false
unfolding equal_text
not_stdout = refl

abbrev open_all : Text → ℕ
open_all path = 5

-- A name of so many letters.
abbrev letters : ℕ → Text
letters zero = []
letters (suc n) = 97 ∷ letters n

letters_differ : equal_text (letters 600) default_stdout ≡ false
unfolding equal_text
letters_differ = refl

new_fault_example : Log.new 1 open_all (letters 600) ≡ fault
new_fault_example = new_fault 1 open_all (letters 600) letters_differ (omega arith)
