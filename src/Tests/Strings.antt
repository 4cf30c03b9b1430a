-- ===== src/Tests/Strings.antt =====
-- Strings of util/mcl_string.c at concrete values.
use mcl.Base.{pos, ℕ, suc, ◌+◌, ◌-◌, ◌≡◌, refl, some, ok, fault, ◌==◌, if◌then◌else◌, arith}
use mcl.Str.{Str, trim}
use mcl.Str.Counted.{copy, cmp}
use mcl.Str.Counted.Compare.{Compares, cmp-Compares, copy-cmp}
use mcl.Str.Trim.{IsStr, trim-IsStr, trim_blank}

-- The letter `a` (97) between spaces: two in front and one behind.
abbrev letter : ℕ → ℕ
letter i = if i == 2 then 97 else 32

abbrev padded : Str
padded = record {
  len = 4;
  ref = 1;
  chars = record { size = 5; cell = λ i. some (if i == 4 then 0 else letter i) };
}

padded-IsStr : IsStr padded 4 letter
padded-IsStr = record {
  size = refl;
  fits = omega arith;
  cells = λ i h. ground arith;
  no_nul = λ i h. ground arith;
  nul = refl;
}

trim-IsStr_example :
    (s : Str) × (trim 5 padded ≡ ok (some s))
    × IsStr s (suc 2 - 2) (λ i. letter (i + 2))
    × (s.ref ≡ 1)
trim-IsStr_example =
    trim-IsStr padded 4 letter 2 2 5 padded-IsStr (omega arith) (omega arith) (omega arith) refl
      refl (λ i h. ground arith) (λ i h k. ground arith)

-- Three spaces
abbrev spaces : Str
spaces = record {
  len = 3;
  ref = 1;
  chars = record { size = 4; cell = λ i. some (if i == 3 then 0 else 32) };
}

spaces-IsStr : IsStr spaces 3 (λ i. 32)
spaces-IsStr = record {
  size = refl;
  fits = omega arith;
  cells = λ i h. ground arith;
  no_nul = λ i h. refl;
  nul = refl;
}

trim_blank_example : trim 4 spaces ≡ fault
trim_blank_example = trim_blank spaces 3 (λ i. 32) 4 spaces-IsStr (omega arith) (λ i h. refl)

copy-cmp_example :
    (s : Str) × (copy padded ≡ ok s)
    × IsStr s 4 letter
    × (s.ref ≡ 1)
    × (cmp 5 padded s ≡ ok (some (pos 0)))
copy-cmp_example = copy-cmp padded 4 letter 5 padded-IsStr (omega arith)

cmp-Compares_example : Compares 5 4 4 letter letter padded padded
cmp-Compares_example =
    cmp-Compares padded padded 4 4 letter letter padded-IsStr padded-IsStr 5 (omega arith)
