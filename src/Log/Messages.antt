-- ===== src/Log/Messages.antt =====
-- What util/mcl_log.c writes, and where it opens its file.
use mcl.Base.{
  ℕ, zero, suc, ◌≤◌, ◌<◌, ◌≡◌, refl, false, Option, none, some, List, [], ◌∷◌, ◌++◌, ℤ, Ptr, null,
  ok, fault, length, length-append, take, get_elem?, ltb, ◌==◌, if◌then◌else◌, arith, Bool-cases,
  inl, inr,
}
use mcl.Block.{Block, malloc}
use mcl.Log.{
  Text, snprintf, text_of, make_filepath, make_mode, dot_log, Logger, Line, level_forbidden, silent,
  written, place_of, log_info, log_with, new, equal_text, default_stdout, lv_all, debug, info, warn,
  error, fatal, unknown,
}
use mcl.Log.Buffers.{IsText, print_text-text_of, print_text_fault, snprintf-take, IsText-append}

-- The names of the levels 0 to 6 in the log.
abbrev pub mode_names : List Text
mode_names = unknown ∷ unknown ∷ debug ∷ info ∷ error ∷ error ∷ fatal ∷ []

abbrev pub mode_name : ℕ → Text
mode_name n = elim (get_elem? mode_names n) [ none ↦ unknown | some m ↦ m ]

abbrev Names : ℕ → Block → Text → Type 0
Names level b name = (b' : Block) × (make_mode 8 level b ≡ ok b') × (text_of b' ≡ name)

unknown-IsText : IsText unknown
unknown-IsText = (refl, (refl, (refl, (refl, (refl, (refl, (refl, tt)))))))

error-IsText : IsText error
error-IsText = (refl, (refl, (refl, (refl, (refl, tt)))))

other_level : (m k : ℕ) → k < m → (m == k) ≡ false
other_level m k h = ground arith

-- Each level's name fits.
make_mode-Names : (level : ℕ) (b : Block) → b.size ≡ 8 → Names level b (mode_name level)
unfolding make_mode snprintf
make_mode-Names zero b e = print_text-text_of 8 unknown b unknown-IsText e (omega arith)
make_mode-Names (suc zero) b e = print_text-text_of 8 unknown b unknown-IsText e (omega arith)
make_mode-Names (suc (suc zero)) b e =
    print_text-text_of 8 debug b (refl, (refl, (refl, (refl, (refl, tt))))) e (omega arith)
make_mode-Names (suc (suc (suc zero))) b e =
    print_text-text_of 8 info b (refl, (refl, (refl, (refl, tt)))) e (omega arith)
make_mode-Names (suc (suc (suc (suc zero)))) b e =
    print_text-text_of 8 error (snprintf 8 warn b).0 error-IsText e (omega arith)
make_mode-Names (suc (suc (suc (suc (suc zero))))) b e =
    print_text-text_of 8 error b error-IsText e (omega arith)
make_mode-Names (suc (suc (suc (suc (suc (suc zero)))))) b e =
    print_text-text_of 8 fatal b (refl, (refl, (refl, (refl, (refl, tt))))) e (omega arith)
make_mode-Names (suc (suc (suc (suc (suc (suc (suc n))))))) b e =
    let (b', run, named) = print_text-text_of 8 unknown b unknown-IsText e (omega arith) in
    (
      b',
      rw
          (
            other_level (suc (suc (suc (suc (suc (suc (suc n))))))) 2 (omega arith),
            other_level (suc (suc (suc (suc (suc (suc (suc n))))))) 3 (omega arith),
            other_level (suc (suc (suc (suc (suc (suc (suc n))))))) 4 (omega arith),
            other_level (suc (suc (suc (suc (suc (suc (suc n))))))) 5 (omega arith),
            other_level (suc (suc (suc (suc (suc (suc (suc n))))))) 6 (omega arith),
          )
          run,
      named,
    )

-- The line that a message becomes.
abbrev pub line_of : Logger → ℕ → Option Text → ℤ → Text → Text → Line
line_of l level file line content time = record {
  fp = l.fp;
  time = time;
  mode = mode_name level;
  place = place_of file line;
  content = take 255 content;
}

module _ (l : Logger) (level : ℕ) (file : Option Text) (line : ℤ) (time : Text) where
  -- `mcl_log_info` with a content without NULs writes one line if the level is not below the
  -- logger's and the logger has a file, and else none. The line has the level's name, where that
  -- of a warning is ERROR, and the first 255 characters of the content.
  pub log_info-line_of :
      (content : Text)
      → IsText content
      → log_info (some l) level file line (some content) time
        ≡ ok (
            if ltb level l.lv
            then level_forbidden
            else if l.fp == null
            then silent
            else written (line_of l level file line content time))
  unfolding log_info log_with malloc
  log_info-line_of content t =
      let (b, run, named) = make_mode-Names level (malloc 8) refl in
      let cut = snprintf-take 255 content (malloc 256) t refl in
      elim (Bool-cases (ltb level l.lv)) [
        | inl low ↦ rw low refl
        | inr high ↦ elim (Bool-cases (l.fp == null)) [
          | inl e ↦ rw (high, e) refl
          | inr e ↦ rw (high, e, run, named, cut) refl
        ]
      ]

-- `mcl_log_new` of a name without NULs that is not the one for the standard output and has up to
-- 507 characters opens the file of that name with the suffix .log, and logs all levels; it gives
-- NULL if that cannot be opened.
pub new-opens :
    (stdout : Ptr) (fopen : Text → Ptr) (name : Text)
    → IsText name
    → equal_text name default_stdout ≡ false
    → length name < 508
    → new stdout fopen name
      ≡ ok (
          if fopen (name ++ dot_log) == null
          then none
          else some (record { fp = fopen (name ++ dot_log); lv = lv_all }))
unfolding new make_filepath malloc
new-opens stdout fopen name t e h =
    let n = length-append name dot_log in
    let (b, run, path) =
      print_text-text_of 512 (name ++ dot_log) (malloc 512)
        (IsText-append name dot_log t (refl, (refl, (refl, (refl, tt))))) refl (omega (arith, n)) in
    let some_path : (length (name ++ dot_log) == 0) ≡ false = ground (arith, n) in
    elim (Bool-cases (fopen (name ++ dot_log) == null)) [
      | inl z ↦ rw (e, run, path, some_path, z) refl
      | inr f ↦ rw (e, run, path, some_path, f) refl
    ]

-- `mcl_log_new` of a name of 508 characters or more, not the one for the standard output, writes
-- outside its buffer for the path.
pub new_fault :
    (stdout : Ptr) (fopen : Text → Ptr) (name : Text)
    → equal_text name default_stdout ≡ false
    → 508 ≤ length name
    → new stdout fopen name ≡ fault
unfolding new make_filepath malloc
new_fault stdout fopen name e h =
    let run =
      print_text_fault 512 (name ++ dot_log) (malloc 512) refl
        (omega (arith, length-append name dot_log)) in
    rw (e, run) refl
