-- ===== src/Log.antt =====
-- The log of util/mcl_log.c. Text is a list of characters. A `FILE *` is a number, 0 being NULL;
-- the formatted content and the time of a message are arguments.
pub mod Buffers
pub mod Messages
use mcl.Base.{
  ℕ, zero, suc, ◌+◌, ◌-◌, Bool, true, false, ◌&&◌, Option, none, some, List, [], ◌∷◌, ◌++◌, ℤ, Run,
  ok, fault, ◌>>=◌, Ptr, null, length, take, get_elem?, ltb, ◌==◌, if◌then◌else◌,
}
use mcl.Block.{Block, malloc, write}

abbrev pub Text : Type 0
Text = List ℕ

-- The C library's `snprintf` into a buffer of this size: what fits, with a NUL, and the length that
-- the whole text has.
unfoldable pub snprintf : (size : ℕ) → Text → Block → Block × ℕ
snprintf size text b =
    let n = length (take (size - 1) text) in
    (
      record b {
        cell = λ i. if ltb i n then get_elem? text i else if i == n then some 0 else b.cell i;
      },
      length text,
    )

-- The characters up to the NUL, from the subscript `i` on, with `k` cells left.
unfoldable pub text_from : (k i : ℕ) → Block → Text
text_from zero i b = []
text_from (suc k) i b =
    let rest = text_from k (suc i) b in
    elim (b.cell i) [ none ↦ [] | some c ↦ if c == 0 then [] else c ∷ rest ]

unfoldable pub text_of : Block → Text
unfolding text_from
text_of b = text_from b.size 0 b

-- `mcl_log_level`
abbrev pub lv_all : ℕ
lv_all = 1

abbrev pub lv_debug : ℕ
lv_debug = 2

abbrev pub lv_info : ℕ
lv_info = 3

abbrev pub lv_warn : ℕ
lv_warn = 4

abbrev pub lv_error : ℕ
lv_error = 5

abbrev pub lv_fatal : ℕ
lv_fatal = 6

-- `mcl_log` without `_mode`, which nothing uses.
pub record Logger : Type 0 where
  pub fp : Ptr
  pub lv : ℕ

abbrev pub dot_log : Text
dot_log = 46 ∷ 108 ∷ 111 ∷ 103 ∷ []

abbrev pub slash : Text
slash = 47 ∷ []

-- "__STDOUT__"
abbrev pub default_stdout : Text
default_stdout = 95 ∷ 95 ∷ 83 ∷ 84 ∷ 68 ∷ 79 ∷ 85 ∷ 84 ∷ 95 ∷ 95 ∷ []

-- `g_log_dirname`, to which nothing is assigned.
abbrev pub log_dirname : Text
log_dirname = []

abbrev pub log_path : Text → Text → Text
log_path [] filename = filename ++ dot_log
log_path (c ∷ dir) filename = ((c ∷ dir) ++ slash) ++ (filename ++ dot_log)

-- The text is put into the buffer, and a NUL where the whole text would end.
unfoldable pub print_text : (size : ℕ) → Text → Block → Run Block
unfolding snprintf
print_text size text b = let (b', n) = snprintf size text b in write b' n 0

unfoldable pub make_filepath : (size : ℕ) → Text → Block → Run Block
unfolding print_text
make_filepath size filename output = print_text size (log_path log_dirname filename) output

unfoldable pub equal_text : Text → Text → Bool
equal_text [] [] = true
equal_text [] (c ∷ cs) = false
equal_text (b ∷ bs) [] = false
equal_text (b ∷ bs) (c ∷ cs) = b == c && equal_text bs cs

-- `mcl_log_new`, with `stdout` and what `fopen` gives for a path, 0 if it fails
unfoldable pub new : (stdout : Ptr) → (fopen : Text → Ptr) → Text → Run (Option Logger)
unfolding make_filepath equal_text
new stdout fopen log_name =
    let opened : Run (Option Logger) = (do
      b ← make_filepath 512 log_name (malloc 512)
      let path = text_of b
      if length path == 0
          then ok none
          else if fopen path == null
          then ok none
          else ok (some (record { fp = fopen path; lv = lv_all }))) in
    if equal_text log_name default_stdout
    then ok (some (record { fp = stdout; lv = lv_all }))
    else opened

abbrev pub debug : Text
debug = 68 ∷ 69 ∷ 66 ∷ 85 ∷ 71 ∷ []

abbrev pub info : Text
info = 73 ∷ 78 ∷ 70 ∷ 79 ∷ []

abbrev pub warn : Text
warn = 87 ∷ 65 ∷ 82 ∷ 78 ∷ []

abbrev pub error : Text
error = 69 ∷ 82 ∷ 82 ∷ 79 ∷ 82 ∷ []

abbrev pub fatal : Text
fatal = 70 ∷ 65 ∷ 84 ∷ 65 ∷ 76 ∷ []

-- "UNKONWN", as the source has it
abbrev pub unknown : Text
unknown = 85 ∷ 78 ∷ 75 ∷ 79 ∷ 78 ∷ 87 ∷ 78 ∷ []

-- The case for `LV_WARN` falls through to the next.
unfoldable pub make_mode : (size : ℕ) → ℕ → Block → Run Block
unfolding print_text
make_mode size lv modestr =
    if lv == lv_debug
    then print_text size debug modestr
    else if lv == lv_info
    then print_text size info modestr
    else if lv == lv_warn
    then print_text size error (snprintf size warn modestr).0
    else if lv == lv_error
    then print_text size error modestr
    else if lv == lv_fatal
    then print_text size fatal modestr
    else print_text size unknown modestr

-- A line that is written, with the file name and the line number if there is a file name.
pub record Line : Type 0 where
  pub fp : Ptr
  pub time : Text
  pub mode : Text
  pub place : Option (Text × ℤ)
  pub content : Text

-- What `mcl_log_info` prints: a complaint on the standard output, nothing, or a line.
pub data Output : Type 0 where
  level_forbidden : Output
  null_content : Output
  silent : Output
  written : Line → Output

abbrev pub place_of : Option Text → ℤ → Option (Text × ℤ)
place_of none line = none
place_of (some file) line = some (file, line)

log_with : Logger → ℕ → Option Text → ℤ → Text → Text → Run Output
log_with l level file line content time = if l.fp == null then ok silent else do
  mode ← make_mode 8 level (malloc 8)
  ok (
      written (record {
        fp = l.fp;
        time = time;
        mode = text_of mode;
        place = place_of file line;
        content = text_of (snprintf 256 content (malloc 256)).0;
      }))

-- `mcl_log_info`. A logger, a file name and a format may be NULL.
unfoldable pub log_info : Option Logger → ℕ → Option Text → ℤ → Option Text → Text → Run Output
unfolding log_with
log_info none level file line fmt time = ok silent
log_info (some l) level file line fmt time =
    if ltb level l.lv then ok level_forbidden else elim fmt [
      | none ↦ ok null_content
      | some content ↦ log_with l level file line content time
    ]

-- `mcl_log_set_level`
unfoldable pub set_level : ℕ → Logger → Logger
set_level lv l = record l { lv = lv }

-- `mcl_log_destroy`: the files that it closes, that for the standard output among them. The logger
-- is gone.
unfoldable pub destroy : Logger → List Ptr
destroy l = if l.fp == null then [] else l.fp ∷ []
