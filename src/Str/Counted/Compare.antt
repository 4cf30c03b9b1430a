-- ===== src/Str/Counted/Compare.antt =====
-- What `mcl_string_cmp` of util/mcl_string.c says of two strings.
use mcl.Base.{
  ℕ, zero, suc, ◌+◌, ◌≤◌, ◌<◌, ◌≡◌, refl, sym, ap, ◌∙◌, true, false, some, ok, ℤ, pos, negsuc, ◌==◌,
  ==_iff, ltb, if◌then◌else◌, arith, Bool-cases, inl, inr, ◌⊎◌,
}
use mcl.Block.{read, read-ok}
use mcl.Str.{Str}
use mcl.Str.Trim.{IsStr}
use mcl.Str.Counted.{strcmp_at, cmp, copy}
use mcl.Str.Counted.Copies.{copy-IsStr}

-- The characters with the NUL behind them.
abbrev pub char_at : (n : ℕ) → (ℕ → ℕ) → ℕ → ℕ
char_at n c i = if i == n then 0 else c i

abbrev pub sign : ℕ → ℕ → ℤ
sign x y = if x == y then pos 0 else if ltb x y then negsuc 0 else pos 1

-- The comparison ends at the first place where the characters differ, or at the ends of both, and
-- gives the order of the characters there.
pub record Compares (fuel n m : ℕ) (c d : ℕ → ℕ) (s t : Str) : Type 0 where
  pub at : ℕ
  pub in_first : at ≤ n
  pub in_second : at ≤ m
  pub before : (j : ℕ) → j < at → c j ≡ d j
  pub stops : ((char_at n c at == char_at m d at) ≡ false) ⊎ ((at ≡ n) × (at ≡ m))
  pub result : cmp fuel s t ≡ ok (some (sign (char_at n c at) (char_at m d at)))

read-char_at :
    (s : Str) (n : ℕ) (c : ℕ → ℕ) (i : ℕ)
    → IsStr s n c
    → i ≤ n
    → read s.chars i ≡ ok (char_at n c i)
read-char_at s n c i v h = elim (Bool-cases (i == n)) [
  | inl e ↦
      let same = (==_iff i n).0 e in
      let nul : s.chars.cell i ≡ some 0 = ap s.chars.cell same ∙ v.nul in
      rw e (read-ok s.chars i 0 (omega (arith, v.fits)) nul)
  | inr e ↦ rw e (read-ok s.chars i (c i) (omega (arith, v.fits)) (v.cells i (ground arith)))
]

-- Before the end no character is NUL.
ends_at :
    (s : Str) (n : ℕ) (c : ℕ → ℕ) (i : ℕ)
    → IsStr s n c
    → i ≤ n
    → (char_at n c i == 0) ≡ true
    → i ≡ n
ends_at s n c i v h e = elim (Bool-cases (i == n)) [
  | inl f ↦ (==_iff i n).0 f
  | inr f ↦ let no_nul = v.no_nul i (ground arith) in ground arith
]

goes_on : (n : ℕ) (c : ℕ → ℕ) (i : ℕ) → i ≤ n → (char_at n c i == 0) ≡ false → i < n
goes_on n c i h e = ground arith

plain : (n : ℕ) (c : ℕ → ℕ) (i : ℕ) → i < n → char_at n c i ≡ c i
plain n c i h = ground arith

module _ (s t : Str) (n m : ℕ) (c d : ℕ → ℕ) (v : IsStr s n c) (u : IsStr t m d) where
  -- From the subscript `i` on.
  record ComparesFrom (k i : ℕ) : Type 0 where
    at : ℕ
    in_first : at ≤ n
    in_second : at ≤ m
    from : i ≤ at
    before : (j : ℕ) → i ≤ j → j < at → c j ≡ d j
    stops : ((char_at n c at == char_at m d at) ≡ false) ⊎ ((at ≡ n) × (at ≡ m))
    result : strcmp_at k i s.chars t.chars ≡ ok (some (sign (char_at n c at) (char_at m d at)))

  strcmp_at-ComparesFrom : (k i : ℕ) → i ≤ n → i ≤ m → n < i + k → ComparesFrom k i
  unfolding strcmp_at
  strcmp_at-ComparesFrom zero i h g l = ground arith
  strcmp_at-ComparesFrom (suc k) i h g l =
      let x = char_at n c i in
      let y = char_at m d i in
      let rx = read-char_at s n c i v h in
      let ry = read-char_at t m d i u g in
      elim (Bool-cases (x == y)) [
        | inr differ ↦ record {
          at = i;
          in_first = h;
          in_second = g;
          from = omega arith;
          before = λ j a b. ground arith;
          stops = inl differ;
          result = rw (rx, ry, differ) refl;
        }
        | inl equal ↦ elim (Bool-cases (x == 0)) [
          | inl z ↦ record {
            at = i;
            in_first = h;
            in_second = g;
            from = omega arith;
            before = λ j a b. ground arith;
            stops = inr (
              ends_at s n c i v h z,
              ends_at t m d i u g (ap (λ q. q == 0) (sym ((==_iff x y).0 equal)) ∙ z),
            );
            result = rw (rx, ry, equal, z) refl;
          }
          | inr nz ↦
              let same = (==_iff x y).0 equal in
              let lt = goes_on n c i h nz in
              let lt' = goes_on m d i g (ap (λ q. q == 0) (sym same) ∙ nz) in
              let same_here : c i ≡ d i = sym (plain n c i lt) ∙ same ∙ plain m d i lt' in
              let r = strcmp_at-ComparesFrom k (suc i) (omega arith) (omega arith) (omega arith) in
              record {
                at = r.at;
                in_first = r.in_first;
                in_second = r.in_second;
                from = omega (arith, r.from);
                before = λ j a b. elim (Bool-cases (j == i)) [
                  | inl e ↦ let f = (==_iff j i).0 e in ap c f ∙ same_here ∙ sym (ap d f)
                  | inr e ↦ r.before j (ground arith) b
                ];
                stops = r.stops;
                result = rw (rx, ry, equal, nz) r.result;
              }
        ]
      ]

  -- `mcl_string_cmp` of two strings without NULs before their ends, with fuel for the characters
  -- of the first, ends without a fault at the first place where they differ, or at the ends of
  -- both, and returns by sign the order of the characters there, the NUL included.
  pub cmp-Compares : (fuel : ℕ) → n < fuel → Compares fuel n m c d s t
  unfolding cmp
  cmp-Compares fuel h =
      let r = strcmp_at-ComparesFrom fuel 0 (omega arith) (omega arith) (omega arith) in
      record {
        at = r.at;
        in_first = r.in_first;
        in_second = r.in_second;
        before = λ j b. r.before j (omega arith) b;
        stops = r.stops;
        result = r.result;
      }

-- `mcl_string_copy` of a string without NULs before its end ends without a fault and makes a
-- string with the same characters, length and a count of 1, and `mcl_string_cmp` of the two, with
-- fuel for the characters, returns 0.
pub copy-cmp :
    (s : Str) (n : ℕ) (c : ℕ → ℕ) (fuel : ℕ)
    → IsStr s n c
    → n < fuel
    → (s' : Str) × (copy s ≡ ok s')
      × IsStr s' n c
      × (s'.ref ≡ 1)
      × (cmp fuel s s' ≡ ok (some (pos 0)))
copy-cmp s n c fuel v h =
    let (s', run, v', one) = copy-IsStr s n c v in
    let r = cmp-Compares s s' n n c c v v' fuel h in
    let self = (==_iff (char_at n c r.at) (char_at n c r.at)).1 refl in
    (s', run, v', one, r.result ∙ rw self refl)
