-- ===== src/CString/Search.antt =====
-- strncmp, strstr, strcat, strdup and strndup of src/common/string.c, on texts as in CString.
use sector_os_re.Base.{
  ◌⊎◌, ◌≤◌, ◌/◌, ◌*◌, inr, ◌∙◌, refl, inl, ◌||◌, Bool-cases, ap, not, ◌-◌, arith, ◌&&◌, sub32,
  false, ◌+◌, zero, suc, ltb, ◌==◌, none, ◌≡◌, ◌>>=◌, some, ◌^◌, true, length, Option,
  if◌then◌else◌, Bool, ◌∷◌, ◌<◌, [], ◌++◌, List, ℕ,
}
use sector_os_re.CString.{strlen}

-- A `char`, as the `int` that it becomes.
unfoldable pub char_int : ℕ → ℕ
char_int c = if ltb c 128 then c else c + (2 ^ 32 - 2 ^ 8)

-- The `while` loop; a difference of two bytes is an `int`.
unfoldable pub strncmp : List ℕ → List ℕ → ℕ → Option ℕ
strncmp s1 s2 zero = some 0
strncmp [] s2 (suc c) = none
strncmp (a ∷ s1) [] (suc c) = none
strncmp (a ∷ s1) (b ∷ s2) (suc c) =
    let rest = strncmp s1 s2 c in
    let result = sub32 (char_int a) (char_int b) in
    if not (result == 0) || (a == 0) then some result else rest

abbrev at_or : ℕ → Option (Option ℕ) → ℕ → Option (Option ℕ)
at_or i rest result = if result == 0 then some (some i) else rest

-- Both `do` loops, from index `i` on: the index of `in - 1`, or `none` for NULL.
unfoldable pub strstr_from : List ℕ → ℕ → List ℕ → ℕ → ℕ → Option (Option ℕ)
strstr_from [] c str len i = none
strstr_from (sc ∷ in_text) c str len i =
    let rest = strstr_from in_text c str len (i + 1) in
    if sc == 0
    then some none
    else if sc == c
    then strncmp in_text str len >>= (λ result. at_or i rest result)
    else rest

unfoldable pub strstr : List ℕ → List ℕ → Option (Option ℕ)
strstr in_text [] = none
strstr in_text (c ∷ str) =
    if c == 0 then some (some 0) else strlen str >>= (λ len. strstr_from in_text c str len 0)

-- The text in front of the 0.
abbrev text_before : List ℕ → ℕ → List ℕ
text_before s zero = []
text_before [] (suc n) = []
text_before (c ∷ s) (suc n) = c ∷ text_before s n

-- What `dest` holds up to its new 0.
unfoldable pub strcat : List ℕ → List ℕ → Option (List ℕ)
strcat dest src = do
  n ← strlen dest
  m ← strlen src
  some (text_before dest n ++ text_before src m ++ 0 ∷ [])

-- What the new buffer holds.
unfoldable pub strdup : List ℕ → Option (List ℕ)
strdup src = do n ← strlen src; some (text_before src (n + 1))

-- For a `src` of at least `len` bytes.
unfoldable pub strndup : List ℕ → ℕ → List ℕ
strndup src len = text_before src len ++ 0 ∷ []

-- A text has no 0, and bytes below 256.
abbrev pub IsText : List ℕ → Type 0
IsText [] = Unit
IsText (c ∷ s) = (0 < c) × (c < 2 ^ 8) × IsText s

-- The reference: whether a text begins with another one, and where one first stands in another.
unfoldable pub begins : List ℕ → List ℕ → Bool
begins [] s = true
begins (c ∷ word) [] = false
begins (c ∷ word) (x ∷ s) = (x == c) && begins word s

unfoldable pub first_at : List ℕ → List ℕ → ℕ → Option ℕ
first_at word [] i = none
first_at word (x ∷ s) i =
    let rest = first_at word s (i + 1) in if begins word (x ∷ s) then some i else rest

char_int-same :
    (a b : ℕ) → a < 2 ^ 8 → b < 2 ^ 8 → (sub32 (char_int a) (char_int b) == 0) ≡ (a == b)
unfolding char_int
char_int-same a b lt lt' = ground arith

strncmp-begins :
    (s word more more' : List ℕ)
    → IsText s
    → IsText word
    → (r : ℕ) × (strncmp (s ++ 0 ∷ more) (word ++ more') (length word) ≡ some r)
      × ((r == 0) ≡ begins word s)
unfolding strncmp begins
strncmp-begins s [] more more' text word_text = (0, refl, refl)
strncmp-begins [] (c ∷ word) more more' text (pos, small, word_text) =
    let result = sub32 (char_int 0) (char_int c) in
    let same = char_int-same 0 c (omega arith) small in
    let differs : (result == 0) ≡ false = ground (arith, same, pos) in
    (result, rw differs refl, differs)
strncmp-begins (x ∷ s) (c ∷ word) more more' (pos', small', text) (pos, small, word_text) =
    let result = sub32 (char_int x) (char_int c) in
    let same = char_int-same x c small' small in
    let set : (x == 0) ≡ false = ground (arith, pos') in
    elim (Bool-cases (x == c)) [
      | inl equal ↦
          let none' : (result == 0) ≡ true = same ∙ equal in
          let (r, found, means) = strncmp-begins s word more more' text word_text in
          (r, rw (none', set) found, rw equal means)
      | inr other ↦
          let differs : (result == 0) ≡ false = same ∙ other in
          (result, rw differs refl, rw other differs)
    ]

strstr_from-first_at :
    (s : List ℕ) (c : ℕ) (word more more' : List ℕ) (i : ℕ)
    → IsText s
    → 0 < c
    → IsText word
    → strstr_from (s ++ 0 ∷ more) c (word ++ more') (length word) i ≡ some (first_at (c ∷ word) s i)
unfolding strstr_from first_at begins
strstr_from-first_at [] c word more more' i text pos word_text = refl
strstr_from-first_at (x ∷ s) c word more more' i (pos', small, text) pos word_text =
    let later = strstr_from-first_at s c word more more' (i + 1) text pos word_text in
    let set : (x == 0) ≡ false = ground (arith, pos') in
    let (r, found, means) = strncmp-begins s word more more' text word_text in
    elim (Bool-cases (x == c)) [
      | inl equal ↦ elim (Bool-cases (begins word s)) [
        | inl starts ↦
            let zero_result : (r == 0) ≡ true = means ∙ starts in
            rw (set, equal, found, zero_result, starts) refl
        | inr goes_on ↦
            let some_result : (r == 0) ≡ false = means ∙ goes_on in
            rw (set, equal, found, some_result, goes_on) later
      ]
      | inr other ↦ rw (set, other) later
    ]

strlen-text : (word more : List ℕ) → IsText word → strlen (word ++ 0 ∷ more) ≡ some (length word)
unfolding strlen
strlen-text [] more text = refl
strlen-text (c ∷ word) more (pos, small, text) =
    let set : (c == 0) ≡ false = ground (arith, pos) in
    rw (set, strlen-text word more text) (ap some (omega arith))

-- For two texts, of which the second is not empty, strstr answers where the second one first stands
-- in the first one, and NULL if it stands nowhere; what lies behind their ends plays no part.
pub strstr-first_at :
    (s : List ℕ) (c : ℕ) (word more more' : List ℕ)
    → IsText s
    → IsText (c ∷ word)
    → strstr (s ++ 0 ∷ more) (c ∷ word ++ 0 ∷ more') ≡ some (first_at (c ∷ word) s 0)
unfolding strstr
strstr-first_at s c word more more' text (pos, small, word_text) =
    let set : (c == 0) ≡ false = ground (arith, pos) in
    rw (set, strlen-text word more' word_text)
      (strstr_from-first_at s c word more (0 ∷ more') 0 text pos word_text)

-- The letters that stoc puts behind the number.
pub data SizeUnit : Type 0 where
  in_gb in_mb in_kb in_b : SizeUnit

-- The number that stoc prints of a size, by itoa, and its unit.
unfoldable pub stoc : ℕ → ℕ × SizeUnit
stoc n =
    if not (n / (1024 * 1024) / 2 ^ 10 == 0)
    then (n / (1024 * 1024 * 1024), in_gb)
    else if not (n / 1024 / 2 ^ 10 == 0)
    then (n / (1024 * 1024), in_mb)
    else if not (n / 2 ^ 10 == 0)
    then (n / 1024, in_kb)
    else (n, in_b)

abbrev pub unit_size : SizeUnit → ℕ
unit_size in_gb = 1024 * 1024 * 1024
unit_size in_mb = 1024 * 1024
unit_size in_kb = 1024
unit_size in_b = 1

-- The number that is printed is the size in whole units, below 1024 but for the largest unit, and it
-- is 0 for the size 0 only.
pub stoc-whole :
    (n : ℕ)
    → let (number, unit) = stoc n in
      (number * unit_size unit ≤ n)
      × (n < number * unit_size unit + unit_size unit)
      × ((unit ≡ in_gb) ⊎ (number < 1024))
      × (number ≡ 0 → n ≡ 0)
unfolding stoc
stoc-whole n = ground arith
